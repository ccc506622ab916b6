-- ===== src/Chunk/Writes.antt =====
-- What a chunk writes: the bytes of the stream, without a gap, from where it starts to its offset.
use mathlib.Core.List.{append-nil}
use simple_downloader.Prelude.{
  ℕ, zero, suc, ◌+◌, ◌-◌, ◌%◌, ◌≤◌, ◌<◌, ◌≡◌, refl, ◌⊎◌, sym, ap, ◌∙◌, inl, inr, min, Bool, true,
  false, List, [], ◌∷◌, ◌++◌, map, Option, none, some, ltb, if◌then◌else◌, length, length-take,
  take, take_all, sat_add, u64_max, u32_mod, Bool-cases, arith, ◌==◌,
}
use simple_downloader.Types.{
  DownloadCmd, write_file, bisect_download, bisect_download_skewed, terminate_chunk, terminate_all,
}
use simple_downloader.Chunk.Split.{split_range_skewed-Cut, Cut}
use simple_downloader.Chunk.{
  Chunk, Event, command, lagged, closed, bytes, stream_error, stream_end, idle_timeout, Env, Effect,
  write, acquire, broadcast, progress, terminal, reliable, Outcome, fail_rest, bisect, on_command,
  batches, advance, on_bytes, on_stream_end, step,
}

-- The blocks that the file writer took, with their offsets.
abbrev pub writes : List Effect → List (ℕ × List ℕ)
writes [] = []
writes (write offset block ∷ fx) = (offset, block) ∷ writes fx
writes (other ∷ fx) = writes fx

-- The blocks lie one behind the other, from `offset` up to `end`.
abbrev pub Placed : ℕ → List (ℕ × List ℕ) → ℕ → Type 0
Placed offset [] end = offset ≡ end
Placed offset ((o, block) ∷ ws) end = (o ≡ offset) × Placed (offset + length block) ws end

abbrev pub content : List (ℕ × List ℕ) → List ℕ
content [] = []
content ((o, block) ∷ ws) = block ++ content ws

-- The bytes that an event, and the whole stream, delivers.
abbrev pub got_by : Event → List ℕ
got_by (bytes block) = block
got_by other = []

abbrev pub received : List (Env × Event) → List ℕ
received [] = []
received ((env, e) ∷ events) = got_by e ++ received events

-- The chunk's position is within its range, whose end is below the largest `u64`.
pub record InRange (c : Chunk) : Type 0 where
  pub from_start : c.start_byte ≤ c.offset
  pub to_end : c.offset ≤ c.end + 1
  pub bounded : c.end < u64_max

pub writes-append : (fx gx : List Effect) → writes (fx ++ gx) ≡ writes fx ++ writes gx
writes-append [] gx = refl
writes-append (write o b ∷ fx) gx = ap (◌∷◌ (o, b)) (writes-append fx gx)
writes-append (acquire n ∷ fx) gx = writes-append fx gx
writes-append (broadcast i ∷ fx) gx = writes-append fx gx
writes-append (progress i ∷ fx) gx = writes-append fx gx
writes-append (terminal i ∷ fx) gx = writes-append fx gx
writes-append (reliable i ∷ fx) gx = writes-append fx gx

writes-acquire : (bs : List ℕ) (fx : List Effect) → writes (map acquire bs ++ fx) ≡ writes fx
writes-acquire [] fx = refl
writes-acquire (b ∷ bs) fx = writes-acquire bs fx

writes-fail_rest : (c : Chunk) (error : List ℕ) → writes (fail_rest c error).effects ≡ []
unfolding fail_rest
writes-fail_rest c error = ground arith

writes-advance :
    (env : Env) (c : Chunk) (n m : ℕ) (fx : List Effect)
    → writes (advance env c n m fx).effects ≡ writes fx
unfolding advance
writes-advance env c n m fx = writes-append fx _ ∙ ground (arith, append-nil (writes fx))

pub or_stopped {ℓ} : {b : Bool} {P : Type ℓ} → (b ≡ true → P) → (b ≡ false) ⊎ P
or_stopped {b = b} f = elim (Bool-cases b) [ inl t ↦ inr (f t) | inr t ↦ inl t ]

-- What a turn of the loop that receives `got` does.
pub record Turn (c : Chunk) (got : List ℕ) (o : Outcome) : Type 0 where
  pub same_start : o.chunk.start_byte ≡ c.start_byte
  pub in_range : InRange o.chunk
  pub placed : Placed c.offset (writes o.effects) o.chunk.offset
  pub prefix : (rest : List ℕ) × (content (writes o.effects) ++ rest ≡ got)
  pub whole : (o.running ≡ false) ⊎ (content (writes o.effects) ≡ got)

take-prefix : (n : ℕ) (xs : List ℕ) → (rest : List ℕ) × (take n xs ++ rest ≡ xs)
take-prefix zero xs = (xs, refl)
take-prefix (suc n) [] = ([], refl)
take-prefix (suc n) (x ∷ xs) = let (rest, e) = take-prefix n xs in (rest, ap (◌∷◌ x) e)

module _ (env : Env) (c : Chunk) (block : List ℕ) (r : InRange c) where
  abbrev write_len : ℕ
  write_len = min (sat_add (c.end - c.offset) 1) (length block)

  advance-Turn :
      (fx : List Effect)
      → c.offset ≤ c.end
      → writes fx ≡ (c.offset, take write_len block) ∷ []
      → Turn c block (advance env c write_len (length block) fx)
  unfolding advance
  advance-Turn fx h e =
      let w = writes-advance env c write_len (length block) fx ∙ e in
      let (rest, p) = take-prefix write_len block in
      record {
        same_start = ground arith;
        in_range = ground arith;
        placed = rw w (refl, ground (arith, length-take write_len block));
        prefix = rw (w, append-nil (take write_len block)) (rest, p);
        whole = or_stopped (λ running.
            rw (w, append-nil (take write_len block)) (take_all write_len block (ground arith)));
      }

-- A turn that writes nothing and leaves the position.
pub idle_Turn :
    (c : Chunk) (o : Outcome)
    → InRange c
    → o.chunk.start_byte ≡ c.start_byte
    → o.chunk.offset ≡ c.offset
    → o.chunk.end ≡ c.end
    → writes o.effects ≡ []
    → Turn c [] o
idle_Turn c o r s p e w = record {
  same_start = s;
  in_range = omega arith;
  placed = rw w (sym p);
  prefix = rw w ([], refl);
  whole = or_stopped (λ running. rw w);
}

-- A turn that ends the loop without a write.
stopped_Turn :
    (c : Chunk) (got : List ℕ) (o : Outcome)
    → InRange c
    → o.chunk.start_byte ≡ c.start_byte
    → o.chunk.offset ≡ c.offset
    → o.chunk.end ≡ c.end
    → o.running ≡ false
    → writes o.effects ≡ []
    → Turn c got o
stopped_Turn c got o r s p e h w = record {
  same_start = s;
  in_range = omega arith;
  placed = rw w (sym p);
  prefix = rw w (got, refl);
  whole = or_stopped (λ running. cc);
}

fail_rest-Turn :
    (c : Chunk) (got : List ℕ) (error : List ℕ) → InRange c → Turn c got (fail_rest c error)
unfolding fail_rest
fail_rest-Turn c got error r =
    stopped_Turn c got (fail_rest c error) r refl refl refl refl (writes-fail_rest c error)

bisect-Turn :
    (env : Env) (c : Chunk) (o : Option (ℕ × ℕ))
    → InRange c
    → Cut c.offset c.end o
    → Turn c [] (bisect env c o)
unfolding bisect
bisect-Turn env c none r k = idle_Turn c (bisect env c none) r refl refl refl refl
bisect-Turn env c (some (m, n)) r k = record {
  same_start = ground arith;
  in_range = ground arith;
  placed = ground arith;
  prefix = ([], refl);
  whole = or_stopped (λ running. refl);
}

on_command-Turn :
    (env : Env) (c : Chunk) (cmd : DownloadCmd) → InRange c → Turn c [] (on_command env c cmd)
unfolding on_command
on_command-Turn env c (write_file o b) r =
    idle_Turn c (on_command env c (write_file o b)) r refl refl refl refl
on_command-Turn env c (bisect_download id) r = elim (Bool-cases (c.id == id)) [
  | inl t ↦ rw t (bisect-Turn env c _ r (split_range_skewed-Cut c.offset c.end false r.bounded))
  | inr f ↦ rw f (idle_Turn c _ r refl refl refl refl)
]
on_command-Turn env c (bisect_download_skewed id) r = elim (Bool-cases (c.id == id)) [
  | inl t ↦ rw t (bisect-Turn env c _ r (split_range_skewed-Cut c.offset c.end true r.bounded))
  | inr f ↦ rw f (idle_Turn c _ r refl refl refl refl)
]
on_command-Turn env c (terminate_chunk id) r = elim (Bool-cases (c.id == id)) [
  | inl t ↦ rw t (fail_rest-Turn c [] _ r)
  | inr f ↦ rw f (idle_Turn c _ r refl refl refl refl)
]
on_command-Turn env c terminate_all r =
    stopped_Turn c [] (on_command env c terminate_all) r refl refl refl refl refl

writes-limited :
    (b : Bool) (bs : List ℕ) (fx : List Effect)
    → writes ((if b then map acquire bs else []) ++ fx) ≡ writes fx
writes-limited true bs fx = writes-acquire bs fx
writes-limited false bs fx = refl

on_bytes-Turn :
    (env : Env) (c : Chunk) (block : List ℕ) → InRange c → Turn c block (on_bytes env c block)
unfolding on_bytes
on_bytes-Turn env c block r =
    let n = min (sat_add (c.end - c.offset) 1) (length block) in
    let tokens = batches (n % u32_mod) (n % u32_mod) in
    elim (Bool-cases (ltb c.end c.offset)) [
      | inl t ↦ rw t (stopped_Turn c block _ r refl refl refl refl refl)
      | inr f ↦ elim (Bool-cases env.writer_open) [
        | inl t ↦
            rw (f, t)
              (advance-Turn env c block r _ (ground arith) (writes-limited env.limited tokens _))
        | inr g ↦
            rw (f, g)
              (stopped_Turn c block _ r (unfold fail_rest in refl) (unfold fail_rest in refl)
                (unfold fail_rest in refl) (unfold fail_rest in refl)
                (writes-limited env.limited tokens _ ∙ writes-fail_rest c _))
      ]
    ]

pub step-Turn : (env : Env) (c : Chunk) (e : Event) → InRange c → Turn c (got_by e) (step env c e)
unfolding step
step-Turn env c (command cmd) r = on_command-Turn env c cmd r
step-Turn env c lagged r = idle_Turn c (step env c lagged) r refl refl refl refl
step-Turn env c closed r = stopped_Turn c [] (step env c closed) r refl refl refl refl refl
step-Turn env c (bytes block) r = on_bytes-Turn env c block r
step-Turn env c (stream_error error) r = fail_rest-Turn c [] error r
step-Turn env c stream_end r = elim (Bool-cases (ltb c.offset (sat_add c.end 1))) [
  | inl t ↦ unfold on_stream_end in rw t (fail_rest-Turn c [] _ r)
  | inr f ↦ unfold on_stream_end in rw f (stopped_Turn c [] _ r refl refl refl refl refl)
]
step-Turn env c idle_timeout r = fail_rest-Turn c [] _ r
