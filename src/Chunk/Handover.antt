-- ===== src/Chunk/Handover.antt =====
-- The ranges that a chunk hands over when it is split.
use mathlib.Core.List.{append_assoc, append-nil}
use simple_downloader.Prelude.{
  ℕ, ◌-◌, ◌≤◌, ◌<◌, ◌≡◌, refl, sym, ap, ◌∙◌, inl, inr, min, Bool, true, false, List, [], ◌∷◌, ◌++◌,
  map, Option, none, some, ltb, if◌then◌else◌, length, take, sat_add, u32_mod, ◌%◌, Bool-cases, All,
  arith, ◌==◌,
}
use simple_downloader.Types.{
  DownloadCmd, write_file, bisect_download, bisect_download_skewed, terminate_chunk, terminate_all,
  chunk_bisected,
}
use simple_downloader.Chunk.Split.{split_range_skewed-Cut, Cut}
use simple_downloader.Chunk.Writes.{InRange, step-Turn}
use simple_downloader.Chunk.{
  Chunk, Event, command, lagged, closed, bytes, stream_error, stream_end, idle_timeout, Env, Effect,
  write, acquire, terminal, Outcome, fail_rest, bisect, on_command, batches, advance, on_bytes,
  on_stream_end, step, run,
}

abbrev handed_by : Effect → List (ℕ × ℕ)
handed_by (terminal (chunk_bisected id new_start new_end)) = (new_start, new_end) ∷ []
handed_by other = []

-- The ranges of the new chunks.
abbrev pub handed : List Effect → List (ℕ × ℕ)
handed [] = []
handed (f ∷ fx) = handed_by f ++ handed fx

-- Each range ends where the range before it starts, from `top` down to `end`.
abbrev pub HandedDown : ℕ → List (ℕ × ℕ) → ℕ → Type 0
HandedDown top [] end = top ≡ end
HandedDown top ((s, t) ∷ rs) end = (t ≡ top) × (s ≤ t) × (0 < s) × HandedDown (s - 1) rs end

-- A receiver is left on the broadcast channel.
abbrev pub IsHeard : Env × Event → Type 0
IsHeard e = e.0.broadcast_heard ≡ true

pub handed-append : (fx gx : List Effect) → handed (fx ++ gx) ≡ handed fx ++ handed gx
handed-append [] gx = refl
handed-append (f ∷ fx) gx =
    ap (◌++◌ (handed_by f)) (handed-append fx gx)
    ∙ sym (append_assoc (handed_by f) (handed fx) (handed gx))

handed-acquire :
    (b : Bool) (bs : List ℕ) (fx : List Effect)
    → handed ((if b then map acquire bs else []) ++ fx) ≡ handed fx
handed-acquire false bs fx = refl
handed-acquire true [] fx = refl
handed-acquire true (b ∷ bs) fx = handed-acquire true bs fx

handed-fail_rest : (c : Chunk) (error : List ℕ) → handed (fail_rest c error).effects ≡ []
unfolding fail_rest
handed-fail_rest c error = ground arith

handed-advance :
    (env : Env) (c : Chunk) (n m : ℕ) (fx : List Effect)
    → handed (advance env c n m fx).effects ≡ handed fx
unfolding advance
handed-advance env c n m fx = handed-append fx _ ∙ ground (arith, append-nil (handed fx))

-- A turn keeps the end of the chunk, or hands the bytes behind its new end over.
abbrev Handover : Chunk → Outcome → Type 0
Handover c o = HandedDown c.end (handed o.effects) o.chunk.end

keeps_end : (c : Chunk) (o : Outcome) → o.chunk.end ≡ c.end → handed o.effects ≡ [] → Handover c o
keeps_end c o e h = rw h (sym e)

fail_rest-Handover : (c : Chunk) (error : List ℕ) → Handover c (fail_rest c error)
unfolding fail_rest
fail_rest-Handover c error = keeps_end c (fail_rest c error) refl (handed-fail_rest c error)

advance-Handover :
    (env : Env) (c : Chunk) (n m : ℕ) (fx : List Effect)
    → handed fx ≡ []
    → Handover c (advance env c n m fx)
advance-Handover env c n m fx h =
    keeps_end c (advance env c n m fx) (unfold advance in ground arith)
      (handed-advance env c n m fx ∙ h)

bisect-Handover :
    (env : Env) (c : Chunk) (o : Option (ℕ × ℕ))
    → env.broadcast_heard ≡ true
    → Cut c.offset c.end o
    → Handover c (bisect env c o)
unfolding bisect
bisect-Handover env c none h k = refl
bisect-Handover env c (some (m, n)) h k = rw h (refl, omega arith, omega arith, omega arith)

on_command-Handover :
    (env : Env) (c : Chunk) (cmd : DownloadCmd)
    → InRange c
    → env.broadcast_heard ≡ true
    → Handover c (on_command env c cmd)
unfolding on_command
on_command-Handover env c (write_file o b) r h = refl
on_command-Handover env c (bisect_download id) r h = elim (Bool-cases (c.id == id)) [
  | inl t ↦ rw t (bisect-Handover env c _ h (split_range_skewed-Cut c.offset c.end false r.bounded))
  | inr f ↦ rw f
]
on_command-Handover env c (bisect_download_skewed id) r h = elim (Bool-cases (c.id == id)) [
  | inl t ↦ rw t (bisect-Handover env c _ h (split_range_skewed-Cut c.offset c.end true r.bounded))
  | inr f ↦ rw f
]
on_command-Handover env c (terminate_chunk id) r h = elim (Bool-cases (c.id == id)) [
  | inl t ↦ rw t (fail_rest-Handover c _)
  | inr f ↦ rw f
]
on_command-Handover env c terminate_all r h = refl

on_bytes-Handover : (env : Env) (c : Chunk) (block : List ℕ) → Handover c (on_bytes env c block)
unfolding on_bytes
on_bytes-Handover env c block =
    let n = min (sat_add (c.end - c.offset) 1) (length block) in
    let tokens = batches (n % u32_mod) (n % u32_mod) in
    let sent = write c.offset (take n block) ∷ [] in
    elim (Bool-cases (ltb c.end c.offset)) [
      | inl t ↦ rw t
      | inr f ↦ elim (Bool-cases env.writer_open) [
        | inl t ↦
            rw (f, t)
              (advance-Handover env c n (length block)
                ((if env.limited then map acquire tokens else []) ++ sent)
                (handed-acquire env.limited tokens sent))
        | inr g ↦
            rw (f, g)
              (rw (handed-acquire env.limited tokens (fail_rest c _).effects)
                (fail_rest-Handover c _))
      ]
    ]

step-Handover :
    (env : Env) (c : Chunk) (e : Event)
    → InRange c
    → env.broadcast_heard ≡ true
    → Handover c (step env c e)
unfolding step
step-Handover env c (command cmd) r h = on_command-Handover env c cmd r h
step-Handover env c lagged r h = refl
step-Handover env c closed r h = refl
step-Handover env c (bytes block) r h = on_bytes-Handover env c block
step-Handover env c (stream_error error) r h = fail_rest-Handover c error
step-Handover env c stream_end r h = elim (Bool-cases (ltb c.offset (sat_add c.end 1))) [
  | inl t ↦ unfold on_stream_end in rw t (fail_rest-Handover c _)
  | inr f ↦ unfold on_stream_end in rw f
]
step-Handover env c idle_timeout r h = fail_rest-Handover c _

HandedDown-append :
    (a b d : ℕ) (xs ys : List (ℕ × ℕ))
    → HandedDown a xs b
    → HandedDown b ys d
    → HandedDown a (xs ++ ys) d
HandedDown-append a b d [] ys h k = rw h k
HandedDown-append a b d ((s, t) ∷ xs) ys h k =
    (h.0, h.1, h.2, HandedDown-append (s - 1) b d xs ys h.3 k)

-- While a receiver is left on the broadcast channel, the ranges that a chunk hands over are adjacent
-- and reach from the end that it started with down to the end that it has then.
pub run-Handover :
    (c : Chunk) (events : List (Env × Event))
    → InRange c
    → All IsHeard events
    → HandedDown c.end (handed (run c events).effects) (run c events).chunk.end
unfolding run
run-Handover c [] r h = refl
run-Handover c ((env, e) ∷ events) r h =
    let t = step-Handover env c e r h.0 in
    let later = run-Handover (step env c e).chunk events (step-Turn env c e r).in_range h.1 in
    elim (Bool-cases (step env c e).running) [
      | inl k ↦
          simp (k, handed-append (step env c e).effects)
            (HandedDown-append _ _ _ (handed (step env c e).effects) _ t later)
      | inr k ↦ simp k t
    ]
