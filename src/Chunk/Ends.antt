-- ===== src/Chunk/Ends.antt =====
-- The terminal events of a chunk: at most one, and only with the end of its loop.
use mathlib.Core.List.{append_assoc}
use simple_downloader.Prelude.{
  ℕ, ◌-◌, ◌≡◌, refl, sym, ap, subst, ◌∙◌, ◌⊎◌, inl, inr, min, Bool, true, false, List, [], ◌∷◌,
  ◌++◌, map, Option, none, some, ltb, if◌then◌else◌, length, take, sat_add, u32_mod, ◌%◌,
  Bool-cases, arith, ◌==◌,
}
use simple_downloader.Prelude.Text.{Text}
use simple_downloader.Types.{
  DownloadCmd, write_file, bisect_download, bisect_download_skewed, terminate_chunk, terminate_all,
  chunk_failed, download_complete, ChunkId,
}
use simple_downloader.Chunk.Split.{split_range_skewed, split_range}
use simple_downloader.Chunk.{
  Chunk, Event, command, lagged, closed, bytes, stream_error, stream_end, idle_timeout, Env, Effect,
  write, acquire, terminal, Outcome, fail_rest, bisect, on_command, batches, advance, on_bytes,
  on_stream_end, step, before, run,
}

-- A terminal event: the chunk's completion, or the failure of a range.
pub data End : Type 0 where
  completed : ChunkId → End
  failed : (id start end : ℕ) → End

abbrev end_by : Effect → List End
end_by (terminal (download_complete id)) = completed id ∷ []
end_by (terminal (chunk_failed id start end error)) = failed id start end ∷ []
end_by other = []

abbrev pub ends : List Effect → List End
ends [] = []
ends (f ∷ fx) = end_by f ++ ends fx

pub ends-append : (fx gx : List Effect) → ends (fx ++ gx) ≡ ends fx ++ ends gx
ends-append [] gx = refl
ends-append (f ∷ fx) gx =
    ap (◌++◌ (end_by f)) (ends-append fx gx) ∙ sym (append_assoc (end_by f) (ends fx) (ends gx))

ends-acquire :
    (b : Bool) (bs : List ℕ) (fx : List Effect)
    → ends ((if b then map acquire bs else []) ++ fx) ≡ ends fx
ends-acquire false bs fx = refl
ends-acquire true [] fx = refl
ends-acquire true (b ∷ bs) fx = ends-acquire true bs fx

-- After a turn the chunk goes on, or it was told to stop, or it has reported the rest as failed, or
-- its loop is over.
abbrev pub State : Chunk → Outcome → Type 0
State c o =
    (o.chunk.id ≡ c.id)
    × ((o.chunk.failed ≡ false) × (ends o.effects ≡ [])
        ⊎ (o.running ≡ false)
          × (o.chunk.failed ≡ true)
          × (ends o.effects ≡ failed c.id o.chunk.offset o.chunk.end ∷ []))

fail_rest-State : (c : Chunk) (error : Text) → State c (fail_rest c error)
unfolding fail_rest
fail_rest-State c error = (refl, inr (refl, refl, ground arith))

quiet :
    (c : Chunk) (o : Outcome)
    → c.failed ≡ false
    → o.chunk.id ≡ c.id
    → o.chunk.failed ≡ c.failed
    → ends o.effects ≡ []
    → State c o
quiet c o f i e h = (i, inl (e ∙ f, h))

bisect-State :
    (env : Env) (c : Chunk) (o : Option (ℕ × ℕ)) → c.failed ≡ false → State c (bisect env c o)
unfolding bisect
bisect-State env c none f = quiet c (bisect env c none) f refl refl refl
bisect-State env c (some (m, n)) f =
    quiet c (bisect env c (some (m, n))) f (ground arith) (ground arith) refl

on_command-State :
    (env : Env) (c : Chunk) (cmd : DownloadCmd) → c.failed ≡ false → State c (on_command env c cmd)
unfolding on_command
on_command-State env c (write_file o b) f = (refl, inl (f, refl))
on_command-State env c (bisect_download id) f = elim (Bool-cases (c.id == id)) [
  | inl t ↦ rw t (bisect-State env c (split_range c.offset c.end) f)
  | inr g ↦ rw g (refl, inl (f, refl))
]
on_command-State env c (bisect_download_skewed id) f = elim (Bool-cases (c.id == id)) [
  | inl t ↦ rw t (bisect-State env c (split_range_skewed c.offset c.end true) f)
  | inr g ↦ rw g (refl, inl (f, refl))
]
on_command-State env c (terminate_chunk id) f = elim (Bool-cases (c.id == id)) [
  | inl t ↦ rw t (fail_rest-State c _)
  | inr g ↦ rw g (refl, inl (f, refl))
]
on_command-State env c terminate_all f = (refl, inl (f, refl))

advance-State :
    (env : Env) (c : Chunk) (n m : ℕ) (fx : List Effect)
    → c.failed ≡ false
    → ends fx ≡ []
    → State c (advance env c n m fx)
unfolding advance
advance-State env c n m fx f h = (ground arith, inl (ground arith, ends-append fx _ ∙ ground arith))

on_bytes-State :
    (env : Env) (c : Chunk) (block : List ℕ) → c.failed ≡ false → State c (on_bytes env c block)
unfolding on_bytes
on_bytes-State env c block f =
    let n = min (sat_add (c.end - c.offset) 1) (length block) in
    let tokens = batches (n % u32_mod) (n % u32_mod) in
    let acquired = if env.limited then map acquire tokens else [] in
    let sent = write c.offset (take n block) ∷ [] in
    elim (Bool-cases (ltb c.end c.offset)) [
      | inl t ↦ rw t (refl, inl (f, refl))
      | inr g ↦ elim (Bool-cases env.writer_open) [
        | inl t ↦
            rw (g, t)
              (advance-State env c n (length block) (acquired ++ sent) f
                (ends-acquire env.limited tokens sent))
        | inr k ↦
            rw (g, k, ends-acquire env.limited tokens (fail_rest c _).effects) (fail_rest-State c _)
      ]
    ]

step-State : (env : Env) (c : Chunk) (e : Event) → c.failed ≡ false → State c (step env c e)
unfolding step
step-State env c (command cmd) f = on_command-State env c cmd f
step-State env c lagged f = (refl, inl (f, refl))
step-State env c closed f = (refl, inl (f, refl))
step-State env c (bytes block) f = on_bytes-State env c block f
step-State env c (stream_error error) f = fail_rest-State c error
step-State env c stream_end f = elim (Bool-cases (ltb c.offset (sat_add c.end 1))) [
  | inl t ↦ unfold on_stream_end in rw t (fail_rest-State c _)
  | inr g ↦ unfold on_stream_end in rw g (refl, inl (f, refl))
]
step-State env c idle_timeout f = fail_rest-State c _

State-then :
    (c : Chunk) (o o' : Outcome)
    → o.running ≡ true
    → State c o
    → (o.chunk.failed ≡ false → State o.chunk o')
    → State c (record o' { effects = o.effects ++ o'.effects })
State-then c o o' r (i, inr (stop, f, e)) later = absurd (cc)
State-then c o o' r (i, inl (f, e)) later =
    let join : ends (o.effects ++ o'.effects) ≡ ends o'.effects =
      ends-append o.effects o'.effects ∙ ap (λ xs. xs ++ ends o'.effects) e in
    let (j, how) = later f in
    (
      j ∙ i,
      elim how [
        | inl (g, h) ↦ inl (g, join ∙ h)
        | inr (s, g, h) ↦
            inr (s, g, join ∙ h ∙ ap (λ k. failed k o'.chunk.offset o'.chunk.end ∷ []) i)
      ],
    )

run_stop :
    (c : Chunk) (env : Env) (e : Event) (events : List (Env × Event))
    → (step env c e).running ≡ false
    → run c ((env, e) ∷ events) ≡ step env c e
unfolding run
run_stop c env e events h = simp h

run_more :
    (c : Chunk) (env : Env) (e : Event) (events : List (Env × Event))
    → (step env c e).running ≡ true
    → run c ((env, e) ∷ events) ≡ before (step env c e).effects (run (step env c e).chunk events)
unfolding run
run_more c env e events h = simp h

pub run-State :
    (c : Chunk) (events : List (Env × Event)) → c.failed ≡ false → State c (run c events)
run-State c [] f = unfold run in (refl, inl (f, refl))
run-State c ((env, e) ∷ events) f =
    let t = step-State env c e f in
    elim (Bool-cases (step env c e).running) [
      | inl h ↦ subst (State c) (sym (run_more c env e events h)) (
          State-then c (step env c e) (run (step env c e).chunk events) h t
            (run-State (step env c e).chunk events))
      | inr h ↦ subst (State c) (sym (run_stop c env e events h)) t
    ]
