-- ===== src/Chunk/Ending.antt =====
-- How a chunk ends: with one terminal event that accounts for every byte, or silently when it is
-- told to stop.
use mathlib.Core.List.{append-nil}
use simple_downloader.Prelude.{
  ℕ, ◌+◌, ◌≤◌, ◌<◌, ◌≡◌, ◌≢◌, refl, ap, ◌∙◌, ◌⊎◌, inl, inr, Bool, true, false, List, [], ◌∷◌, ◌++◌,
  Option, some, u64_max, Option-cases, All, arith,
}
use simple_downloader.Prelude.Text.{Text}
use simple_downloader.Types.{ChunkId}
use simple_downloader.Chunk.Check.{Response, check_response}
use simple_downloader.Chunk.Writes.{InRange, writes, writes-append, Placed}
use simple_downloader.Chunk.Stream.{run-Turn}
use simple_downloader.Chunk.Handover.{handed, handed-append, HandedDown, IsHeard, run-Handover}
use simple_downloader.Chunk.{
  Chunk, start_chunk, Event, Env, Effect, Outcome, run, finish, monitor_gone, chunk_run,
}
use simple_downloader.Chunk.Ends.{State, completed, ends, ends-append, failed, run-State}

-- The bytes `start` to `end` are accounted for: the chunk completed after it wrote all that it did
-- not hand over, or what it did not write or hand over is the range that it reports as failed.
abbrev pub Accounts : ChunkId → ℕ → ℕ → List Effect → Type 0
Accounts id start end fx =
    ((last : ℕ) × (ends fx ≡ completed id ∷ [])
      × Placed start (writes fx) (last + 1)
      × HandedDown end (handed fx) last)
    ⊎ ((s : ℕ) × (e : ℕ) × (ends fx ≡ failed id s e ∷ [])
        × Placed start (writes fx) s
        × HandedDown end (handed fx) e)

module _ (reliable_tx : Option Bool) (c : Chunk) (open_tx : reliable_tx ≢ some true) where
  not_gone : monitor_gone reliable_tx ≡ false
  unfolding monitor_gone
  not_gone = ground arith

  writes-finish : writes (finish reliable_tx c) ≡ []
  unfolding finish
  writes-finish = ground arith

  handed-finish : handed (finish reliable_tx c) ≡ []
  unfolding finish
  handed-finish = ground arith

  ends-finish :
      c.terminated ≡ false
      → c.failed ≡ false
      → InRange c
      → ((ends (finish reliable_tx c) ≡ completed c.id ∷ []) × (c.offset ≡ c.end + 1))
        ⊎ (ends (finish reliable_tx c) ≡ failed c.id c.offset c.end ∷ [])
  unfolding finish
  ends-finish t f r = ground (arith, not_gone)

  ends-finish_failed : c.failed ≡ true → ends (finish reliable_tx c) ≡ []
  unfolding finish
  ends-finish_failed f = ground arith

-- What the loop's outcome leaves to the code behind it.
finish-Accounts :
    (reliable_tx : Option Bool) (c : Chunk) (o : Outcome)
    → reliable_tx ≢ some true
    → o.chunk.terminated ≡ false
    → State c o
    → InRange o.chunk
    → Placed c.offset (writes o.effects) o.chunk.offset
    → HandedDown c.end (handed o.effects) o.chunk.end
    → Accounts c.id c.offset c.end (o.effects ++ finish reliable_tx o.chunk)
finish-Accounts reliable_tx c o g t (i, how) r p d =
    let fin = finish reliable_tx o.chunk in
    let w : writes (o.effects ++ fin) ≡ writes o.effects =
      writes-append o.effects fin
      ∙ ap (λ xs. writes o.effects ++ xs) (writes-finish reliable_tx o.chunk g)
      ∙ append-nil (writes o.effects) in
    let h : handed (o.effects ++ fin) ≡ handed o.effects =
      handed-append o.effects fin
      ∙ ap (λ xs. handed o.effects ++ xs) (handed-finish reliable_tx o.chunk g)
      ∙ append-nil (handed o.effects) in
    elim how [
      | inl (f, e) ↦
          let join : ends (o.effects ++ fin) ≡ ends fin =
            ends-append o.effects fin ∙ ap (λ xs. xs ++ ends fin) e in
          elim (ends-finish reliable_tx o.chunk g t f r) [
            | inl (done, all) ↦
                inl
                  (o.chunk.end, join ∙ done ∙ ap (λ k. completed k ∷ []) i, rw (w, ← all) p, rw h d)
            | inr lost ↦ inr (
              o.chunk.offset,
              o.chunk.end,
              join ∙ lost ∙ ap (λ k. failed k o.chunk.offset o.chunk.end ∷ []) i,
              rw w p,
              rw h d,
            )
          ]
      | inr (stop, f, e) ↦ inr (
        o.chunk.offset,
        o.chunk.end,
        ends-append o.effects fin
            ∙ ap (λ xs. ends o.effects ++ xs) (ends-finish_failed reliable_tx o.chunk g f)
            ∙ append-nil (ends o.effects)
            ∙ e,
        rw w p,
        rw h d,
      )
    ]

module _ (show_status : ℕ → Text) (id start end now : ℕ) (response : Response)
    (events : List (Env × Event)) (reliable_tx : Option Bool) where
  -- The loop's outcome, where the response passes its check.
  abbrev pub looped : Outcome
  looped = run (start_chunk id start end now) events

  -- A chunk whose loop is over, that no command or closed channel told to stop, and whose bisects
  -- were all heard, ends with exactly one terminal event: it completes after it wrote, without a gap,
  -- every byte of its range that it did not hand over, or it reports as failed exactly the bytes
  -- that it neither wrote nor handed over.
  pub chunk_run-Accounts :
      start ≤ end + 1
      → end < u64_max
      → All IsHeard events
      → looped.running ≡ false
      → looped.chunk.terminated ≡ false
      → reliable_tx ≢ some true
      → Accounts id start end (chunk_run show_status id start end now response events reliable_tx)
  unfolding chunk_run
  chunk_run-Accounts h k heard stopped t g =
      let c = start_chunk id start end now in
      let r : InRange c =
        unfold start_chunk in record { from_start = omega arith; to_end = h; bounded = k } in
      let turn = run-Turn c events r in
      elim (Option-cases (check_response show_status start end response)) [
        | inl passed ↦
            rw (passed, chunk_run, stopped)
              (unfold start_chunk in
                finish-Accounts reliable_tx c (run c events) g t (run-State c events refl)
                  turn.in_range turn.placed (run-Handover c events r heard))
        | inr (error, refused) ↦ rw (refused, chunk_run) (inr (start, end, refl, refl, refl))
      ]
