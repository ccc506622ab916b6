-- ===== src/Retry/Conservation.antt =====
-- No failed chunk is lost or doubled on its way through the queues.
use simple_downloader.Prelude.{
  ℕ, suc, ◌+◌, ◌%◌, ◌≡◌, refl, inl, inr, List, [], ◌∷◌, ◌++◌, map, Option, none, some, leb, ltb,
  weigh, weigh-append, Bool-cases, Option-cases, arith, u32_mod,
}
use simple_downloader.Retry.Classify.{
  ErrorClass, transient, permanent, retriable, classify_error, is_local_io_failure,
}
use simple_downloader.Retry.Queues.{
  revive, popped, take_first, process_loop, process_queues, force_drain_delayed, take_ready,
  pop_ready_chunk, pop_ready_chunk_starved,
}
use simple_downloader.Retry.{
  FailedChunkInfo, DelayedChunkInfo, RetryHandler, Failure, give_up, schedule, count_and_schedule,
  by_class, handle_failure, max_retries, max_total_attempts, count_of,
}

-- A measure of chunks by their id and range.
abbrev pub Measure : Type 0
Measure = ℕ → ℕ → ℕ → ℕ

abbrev pub of_chunk : Measure → FailedChunkInfo → ℕ
of_chunk f c = f c.id c.start c.end

abbrev pub of_delayed : Measure → DelayedChunkInfo → ℕ
of_delayed f d = of_chunk f d.chunk

-- The measure of all the chunks that the handler holds.
abbrev pub tally : Measure → RetryHandler → ℕ
tally f h =
    weigh (of_chunk f) h.retry_queue
    + weigh (of_delayed f) h.delayed_retry_queue
    + weigh (of_chunk f) h.permanent_failures

weigh_snoc {ℓ} :
    {A : Type ℓ} (f : A → ℕ) (xs : List A) (x : A) → weigh f (xs ++ x ∷ []) ≡ weigh f xs + f x
weigh_snoc f xs x = omega (arith, weigh-append f xs (x ∷ []))

module _ (f : Measure) where
  give_up-tally :
      (h : RetryHandler) (x : Failure) (time attempts : ℕ)
      → tally f (give_up h x time attempts) ≡ tally f h + f x.id x.start x.end
  unfolding give_up
  give_up-tally h x time attempts = omega (arith, weigh-append (of_chunk f) h.permanent_failures _)

  schedule-tally :
      (clock : ℕ → ℕ) (h : RetryHandler) (x : Failure) (attempts : ℕ)
      → tally f (schedule clock h x attempts).0 ≡ tally f h + f x.id x.start x.end
  unfolding schedule
  schedule-tally clock h x attempts = elim (Bool-cases (leb attempts max_retries)) [
    | inl t ↦ rw t (omega (arith, weigh-append (of_chunk f) h.retry_queue _))
    | inr t ↦ rw t (omega (arith, weigh-append (of_delayed f) h.delayed_retry_queue _))
  ]

  count_and_schedule-tally :
      (clock : ℕ → ℕ) (h : RetryHandler) (x : Failure)
      → tally f (count_and_schedule clock h x).0 ≡ tally f h + f x.id x.start x.end
  unfolding count_and_schedule
  count_and_schedule-tally clock h x =
      elim (Bool-cases (ltb max_total_attempts ((count_of x.id h.total_attempts + 1) % u32_mod))) [
        | inl t ↦ rw t (give_up-tally (record h { total_attempts = _ }) x (clock 0) _)
        | inr t ↦
            rw t (schedule-tally clock (record h { total_attempts = _; retry_attempts = _ }) x _)
      ]

  by_class-tally :
      (clock : ℕ → ℕ) (h : RetryHandler) (x : Failure) (e : ErrorClass)
      → tally f (by_class clock h x e).0 ≡ tally f h + f x.id x.start x.end
  unfolding by_class
  by_class-tally clock h x transient = count_and_schedule-tally clock h x
  by_class-tally clock h x permanent = give_up-tally h x (clock 0) _
  by_class-tally clock h x retriable = count_and_schedule-tally clock h x

  -- The handler takes in a failed chunk exactly once, whatever its error: into the retry queue, the
  -- delayed queue or the permanent failures.
  pub handle_failure-tally :
      (clock : ℕ → ℕ) (h : RetryHandler) (x : Failure)
      → tally f (handle_failure clock h x).0 ≡ tally f h + f x.id x.start x.end
  unfolding handle_failure
  handle_failure-tally clock h x = elim (Bool-cases (is_local_io_failure x.error)) [
    | inl t ↦ rw t (give_up-tally h x (clock 0) _)
    | inr t ↦ rw t (by_class-tally clock h x (classify_error x.error))
  ]

  process_loop-tally :
      (clock : ℕ → ℕ) (k now : ℕ) (queue : List FailedChunkInfo) (delayed : List DelayedChunkInfo)
      → let r = process_loop clock k now queue delayed in
        weigh (of_chunk f) r.0 + weigh (of_delayed f) r.1
        ≡ weigh (of_chunk f) queue + weigh (of_delayed f) delayed
  unfolding process_loop
  process_loop-tally clock k now queue [] = refl
  process_loop-tally clock k now queue (d ∷ delayed) = elim (Bool-cases (leb d.retry_at now)) [
    | inl t ↦ rw t (
        omega (
          arith,
          process_loop-tally clock (suc k) now (queue ++ _ ∷ []) delayed,
          weigh-append (of_chunk f) queue (_ ∷ []),
        ))
    | inr t ↦ rw t
  ]

  process_queues-tally :
      (clock : ℕ → ℕ) (h : RetryHandler) → tally f (process_queues clock h) ≡ tally f h
  unfolding process_queues
  process_queues-tally clock h =
      omega (arith, process_loop-tally clock 1 (clock 0) h.retry_queue h.delayed_retry_queue)

  weigh-revive :
      (now : ℕ) (ds : List DelayedChunkInfo)
      → weigh (of_chunk f) (map (revive now) ds) ≡ weigh (of_delayed f) ds
  weigh-revive now [] = refl
  weigh-revive now (d ∷ ds) = omega (arith, weigh-revive now ds)

  force_drain_delayed-tally :
      (now : ℕ) (h : RetryHandler) → tally f (force_drain_delayed now h) ≡ tally f h
  unfolding force_drain_delayed
  force_drain_delayed-tally now h = omega (
    arith,
    weigh-append (of_chunk f) h.retry_queue (map (revive now) h.delayed_retry_queue),
    weigh-revive now h.delayed_retry_queue,
  )

  -- What a pop hands out, if anything, is what the handler holds less.
  abbrev pub handed_out : Option FailedChunkInfo → ℕ
  handed_out none = 0
  handed_out (some c) = of_chunk f c

  -- The chunk that is taken, and those that stay.
  abbrev Taken : Option (FailedChunkInfo × List FailedChunkInfo) → List FailedChunkInfo → Type 0
  Taken none queue = Unit
  Taken (some (c, rest)) queue = of_chunk f c + weigh (of_chunk f) rest ≡ weigh (of_chunk f) queue

  take_ready-Taken : (now : ℕ) (queue : List FailedChunkInfo) → Taken (take_ready now queue) queue
  unfolding take_ready
  take_ready-Taken now [] = tt
  take_ready-Taken now (c ∷ queue) = elim (Bool-cases (leb c.failure_time now)) [
    | inl t ↦ rw (t, take_ready) refl
    | inr t ↦ elim (Option-cases (take_ready now queue)) [
      | inl e ↦ rw (t, e, take_ready) tt
      | inr ((d, rest), e) ↦
          let ih : Taken (some (d, rest)) queue = rw e at (take_ready-Taken now queue) in
          rw (t, e, take_ready) (omega arith)
    ]
  ]

  popped-tally :
      (h : RetryHandler) (o : Option (FailedChunkInfo × List FailedChunkInfo))
      → Taken o h.retry_queue
      → handed_out (popped h o).0 + tally f (popped h o).1 ≡ tally f h
  popped-tally h none t = omega arith
  popped-tally h (some (c, rest)) t = omega arith

  -- Moving the due chunks, or all delayed ones, back to the retry queue keeps what the handler
  -- holds; and what a pop hands out, early or not, is exactly what the handler holds less.
  pub moves-tally :
      (clock : ℕ → ℕ) (now : ℕ) (h : RetryHandler)
      → (tally f (process_queues clock h) ≡ tally f h)
        × (tally f (force_drain_delayed now h) ≡ tally f h)
        × (handed_out (pop_ready_chunk now h).0 + tally f (pop_ready_chunk now h).1 ≡ tally f h)
        × (handed_out (pop_ready_chunk_starved h).0 + tally f (pop_ready_chunk_starved h).1
            ≡ tally f h)
  unfolding pop_ready_chunk pop_ready_chunk_starved
  moves-tally clock now h = (
    process_queues-tally clock h,
    force_drain_delayed-tally now h,
    popped-tally h _ (take_ready-Taken now h.retry_queue),
    popped-tally h _ (first h.retry_queue),
  )
    where
      first : (queue : List FailedChunkInfo) → Taken (take_first queue) queue
      first [] = tt
      first (c ∷ queue) = refl
