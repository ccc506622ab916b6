-- ===== src/Retry/History.antt =====
-- Histories of the retry handler's methods: a chunk is not retried for ever.
use native.Mathlib.Nat.{zero-add}
use simple_downloader.Prelude.{
  ℕ, ◌+◌, ◌<◌, ◌≡◌, ◌≢◌, refl, ap, inl, inr, true, List, [], ◌∷◌, ◌==◌, if◌then◌else◌, All, arith,
}
use simple_downloader.Retry.Queues.{
  process_queues, force_drain_delayed, coalesce_small_fragments, pop_ready_chunk,
  pop_ready_chunk_starved, push_front_retry, push_back_retry, push_back_retry_with_backoff,
  on_download_complete, has_permanent_failure, fail_stalled,
}
use simple_downloader.Retry.{
  FailedChunkInfo, RetryHandler, new, Failure, handle_failure, max_total_attempts, count_of,
}
use simple_downloader.Retry.Counting.{
  Counted, Counted-same, complete-Counted, handle_failure-Counted, one_if, popped-Counted,
  stall-Counted,
}

-- A call of a method that changes the handler.
pub data Op : Type 0 where
  fails : (ℕ → ℕ) → Failure → Op
  processes : (ℕ → ℕ) → Op
  drains pops : ℕ → Op
  coalesces pops_starved : Op
  pushes_front pushes_back : FailedChunkInfo → Op
  pushes_back_with_backoff : ℕ → FailedChunkInfo → Op
  completes : ℕ → Op
  stalls : (now downloaded total : ℕ) → Op

pub apply : RetryHandler → Op → RetryHandler
apply h (fails clock f) = (handle_failure clock h f).0
apply h (processes clock) = process_queues clock h
apply h (drains now) = force_drain_delayed now h
apply h (pops now) = (pop_ready_chunk now h).1
apply h coalesces = coalesce_small_fragments h
apply h pops_starved = (pop_ready_chunk_starved h).1
apply h (pushes_front c) = push_front_retry c h
apply h (pushes_back c) = push_back_retry c h
apply h (pushes_back_with_backoff now c) = push_back_retry_with_backoff now c h
apply h (completes id) = on_download_complete id h
apply h (stalls now downloaded total) = fail_stalled now downloaded total h

pub run : RetryHandler → List Op → RetryHandler
run h [] = h
run h (op ∷ ops) = run (apply h op) ops

-- How often the chunk `id` fails.
abbrev pub failures_of : ℕ → List Op → ℕ
failures_of id [] = 0
failures_of id (fails clock f ∷ ops) = (if f.id == id then 1 else 0) + failures_of id ops
failures_of id (op ∷ ops) = failures_of id ops

-- The call is not the completion of the chunk `id`.
abbrev pub NotComplete : ℕ → Op → Type 0
NotComplete id op = op ≢ completes id

apply-Counted :
    (id n : ℕ) (h : RetryHandler) (op : Op)
    → NotComplete id op
    → Counted id n h
    → Counted id (failures_of id (op ∷ []) + n) (apply h op)
unfolding apply
apply-Counted id n h (fails clock f) ok c =
    let one : one_if id f.id + 0 ≡ one_if id f.id = omega arith in
    rw one (handle_failure-Counted id n clock h f c)
apply-Counted id n h (processes clock) ok c =
    unfold process_queues in rw zero-add (Counted-same id n h _ refl refl c)
apply-Counted id n h (drains now) ok c =
    unfold force_drain_delayed in rw zero-add (Counted-same id n h _ refl refl c)
apply-Counted id n h (pops now) ok c =
    unfold pop_ready_chunk in rw zero-add (popped-Counted id n h _ c)
apply-Counted id n h coalesces ok c =
    unfold coalesce_small_fragments in rw zero-add (Counted-same id n h _ refl refl c)
apply-Counted id n h pops_starved ok c =
    unfold pop_ready_chunk_starved in rw zero-add (popped-Counted id n h _ c)
apply-Counted id n h (pushes_front d) ok c =
    unfold push_front_retry in rw zero-add (Counted-same id n h _ refl refl c)
apply-Counted id n h (pushes_back d) ok c =
    unfold push_back_retry in rw zero-add (Counted-same id n h _ refl refl c)
apply-Counted id n h (pushes_back_with_backoff now d) ok c =
    unfold push_back_retry_with_backoff in rw zero-add (Counted-same id n h _ refl refl c)
apply-Counted id n h (completes k) ok c =
    rw zero-add (complete-Counted id n k h (λ e. ok (ap completes e)) c)
apply-Counted id n h (stalls now d t) ok c = rw zero-add (stall-Counted id n now d t h c)

failures_of-cons :
    (id : ℕ) (op : Op) (ops : List Op)
    → failures_of id (op ∷ ops) ≡ failures_of id (op ∷ []) + failures_of id ops
failures_of-cons id (fails clock f) ops = omega arith
failures_of-cons id op ops = omega arith

run-Counted :
    (id : ℕ) (h : RetryHandler) (ops : List Op) (n : ℕ)
    → All (NotComplete id) ops
    → Counted id n h
    → Counted id (failures_of id ops + n) (run h ops)
unfolding run
run-Counted id h [] n w c = rw zero-add c
run-Counted id h (op ∷ ops) n w c =
    let sum : failures_of id (op ∷ ops) + n ≡ failures_of id ops + (failures_of id (op ∷ []) + n) =
      omega (arith, failures_of-cons id op ops) in
    rw sum (
      run-Counted id (apply h op) ops (failures_of id (op ∷ []) + n) w.1
        (apply-Counted id n h op w.0 c))

-- In any history of the handler, of any length and with any errors and times, a chunk that fails
-- more than 30 times without completing makes the download fail for good.
pub run-permanent :
    (id : ℕ) (ops : List Op)
    → All (NotComplete id) ops
    → max_total_attempts < failures_of id ops
    → has_permanent_failure (run new ops) ≡ true
run-permanent id ops w h =
    elim (run-Counted id new ops 0 w (inr (unfold new count_of in (omega arith, omega arith)))) [
      | inl p ↦ p
      | inr (a, b) ↦ absurd (omega arith)
    ]
