-- ===== src/Retry/Order.antt =====
-- Which chunks leave the queues of the retry handler, and when.
use simple_downloader.Prelude.{
  ℕ, ◌≤◌, ◌<◌, ◌≡◌, refl, ap, inl, inr, true, false, List, [], ◌∷◌, ◌++◌, Option, none, some, leb,
  All, Bool-cases, Option-cases, arith, Bool, suc, ltb, keep, Ascends, sym,
}
use simple_downloader.Retry.{DelayedChunkInfo, FailedChunkInfo, RetryHandler}
use simple_downloader.Retry.Queues.{
  revive, process_loop, process_queues, take_ready, popped, pop_ready_chunk,
  push_back_retry_with_backoff,
}

-- The verdict of a scan for a ready chunk: none is ready, or the first ready one is taken out.
abbrev pub FirstReady :
    ℕ → List FailedChunkInfo → Option (FailedChunkInfo × List FailedChunkInfo) → Type 0
FirstReady now queue none = All (λ c. now < c.failure_time) queue
FirstReady now queue (some (c, rest)) =
    (before : List FailedChunkInfo) × (behind : List FailedChunkInfo) × (queue
      ≡ before ++ c ∷ behind)
    × (rest ≡ before ++ behind)
    × (c.failure_time ≤ now)
    × All (λ d. now < d.failure_time) before

take_ready-FirstReady :
    (now : ℕ) (queue : List FailedChunkInfo) → FirstReady now queue (take_ready now queue)
unfolding take_ready
take_ready-FirstReady now [] = tt
take_ready-FirstReady now (c ∷ queue) = elim (Bool-cases (leb c.failure_time now)) [
  | inl t ↦ rw (t, take_ready) ([], queue, refl, refl, ground arith, tt)
  | inr t ↦ elim (Option-cases (take_ready now queue)) [
    | inl e ↦ rw (t, e, take_ready) (ground arith, rw e at (take_ready-FirstReady now queue))
    | inr ((d, rest), e) ↦
        let ih : FirstReady now queue (some (d, rest)) =
          rw e at (take_ready-FirstReady now queue) in
        let (before, behind, p, q, ready, waits) = ih in
        rw (t, e, take_ready)
          (c ∷ before, behind, ap (◌∷◌ c) p, ap (◌∷◌ c) q, ready, (ground arith, waits))
  ]
]

-- `pop_ready_chunk` takes the first chunk whose time has come out of the queue, whatever waits in
-- front of it, keeps the order of the others, and gives none only if no chunk is ready.
pub pop_ready_chunk-FirstReady :
    (now : ℕ) (h : RetryHandler)
    → (o : Option (FailedChunkInfo × List FailedChunkInfo)) × (pop_ready_chunk now h ≡ popped h o)
      × FirstReady now h.retry_queue o
unfolding pop_ready_chunk
pop_ready_chunk-FirstReady now h =
    (take_ready now h.retry_queue, refl, take_ready-FirstReady now h.retry_queue)

take_ready-snoc :
    (now : ℕ) (queue : List FailedChunkInfo) (c : FailedChunkInfo)
    → All (λ d. now < d.failure_time) queue
    → c.failure_time ≤ now
    → take_ready now (queue ++ c ∷ []) ≡ some (c, queue)
unfolding take_ready
take_ready-snoc now [] c w h =
    let t : leb c.failure_time now ≡ true = ground arith in rw (t, take_ready)
take_ready-snoc now (d ∷ queue) c w h =
    let t : leb d.failure_time now ≡ false = ground arith in
    rw (t, take_ready-snoc now queue c w.1 h, take_ready)

-- A chunk that is put back "with backoff" does not wait: where no other chunk is ready, the next
-- pop hands it out again, even at the same instant.
pub push_back_retry_with_backoff-pop :
    (now later : ℕ) (c : FailedChunkInfo) (h : RetryHandler)
    → now ≤ later
    → All (λ d. later < d.failure_time) h.retry_queue
    → pop_ready_chunk later (push_back_retry_with_backoff now c h)
      ≡ (some (record c { failure_time = now }), h)
unfolding pop_ready_chunk push_back_retry_with_backoff
push_back_retry_with_backoff-pop now later c h p w =
    rw (take_ready-snoc later h.retry_queue (record c { failure_time = now }) w p)

abbrev pub is_waiting : ℕ → DelayedChunkInfo → Bool
is_waiting now d = ltb now d.retry_at

all_wait :
    (b now : ℕ) (ds : List DelayedChunkInfo)
    → Ascends (λ d. d.retry_at) b ds
    → now < b
    → keep (is_waiting now) ds ≡ ds
all_wait b now [] a h = refl
all_wait b now (d ∷ ds) a h =
    let t : ltb now d.retry_at ≡ true = ground arith in
    rw t (ap (◌∷◌ d) (all_wait d.retry_at now ds a.1 (omega arith)))

process_loop-is_waiting :
    (clock : ℕ → ℕ) (k now b : ℕ) (queue : List FailedChunkInfo) (ds : List DelayedChunkInfo)
    → Ascends (λ d. d.retry_at) b ds
    → (process_loop clock k now queue ds).1 ≡ keep (is_waiting now) ds
unfolding process_loop
process_loop-is_waiting clock k now b queue [] a = refl
process_loop-is_waiting clock k now b queue (d ∷ ds) a = elim (Bool-cases (leb d.retry_at now)) [
  | inl t ↦
      let u : ltb now d.retry_at ≡ false = ground arith in
      rw (t, u)
        (process_loop-is_waiting clock (suc k) now d.retry_at (queue ++ revive (clock k) d ∷ []) ds
          a.1)
  | inr t ↦
      let u : ltb now d.retry_at ≡ true = ground arith in
      rw (t, u) (sym (ap (◌∷◌ d) (all_wait d.retry_at now ds a.1 (ground arith))))
]

-- Where the delayed chunks are in the order of their times, `process_queues` leaves exactly those
-- whose time has not come, in their order, although it stops at the first of them.
pub process_queues-is_waiting :
    (clock : ℕ → ℕ) (h : RetryHandler)
    → Ascends (λ d. d.retry_at) 0 h.delayed_retry_queue
    → (process_queues clock h).delayed_retry_queue
      ≡ keep (is_waiting (clock 0)) h.delayed_retry_queue
unfolding process_queues
process_queues-is_waiting clock h a =
    process_loop-is_waiting clock 1 (clock 0) 0 h.retry_queue h.delayed_retry_queue a
