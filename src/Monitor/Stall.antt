-- ===== src/Monitor/Stall.antt =====
-- The loop of src/monitor.rs does not idle for ever.
use simple_downloader.Prelude.{
  ℕ, ◌+◌, ◌-◌, ◌≤◌, ◌<◌, ◌≡◌, ◌⊎◌, refl, sym, subst, inl, inr, Bool, true, false, List, [], ◌∷◌,
  ◌++◌, map, length, leb, ltb, min, if◌then◌else◌, Bool-cases, if-holds, All, arith, u32_mod,
}
use simple_downloader.Types.{terminate_all}
use simple_downloader.State.{total_downloaded}
use simple_downloader.Retry.{FailedChunkInfo, RetryHandler}
use simple_downloader.Retry.Queues.{process_loop, process_queues, has_permanent_failure}
use simple_downloader.Monitor.{Session, commands, send_monitor_update, failed}
use simple_downloader.Monitor.Tick.{
  Tick, set_handler, set_pending, drain_loop, drain_pending, retry_loop, retry_ready, push_back_all,
  tick_work, check_stall, is_stalled, handle_tick, is_short_circuit, stall_limit, shortest_tick_ns,
  is_all_done,
}
use simple_downloader.Monitor.Loop.{
  Event, ticks, fail_fast, finish_if, handle, is_running, step, run,
}
use simple_downloader.Monitor.Tally.{IsLost, fail_stalled-has_permanent_failure}

-- Nothing runs and nothing waits, for `n` ticks so far, and the loop goes on.
abbrev pub IsIdle : ℕ → Session → Type 0
IsIdle n s =
    (s.tasks ≡ 0)
    × (s.monitor.state.chunks ≡ [])
    × (s.monitor.retry_handler.retry_queue ≡ [])
    × (s.monitor.retry_handler.delayed_retry_queue ≡ [])
    × (s.monitor.pending_bisects ≡ [])
    × (s.monitor.stall_ticks ≡ n)
    × (is_running s.status ≡ true)

drain_loop-none :
    (clock : ℕ → ℕ) (pending : List (ℕ × ℕ)) (s : Session)
    → pending ≡ []
    → drain_loop clock 0 pending s ≡ set_pending [] s
unfolding drain_loop
drain_loop-none clock pending s e = rw e refl

retry_loop-none :
    (clock : ℕ → ℕ) (queue : List FailedChunkInfo) (s : Session)
    → queue ≡ []
    → retry_loop clock (length queue) (s, []) ≡ (s, [])
unfolding retry_loop
retry_loop-none clock queue s e = rw e refl

process_loop-none :
    (clock : ℕ → ℕ) (h : RetryHandler)
    → h.retry_queue ≡ []
    → h.delayed_retry_queue ≡ []
    → process_loop clock 1 (clock 0) h.retry_queue h.delayed_retry_queue ≡ ([], [])
unfolding process_loop
process_loop-none clock h e f = rw (e, f) refl

retry_ready-IsIdle :
    (clock back_clock : ℕ → ℕ) (n : ℕ) (s : Session)
    → IsIdle n s
    → IsIdle n (retry_ready clock back_clock s)
unfolding retry_ready push_back_all
retry_ready-IsIdle clock back_clock n s h =
    subst (λ p. IsIdle n (set_handler (push_back_all back_clock p.1 p.0.monitor.retry_handler) p.0))
      (sym (retry_loop-none clock s.monitor.retry_handler.retry_queue s h.2)) h

process-IsIdle :
    (clock : ℕ → ℕ) (n : ℕ) (s : Session)
    → IsIdle n s
    → IsIdle n (set_handler (process_queues clock s.monitor.retry_handler) s)
unfolding process_queues
process-IsIdle clock n s (a, b, c, d, e, f, g) =
    let handler = s.monitor.retry_handler in
    subst
      (λ p.
        IsIdle n (set_handler (record handler { retry_queue = p.0; delayed_retry_queue = p.1 }) s))
      (sym (process_loop-none clock handler c d)) (a, b, refl, refl, e, f, g)

tick_work-IsIdle : (t : Tick) (n : ℕ) (s : Session) → IsIdle n s → IsIdle n (tick_work t s)
unfolding tick_work drain_pending send_monitor_update
tick_work-IsIdle t n s (a, b, c, d, e, f, g) =
    let shown = send_monitor_update t.seconds s in
    let adaptive = if s.monitor.is_rate_limited then [] else map commands t.adaptive in
    let acted = record shown { sent = shown.sent ++ adaptive } in
    subst
      (λ drained. IsIdle n (
        retry_ready t.retry_clock t.back_clock
          (set_handler (process_queues t.queue_clock drained.monitor.retry_handler) drained)))
      (sym (drain_loop-none t.drain_clock s.monitor.pending_bisects acted e))
      (retry_ready-IsIdle t.retry_clock t.back_clock n
        (set_handler (process_queues t.queue_clock s.monitor.retry_handler) (set_pending [] acted))
        (process-IsIdle t.queue_clock n (set_pending [] acted) (a, b, c, d, refl, f, g)))

-- One tick more, within the limit.
abbrev IsLater : ℕ → Session → Type 0
IsLater n s = IsIdle (n + 1) s × (n + 1 < stall_limit)

IsIdle-is_stalled : (n : ℕ) (s : Session) → IsIdle n s → is_stalled s ≡ true
unfolding is_stalled
IsIdle-is_stalled n s (a, b, c, d, e, f, g) = rw (a, b, c, d, e) refl

check_stall-IsLater :
    (now n : ℕ) (s : Session)
    → IsIdle n s
    → IsLost (check_stall now s) ⊎ IsLater n (check_stall now s)
unfolding check_stall
check_stall-IsLater now n s h =
    let state = s.monitor.state in
    let ticks_now = min (s.monitor.stall_ticks + 1) (u32_mod - 1) in
    let stalled = IsIdle-is_stalled n s h in
    let (a, b, c, d, e, f, g) = h in
    elim (Bool-cases (leb stall_limit ticks_now)) [
      | inl over ↦
          simp (stalled, over)
            (inl (
              fail_stalled-has_permanent_failure now (total_downloaded state) state.total_file_size
                s.monitor.retry_handler))
      | inr within ↦ simp (stalled, within) (inr ((a, b, c, d, e, ground arith, g), ground arith))
    ]

-- The loop has ended, or idles for one tick more.
abbrev IsNext : ℕ → Session → Type 0
IsNext n s = (is_running s.status ≡ false) ⊎ IsLater n s

fail_fast-IsNext : (n : ℕ) (s : Session) → IsLost s ⊎ IsLater n s → IsNext n (fail_fast s)
unfolding fail_fast
fail_fast-IsNext n s h =
    let stopped = record s { status = failed; sent = s.sent ++ commands terminate_all ∷ [] } in
    elim h [
      | inl lost ↦ rw lost (inl refl)
      | inr later ↦
          if-holds (IsNext n) (has_permanent_failure s.monitor.retry_handler) stopped s (inl refl)
            (inr later)
    ]

finish_if-IsNext :
    (n : ℕ) (p : Bool × Session) → IsLost p.1 ⊎ IsLater n p.1 → IsNext n (finish_if p)
finish_if-IsNext n (true, s) h = inl refl
finish_if-IsNext n (false, s) h = fail_fast-IsNext n s h

handle-IsNext :
    (t : Tick) (n : ℕ) (s : Session)
    → shortest_tick_ns ≤ t.elapsed_ns
    → IsIdle n s
    → IsNext n (handle (ticks t) s)
unfolding handle handle_tick
handle-IsNext t n s long h =
    let worked = tick_work t s in
    let checked = check_stall t.now worked in
    let Good : Bool × Session → Type 0 = λ p. IsNext n (finish_if p) in
    let full : ltb t.elapsed_ns shortest_tick_ns ≡ false = ground arith in
    simp full (
      if-holds Good (is_short_circuit worked) (true, worked) (is_all_done checked, checked)
        (inl refl)
        (finish_if-IsNext n (is_all_done checked, checked)
          (check_stall-IsLater t.now n worked (tick_work-IsIdle t n s h))))

fail_fast-IsIdle :
    (n : ℕ) (s : Session)
    → IsIdle n s
    → (is_running (fail_fast s).status ≡ false) ⊎ IsIdle n (fail_fast s)
unfolding fail_fast
fail_fast-IsIdle n s h =
    if-holds (λ t. (is_running t.status ≡ false) ⊎ IsIdle n t)
      (has_permanent_failure s.monitor.retry_handler)
      (record s { status = failed; sent = s.sent ++ commands terminate_all ∷ [] }) s (inl refl)
      (inr h)

step-IsNext :
    (t : Tick) (n : ℕ) (s : Session)
    → shortest_tick_ns ≤ t.elapsed_ns
    → IsIdle n s
    → IsNext n (step s (ticks t))
unfolding step
step-IsNext t n s long h =
    let checked = fail_fast s in
    let going = h.6 in
    elim (fail_fast-IsIdle n s h) [
      | inl ended ↦ simp (going, ended) (inl refl)
      | inr idle ↦ simp (going, idle.6) (handle-IsNext t n checked long idle)
    ]

step_ended : (s : Session) (e : Event) → is_running s.status ≡ false → step s e ≡ s
unfolding step
step_ended s e h = simp h refl

run_ended :
    (ts : List Tick) (s : Session)
    → is_running s.status ≡ false
    → is_running (run s (map ticks ts)).status ≡ false
unfolding run
run_ended [] s h = h
run_ended (t ∷ ts) s h =
    subst (λ u. is_running (run u (map ticks ts)).status ≡ false) (sym (step_ended s (ticks t) h))
      (run_ended ts s h)

run-IsNext :
    (ts : List Tick) (n : ℕ) (s : Session)
    → All (λ t. shortest_tick_ns ≤ t.elapsed_ns) ts
    → n < stall_limit
    → stall_limit ≤ n + length ts
    → IsIdle n s
    → is_running (run s (map ticks ts)).status ≡ false
unfolding run
run-IsNext [] n s long few many h = absurd (omega arith)
run-IsNext (t ∷ ts) n s long few many h = elim (step-IsNext t n s long.0 h) [
  | inl ended ↦ run_ended ts (step s (ticks t)) ended
  | inr (later, less) ↦ run-IsNext ts (n + 1) (step s (ticks t)) long.1 less (omega arith) later
]

-- A loop with no task, no chunk, and nothing that waits for a retry or a lane ends, without an error
-- or with one, within six ticks of at least 50 ms, whatever the ticks answer: it does not idle for
-- ever. The ticks that it has idled so far are below the limit.
pub run_ticks-ends :
    (ts : List Tick) (n : ℕ) (s : Session)
    → All (λ t. shortest_tick_ns ≤ t.elapsed_ns) ts
    → 6 ≤ length ts
    → n < stall_limit
    → IsIdle n s
    → is_running (run s (map ticks ts)).status ≡ false
run_ticks-ends ts n s long six few h = run-IsNext ts n s long few (omega arith) h
