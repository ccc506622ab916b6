-- ===== src/Monitor/Frame.antt =====
-- What a tick of src/monitor.rs leaves as it is: the ledger, the chunks that are complete, and the
-- status of the loop.
use simple_downloader.Prelude.{
  ℕ, suc, zero, ◌*◌, ◌+◌, ◌-◌, min, u32_mod, ◌≡◌, ◌∙◌, ap, refl, inl, inr, List, [], ◌∷◌, ◌++◌, map,
  Option, none, some, ltb, leb, length, if◌then◌else◌, Bool-cases, Option-cases,
}
use simple_downloader.Types.{ChunkId}
use simple_downloader.State.{DownloadState}
use simple_downloader.Retry.{FailedChunkInfo}
use simple_downloader.Retry.Queues.{pop_ready_chunk, process_queues, has_permanent_failure}
use simple_downloader.Lane.{LaneId}
use simple_downloader.Monitor.{
  Session, Status, Request, build_request, spawn, spawn_new, send_monitor_update, commands,
}
use simple_downloader.Monitor.Tick.{
  Tick, set_handler, set_runtime, drain_loop, drain_pending, retry_or_defer, retry_loop,
  retry_ready, tick_work, check_stall, is_stalled, is_short_circuit, handle_tick, shortest_tick_ns,
  stall_limit,
}
use simple_downloader.Monitor.Loop.{fail_fast}

-- The ledger with the ids that are retired.
abbrev pub ledger : Session → DownloadState × List ChunkId
ledger s = (s.monitor.state, s.monitor.retired_ids)

-- The ledger and the status of the loop.
abbrev pub frame : Session → DownloadState × List ChunkId × Status
frame s = (s.monitor.state, s.monitor.retired_ids, s.status)

module _ (clock : ℕ → ℕ) where
  pub drain_loop-frame :
      (k : ℕ) (pending : List (ℕ × ℕ)) (s : Session)
      → frame (drain_loop clock k pending s) ≡ frame s
  unfolding drain_loop spawn_new spawn
  drain_loop-frame k [] s = refl
  drain_loop-frame k ((start, end) ∷ pending) s =
      let answer = build_request (clock k) s.url s.multi_runtime in
      elim (Option-cases answer.0) [
        | inl e ↦ rw (e, drain_loop) refl
        | inr (target, e) ↦
            rw (e, drain_loop)
              (drain_loop-frame (suc k) pending
                (spawn_new start end target (set_runtime answer.1 s)))
      ]

  retry_or_defer-frame :
      (c : FailedChunkInfo) (target : Option (Option LaneId × Request))
      → (p : Session × List FailedChunkInfo) → frame (retry_or_defer c target p).0 ≡ frame p.0
  unfolding spawn
  retry_or_defer-frame c none (s, deferred) = refl
  retry_or_defer-frame c (some target) (s, deferred) = refl

  retry_loop-frame :
      (fuel : ℕ) (s : Session) (deferred : List FailedChunkInfo)
      → frame (retry_loop clock fuel (s, deferred)).0 ≡ frame s
  unfolding retry_loop
  retry_loop-frame zero s deferred = refl
  retry_loop-frame (suc fuel) s deferred =
      let popped = pop_ready_chunk (clock (2 * fuel)) s.monitor.retry_handler in
      let answer = build_request (clock (2 * fuel + 1)) s.url s.multi_runtime in
      elim (Option-cases popped.0) [
        | inl e ↦ rw (e, retry_loop) refl
        | inr (c, e) ↦
            let q : Session × List FailedChunkInfo =
              (set_runtime answer.1 (set_handler popped.1 s), deferred) in
            let next = retry_or_defer c answer.0 q in
            rw (e, retry_loop)
              (retry_loop-frame fuel next.0 next.1 ∙ retry_or_defer-frame c answer.0 q)
      ]

pub tick_work-frame : (t : Tick) (s : Session) → frame (tick_work t s) ≡ frame s
unfolding tick_work retry_ready drain_pending send_monitor_update
tick_work-frame t s =
    let shown = send_monitor_update t.seconds s in
    let adaptive = if s.monitor.is_rate_limited then [] else map commands t.adaptive in
    let acted = record shown { sent = shown.sent ++ adaptive } in
    let drained = drain_pending t.drain_clock acted in
    let processed =
      set_handler (process_queues t.queue_clock drained.monitor.retry_handler) drained in
    retry_loop-frame t.retry_clock (length processed.monitor.retry_handler.retry_queue) processed []
    ∙ drain_loop-frame t.drain_clock 0 s.monitor.pending_bisects acted

check_stall-frame : (now : ℕ) (s : Session) → frame (check_stall now s) ≡ frame s
unfolding check_stall
check_stall-frame now s = elim (Bool-cases (is_stalled s)) [
  | inl t ↦ elim (Bool-cases (leb stall_limit (min (s.monitor.stall_ticks + 1) (u32_mod - 1)))) [
    | inl u ↦ rw (t, u) refl
    | inr u ↦ rw (t, u) refl
  ]
  | inr t ↦ rw t refl
]

pub handle_tick-frame : (t : Tick) (s : Session) → frame (handle_tick t s).1 ≡ frame s
unfolding handle_tick
handle_tick-frame t s = elim (Bool-cases (ltb t.elapsed_ns shortest_tick_ns)) [
  | inl e ↦ rw e refl
  | inr e ↦ elim (Bool-cases (is_short_circuit (tick_work t s))) [
    | inl f ↦ rw (e, f) (tick_work-frame t s)
    | inr f ↦ rw (e, f) (check_stall-frame t.now (tick_work t s) ∙ tick_work-frame t s)
  ]
]

pub handle_tick-ledger : (t : Tick) (s : Session) → ledger (handle_tick t s).1 ≡ ledger s
handle_tick-ledger t s = ap (λ p. (p.0, p.1)) (handle_tick-frame t s)

pub fail_fast-ledger : (s : Session) → ledger (fail_fast s) ≡ ledger s
unfolding fail_fast
fail_fast-ledger s = elim (Bool-cases (has_permanent_failure s.monitor.retry_handler)) [
  | inl t ↦ rw t refl
  | inr t ↦ rw t refl
]
