-- ===== src/Monitor/Conservation.antt =====
-- The ticks of src/monitor.rs keep the ranges, and so does the loop as long as nothing has failed.
use simple_downloader.Prelude.{
  ℕ, suc, zero, ◌*◌, ◌+◌, ◌%◌, ◌≡◌, refl, inl, inr, List, [], ◌∷◌, ◌++◌, map, Option, none, some,
  length, if◌then◌else◌, Option-cases, if-holds, weigh, weigh-append, arith, u64_mod,
}
use simple_downloader.Types.{DownloadCmd}
use simple_downloader.Retry.{FailedChunkInfo, RetryHandler}
use simple_downloader.Retry.Queues.{process_queues, pop_ready_chunk, push_back_retry_with_backoff}
use simple_downloader.Retry.Conservation.{of_chunk, moves-tally}
use simple_downloader.Lane.{LaneId}
use simple_downloader.Monitor.{
  Session, informs, commands, Request, send, build_request, spawn, spawn_new, send_monitor_update,
}
use simple_downloader.Monitor.Tick.{
  Tick, set_handler, set_runtime, drain_loop, drain_pending, retry_or_defer, retry_loop,
  retry_ready, retry_message, push_back_all, tick_work,
}
use simple_downloader.Monitor.Ranges.{
  RangeMeasure, of_pair, of_output, of_handler, of_failed, held, sent_none, spawn-held,
}

module _ (g : RangeMeasure) where
  pub drain_loop-held :
      (clock : ℕ → ℕ) (k : ℕ) (pending : List (ℕ × ℕ)) (s : Session)
      → held g (drain_loop clock k pending s)
        ≡ weigh (of_pair g) pending
          + of_handler g s.monitor.retry_handler
          + weigh (of_output g) s.sent
  unfolding drain_loop spawn_new
  drain_loop-held clock k [] s = refl
  drain_loop-held clock k ((start, end) ∷ pending) s =
      let answer = build_request (clock k) s.url s.multi_runtime in
      elim (Option-cases answer.0) [
        | inl e ↦ rw (e, drain_loop) refl
        | inr (target, e) ↦
            let ready = set_runtime answer.1 s in
            let fresh = record ready { next_chunk_id = (ready.next_chunk_id + 1) % u64_mod } in
            let ih = drain_loop-held clock (suc k) pending (spawn_new start end target ready) in
            rw (e, drain_loop)
              (unfold spawn in
                omega (arith, ih, spawn-held g ready.next_chunk_id start end target fresh))
      ]

  retry_or_defer-held :
      (c : FailedChunkInfo) (o : Option (Option LaneId × Request))
      → (s : Session) (deferred : List FailedChunkInfo)
      → held g (retry_or_defer c o (s, deferred)).0
          + weigh (of_failed g) (retry_or_defer c o (s, deferred)).1
        ≡ held g s + weigh (of_failed g) deferred + of_failed g c
  retry_or_defer-held c none s deferred =
      omega (arith, weigh-append (of_failed g) deferred (c ∷ []))
  retry_or_defer-held c (some target) s deferred =
      let told = send (retry_message c) s in
      omega (
        arith,
        spawn-held g c.id c.start c.end target told,
        weigh-append (of_output g) s.sent (retry_message c ∷ []),
      )

  retry_loop-held :
      (clock : ℕ → ℕ) (fuel : ℕ) (s : Session) (deferred : List FailedChunkInfo)
      → let r = retry_loop clock fuel (s, deferred) in
        held g r.0 + weigh (of_failed g) r.1 ≡ held g s + weigh (of_failed g) deferred
  unfolding retry_loop
  retry_loop-held clock zero s deferred = refl
  retry_loop-held clock (suc fuel) s deferred =
      let now = clock (2 * fuel) in
      let popped = pop_ready_chunk now s.monitor.retry_handler in
      let answer = build_request (clock (2 * fuel + 1)) s.url s.multi_runtime in
      let (processed, drained, taken, starved) =
        moves-tally (λ id a b. g a b) clock now s.monitor.retry_handler in
      elim (Option-cases popped.0) [
        | inl e ↦ rw (e, retry_loop) refl
        | inr (c, e) ↦
            let ready = set_runtime answer.1 (set_handler popped.1 s) in
            let next = retry_or_defer c answer.0 (ready, deferred) in
            rw (e, retry_loop)
              (omega (
                arith,
                retry_loop-held clock fuel next.0 next.1,
                retry_or_defer-held c answer.0 ready deferred,
                rw e at taken,
              ))
      ]

  push_back_all-held :
      (clock : ℕ → ℕ) (deferred : List FailedChunkInfo) (h : RetryHandler)
      → of_handler g (push_back_all clock deferred h)
        ≡ of_handler g h + weigh (of_failed g) deferred
  unfolding push_back_all push_back_retry_with_backoff
  push_back_all-held clock [] h = omega arith
  push_back_all-held clock (c ∷ deferred) h =
      let later = record c { failure_time = clock 0 } in
      let pushed = record h { retry_queue = h.retry_queue ++ later ∷ [] } in
      omega (
        arith,
        push_back_all-held (λ k. clock (suc k)) deferred pushed,
        weigh-append (of_chunk (λ id a b. g a b)) h.retry_queue (later ∷ []),
      )

  pub tick_work-held : (t : Tick) (s : Session) → held g (tick_work t s) ≡ held g s
  unfolding tick_work retry_ready drain_pending send_monitor_update
  tick_work-held t s =
      let shown = send_monitor_update t.seconds s in
      let adaptive = if s.monitor.is_rate_limited then [] else map commands t.adaptive in
      let acted = record shown { sent = shown.sent ++ adaptive } in
      let drained = drain_pending t.drain_clock acted in
      let processed =
        set_handler (process_queues t.queue_clock drained.monitor.retry_handler) drained in
      let r =
        retry_loop t.retry_clock (length processed.monitor.retry_handler.retry_queue)
          (processed, []) in
      let quiet : weigh (of_output g) adaptive ≡ 0 =
        if-holds (λ xs. weigh (of_output g) xs ≡ 0) s.monitor.is_rate_limited []
          (map commands t.adaptive) refl
          (sent_none g DownloadCmd commands (λ x. refl) t.adaptive) in
      omega (
        arith,
        drain_loop-held t.drain_clock 0 s.monitor.pending_bisects acted,
        weigh-append (of_output g) shown.sent adaptive,
        weigh-append (of_output g) s.sent (informs _ ∷ []),
        quiet,
        (moves-tally (λ id a b. g a b) t.queue_clock 0 drained.monitor.retry_handler).0,
        retry_loop-held t.retry_clock (length processed.monitor.retry_handler.retry_queue) processed
            [],
        push_back_all-held t.back_clock r.1 r.0.monitor.retry_handler,
      )
