-- ===== src/Monitor/Slots.antt =====
-- The messages and the work of a tick in src/monitor.rs keep a place for each chunk that is bound.
use simple_downloader.Prelude.{
  ℕ, suc, zero, ◌*◌, ◌+◌, ◌%◌, refl, inl, inr, List, [], ◌∷◌, ◌++◌, map, Option, none, some, length,
  ◌==◌, if◌then◌else◌, Option-cases, if-holds, u64_mod,
}
use simple_downloader.Prelude.Map
use simple_downloader.Types.{
  DownloadInfo, chunk_progress, download_complete, chunk_failed, chunk_bisected, monitor_update,
  chunk_status_changed,
}
use simple_downloader.State.{ChunkState, update_status}
use simple_downloader.Retry.{FailedChunkInfo}
use simple_downloader.Retry.Queues.{pop_ready_chunk, process_queues}
use simple_downloader.Lane.{LaneId}
use simple_downloader.Lane.Runtime.{MultiRuntime}
use simple_downloader.Monitor.{
  Session, informs, commands, Request, send, build_request, spawn, spawn_new, send_monitor_update,
}
use simple_downloader.Monitor.Info.{
  contains, set_chunks, or_new, progressed, on_progress, on_complete, on_failed, shrink_chunk,
  start_or_buffer, on_bisected, handle_download_info, after_success, after_failure,
}
use simple_downloader.Monitor.Tick.{
  Tick, set_handler, set_runtime, drain_loop, drain_pending, retry_or_defer, retry_message,
  retry_loop, retry_ready, tick_work,
}
use simple_downloader.Monitor.Places.{
  HasPlaces, IsPlaced, build_request-IsPlaced, IsPlaced-HasPlaces, bind_lane-HasPlaces,
  after_success-IsReturn, after_failure-IsReturn, settle_lane-HasPlaces,
}

abbrev pub HasSlots : Session → Type 0
HasSlots s = HasPlaces s.monitor.lane_bindings s.multi_runtime

spawn-HasSlots :
    (id a b : ℕ) (target : Option LaneId × Request) (s : Session)
    → IsPlaced s.monitor.lane_bindings (some target) s.multi_runtime
    → HasSlots (spawn id a b target s)
unfolding spawn
spawn-HasSlots id a b (lane, request) s h =
    bind_lane-HasPlaces id lane request s.monitor.lane_bindings s.multi_runtime h

start_or_buffer-HasSlots :
    (a b : ℕ) (o : Option (Option LaneId × Request)) (s : Session)
    → IsPlaced s.monitor.lane_bindings o s.multi_runtime
    → HasSlots (start_or_buffer a b o s)
unfolding spawn_new
start_or_buffer-HasSlots a b none s h = IsPlaced-HasPlaces s.monitor.lane_bindings s.multi_runtime h
start_or_buffer-HasSlots a b (some target) s h =
    spawn-HasSlots s.next_chunk_id a b target
      (record s { next_chunk_id = (s.next_chunk_id + 1) % u64_mod }) h

abbrev asked : (now : ℕ) (s : Session) → Option (Option LaneId × Request) × Option MultiRuntime
asked now s = build_request now s.url s.multi_runtime

asked-IsPlaced :
    (now : ℕ) (s : Session)
    → HasSlots s
    → IsPlaced s.monitor.lane_bindings (asked now s).0 (asked now s).1
asked-IsPlaced now s h = build_request-IsPlaced now s.url s.monitor.lane_bindings s.multi_runtime h

start_cut-HasSlots :
    (now asked_at id a b : ℕ) (o : Option ChunkState) (s : Session)
    → HasSlots s
    → HasSlots (
        start_or_buffer a b
          (asked asked_at s).0
          (record (shrink_chunk now id a o s) { multi_runtime = (asked asked_at s).1 }))
start_cut-HasSlots now asked_at id a b none s h =
    start_or_buffer-HasSlots a b (asked asked_at s).0
      (record s { multi_runtime = (asked asked_at s).1 }) (asked-IsPlaced asked_at s h)
start_cut-HasSlots now asked_at id a b (some c) s h =
    start_or_buffer-HasSlots a b (asked asked_at s).0
      (record (shrink_chunk now id a (some c) s) { multi_runtime = (asked asked_at s).1 })
      (asked-IsPlaced asked_at s h)

pub info-HasSlots :
    (clock : ℕ → ℕ) (info : DownloadInfo) (s : Session)
    → HasSlots s
    → HasSlots (handle_download_info clock info s)
unfolding handle_download_info on_progress on_complete on_failed on_bisected
info-HasSlots clock (chunk_progress id a b d) s h =
    let chunks = s.monitor.state.chunks in
    let c = progressed (clock 1) (or_new (Map.get id chunks) id a b (clock 0)) b d in
    let grown = set_chunks (Map.insert id c chunks) s in
    let back = set_chunks (Map.insert id (update_status c 0 none (clock 2)) chunks) s in
    let told = send (informs (chunk_status_changed id 0 none)) back in
    let next = if c.status == 0 then grown else told in
    if-holds HasSlots (contains id s.monitor.retired_ids) s next h
      (if-holds HasSlots (c.status == 0) grown told h h)
info-HasSlots clock (download_complete id) s h =
    settle_lane-HasPlaces after_success id (Map.get id s.monitor.lane_bindings)
      s.monitor.lane_bindings s.multi_runtime after_success-IsReturn refl h
info-HasSlots clock (chunk_failed id a b error) s h =
    settle_lane-HasPlaces (after_failure (clock 0)) id (Map.get id s.monitor.lane_bindings)
      s.monitor.lane_bindings s.multi_runtime (after_failure-IsReturn (clock 0)) refl h
info-HasSlots clock (chunk_bisected id a b) s h =
    start_cut-HasSlots (clock 0) (clock 1) id a b (Map.get id s.monitor.state.chunks) s h
info-HasSlots clock (monitor_update a b c d e) s h = h
info-HasSlots clock (chunk_status_changed a b c) s h = h

module _ (clock : ℕ → ℕ) where
  drain_loop-HasSlots :
      (k : ℕ) (pending : List (ℕ × ℕ)) (s : Session)
      → HasSlots s
      → HasSlots (drain_loop clock k pending s)
  unfolding drain_loop
  drain_loop-HasSlots k [] s h = h
  drain_loop-HasSlots k ((start, end) ∷ pending) s h =
      let answer = asked (clock k) s in
      let placed = asked-IsPlaced (clock k) s h in
      elim (Option-cases answer.0) [
        | inl e ↦
            rw (e, drain_loop)
              (IsPlaced-HasPlaces s.monitor.lane_bindings answer.1 (rw e at placed))
        | inr (target, e) ↦
            let ready = set_runtime answer.1 s in
            rw (e, drain_loop)
              (drain_loop-HasSlots (suc k) pending (spawn_new start end target ready)
                (start_or_buffer-HasSlots start end (some target) ready (rw e at placed)))
      ]

  retry_or_defer-HasSlots :
      (c : FailedChunkInfo) (o : Option (Option LaneId × Request))
      → (s : Session) (deferred : List FailedChunkInfo)
      → IsPlaced s.monitor.lane_bindings o s.multi_runtime
      → HasSlots (retry_or_defer c o (s, deferred)).0
  retry_or_defer-HasSlots c none s deferred h =
      IsPlaced-HasPlaces s.monitor.lane_bindings s.multi_runtime h
  retry_or_defer-HasSlots c (some target) s deferred h =
      spawn-HasSlots c.id c.start c.end target (send (retry_message c) s) h

  retry_loop-HasSlots :
      (fuel : ℕ) (s : Session) (deferred : List FailedChunkInfo)
      → HasSlots s
      → HasSlots (retry_loop clock fuel (s, deferred)).0
  unfolding retry_loop
  retry_loop-HasSlots zero s deferred h = h
  retry_loop-HasSlots (suc fuel) s deferred h =
      let popped = pop_ready_chunk (clock (2 * fuel)) s.monitor.retry_handler in
      let answer = asked (clock (2 * fuel + 1)) s in
      let placed = asked-IsPlaced (clock (2 * fuel + 1)) s h in
      elim (Option-cases popped.0) [
        | inl e ↦ rw (e, retry_loop) h
        | inr (c, e) ↦
            let ready = set_runtime answer.1 (set_handler popped.1 s) in
            let next = retry_or_defer c answer.0 (ready, deferred) in
            rw (e, retry_loop)
              (retry_loop-HasSlots fuel next.0 next.1
                (retry_or_defer-HasSlots c answer.0 ready deferred placed))
      ]

pub tick_work-HasSlots : (t : Tick) (s : Session) → HasSlots s → HasSlots (tick_work t s)
unfolding tick_work retry_ready drain_pending send_monitor_update
tick_work-HasSlots t s h =
    let shown = send_monitor_update t.seconds s in
    let adaptive = if s.monitor.is_rate_limited then [] else map commands t.adaptive in
    let acted = record shown { sent = shown.sent ++ adaptive } in
    let drained = drain_pending t.drain_clock acted in
    let processed =
      set_handler (process_queues t.queue_clock drained.monitor.retry_handler) drained in
    retry_loop-HasSlots t.retry_clock (length processed.monitor.retry_handler.retry_queue) processed
      [] (drain_loop-HasSlots t.drain_clock 0 s.monitor.pending_bisects acted h)
