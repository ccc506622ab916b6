-- ===== src/Monitor/Info.antt =====
-- `handle_download_info` of src/monitor.rs: what the monitor does with a chunk's message. `clock k`
-- is the k-th reading of the clock.
use simple_downloader.Prelude.{
  ℕ, suc, ◌-◌, max, Bool, false, ◌||◌, List, [], ◌∷◌, ◌++◌, map, Option, none, some, ltb, ◌==◌,
  if◌then◌else◌,
}
use simple_downloader.Prelude.Map
use simple_downloader.Prelude.Map.{Map}
use simple_downloader.Types.{
  ChunkId, DownloadInfo, chunk_progress, download_complete, chunk_failed, chunk_bisected,
  chunk_status_changed,
}
use simple_downloader.State.{
  ChunkState, new_chunk, update_downloaded, update_end_byte, update_status, size, complete_chunk,
}
use simple_downloader.Retry.{Failure, on_chunk_failed}
use simple_downloader.Retry.Queues.{on_download_complete}
use simple_downloader.Lane.{LaneId, release_chunk, record_success, record_failure}
use simple_downloader.Lane.Runtime.{MultiRuntime, on_scheduler}
use simple_downloader.Monitor.{Session, informs, Request, send, build_request, spawn_new}

abbrev pub contains : ChunkId → List ChunkId → Bool
contains id [] = false
contains id (j ∷ ids) = j == id || contains id ids

abbrev pub set_chunks : Map ChunkState → Session → Session
set_chunks chunks s = record s {
  monitor = record s.monitor { state = record s.monitor.state { chunks = chunks } };
}

abbrev pub or_new : Option ChunkState → ChunkId → ℕ → ℕ → ℕ → ChunkState
or_new none id start_byte end_byte now = new_chunk id start_byte end_byte now
or_new (some c) id start_byte end_byte now = c

-- The progress of a chunk only grows; its end is the one that the message gives.
unfoldable pub progressed : ℕ → ChunkState → ℕ → ℕ → ChunkState
unfolding update_downloaded update_end_byte
progressed now c end_byte downloaded =
    update_end_byte (update_downloaded c (max c.downloaded_bytes downloaded) now) end_byte

-- A late message of a chunk that is complete is dropped.
unfoldable pub on_progress : (ℕ → ℕ) → ChunkId → ℕ → ℕ → ℕ → Session → Session
unfolding progressed update_status
on_progress clock id start_byte end_byte downloaded s =
    let c =
      progressed (clock 1)
        (or_new (Map.get id s.monitor.state.chunks) id start_byte end_byte (clock 0)) end_byte
        downloaded in
    if contains id s.monitor.retired_ids
    then s
    else if c.status == 0
    then set_chunks (Map.insert id c s.monitor.state.chunks) s
    else send (informs (chunk_status_changed id 0 none))
        (set_chunks (Map.insert id (update_status c 0 none (clock 2)) s.monitor.state.chunks) s)

-- The lane of a chunk that has ended hears of it, and the chunk is no longer bound to it.
abbrev pub settle_lane :
    (LaneId → MultiRuntime → MultiRuntime)
    → Option LaneId
    → Option MultiRuntime
    → Option MultiRuntime
settle_lane f none runtime = runtime
settle_lane f (some lane) none = none
settle_lane f (some lane) (some runtime) = some (f lane runtime)

abbrev pub unbind : (LaneId → MultiRuntime → MultiRuntime) → ChunkId → Session → Session
unbind f id s = record s {
  monitor = record s.monitor { lane_bindings = Map.remove id s.monitor.lane_bindings };
  multi_runtime = settle_lane f (Map.get id s.monitor.lane_bindings) s.multi_runtime;
}

abbrev pub after_success : LaneId → MultiRuntime → MultiRuntime
after_success lane m = on_scheduler (λ t. release_chunk lane (record_success lane t)) m

abbrev pub after_failure : ℕ → LaneId → MultiRuntime → MultiRuntime
after_failure now lane m = on_scheduler (λ t. release_chunk lane (record_failure now lane t)) m

unfoldable pub on_complete : ChunkId → Session → Session
unfolding complete_chunk on_download_complete release_chunk record_success
on_complete id s =
    let retired = record s {
      monitor = record s.monitor {
        state = complete_chunk s.monitor.state id;
        retired_ids = id ∷ s.monitor.retired_ids;
      };
    } in
    let unbound = unbind after_success id retired in
    send (informs (chunk_status_changed id 4 none)) (record unbound {
      monitor = record unbound.monitor {
        retry_handler = on_download_complete id unbound.monitor.retry_handler;
      };
    })

unfoldable pub on_failed : (ℕ → ℕ) → Failure → Session → Session
unfolding on_chunk_failed release_chunk record_failure
on_failed clock f s =
    let unbound = unbind (after_failure (clock 0)) f.id s in
    let (handler, state, infos) =
      on_chunk_failed (λ k. clock (suc k)) s.monitor.retry_handler s.monitor.state f in
    record unbound {
      monitor = record unbound.monitor { retry_handler = handler; state = state };
      sent = s.sent ++ map informs infos;
    }

-- The original chunk ends before the new range, and has at most what is left of it.
unfoldable pub shrunk : ℕ → ChunkState → ℕ → ChunkState
unfolding update_end_byte update_downloaded size
shrunk now c new_start =
    let cut = update_end_byte c (new_start - 1) in
    if ltb (size cut) cut.downloaded_bytes then update_downloaded cut (size cut) now else cut

abbrev pub shrink_chunk : ℕ → ChunkId → ℕ → Option ChunkState → Session → Session
shrink_chunk now id new_start none s = s
shrink_chunk now id new_start (some c) s =
    set_chunks (Map.insert id (shrunk now c new_start) s.monitor.state.chunks) s

-- Without a lane the range waits.
abbrev pub start_or_buffer : ℕ → ℕ → Option (Option LaneId × Request) → Session → Session
start_or_buffer start end none s = record s {
  monitor = record s.monitor { pending_bisects = s.monitor.pending_bisects ++ (start, end) ∷ [] };
}
start_or_buffer start end (some target) s = spawn_new start end target s

unfoldable pub on_bisected : (ℕ → ℕ) → ChunkId → ℕ → ℕ → Session → Session
unfolding shrunk build_request spawn_new
on_bisected clock id new_start new_end s =
    let cut = shrink_chunk (clock 0) id new_start (Map.get id s.monitor.state.chunks) s in
    let (target, runtime) = build_request (clock 1) s.url s.multi_runtime in
    start_or_buffer new_start new_end target (record cut { multi_runtime = runtime })

unfoldable pub handle_download_info : (ℕ → ℕ) → DownloadInfo → Session → Session
unfolding on_progress on_complete on_failed on_bisected
handle_download_info clock (chunk_progress id start_byte end_byte downloaded) s =
    on_progress clock id start_byte end_byte downloaded s
handle_download_info clock (download_complete id) s = on_complete id s
handle_download_info clock (chunk_failed id start end error) s =
    on_failed clock (record { id = id; start = start; end = end; error = error }) s
handle_download_info clock (chunk_bisected original_id new_start new_end) s =
    on_bisected clock original_id new_start new_end s
handle_download_info clock other s = s
