-- ===== src/Monitor.antt =====
-- `DownloadMonitor` of src/monitor.rs, with what its loop holds beside it. The speeds (`f64`) stand
-- in Speed, and the concurrency manager in Concurrency: what they answer comes as an argument. A
-- number stands for a URL and for a limiter. What the monitor sends, and each chunk that it starts,
-- is kept in `sent`.
pub mod Info
pub mod Tick
pub mod Loop
pub mod Frame
pub mod Retired
pub mod Ranges
pub mod Places
pub mod Slots
pub mod Room
pub mod Finish
pub mod Tally
pub mod Conservation
pub mod Stall
mod Tests
use simple_downloader.Prelude.{
  ℕ, ◌+◌, ◌-◌, ◌*◌, ◌/◌, ◌%◌, Bool, true, false, ◌&&◌, ◌||◌, not, List, [], ◌∷◌, ◌++◌, map, Option,
  none, some, ltb, leb, ◌==◌, if◌then◌else◌, u64_mod,
}
use simple_downloader.Prelude.Map
use simple_downloader.Prelude.Map.{Map}
use simple_downloader.Prelude.Text.{Text}
use simple_downloader.Types.{
  ChunkId, ChunkDetail, DownloadCmd, DownloadInfo, monitor_update, download_complete, chunk_failed,
  chunk_bisected,
}
use simple_downloader.State.{ChunkState, DownloadState, size, with_completed, total_downloaded}
use simple_downloader.Retry.{RetryHandler}
use simple_downloader.Retry
use simple_downloader.Retry.Queues
use simple_downloader.Retry.Queues.{is_empty}
use simple_downloader.Lane.{LaneId}
use simple_downloader.Lane.Runtime.{
  LaneRuntime, MultiRuntime, claim_request_builder, limiter_for_lane,
}

pub record Monitor : Type 0 where
  pub state : DownloadState
  pub retry_handler : RetryHandler
  pub lane_bindings : Map LaneId
  pub pending_bisects : List (ℕ × ℕ)
  pub retired_ids : List ChunkId
  pub lagged_count : ℕ
  pub stall_ticks : ℕ
  pub is_rate_limited : Bool
  pub global_limiter : Option ℕ

unfoldable pub new_with_completed : ℕ → ℕ → Monitor
unfolding with_completed
new_with_completed total_file_size completed_bytes = record {
  state = with_completed total_file_size completed_bytes;
  retry_handler = Retry.new;
  lane_bindings = Map.empty;
  pending_bisects = [];
  retired_ids = [];
  lagged_count = 0;
  stall_ticks = 0;
  is_rate_limited = false;
  global_limiter = none;
}

-- The connection of a lane, or a client for the URL.
pub data Request : Type 0 where
  by_lane : LaneRuntime → Request
  by_url : ℕ → Request

-- A chunk that is started: the arguments of `chunk_run_with_reliable`.
pub record Spawn : Type 0 where
  pub id : ChunkId
  pub request : Request
  pub start : ℕ
  pub end : ℕ
  pub global : Option ℕ
  pub per_source : Option ℕ

pub data Output : Type 0 where
  informs : DownloadInfo → Output
  commands : DownloadCmd → Output
  spawns : Spawn → Output

pub data Status : Type 0 where
  running finished failed : Status

-- The monitor and the variables of its loop; `tasks` is the number of tasks that are not joined.
pub record Session : Type 0 where
  pub monitor : Monitor
  pub multi_runtime : Option MultiRuntime
  pub url : Option ℕ
  pub tasks : ℕ
  pub next_chunk_id : ℕ
  pub reliable_open : Bool
  pub status : Status
  pub sent : List Output

abbrev pub send : Output → Session → Session
send o s = record s { sent = s.sent ++ o ∷ [] }

unfoldable pub is_reliable_event : DownloadInfo → Bool
is_reliable_event (download_complete id) = true
is_reliable_event (chunk_failed id start end error) = true
is_reliable_event (chunk_bisected original new_start new_end) = true
is_reliable_event other = false

abbrev pub request_for : Option (LaneId × LaneRuntime) → Option (Option LaneId × Request)
request_for none = none
request_for (some (lane, runtime)) = some (some lane, by_lane runtime)

abbrev pub request_to : Option ℕ → Option (Option LaneId × Request)
request_to none = none
request_to (some url) = some (none, by_url url)

-- The lanes of a download, where it has any, serve all its requests.
unfoldable pub build_request :
    ℕ → Option ℕ → Option MultiRuntime → Option (Option LaneId × Request) × Option MultiRuntime
unfolding claim_request_builder
build_request now url none = (request_to url, none)
build_request now url (some runtime) =
    let (claimed, next) = claim_request_builder now runtime in (request_for claimed, some next)

abbrev pub limiter_at : Option LaneId → Option MultiRuntime → Option ℕ
limiter_at none runtime = none
limiter_at (some lane) none = none
limiter_at (some lane) (some runtime) = limiter_for_lane lane runtime

abbrev pub or_else : Option ℕ → Option ℕ → Option ℕ
or_else none other = other
or_else (some x) other = some x

abbrev pub global_of : Option MultiRuntime → Option ℕ → Option ℕ
global_of none own = own
global_of (some runtime) own = or_else runtime.global_limiter own

abbrev pub bind_lane : ChunkId → Option LaneId → Map LaneId → Map LaneId
bind_lane id none bindings = bindings
bind_lane id (some lane) bindings = Map.insert id lane bindings

-- Starts a chunk, which holds its lane from now on.
unfoldable pub spawn : ChunkId → ℕ → ℕ → Option LaneId × Request → Session → Session
unfolding limiter_for_lane
spawn id start end (lane, request) s =
    let chunk : Spawn = record {
      id = id;
      request = request;
      start = start;
      end = end;
      global = global_of s.multi_runtime s.monitor.global_limiter;
      per_source = limiter_at lane s.multi_runtime;
    } in
    record s {
      monitor = record s.monitor { lane_bindings = bind_lane id lane s.monitor.lane_bindings };
      tasks = s.tasks + 1;
      sent = s.sent ++ spawns chunk ∷ [];
    }

-- A chunk for a range that no chunk had: `fetch_add` gives its id.
unfoldable pub spawn_new : ℕ → ℕ → Option LaneId × Request → Session → Session
unfolding spawn
spawn_new start end target s =
    spawn s.next_chunk_id start end target
      (record s { next_chunk_id = (s.next_chunk_id + 1) % u64_mod })

abbrev detail_of : ℕ × ChunkState → ChunkDetail
detail_of (k, c) = (c.id, size c, c.downloaded_bytes, c.status)

-- No time is shown before a twentieth of the file is there. `seconds` divides by the speed, where that
-- is positive.
unfoldable pub eta : Option (ℕ → ℕ) → DownloadState → Option ℕ
eta none s = none
eta (some seconds) s =
    let done = total_downloaded s in
    if ltb 0 s.total_file_size
      && ltb 0 done
      && ltb done s.total_file_size
      && ltb (s.total_file_size / 20) done
    then some (seconds (s.total_file_size - done))
    else none

unfoldable pub send_monitor_update : Option (ℕ → ℕ) → Session → Session
unfolding eta
send_monitor_update seconds s =
    let state = s.monitor.state in
    send
      (informs (
        monitor_update state.total_file_size (total_downloaded state) (map detail_of state.chunks)
          (eta seconds state) []))
      s

-- Nothing in flight, buffered or waiting for a retry.
unfoldable pub are_all_tasks_done : Monitor → Bool
are_all_tasks_done m =
    is_empty m.pending_bisects
    && is_empty m.state.chunks
    && Queues.are_all_tasks_done m.retry_handler
