-- ===== src/Monitor/Loop.antt =====
-- `run_with_reliable` of src/monitor.rs: the loop of the monitor as steps on events. An event whose
-- branch is not open changes nothing.
use simple_downloader.Prelude.{
  ℕ, ◌+◌, ◌-◌, ◌%◌, Bool, true, false, List, [], ◌∷◌, Option, ◌==◌, if◌then◌else◌, u64_mod,
}
use simple_downloader.Prelude.Map
use simple_downloader.Types.{ChunkId, DownloadInfo, terminate_all}
use simple_downloader.Retry.Queues.{has_permanent_failure}
use simple_downloader.Lane.{LaneId}
use simple_downloader.Lane.Runtime.{MultiRuntime}
use simple_downloader.Monitor.{
  Monitor, Session, Status, running, finished, failed, commands, send, is_reliable_event,
  send_monitor_update,
}
use simple_downloader.Monitor.Info.{handle_download_info}
use simple_downloader.Monitor.Tick.{Tick, handle_tick, is_all_done}

pub data Event : Type 0 where
  reliable : (ℕ → ℕ) → DownloadInfo → Event
  reliable_closed joined closed : Event
  heard : (ℕ → ℕ) → DownloadInfo → Event
  lagged : ℕ → Option (ℕ → ℕ) → Event
  ticks : Tick → Event

abbrev pub set_status : Status → Session → Session
set_status status s = record s { status = status }

-- A permanent failure ends the loop with an error and stops all chunks.
unfoldable pub fail_fast : Session → Session
unfolding has_permanent_failure
fail_fast s =
    if has_permanent_failure s.monitor.retry_handler
    then set_status failed (send (commands terminate_all) s)
    else s

abbrev pub finish_if : Bool × Session → Session
finish_if (true, s) = set_status finished s
finish_if (false, s) = fail_fast s

unfoldable pub add_lagged : ℕ → Session → Session
add_lagged skipped s = record s {
  monitor = record s.monitor { lagged_count = (s.monitor.lagged_count + skipped) % u64_mod };
}

unfoldable pub handle : Event → Session → Session
unfolding handle_download_info fail_fast is_all_done is_reliable_event add_lagged
    send_monitor_update handle_tick
handle (reliable clock info) s =
    if s.reliable_open then fail_fast (handle_download_info clock info s) else s
handle reliable_closed s = record s { reliable_open = false }
handle joined s =
    let left = record s { tasks = s.tasks - 1 } in
    if s.tasks == 0 then s else if is_all_done left then set_status finished left else left
handle (heard clock info) s =
    fail_fast (if is_reliable_event info then s else handle_download_info clock info s)
handle (lagged skipped seconds) s = send_monitor_update seconds (add_lagged skipped s)
handle closed s = set_status finished s
handle (ticks t) s = finish_if (handle_tick t s)

abbrev pub is_running : Status → Bool
is_running running = true
is_running other = false

-- The head of the loop, and an event if it goes on.
unfoldable pub step : Session → Event → Session
unfolding fail_fast handle
step s e =
    let checked = fail_fast s in
    if is_running s.status
    then (if is_running checked.status then handle e checked else checked)
    else s

unfoldable pub run : Session → List Event → Session
unfolding step
run s [] = s
run s (e ∷ events) = run (step s e) events

abbrev pub bind_all : List (ChunkId × LaneId) → Monitor → Monitor
bind_all [] m = m
bind_all ((id, lane) ∷ lanes) m =
    bind_all lanes (record m { lane_bindings = Map.insert id lane m.lane_bindings })

-- The loop's variables before its first turn; `opened` says whether there is a reliable channel.
unfoldable pub start_session :
    Monitor → List (ChunkId × LaneId) → Option MultiRuntime → Option ℕ → ℕ → ℕ → Bool → Session
unfolding Map.insert
start_session m initial_lanes multi_runtime url tasks next_chunk_id opened = record {
  monitor = bind_all initial_lanes m;
  multi_runtime = multi_runtime;
  url = url;
  tasks = tasks;
  next_chunk_id = next_chunk_id;
  reliable_open = opened;
  status = running;
  sent = [];
}
