-- ===== src/Downloader/Orchestrate.antt =====
-- `orchestrate_downloads` of src/downloader.rs: the first chunks of a download, and the monitor that
-- takes over.
use simple_downloader.Prelude.{
  ℕ, suc, ◌+◌, ◌*◌, ◌%◌, Bool, true, false, ◌||◌, not, List, [], ◌∷◌, ◌++◌, Option, none, some, ltb,
  ◌==◌, if◌then◌else◌, u64_mod,
}
use simple_downloader.Types.{ChunkId}
use simple_downloader.Lane.{LaneId}
use simple_downloader.Lane.Runtime.{
  LaneRuntime, MultiRuntime, claim_request_builder, limiter_for_lane, has_rate_limit,
}
use simple_downloader.Monitor.{
  Monitor, Request, by_lane, by_url, Spawn, Output, spawns, Session, running, new_with_completed,
  limiter_at, global_of,
}
use simple_downloader.Monitor.Tick.{drain_pending}
use simple_downloader.Monitor.Loop.{Event, start_session, run}
use simple_downloader.Downloader.{split_resume_ranges}

-- The arguments, with the downloader's own limiter.
pub record Job : Type 0 where
  pub file_size : ℕ
  pub support_ranges : Bool
  pub workers : ℕ
  pub completed_bytes : ℕ
  pub resume_ranges : List (ℕ × ℕ)
  pub url : ℕ
  pub own_limiter : Option ℕ
  pub multi_runtime : Option MultiRuntime

abbrev pub min_parallel_file_size : ℕ
min_parallel_file_size = 1024 * 1024

unfoldable pub effective_workers : Job → ℕ
effective_workers j =
    if not j.support_ranges || j.workers == 1 || ltb j.file_size min_parallel_file_size
    then 1
    else j.workers

-- The variables of the loop over the first ranges.
pub record Opening : Type 0 where
  pub multi_runtime : Option MultiRuntime
  pub next_chunk_id : ℕ
  pub tasks : ℕ
  pub initial_lanes : List (ChunkId × LaneId)
  pub pending_initial : List (ℕ × ℕ)
  pub sent : List Output

abbrev pub push_lane : ChunkId → Option LaneId → List (ChunkId × LaneId) → List (ChunkId × LaneId)
push_lane id none lanes = lanes
push_lane id (some lane) lanes = lanes ++ (id, lane) ∷ []

unfoldable pub spawn_initial :
    Option LaneId → Request → Option ℕ → Option ℕ → ℕ × ℕ → Opening → Opening
spawn_initial lane request per_source global (start, end) o =
    let chunk : Spawn = record {
      id = o.next_chunk_id;
      request = request;
      start = start;
      end = end;
      global = global;
      per_source = per_source;
    } in
    record o {
      next_chunk_id = (o.next_chunk_id + 1) % u64_mod;
      tasks = o.tasks + 1;
      initial_lanes = push_lane o.next_chunk_id lane o.initial_lanes;
      sent = o.sent ++ spawns chunk ∷ [];
    }

-- A range for which no lane has capacity is buffered.
unfoldable pub enter_lane :
    Option ℕ → ℕ × ℕ → Option (LaneId × LaneRuntime) → MultiRuntime → Opening → Opening
unfolding spawn_initial limiter_for_lane
enter_lane own r none next o = record o {
  multi_runtime = some next;
  pending_initial = o.pending_initial ++ r ∷ [];
}
enter_lane own r (some (lane, runtime)) next o =
    spawn_initial (some lane) (by_lane runtime) (limiter_at (some lane) (some next))
      (global_of (some next) own) r (record o { multi_runtime = some next })

unfoldable pub open_range : ℕ → Job → ℕ × ℕ → Option MultiRuntime → Opening → Opening
unfolding claim_request_builder enter_lane spawn_initial
open_range now j r none o = spawn_initial none (by_url j.url) none j.own_limiter r o
open_range now j r (some runtime) o =
    let (claimed, next) = claim_request_builder now runtime in
    enter_lane j.own_limiter r claimed next o

unfoldable pub open_ranges : (ℕ → ℕ) → ℕ → Job → List (ℕ × ℕ) → Opening → Opening
unfolding open_range
open_ranges clock k j [] o = o
open_ranges clock k j (r ∷ ranges) o =
    open_ranges clock (suc k) j ranges (open_range (clock k) j r o.multi_runtime o)

abbrev pub is_set : Option ℕ → Bool
is_set none = false
is_set (some x) = true

unfoldable pub with_rate_limit : Option ℕ → Monitor → Monitor
with_rate_limit limiter m = record m { is_rate_limited = is_set limiter; global_limiter = limiter }

unfoldable pub set_rate_limited : Bool → Monitor → Monitor
set_rate_limited limited m = record m { is_rate_limited = limited }

unfoldable pub runtime_limited : Option MultiRuntime → Bool
unfolding has_rate_limit
runtime_limited none = false
runtime_limited (some runtime) = has_rate_limit runtime

-- The monitor with the ranges that wait for a lane.
unfoldable pub initial_monitor : Job → List (ℕ × ℕ) → Monitor
unfolding new_with_completed with_rate_limit set_rate_limited runtime_limited
initial_monitor j pending =
    let limited =
      with_rate_limit (global_of j.multi_runtime j.own_limiter)
        (new_with_completed j.file_size j.completed_bytes) in
    let is_limited = runtime_limited j.multi_runtime || is_set j.own_limiter in
    let frozen = set_rate_limited true limited in
    record limited {
      is_rate_limited = if is_limited then frozen.is_rate_limited else limited.is_rate_limited;
      pending_bisects = limited.pending_bisects ++ pending;
    }

abbrev pub opening : Job → Opening
opening j = record {
  multi_runtime = j.multi_runtime;
  next_chunk_id = 0;
  tasks = 0;
  initial_lanes = [];
  pending_initial = [];
  sent = [];
}

-- All that is behind the loop over the first ranges, up to the monitor's own loop.
unfoldable pub hand_over : (ℕ → ℕ) → Job → Opening → Session
unfolding initial_monitor drain_pending start_session
hand_over clock j o =
    let entered : Session = record {
      monitor = initial_monitor j o.pending_initial;
      multi_runtime = o.multi_runtime;
      url = some j.url;
      tasks = o.tasks;
      next_chunk_id = o.next_chunk_id;
      reliable_open = true;
      status = running;
      sent = o.sent;
    } in
    let drained = drain_pending clock entered in
    record (start_session drained.monitor o.initial_lanes drained.multi_runtime drained.url
      drained.tasks drained.next_chunk_id true) { sent = drained.sent }

-- `open_clock` and `drain_clock` are the readings of the clock in the loop and behind it.
unfoldable pub begin : (open_clock drain_clock : ℕ → ℕ) → Job → Session
unfolding effective_workers split_resume_ranges open_ranges hand_over
begin open_clock drain_clock j = hand_over drain_clock j (
    open_ranges open_clock 0 j (split_resume_ranges j.resume_ranges (effective_workers j))
      (opening j))

unfoldable pub orchestrate_downloads : (open_clock drain_clock : ℕ → ℕ) → Job → List Event → Session
unfolding begin run
orchestrate_downloads open_clock drain_clock j events = run (begin open_clock drain_clock j) events
