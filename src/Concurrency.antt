-- ===== src/Concurrency.antt =====
-- `ConcurrencyManager` of src/concurrency.rs: its state and the requests that it sends. An operation
-- returns the manager and the commands that it sent. Times are in milliseconds; one reading of the
-- clock serves a call. The speeds are numbers of a type `W`.
pub mod Find
pub mod Decide
pub mod Outcome
pub mod Sound
pub mod Pace
pub mod Phase
pub mod Choice
mod Tests
use simple_downloader.Prelude.{
  ℕ, ◌+◌, ◌-◌, ◌*◌, ◌/◌, min, max, Bool, true, false, ◌&&◌, ◌||◌, not, List, [], ◌∷◌, ◌++◌, Option,
  none, some, ltb, leb, ◌==◌, if◌then◌else◌, length,
}
use simple_downloader.Prelude.Map
use simple_downloader.Prelude.Map.{Map}
use simple_downloader.Types.{
  ChunkId, DownloadCmd, bisect_download, bisect_download_skewed, terminate_chunk,
}
use simple_downloader.State.{ChunkState, DownloadState, total_downloaded}
use simple_downloader.Float.{Float, nought}
use simple_downloader.Speed.{Gauge}

pub data DownloadPhase : Type 0 where
  probing stable : DownloadPhase

pub data ObservationState : Type 0 where
  ready observing evaluating : ObservationState

pub record SplitObservation (W : Type 0) : Type 0 where
  pub pre_split_speed : W
  pub pre_split_recent_best : W
  pub required_samples : ℕ
  pub collected_samples : ℕ
  pub best_speed_seen : W

pub record ConcurrencyManager (W : Type 0) : Type 0 where
  pub max_workers : ℕ
  pub update_interval : W
  pub phase : DownloadPhase
  pub max_speed : W
  pub recent_best_speed : W
  pub last_split_time : ℕ
  pub stable_speed_samples : List W
  pub observation_state : ObservationState
  pub current_observation : Option (SplitObservation W)
  pub consecutive_probe_no_gain : ℕ
  pub skewed_split_counts : Map ℕ
  pub last_steal_time : Map ℕ

-- What a call reads: the state with the speeds of its chunks, and the clock.
pub record Reading (W : Type 0) : Type 0 where
  pub state : DownloadState
  pub gauges : ChunkId → Gauge W
  pub now : ℕ

abbrev pub speed_of : {W : Type 0} → Reading W → ChunkId → W
speed_of r id = (r.gauges id).speed

abbrev pub min_split_interval : ℕ
min_split_interval = 150

abbrev pub small_tail_bytes : ℕ
small_tail_bytes = 128 * 1024

-- `elapsed` of an instant, in milliseconds and in whole seconds.
abbrev pub elapsed : ℕ → ℕ → ℕ
elapsed now since = now - since

abbrev pub as_secs : ℕ → ℕ
as_secs ms = ms / 1000

abbrev pub idle_of : ℕ → Option ChunkState → ℕ
idle_of now none = 0
idle_of now (some c) = as_secs (elapsed now c.last_progress_at)

unfoldable pub chunk_idle_secs : ℕ → DownloadState → ChunkId → ℕ
unfolding Map.get
chunk_idle_secs now s id = idle_of now (Map.get id s.chunks)

unfoldable pub remaining : DownloadState → ℕ
unfolding total_downloaded
remaining s = s.total_file_size - total_downloaded s

-- `entry(id).or_insert(0)`
abbrev pub or_zero : Option ℕ → ℕ
or_zero none = 0
or_zero (some n) = n

abbrev pub count_of : ChunkId → Map ℕ → ℕ
count_of id counts = or_zero (Map.get id counts)

abbrev pub is_recent : ℕ → Option ℕ → Bool
is_recent now none = false
is_recent now (some t) = ltb (as_secs (elapsed now t)) 10

-- The manager and the commands that it sent.
abbrev pub Act : Type 0 → Type 0
Act W = ConcurrencyManager W × List DownloadCmd

module _ {W : Type 0} ⦃f : Float W⦄ where
  unfoldable pub new_with_interval : ℕ → ℕ → W → ConcurrencyManager W
  new_with_interval now max_workers update_interval = record {
    max_workers = max_workers;
    update_interval = if f.lt nought update_interval then update_interval else f.lit 5 10;
    phase = if max_workers == 1 then stable else probing;
    max_speed = nought;
    recent_best_speed = nought;
    last_split_time = now - min_split_interval;
    stable_speed_samples = [];
    observation_state = ready;
    current_observation = none;
    consecutive_probe_no_gain = 0;
    skewed_split_counts = Map.empty;
    last_steal_time = Map.empty;
  }

  unfoldable pub set_max_workers : ℕ → ConcurrencyManager W → ConcurrencyManager W
  set_max_workers workers m =
      let w = max workers 1 in
      record m { max_workers = if w == m.max_workers then m.max_workers else w }

  unfoldable pub adaptive_remaining_threshold : ℕ → W
  adaptive_remaining_threshold total_file_size =
      if leb (20 * 1024 * 1024) total_file_size
      then f.lit 8 10
      else if leb (10 * 1024 * 1024) total_file_size
      then f.lit 1 1
      else if leb (5 * 1024 * 1024) total_file_size
      then f.lit 12 10
      else if leb (1024 * 1024) total_file_size
      then f.lit 18 10
      else f.lit 3 1

  unfoldable pub required_samples_for_interval : W → ℕ
  required_samples_for_interval update_interval =
      min (max (f.ceil_usize (f.div (f.lit 1 1) (f.fmax update_interval (f.lit 5 100)))) 2) 5

  unfoldable pub split_is_useful : DownloadState → W → W → Bool
  unfolding adaptive_remaining_threshold remaining
  split_is_useful s avg_speed estimated_time =
      let whole = adaptive_remaining_threshold s.total_file_size in
      let threshold = if length s.chunks == 1 then f.mul whole (f.lit 4 10) else whole in
      if f.le avg_speed nought
      then false
      else if ltb (remaining s) (256 * 1024)
      then false
      else f.lt threshold estimated_time

  unfoldable pub request_split : ℕ → ChunkId → ConcurrencyManager W → Act W
  request_split now id m = (record m { last_split_time = now }, bisect_download id ∷ [])

  unfoldable pub request_split_with_observation : ℕ → ChunkId → W → ConcurrencyManager W → Act W
  unfolding request_split required_samples_for_interval
  request_split_with_observation now id current_speed m =
      let (asked, sent) = request_split now id m in
      let observation : SplitObservation W = record {
        pre_split_speed = current_speed;
        pre_split_recent_best = asked.recent_best_speed;
        required_samples = required_samples_for_interval asked.update_interval;
        collected_samples = 0;
        best_speed_seen = current_speed;
      } in
      (record asked { observation_state = observing; current_observation = some observation }, sent)

  -- A chunk from which a tail was taken within the last ten seconds.
  unfoldable pub is_steal_throttled : ℕ → ChunkId → ConcurrencyManager W → Bool
  unfolding Map.get
  is_steal_throttled now id m = is_recent now (Map.get id m.last_steal_time)

  -- The branch for a tail that is too small to be cut.
  unfoldable pub steal_small_tail : ℕ → DownloadState → ChunkId → ConcurrencyManager W → Act W
  unfolding is_steal_throttled chunk_idle_secs Map.insert
  steal_small_tail now s id m =
      let stolen = record m {
        last_steal_time = Map.insert id now m.last_steal_time;
        last_split_time = now;
      } in
      if leb 10 (chunk_idle_secs now s id) && not (is_steal_throttled now id m)
      then (stolen, terminate_chunk id ∷ [])
      else (m, [])

  unfoldable pub request_skewed_split :
      ℕ → DownloadState → ChunkId → ℕ → ConcurrencyManager W → Act W
  unfolding steal_small_tail Map.get Map.insert Map.remove
  request_skewed_split now s id remaining_bytes m =
      let count = count_of id m.skewed_split_counts + 1 in
      let counted = Map.insert id count m.skewed_split_counts in
      let killed = record m {
        skewed_split_counts = Map.remove id counted;
        last_split_time = now;
      } in
      let cut = record m { skewed_split_counts = counted; last_split_time = now } in
      if ltb remaining_bytes small_tail_bytes
      then steal_small_tail now s id m
      else if ltb 4 count
      then (killed, terminate_chunk id ∷ [])
      else (cut, bisect_download_skewed id ∷ [])

  unfoldable pub transition_to_stable : ConcurrencyManager W → ConcurrencyManager W
  transition_to_stable m = record m {
    phase = stable;
    stable_speed_samples = [];
    observation_state = ready;
    current_observation = none;
    recent_best_speed = m.max_speed;
  }
