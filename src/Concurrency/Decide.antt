-- ===== src/Concurrency/Decide.antt =====
-- `decide_and_act` of src/concurrency.rs with the handlers of the phases.
use simple_downloader.Prelude.{
  ℕ, suc, ◌*◌, Bool, true, false, ◌&&◌, ◌||◌, not, List, [], ◌∷◌, ◌++◌, Option, none, some, ltb,
  leb, ◌==◌, if◌then◌else◌, length, drop,
}
use simple_downloader.State.{ChunkState, DownloadState, remaining_bytes}
use simple_downloader.Float.{Float, nought, sum}
use simple_downloader.Speed.{total_speed}
use simple_downloader.Concurrency.{
  DownloadPhase, probing, stable, ObservationState, ready, observing, evaluating, SplitObservation,
  ConcurrencyManager, Reading, Act, elapsed, min_split_interval, remaining, split_is_useful,
  request_split, request_split_with_observation, request_skewed_split, transition_to_stable,
}
use simple_downloader.Concurrency.Find.{
  find_largest_splittable_chunk, find_slowest_splittable_chunk, is_stall, find_stalled,
}

abbrev pub is_idle : DownloadPhase → ObservationState → Bool
is_idle stable ready = true
is_idle _ _ = false

module _ {W : Type 0} ⦃f : Float W⦄ where
  unfoldable pub push_sample : List W → W → List W
  push_sample samples current_speed =
      let pushed = samples ++ current_speed ∷ [] in
      if ltb 5 (length pushed) then drop 1 pushed else pushed

  unfoldable pub average : List W → W
  unfolding sum
  average samples = f.div (sum samples) (f.of_nat (length samples))

  unfoldable pub estimate : DownloadState → W → W
  unfolding remaining
  estimate s avg_speed =
      if f.lt nought avg_speed then f.div (f.of_nat (remaining s)) avg_speed else f.greatest

  -- The best recent speed sinks slowly while nothing goes on.
  unfoldable pub drift : W → W → W
  drift recent_best avg_speed =
      let decayed = f.mul recent_best (f.lit 97 100) in
      if f.lt avg_speed decayed
      then decayed
      else if f.lt nought avg_speed
      then f.add (f.mul recent_best (f.lit 98 100)) (f.mul avg_speed (f.lit 2 100))
      else recent_best

  unfoldable pub track : W → ConcurrencyManager W → ConcurrencyManager W
  unfolding drift
  track avg_speed m =
      let sunk =
        if is_idle m.phase m.observation_state
        then drift m.recent_best_speed avg_speed
        else m.recent_best_speed in
      record m {
        max_speed = if f.lt nought avg_speed then f.fmax m.max_speed avg_speed else m.max_speed;
        recent_best_speed = if f.lt m.recent_best_speed avg_speed then avg_speed else sunk;
      }

  abbrev pub collect : W → SplitObservation W → SplitObservation W
  collect current_speed o = record o {
    collected_samples = suc o.collected_samples;
    best_speed_seen = f.fmax o.best_speed_seen current_speed;
  }

  abbrev pub observed :
      W
      → DownloadPhase
      → ObservationState
      → Option (SplitObservation W)
      → ObservationState × Option (SplitObservation W)
  observed current_speed stable observing (some o) =
      let seen = collect current_speed o in
      (
        if leb seen.required_samples seen.collected_samples then evaluating else observing,
        some seen,
      )
  observed current_speed phase state o = (state, o)

  unfoldable pub observe : W → ConcurrencyManager W → ConcurrencyManager W
  observe current_speed m =
      let (state, observation) =
        observed current_speed m.phase m.observation_state m.current_observation in
      record m { observation_state = state; current_observation = observation }

  abbrev pub active : Reading W → ℕ
  active r = length r.state.chunks

  -- In the probing phase: the largest chunk is cut, or the phase ends.
  abbrev pub probe_split : Reading W → Option ChunkState → ConcurrencyManager W → Act W
  probe_split r none m = (transition_to_stable m, [])
  probe_split r (some largest) m =
      let (asked, sent) = request_split r.now largest.id m in
      (record asked { consecutive_probe_no_gain = 0 }, sent)

  abbrev pub no_gain : Reading W → ConcurrencyManager W → Act W
  no_gain r m =
      let counted = record m { consecutive_probe_no_gain = suc m.consecutive_probe_no_gain } in
      if ltb 1 (active r)
        && leb 3 (length m.stable_speed_samples)
        && leb 1 counted.consecutive_probe_no_gain
      then (transition_to_stable counted, [])
      else (counted, [])

  unfoldable pub handle_probing_phase : Reading W → W → W → W → ConcurrencyManager W → Act W
  unfolding split_is_useful request_split transition_to_stable find_largest_splittable_chunk
  handle_probing_phase r avg_speed estimated_time previous_max_speed m =
      let has_gain =
        f.lt (f.mul previous_max_speed (f.lit 11 10)) avg_speed || f.eq previous_max_speed nought in
      if leb m.max_workers (active r)
      then (transition_to_stable m, [])
      else if not (split_is_useful r.state avg_speed estimated_time)
      then (m, [])
      else if has_gain
      then probe_split r (find_largest_splittable_chunk r.state.chunks) m
      else no_gain r m

  -- In the stable phase: the slowest chunk is cut, unless it is a short tail.
  abbrev pub split_slowest : Reading W → W → Option ChunkState → ConcurrencyManager W → Act W
  split_slowest r avg_speed none m = (m, [])
  split_slowest r avg_speed (some slowest) m =
      if not (is_stall r slowest) && ltb (remaining_bytes slowest) (512 * 1024)
      then (m, [])
      else if is_stall r slowest
      then request_skewed_split r.now r.state slowest.id (remaining_bytes slowest) m
      else request_split_with_observation r.now slowest.id avg_speed m

  -- A stalled chunk comes first, whatever the other conditions.
  abbrev pub rescue_or_split :
      Reading W → W → Bool → Option ChunkState → ConcurrencyManager W → Act W
  rescue_or_split r avg_speed should_consider_split (some stalled) m =
      request_skewed_split r.now r.state stalled.id (remaining_bytes stalled) m
  rescue_or_split r avg_speed should_consider_split none m =
      if should_consider_split
      then split_slowest r avg_speed (find_slowest_splittable_chunk r) m
      else (m, [])

  unfoldable pub handle_stable_ready : Reading W → W → W → ConcurrencyManager W → Act W
  unfolding split_is_useful request_split_with_observation request_skewed_split is_stall
      find_slowest_splittable_chunk find_stalled remaining_bytes
  handle_stable_ready r avg_speed estimated_time m =
      let threshold = f.mul m.recent_best_speed (f.lit 8 10) in
      let should_consider_split =
        f.lt avg_speed threshold
        && ltb (active r) m.max_workers
        && split_is_useful r.state avg_speed estimated_time in
      rescue_or_split r avg_speed should_consider_split (find_stalled r) m

  -- The split went on to another chunk, or the manager is ready again.
  abbrev pub split_further : Reading W → W → Option ChunkState → ConcurrencyManager W → Act W
  split_further r avg_speed none m = (record m { observation_state = ready }, [])
  split_further r avg_speed (some largest) m =
      request_split_with_observation r.now largest.id avg_speed m

  abbrev pub evaluate :
      Reading W → W → W → Option (SplitObservation W) → ConcurrencyManager W → Act W
  evaluate r avg_speed estimated_time none m = (record m { observation_state = ready }, [])
  evaluate r avg_speed estimated_time (some o) m =
      let gain = f.lt (f.mul o.pre_split_speed (f.lit 105 100)) o.best_speed_seen in
      let no_regression = f.lt (f.mul o.pre_split_recent_best (f.lit 95 100)) o.best_speed_seen in
      let better = record m { recent_best_speed = f.fmax o.best_speed_seen m.recent_best_speed } in
      if gain && no_regression
      then if ltb (active r) m.max_workers && split_is_useful r.state avg_speed estimated_time
        then split_further r avg_speed (find_largest_splittable_chunk r.state.chunks) better
        else (record better { observation_state = ready }, [])
      else (record m { observation_state = ready }, [])

  unfoldable pub handle_stable_evaluate : Reading W → W → W → ConcurrencyManager W → Act W
  unfolding split_is_useful request_split_with_observation find_largest_splittable_chunk
  handle_stable_evaluate r avg_speed estimated_time m =
      evaluate r avg_speed estimated_time m.current_observation
        (record m { current_observation = none })

  abbrev pub stable_by : Reading W → W → W → ObservationState → ConcurrencyManager W → Act W
  stable_by r avg_speed estimated_time ready m = handle_stable_ready r avg_speed estimated_time m
  stable_by r avg_speed estimated_time observing m = (m, [])
  stable_by r avg_speed estimated_time evaluating m =
      handle_stable_evaluate r avg_speed estimated_time m

  unfoldable pub handle_stable_phase : Reading W → W → W → ConcurrencyManager W → Act W
  unfolding handle_stable_ready handle_stable_evaluate
  handle_stable_phase r avg_speed estimated_time m =
      stable_by r avg_speed estimated_time m.observation_state m

  abbrev pub act_on : Reading W → W → W → W → DownloadPhase → ConcurrencyManager W → Act W
  act_on r avg_speed estimated_time previous_max_speed probing m =
      handle_probing_phase r avg_speed estimated_time previous_max_speed m
  act_on r avg_speed estimated_time previous_max_speed stable m =
      handle_stable_phase r avg_speed estimated_time m

  -- What follows the samples.
  unfoldable pub act : Reading W → ConcurrencyManager W → Act W
  unfolding average estimate track observe handle_probing_phase handle_stable_phase total_speed
  act r m =
      let avg_speed = average m.stable_speed_samples in
      act_on r avg_speed (estimate r.state avg_speed) m.max_speed m.phase
        (observe (total_speed r.gauges r.state) (track avg_speed m))

  unfoldable pub decide_and_act : Reading W → ConcurrencyManager W → Act W
  unfolding push_sample act total_speed
  decide_and_act r m =
      let sampled = record m {
        stable_speed_samples = push_sample m.stable_speed_samples (total_speed r.gauges r.state);
      } in
      if ltb (elapsed r.now m.last_split_time) min_split_interval
      then (m, [])
      else if length sampled.stable_speed_samples == 0
      then (sampled, [])
      else act r sampled
