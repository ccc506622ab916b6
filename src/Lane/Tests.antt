-- ===== src/Lane/Tests.antt =====
-- Two lanes of two sources, and a download of at most three chunks.
use simple_downloader.Prelude.{
  ◌*◌, Bool, List, [], ◌∷◌, none, false, ℕ, ◌≡◌, ◌≤◌, refl, true, some, All,
}
use simple_downloader.Prelude.Map
use simple_downloader.Lane.{
  assign_chunk, per_source, healthy, blacklisted, from_candidates, total_active_chunks,
  source_active_chunks, decay_expired_blacklists, best_lane, lane_health,
}
use simple_downloader.Lane.Runtime.{
  MultiRuntime, claim_request_builder, limiter_for_lane, has_rate_limit,
}
use simple_downloader.Lane.Probe.{Probe, Chosen, choose, runtime_of}
use simple_downloader.Lane.Sized.{AllServe}
use simple_downloader.Lane.Agree.{Answered, choose-AllServe}
use simple_downloader.Lane.Sample.{connection, two_lanes, runtime, runtime-Reachable}
use simple_downloader.Lane.History.{claims, fails, apply, Reachable, after}
use simple_downloader.Lane.Bounds.{IsWithin}
use simple_downloader.Lane.Capacity.{Reachable-IsBounded}
use simple_downloader.Lane.Select.{Choice, best_lane-Choice}

abbrev claimed_once : MultiRuntime
claimed_once = apply (claims 0) runtime

abbrev failing : MultiRuntime
failing = apply (fails 30 2) (apply (fails 20 2) (apply (fails 10 2) claimed_once))

failing-Reachable : Reachable failing
failing-Reachable = after (fails 30 2) (apply (fails 20 2) (apply (fails 10 2) claimed_once)) (
    after (fails 20 2) (apply (fails 10 2) claimed_once)
      (after (fails 10 2) claimed_once (after (claims 0) runtime runtime-Reachable)))

fast_first : (best_lane 0 two_lanes).0 ≡ some 2
unfolding best_lane from_candidates
fast_first = refl

one_claimed : total_active_chunks claimed_once.scheduler ≡ 1
unfolding from_candidates apply claim_request_builder Map.get assign_chunk
one_claimed = refl

blacklisted_after_three : lane_health 40 2 failing.scheduler ≡ some blacklisted
unfolding from_candidates apply lane_health Map.get assign_chunk
blacklisted_after_three = refl

healthy_after_a_while : lane_health 40000 2 failing.scheduler ≡ some healthy
unfolding from_candidates apply lane_health Map.get assign_chunk
healthy_after_a_while = refl

slow_while_blacklisted : (best_lane 40 failing.scheduler).0 ≡ some 1
unfolding from_candidates apply best_lane Map.get assign_chunk
slow_while_blacklisted = refl

limited_source : limiter_for_lane 2 runtime ≡ some 5
unfolding limiter_for_lane from_candidates Map.get
limited_source = refl

limited : has_rate_limit runtime ≡ true
unfolding has_rate_limit
limited = refl

Reachable-IsBounded_example :
    (total_active_chunks failing.scheduler ≤ failing.scheduler.max_workers)
    × All (λ e. e.active_chunks ≤ failing.scheduler.max_chunks_per_lane) failing.scheduler.lanes
    × ((source : ℕ)
        → IsWithin failing.scheduler.lane_model failing.scheduler.max_chunks_per_source
            (source_active_chunks failing.scheduler source))
Reachable-IsBounded_example = Reachable-IsBounded failing failing-Reachable

best_lane-Choice_example :
    Choice (decay_expired_blacklists 40 failing.scheduler) (best_lane 40 failing.scheduler).0
best_lane-Choice_example = best_lane-Choice 40 failing failing-Reachable

-- A mirror without ranges, one with, and one of another size.
abbrev probed : ℕ → ℕ → Bool → Probe
probed source size ranges = record {
  runtime = connection source (10 * source);
  answer = some (size, ranges);
  measured = 3;
}

abbrev three_probes : List Probe
three_probes = probed 1 100 false ∷ probed 2 100 true ∷ probed 3 70 true ∷ []

abbrev choice : Chosen
choice = record {
  file_size = 100;
  supports_ranges = true;
  runtimes = (2, record (connection 2 20) { probe_speed = 3 } ∷ []) ∷ [];
  candidates = record { lane_id = 2; source_id = 2; proxy_id = none; probe_speed = 3 } ∷ [];
}

is_chosen : choose three_probes ≡ some choice
unfolding choose Map.get
is_chosen = refl

serves_the_size : (runtime_of per_source 3 2 none Map.empty none choice).1.supports_ranges ≡ true
serves_the_size = refl

choose-AllServe_example :
    AllServe (Answered three_probes) choice.file_size choice.supports_ranges choice.runtimes
choose-AllServe_example = choose-AllServe three_probes choice is_chosen

-- One source through two proxies, of which the second serves a file of another size.
abbrev through : ℕ → ℕ → Probe
through proxy size = record {
  runtime = record (connection 1 10) { proxy_id = some proxy; client = proxy };
  answer = some (size, true);
  measured = 3;
}

abbrev first_proxy : Chosen
first_proxy = record {
  file_size = 100;
  supports_ranges = true;
  runtimes =
      (1, record (connection 1 10) { proxy_id = some 1; client = 1; probe_speed = 3 } ∷ []) ∷ [];
  candidates = record { lane_id = 1; source_id = 1; proxy_id = some 1; probe_speed = 3 } ∷ [];
}

first_is_chosen : choose (through 1 100 ∷ through 2 200 ∷ []) ≡ some first_proxy
unfolding choose Map.get
first_is_chosen = refl
