-- ===== src/Lane/Sample.antt =====
-- Two lanes of two sources, and a download of at most three chunks: the data of the tests.
use simple_downloader.Prelude.{ℕ, ◌+◌, refl, true, [], ◌∷◌, none, some}
use simple_downloader.Lane.{LaneCandidate, per_source, LaneScheduler, from_candidates}
use simple_downloader.Lane.Runtime.{LaneRuntime, MultiRuntime}
use simple_downloader.Lane.History.{Reachable, start}

abbrev candidate : ℕ → ℕ → LaneCandidate
candidate source speed = record {
  lane_id = 100 + source;
  source_id = source;
  proxy_id = some 7;
  probe_speed = speed;
}

abbrev pub connection : ℕ → ℕ → LaneRuntime
connection source url = record {
  lane_id = source;
  source_id = source;
  proxy_id = none;
  url = url;
  client = url;
  probe_speed = 5;
}

abbrev pub two_lanes : LaneScheduler
two_lanes =
    from_candidates (candidate 1 5 ∷ candidate 2 9 ∷ candidate 1 7 ∷ []) per_source 3 2 (some 2)

abbrev pub runtime : MultiRuntime
runtime = record {
  scheduler = two_lanes;
  runtimes = (1, connection 1 10 ∷ connection 1 11 ∷ []) ∷ (2, connection 2 20 ∷ []) ∷ [];
  next_runtime_index = [];
  supports_ranges = true;
  per_source_limiters = (2, 5) ∷ [];
  global_limiter = none;
}

pub runtime-Reachable : Reachable runtime
runtime-Reachable =
    start runtime (candidate 1 5 ∷ candidate 2 9 ∷ candidate 1 7 ∷ []) per_source 3 2 (some 2) refl
