-- ===== src/Lane/Probe.antt =====
-- `MultiRuntime::from_config` of src/lane.rs: which of the sources that were probed serve a download.
-- What the probe of a connection answered, and the speed that was measured, are arguments, in the
-- order in which the answers came; so are the limiters.
use simple_downloader.Prelude.{
  ℕ, Bool, true, false, List, [], ◌∷◌, ◌++◌, Option, none, some, ◌==◌, if◌then◌else◌,
}
use simple_downloader.Prelude.Map
use simple_downloader.Prelude.Map.{Map}
use simple_downloader.Lane.{LaneModel, LaneCandidate, from_candidates}
use simple_downloader.Lane.Runtime.{LaneRuntime, MultiRuntime}

-- The size and whether ranges are served, or an error.
pub record Probe : Type 0 where
  pub runtime : LaneRuntime
  pub answer : Option (ℕ × Bool)
  pub measured : ℕ

-- The lanes with ranges, and those without.
pub record Pools : Type 0 where
  pub range_file_size : Option ℕ
  pub fallback_file_size : Option ℕ
  pub range_runtimes : Map (List LaneRuntime)
  pub fallback_runtimes : Map (List LaneRuntime)
  pub range_candidates : List LaneCandidate
  pub fallback_candidates : List LaneCandidate

abbrev pub candidate_of : LaneRuntime → LaneCandidate
candidate_of r = record {
  lane_id = r.lane_id;
  source_id = r.source_id;
  proxy_id = r.proxy_id;
  probe_speed = r.probe_speed;
}

abbrev pub or_empty : Option (List LaneRuntime) → List LaneRuntime
or_empty none = []
or_empty (some runtimes) = runtimes

-- `entry(lane_id).or_default().push(runtime)`.
unfoldable pub push_runtime : LaneRuntime → Map (List LaneRuntime) → Map (List LaneRuntime)
unfolding Map.insert
push_runtime r runtimes =
    Map.insert r.lane_id (or_empty (Map.get r.lane_id runtimes) ++ r ∷ []) runtimes

abbrev pub enter_range : LaneRuntime → Pools → Pools
enter_range r pools = record pools {
  range_runtimes = push_runtime r pools.range_runtimes;
  range_candidates = pools.range_candidates ++ candidate_of r ∷ [];
}

abbrev pub enter_fallback : LaneRuntime → Pools → Pools
enter_fallback r pools = record pools {
  fallback_runtimes = push_runtime r pools.fallback_runtimes;
  fallback_candidates = pools.fallback_candidates ++ candidate_of r ∷ [];
}

-- Fallback lanes of another size than the first lane with ranges are dropped.
abbrev pub drop_fallback : ℕ → Option ℕ → Pools → Pools
drop_fallback size none pools = pools
drop_fallback size (some fallback) pools = if fallback == size then pools else record pools {
  fallback_candidates = [];
  fallback_runtimes = Map.empty;
  fallback_file_size = none;
}

-- A lane of another size than the first is skipped.
abbrev pub with_ranges : ℕ → LaneRuntime → Option ℕ → Pools → Pools
with_ranges size r (some expected) pools = if expected == size then enter_range r pools else pools
with_ranges size r none pools =
    enter_range r
      (drop_fallback size pools.fallback_file_size (record pools { range_file_size = some size }))

abbrev pub first_fallback : ℕ → LaneRuntime → Option ℕ → Pools → Pools
first_fallback size r (some expected) pools =
    if expected == size then enter_fallback r pools else pools
first_fallback size r none pools =
    enter_fallback r (record pools { fallback_file_size = some size })

-- Without ranges a lane counts only while there is none with ranges.
abbrev pub without_ranges : ℕ → LaneRuntime → Option ℕ → Pools → Pools
without_ranges size r (some ranged) pools = pools
without_ranges size r none pools = first_fallback size r pools.fallback_file_size pools

abbrev pub measured_runtime : Probe → LaneRuntime
measured_runtime p = record p.runtime { probe_speed = p.measured }

abbrev pub sort_probe : Option (ℕ × Bool) → LaneRuntime → Pools → Pools
sort_probe none r pools = pools
sort_probe (some (size, true)) r pools = with_ranges size r pools.range_file_size pools
sort_probe (some (size, false)) r pools = without_ranges size r pools.range_file_size pools

unfoldable pub sort_probes : List Probe → Pools → Pools
unfolding push_runtime
sort_probes [] pools = pools
sort_probes (p ∷ probes) pools = sort_probes probes (sort_probe p.answer (measured_runtime p) pools)

abbrev pub no_pools : Pools
no_pools = record {
  range_file_size = none;
  fallback_file_size = none;
  range_runtimes = Map.empty;
  fallback_runtimes = Map.empty;
  range_candidates = [];
  fallback_candidates = [];
}

pub record Chosen : Type 0 where
  pub file_size : ℕ
  pub supports_ranges : Bool
  pub runtimes : Map (List LaneRuntime)
  pub candidates : List LaneCandidate

abbrev pub chosen : Option ℕ → Bool → Map (List LaneRuntime) → List LaneCandidate → Option Chosen
chosen none ranges runtimes candidates = none
chosen (some size) ranges runtimes candidates = some (record {
  file_size = size;
  supports_ranges = ranges;
  runtimes = runtimes;
  candidates = candidates;
})

abbrev pub choose_fallback : List LaneCandidate → Pools → Option Chosen
choose_fallback [] pools = none
choose_fallback (c ∷ candidates) pools =
    chosen pools.fallback_file_size false pools.fallback_runtimes (c ∷ candidates)

abbrev pub choose_ranges : List LaneCandidate → Pools → Option Chosen
choose_ranges [] pools = choose_fallback pools.fallback_candidates pools
choose_ranges (c ∷ candidates) pools =
    chosen pools.range_file_size true pools.range_runtimes (c ∷ candidates)

-- None stands for `NoAvailableSources`.
unfoldable pub choose : List Probe → Option Chosen
unfolding sort_probes
choose probes =
    let pools = sort_probes probes no_pools in choose_ranges pools.range_candidates pools

abbrev pub runtime_of : LaneModel → ℕ → ℕ → Option ℕ → Map ℕ → Option ℕ → Chosen → ℕ × MultiRuntime
runtime_of model workers per_lane per_source limiters global c = (
  c.file_size,
  record {
    scheduler = from_candidates c.candidates model workers per_lane per_source;
    runtimes = c.runtimes;
    next_runtime_index = Map.empty;
    supports_ranges = c.supports_ranges;
    per_source_limiters = limiters;
    global_limiter = global;
  },
)
