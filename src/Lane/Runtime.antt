-- ===== src/Lane/Runtime.antt =====
-- `MultiRuntime` of src/lane.rs: the scheduler with the connections of each lane. A number stands for
-- an HTTP client and for a limiter.
use simple_downloader.Prelude.{
  ℕ, ◌+◌, ◌%◌, Bool, true, false, List, [], ◌∷◌, Option, none, some, ◌==◌, length, get_elem?,
}
use simple_downloader.Prelude.Map
use simple_downloader.Prelude.Map.{Map}
use simple_downloader.Lane.{LaneId, LaneEntry, LaneScheduler, id_of, find, best_lane, assign_chunk}

pub record LaneRuntime : Type 0 where
  pub lane_id : LaneId
  pub source_id : ℕ
  pub proxy_id : Option ℕ
  pub url : ℕ
  pub client : ℕ
  pub probe_speed : ℕ

pub record MultiRuntime : Type 0 where
  pub scheduler : LaneScheduler
  pub runtimes : Map (List LaneRuntime)
  pub next_runtime_index : Map ℕ
  pub supports_ranges : Bool
  pub per_source_limiters : Map ℕ
  pub global_limiter : Option ℕ

-- The limiter of the lane's source.
abbrev limiter_of : Option LaneEntry → MultiRuntime → Option ℕ
limiter_of none m = none
limiter_of (some e) m = Map.get e.candidate.source_id m.per_source_limiters

unfoldable pub limiter_for_lane : LaneId → MultiRuntime → Option ℕ
limiter_for_lane id m = limiter_of (find (λ e. id_of e == id) m.scheduler.lanes) m

unfoldable pub has_rate_limit : MultiRuntime → Bool
has_rate_limit m = elim m.per_source_limiters [
  | [] ↦ (elim m.global_limiter [ none ↦ false | some limiter ↦ true ])
  | limiter ∷ others ↦ true
]

abbrev pub or_zero : Option ℕ → ℕ
or_zero none = 0
or_zero (some n) = n

abbrev pub advance : LaneId → ℕ → MultiRuntime → MultiRuntime
advance id index m = record m { next_runtime_index = Map.insert id index m.next_runtime_index }

-- The index moves on where there is a connection at it.
abbrev pub turn_to :
    LaneId → ℕ → Option LaneRuntime → MultiRuntime → Option LaneRuntime × MultiRuntime
turn_to id index none m = (none, advance id index m)
turn_to id index (some runtime) m = (some runtime, advance id (index + 1) m)

-- Takes the connections of a lane in turn. An empty list, at which the source divides by zero, gives
-- none here; no lane is entered with one.
abbrev pub next_of :
    LaneId → Option (List LaneRuntime) → MultiRuntime → Option LaneRuntime × MultiRuntime
next_of id none m = (none, m)
next_of id (some runtimes) m =
    let index = or_zero (Map.get id m.next_runtime_index) in
    turn_to id index (get_elem? runtimes (index % length runtimes)) m

unfoldable pub next_runtime : LaneId → MultiRuntime → Option LaneRuntime × MultiRuntime
next_runtime id m = next_of id (Map.get id m.runtimes) m

abbrev pub claimed :
    LaneId → Option LaneRuntime × MultiRuntime → Option (LaneId × LaneRuntime) × MultiRuntime
claimed id (none, m) = (none, m)
claimed id (some runtime, m) = (some (id, runtime), m)

-- The lane is assigned before its connection is looked up.
unfoldable pub claim_lane :
    Option LaneId → MultiRuntime → Option (LaneId × LaneRuntime) × MultiRuntime
unfolding next_runtime
claim_lane none m = (none, m)
claim_lane (some id) m =
    claimed id (next_runtime id (record m { scheduler = assign_chunk id m.scheduler }))

unfoldable pub claim_request_builder :
    ℕ → MultiRuntime → Option (LaneId × LaneRuntime) × MultiRuntime
unfolding claim_lane
claim_request_builder now m =
    let (best, s) = best_lane now m.scheduler in claim_lane best (record m { scheduler = s })

abbrev first_of : Option (List LaneRuntime) → Option LaneRuntime
first_of none = none
first_of (some []) = none
first_of (some (runtime ∷ others)) = some runtime

unfoldable pub lane_runtime : LaneId → MultiRuntime → Option LaneRuntime
lane_runtime id m = first_of (Map.get id m.runtimes)

unfoldable pub primary_lane : ℕ → MultiRuntime → Option LaneRuntime × MultiRuntime
unfolding lane_runtime
primary_lane now m =
    let (best, s) = best_lane now m.scheduler in
    (elim best [ none ↦ none | some id ↦ lane_runtime id m ], record m { scheduler = s })

abbrev pub on_scheduler : (LaneScheduler → LaneScheduler) → MultiRuntime → MultiRuntime
on_scheduler f m = record m { scheduler = f m.scheduler }

-- As `primary_lane`, with the whole of the connection.
unfoldable pub best_lane_runtime : ℕ → MultiRuntime → Option LaneRuntime × MultiRuntime
unfolding primary_lane
best_lane_runtime now m = primary_lane now m
