-- ===== src/Lane.antt =====
-- src/lane.rs: the scheduler of lanes. The names of lanes, sources and proxies are only compared and
-- copied, so a number stands for each. A speed is the number that stands for the `f64` in the order
-- of `total_cmp`, which is that of 64-bit integers. Times are in milliseconds.
pub mod Runtime
pub mod Select
pub mod Change
pub mod Capacity
pub mod Health
pub mod Probe
pub mod Sized
pub mod Agree
pub mod Slots
pub mod Invariant
pub mod Order
pub mod Bounds
pub mod Start
pub mod History
pub mod Sample
mod Tests
use simple_downloader.Prelude.{
  ℕ, ◌+◌, ◌-◌, ◌*◌, ◌%◌, max, Bool, true, false, ◌&&◌, ◌||◌, not, List, [], ◌∷◌, ◌++◌, map, Option,
  none, some, ltb, leb, ◌==◌, if◌then◌else◌, keep, weigh, sort_by_key, u32_mod, u64_max,
}

abbrev pub LaneId : Type 0
LaneId = ℕ

abbrev pub blacklist_threshold : ℕ
blacklist_threshold = 3

abbrev pub blacklist_duration : ℕ
blacklist_duration = 30 * 1000

pub data LaneModel : Type 0 where
  per_source per_source_proxy : LaneModel

pub data LaneHealth : Type 0 where
  healthy blacklisted : LaneHealth

pub record LaneCandidate : Type 0 where
  pub lane_id : LaneId
  pub source_id : ℕ
  pub proxy_id : Option ℕ
  pub probe_speed : ℕ

pub record LaneEntry : Type 0 where
  pub candidate : LaneCandidate
  pub active_chunks : ℕ
  pub consecutive_failures : ℕ
  pub health : LaneHealth
  pub blacklisted_at : Option ℕ

pub record LaneScheduler : Type 0 where
  pub lane_model : LaneModel
  pub max_workers : ℕ
  pub max_chunks_per_lane : ℕ
  pub max_chunks_per_source : Option ℕ
  pub lanes : List LaneEntry

abbrev pub id_of : LaneEntry → LaneId
id_of e = e.candidate.lane_id

abbrev pub has_id : LaneId → List LaneCandidate → Bool
has_id id [] = false
has_id id (c ∷ candidates) = c.lane_id == id || has_id id candidates

-- The loop of `dedupe_candidates`: the first list is `deduped`.
unfoldable pub dedupe_from : List LaneCandidate → List LaneCandidate → List LaneCandidate
dedupe_from deduped [] = deduped
dedupe_from deduped (c ∷ candidates) =
    dedupe_from (if has_id c.lane_id deduped then deduped else deduped ++ c ∷ []) candidates

unfoldable pub dedupe_candidates : List LaneCandidate → List LaneCandidate
unfolding dedupe_from
dedupe_candidates candidates = dedupe_from [] candidates

abbrev pub by_source : LaneCandidate → LaneCandidate
by_source c = record c { lane_id = c.source_id; proxy_id = none }

unfoldable pub normalize_candidates : List LaneCandidate → LaneModel → List LaneCandidate
normalize_candidates candidates per_source = map by_source candidates
normalize_candidates candidates per_source_proxy = candidates

abbrev pub fresh_entry : LaneCandidate → LaneEntry
fresh_entry c = record {
  candidate = c;
  active_chunks = 0;
  consecutive_failures = 0;
  health = healthy;
  blacklisted_at = none;
}

-- The stable sort by falling speed.
abbrev pub slowness : LaneEntry → ℕ
slowness e = u64_max - e.candidate.probe_speed

unfoldable pub from_candidates : List LaneCandidate → LaneModel → ℕ → ℕ → Option ℕ → LaneScheduler
unfolding dedupe_candidates normalize_candidates sort_by_key
from_candidates candidates model workers per_lane per_source_limit = record {
  lane_model = model;
  max_workers = max workers 1;
  max_chunks_per_lane = max per_lane 1;
  max_chunks_per_source = per_source_limit;
  lanes =
      sort_by_key slowness
        (map fresh_entry (dedupe_candidates (normalize_candidates candidates model)));
}

abbrev pub active_of : LaneEntry → ℕ
active_of e = e.active_chunks

abbrev pub total_active_chunks : LaneScheduler → ℕ
total_active_chunks s = weigh active_of s.lanes

abbrev pub active_of_source : ℕ → LaneEntry → ℕ
active_of_source source e = if e.candidate.source_id == source then e.active_chunks else 0

abbrev pub source_active_chunks : LaneScheduler → ℕ → ℕ
source_active_chunks s source = weigh (active_of_source source) s.lanes

abbrev pub available_capacity : LaneScheduler → ℕ
available_capacity s = s.max_workers - total_active_chunks s

-- Only lanes by source are held to the limit for a source.
abbrev pub source_is_full : LaneScheduler → ℕ → LaneModel → Option ℕ → Bool
source_is_full s source per_source (some limit) = leb limit (source_active_chunks s source)
source_is_full s source per_source none = false
source_is_full s source per_source_proxy limit = false

unfoldable pub lane_has_capacity : LaneScheduler → LaneEntry → Bool
lane_has_capacity s e =
    if available_capacity s == 0
    then false
    else if leb s.max_chunks_per_lane e.active_chunks
    then false
    else not (source_is_full s e.candidate.source_id s.lane_model s.max_chunks_per_source)

abbrev pub is_healthy : LaneHealth → Bool
is_healthy healthy = true
is_healthy blacklisted = false

-- `iter().find`.
abbrev pub find : (LaneEntry → Bool) → List LaneEntry → Option LaneEntry
find p [] = none
find p (e ∷ lanes) = if p e then some e else find p lanes

abbrev pub is_eligible : LaneScheduler → Bool → LaneEntry → Bool
is_eligible s allow_blacklisted e =
    (allow_blacklisted || is_healthy e.health) && lane_has_capacity s e

unfoldable pub select_lane : LaneScheduler → Bool → Option LaneEntry
unfolding lane_has_capacity
select_lane s allow_blacklisted = find (is_eligible s allow_blacklisted) s.lanes

-- Has the time on the blacklist passed at `now`?
abbrev pub is_expired : ℕ → Option ℕ → Bool
is_expired now none = false
is_expired now (some at) = leb blacklist_duration (now - at)

abbrev pub decay_entry : ℕ → LaneEntry → LaneEntry
decay_entry now e =
    if not (is_healthy e.health) && is_expired now e.blacklisted_at
    then record e { health = healthy; consecutive_failures = 0; blacklisted_at = none }
    else e

-- One reading of the clock for all lanes.
unfoldable pub decay_expired_blacklists : ℕ → LaneScheduler → LaneScheduler
decay_expired_blacklists now s = record s { lanes = map (decay_entry now) s.lanes }

abbrev pub or_blacklisted : Option LaneEntry → Option LaneEntry → Option LaneId
or_blacklisted (some e) fallback = some (id_of e)
or_blacklisted none none = none
or_blacklisted none (some e) = some (id_of e)

unfoldable pub best_lane : ℕ → LaneScheduler → Option LaneId × LaneScheduler
unfolding decay_expired_blacklists select_lane
best_lane now s =
    let decayed = decay_expired_blacklists now s in
    (or_blacklisted (select_lane decayed false) (select_lane decayed true), decayed)

-- `iter_mut().find` and a change of the entry that it finds.
unfoldable pub change_lane : LaneId → (LaneEntry → LaneEntry) → List LaneEntry → List LaneEntry
change_lane id f [] = []
change_lane id f (e ∷ lanes) = if id_of e == id then f e ∷ lanes else e ∷ change_lane id f lanes

abbrev pub on_lane : LaneId → (LaneEntry → LaneEntry) → LaneScheduler → LaneScheduler
on_lane id f s = record s { lanes = change_lane id f s.lanes }

abbrev pub one_more : LaneEntry → LaneEntry
one_more e = record e { active_chunks = e.active_chunks + 1 }

abbrev pub one_less : LaneEntry → LaneEntry
one_less e = record e { active_chunks = e.active_chunks - 1 }

abbrev pub failed_once : ℕ → LaneEntry → LaneEntry
failed_once now e =
    let counted = record e { consecutive_failures = (e.consecutive_failures + 1) % u32_mod } in
    if leb blacklist_threshold counted.consecutive_failures
    then record counted { health = blacklisted; blacklisted_at = some now }
    else counted

abbrev pub succeeded : LaneEntry → LaneEntry
succeeded e = record e { consecutive_failures = 0; health = healthy; blacklisted_at = none }

unfoldable pub assign_chunk : LaneId → LaneScheduler → LaneScheduler
unfolding change_lane
assign_chunk id s = on_lane id one_more s

unfoldable pub release_chunk : LaneId → LaneScheduler → LaneScheduler
unfolding change_lane
release_chunk id s = on_lane id one_less s

unfoldable pub record_failure : ℕ → LaneId → LaneScheduler → LaneScheduler
unfolding change_lane
record_failure now id s = on_lane id (failed_once now) s

unfoldable pub record_success : LaneId → LaneScheduler → LaneScheduler
unfolding change_lane
record_success id s = on_lane id succeeded s

unfoldable pub lane_health : ℕ → LaneId → LaneScheduler → Option LaneHealth
lane_health now id s = elim (find (λ e. id_of e == id) s.lanes) [
  | none ↦ none
  | some e ↦ some ((decay_entry now e).health)
]
