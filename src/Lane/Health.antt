-- ===== src/Lane/Health.antt =====
-- The blacklist of src/lane.rs.
use simple_downloader.Prelude.{
  ℕ, ◌%◌, ◌+◌, ◌<◌, ◌≡◌, ◌⊎◌, refl, inl, inr, ◌&&◌, not, List, Option, none, some, leb, All,
  Bool-cases, arith, u32_mod,
}
use simple_downloader.Lane.{
  LaneCandidate, LaneModel, healthy, blacklisted, LaneEntry, LaneScheduler, is_healthy, decay_entry,
  decay_expired_blacklists, assign_chunk, release_chunk, record_failure, record_success, one_more,
  one_less, failed_once, succeeded, is_expired, blacklist_threshold, from_candidates,
}
use simple_downloader.Lane.Change.{All-change_lane, All-map}
use simple_downloader.Lane.Start.{from_candidates-All}
use simple_downloader.Lane.Runtime.{MultiRuntime}
use simple_downloader.Lane.History.{Reachable}
use simple_downloader.Lane.Invariant.{IsKept, Reachable-IsKept}

-- Healthy, with fewer failures than the threshold and no time; or blacklisted at a time.
abbrev pub IsSettled : LaneEntry → Type 0
IsSettled e =
    ((e.health ≡ healthy)
      × (e.blacklisted_at ≡ none)
      × (e.consecutive_failures < blacklist_threshold))
    ⊎ ((e.health ≡ blacklisted) × ((at : ℕ) × (e.blacklisted_at ≡ some at)))

decay_entry-IsSettled : (now : ℕ) (e : LaneEntry) → IsSettled e → IsSettled (decay_entry now e)
decay_entry-IsSettled now e h =
    elim (Bool-cases (not (is_healthy e.health) && is_expired now e.blacklisted_at)) [
      | inl t ↦ rw t (inl (refl, refl, omega arith))
      | inr t ↦ rw t h
    ]

failed_once-IsSettled : (now : ℕ) (e : LaneEntry) → IsSettled e → IsSettled (failed_once now e)
failed_once-IsSettled now e h =
    let n = (e.consecutive_failures + 1) % u32_mod in
    elim (Bool-cases (leb blacklist_threshold n)) [
      | inl t ↦ rw t (inr (refl, (now, refl)))
      | inr t ↦ rw t (elim h [ inl (a, b, c) ↦ inl (a, b, ground arith) | inr (a, b) ↦ inr (a, b) ])
    ]

abbrev IsSound : LaneScheduler → Type 0
IsSound s = All IsSettled s.lanes

decay-IsSound : (now : ℕ) (s : LaneScheduler) → IsSound s → IsSound (decay_expired_blacklists now s)
unfolding decay_expired_blacklists
decay-IsSound now s g = All-map IsSettled (decay_entry now) (decay_entry-IsSettled now) s.lanes g

start-IsSound :
    (candidates : List LaneCandidate) (model : LaneModel) (workers per_lane : ℕ)
    → (limit : Option ℕ) → IsSound (from_candidates candidates model workers per_lane limit)
start-IsSound candidates model workers per_lane limit =
    from_candidates-All candidates model workers per_lane limit IsSettled
      (λ c. inl (refl, refl, omega arith))

IsSound-IsKept : IsKept IsSound
unfolding assign_chunk release_chunk record_success record_failure
IsSound-IsKept = record {
  from_start = start-IsSound;
  by_decay = decay-IsSound;
  by_claim = λ now s id found g.
      All-change_lane IsSettled one_more (λ e h. h) id (decay_expired_blacklists now s).lanes g;
  by_release = λ id s g. All-change_lane IsSettled one_less (λ e h. h) id s.lanes g;
  by_success = λ id s g.
      All-change_lane IsSettled succeeded (λ e h. inl (refl, refl, omega arith)) id s.lanes g;
  by_failure = λ now id s g.
      All-change_lane IsSettled (failed_once now) (failed_once-IsSettled now) id s.lanes g;
}

-- In any history of a `MultiRuntime` a lane that is healthy has fewer than three failures in a row
-- and no time of a blacklisting, and a lane that is blacklisted has one, so that it can expire.
pub Reachable-IsSettled : (m : MultiRuntime) → Reachable m → All IsSettled m.scheduler.lanes
Reachable-IsSettled = Reachable-IsKept IsSound IsSound-IsKept
