-- ===== src/Lane/Order.antt =====
-- The lanes of src/lane.rs stay in the order of speed.
use simple_downloader.Prelude.{
  ℕ, ◌%◌, ◌+◌, ◌≡◌, refl, inl, inr, ◌&&◌, not, List, [], ◌∷◌, map, Option, leb, ◌==◌, Bool-cases,
  Ascends, sort_by_key-Ascends, u32_mod,
}
use simple_downloader.Lane.{
  LaneId, LaneCandidate, LaneModel, LaneEntry, LaneScheduler, id_of, slowness, from_candidates,
  is_healthy, decay_entry, decay_expired_blacklists, change_lane, assign_chunk, release_chunk,
  record_failure, record_success, one_more, one_less, failed_once, succeeded, is_expired,
  blacklist_threshold, fresh_entry, dedupe_candidates, normalize_candidates,
}
use simple_downloader.Lane.Runtime.{MultiRuntime}
use simple_downloader.Lane.History.{Reachable}
use simple_downloader.Lane.Invariant.{IsKept, Reachable-IsKept}

abbrev pub IsOrdered : LaneScheduler → Type 0
IsOrdered s = Ascends slowness 0 s.lanes

module _ (f : LaneEntry → LaneEntry) (h : (e : LaneEntry) → slowness (f e) ≡ slowness e) where
  Ascends-change_lane :
      (id : LaneId) (b : ℕ) (lanes : List LaneEntry)
      → Ascends slowness b lanes
      → Ascends slowness b (change_lane id f lanes)
  unfolding change_lane
  Ascends-change_lane id b [] a = tt
  Ascends-change_lane id b (x ∷ lanes) a = elim (Bool-cases (id_of x == id)) [
    | inl t ↦ rw (t, h x) a
    | inr t ↦ rw t (a.0, Ascends-change_lane id (slowness x) lanes a.1)
  ]

  Ascends-map :
      (b : ℕ) (lanes : List LaneEntry) → Ascends slowness b lanes → Ascends slowness b (map f lanes)
  Ascends-map b [] a = tt
  Ascends-map b (x ∷ lanes) a = rw (h x) (a.0, Ascends-map (slowness x) lanes a.1)

decay_entry-slowness : (now : ℕ) (e : LaneEntry) → slowness (decay_entry now e) ≡ slowness e
decay_entry-slowness now e =
    elim (Bool-cases (not (is_healthy e.health) && is_expired now e.blacklisted_at)) [
      | inl t ↦ rw t refl
      | inr t ↦ rw t refl
    ]

failed_once-slowness : (now : ℕ) (e : LaneEntry) → slowness (failed_once now e) ≡ slowness e
failed_once-slowness now e =
    elim (Bool-cases (leb blacklist_threshold ((e.consecutive_failures + 1) % u32_mod))) [
      | inl t ↦ rw t refl
      | inr t ↦ rw t refl
    ]

pub decay-IsOrdered :
    (now : ℕ) (s : LaneScheduler) → IsOrdered s → IsOrdered (decay_expired_blacklists now s)
unfolding decay_expired_blacklists
decay-IsOrdered now s o = Ascends-map (decay_entry now) (decay_entry-slowness now) 0 s.lanes o

start-IsOrdered :
    (candidates : List LaneCandidate) (model : LaneModel) (workers per_lane : ℕ)
    → (limit : Option ℕ) → IsOrdered (from_candidates candidates model workers per_lane limit)
unfolding from_candidates
start-IsOrdered candidates model workers per_lane limit =
    sort_by_key-Ascends slowness
      (map fresh_entry (dedupe_candidates (normalize_candidates candidates model)))

IsOrdered-IsKept : IsKept IsOrdered
unfolding assign_chunk release_chunk record_success record_failure
IsOrdered-IsKept = record {
  from_start = start-IsOrdered;
  by_decay = decay-IsOrdered;
  by_claim = λ now s id found a.
      Ascends-change_lane one_more (λ e. refl) id 0 (decay_expired_blacklists now s).lanes a;
  by_release = λ id s a. Ascends-change_lane one_less (λ e. refl) id 0 s.lanes a;
  by_success = λ id s a. Ascends-change_lane succeeded (λ e. refl) id 0 s.lanes a;
  by_failure =
      λ now id s a. Ascends-change_lane (failed_once now) (failed_once-slowness now) id 0 s.lanes a;
}

pub Reachable-IsOrdered : (m : MultiRuntime) → Reachable m → IsOrdered m.scheduler
Reachable-IsOrdered = Reachable-IsKept IsOrdered IsOrdered-IsKept
