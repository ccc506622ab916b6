-- ===== src/Lane/Slots.antt =====
-- The chunks in one lane of src/lane.rs, over the calls that take and give back a place in it.
use simple_downloader.Prelude.{
  ℕ, ◌+◌, ◌%◌, ◌≤◌, ◌≡◌, refl, inl, inr, Bool, true, false, ◌&&◌, not, List, [], ◌∷◌, map, Option,
  none, some, leb, ◌==◌, if◌then◌else◌, weigh, Bool-cases, arith, some-injective, subst, u32_mod,
}
use simple_downloader.Lane.{
  LaneId, LaneEntry, LaneScheduler, id_of, find, is_eligible, select_lane, or_blacklisted,
  best_lane, decay_entry, decay_expired_blacklists, change_lane, one_more, one_less, failed_once,
  succeeded, assign_chunk, release_chunk, record_failure, record_success, is_healthy, is_expired,
  blacklist_threshold,
}
use simple_downloader.Lane.Change.{Distinct, weigh-change_lane}

-- The chunks of the lane, and whether it is this lane.
abbrev pub active_in : LaneId → LaneEntry → ℕ
active_in k e = if id_of e == k then e.active_chunks else 0

abbrev pub is_at : LaneId → LaneId → ℕ
is_at k id = if id == k then 1 else 0

abbrev pub active_at : LaneId → LaneScheduler → ℕ
active_at k s = weigh (active_in k) s.lanes

module _ (f : LaneEntry → LaneEntry)
    (h : (k : LaneId) (e : LaneEntry) → active_in k (f e) ≡ active_in k e) where
  change_lane-active_in :
      (k id : LaneId) (lanes : List LaneEntry)
      → weigh (active_in k) (change_lane id f lanes) ≡ weigh (active_in k) lanes
  unfolding change_lane
  change_lane-active_in k id [] = refl
  change_lane-active_in k id (x ∷ lanes) = elim (Bool-cases (id_of x == id)) [
    | inl t ↦ rw t (omega (arith, h k x))
    | inr t ↦ rw t (omega (arith, change_lane-active_in k id lanes))
  ]

  map-active_in :
      (k : LaneId) (lanes : List LaneEntry)
      → weigh (active_in k) (map f lanes) ≡ weigh (active_in k) lanes
  map-active_in k [] = refl
  map-active_in k (x ∷ lanes) = omega (arith, h k x, map-active_in k lanes)

decay_entry-active_in :
    (now : ℕ) (k : LaneId) (e : LaneEntry) → active_in k (decay_entry now e) ≡ active_in k e
decay_entry-active_in now k e =
    elim (Bool-cases (not (is_healthy e.health) && is_expired now e.blacklisted_at)) [
      | inl t ↦ rw t refl
      | inr t ↦ rw t refl
    ]

failed_once-active_in :
    (now : ℕ) (k : LaneId) (e : LaneEntry) → active_in k (failed_once now e) ≡ active_in k e
failed_once-active_in now k e =
    elim (Bool-cases (leb blacklist_threshold ((e.consecutive_failures + 1) % u32_mod))) [
      | inl t ↦ rw t refl
      | inr t ↦ rw t refl
    ]

pub decay-active_at :
    (now : ℕ) (k : LaneId) (s : LaneScheduler)
    → active_at k (decay_expired_blacklists now s) ≡ active_at k s
unfolding decay_expired_blacklists
decay-active_at now k s = map-active_in (decay_entry now) (decay_entry-active_in now) k s.lanes

pub record_failure-active_at :
    (now : ℕ) (id k : LaneId) (s : LaneScheduler)
    → active_at k (record_failure now id s) ≡ active_at k s
unfolding record_failure
record_failure-active_at now id k s =
    change_lane-active_in (failed_once now) (failed_once-active_in now) k id s.lanes

pub record_success-active_at :
    (id k : LaneId) (s : LaneScheduler) → active_at k (record_success id s) ≡ active_at k s
unfolding record_success
record_success-active_at id k s = change_lane-active_in succeeded (λ j e. refl) k id s.lanes

-- A release gives back at most one place, and only in its lane.
pub release_chunk-active_at :
    (id k : LaneId) (s : LaneScheduler)
    → active_at k s ≤ active_at k (release_chunk id s) + is_at k id
unfolding release_chunk change_lane
release_chunk-active_at id k s = one_less_lem id k s.lanes
  where
    one_less_lem :
        (id k : LaneId) (lanes : List LaneEntry)
        → weigh (active_in k) lanes
          ≤ weigh (active_in k) (change_lane id one_less lanes) + is_at k id
    one_less_lem id k [] = omega arith
    one_less_lem id k (x ∷ lanes) = elim (Bool-cases (id_of x == id)) [
      | inl t ↦ let same : id_of x ≡ id = ground arith in rw t (rw same (ground arith))
      | inr t ↦ rw t (omega (arith, one_less_lem id k lanes))
    ]

-- A lane that was selected has one chunk more; the others have as many as before.
assign_chunk-active_at :
    (p : LaneEntry → Bool) (e : LaneEntry) (k : LaneId) (s : LaneScheduler)
    → Distinct s.lanes
    → find p s.lanes ≡ some e
    → active_at k s + is_at k (id_of e) ≡ active_at k (assign_chunk (id_of e) s)
unfolding assign_chunk
assign_chunk-active_at p e k s d h =
    let changed = weigh-change_lane (active_in k) p one_more s.lanes e h (d (id_of e)) in
    elim (Bool-cases (id_of e == k)) [
      | inl t ↦ rw t (omega (arith, rw t at changed))
      | inr t ↦ rw t (omega (arith, rw t at changed))
    ]

assign_best-active_at :
    (s : LaneScheduler) (o o' : Option LaneEntry)
    → Distinct s.lanes
    → find (is_eligible s false) s.lanes ≡ o
    → find (is_eligible s true) s.lanes ≡ o'
    → (id : LaneId) → or_blacklisted o o' ≡ some id
    → (k : LaneId) → active_at k s + is_at k id ≡ active_at k (assign_chunk id s)
assign_best-active_at s none none d h h' id found k = absurd (cc)
assign_best-active_at s none (some e) d h h' id found k =
    subst (λ i. active_at k s + is_at k i ≡ active_at k (assign_chunk i s))
      (some-injective (id_of e) id found) (assign_chunk-active_at (is_eligible s true) e k s d h')
assign_best-active_at s (some e) o' d h h' id found k =
    subst (λ i. active_at k s + is_at k i ≡ active_at k (assign_chunk i s))
      (some-injective (id_of e) id found) (assign_chunk-active_at (is_eligible s false) e k s d h)

-- The lane that `best_lane` gives takes one chunk more.
pub best_lane-active_at :
    (now : ℕ) (s : LaneScheduler) (id : LaneId)
    → Distinct (decay_expired_blacklists now s).lanes
    → (best_lane now s).0 ≡ some id
    → (k : LaneId)
    → active_at k s + is_at k id ≡ active_at k (assign_chunk id (decay_expired_blacklists now s))
unfolding best_lane select_lane
best_lane-active_at now s id d found k =
    let t = decay_expired_blacklists now s in
    omega (
      arith,
      decay-active_at now k s,
      assign_best-active_at t (select_lane t false) (select_lane t true) d refl refl id found k,
    )
