-- ===== src/Lane/Select.antt =====
-- The choice of a lane in src/lane.rs.
use simple_downloader.Prelude.{
  ℕ, ◌≤◌, ◌≡◌, ◌⊎◌, refl, sym, ap, subst, some-injective, none-ne-some, inl, inr, Bool, true, false,
  List, [], ◌∷◌, ◌++◌, Option, none, some, All, Bool-cases, arith, Ascends,
}
use simple_downloader.Lane.{
  LaneId, LaneEntry, LaneScheduler, id_of, slowness, lane_has_capacity, find, is_eligible,
  select_lane, decay_expired_blacklists, or_blacklisted, best_lane,
}
use simple_downloader.Lane.Runtime.{MultiRuntime}
use simple_downloader.Lane.History.{Reachable}
use simple_downloader.Lane.Order.{decay-IsOrdered, Reachable-IsOrdered}

-- The lane is in the list.
abbrev pub IsIn : LaneEntry → List LaneEntry → Type 0
IsIn e lanes = (before after : List LaneEntry) × (lanes ≡ before ++ e ∷ after)

-- No lane of the list that passes the test is faster.
abbrev pub IsFastest : (LaneEntry → Bool) → LaneEntry → List LaneEntry → Type 0
IsFastest p e lanes =
    (p e ≡ true) × IsIn e lanes × All (λ x. (p x ≡ false) ⊎ (slowness e ≤ slowness x)) lanes

Ascends-All :
    (p : LaneEntry → Bool) (e : LaneEntry) (b : ℕ) (lanes : List LaneEntry)
    → slowness e ≤ b
    → Ascends slowness b lanes
    → All (λ x. (p x ≡ false) ⊎ (slowness e ≤ slowness x)) lanes
Ascends-All p e b [] h a = tt
Ascends-All p e b (x ∷ lanes) h a =
    (inr (omega (arith, a.0)), Ascends-All p e (slowness x) lanes (omega (arith, a.0)) a.1)

find-IsFastest :
    (p : LaneEntry → Bool) (b : ℕ) (lanes : List LaneEntry) (e : LaneEntry)
    → Ascends slowness b lanes
    → find p lanes ≡ some e
    → IsFastest p e lanes
find-IsFastest p b [] e a h = absurd (cc)
find-IsFastest p b (x ∷ lanes) e a h = elim (Bool-cases (p x)) [
  | inl t ↦
      let same : x ≡ e = some-injective x e (rw t at h) in
      subst (λ y. IsFastest p y (x ∷ lanes)) same
        (
          t,
          ([], lanes, refl),
          (inr (omega arith), Ascends-All p x (slowness x) lanes (omega arith) a.1),
        )
  | inr t ↦
      let (passes, (before, after, split), others) =
        find-IsFastest p (slowness x) lanes e a.1 (rw t at h) in
      (passes, (x ∷ before, after, ap (◌∷◌ x) split), (inl t, others))
]

find-none :
    (p : LaneEntry → Bool) (lanes : List LaneEntry)
    → find p lanes ≡ none
    → All (λ x. p x ≡ false) lanes
find-none p [] h = tt
find-none p (x ∷ lanes) h = elim (Bool-cases (p x)) [
  | inl t ↦ absurd (none-ne-some x (sym (rw t at h)))
  | inr t ↦ (t, find-none p lanes (rw t at h))
]

-- The fastest healthy lane with capacity; the fastest with capacity, if no healthy one has any; or
-- none, if no lane has any.
abbrev pub Choice : LaneScheduler → Option LaneId → Type 0
Choice s o =
    ((e : LaneEntry) × (o ≡ some (id_of e)) × IsFastest (is_eligible s false) e s.lanes)
    ⊎ ((e : LaneEntry) × (o ≡ some (id_of e))
        × All (λ x. is_eligible s false x ≡ false) s.lanes
        × IsFastest (lane_has_capacity s) e s.lanes)
    ⊎ ((o ≡ none) × All (λ x. lane_has_capacity s x ≡ false) s.lanes)

or_blacklisted-Choice :
    (s : LaneScheduler) (o o' : Option LaneEntry)
    → Ascends slowness 0 s.lanes
    → find (is_eligible s false) s.lanes ≡ o
    → find (is_eligible s true) s.lanes ≡ o'
    → Choice s (or_blacklisted o o')
or_blacklisted-Choice s (some e) o' a h k =
    inl (e, refl, find-IsFastest (is_eligible s false) 0 s.lanes e a h)
or_blacklisted-Choice s none (some e) a h k = inr (
    inl (
      e,
      refl,
      find-none (is_eligible s false) s.lanes h,
      find-IsFastest (lane_has_capacity s) 0 s.lanes e a k,
    ))
or_blacklisted-Choice s none none a h k =
    inr (inr (refl, find-none (lane_has_capacity s) s.lanes k))

-- In any history of a `MultiRuntime` `best_lane` chooses a fastest one of the healthy lanes with
-- capacity; a fastest one of the lanes with capacity, if no healthy lane has any; and none, if no
-- lane has any. Lanes whose time on the blacklist is over count as healthy.
pub best_lane-Choice :
    (now : ℕ) (m : MultiRuntime)
    → Reachable m
    → Choice (decay_expired_blacklists now m.scheduler) (best_lane now m.scheduler).0
unfolding best_lane select_lane
best_lane-Choice now m r =
    let s = decay_expired_blacklists now m.scheduler in
    or_blacklisted-Choice s (select_lane s false) (select_lane s true)
      (decay-IsOrdered now m.scheduler (Reachable-IsOrdered m r)) refl refl
