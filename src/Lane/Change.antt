-- ===== src/Lane/Change.antt =====
-- What a change of one lane does to sums over all lanes.
use simple_downloader.Prelude.{
  ℕ, ◌+◌, ◌≤◌, ◌≡◌, inl, inr, Bool, true, false, List, [], ◌∷◌, map, some, ◌==◌, if◌then◌else◌, All,
  weigh, Bool-cases, arith, sym, subst, some-injective,
}
use simple_downloader.Lane.{LaneId, LaneEntry, id_of, find, change_lane}

abbrev pub is_lane : LaneId → LaneEntry → ℕ
is_lane k e = if id_of e == k then 1 else 0

-- No two lanes have one name.
abbrev pub Distinct : List LaneEntry → Type 0
Distinct lanes = (k : LaneId) → weigh (is_lane k) lanes ≤ 1

pub find-is_lane :
    (p : LaneEntry → Bool) (lanes : List LaneEntry) (e : LaneEntry)
    → find p lanes ≡ some e
    → (1 ≤ weigh (is_lane (id_of e)) lanes) × (p e ≡ true)
find-is_lane p [] e h = absurd (cc)
find-is_lane p (x ∷ lanes) e h = elim (Bool-cases (p x)) [
  | inl t ↦
      let same : x ≡ e = some-injective x e (rw t at h) in
      let good : p e ≡ true = subst (λ y. p y ≡ true) same t in (rw same (ground arith), good)
  | inr t ↦ let (here, good) = find-is_lane p lanes e (rw t at h) in (omega arith, good)
]

module _ (w : LaneEntry → ℕ) where
  -- A lane that `find` gives is the one that changes.
  pub weigh-change_lane :
      (p : LaneEntry → Bool) (f : LaneEntry → LaneEntry) (lanes : List LaneEntry) (e : LaneEntry)
      → find p lanes ≡ some e
      → weigh (is_lane (id_of e)) lanes ≤ 1
      → weigh w (change_lane (id_of e) f lanes) + w e ≡ weigh w lanes + w (f e)
  unfolding change_lane
  weigh-change_lane p f [] e h d = absurd (cc)
  weigh-change_lane p f (x ∷ lanes) e h d = elim (Bool-cases (p x)) [
    | inl t ↦
        let same : x ≡ e = some-injective x e (rw t at h) in
        subst
          (λ y.
            weigh w (if id_of y == id_of e then f y ∷ lanes else y ∷ change_lane (id_of e) f lanes)
              + w e
            ≡ w y + weigh w lanes + w (f e))
          (sym same) (ground arith)
    | inr t ↦
        let there = (find-is_lane p lanes e (rw t at h)).0 in
        let other : (id_of x == id_of e) ≡ false = ground arith in
        rw other (omega (arith, weigh-change_lane p f lanes e (rw t at h) (omega arith)))
  ]

  pub weigh-change_lane_le :
      (f : LaneEntry → LaneEntry)
      → ((e : LaneEntry) → w (f e) ≤ w e)
      → (id : LaneId) (lanes : List LaneEntry) → weigh w (change_lane id f lanes) ≤ weigh w lanes
  unfolding change_lane
  weigh-change_lane_le f h id [] = omega arith
  weigh-change_lane_le f h id (x ∷ lanes) = elim (Bool-cases (id_of x == id)) [
    | inl t ↦ rw t (omega (arith, h x))
    | inr t ↦ rw t (omega (arith, weigh-change_lane_le f h id lanes))
  ]

  pub weigh-map_le :
      (f : LaneEntry → LaneEntry)
      → ((e : LaneEntry) → w (f e) ≤ w e)
      → (lanes : List LaneEntry) → weigh w (map f lanes) ≤ weigh w lanes
  weigh-map_le f h [] = omega arith
  weigh-map_le f h (x ∷ lanes) = omega (arith, h x, weigh-map_le f h lanes)

module _ (P : LaneEntry → Type 0) (f : LaneEntry → LaneEntry) where
  pub All-change_lane :
      ((e : LaneEntry) → P e → P (f e))
      → (id : LaneId) (lanes : List LaneEntry) → All P lanes
      → All P (change_lane id f lanes)
  unfolding change_lane
  All-change_lane h id [] a = tt
  All-change_lane h id (x ∷ lanes) a = elim (Bool-cases (id_of x == id)) [
    | inl t ↦ rw t (h x a.0, a.1)
    | inr t ↦ rw t (a.0, All-change_lane h id lanes a.1)
  ]

  pub All-map :
      ((e : LaneEntry) → P e → P (f e))
      → (lanes : List LaneEntry) → All P lanes
      → All P (map f lanes)
  All-map h [] a = tt
  All-map h (x ∷ lanes) a = (h x a.0, All-map h lanes a.1)

  -- Only the lane that `find` gives has to keep the predicate.
  pub All-change_found :
      (p : LaneEntry → Bool) (lanes : List LaneEntry) (e : LaneEntry)
      → find p lanes ≡ some e
      → weigh (is_lane (id_of e)) lanes ≤ 1
      → P (f e)
      → All P lanes
      → All P (change_lane (id_of e) f lanes)
  unfolding change_lane
  All-change_found p [] e h d new a = absurd (cc)
  All-change_found p (x ∷ lanes) e h d new a = elim (Bool-cases (p x)) [
    | inl t ↦
        let same : x ≡ e = some-injective x e (rw t at h) in
        let here : (id_of x == id_of e) ≡ true = rw same (ground arith) in
        rw here (rw same new, a.1)
    | inr t ↦
        let there = (find-is_lane p lanes e (rw t at h)).0 in
        let other : (id_of x == id_of e) ≡ false = ground arith in
        rw other (a.0, All-change_found p lanes e (rw t at h) (omega arith) new a.1)
  ]
