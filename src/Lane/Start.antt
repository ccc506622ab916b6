-- ===== src/Lane/Start.antt =====
-- A new scheduler of src/lane.rs: distinct lanes, none of them with a chunk.
use simple_downloader.Prelude.{
  ℕ, ◌≤◌, ◌≡◌, refl, ◌∙◌, inl, inr, false, List, [], ◌∷◌, ◌++◌, map, Option, ◌==◌, if◌then◌else◌,
  All, weigh, weigh-append, Bool-cases, arith, sort_by_key-All, weigh-sort_by_key,
}
use simple_downloader.Lane.{
  LaneId, LaneModel, LaneCandidate, LaneEntry, has_id, dedupe_from, dedupe_candidates,
  normalize_candidates, fresh_entry, slowness, from_candidates,
}
use simple_downloader.Lane.Change.{is_lane, Distinct}

abbrev named : LaneId → LaneCandidate → ℕ
named k c = if c.lane_id == k then 1 else 0

has_id-named : (k : LaneId) (cs : List LaneCandidate) → has_id k cs ≡ false → weigh (named k) cs ≡ 0
has_id-named k [] h = refl
has_id-named k (c ∷ cs) h =
    let other : (c.lane_id == k) ≡ false = ground arith in
    rw other (omega (arith, has_id-named k cs (ground arith)))

dedupe_from-named :
    (deduped cs : List LaneCandidate)
    → ((k : LaneId) → weigh (named k) deduped ≤ 1)
    → (k : LaneId) → weigh (named k) (dedupe_from deduped cs) ≤ 1
unfolding dedupe_from
dedupe_from-named deduped [] h k = h k
dedupe_from-named deduped (c ∷ cs) h k = elim (Bool-cases (has_id c.lane_id deduped)) [
  | inl t ↦ rw t (dedupe_from-named deduped cs h k)
  | inr t ↦ rw t (
      dedupe_from-named (deduped ++ c ∷ []) cs
        (λ j. elim (Bool-cases (c.lane_id == j)) [
          | inl same ↦
              let eq : c.lane_id ≡ j = ground arith in
              let one : named j c ≡ 1 = rw same refl in
              omega (
                arith,
                one,
                weigh-append (named j) deduped (c ∷ []),
                has_id-named j deduped (rw eq at t),
              )
          | inr other ↦
              let zero_of : named j c ≡ 0 = rw other refl in
              omega (arith, h j, weigh-append (named j) deduped (c ∷ []), zero_of)
        ])
        k)
]

weigh-fresh_entry :
    (k : LaneId) (cs : List LaneCandidate)
    → weigh (is_lane k) (map fresh_entry cs) ≡ weigh (named k) cs
weigh-fresh_entry k [] = refl
weigh-fresh_entry k (c ∷ cs) = omega (arith, weigh-fresh_entry k cs)

weigh-idle :
    (w : LaneEntry → ℕ)
    → ((c : LaneCandidate) → w (fresh_entry c) ≡ 0)
    → (cs : List LaneCandidate) → weigh w (map fresh_entry cs) ≡ 0
weigh-idle w h [] = refl
weigh-idle w h (c ∷ cs) = omega (arith, h c, weigh-idle w h cs)

pub All-fresh_entry {κ} :
    (P : LaneEntry → Type κ)
    → ((c : LaneCandidate) → P (fresh_entry c))
    → (cs : List LaneCandidate) → All P (map fresh_entry cs)
All-fresh_entry P h [] = tt
All-fresh_entry P h (c ∷ cs) = (h c, All-fresh_entry P h cs)

module _ (candidates : List LaneCandidate) (model : LaneModel) (workers per_lane : ℕ)
    (per_source : Option ℕ) where
  pub from_candidates-Distinct :
      Distinct (from_candidates candidates model workers per_lane per_source).lanes
  unfolding from_candidates dedupe_candidates
  from_candidates-Distinct k =
      let cs = dedupe_candidates (normalize_candidates candidates model) in
      omega (
        arith,
        weigh-sort_by_key slowness (is_lane k) (map fresh_entry cs),
        weigh-fresh_entry k cs,
        dedupe_from-named [] (normalize_candidates candidates model) (λ j. omega arith) k,
      )

  pub from_candidates_idle :
      (w : LaneEntry → ℕ)
      → ((c : LaneCandidate) → w (fresh_entry c) ≡ 0)
      → weigh w (from_candidates candidates model workers per_lane per_source).lanes ≡ 0
  unfolding from_candidates
  from_candidates_idle w h =
      let cs = dedupe_candidates (normalize_candidates candidates model) in
      weigh-sort_by_key slowness w (map fresh_entry cs) ∙ weigh-idle w h cs

  pub from_candidates-All {κ} :
      (P : LaneEntry → Type κ)
      → ((c : LaneCandidate) → P (fresh_entry c))
      → All P (from_candidates candidates model workers per_lane per_source).lanes
  unfolding from_candidates
  from_candidates-All P h =
      let cs = dedupe_candidates (normalize_candidates candidates model) in
      sort_by_key-All slowness P (map fresh_entry cs) (All-fresh_entry P h cs)
