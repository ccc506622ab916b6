-- ===== src/Range/Merge.antt =====
-- What the merging of ranges keeps: the bytes that are covered, in sorted ranges with gaps between.
use simple_downloader.Prelude.{
  ℕ, ◌+◌, ◌≤◌, ◌<◌, ◌≡◌, ◌↔◌, refl, ◌∙◌, inl, inr, max, true, false, ◌||◌, List, [], ◌∷◌, ◌++◌, leb,
  u64_mod, sat_add, insert_by_key, sort_by_key, sort_by_key-Ascends, sort_by_key-All, Ascends,
  Ascends-mono, All, All-append, Bool-cases, arith,
}
use simple_downloader.Range.{
  Range, start_of, within, covers, merge_from, collect_contiguous_ranges, add_covered_range,
  covers_segment,
}

-- A range of `u64` bounds that ends at most one byte before it starts.
abbrev pub IsRange : Range → Type 0
IsRange r = (r.0 ≤ r.1 + 1) × (r.0 < u64_mod) × (r.1 < u64_mod)

-- Each range starts at `b` or later, and at least one byte lies between two ranges.
abbrev pub IsGapped : ℕ → List Range → Type 0
IsGapped b [] = Unit
IsGapped b (r ∷ rs) = (b ≤ r.0) × (r.0 ≤ r.1 + 1) × IsGapped (r.1 + 2) rs

pub covers-append :
    (xs ys : List Range) (x : ℕ) → covers (xs ++ ys) x ≡ (covers xs x || covers ys x)
covers-append [] ys x = refl
covers-append (r ∷ xs) ys x = ground (arith, covers-append xs ys x)

covers-insert_by_key :
    (r : Range) (rs : List Range) (x : ℕ)
    → covers (insert_by_key start_of r rs) x ≡ (within r x || covers rs x)
unfolding insert_by_key
covers-insert_by_key r [] x = refl
covers-insert_by_key r (y ∷ ys) x = ground (arith, covers-insert_by_key r ys x)

pub covers-sort_by_key :
    (rs : List Range) (x : ℕ) → covers (sort_by_key start_of rs) x ≡ covers rs x
unfolding sort_by_key
covers-sort_by_key [] x = refl
covers-sort_by_key (r ∷ rs) x =
    ground (arith, covers-insert_by_key r (sort_by_key start_of rs) x, covers-sort_by_key rs x)

max-IsRange : (ls le e : ℕ) → IsRange (ls, le) → e < u64_mod → IsRange (ls, max le e)
max-IsRange ls le e h k = omega arith

covers-merge_from :
    (ls le : ℕ) (rs : List Range) (x : ℕ)
    → IsRange (ls, le)
    → Ascends start_of ls rs
    → All IsRange rs
    → covers (merge_from (ls, le) rs) x ≡ (within (ls, le) x || covers rs x)
unfolding merge_from
covers-merge_from ls le [] x h a w = refl
covers-merge_from ls le ((s, e) ∷ rest) x h a w = ground (
  arith,
  covers-merge_from ls (max le e) rest x,
  covers-merge_from s e rest x,
  max-IsRange ls le e h,
  Ascends-mono start_of ls s rest,
)

above :
    (ls le s e : ℕ) → IsRange (ls, le) → IsRange (s, e) → leb s (sat_add le 1) ≡ false → le + 2 ≤ s
above ls le s e h w f = ground arith

merge_from-IsGapped :
    (b ls le : ℕ) (rs : List Range)
    → b ≤ ls
    → IsRange (ls, le)
    → Ascends start_of ls rs
    → All IsRange rs
    → IsGapped b (merge_from (ls, le) rs)
unfolding merge_from
merge_from-IsGapped b ls le [] p h a w = (p, h.0, tt)
merge_from-IsGapped b ls le ((s, e) ∷ rest) p h a w = elim (Bool-cases (leb s (sat_add le 1))) [
  | inl t ↦
      rw (t, merge_from)
        (merge_from-IsGapped b ls (max le e) rest p (max-IsRange ls le e h w.0.2)
          (Ascends-mono start_of ls s rest a.0 a.1) w.1)
  | inr f ↦
      rw (f, merge_from)
        (p, h.0, merge_from-IsGapped (le + 2) s e rest (above ls le s e h w.0 f) w.0 a.1 w.1)
]

merge_from-All :
    (ls le : ℕ) (rs : List Range)
    → IsRange (ls, le)
    → All IsRange rs
    → All IsRange (merge_from (ls, le) rs)
unfolding merge_from
merge_from-All ls le [] h w = (h, tt)
merge_from-All ls le ((s, e) ∷ rest) h w = elim (Bool-cases (leb s (sat_add le 1))) [
  | inl t ↦ rw (t, merge_from) (merge_from-All ls (max le e) rest (max-IsRange ls le e h w.0.2) w.1)
  | inr f ↦ rw (f, merge_from) (h, merge_from-All s e rest w.0 w.1)
]

pub covers-collect_contiguous_ranges :
    (rs : List Range) (x : ℕ)
    → Ascends start_of 0 rs
    → All IsRange rs
    → covers (collect_contiguous_ranges rs) x ≡ covers rs x
unfolding collect_contiguous_ranges
covers-collect_contiguous_ranges [] x a w = refl
covers-collect_contiguous_ranges (r ∷ rs) x a w = covers-merge_from r.0 r.1 rs x w.0 a.1 w.1

pub collect_contiguous_ranges-IsGapped :
    (rs : List Range)
    → Ascends start_of 0 rs
    → All IsRange rs
    → IsGapped 0 (collect_contiguous_ranges rs)
unfolding collect_contiguous_ranges
collect_contiguous_ranges-IsGapped [] a w = tt
collect_contiguous_ranges-IsGapped (r ∷ rs) a w =
    merge_from-IsGapped 0 r.0 r.1 rs (omega arith) w.0 a.1 w.1

collect_contiguous_ranges-All :
    (rs : List Range) → All IsRange rs → All IsRange (collect_contiguous_ranges rs)
unfolding collect_contiguous_ranges
collect_contiguous_ranges-All [] w = tt
collect_contiguous_ranges-All (r ∷ rs) w = merge_from-All r.0 r.1 rs w.0 w.1

module _ (ranges : List Range) (start end : ℕ) (w : All IsRange ranges)
    (h : IsRange (start, end)) where
  sorted : List Range
  sorted = sort_by_key start_of (ranges ++ (start, end) ∷ [])

  sorted-IsRange : All IsRange sorted
  unfolding sorted
  sorted-IsRange = sort_by_key-All start_of IsRange _ (All-append IsRange ranges _ w (h, tt))

  sorted-Ascends : Ascends start_of 0 sorted
  unfolding sorted
  sorted-Ascends = sort_by_key-Ascends start_of (ranges ++ (start, end) ∷ [])

  -- Among ranges of `u64` bounds that end at most one byte before they start, adding such a range
  -- and merging covers exactly the bytes that were covered before and those of the new range.
  pub covers-add_covered_range :
      (x : ℕ)
      → covers (add_covered_range ranges start end) x ≡ (covers ranges x || within (start, end) x)
  unfolding add_covered_range sorted
  covers-add_covered_range x =
      covers-collect_contiguous_ranges sorted x sorted-Ascends sorted-IsRange
      ∙ covers-sort_by_key (ranges ++ (start, end) ∷ []) x
      ∙ ground (arith, covers-append ranges ((start, end) ∷ []) x)

  -- Adding a range to such ranges gives a list in ascending order in which two neighbours have at
  -- least one byte between them that neither covers.
  pub add_covered_range-IsGapped : IsGapped 0 (add_covered_range ranges start end)
  unfolding add_covered_range sorted
  add_covered_range-IsGapped =
      collect_contiguous_ranges-IsGapped sorted sorted-Ascends sorted-IsRange

  pub add_covered_range-All : All IsRange (add_covered_range ranges start end)
  unfolding add_covered_range sorted
  add_covered_range-All = collect_contiguous_ranges-All sorted sorted-IsRange

pub not_below : (b x : ℕ) (rs : List Range) → IsGapped b rs → x < b → covers rs x ≡ false
not_below b x [] g h = refl
not_below b x ((s, e) ∷ rs) g h = ground (arith, not_below (e + 2) x rs g.2)

-- In ranges with gaps between, a segment is covered byte for byte exactly when one range holds it.
pub covers_segment_iff :
    (rs : List Range) (b start end : ℕ)
    → IsGapped b rs
    → start ≤ end
    → (covers_segment rs start end ≡ true) ↔ ((x : ℕ) → start ≤ x → x ≤ end → covers rs x ≡ true)
unfolding covers_segment
covers_segment_iff [] b start end g h = (λ e. cc, λ all. all start (omega arith) h)
covers_segment_iff ((s, e) ∷ rs) b start end g h =
    let ih = covers_segment_iff rs (e + 2) start end g.2 h in
    (
      λ t x p q. ground (arith, ih.0, λ (u : covers_segment rs start end ≡ true). ih.0 u x p q),
      λ all. elim (Bool-cases (within (s, e) start)) [
        | inl inside ↦ ground (arith, all start, all (e + 1), not_below (e + 2) (e + 1) rs g.2)
        | inr outside ↦
            let tail : covers rs start ≡ true = ground (arith, all start) in
            let past : e + 2 ≤ start = ground (arith, not_below (e + 2) start rs g.2) in
            ground (arith, ih.1 (λ x p q. ground (arith, all x)))
      ],
    )
