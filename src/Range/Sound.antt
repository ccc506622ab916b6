-- ===== src/Range/Sound.antt =====
-- What a merge of ranges covers was covered before, also where a range ends before it starts.
use simple_downloader.Prelude.{
  ℕ, ◌≡◌, ◌∙◌, refl, sym, inl, inr, max, true, ◌||◌, List, [], ◌∷◌, ◌++◌, leb, sat_add, Bool-cases,
  arith, sort_by_key,
}
use simple_downloader.Range.{
  Range, start_of, within, covers, merge_from, collect_contiguous_ranges, add_covered_range,
  covers_segment,
}
use simple_downloader.Range.Merge.{covers-append, covers-sort_by_key}

-- Merging covers nothing new, whatever the ranges.
merge_from_sound :
    (last : Range) (rs : List Range) (x : ℕ)
    → covers (merge_from last rs) x ≡ true
    → covers (last ∷ rs) x ≡ true
unfolding merge_from
merge_from_sound last [] x h = h
merge_from_sound (ls, le) ((s, e) ∷ rs) x h = elim (Bool-cases (leb s (sat_add le 1))) [
  | inl t ↦
      let ih = merge_from_sound (ls, max le e) rs x (rw (t, merge_from) at h) in ground (arith, ih)
  | inr t ↦
      let merged = merge_from (s, e) rs in
      let split : (within (ls, le) x || covers merged x) ≡ true = rw (t, merge_from) at h in
      elim (Bool-cases (within (ls, le) x)) [
        | inl u ↦ rw u refl
        | inr u ↦ rw u (merge_from_sound (s, e) rs x (rw u at split))
      ]
]

collect_sound :
    (rs : List Range) (x : ℕ) → covers (collect_contiguous_ranges rs) x ≡ true → covers rs x ≡ true
unfolding collect_contiguous_ranges
collect_sound [] x h = h
collect_sound (r ∷ rs) x h = merge_from_sound r rs x h

pub add_covered_range_sound :
    (rs : List Range) (start end x : ℕ)
    → covers (add_covered_range rs start end) x ≡ true
    → (covers rs x || within (start, end) x) ≡ true
unfolding add_covered_range
add_covered_range_sound rs start end x h =
    let all = rs ++ (start, end) ∷ [] in
    let held = collect_sound (sort_by_key start_of all) x h in
    ground (arith, sym (covers-sort_by_key all x) ∙ held, covers-append rs ((start, end) ∷ []) x)

pub covers_segment_sound :
    (rs : List Range) (start end x : ℕ)
    → covers_segment rs start end ≡ true
    → within (start, end) x ≡ true
    → covers rs x ≡ true
unfolding covers_segment
covers_segment_sound [] start end x h w = absurd (cc)
covers_segment_sound ((cs, ce) ∷ rs) start end x h w =
    elim (Bool-cases (covers_segment rs start end)) [
      | inl t ↦ let later = covers_segment_sound rs start end x t w in ground (arith, later)
      | inr t ↦ ground arith
    ]
