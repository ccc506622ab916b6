-- ===== src/Range.antt =====
-- Lists of closed byte ranges, `Vec<(u64, u64)>`: the merging of adjacent ranges in src/util.rs
-- (`mark_written!`) and src/resume.rs (`add_covered_range`, `collect_contiguous_ranges`), and the
-- writer's coverage gate, `coverage_gap` of src/util.rs.
pub mod Merge
pub mod Gap
pub mod Sound
mod Tests
use simple_downloader.Prelude.{
  ℕ, ◌+◌, ◌-◌, ◌≤◌, ◌<◌, min, max, Bool, true, false, ◌&&◌, ◌||◌, List, [], ◌∷◌, ◌++◌, map, Option,
  none, some, ltb, leb, if◌then◌else◌, sat_add, sort_by_key, keep,
}

abbrev pub Range : Type 0
Range = ℕ × ℕ

abbrev pub start_of : Range → ℕ
start_of r = r.0

abbrev pub within : Range → ℕ → Bool
within (s, e) x = leb s x && leb x e

-- Does some range hold the byte `x`?
abbrev pub covers : List Range → ℕ → Bool
covers [] x = false
covers (r ∷ rs) x = within r x || covers rs x

-- The loop over `ranges.drain(..)`: the first argument is the last entry of `merged`.
unfoldable pub merge_from : Range → List Range → List Range
merge_from last [] = last ∷ []
merge_from (ls, le) ((s, e) ∷ rest) = elim (leb s (sat_add le 1)) [
  | true ↦ merge_from (ls, max le e) rest
  | false ↦ (ls, le) ∷ merge_from (s, e) rest
]

unfoldable pub collect_contiguous_ranges : List Range → List Range
unfolding merge_from
collect_contiguous_ranges [] = []
collect_contiguous_ranges (r ∷ rest) = merge_from r rest

unfoldable pub add_covered_range : List Range → ℕ → ℕ → List Range
unfolding collect_contiguous_ranges sort_by_key
add_covered_range ranges start end =
    collect_contiguous_ranges (sort_by_key start_of (ranges ++ (start, end) ∷ []))

unfoldable pub covers_segment : List Range → ℕ → ℕ → Bool
covers_segment [] start end = false
covers_segment ((cs, ce) ∷ ranges) start end =
    (leb cs start && leb end ce) || covers_segment ranges start end

-- The body is that of `add_covered_range`; a block of no bytes gives a range that ends before it
-- starts, except at offset 0.
unfoldable pub mark_written : List Range → ℕ → ℕ → List Range
unfolding add_covered_range
mark_written written off len = add_covered_range written off (sat_add off len - 1)

-- The loop of `coverage_gap` over the sorted extents.
gap_loop : ℕ → ℕ → List Range → Option Range
gap_loop size cursor [] = if ltb cursor size then some (cursor, size - 1) else none
gap_loop size cursor ((s, e) ∷ rest) =
    let next = max cursor (sat_add e 1) in
    let later = gap_loop size next rest in
    if ltb cursor s then some (cursor, s - 1) else if leb size next then none else later

-- What `filter` and `map` leave of the two lists.
extents : List Range → List Range → ℕ → List Range
extents written trusted size =
    map (λ r. (r.0, min r.1 (size - 1)))
      (keep (λ r. leb r.0 r.1 && ltb r.0 size) (written ++ trusted))

unfoldable pub coverage_gap : List Range → List Range → ℕ → Option Range
unfolding gap_loop extents sort_by_key
coverage_gap written trusted size =
    gap_loop size 0 (sort_by_key start_of (extents written trusted size))
