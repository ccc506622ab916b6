-- ===== src/Chunk/Split.antt =====
-- `split_range` and `split_range_skewed` of src/chunk.rs.
use simple_downloader.Prelude.{
  ℕ, ◌+◌, ◌-◌, ◌*◌, ◌/◌, ◌≤◌, ◌<◌, ◌≡◌, inl, inr, min, max, Bool, true, false, Option, none, some,
  ltb, if◌then◌else◌, sat_add, wrap_add, wrap_sub, u64_max, Bool-cases, arith,
}

abbrev pub min_chunk_size : ℕ
min_chunk_size = 1024 * 10

-- How much the slow chunk keeps.
left_chunk_size : ℕ → Bool → ℕ
left_chunk_size remaining skewed =
    if skewed
    then min (max (remaining / 8) min_chunk_size) (remaining - min_chunk_size)
    else remaining / 2

-- The last byte that the chunk keeps, and the first of the new chunk.
unfoldable pub split_range_skewed : ℕ → ℕ → Bool → Option (ℕ × ℕ)
unfolding left_chunk_size
split_range_skewed offset end skewed =
    let remaining = sat_add (end - offset) 1 in
    let midpoint = wrap_sub (wrap_add offset (left_chunk_size remaining skewed)) 1 in
    if ltb remaining (min_chunk_size * 2) then none else some (midpoint, wrap_add midpoint 1)

unfoldable pub split_range : ℕ → ℕ → Option (ℕ × ℕ)
unfolding split_range_skewed
split_range offset end = split_range_skewed offset end false

left_bounds :
    (r : ℕ) (skewed : Bool)
    → min_chunk_size * 2 ≤ r
    → (min_chunk_size ≤ left_chunk_size r skewed) × (left_chunk_size r skewed + min_chunk_size ≤ r)
unfolding left_chunk_size
left_bounds r true h = omega arith
left_bounds r false h = omega arith

-- The verdict on a split of the bytes `offset` to `end`: both parts have the least size and meet,
-- or the rest is too small to be cut.
abbrev pub Cut : ℕ → ℕ → Option (ℕ × ℕ) → Type 0
Cut offset end none = end + 1 < offset + min_chunk_size * 2
Cut offset end (some (midpoint, new_start)) =
    (new_start ≡ midpoint + 1)
    × (offset + min_chunk_size ≤ midpoint + 1)
    × (midpoint + min_chunk_size ≤ end)

-- A split, skewed or in the middle, gives two adjacent parts of at least `MIN_CHUNK_SIZE` bytes that
-- fill the rest of the chunk, and is refused only if less than twice that is left; for an end below
-- the largest `u64`.
pub split_range_skewed-Cut :
    (offset end : ℕ) (skewed : Bool)
    → end < u64_max
    → Cut offset end (split_range_skewed offset end skewed)
unfolding split_range_skewed
split_range_skewed-Cut offset end skewed h =
    let r = sat_add (end - offset) 1 in
    elim (Bool-cases (ltb r (min_chunk_size * 2))) [
      | inl t ↦ rw t (ground arith)
      | inr f ↦ rw f (ground (arith, left_bounds r skewed))
    ]
