-- ===== src/Downloader.antt =====
-- src/downloader.rs. Here `split_resume_ranges`: the ranges that the workers of a download start
-- with.
pub mod Split
pub mod Orchestrate
pub mod Refill
pub mod Tail
pub mod Streaming
pub mod Streamed
pub mod Started
mod Tests
use simple_downloader.Prelude.{
  ℕ, suc, zero, ◌+◌, ◌-◌, ◌*◌, ◌/◌, max, Bool, List, [], ◌∷◌, ◌++◌, Option, none, some, ltb, leb,
  if◌then◌else◌, length, take, drop, sat_add,
}
use simple_downloader.Chunk.Split.{min_chunk_size}

abbrev pub range_len : ℕ × ℕ → ℕ
range_len (start, end) = sat_add (end - start) 1

-- `max_by_key` gives the last of the longest ranges, with its index.
abbrev pub longer : ℕ → ℕ × (ℕ × ℕ) → ℕ × ℕ → ℕ × (ℕ × ℕ)
longer i best r = if leb (range_len best.1) (range_len r) then (i, r) else best

abbrev pub longest_from : ℕ → ℕ × (ℕ × ℕ) → List (ℕ × ℕ) → ℕ × (ℕ × ℕ)
longest_from i best [] = best
longest_from i best (r ∷ ranges) = longest_from (suc i) (longer i best r) ranges

unfoldable pub longest : List (ℕ × ℕ) → Option (ℕ × (ℕ × ℕ))
longest [] = none
longest (r ∷ ranges) = some (longest_from 1 (0, r) ranges)

unfoldable pub splice {ℓ} : {A : Type ℓ} → ℕ → List A → List A → List A
splice i ys xs = take i xs ++ (ys ++ drop (suc i) xs)

abbrev pub halves : ℕ × ℕ → List (ℕ × ℕ)
halves (start, end) =
    let mid = start + (range_len (start, end) / 2 - 1) in (start, mid) ∷ (mid + 1, end) ∷ []

-- The `while` loop: each turn adds one range, so that `target` turns are enough.
unfoldable pub split_loop : ℕ → ℕ → List (ℕ × ℕ) → List (ℕ × ℕ)
unfolding longest splice
split_loop zero target ranges = ranges
split_loop (suc fuel) target ranges =
    if ltb (length ranges) target
    then (elim (longest ranges) [
      | none ↦ ranges
      | some (i, r) ↦
          let rest = split_loop fuel target (splice i (halves r) ranges) in
          if ltb (range_len r) (min_chunk_size * 2) then ranges else rest
    ])
    else ranges

unfoldable pub split_resume_ranges : List (ℕ × ℕ) → ℕ → List (ℕ × ℕ)
unfolding split_loop
split_resume_ranges ranges workers = split_loop (max workers 1) (max workers 1) ranges
