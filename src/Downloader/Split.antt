-- ===== src/Downloader/Split.antt =====
-- What `split_resume_ranges` of src/downloader.rs keeps, and how far it goes.
use simple_downloader.Prelude.{
  ℕ, suc, zero, ◌+◌, ◌-◌, ◌*◌, ◌/◌, ◌≤◌, ◌<◌, ◌≡◌, ◌⊎◌, refl, sym, subst, some-injective, inl, inr,
  max, Bool, true, false, ◌&&◌, List, [], ◌∷◌, none, some, ltb, leb, if◌then◌else◌, length,
  get_elem?, weigh, weigh-append, All, if-holds, Bool-cases, Option-cases, arith,
}
use simple_downloader.Chunk.Split.{min_chunk_size}
use simple_downloader.Downloader.{
  range_len, longer, longest_from, longest, splice, halves, split_loop, split_resume_ranges,
}

module _ {ℓ} {A : Type ℓ} where
  weigh-splice :
      (f : A → ℕ) (i : ℕ) (ys xs : List A) (x : A)
      → get_elem? xs i ≡ some x
      → weigh f (splice i ys xs) + f x ≡ weigh f xs + weigh f ys
  unfolding splice
  weigh-splice f i ys [] x h = absurd (cc)
  weigh-splice f zero ys (y ∷ xs) x h =
      rw (some-injective y x h) (omega (arith, weigh-append f ys xs))
  weigh-splice f (suc i) ys (y ∷ xs) x h = omega (arith, weigh-splice f i ys xs x h)

  length-weigh : (xs : List A) → length xs ≡ weigh (λ x. 1) xs
  length-weigh [] = refl
  length-weigh (x ∷ xs) = omega (arith, length-weigh xs)

-- The entry that is found stands at its index, and is at least as long as all.
abbrev IsLongest : List (ℕ × ℕ) → ℕ × (ℕ × ℕ) → Type 0
IsLongest ranges (i, r) =
    (get_elem? ranges i ≡ some r) × All (λ x. range_len x ≤ range_len r) ranges

longest_from-index :
    (all : List (ℕ × ℕ)) (i : ℕ) (best : ℕ × (ℕ × ℕ)) (ranges : List (ℕ × ℕ))
    → get_elem? all best.0 ≡ some best.1
    → ((k : ℕ) → get_elem? ranges k ≡ get_elem? all (k + i))
    → get_elem? all (longest_from i best ranges).0 ≡ some (longest_from i best ranges).1
longest_from-index all i best [] h k = h
longest_from-index all i best (r ∷ ranges) h k =
    let here : 0 + i ≡ i = omega arith in
    let shift : (j : ℕ) → suc j + i ≡ j + suc i = λ j. omega arith in
    longest_from-index all (suc i) (longer i best r) ranges
      (if-holds (λ b. get_elem? all b.0 ≡ some b.1) (leb (range_len best.1) (range_len r)) (i, r)
        best (sym (rw here at (k 0))) h)
      (λ j. subst (λ n. get_elem? ranges j ≡ get_elem? all n) (shift j) (k (suc j)))

longer-range_len :
    (i : ℕ) (best : ℕ × (ℕ × ℕ)) (r : ℕ × ℕ)
    → (range_len best.1 ≤ range_len (longer i best r).1)
      × (range_len r ≤ range_len (longer i best r).1)
longer-range_len i best r = elim (Bool-cases (leb (range_len best.1) (range_len r))) [
  | inl t ↦ rw t (ground arith, omega arith)
  | inr t ↦ rw t (omega arith, ground arith)
]

longest_from-max :
    (i : ℕ) (best : ℕ × (ℕ × ℕ)) (ranges : List (ℕ × ℕ))
    → (range_len best.1 ≤ range_len (longest_from i best ranges).1)
      × All (λ x. range_len x ≤ range_len (longest_from i best ranges).1) ranges
longest_from-max i best [] = (omega arith, tt)
longest_from-max i best (r ∷ ranges) =
    let (more, rest) = longest_from-max (suc i) (longer i best r) ranges in
    let (old, new) = longer-range_len i best r in
    (omega (arith, old, more), (omega (arith, new, more), rest))

longest-IsLongest :
    (ranges : List (ℕ × ℕ)) (found : ℕ × (ℕ × ℕ))
    → longest ranges ≡ some found
    → IsLongest ranges found
unfolding longest
longest-IsLongest [] found h = absurd (cc)
longest-IsLongest (r ∷ ranges) found h =
    let same = some-injective (longest_from 1 (0, r) ranges) found h in
    let shift : (k : ℕ) → suc k ≡ k + 1 = λ k. omega arith in
    subst (IsLongest (r ∷ ranges)) same (
      longest_from-index (r ∷ ranges) 1 (0, r) ranges refl
          (λ k. subst (λ n. get_elem? ranges k ≡ get_elem? (r ∷ ranges) n) (shift k) refl),
      longest_from-max 1 (0, r) ranges,
    )

longest-none : (ranges : List (ℕ × ℕ)) → longest ranges ≡ none → ranges ≡ []
unfolding longest
longest-none [] h = refl
longest-none (r ∷ ranges) h = absurd (cc)

-- Does the range hold the byte?
abbrev pub holds : ℕ → ℕ × ℕ → ℕ
holds x (start, end) = if leb start x && leb x end then 1 else 0

abbrev pub is_small : ℕ × ℕ → Bool
is_small r = ltb (range_len r) (min_chunk_size * 2)

halves-holds : (x : ℕ) (r : ℕ × ℕ) → is_small r ≡ false → weigh (holds x) (halves r) ≡ holds x r
halves-holds x (start, end) h =
    let mid = start + (range_len (start, end) / 2 - 1) in
    let long : min_chunk_size * 2 ≤ range_len (start, end) = ground arith in
    let low : start ≤ mid = omega arith in
    let high : mid < end = omega arith in split_lem mid low high
  where
    split_lem :
        (mid : ℕ)
        → start ≤ mid
        → mid < end
        → holds x (start, mid) + (holds x (mid + 1, end) + 0) ≡ holds x (start, end)
    split_lem mid low high = ground arith

below_is_small :
    (n : ℕ) (ranges : List (ℕ × ℕ))
    → n < min_chunk_size * 2
    → All (λ x. range_len x ≤ n) ranges
    → All (λ x. is_small x ≡ true) ranges
below_is_small n [] h a = tt
below_is_small n (x ∷ ranges) h a =
    let le : range_len x ≤ n = a.0 in
    let less : range_len x < min_chunk_size * 2 = omega (arith, le) in
    (ground arith, below_is_small n ranges h a.1)

-- Each byte is in as many ranges as before; there are no more ranges than before, or than workers; and
-- there are as many as workers, or all are too small to split.
abbrev pub IsSplit : ℕ → List (ℕ × ℕ) → List (ℕ × ℕ) → Type 0
IsSplit target ranges out =
    ((x : ℕ) → weigh (holds x) out ≡ weigh (holds x) ranges)
    × (length out ≤ max (length ranges) target)
    × ((target ≤ length out) ⊎ All (λ r. is_small r ≡ true) out)

length-splice :
    (i : ℕ) (r : ℕ × ℕ) (ranges : List (ℕ × ℕ))
    → get_elem? ranges i ≡ some r
    → length (splice i (halves r) ranges) ≡ length ranges + 1
length-splice i r ranges h = omega (
  arith,
  weigh-splice (λ x. 1) i (halves r) ranges r h,
  length-weigh (splice i (halves r) ranges),
  length-weigh ranges,
)

same-IsSplit :
    (target : ℕ) (ranges : List (ℕ × ℕ))
    → (target ≤ length ranges) ⊎ All (λ r. is_small r ≡ true) ranges
    → IsSplit target ranges ranges
same-IsSplit target ranges h = (λ x. refl, omega arith, h)

split_loop-IsSplit :
    (fuel target : ℕ) (ranges : List (ℕ × ℕ))
    → target ≤ length ranges + fuel
    → IsSplit target ranges (split_loop fuel target ranges)
unfolding split_loop
split_loop-IsSplit zero target ranges h = same-IsSplit target ranges (inl (omega arith))
split_loop-IsSplit (suc fuel) target ranges h = elim (Bool-cases (ltb (length ranges) target)) [
  | inr t ↦ rw t (same-IsSplit target ranges (inl (ground arith)))
  | inl t ↦ elim (Option-cases (longest ranges)) [
    | inl e ↦
        rw (t, e, split_loop)
          (same-IsSplit target ranges
            (inr (subst (All (λ r. is_small r ≡ true)) (sym (longest-none ranges e)) tt)))
    | inr ((i, r), e) ↦
        let (at, most) = longest-IsLongest ranges (i, r) e in
        elim (Bool-cases (is_small r)) [
          | inl u ↦
              rw (t, e, u, split_loop)
                (same-IsSplit target ranges
                  (inr (below_is_small (range_len r) ranges (ground arith) most)))
          | inr u ↦
              let next = splice i (halves r) ranges in
              let longer_by = length-splice i r ranges at in
              let (same, few, ends) = split_loop-IsSplit fuel target next (omega arith) in
              rw (t, e, u, split_loop)
                (
                  λ x. omega (
                    arith,
                    same x,
                    weigh-splice (holds x) i (halves r) ranges r at,
                    halves-holds x r u,
                  ),
                  ground (arith, few, longer_by),
                  ends,
                )
        ]
  ]
]

-- `split_resume_ranges` ends after at most as many turns as workers are wanted, with each byte in as
-- many ranges as before, at most the larger of the number of the ranges and of the workers, and
-- either one range for each worker or only ranges that are too small to split.
pub split_resume_ranges-IsSplit :
    (ranges : List (ℕ × ℕ)) (workers : ℕ)
    → IsSplit (max workers 1) ranges (split_resume_ranges ranges workers)
unfolding split_resume_ranges
split_resume_ranges-IsSplit ranges workers =
    split_loop-IsSplit (max workers 1) (max workers 1) ranges (omega arith)
