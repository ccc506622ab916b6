-- ===== src/ContentRange/Bounds.antt =====
-- What `parse_content_range` of src/util.rs lets through.
use simple_downloader.Prelude.{
  ℕ, ◌+◌, ◌-◌, ◌*◌, ◌≤◌, ◌<◌, inl, inr, ◌&&◌, [], ◌∷◌, Option, none, some, ltb, ◌==◌, drop, u64_mod,
  Bool-cases, Option-cases, arith,
}
use simple_downloader.Prelude.Text.{Text, codes, starts_with, to_ascii_lowercase}
use simple_downloader.ContentRange.{
  parse_digits, parse_u64, is_digit, is_star, parse_total, parse_bounds, parse_content_range, trim,
  split_at_last, split_at_first,
}

-- A number, where there is one, is a `u64`.
abbrev IsWord : Option ℕ → Type 0
IsWord none = Unit
IsWord (some n) = n < u64_mod

-- The bounds of a range, where there are some, ascend, and they and the total are `u64`.
abbrev pub IsBounds : Option (ℕ × ℕ × ℕ) → Type 0
IsBounds none = Unit
IsBounds (some (start, end, total)) = (start ≤ end) × (end < u64_mod) × (total < u64_mod)

parse_digits-IsWord : (acc : ℕ) (s : Text) → acc < u64_mod → IsWord (parse_digits acc s)
unfolding parse_digits
parse_digits-IsWord acc [] h = h
parse_digits-IsWord acc (c ∷ s) h =
    let next = acc * 10 + (c - 48) in
    elim (Bool-cases (is_digit c && ltb next u64_mod)) [
      | inl t ↦ rw t (parse_digits-IsWord next s (ground arith))
      | inr t ↦ rw t tt
    ]

parse_u64-IsWord : (s : Text) → IsWord (parse_u64 s)
unfolding parse_u64
parse_u64-IsWord [] = tt
parse_u64-IsWord (c ∷ []) = parse_digits-IsWord 0 (c ∷ []) (omega arith)
parse_u64-IsWord (c ∷ d ∷ s) = elim (Bool-cases (c == b'+')) [
  | inl t ↦ rw t (parse_digits-IsWord 0 (d ∷ s) (omega arith))
  | inr t ↦ rw t (parse_digits-IsWord 0 (c ∷ d ∷ s) (omega arith))
]

parse_total-IsWord : (s : Text) → IsWord (parse_total s)
unfolding parse_total
parse_total-IsWord s = elim (Bool-cases (is_star s)) [
  | inl t ↦ rw t (omega arith)
  | inr t ↦ rw t (parse_u64-IsWord s)
]

parse_bounds-IsBounds : (s : Text) (total : ℕ) → total < u64_mod → IsBounds (parse_bounds s total)
unfolding parse_bounds
parse_bounds-IsBounds s total h = elim (Option-cases (split_at_first b'-' s)) [
  | inl e ↦ rw e tt
  | inr ((a, b), e) ↦ elim (Option-cases (parse_u64 (trim a))) [
    | inl p ↦ rw (e, p) tt
    | inr (start, p) ↦ elim (Option-cases (parse_u64 (trim b))) [
      | inl q ↦ rw (e, p, q) tt
      | inr (end, q) ↦
          let top : end < u64_mod = rw q at (parse_u64-IsWord (trim b)) in
          elim (Bool-cases (ltb end start)) [
            | inl t ↦ rw (e, p, q, t) tt
            | inr t ↦ rw (e, p, q, t) (ground arith, top, h)
          ]
    ]
  ]
]

-- Whatever the header, the range that `parse_content_range` returns, if any, does not end before it
-- starts, and its bounds and its total are `u64` numbers.
pub parse_content_range-IsBounds : (value : Text) → IsBounds (parse_content_range value)
unfolding parse_content_range
parse_content_range-IsBounds value =
    elim (Bool-cases (starts_with (codes "bytes ") (to_ascii_lowercase (trim value)))) [
      | inr f ↦ rw f tt
      | inl f ↦ elim (Option-cases (split_at_last b'/' (trim (drop 6 (trim value))))) [
        | inl e ↦ rw (f, e) tt
        | inr ((a, b), e) ↦ elim (Option-cases (parse_total (trim b))) [
          | inl p ↦ rw (f, e, p) tt
          | inr (total, p) ↦
              let word : total < u64_mod = rw p at (parse_total-IsWord (trim b)) in
              elim (Bool-cases (is_star (trim a))) [
                | inr t ↦ rw (f, e, p, t) (parse_bounds-IsBounds (trim a) total word)
                | inl t ↦ elim (Bool-cases (is_star (trim b))) [
                  | inl u ↦ rw (f, e, p, t, u) tt
                  | inr u ↦ rw (f, e, p, t, u) (omega arith, omega arith, word)
                ]
              ]
        ]
      ]
    ]
