-- ===== src/ContentRange.antt =====
-- `parse_content_range` of src/util.rs. A header value is ASCII (`HeaderValue::to_str` refuses all
-- else), so it is a list of bytes, and `trim` strips the ASCII blanks.
pub mod Bounds
mod Tests
use simple_downloader.Prelude.{
  ℕ, ◌+◌, ◌-◌, ◌*◌, ◌<◌, Bool, true, false, ◌&&◌, ◌||◌, List, [], ◌∷◌, ◌++◌, Option, none, some,
  ltb, leb, ◌==◌, if◌then◌else◌, length, take, drop, u64_mod,
}
use simple_downloader.Prelude.Text.{Text, codes, append_rev, to_ascii_lowercase, starts_with}

infixl 5 ◌>>=◌
abbrev ◌>>=◌ {ℓ κ} : {A : Type ℓ} {B : Type κ} → Option A → (A → Option B) → Option B
none >>= f = none
some a >>= f = f a

abbrev is_blank : ℕ → Bool
is_blank c = (leb 9 c && leb c 13) || c == 32

trim_start : Text → Text
trim_start [] = []
trim_start (c ∷ s) = if is_blank c then trim_start s else c ∷ s

unfoldable pub trim : Text → Text
unfolding trim_start append_rev
trim s = append_rev (trim_start (append_rev (trim_start s) [])) []

abbrev is_digit : ℕ → Bool
is_digit c = leb b'0' c && leb c b'9'

-- The digits of a `u64`, after `acc`; a value out of range is an error.
parse_digits : ℕ → Text → Option ℕ
parse_digits acc [] = some acc
parse_digits acc (c ∷ s) =
    let next = acc * 10 + (c - 48) in
    let rest = parse_digits next s in if is_digit c && ltb next u64_mod then rest else none

-- `str::parse::<u64>`, which takes one leading plus sign.
unfoldable pub parse_u64 : Text → Option ℕ
unfolding parse_digits
parse_u64 [] = none
parse_u64 (c ∷ []) = parse_digits 0 (c ∷ [])
parse_u64 (c ∷ d ∷ s) = if c == b'+' then parse_digits 0 (d ∷ s) else parse_digits 0 (c ∷ d ∷ s)

-- The text before and behind the first `c`.
split_at_first : ℕ → Text → Option (Text × Text)
split_at_first c [] = none
split_at_first c (d ∷ s) = elim (split_at_first c s) [
  | none ↦ if d == c then some ([], s) else none
  | some (a, b) ↦ if d == c then some ([], s) else some (d ∷ a, b)
]

-- The text before and behind the last `c`.
unfoldable pub split_at_last : ℕ → Text → Option (Text × Text)
split_at_last c [] = none
split_at_last c (d ∷ s) = elim (split_at_last c s) [
  | none ↦ if d == c then some ([], s) else none
  | some (a, b) ↦ some (d ∷ a, b)
]

abbrev pub is_star : Text → Bool
is_star [] = false
is_star (c ∷ []) = c == b'*'
is_star (c ∷ d ∷ s) = false

parse_total : Text → Option ℕ
unfolding parse_u64
parse_total total_part = if is_star total_part then some 0 else parse_u64 total_part

parse_bounds : Text → ℕ → Option (ℕ × ℕ × ℕ)
unfolding split_at_first trim parse_u64
parse_bounds range_part total = do
  (start_str, end_str) ← split_at_first b'-' range_part
  start ← parse_u64 (trim start_str)
  end ← parse_u64 (trim end_str)
  if ltb end start then none else some (start, end, total)

-- (start, end, total), with total 0 where it is unknown.
unfoldable pub parse_content_range : Text → Option (ℕ × ℕ × ℕ)
unfolding trim split_at_last parse_total parse_bounds to_ascii_lowercase starts_with
parse_content_range value =
    let header = trim value in
    if starts_with (codes "bytes ") (to_ascii_lowercase header)
    then (do
      (range, total_text) ← split_at_last b'/' (trim (drop 6 header))
      let range_part = trim range
      let total_part = trim total_text
      total ← parse_total total_part
      if is_star range_part
          then (if is_star total_part then none else some (0, 0, total))
          else parse_bounds range_part total)
    else none
