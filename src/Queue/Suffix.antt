-- ===== src/Queue/Suffix.antt =====
-- The names that `with_suffix` makes of one path differ.
use native.Mathlib.Omega.{arith}
use mathlib.Core.List.{append_cancel_left, append_cancel_right, tail-eq_of_cons-eq}
use simple_downloader.Prelude.{
  ℕ, zero, suc, ◌+◌, ◌-◌, ◌*◌, ◌/◌, ◌<◌, ◌≡◌, ◌≢◌, refl, sym, ap, ◌∙◌, inl, inr, [], ◌∷◌, ◌++◌,
  Option, none, some, ltb, ◌==◌, Bool-cases,
}
use simple_downloader.Prelude.Text.{Text, codes, decimal, digits_rev, append_rev}
use simple_downloader.Queue.Rename.{
  Desired, stem_and_ext, join_path, name_or_file, numbered, placed_in, with_suffix,
}

-- The number that digits stand for: the last digit first, or the first one.
abbrev value_rev : Text → ℕ
value_rev [] = 0
value_rev (c ∷ s) = (c - 48) + 10 * value_rev s

abbrev value_from : ℕ → Text → ℕ
value_from n [] = n
value_from n (c ∷ s) = value_from (10 * n + (c - 48)) s

value_rev-digits_rev : (f n : ℕ) → n < f → value_rev (digits_rev f n) ≡ n
unfolding digits_rev
value_rev-digits_rev zero n h = absurd (omega arith)
value_rev-digits_rev (suc f) n h = elim (Bool-cases (ltb n 10)) [
  | inl e ↦ rw e (omega arith)
  | inr e ↦
      let ten : 10 < suc n = ground arith in
      rw e (omega (arith, value_rev-digits_rev f (n / 10) (omega arith)))
]

value_from-append_rev : (s t : Text) → value_from 0 (append_rev s t) ≡ value_from (value_rev s) t
unfolding append_rev
value_from-append_rev [] t = refl
value_from-append_rev (c ∷ s) t =
    value_from-append_rev s (c ∷ t) ∙ ap (λ n. value_from n t) (omega arith)

value_from-decimal : (n : ℕ) → value_from 0 (decimal n) ≡ n
unfolding decimal
value_from-decimal n =
    value_from-append_rev (digits_rev (suc n) n) [] ∙ value_rev-digits_rev (suc n) n (omega arith)

numbered-injective :
    (parts : Text × Text) (s t : Text) → numbered parts s ≡ numbered parts t → s ≡ t
numbered-injective (stem, []) s t h =
    append_cancel_right s t (codes ")")
      (append_cancel_left (codes "(") _ _ (append_cancel_left stem _ _ h))
numbered-injective (stem, c ∷ ext) s t h =
    append_cancel_right s t (codes ")." ++ (c ∷ ext))
      (append_cancel_left (codes "(") _ _ (append_cancel_left stem _ _ h))

join_path-injective : (parent s t : Text) → join_path parent s ≡ join_path parent t → s ≡ t
unfolding join_path
join_path-injective [] s t h = h
join_path-injective (c ∷ []) s t h = elim (Bool-cases (c == b'/')) [
  | inl e ↦ tail-eq_of_cons-eq (rw e at h)
  | inr e ↦ tail-eq_of_cons-eq (tail-eq_of_cons-eq (rw e at h))
]
join_path-injective (c ∷ d ∷ parent) s t h =
    join_path-injective (d ∷ parent) s t (tail-eq_of_cons-eq h)

placed_in-injective :
    (parent : Option Text) (s t : Text) → placed_in parent s ≡ placed_in parent t → s ≡ t
placed_in-injective none s t h = h
placed_in-injective (some parent) s t h = join_path-injective parent s t h

-- `with_suffix` makes different paths of one path with two different numbers.
pub with_suffix_distinct : (d : Desired) (n m : ℕ) → n ≢ m → with_suffix d n ≢ with_suffix d m
unfolding with_suffix
with_suffix_distinct d n m differ h =
    let same : decimal n ≡ decimal m =
      numbered-injective (stem_and_ext (name_or_file d.file_name)) (decimal n) (decimal m)
        (placed_in-injective d.parent _ _ h) in
    differ (sym (value_from-decimal n) ∙ ap (value_from 0) same ∙ value_from-decimal m)
