-- ===== src/Prelude/Sort.antt =====
-- Rust's stable `sort_by_key`, as an insertion sort by a numeric key.
use Prim.Native.Nat.{ℕ, ◌+◌, ◌≤◌}
use mathlib.Core.Path.{◌≡◌, refl}
use mathlib.Core.Logic.{inl, inr}
use mathlib.Core.List.{List, [], ◌∷◌}
use native.Mathlib.Omega.{arith}
use simple_downloader.Prelude.Tests.{leb, if◌then◌else◌, Bool-cases}
use simple_downloader.Prelude.Lists.{All, weigh}

module _ {ℓ} {A : Type ℓ} (key : A → ℕ) where
  unfoldable pub insert_by_key : A → List A → List A
  insert_by_key x [] = x ∷ []
  insert_by_key x (y ∷ ys) = if leb (key x) (key y) then x ∷ y ∷ ys else y ∷ insert_by_key x ys

  unfoldable pub sort_by_key : List A → List A
  unfolding insert_by_key
  sort_by_key [] = []
  sort_by_key (x ∷ xs) = insert_by_key x (sort_by_key xs)

  -- Every key is at least `b`, and the keys ascend.
  abbrev pub Ascends : ℕ → List A → Type 0
  Ascends b [] = Unit
  Ascends b (x ∷ xs) = (b ≤ key x) × Ascends (key x) xs

  pub Ascends-mono : (a b : ℕ) (xs : List A) → a ≤ b → Ascends b xs → Ascends a xs
  Ascends-mono a b [] h k = tt
  Ascends-mono a b (x ∷ xs) h k = (omega arith, k.1)

  insert_by_key-Ascends :
      (b : ℕ) (x : A) (xs : List A) → b ≤ key x → Ascends b xs → Ascends b (insert_by_key x xs)
  unfolding insert_by_key
  insert_by_key-Ascends b x [] h k = (h, tt)
  insert_by_key-Ascends b x (y ∷ ys) h k = elim (Bool-cases (leb (key x) (key y))) [
    | inl e ↦ rw e (h, (ground arith, k.1))
    | inr e ↦ rw e (k.0, insert_by_key-Ascends (key y) x ys (ground arith) k.1)
  ]

  pub sort_by_key-Ascends : (xs : List A) → Ascends 0 (sort_by_key xs)
  unfolding sort_by_key
  sort_by_key-Ascends [] = tt
  sort_by_key-Ascends (x ∷ xs) =
      insert_by_key-Ascends 0 x (sort_by_key xs) (omega arith) (sort_by_key-Ascends xs)

  insert_by_key-All {κ} :
      (P : A → Type κ) (x : A) (xs : List A) → P x → All P xs → All P (insert_by_key x xs)
  unfolding insert_by_key
  insert_by_key-All P x [] h k = (h, tt)
  insert_by_key-All P x (y ∷ ys) h k = elim (Bool-cases (leb (key x) (key y))) [
    | inl e ↦ rw e (h, k)
    | inr e ↦ rw e (k.0, insert_by_key-All P x ys h k.1)
  ]

  pub sort_by_key-All {κ} : (P : A → Type κ) (xs : List A) → All P xs → All P (sort_by_key xs)
  unfolding sort_by_key
  sort_by_key-All P [] h = tt
  sort_by_key-All P (x ∷ xs) h = insert_by_key-All P x _ h.0 (sort_by_key-All P xs h.1)

  weigh-insert_by_key :
      (f : A → ℕ) (x : A) (xs : List A) → weigh f (insert_by_key x xs) ≡ f x + weigh f xs
  unfolding insert_by_key
  weigh-insert_by_key f x [] = refl
  weigh-insert_by_key f x (y ∷ ys) = ground (arith, weigh-insert_by_key f x ys)

  -- Sorting keeps every sum of a measure over the entries.
  pub weigh-sort_by_key : (f : A → ℕ) (xs : List A) → weigh f (sort_by_key xs) ≡ weigh f xs
  unfolding sort_by_key
  weigh-sort_by_key f [] = refl
  weigh-sort_by_key f (x ∷ xs) =
      omega (arith, weigh-insert_by_key f x (sort_by_key xs), weigh-sort_by_key f xs)
