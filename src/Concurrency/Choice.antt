-- ===== src/Concurrency/Choice.antt =====
-- That the searches for a chunk of src/concurrency.rs find what they are named for.
use simple_downloader.Prelude.{
  ◌≤◌, ◌≡◌, refl, Bool, true, false, List, [], ◌∷◌, some, leb, if◌then◌else◌, keep, All, Among,
  some-injective, subst, arith,
}
use simple_downloader.Prelude.Map.{Map}
use simple_downloader.Chunk.Split.{min_chunk_size}
use simple_downloader.State.{ChunkState, remaining_bytes, is_splittable}
use simple_downloader.Float.{Float, IsOrdered, IsNumber}
use simple_downloader.Concurrency.{Reading, speed_of}
use simple_downloader.Concurrency.Find.{
  best, best_from, values, is_slower, find_largest_splittable_chunk, find_slowest_splittable_chunk,
}
use simple_downloader.Concurrency.Outcome.{best-keep}

-- A test that agrees with an order on the entries for which `P` holds.
record Agrees {A : Type 0} (is_better : A → A → Bool) (P : A → Type 0) (R : A → A → Type 0)
    : Type 0 where
  pub R_refl : (x : A) → P x → R x x
  pub R_trans : (x y z : A) → P x → P y → P z → R x y → R y z → R x z
  pub better : (x y : A) → P x → P y → is_better x y ≡ true → R x y
  pub worse : (x y : A) → P x → P y → is_better x y ≡ false → R y x

module _ {A : Type 0} (is_better : A → A → Bool) (P : A → Type 0) (R : A → A → Type 0)
    (law : Agrees is_better P R) where
  -- `z` is at the top of `x` and of the entries `xs`.
  abbrev Tops : A → A → List A → Type 0
  Tops z x xs = P z × R x z × All (λ y. R y z) xs

  Tops-step :
      (b : Bool) (x y : A) (ys : List A)
      → is_better x y ≡ b
      → P x
      → P y
      → Tops (best_from is_better x ys) x ys
      → Tops (best_from is_better y ys) y ys
      → Tops (best_from is_better (if b then y else x) ys) x (y ∷ ys)
  Tops-step true x y ys e h k at_x (good, top, rest) = (
    good,
    law.R_trans x y (best_from is_better y ys) h k good (law.better x y h k e) top,
    (top, rest),
  )
  Tops-step false x y ys e h k (good, top, rest) at_y = (
    good,
    top,
    (law.R_trans y x (best_from is_better x ys) k h good (law.worse x y h k e) top, rest),
  )

  best_from-Tops : (x : A) (xs : List A) → P x → All P xs → Tops (best_from is_better x xs) x xs
  best_from-Tops x [] h k = (h, law.R_refl x h, tt)
  best_from-Tops x (y ∷ ys) h k =
      Tops-step (is_better x y) x y ys refl h k.0 (best_from-Tops x ys h k.1)
        (best_from-Tops y ys k.0 k.1)

  best-tops : (xs : List A) (c : A) → All P xs → best is_better xs ≡ some c → All (λ y. R y c) xs
  best-tops [] c h e = tt
  best-tops (x ∷ xs) c h e =
      let (good, top, rest) = best_from-Tops x xs h.0 h.1 in
      subst (λ z. All (λ y. R y z) (x ∷ xs)) (some-injective _ c e) (top, rest)

-- The candidates: the chunks that can be cut.
abbrev pub splittable : Map ChunkState → List ChunkState
splittable chunks = keep (λ c. is_splittable c min_chunk_size) (values chunks)

by_remaining :
    Agrees
      (λ x y. leb (remaining_bytes x) (remaining_bytes y))
      (λ x. Unit {0})
      (λ x y. remaining_bytes x ≤ remaining_bytes y)
by_remaining = record {
  R_refl = λ x h. omega arith;
  R_trans = λ x y z h k l p q. omega (arith, p, q);
  better = λ x y h k e. ground arith;
  worse = λ x y h k e. ground arith;
}

trivial : {A : Type 0} (xs : List A) → All (λ x. Unit {0}) xs
trivial [] = tt
trivial (x ∷ xs) = (tt, trivial xs)

-- The chunk that find_largest_splittable_chunk finds is one of the state, can be cut, and no chunk
-- that can be cut has more left.
pub find_largest_splittable_chunk-tops :
    (chunks : Map ChunkState) (c : ChunkState)
    → find_largest_splittable_chunk chunks ≡ some c
    → Among c (values chunks)
      × (is_splittable c min_chunk_size ≡ true)
      × All (λ y. remaining_bytes y ≤ remaining_bytes c) (splittable chunks)
unfolding find_largest_splittable_chunk
find_largest_splittable_chunk-tops chunks c e =
    let (among, can) = best-keep _ _ (values chunks) c e in
    (among, can, best-tops _ _ _ by_remaining (splittable chunks) c (trivial (splittable chunks)) e)

module _ {W : Type 0} ⦃f : Float W⦄ (law : IsOrdered W) where
  abbrev HasNumber : Reading W → ChunkState → Type 0
  HasNumber r c = IsNumber (speed_of r c.id)

  by_speed :
      (r : Reading W)
      → Agrees (is_slower r) (HasNumber r) (λ x y. f.lt (speed_of r x.id) (speed_of r y.id) ≡ false)
  by_speed r = record {
    R_refl = λ x h. law.lt_irrefl _ h;
    R_trans = λ x y z h k l p q. law.not_lt_trans _ _ _ h k l p q;
    better = λ x y h k e. law.lt_asym _ _ k h e;
    worse = λ x y h k e. e;
  }

  -- Where all speeds are numbers, the chunk that find_slowest_splittable_chunk finds is one of the
  -- state, can be cut, and no chunk that can be cut is slower.
  pub find_slowest_splittable_chunk-tops :
      (r : Reading W) (c : ChunkState)
      → All (HasNumber r) (splittable r.state.chunks)
      → find_slowest_splittable_chunk r ≡ some c
      → Among c (values r.state.chunks)
        × (is_splittable c min_chunk_size ≡ true)
        × All (λ y. f.lt (speed_of r y.id) (speed_of r c.id) ≡ false) (splittable r.state.chunks)
  unfolding find_slowest_splittable_chunk
  find_slowest_splittable_chunk-tops r c h e =
      let (among, can) = best-keep _ _ (values r.state.chunks) c e in
      (among, can, best-tops _ _ _ (by_speed r) (splittable r.state.chunks) c h e)
