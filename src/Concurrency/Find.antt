-- ===== src/Concurrency/Find.antt =====
-- `find_largest_splittable_chunk`, `find_slowest_splittable_chunk` and the search for a stalled chunk
-- of src/concurrency.rs, with `Iterator::max_by_key` and `min_by` as their loops.
use simple_downloader.Prelude.{
  Bool, ◌&&◌, List, [], ◌∷◌, map, Option, none, some, ltb, leb, if◌then◌else◌, keep, ◌≡◌, All,
  if-holds, subst, some-injective,
}
use simple_downloader.Prelude.Map.{Map}
use simple_downloader.Chunk.Split.{min_chunk_size}
use simple_downloader.State.{ChunkState, remaining_bytes, is_splittable}
use simple_downloader.Float.{Float}
use simple_downloader.Concurrency.{Reading, speed_of, chunk_idle_secs}

-- The best of the entries by a test that says when the next one is better.
module _ {ℓ} {A : Type ℓ} (is_better : A → A → Bool) where
  abbrev pub best_from : A → List A → A
  best_from x [] = x
  best_from x (y ∷ ys) = best_from (if is_better x y then y else x) ys

  abbrev pub best : List A → Option A
  best [] = none
  best (x ∷ xs) = some (best_from x xs)

  best_from-holds {κ} : (P : A → Type κ) (x : A) (xs : List A) → P x → All P xs → P (best_from x xs)
  best_from-holds P x [] h k = h
  best_from-holds P x (y ∷ ys) h k =
      best_from-holds P (if is_better x y then y else x) ys (if-holds P (is_better x y) y x k.0 h)
        k.1

  -- What holds of every entry holds of the best.
  pub best-holds {κ} : (P : A → Type κ) (xs : List A) (c : A) → All P xs → best xs ≡ some c → P c
  best-holds P [] c h e = absurd (cc)
  best-holds P (x ∷ xs) c h e =
      subst P (some-injective (best_from x xs) c e) (best_from-holds P x xs h.0 h.1)

abbrev pub values : Map ChunkState → List ChunkState
values chunks = map (λ e. e.1) chunks

-- Of two with as many bytes left the later one is taken.
unfoldable pub find_largest_splittable_chunk : Map ChunkState → Option ChunkState
unfolding remaining_bytes is_splittable
find_largest_splittable_chunk chunks =
    best (λ x y. leb (remaining_bytes x) (remaining_bytes y))
      (keep (λ c. is_splittable c min_chunk_size) (values chunks))

module _ {W : Type 0} ⦃f : Float W⦄ where
  -- `partial_cmp` gives `Greater`: only then `min_by` takes the next one.
  abbrev pub is_slower : Reading W → ChunkState → ChunkState → Bool
  is_slower r x y = f.lt (speed_of r y.id) (speed_of r x.id)

  unfoldable pub find_slowest_splittable_chunk : Reading W → Option ChunkState
  unfolding is_splittable
  find_slowest_splittable_chunk r =
      best (is_slower r) (keep (λ c. is_splittable c min_chunk_size) (values r.state.chunks))

  -- Slower than 1024 bytes per second.
  unfoldable pub is_stall : Reading W → ChunkState → Bool
  is_stall r c = f.lt (speed_of r c.id) (f.lit 1024 1)

  unfoldable pub is_stalled : Reading W → ChunkState → Bool
  unfolding is_stall remaining_bytes chunk_idle_secs
  is_stalled r c =
      is_stall r c && ltb 0 (remaining_bytes c) && leb 10 (chunk_idle_secs r.now r.state c.id)

  unfoldable pub find_stalled : Reading W → Option ChunkState
  unfolding is_stalled
  find_stalled r = best (is_slower r) (keep (is_stalled r) (values r.state.chunks))
