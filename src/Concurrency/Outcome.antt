-- ===== src/Concurrency/Outcome.antt =====
-- What a call of `decide_and_act` of src/concurrency.rs can come to, command by command.
use simple_downloader.Prelude.{
  ℕ, ◌+◌, ◌≤◌, ◌<◌, ◌≡◌, refl, inl, inr, Bool, true, List, [], ◌∷◌, Among, entries-Among, keep-All,
  some, ltb, leb, keep, Bool-cases, arith,
}
use simple_downloader.Prelude.Map
use simple_downloader.Prelude.Map.{Map}
use simple_downloader.Types.{bisect_download, bisect_download_skewed, terminate_chunk}
use simple_downloader.Chunk.Split.{min_chunk_size}
use simple_downloader.State.{ChunkState, remaining_bytes, is_splittable}
use simple_downloader.Float.{Float}
use simple_downloader.Concurrency.{
  ConcurrencyManager, Reading, Act, small_tail_bytes, chunk_idle_secs, count_of, is_steal_throttled,
  steal_small_tail, request_skewed_split,
}
use simple_downloader.Concurrency.Find.{best, best-holds, values, is_stall}
use simple_downloader.Concurrency.Decide.{active}

-- What of the manager the commands depend on.
pub record Books : Type 0 where
  pub max_workers : ℕ
  pub last_split_time : ℕ
  pub counts : Map ℕ
  pub steals : Map ℕ

module _ {ℓ} {A : Type ℓ} where
  -- The best of the entries that pass a test is an entry that passes it.
  pub best-keep :
      (is_better : A → A → Bool) (p : A → Bool) (xs : List A) (c : A)
      → best is_better (keep p xs) ≡ some c
      → Among c xs × (p c ≡ true)
  best-keep is_better p xs c e =
      best-holds is_better (λ c. Among c xs × (p c ≡ true)) (keep p xs) c
        (keep-All (λ c. Among c xs) p xs (entries-Among xs)) e

module _ {W : Type 0} ⦃f : Float W⦄ where
  abbrev pub books : ConcurrencyManager W → Books
  books m = record {
    max_workers = m.max_workers;
    last_split_time = m.last_split_time;
    counts = m.skewed_split_counts;
    steals = m.last_steal_time;
  }

  pub record Quiet (b : Books) (a : Act W) : Type 0 where
    pub sent : a.1 ≡ []
    pub kept : books a.0 ≡ b

  -- A chunk of the state that is large enough is cut in two, with a worker free for the new part.
  pub record Cut (r : Reading W) (b : Books) (c : ChunkState) (a : Act W) : Type 0 where
    pub among : Among c (values r.state.chunks)
    pub splittable : is_splittable c min_chunk_size ≡ true
    pub room : active r < b.max_workers
    pub sent : a.1 ≡ bisect_download c.id ∷ []
    pub kept : books a.0 ≡ record b { last_split_time = r.now }

  -- A slow chunk of the state with much left is cut for the `n`th time, at most the fourth.
  pub record Skewed (r : Reading W) (b : Books) (c : ChunkState) (a : Act W) : Type 0 where
    pub among : Among c (values r.state.chunks)
    pub slow : is_stall r c ≡ true
    pub large : small_tail_bytes ≤ remaining_bytes c
    pub turn : count_of c.id b.counts < 4
    pub sent : a.1 ≡ bisect_download_skewed c.id ∷ []
    pub kept : books a.0 ≡ record b {
      last_split_time = r.now;
      counts = Map.insert c.id (count_of c.id b.counts + 1) b.counts;
    }

  -- A slow chunk of the state with much left is ended after four cuts.
  pub record Killed (r : Reading W) (b : Books) (c : ChunkState) (a : Act W) : Type 0 where
    pub among : Among c (values r.state.chunks)
    pub slow : is_stall r c ≡ true
    pub large : small_tail_bytes ≤ remaining_bytes c
    pub turn : 4 ≤ count_of c.id b.counts
    pub sent : a.1 ≡ terminate_chunk c.id ∷ []
    pub kept : books a.0 ≡ record b {
      last_split_time = r.now;
      counts = Map.remove c.id (Map.insert c.id (count_of c.id b.counts + 1) b.counts);
    }

  -- A slow chunk of the state with little left, and that is idle, is ended.
  pub record Stolen (r : Reading W) (b : Books) (c : ChunkState) (a : Act W) : Type 0 where
    pub among : Among c (values r.state.chunks)
    pub slow : is_stall r c ≡ true
    pub small : remaining_bytes c < small_tail_bytes
    pub idle : 10 ≤ chunk_idle_secs r.now r.state c.id
    pub sent : a.1 ≡ terminate_chunk c.id ∷ []
    pub kept :
        books a.0 ≡ record b { last_split_time = r.now; steals = Map.insert c.id r.now b.steals }

  pub data Outcome (r : Reading W) (b : Books) (a : Act W) : Type 0 where
    quiet : Quiet b a → Outcome r b a
    cut : (c : ChunkState) → Cut r b c a → Outcome r b a
    skewed : (c : ChunkState) → Skewed r b c a → Outcome r b a
    killed : (c : ChunkState) → Killed r b c a → Outcome r b a
    stolen : (c : ChunkState) → Stolen r b c a → Outcome r b a

  pub steal_small_tail-Outcome :
      (r : Reading W) (m : ConcurrencyManager W) (c : ChunkState)
      → Among c (values r.state.chunks)
      → is_stall r c ≡ true
      → remaining_bytes c < small_tail_bytes
      → Outcome r (books m) (steal_small_tail r.now r.state c.id m)
  unfolding steal_small_tail
  steal_small_tail-Outcome r m c among slow small =
      elim (Bool-cases (leb 10 (chunk_idle_secs r.now r.state c.id))) [
        | inl e ↦ elim (Bool-cases (is_steal_throttled r.now c.id m)) [
          | inl t ↦ rw (e, t) (quiet (record { sent = refl; kept = refl }))
          | inr t ↦
              rw (e, t)
                (stolen c (record {
                  among = among;
                  slow = slow;
                  small = small;
                  idle = ground arith;
                  sent = refl;
                  kept = refl;
                }))
        ]
        | inr e ↦ rw e (quiet (record { sent = refl; kept = refl }))
      ]

  pub request_skewed_split-Outcome :
      (r : Reading W) (m : ConcurrencyManager W) (c : ChunkState)
      → Among c (values r.state.chunks)
      → is_stall r c ≡ true
      → Outcome r (books m) (request_skewed_split r.now r.state c.id (remaining_bytes c) m)
  unfolding request_skewed_split
  request_skewed_split-Outcome r m c among slow =
      elim (Bool-cases (ltb (remaining_bytes c) small_tail_bytes)) [
        | inl small ↦ rw small (steal_small_tail-Outcome r m c among slow (ground arith))
        | inr large ↦ elim (Bool-cases (ltb 4 (count_of c.id m.skewed_split_counts + 1))) [
          | inl t ↦
              rw (large, t)
                (killed c (record {
                  among = among;
                  slow = slow;
                  large = ground arith;
                  turn = ground arith;
                  sent = refl;
                  kept = refl;
                }))
          | inr t ↦
              rw (large, t)
                (skewed c (record {
                  among = among;
                  slow = slow;
                  large = ground arith;
                  turn = ground arith;
                  sent = refl;
                  kept = refl;
                }))
        ]
      ]
