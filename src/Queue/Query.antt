-- ===== src/Queue/Query.antt =====
-- What the queue in src/queue.rs tells: `query`, `snapshot_all`, the counts, and the test on which
-- `wait_all` returns.
use simple_downloader.Prelude.{
  ℕ, ◌+◌, ◌≡◌, Bool, true, false, ◌&&◌, List, [], ◌∷◌, map, Option, none, some, length, arith, sym,
  refl,
}
use simple_downloader.Prelude.Map
use simple_downloader.Prelude.Text.{Text}
use simple_downloader.Task.{TaskId, TaskSnapshot, snapshot_of}
use simple_downloader.Queue.{QueueState}
use simple_downloader.Queue.Places.{held, is_queued, is_active, shows}
use simple_downloader.Queue.Unique.{Orderly, owners-Orderly}

unfoldable pub query : TaskId → QueueState → Option TaskSnapshot
unfolding snapshot_of Map.get
query id s = elim (Map.get id s.all) [ none ↦ none | some t ↦ some (snapshot_of t) ]

unfoldable pub snapshot_all : QueueState → List TaskSnapshot
unfolding snapshot_of
snapshot_all s = map (λ e. snapshot_of e.1) s.all

abbrev pub queued_len : QueueState → ℕ
queued_len s = length s.queue

abbrev pub active_count : QueueState → ℕ
active_count s = length s.active

abbrev is_empty {ℓ} : {A : Type ℓ} → List A → Bool
is_empty [] = true
is_empty (x ∷ xs) = false

unfoldable pub wait_is_over : QueueState → Bool
wait_is_over s = is_empty s.queue && is_empty s.active && is_empty s.pending_deletes

both_empty {ℓ κ} :
    {A : Type ℓ} {B : Type κ} (xs : List A) (ys : List B) (b : Bool)
    → (is_empty xs && is_empty ys && b) ≡ true
    → (xs ≡ []) × (ys ≡ [])
both_empty [] [] b h = (refl, refl)
both_empty [] (y ∷ ys) b h = absurd (ground arith)
both_empty (x ∷ xs) ys b h = absurd (ground arith)

-- In any interleaving in which the id of a new task is new, no task is cancelled that has completed or
-- failed, and only downloads in `active` end: when `wait_all` returns, no task is queued, and a task
-- is active only if the driver holds it between its two locks.
pub wait_all-Orderly :
    (s : QueueState)
    → Orderly s
    → wait_is_over s ≡ true
    → (id : TaskId) (p : Text)
    → (shows is_queued p (Map.get id s.all) ≡ 0)
      × (shows is_active p (Map.get id s.all) ≡ held id p s.spawning)
unfolding wait_is_over Map.get
wait_all-Orderly s r over id p =
    let (no_queue, no_active) = both_empty s.queue s.active (is_empty s.pending_deletes) over in
    let (waiting, running) = (owners-Orderly s r).1 id p in
    let held_only : held id p s.spawning + 0 ≡ shows is_active p (Map.get id s.all) =
      omega (arith, rw (no_active, Map.get) at running) in
    (sym (rw no_queue at waiting), omega arith)
