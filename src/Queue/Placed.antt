-- ===== src/Queue/Placed.antt =====
-- Where the tasks are agrees with what `all` says of them, and each path that a task holds is in
-- `occupied`: what this asks of a step that enters one task anew.
use simple_downloader.Prelude.{
  ℕ, ◌+◌, ◌≤◌, ◌≡◌, refl, sym, inl, inr, true, false, ◌&&◌, List, some, ◌==◌, Bool-cases, arith,
}
use simple_downloader.Prelude.Map
use simple_downloader.Prelude.Map.{Map}
use simple_downloader.Prelude.Text.{Text}
use simple_downloader.Task.{Task, TaskId}
use simple_downloader.Queue.{QueueState, same_text, holds_path, without}
use simple_downloader.Queue.Places.{
  same_text_refl, one_if, is_for, copies, entry, held, is_queued, is_active, is_live, shows, owners,
  Keyed, shows-some, owners-remove, Keyed-insert, holds_path-without,
}

abbrev pub located : TaskId → Text → QueueState → ℕ
located id p s = entry p (Map.get id s.active) + held id p s.spawning

abbrev pub Owned : Map Task → List Text → Type 0
Owned m occupied = (p : Text) → owners p m ≤ one_if (holds_path occupied p)

pub record IsPlaced (s : QueueState) : Type 0 where
  pub all_keyed : Keyed s.all
  pub active_keyed : Keyed s.active
  pub waiting :
      (id : TaskId) (p : Text) → copies id p s.queue ≡ shows is_queued p (Map.get id s.all)
  pub running : (id : TaskId) (p : Text) → located id p s ≡ shows is_active p (Map.get id s.all)
  pub owned : Owned s.all s.occupied

pub Owned-kept :
    (m : Map Task) (occupied : List Text) (id : TaskId) (u v : Task)
    → Map.get id m ≡ some u
    → ((p : Text) → shows is_live p (some v) ≤ shows is_live p (some u))
    → Owned m occupied
    → Owned (Map.insert id v m) occupied
unfolding Map.insert
Owned-kept m occupied id u v g less own p =
    let left : owners p (Map.remove id m) + shows is_live p (some u) ≤ owners p m =
      rw g at (owners-remove p id m) in
    let no_more : shows is_live p (some v) ≤ shows is_live p (some u) = less p in
    let bound : owners p m ≤ one_if (holds_path occupied p) = own p in omega arith

pub Owned-freed :
    (m : Map Task) (occupied : List Text) (id : TaskId) (u v : Task) (path : Text)
    → Map.get id m ≡ some u
    → is_live u.state ≡ true
    → is_live v.state ≡ false
    → u.output_path ≡ path
    → Owned m occupied
    → Owned (Map.insert id v m) (without occupied path)
unfolding Map.insert
Owned-freed m occupied id u v path g live dead at_path own p =
    let left : owners p (Map.remove id m) + shows is_live p (some u) ≤ owners p m =
      rw g at (owners-remove p id m) in
    let bound : owners p m ≤ one_if (holds_path occupied p) = own p in
    rw (dead, holds_path-without occupied path p)
      (elim (Bool-cases (same_text path p)) [
        | inl e ↦
            let one : owners p (Map.remove id m) + 1 ≤ owners p m = rw (live, at_path, e) at left in
            rw e (elim (Bool-cases (holds_path occupied p)) [
              | inl f ↦ omega (arith, rw f at bound)
              | inr f ↦ omega (arith, rw f at bound)
            ])
        | inr e ↦ rw e (omega arith)
      ])

-- What a step has to show that enters one task in `all`.
pub entered :
    (s t : QueueState) (id : TaskId) (v : Task)
    → IsPlaced s
    → t.all ≡ Map.insert id v s.all
    → v.id ≡ id
    → ((j : TaskId) (p : Text)
        → (id == j) ≡ false
        → (copies j p t.queue ≡ copies j p s.queue) × (located j p t ≡ located j p s))
    → ((p : Text)
        → (copies id p t.queue ≡ shows is_queued p (some v))
          × (located id p t ≡ shows is_active p (some v)))
    → Keyed t.active
    → Owned (Map.insert id v s.all) t.occupied
    → IsPlaced t
entered s t id v h same own others here keyed occupied = record {
  all_keyed = rw same (Keyed-insert id v s.all own h.all_keyed);
  active_keyed = keyed;
  waiting = λ j p.
      rw (same, Map.get-insert id j v s.all)
        (elim (Bool-cases (id == j)) [
          | inl e ↦ let at_id : id ≡ j = ground arith in rw (e, sym at_id) (here p).0
          | inr e ↦ rw e (omega (arith, (others j p e).0, h.waiting j p))
        ]);
  running = λ j p.
      rw (same, Map.get-insert id j v s.all)
        (elim (Bool-cases (id == j)) [
          | inl e ↦ let at_id : id ≡ j = ground arith in rw (e, sym at_id) (here p).1
          | inr e ↦ rw e (omega (arith, (others j p e).1, h.running j p))
        ]);
  owned = rw same occupied;
}

-- A task that is first in what is left of the queue is queued in `all`, with its path, and nowhere else.
pub queued_once :
    (s : QueueState) (id : TaskId) (t : Task) (rest : List Task)
    → IsPlaced s
    → t.id ≡ id
    → ((j : TaskId) (p : Text) → copies j p s.queue ≡ one_if (is_for j p t) + copies j p rest)
    → (u : Task) × (Map.get id s.all ≡ some u)
      × (is_queued u.state ≡ true)
      × (u.output_path ≡ t.output_path)
      × ((p : Text) → copies id p rest ≡ 0)
queued_once s id t rest h own split =
    let is_it : (t.id == id) ≡ true = ground arith in
    let one : one_if (is_for id t.output_path t) ≡ 1 =
      rw (is_it, same_text_refl t.output_path) refl in
    let some_one : 1 ≤ shows is_queued t.output_path (Map.get id s.all) =
      omega (arith, h.waiting id t.output_path, split id t.output_path, one) in
    let (u, g, q, path) = shows-some is_queued t.output_path (Map.get id s.all) some_one in
    (
      u,
      g,
      q,
      path,
      λ p.
          let all_of : copies id p s.queue
              ≡ one_if (is_queued u.state && same_text u.output_path p) =
            rw g at (h.waiting id p) in
          let there : one_if (is_for id p t) ≡ one_if (same_text t.output_path p) = rw is_it refl in
          let same : copies id p s.queue ≡ one_if (same_text t.output_path p) =
            rw (q, path) at all_of in
          omega (arith, split id p, same, there),
    )

-- A task that runs or is spawned is active in `all`, with its path.
pub active_once :
    (s : QueueState) (id : TaskId) (p : Text)
    → IsPlaced s
    → 1 ≤ located id p s
    → (u : Task) × (Map.get id s.all ≡ some u) × (is_active u.state ≡ true) × (u.output_path ≡ p)
active_once s id p h some_one =
    shows-some is_active p (Map.get id s.all) (omega (arith, h.running id p))
