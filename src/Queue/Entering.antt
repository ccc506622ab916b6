-- ===== src/Queue/Entering.antt =====
-- A task that is new, or was paused, enters the queue; or it was paused and is dropped.
use simple_downloader.Prelude.{
  ◌+◌, ◌≤◌, ◌≡◌, refl, sym, inl, inr, true, false, List, [], ◌∷◌, ◌++◌, none, some, ◌==◌,
  weigh-append, Bool-cases, arith,
}
use simple_downloader.Prelude.Map
use simple_downloader.Prelude.Map.{Map}
use simple_downloader.Prelude.Text.{Text}
use simple_downloader.Task.{Task, TaskId, queued, paused, removed}
use simple_downloader.Queue.{QueueState, holds_path, same_text, without}
use simple_downloader.Queue.Places.{
  same_text-≡, one_if, is_for, copies, is_queued, is_active, is_live, shows, owners, owners-remove,
}
use simple_downloader.Queue.Placed.{located, Owned, IsPlaced, Owned-kept, Owned-freed, entered}
use simple_downloader.Queue.Leaving.{same_path_live}

-- A new task with a path that is not occupied.
new_owner :
    (m : Map Task) (occupied : List Text) (id : TaskId) (t : Task)
    → Map.get id m ≡ none
    → holds_path occupied t.output_path ≡ false
    → Owned m occupied
    → Owned (Map.insert id t m) (t.output_path ∷ occupied)
unfolding Map.insert
new_owner m occupied id t new free own p =
    let left : owners p (Map.remove id m) + 0 ≤ owners p m = rw new at (owners-remove p id m) in
    let bound : owners p m ≤ one_if (holds_path occupied p) = own p in
    elim (Bool-cases (same_text t.output_path p)) [
      | inl e ↦
          let none_yet : one_if (holds_path occupied p) ≡ 0 =
            rw (sym (same_text-≡ t.output_path p e), free) refl in
          rw e (elim (Bool-cases (is_live t.state)) [
            | inl l ↦ rw l (omega arith)
            | inr l ↦ rw l (omega arith)
          ])
      | inr e ↦ rw e (elim (Bool-cases (is_live t.state)) [
        | inl l ↦ rw l (omega arith)
        | inr l ↦ rw l (omega arith)
      ])
    ]

-- A new task is last in the queue.
pub joined-IsPlaced :
    (s : QueueState) (id : TaskId) (t : Task)
    → Map.get id s.all ≡ none
    → t.id ≡ id
    → t.state ≡ queued
    → holds_path s.occupied t.output_path ≡ false
    → IsPlaced s
    → IsPlaced (record s {
      queue = s.queue ++ t ∷ [];
      all = Map.insert id t s.all;
      occupied = t.output_path ∷ s.occupied;
    })
joined-IsPlaced s id t new own state free h =
    entered s _ id t h refl own
      (λ j p e.
        let other : (t.id == j) ≡ false = ground arith in
        let none_of : one_if (is_for j p t) ≡ 0 = rw other refl in
        (omega (arith, weigh-append (λ u. one_if (is_for j p u)) s.queue (t ∷ [])), refl))
      (λ p.
        let is_it : (t.id == id) ≡ true = ground arith in
        let one : one_if (is_for id p t) ≡ one_if (same_text t.output_path p) = rw is_it refl in
        let none_of : copies id p s.queue ≡ 0 = rw new at (h.waiting id p) in
        let nowhere : located id p s ≡ 0 = rw new at (h.running id p) in
        let waits : shows is_queued p (some t) ≡ one_if (same_text t.output_path p) =
          rw state refl in
        let rests : shows is_active p (some t) ≡ 0 = rw state refl in
        (omega (arith, weigh-append (λ u. one_if (is_for id p u)) s.queue (t ∷ [])), omega arith))
      h.active_keyed (new_owner s.all s.occupied id t new free h.owned)

-- A paused task, which is in no table.
module _ (s : QueueState) (id : TaskId) (t : Task) (h : IsPlaced s)
    (known : Map.get id s.all ≡ some t) (state : t.state ≡ paused) where
  unqueued : (p : Text) → copies id p s.queue ≡ 0
  unqueued p = rw (known, state) at (h.waiting id p)

  unlocated : (p : Text) → located id p s ≡ 0
  unlocated p = rw (known, state) at (h.running id p)

  live : is_live t.state ≡ true
  live = rw state refl

  pub resumed-IsPlaced : IsPlaced (record s {
    all = Map.insert id (record t { state = queued }) s.all;
    queue = record t { state = queued } ∷ s.queue;
  })
  resumed-IsPlaced =
      let again = record t { state = queued } in
      let own : t.id ≡ id = h.all_keyed id t known in
      entered s _ id again h refl own
        (λ j p e.
          let other : (t.id == j) ≡ false = ground arith in
          let none_of : one_if (is_for j p again) ≡ 0 = rw other refl in (omega arith, refl))
        (λ p.
          let is_it : (t.id == id) ≡ true = ground arith in
          let one : one_if (is_for id p again) ≡ one_if (same_text t.output_path p) =
            rw is_it refl in
          (omega (arith, unqueued p), unlocated p))
        h.active_keyed
        (Owned-kept s.all s.occupied id t again known (same_path_live t t queued live refl) h.owned)

  pub dropped-IsPlaced : IsPlaced (record s {
    all = Map.insert id (record t { state = removed }) s.all;
    occupied = without s.occupied t.output_path;
  })
  dropped-IsPlaced =
      entered s _ id (record t { state = removed }) h refl (h.all_keyed id t known)
        (λ j p e. (refl, refl)) (λ p. (unqueued p, unlocated p)) h.active_keyed
        (Owned-freed s.all s.occupied id t (record t { state = removed }) t.output_path known live
          refl refl h.owned)
