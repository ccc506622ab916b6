-- ===== src/Queue/Leaving.antt =====
-- A task that leaves the queue or the table of the active ones: where the tasks are, and the paths that
-- they hold, stay in agreement.
use simple_downloader.Prelude.{
  ◌+◌, ◌≤◌, ◌≡◌, refl, inl, inr, true, false, List, some, ◌==◌, Bool-cases, arith,
}
use simple_downloader.Prelude.Map
use simple_downloader.Prelude.Map.{Map}
use simple_downloader.Prelude.Text.{Text}
use simple_downloader.Task.{Task, TaskId, TaskState}
use simple_downloader.Queue.{QueueState, same_text, without, take_task}
use simple_downloader.Queue.Places.{
  same_text_refl, one_if, is_for, copies, entry, held, is_queued, is_active, is_live, shows,
  queued_else, active_else, Keyed-remove, take_task-copies,
}
use simple_downloader.Queue.Placed.{
  located, Owned, IsPlaced, Owned-kept, Owned-freed, entered, queued_once, active_once,
}

-- A task that keeps its path and is live before is no new owner.
pub same_path_live :
    (t u : Task) (x : TaskState)
    → is_live u.state ≡ true
    → u.output_path ≡ t.output_path
    → (p : Text) → shows is_live p (some (record t { state = x })) ≤ shows is_live p (some u)
same_path_live t u x live path p =
    rw (live, path)
      (elim (Bool-cases (is_live x)) [ inl e ↦ rw e (omega arith) | inr e ↦ rw e (omega arith) ])

-- A task is taken off the queue, and is neither queued nor active then.
module _ (s : QueueState) (id : TaskId) (t : Task) (rest : List Task) (x : TaskState)
    (h : IsPlaced s) (taken : take_task id s.queue ≡ some (t, rest)) (idle : is_queued x ≡ false)
    (still : is_active x ≡ false) where
  pub left_queue :
      (occupied : List Text)
      → Owned (Map.insert id (record t { state = x }) s.all) occupied
      → IsPlaced (record s {
        queue = rest;
        all = Map.insert id (record t { state = x }) s.all;
        occupied = occupied;
      })
  left_queue occupied own =
      let (known, split) = take_task-copies id s.queue t rest taken in
      let (u, g, q, path, gone) = queued_once s id t rest h known split in
      let (not_active, live) = queued_else u.state q in
      entered s _ id (record t { state = x }) h refl known
        (λ j p e.
          let other : (t.id == j) ≡ false = ground arith in
          let none_of : one_if (is_for j p t) ≡ 0 = rw other refl in
          (omega (arith, split j p), refl))
        (λ p.
          let at_rest : located id p s ≡ shows is_active p (some u) = rw g at (h.running id p) in
          (rw idle (gone p), rw still (rw not_active at at_rest)))
        h.active_keyed own

  pub paused_queue : Owned (Map.insert id (record t { state = x }) s.all) s.occupied
  paused_queue =
      let (known, split) = take_task-copies id s.queue t rest taken in
      let (u, g, q, path, gone) = queued_once s id t rest h known split in
      Owned-kept s.all s.occupied id u (record t { state = x }) g
        (same_path_live t u x (queued_else u.state q).1 path) h.owned

  pub freed_queue :
      is_live x ≡ false
      → Owned (Map.insert id (record t { state = x }) s.all) (without s.occupied t.output_path)
  freed_queue dead =
      let (known, split) = take_task-copies id s.queue t rest taken in
      let (u, g, q, path, gone) = queued_once s id t rest h known split in
      Owned-freed s.all s.occupied id u (record t { state = x }) t.output_path g
        (queued_else u.state q).1 dead path h.owned

-- A task that runs is taken out of `active`, and `v` is entered for it.
module _ (s : QueueState) (id : TaskId) (t v : Task) (h : IsPlaced s)
    (runs : Map.get id s.active ≡ some t) (own : v.id ≡ id) (idle : is_queued v.state ≡ false)
    (still : is_active v.state ≡ false) where
  pub ran :
      (u : Task) × (Map.get id s.all ≡ some u)
      × (is_active u.state ≡ true)
      × (u.output_path ≡ t.output_path)
  ran =
      let there : entry t.output_path (Map.get id s.active) ≡ 1 =
        rw (runs, same_text_refl t.output_path) refl in
      active_once s id t.output_path h (omega (arith, there))

  nowhere : (p : Text) → held id p s.spawning ≡ 0
  nowhere p =
      let (u, g, a, path) = ran in
      let all_of : located id p s ≡ shows is_active p (some u) = rw g at (h.running id p) in
      let whole : one_if (same_text t.output_path p) + held id p s.spawning
          ≡ one_if (same_text t.output_path p) =
        rw (runs, a, path) at all_of in
      omega arith

  pub left_active :
      (occupied pending : List Text)
      → Owned (Map.insert id v s.all) occupied
      → IsPlaced (record s {
        active = Map.remove id s.active;
        all = Map.insert id v s.all;
        occupied = occupied;
        pending_deletes = pending;
      })
  left_active occupied pending owned =
      let (u, g, a, path) = ran in
      let (_, unqueued, live) = active_else u.state a in
      entered s _ id v h refl own (λ j p e. (refl, rw (Map.get-remove id j s.active, e) refl))
        (λ p.
          let same : (id == id) ≡ true = ground arith in
          let at_rest : copies id p s.queue ≡ shows is_queued p (some u) =
            rw g at (h.waiting id p) in
          (
            rw idle (rw unqueued at at_rest),
            rw (Map.get-remove id id s.active, same, still) (omega (arith, nowhere p)),
          ))
        (Keyed-remove id s.active h.active_keyed) owned
