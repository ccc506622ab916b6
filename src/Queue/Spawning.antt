-- ===== src/Queue/Spawning.antt =====
-- The driver takes the first task of the queue, and enters it in `active`.
use simple_downloader.Prelude.{
  ◌+◌, ◌≡◌, refl, sym, inl, inr, true, false, List, [], ◌∷◌, Option, none, some, ◌==◌, Bool-cases,
  arith,
}
use simple_downloader.Prelude.Map
use simple_downloader.Prelude.Map.{Map}
use simple_downloader.Prelude.Text.{Text}
use simple_downloader.Task.{Task, TaskId, active}
use simple_downloader.Queue.{QueueState, same_text}
use simple_downloader.Queue.Driver.{pop_front, register, is_stopped}
use simple_downloader.Queue.Places.{
  same_text_refl, one_if, is_for, copies, entry, held, is_active, shows, queued_else, active_else,
  Keyed-insert,
}
use simple_downloader.Queue.Placed.{
  located, IsPlaced, Owned-kept, entered, queued_once, active_once,
}
use simple_downloader.Queue.Leaving.{same_path_live}

-- The driver takes the first task off the queue.
popped :
    (s : QueueState) (t : Task) (rest : List Task)
    → s.queue ≡ t ∷ rest
    → s.spawning ≡ none
    → IsPlaced s
    → IsPlaced (record s {
      queue = rest;
      all = Map.insert t.id (record t { state = active }) s.all;
      spawning = some (record t { state = active });
    })
popped s t rest first free h =
    let v = record t { state = active } in
    let split : (j : TaskId) (p : Text)
        → copies j p s.queue ≡ one_if (is_for j p t) + copies j p rest =
      λ j p. rw first refl in
    let (u, g, q, path, gone) = queued_once s t.id t rest h refl split in
    let (resting, live) = queued_else u.state q in
    entered s _ t.id v h refl refl
      (λ j p e.
        let none_of : one_if (is_for j p t) ≡ 0 = rw e refl in
        let held_none : held j p s.spawning ≡ 0 = rw free refl in
        (omega (arith, split j p), omega arith))
      (λ p.
        let same : (t.id == t.id) ≡ true = ground arith in
        let at_rest : located t.id p s ≡ shows is_active p (some u) = rw g at (h.running t.id p) in
        let none_of : shows is_active p (some u) ≡ 0 = rw resting refl in
        let one : held t.id p (some v) ≡ one_if (same_text t.output_path p) = rw same refl in
        (gone p, omega arith))
      h.active_keyed
      (Owned-kept s.all s.occupied t.id u v g (same_path_live t u active live path) h.owned)

pub pop_front-IsPlaced :
    (queue : List Task) (s : QueueState)
    → s.queue ≡ queue
    → s.spawning ≡ none
    → IsPlaced s
    → IsPlaced (pop_front queue s)
pop_front-IsPlaced [] s first free h = h
pop_front-IsPlaced (t ∷ rest) s first free h = popped s t rest first free h

-- The task that the driver holds is active in `all`, and not in the table.
pub active_held :
    (s : QueueState) (t : Task)
    → s.spawning ≡ some t
    → IsPlaced s
    → (u : Task) × (Map.get t.id s.all ≡ some u)
      × (is_active u.state ≡ true)
      × (u.output_path ≡ t.output_path)
active_held s t e h =
    let same : (t.id == t.id) ≡ true = ground arith in
    let one : held t.id t.output_path s.spawning ≡ 1 =
      rw (e, same, same_text_refl t.output_path) refl in
    active_once s t.id t.output_path h (omega (arith, one))

pub spawned :
    (s : QueueState) (t : Task)
    → s.spawning ≡ some t
    → IsPlaced s
    → (p : Text)
    → (entry p (Map.get t.id s.active) ≡ 0)
      × (held t.id p s.spawning ≡ one_if (same_text t.output_path p))
spawned s t e h p =
    let (u, g, a, path) = active_held s t e h in
    let same : (t.id == t.id) ≡ true = ground arith in
    let at_rest : located t.id p s ≡ shows is_active p (some u) = rw g at (h.running t.id p) in
    let shown : shows is_active p (some u) ≡ one_if (same_text t.output_path p) =
      rw (a, path) refl in
    let one : held t.id p s.spawning ≡ one_if (same_text t.output_path p) = rw (e, same) refl in
    (omega arith, one)

-- The driver enters the task that it has taken.
registered :
    (s : QueueState) (t : Task)
    → s.spawning ≡ some t
    → IsPlaced s
    → IsPlaced (record s { active = Map.insert t.id t s.active; spawning = none })
registered s t at_once h = record {
  all_keyed = h.all_keyed;
  active_keyed = Keyed-insert t.id t s.active refl h.active_keyed;
  waiting = h.waiting;
  running = λ j p. rw (Map.get-insert t.id j t s.active) (elim (Bool-cases (t.id == j)) [
    | inl e ↦
        let at_id : t.id ≡ j = ground arith in
        rw (e, sym at_id) (omega (arith, spawned s t at_once h p, h.running t.id p))
    | inr e ↦
        let none_of : held j p s.spawning ≡ 0 = rw (at_once, e) refl in
        rw e (omega (arith, h.running j p))
  ]);
  owned = h.owned;
}

pub register-IsPlaced :
    (o : Option Task) (s : QueueState) → s.spawning ≡ o → IsPlaced s → IsPlaced (register o s)
register-IsPlaced none s e h = h
register-IsPlaced (some t) s e h =
    let (u, g, a, path) = active_held s t e h in
    let goes_on : is_stopped (Map.get t.id s.all) ≡ false =
      rw (g, is_stopped, (active_else u.state a).0) refl in
    rw goes_on (registered s t e h)
