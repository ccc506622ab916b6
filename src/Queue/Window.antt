-- ===== src/Queue/Window.antt =====
-- Between its two locks the driver holds a task that the methods of the queue do not find.
use simple_downloader.Prelude.{
  ◌≡◌, refl, inl, inr, true, false, List, [], Option, none, some, ◌==◌, Option-cases, arith,
}
use simple_downloader.Prelude.Map
use simple_downloader.Prelude.Map.{Map, get-insert}
use simple_downloader.Prelude.Text.{Text, codes}
use simple_downloader.Task.{Task, TaskId, active, as_str}
use simple_downloader.Queue.{
  QueueState, invalid_state, Reply, take_task, pause, pause_active, pause_queued, pause_other,
  cancel, cancel_active, cancel_queued, cancel_other,
}
use simple_downloader.Queue.Driver.{pump_register, is_stopped}
use simple_downloader.Queue.Places.{
  same_text_refl, one_if, is_for, copies, entry, active_else, take_task-copies,
}
use simple_downloader.Queue.Placed.{IsPlaced}
use simple_downloader.Queue.Spawning.{active_held, spawned}
use simple_downloader.Queue.Unique.{Orderly, Orderly-IsPlaced}

-- The reply refuses, with the state that `all` shows, and changes nothing.
abbrev pub Refused : QueueState → Reply → Type 0
Refused s r =
    (r.state ≡ s)
    × (r.effects ≡ [])
    × ((id : TaskId) × (expected : Text) × (r.result
          ≡ some (invalid_state id expected (codes "Active"))))

-- A table in which a task has no entry with any path does not have it.
no_entry : (o : Option Task) → ((p : Text) → entry p o ≡ 0) → o ≡ none
no_entry none h = refl
no_entry (some t) h =
    let one : entry t.output_path (some t) ≡ 1 = rw (same_text_refl t.output_path) refl in
    absurd (omega (arith, h t.output_path, one))

not_taken :
    (id : TaskId) (queue : List Task)
    → ((p : Text) → copies id p queue ≡ 0)
    → take_task id queue ≡ none
not_taken id queue h = elim (Option-cases (take_task id queue)) [
  | inl e ↦ e
  | inr ((t, rest), e) ↦
      let (known, split) = take_task-copies id queue t rest e in
      let is_it : (t.id == id) ≡ true = ground arith in
      let one : one_if (is_for id t.output_path t) ≡ 1 =
        rw (is_it, same_text_refl t.output_path) refl in
      absurd (omega (arith, h t.output_path, split id t.output_path, one))
]

module _ (s : QueueState) (t : Task) (taken : s.spawning ≡ some t) (h : IsPlaced s) where
  known : (u : Task) × (Map.get t.id s.all ≡ some u) × (u.state ≡ active)
  known = let (u, g, a, path) = active_held s t taken h in (u, g, (active_else u.state a).0)

  pub inactive : Map.get t.id s.active ≡ none
  inactive = no_entry (Map.get t.id s.active) (λ p. (spawned s t taken h p).0)

  unqueued : take_task t.id s.queue ≡ none
  unqueued = not_taken t.id s.queue λ p. let (u, g, is) = known in rw (g, is) at (h.waiting t.id p)

  pause-Refused : Refused s (pause t.id s)
  unfolding pause pause_active pause_queued pause_other as_str
  pause-Refused =
      let (u, g, is) = known in
      rw (inactive, unqueued, g, pause_other, is) (refl, refl, (t.id, codes "Queued/Active", refl))

  cancel-Refused : Refused s (cancel t.id s)
  unfolding cancel cancel_active cancel_queued cancel_other as_str
  cancel-Refused =
      let (u, g, is) = known in
      rw (inactive, unqueued, g, cancel_other, is)
        (refl, refl, (t.id, codes "Queued/Active/Paused/Completed/Failed", refl))

  entered : Map.get t.id (pump_register s).active ≡ some t
  unfolding pump_register
  entered =
      let (u, g, is) = known in
      let same : (t.id == t.id) ≡ true = ground arith in
      let goes_on : is_stopped (Map.get t.id s.all) ≡ false = rw (g, is_stopped, is) refl in
      rw (taken, goes_on, get-insert t.id t.id t s.active, same) refl

-- In any interleaving as for the unique paths (new tasks have new ids, no task is cancelled that has
-- completed or failed, and only downloads in `active` end): while the driver holds a task between its
-- two locks, a pause or a cancel of it is refused as "Active" and changes nothing, so that the
-- driver's check for such a stop never applies; its second lock enters the task in `active`.
pub register-Orderly :
    (s : QueueState) (t : Task)
    → Orderly s
    → s.spawning ≡ some t
    → Refused s (pause t.id s)
      × Refused s (cancel t.id s)
      × (is_stopped (Map.get t.id s.all) ≡ false)
      × (Map.get t.id (pump_register s).active ≡ some t)
register-Orderly s t r taken =
    let h = Orderly-IsPlaced s r in
    let (u, g, is) = known s t taken h in
    (
      pause-Refused s t taken h,
      cancel-Refused s t taken h,
      rw (g, is_stopped, is) refl,
      entered s t taken h,
    )
