-- ===== src/Queue/Running.antt =====
-- The downloads of the queue that run are at most as many as it may have.
use simple_downloader.Prelude.{
  ℕ, ◌+◌, ◌≤◌, ◌≡◌, refl, sym, inl, inr, Bool, ◌||◌, List, [], ◌∷◌, Option, none, some, ◌==◌,
  length, leb, Bool-cases, Option-cases, arith,
}
use simple_downloader.Prelude.Map
use simple_downloader.Prelude.Map.{Map}
use simple_downloader.Prelude.Text.{Text}
use simple_downloader.Task.{Task, TaskId}
use simple_downloader.Queue.{
  QueueState, QueueEffect, enqueue_at, holds_path, take_task, pause, pause_active, pause_queued,
  pause_other, resume, resume_task, cancel, cancel_active, cancel_queued, cancel_other,
}
use simple_downloader.Queue.Driver.{
  Step, enqueues, pauses, resumes, cancels, pops, registers, completes, flushes, or_same, apply,
  pump_pop, pop_front, pump_register, register, is_stopped, on_complete, settle,
  flush_pending_deletes, Reachable, start, after,
}
use simple_downloader.Queue.Bound.{taken_slots-Bounded}
use simple_downloader.Queue.Placed.{IsPlaced}
use simple_downloader.Queue.Window.{inactive}
use simple_downloader.Queue.Unique.{Orderly, fresh, next, Orderly-IsPlaced}
use simple_downloader.Queue.Jobs.{
  without_id, aborted, spawned_job, jobs_after, count, IsLast, Works, idle, steps, ends, one_of,
  has, count-without_id, length-has,
}

-- Each download that runs has an entry of its own in `active`.
abbrev Entered : Map Task → List TaskId → Type 0
Entered m jobs = (id : TaskId) → count id jobs ≤ has id m

removed-Entered :
    (id : TaskId) (m : Map Task) (jobs : List TaskId)
    → Entered m jobs
    → Entered (Map.remove id m) (without_id id jobs)
removed-Entered id m jobs h j =
    rw (count-without_id id j jobs, Map.get-remove id j m)
      (elim (Bool-cases (id == j)) [ inl e ↦ rw e (omega arith) | inr e ↦ rw e (h j) ])

ended-Entered :
    (id : TaskId) (m : Map Task) (jobs : List TaskId)
    → Entered m jobs
    → Entered m (without_id id jobs)
ended-Entered id m jobs h j =
    rw (count-without_id id j jobs)
      (elim (Bool-cases (id == j)) [ inl e ↦ rw e (omega arith) | inr e ↦ rw e (h j) ])

-- What a method leaves alone: the entries, and the downloads.
abbrev Leaves : QueueState → QueueState → List QueueEffect → Type 0
Leaves s t fx = (t.active ≡ s.active) × ((jobs : List TaskId) → aborted fx jobs ≡ jobs)

pause_queued-Leaves :
    (id : TaskId) (o : Option (Task × List Task)) (s : QueueState)
    → Leaves s (pause_queued id o s).state (pause_queued id o s).effects
unfolding pause_queued pause_other
pause_queued-Leaves id (some (t, rest)) s = (refl, λ jobs. refl)
pause_queued-Leaves id none s = elim (Option-cases (Map.get id s.all)) [
  | inl e ↦ rw e (refl, λ jobs. refl)
  | inr (t, e) ↦ rw e (ground arith, λ jobs. ground arith)
]

cancel_queued-Leaves :
    (id : TaskId) (o : Option (Task × List Task)) (s : QueueState)
    → Leaves s (cancel_queued id o s).state (cancel_queued id o s).effects
unfolding cancel_queued cancel_other
cancel_queued-Leaves id (some (t, rest)) s = (refl, λ jobs. refl)
cancel_queued-Leaves id none s = elim (Option-cases (Map.get id s.all)) [
  | inl e ↦ rw e (refl, λ jobs. refl)
  | inr (t, e) ↦ rw e (ground arith, λ jobs. ground arith)
]

pause-Entered :
    (id : TaskId) (o : Option Task) (s : QueueState) (jobs : List TaskId)
    → Entered s.active jobs
    → Entered (pause_active id o s).state.active (aborted (pause_active id o s).effects jobs)
unfolding pause_active
pause-Entered id (some t) s jobs h = removed-Entered id s.active jobs h
pause-Entered id none s jobs h =
    let (same, kept) = pause_queued-Leaves id (take_task id s.queue) s in rw (same, kept jobs) h

cancel-Entered :
    (id : TaskId) (o : Option Task) (s : QueueState) (jobs : List TaskId)
    → Entered s.active jobs
    → Entered (cancel_active id o s).state.active (aborted (cancel_active id o s).effects jobs)
unfolding cancel_active
cancel-Entered id (some t) s jobs h = removed-Entered id s.active jobs h
cancel-Entered id none s jobs h =
    let (same, kept) = cancel_queued-Leaves id (take_task id s.queue) s in rw (same, kept jobs) h

enqueue_at-active :
    (d c : Bool) (id : TaskId) (url path : Text) (workers now : ℕ) (s : QueueState)
    → (or_same s (enqueue_at d c id url path workers now s)).active ≡ s.active
unfolding enqueue_at
enqueue_at-active d c id url path workers now s =
    elim (Bool-cases (holds_path s.occupied path || d || c)) [
      | inl e ↦ rw e refl
      | inr e ↦ rw e refl
    ]

resume_task-active :
    (id : TaskId) (o : Option Task) (s : QueueState) → (resume_task id o s).state.active ≡ s.active
unfolding resume_task
resume_task-active id none s = refl
resume_task-active id (some t) s = ground arith

pump_pop-active : (s : QueueState) → (pump_pop s).active ≡ s.active
unfolding pump_pop
pump_pop-active s = elim (Bool-cases (leb s.max (length s.active))) [
  | inl e ↦ rw e refl
  | inr e ↦ rw e (front s.queue)
]
  where
    front : (queue : List Task) → (pop_front queue s).active ≡ s.active
    front [] = refl
    front (t ∷ queue) = refl

settle-active :
    (id : TaskId) (error : Option Text) (o : Option Task) (s : QueueState)
    → (settle id error o s).active ≡ s.active
settle-active id error none s = refl
settle-active id error (some t) s = ground arith

-- The download that is spawned is the only one of its task.
register-Entered :
    (o : Option Task) (s : QueueState) (jobs : List TaskId)
    → s.spawning ≡ o
    → IsPlaced s
    → Entered s.active jobs
    → Entered (register o s).active (spawned_job o s.all jobs)
register-Entered none s jobs e placed h = h
register-Entered (some t) s jobs e placed h = elim (Bool-cases (is_stopped (Map.get t.id s.all))) [
  | inl f ↦ rw f h
  | inr f ↦
      let first : count t.id jobs ≤ 0 = rw (has, inactive s t e placed) at (h t.id) in
      rw f λ j. rw (Map.get-insert t.id j t s.active) (elim (Bool-cases (t.id == j)) [
        | inl g ↦
            let same : t.id ≡ j = ground arith in
            let none_of : count j jobs ≤ 0 = rw same at first in rw g (omega (arith, none_of))
        | inr g ↦ rw g (omega (arith, h j))
      ])
]

-- An end that is heard is not that of a download that runs.
on_complete-Entered :
    (id : TaskId) (error : Option Text) (s : QueueState) (jobs : List TaskId)
    → count id jobs ≡ 0
    → Entered s.active jobs
    → Entered (on_complete id error s).active jobs
unfolding on_complete
on_complete-Entered id error s jobs last h j =
    rw
      (
        settle-active id error (Map.get id s.all) (record s { active = Map.remove id s.active }),
        Map.get-remove id j s.active,
      )
      (elim (Bool-cases (id == j)) [
        | inl e ↦ let same : id ≡ j = ground arith in rw (e, sym same) (omega arith)
        | inr e ↦ rw e (h j)
      ])

apply-Entered :
    (step : Step) (s : QueueState) (jobs : List TaskId)
    → IsLast step jobs
    → IsPlaced s
    → Entered s.active jobs
    → Entered (apply step s).active (jobs_after step s jobs)
unfolding apply jobs_after
apply-Entered (enqueues d c id url path workers now) s jobs last placed h =
    rw (enqueue_at-active d c id url path workers now s) h
apply-Entered (pauses id) s jobs last placed h =
    unfold pause in pause-Entered id (Map.get id s.active) s jobs h
apply-Entered (resumes id) s jobs last placed h =
    unfold resume in rw (resume_task-active id (Map.get id s.all) s) h
apply-Entered (cancels id) s jobs last placed h =
    unfold cancel in cancel-Entered id (Map.get id s.active) s jobs h
apply-Entered pops s jobs last placed h = rw (pump_pop-active s) h
apply-Entered registers s jobs last placed h =
    unfold pump_register in register-Entered s.spawning s jobs refl placed h
apply-Entered (completes id error) s jobs last placed h = on_complete-Entered id error s jobs last h
apply-Entered (flushes gone) s jobs last placed h = unfold flush_pending_deletes in h

Works-Orderly : (s : QueueState) (jobs : List TaskId) → Works s jobs → Orderly s
Works-Orderly s jobs (idle n) = fresh n
Works-Orderly s jobs (steps step t js ok o last w) = next step t ok o (Works-Orderly t js w)
Works-Orderly s jobs (ends id t js w) = Works-Orderly t js w

Orderly-Reachable : (s : QueueState) → Orderly s → Reachable s
Orderly-Reachable s (fresh n) = start n
Orderly-Reachable s (next step t ok o r) = after step t ok (Orderly-Reachable t r)

Works-Entered : (s : QueueState) (jobs : List TaskId) → Works s jobs → Entered s.active jobs
Works-Entered s jobs (idle n) = λ id. omega arith
Works-Entered s jobs (steps step t js ok o last w) =
    apply-Entered step t js last (Orderly-IsPlaced t (Works-Orderly t js w)) (Works-Entered t js w)
Works-Entered s jobs (ends id t js w) = ended-Entered id t.active js (Works-Entered t js w)

within :
    (o : Option Task) (a b max : ℕ)
    → a ≤ b
    → b + (elim o [ none ↦ 0 | some t ↦ 1 ]) ≤ max
    → a + one_of o ≤ max
within none a b max h k = omega arith
within (some t) a b max h k = omega arith

-- In any interleaving of the queue's methods, the driver's steps and the ends of downloads in which
-- the id of a new task is new, no task is cancelled that has completed or failed, only downloads in
-- `active` end, and no end is heard of an earlier download of a task that runs again: the downloads
-- that run have each an entry in `active`, and with the one that is being spawned they are at most
-- `max`, which is between 1 and 64.
pub jobs-Works :
    (s : QueueState) (jobs : List TaskId)
    → Works s jobs
    → (length jobs ≤ length s.active)
      × (length jobs + one_of s.spawning ≤ s.max)
      × (1 ≤ s.max)
      × (s.max ≤ 64)
jobs-Works s jobs w =
    let (bound, low, high) = taken_slots-Bounded s (Orderly-Reachable s (Works-Orderly s jobs w)) in
    let less = length-has s.active jobs (Works-Entered s jobs w) in
    (less, within s.spawning (length jobs) (length s.active) s.max less bound, low, high)
