-- ===== src/Queue/Bound.antt =====
-- The table of the active tasks never has more entries than it may.
use simple_downloader.Prelude.{
  ℕ, ◌+◌, ◌≤◌, ◌<◌, ◌≡◌, refl, inl, inr, Bool, ◌||◌, List, [], ◌∷◌, Option, none, some, leb, length,
  Bool-cases, arith,
}
use simple_downloader.Prelude.Map
use simple_downloader.Prelude.Map.{Map}
use simple_downloader.Prelude.Text.{Text}
use simple_downloader.Task.{Task, TaskId}
use simple_downloader.Queue.{
  QueueState, with_max_concurrent, enqueue_at, holds_path, take_task, pause, pause_active,
  pause_queued, pause_other, resume, resume_task, cancel, cancel_active, cancel_queued,
  cancel_other,
}
use simple_downloader.Queue.Driver.{
  pump_pop, pop_front, pump_register, register, is_stopped, on_complete, settle,
  flush_pending_deletes, Step, enqueues, pauses, resumes, cancels, pops, registers, completes,
  flushes, or_same, apply, IsEnabled, Reachable, start, after,
}

length-remove {ℓ} : {V : Type ℓ} (k : ℕ) (m : Map V) → length (Map.remove k m) ≤ length m
unfolding Map.remove
length-remove k [] = omega arith
length-remove k ((j, v) ∷ m) = ground (arith, length-remove k m)

-- The entries of `active`, with the task that is being spawned.
abbrev pub taken_slots : QueueState → ℕ
taken_slots s = length s.active + (elim s.spawning [ none ↦ 0 | some t ↦ 1 ])

-- No more entries after than before, and the same limit.
abbrev NoMore : QueueState → QueueState → Type 0
NoMore s t = (taken_slots t ≤ taken_slots s) × (t.max ≡ s.max)

same_NoMore :
    (s t : QueueState) → t.active ≡ s.active → t.spawning ≡ s.spawning → t.max ≡ s.max → NoMore s t
same_NoMore s t a b c = (rw (a, b) (omega arith), c)

fewer_NoMore :
    (s t : QueueState) (id : TaskId)
    → t.active ≡ Map.remove id s.active
    → t.spawning ≡ s.spawning
    → t.max ≡ s.max
    → NoMore s t
fewer_NoMore s t id a b c = (rw (a, b) (omega (arith, length-remove id s.active)), c)

enqueue_at-NoMore :
    (d c : Bool) (id : TaskId) (url path : Text) (workers now : ℕ) (s : QueueState)
    → NoMore s (or_same s (enqueue_at d c id url path workers now s))
unfolding enqueue_at
enqueue_at-NoMore d c id url path workers now s =
    elim (Bool-cases (holds_path s.occupied path || d || c)) [
      | inl t ↦ rw t (same_NoMore s s refl refl refl)
      | inr t ↦ rw t (omega arith, refl)
    ]

pause_other-NoMore :
    (id : TaskId) (o : Option Task) (s : QueueState) → NoMore s (pause_other id o s).state
unfolding pause_other
pause_other-NoMore id none s = same_NoMore s s refl refl refl
pause_other-NoMore id (some t) s =
    same_NoMore s (pause_other id (some t) s).state (ground arith) (ground arith) (ground arith)

pause_queued-NoMore :
    (id : TaskId) (o : Option (Task × List Task)) (s : QueueState)
    → NoMore s (pause_queued id o s).state
unfolding pause_queued
pause_queued-NoMore id none s = pause_other-NoMore id (Map.get id s.all) s
pause_queued-NoMore id (some (t, rest)) s =
    same_NoMore s (pause_queued id (some (t, rest)) s).state refl refl refl

pause-NoMore :
    (id : TaskId) (o : Option Task) (s : QueueState) → NoMore s (pause_active id o s).state
unfolding pause_active
pause-NoMore id none s = pause_queued-NoMore id (take_task id s.queue) s
pause-NoMore id (some t) s = fewer_NoMore s (pause_active id (some t) s).state id refl refl refl

resume-NoMore :
    (id : TaskId) (o : Option Task) (s : QueueState) → NoMore s (resume_task id o s).state
unfolding resume_task
resume-NoMore id none s = same_NoMore s s refl refl refl
resume-NoMore id (some t) s =
    same_NoMore s (resume_task id (some t) s).state (ground arith) (ground arith) (ground arith)

cancel_other-NoMore :
    (id : TaskId) (o : Option Task) (s : QueueState) → NoMore s (cancel_other id o s).state
unfolding cancel_other
cancel_other-NoMore id none s = same_NoMore s s refl refl refl
cancel_other-NoMore id (some t) s =
    same_NoMore s (cancel_other id (some t) s).state (ground arith) (ground arith) (ground arith)

cancel_queued-NoMore :
    (id : TaskId) (o : Option (Task × List Task)) (s : QueueState)
    → NoMore s (cancel_queued id o s).state
unfolding cancel_queued
cancel_queued-NoMore id none s = cancel_other-NoMore id (Map.get id s.all) s
cancel_queued-NoMore id (some (t, rest)) s =
    same_NoMore s (cancel_queued id (some (t, rest)) s).state refl refl refl

cancel-NoMore :
    (id : TaskId) (o : Option Task) (s : QueueState) → NoMore s (cancel_active id o s).state
unfolding cancel_active
cancel-NoMore id none s = cancel_queued-NoMore id (take_task id s.queue) s
cancel-NoMore id (some t) s = fewer_NoMore s (cancel_active id (some t) s).state id refl refl refl

settle-NoMore :
    (id : TaskId) (error : Option Text) (o : Option Task) (s : QueueState)
    → NoMore s (settle id error o s)
settle-NoMore id error none s = same_NoMore s s refl refl refl
settle-NoMore id error (some t) s =
    same_NoMore s (settle id error (some t) s) (ground arith) (ground arith) (ground arith)

-- The limit holds.
abbrev Bounded : QueueState → Type 0
Bounded s = (taken_slots s ≤ s.max) × (1 ≤ s.max) × (s.max ≤ 64)

NoMore-Bounded : (s t : QueueState) → NoMore s t → Bounded s → Bounded t
NoMore-Bounded s t (n, e) b = (omega arith, omega arith, omega arith)

pop_front-Bounded :
    (queue : List Task) (s : QueueState)
    → s.spawning ≡ none
    → length s.active < s.max
    → Bounded s
    → Bounded (pop_front queue s)
pop_front-Bounded [] s e h b = b
pop_front-Bounded (t ∷ queue) s e h b = (omega arith, b.1, b.2)

register-Bounded :
    (o : Option Task) (s : QueueState) → s.spawning ≡ o → Bounded s → Bounded (register o s)
register-Bounded none s e b = b
register-Bounded (some t) s e b =
    let one : 1 + length s.active ≤ s.max = omega (arith, rw e at b.0) in
    elim (Bool-cases (is_stopped (Map.get t.id s.all))) [
      | inl u ↦ rw u (omega arith, b.1, b.2)
      | inr u ↦ rw u (unfold Map.insert in omega (arith, length-remove t.id s.active), b.1, b.2)
    ]

apply-Bounded :
    (step : Step) (s : QueueState) → IsEnabled step s → Bounded s → Bounded (apply step s)
unfolding apply
apply-Bounded (enqueues d c id url path workers now) s ok b =
    NoMore-Bounded s (or_same s (enqueue_at d c id url path workers now s))
      (enqueue_at-NoMore d c id url path workers now s) b
apply-Bounded (pauses id) s ok b =
    NoMore-Bounded s (pause id s).state (unfold pause in pause-NoMore id (Map.get id s.active) s) b
apply-Bounded (resumes id) s ok b =
    NoMore-Bounded s (resume id s).state (unfold resume in resume-NoMore id (Map.get id s.all) s) b
apply-Bounded (cancels id) s ok b =
    NoMore-Bounded s (cancel id s).state (unfold cancel in cancel-NoMore id (Map.get id s.active) s)
      b
apply-Bounded pops s ok b = elim (Bool-cases (leb s.max (length s.active))) [
  | inl t ↦ unfold pump_pop in rw t b
  | inr t ↦ unfold pump_pop in rw t (pop_front-Bounded s.queue s ok (ground arith) b)
]
apply-Bounded registers s ok b = unfold pump_register in register-Bounded s.spawning s refl b
apply-Bounded (completes id error) s ok b =
    let left = record s { active = Map.remove id s.active } in
    unfold on_complete in
    NoMore-Bounded left (settle id error (Map.get id s.all) left)
      (settle-NoMore id error (Map.get id s.all) left)
      (NoMore-Bounded s left (fewer_NoMore s left id refl refl refl) b)
apply-Bounded (flushes gone) s ok b =
    NoMore-Bounded s (flush_pending_deletes gone s)
      (unfold flush_pending_deletes in same_NoMore s (flush_pending_deletes gone s) refl refl refl)
      b

-- In any interleaving of the queue's methods with the driver's steps, the entries of `active`, with
-- the task that is being spawned, are at most `max`, which is between 1 and 64.
pub taken_slots-Bounded :
    (s : QueueState) → Reachable s → (taken_slots s ≤ s.max) × (1 ≤ s.max) × (s.max ≤ 64)
taken_slots-Bounded s (start n) =
    unfold with_max_concurrent in (omega arith, omega arith, omega arith)
taken_slots-Bounded s (after step t ok r) = apply-Bounded step t ok (taken_slots-Bounded t r)
