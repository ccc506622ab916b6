-- ===== src/Queue/Driver.antt =====
-- The driver of the queue in src/queue.rs: `pump`, `on_complete` and `flush_pending_deletes`; and the
-- interleavings of its steps with the methods of the queue.
use simple_downloader.Prelude.{
  ℕ, ◌≡◌, Bool, true, false, not, List, [], ◌∷◌, Option, none, some, leb, if◌then◌else◌, length,
  keep,
}
use simple_downloader.Prelude.Map
use simple_downloader.Prelude.Text.{Text}
use simple_downloader.Task.{Task, TaskId, TaskState, active, paused, completed, removed, failed}
use simple_downloader.Queue.{
  QueueState, with_max_concurrent, enqueue_at, pause, resume, cancel, without,
}

abbrev pub pop_front : List Task → QueueState → QueueState
pop_front [] s = s
pop_front (t ∷ queue) s =
    let started = record t { state = active } in
    record s { queue = queue; all = Map.insert t.id started s.all; spawning = some started }

-- The first lock of a turn of `pump`: a full table or an empty queue ends the loop.
unfoldable pub pump_pop : QueueState → QueueState
pump_pop s = if leb s.max (length s.active) then s else pop_front s.queue s

-- Was the task cancelled or paused while its download was spawned?
abbrev pub is_stopped : Option Task → Bool
is_stopped none = false
is_stopped (some t) = elim t.state [ removed ↦ true | paused ↦ true | other ↦ false ]

abbrev pub register : Option Task → QueueState → QueueState
register none s = s
register (some t) s =
    if is_stopped (Map.get t.id s.all)
    then record s { spawning = none }
    else record s { active = Map.insert t.id t s.active; spawning = none }

-- The second lock: the task that was spawned is entered in `active`.
unfoldable pub pump_register : QueueState → QueueState
pump_register s = register s.spawning s

-- The state of a task whose download has ended, with an error or without.
unfoldable pub ended : Option Text → TaskState → TaskState
ended none active = completed
ended none other = other
ended (some error) removed = removed
ended (some error) paused = paused
ended (some error) other = failed error

abbrev pub is_over : TaskState → Bool
is_over completed = true
is_over (failed error) = true
is_over other = false

abbrev pub settle : TaskId → Option Text → Option Task → QueueState → QueueState
settle id error none s = s
settle id error (some t) s =
    let state = ended error t.state in
    let entered = record s { all = Map.insert id (record t { state = state }) s.all } in
    if is_over state
    then record entered { occupied = without s.occupied t.output_path }
    else entered

unfoldable pub on_complete : TaskId → Option Text → QueueState → QueueState
unfolding ended
on_complete id error s =
    settle id error (Map.get id s.all) (record s { active = Map.remove id s.active })

-- `gone` says of which paths the file and its sidecar could be deleted.
unfoldable pub flush_pending_deletes : (Text → Bool) → QueueState → QueueState
flush_pending_deletes gone s = record s {
  pending_deletes = keep (λ p. not (gone p)) s.pending_deletes;
}

-- A step under the lock. A conflict of `enqueue` changes nothing.
pub data Step : Type 0 where
  enqueues :
      (disk_exists sidecar_exists : Bool) (id : TaskId) (url path : Text) (workers now : ℕ) → Step
  pauses resumes cancels : TaskId → Step
  pops registers : Step
  completes : TaskId → Option Text → Step
  flushes : (Text → Bool) → Step

abbrev pub or_same : QueueState → Option QueueState → QueueState
or_same s none = s
or_same s (some t) = t

unfoldable pub apply : Step → QueueState → QueueState
unfolding enqueue_at pause resume cancel pump_pop pump_register on_complete flush_pending_deletes
apply (enqueues disk_exists sidecar_exists id url path workers now) s =
    or_same s (enqueue_at disk_exists sidecar_exists id url path workers now s)
apply (pauses id) s = (pause id s).state
apply (resumes id) s = (resume id s).state
apply (cancels id) s = (cancel id s).state
apply pops s = pump_pop s
apply registers s = pump_register s
apply (completes id error) s = on_complete id error s
apply (flushes gone) s = flush_pending_deletes gone s

-- The driver is one task: it takes no task, and hears of no end, before it has entered the last one.
abbrev pub IsEnabled : Step → QueueState → Type 0
IsEnabled pops s = s.spawning ≡ none
IsEnabled (completes id error) s = s.spawning ≡ none
IsEnabled (flushes gone) s = s.spawning ≡ none
IsEnabled other s = Unit

-- The states that any interleaving of the steps leads to.
pub data Reachable : QueueState → Type 0 where
  start : (n : ℕ) → Reachable (with_max_concurrent n)
  after : (step : Step) (s : QueueState) → IsEnabled step s → Reachable s → Reachable (apply step s)
