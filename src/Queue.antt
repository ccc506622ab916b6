-- ===== src/Queue.antt =====
-- src/queue.rs: the queue of tasks. Each part of a method that holds the lock is one step. The driver
-- takes a task from the queue in one step and enters it in `active` in another; `spawning` is the
-- task in between. Paths are compared as on systems other than Windows; the notification of
-- waiters is left out. The path that `resolve_rename` chooses comes as an argument; the choice
-- stands in Rename.
pub mod Driver
pub mod Bound
pub mod Jobs
pub mod Window
pub mod Running
pub mod Places
pub mod Placed
pub mod Leaving
pub mod Entering
pub mod Spawning
pub mod Rename
pub mod Free
pub mod Suffix
pub mod Methods
pub mod Unique
pub mod Query
mod Tests
use simple_downloader.Prelude.{
  ℕ, min, max, Bool, true, false, ◌&&◌, ◌||◌, not, List, [], ◌∷◌, ◌++◌, Option, none, some, leb,
  ◌==◌, if◌then◌else◌, length, keep,
}
use simple_downloader.Prelude.Map
use simple_downloader.Prelude.Map.{Map}
use simple_downloader.Prelude.Text.{Text, codes}
use simple_downloader.Task
use simple_downloader.Task.{
  Task, TaskId, TaskState, queued, active, paused, completed, removed, failed, as_str,
}

pub record QueueState : Type 0 where
  pub queue : List Task
  pub active : Map Task
  pub all : Map Task
  pub max : ℕ
  pub occupied : List Text
  pub pending_deletes : List Text
  pub spawning : Option Task

pub data QueueError : Type 0 where
  not_found : TaskId → QueueError
  invalid_state : TaskId → (expected got : Text) → QueueError
  io : Text → QueueError

-- What a method does besides changing the state: it aborts a download, deletes a file with its
-- sidecar, or asks the driver for a pump.
pub data QueueEffect : Type 0 where
  abort : TaskId → QueueEffect
  delete : Text → QueueEffect
  pump : QueueEffect

-- The result is the error, if any.
pub record Reply : Type 0 where
  pub state : QueueState
  pub result : Option QueueError
  pub effects : List QueueEffect

unfoldable pub with_max_concurrent : ℕ → QueueState
with_max_concurrent n = record {
  queue = [];
  active = Map.empty;
  all = Map.empty;
  max = min (max n 1) 64;
  occupied = [];
  pending_deletes = [];
  spawning = none;
}

abbrev pub same_text : Text → Text → Bool
same_text [] [] = true
same_text [] (d ∷ t) = false
same_text (c ∷ s) [] = false
same_text (c ∷ s) (d ∷ t) = c == d && same_text s t

abbrev pub holds_path : List Text → Text → Bool
holds_path [] p = false
holds_path (q ∷ paths) p = same_text q p || holds_path paths p

abbrev pub without : List Text → Text → List Text
without paths p = keep (λ q. not (same_text q p)) paths

-- One turn of the loop of `enqueue_with_workers`: none is a conflict. The two flags say if the file
-- or its sidecar exists. The pump that is asked for behind the loop can come at any time.
unfoldable pub enqueue_at :
    Bool → Bool → TaskId → Text → Text → ℕ → ℕ → QueueState → Option QueueState
enqueue_at disk_exists sidecar_exists id url path workers now s =
    let task = Task.new id url path (max workers 1) now in
    if holds_path s.occupied path || disk_exists || sidecar_exists
    then none
    else some (record s {
      occupied = path ∷ s.occupied;
      queue = s.queue ++ task ∷ [];
      all = Map.insert id task s.all;
    })

-- `iter().position` and `remove`.
unfoldable pub take_task : TaskId → List Task → Option (Task × List Task)
take_task id [] = none
take_task id (t ∷ queue) = elim (t.id == id) [
  | true ↦ some (t, queue)
  | false ↦ elim (take_task id queue) [ none ↦ none | some (u, rest) ↦ some (u, t ∷ rest) ]
]

abbrev refuse : QueueState → QueueError → Reply
refuse s e = record { state = s; result = some e; effects = [] }

abbrev accept : QueueState → List QueueEffect → Reply
accept s fx = record { state = s; result = none; effects = fx }

-- A task that is in neither table is looked up in `all`.
unfoldable pub pause_other : TaskId → Option Task → QueueState → Reply
pause_other id none s = refuse s (not_found id)
pause_other id (some t) s = elim t.state [
  | paused ↦ accept s []
  | other ↦ refuse s (invalid_state id (codes "Queued/Active") (as_str other))
]

unfoldable pub pause_queued : TaskId → Option (Task × List Task) → QueueState → Reply
unfolding pause_other
pause_queued id (some (t, rest)) s =
    accept (record s { queue = rest; all = Map.insert id (record t { state = paused }) s.all }) []
pause_queued id none s = pause_other id (Map.get id s.all) s

unfoldable pub pause_active : TaskId → Option Task → QueueState → Reply
unfolding pause_queued
pause_active id (some t) s =
    accept
      (record s {
        active = Map.remove id s.active;
        all = Map.insert id (record t { state = paused }) s.all;
      })
      (abort id ∷ pump ∷ [])
pause_active id none s = pause_queued id (take_task id s.queue) s

unfoldable pub pause : TaskId → QueueState → Reply
unfolding pause_active take_task
pause id s = pause_active id (Map.get id s.active) s

unfoldable pub resume_task : TaskId → Option Task → QueueState → Reply
resume_task id none s = refuse s (not_found id)
resume_task id (some t) s = elim t.state [
  | paused ↦
      let again = record t { state = queued } in
      accept (record s { all = Map.insert id again s.all; queue = again ∷ s.queue }) (pump ∷ [])
  | other ↦ refuse s (invalid_state id (codes "Paused") (as_str other))
]

unfoldable pub resume : TaskId → QueueState → Reply
unfolding resume_task
resume id s = resume_task id (Map.get id s.all) s

-- The task is entered as removed and its path is free again.
abbrev discard : TaskId → Task → QueueState → QueueState
discard id t s = record s {
  all = Map.insert id (record t { state = removed }) s.all;
  occupied = without s.occupied t.output_path;
}

unfoldable pub cancel_other : TaskId → Option Task → QueueState → Reply
cancel_other id none s = refuse s (not_found id)
cancel_other id (some t) s = elim t.state [
  | removed ↦ accept s []
  | paused ↦ accept (discard id t s) (delete t.output_path ∷ [])
  | completed ↦ accept (discard id t s) (delete t.output_path ∷ [])
  | failed error ↦ accept (discard id t s) (delete t.output_path ∷ [])
  | other ↦
      refuse s (invalid_state id (codes "Queued/Active/Paused/Completed/Failed") (as_str other))
]

unfoldable pub cancel_queued : TaskId → Option (Task × List Task) → QueueState → Reply
unfolding cancel_other
cancel_queued id (some (t, rest)) s =
    accept (record (discard id t s) { queue = rest }) (delete t.output_path ∷ [])
cancel_queued id none s = cancel_other id (Map.get id s.all) s

-- The files of an active task are deleted later, when its download has let go of them.
unfoldable pub cancel_active : TaskId → Option Task → QueueState → Reply
unfolding cancel_queued
cancel_active id (some t) s =
    accept
      (record (discard id t s) {
        active = Map.remove id s.active;
        pending_deletes = s.pending_deletes ++ t.output_path ∷ [];
      })
      (abort id ∷ pump ∷ [])
cancel_active id none s = cancel_queued id (take_task id s.queue) s

unfoldable pub cancel : TaskId → QueueState → Reply
unfolding cancel_active take_task
cancel id s = cancel_active id (Map.get id s.active) s
