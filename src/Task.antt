-- ===== src/Task.antt =====
-- src/task.rs: the tasks of the queue. An id stands for a UUID, a path and a URL are texts.
use simple_downloader.Prelude.{ℕ, Bool, true, false}
use simple_downloader.Prelude.Text.{Text, codes}

abbrev pub TaskId : Type 0
TaskId = ℕ

pub data TaskState : Type 0 where
  queued active paused completed removed : TaskState
  failed : Text → TaskState

unfoldable pub is_terminal : TaskState → Bool
is_terminal (failed error) = true
is_terminal completed = true
is_terminal removed = true
is_terminal queued = false
is_terminal active = false
is_terminal paused = false

unfoldable pub as_str : TaskState → Text
as_str queued = codes "Queued"
as_str active = codes "Active"
as_str paused = codes "Paused"
as_str (failed error) = codes "Failed"
as_str completed = codes "Completed"
as_str removed = codes "Removed"

pub record Task : Type 0 where
  pub id : TaskId
  pub url : Text
  pub output_path : Text
  pub state : TaskState
  pub downloaded : ℕ
  pub total_size : ℕ
  pub workers : ℕ
  pub created_at : ℕ

unfoldable pub new : TaskId → Text → Text → ℕ → ℕ → Task
new id url output_path workers now = record {
  id = id;
  url = url;
  output_path = output_path;
  state = queued;
  downloaded = 0;
  total_size = 0;
  workers = workers;
  created_at = now;
}

pub record TaskSnapshot : Type 0 where
  pub id : TaskId
  pub url : Text
  pub output_path : Text
  pub state : TaskState
  pub downloaded : ℕ
  pub total_size : ℕ
  pub workers : ℕ

-- `TaskSnapshot::from`.
unfoldable pub snapshot_of : Task → TaskSnapshot
snapshot_of t = record {
  id = t.id;
  url = t.url;
  output_path = t.output_path;
  state = t.state;
  downloaded = t.downloaded;
  total_size = t.total_size;
  workers = t.workers;
}
