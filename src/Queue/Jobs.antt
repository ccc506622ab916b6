-- ===== src/Queue/Jobs.antt =====
-- The downloads of the queue in src/queue.rs that really run: those in the driver's `JoinSet` that
-- have not ended and are not aborted. The driver spawns a download before its second lock.
use simple_downloader.Prelude.{
  ℕ, ◌+◌, ◌≤◌, ◌≡◌, inl, inr, true, not, List, [], ◌∷◌, Option, none, some, ◌==◌, if◌then◌else◌,
  length, keep, weigh, Bool-cases, arith,
}
use simple_downloader.Prelude.Map
use simple_downloader.Prelude.Map.{Map}
use simple_downloader.Task.{Task, TaskId}
use simple_downloader.Queue.{
  QueueState, QueueEffect, abort, delete, pump, with_max_concurrent, pause, cancel,
}
use simple_downloader.Queue.Driver.{
  Step, pauses, cancels, registers, completes, apply, IsEnabled, is_stopped,
}
use simple_downloader.Queue.Places.{one_if}
use simple_downloader.Queue.Unique.{IsOrderly}

abbrev pub without_id : TaskId → List TaskId → List TaskId
without_id id = keep (λ j. not (j == id))

-- The handles that a method aborts.
abbrev pub aborted : List QueueEffect → List TaskId → List TaskId
aborted [] jobs = jobs
aborted (abort id ∷ fx) jobs = aborted fx (without_id id jobs)
aborted (delete path ∷ fx) jobs = aborted fx jobs
aborted (pump ∷ fx) jobs = aborted fx jobs

-- A download that was spawned, unless its task is stopped when the driver looks.
abbrev pub spawned_job : Option Task → Map Task → List TaskId → List TaskId
spawned_job none all jobs = jobs
spawned_job (some t) all jobs = if is_stopped (Map.get t.id all) then jobs else t.id ∷ jobs

-- What a step does to the downloads that run.
unfoldable pub jobs_after : Step → QueueState → List TaskId → List TaskId
unfolding pause cancel Map.get
jobs_after (pauses id) s jobs = aborted (pause id s).effects jobs
jobs_after (cancels id) s jobs = aborted (cancel id s).effects jobs
jobs_after registers s jobs = spawned_job s.spawning s.all jobs
jobs_after other s jobs = jobs

abbrev pub count : TaskId → List TaskId → ℕ
count id = weigh (λ j. one_if (j == id))

-- The end that is heard is not that of an earlier download of a task that runs again.
abbrev pub IsLast : Step → List TaskId → Type 0
IsLast (completes id error) jobs = count id jobs ≡ 0
IsLast other jobs = Unit

-- The states of the queue, with the downloads that run, that an interleaving of orderly steps and of
-- ends of downloads leads to.
pub data Works : QueueState → List TaskId → Type 0 where
  idle : (n : ℕ) → Works (with_max_concurrent n) []
  steps :
      (step : Step) (s : QueueState) (jobs : List TaskId)
      → IsEnabled step s
      → IsOrderly step s
      → IsLast step jobs
      → Works s jobs
      → Works (apply step s) (jobs_after step s jobs)
  ends :
      (id : TaskId) (s : QueueState) (jobs : List TaskId)
      → Works s jobs
      → Works s (without_id id jobs)

-- A table that has each of some distinct ids has at least as many entries.
abbrev pub one_of : Option Task → ℕ
one_of none = 0
one_of (some t) = 1

abbrev pub has : TaskId → Map Task → ℕ
has id m = one_of (Map.get id m)

pub count-without_id :
    (id j : TaskId) (jobs : List TaskId)
    → count j (without_id id jobs) ≡ (if id == j then 0 else count j jobs)
count-without_id id j [] = ground arith
count-without_id id j (k ∷ jobs) = let rest = count-without_id id j jobs in ground arith

length-without_id :
    (id : TaskId) (jobs : List TaskId) → length jobs ≡ count id jobs + length (without_id id jobs)
length-without_id id [] = omega arith
length-without_id id (j ∷ jobs) = elim (Bool-cases (j == id)) [
  | inl e ↦ rw e (omega (arith, length-without_id id jobs))
  | inr e ↦ rw e (omega (arith, length-without_id id jobs))
]

pub length-has :
    (m : Map Task) (jobs : List TaskId)
    → ((id : TaskId) → count id jobs ≤ has id m)
    → length jobs ≤ length m
unfolding Map.get
length-has [] [] h = omega arith
length-has [] (j ∷ jobs) h =
    let same : (j == j) ≡ true = ground arith in
    let one : 1 + count j jobs ≤ 0 = rw same at (h j) in absurd (omega arith)
length-has ((k, t) ∷ m) jobs h =
    let same : (k == k) ≡ true = ground arith in
    let once : count k jobs ≤ 1 = rw (Map.get, same) at (h k) in
    let less : (id : TaskId) → count id (without_id k jobs) ≤ has id m = λ id.
      elim (Bool-cases (k == id)) [
        | inl e ↦ rw (count-without_id k id jobs, e) (omega arith)
        | inr e ↦ rw (count-without_id k id jobs, e) (rw (Map.get, e) at (h id))
      ] in
    omega (arith, length-without_id k jobs, length-has m (without_id k jobs) less)
