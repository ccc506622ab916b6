-- ===== src/Queue/Tests.antt =====
-- A queue with room for one download and two tasks.
use simple_downloader.Prelude.{
  ◌≡◌, ◌≢◌, ◌≤◌, ◌<◌, ◌⊎◌, ℕ, refl, true, false, List, [], ◌∷◌, ◌+◌, length, Option, none, some,
  arith,
}
use simple_downloader.Prelude.Map
use simple_downloader.Prelude.Map
use simple_downloader.Prelude.Text.{Text, codes}
use simple_downloader.Task.{Task, active, as_str, queued}
use simple_downloader.Task
use simple_downloader.Queue.{
  QueueState, with_max_concurrent, enqueue_at, pause, cancel, holds_path, same_text,
}
use simple_downloader.Queue.Driver.{
  pump_pop, pump_register, is_stopped, Step, enqueues, pops, registers, cancels, completes, pauses,
  resumes, apply, Reachable, start, after,
}
use simple_downloader.Queue.Places.{one_if, copies, held, is_queued, is_active, shows, owners}
use simple_downloader.Queue.Placed.{located}
use simple_downloader.Queue.Unique.{Orderly, fresh, next, owners-Orderly}
use simple_downloader.Queue.Query.{wait_is_over, wait_all-Orderly}
use simple_downloader.Queue.Rename.{
  Desired, Looks, nth_candidate, is_taken, with_suffix, rename_loop, resolve_rename,
}
use simple_downloader.Queue.Free.{WasTaken, resolve_rename-FirstFree}
use simple_downloader.Queue.Suffix.{with_suffix_distinct}
use simple_downloader.Queue.Jobs.{jobs_after, Works, idle, steps, one_of}
use simple_downloader.Queue.Running.{jobs-Works}
use simple_downloader.Queue.Window.{Refused, register-Orderly}

abbrev task : ℕ → Text → Task
task id path = record {
  id = id;
  url = codes "u";
  output_path = path;
  state = queued;
  downloaded = 0;
  total_size = 0;
  workers = 1;
  created_at = 0;
}

abbrev waiting : QueueState
waiting = record {
  queue = task 1 (codes "a") ∷ task 2 (codes "b") ∷ [];
  active = [];
  all = (2, task 2 (codes "b")) ∷ (1, task 1 (codes "a")) ∷ [];
  max = 1;
  occupied = codes "b" ∷ codes "a" ∷ [];
  pending_deletes = [];
  spawning = none;
}

abbrev add : ℕ → Text → Step
add id path = enqueues false false id (codes "u") path 1 0

abbrev empty : QueueState
empty = with_max_concurrent 0

-- The limit is at least 1.
enqueued : apply (add 2 (codes "b")) (apply (add 1 (codes "a")) empty) ≡ waiting
unfolding apply with_max_concurrent Task.new Map.insert
enqueued = refl

-- A path that is taken is a conflict.
conflict : enqueue_at false false 3 (codes "u") (codes "a") 1 0 waiting ≡ none
unfolding enqueue_at
conflict = refl

one : QueueState
one = apply (add 1 (codes "a")) empty

popped : QueueState
unfolding one
popped = apply pops one

one_runs : Reachable (apply registers popped)
unfolding popped one
one_runs = after registers popped tt (
    after pops one (unfold apply with_max_concurrent enqueue_at in refl)
      (after (add 1 (codes "a")) empty tt (start 0)))

one_is_orderly : Orderly one
unfolding one
one_is_orderly =
    next (add 1 (codes "a")) empty tt (unfold with_max_concurrent Map.get in refl) (fresh 0)

popped_is_orderly : Orderly popped
unfolding popped
popped_is_orderly =
    next pops one (unfold one apply with_max_concurrent enqueue_at in refl) tt one_is_orderly

popped_works : Works popped []
unfolding popped one jobs_after
popped_works =
    steps pops one [] (unfold one apply with_max_concurrent enqueue_at in refl) tt tt (
      steps (add 1 (codes "a")) empty [] tt (unfold with_max_concurrent Map.get in refl) tt
        (idle 0))

running_one : Works (apply registers popped) (jobs_after registers popped [])
running_one = steps registers popped [] tt tt tt popped_works

jobs-Works_example :
    (length (jobs_after registers popped []) ≤ length (apply registers popped).active)
    × (length (jobs_after registers popped []) + one_of (apply registers popped).spawning
        ≤ (apply registers popped).max)
    × (1 ≤ (apply registers popped).max)
    × ((apply registers popped).max ≤ 64)
jobs-Works_example =
    jobs-Works (apply registers popped) (jobs_after registers popped []) running_one

register-Orderly_example :
    Refused popped (pause 1 popped)
    × Refused popped (cancel 1 popped)
    × (is_stopped (Map.get 1 popped.all) ≡ false)
    × (Map.get 1 (pump_register popped).active
        ≡ some (record (task 1 (codes "a")) { state = active }))
register-Orderly_example =
    register-Orderly popped (record (task 1 (codes "a")) { state = active }) popped_is_orderly
      (unfold popped one apply with_max_concurrent enqueue_at pump_pop Task.new in refl)

owners-Orderly_example :
    ((p : Text)
      → (owners p popped.all ≤ 1) × (owners p popped.all ≤ one_if (holds_path popped.occupied p)))
    × ((id : ℕ) (p : Text)
        → (copies id p popped.queue ≡ shows is_queued p (Map.get id popped.all))
          × (located id p popped ≡ shows is_active p (Map.get id popped.all)))
owners-Orderly_example = owners-Orderly popped popped_is_orderly

-- The queue looks empty to `wait_all` while a download is being spawned.
wait_all-Orderly_example :
    (shows is_queued (codes "a") (Map.get 1 popped.all) ≡ 0)
    × (shows is_active (codes "a") (Map.get 1 popped.all) ≡ held 1 (codes "a") popped.spawning)
wait_all-Orderly_example =
    wait_all-Orderly popped popped_is_orderly
      (unfold popped one apply wait_is_over with_max_concurrent enqueue_at pump_pop in refl) 1
      (codes "a")

waits_too_little : (wait_is_over popped ≡ true) × (held 1 (codes "a") popped.spawning ≡ 1)
unfolding popped one apply wait_is_over with_max_concurrent enqueue_at pump_pop Task.new
waits_too_little = (refl, refl)

-- A task fails, another gets its path, and the first is cancelled: the path is free again although
-- the other task waits to write to it, and a third task gets it too.
first_failed : QueueState
first_failed =
    apply (completes 1 (some (codes "e")))
      (apply registers (apply pops (apply (add 1 (codes "a")) empty)))

shared : QueueState
unfolding first_failed
shared = apply (add 3 (codes "a")) (apply (cancels 1) (apply (add 2 (codes "a")) first_failed))

path_is_shared : owners (codes "a") shared.all ≡ 2
unfolding shared apply Map.get with_max_concurrent Map.insert Task.new
path_is_shared = refl

-- The names of the source's own test, and a file that is there already.
abbrev desired : Text → Option Text → Text → Desired
desired path parent name = record { path = path; parent = parent; file_name = some name }

plain : with_suffix (desired (codes "a.bin") (some []) (codes "a.bin")) 1 ≡ codes "a(1).bin"
unfolding with_suffix
plain = refl

two_dots :
    with_suffix (desired (codes "a.tar.gz") (some []) (codes "a.tar.gz")) 1 ≡ codes "a.tar(1).gz"
unfolding with_suffix
two_dots = refl

dot_first :
    with_suffix (desired (codes ".gitignore") (some []) (codes ".gitignore")) 1
    ≡ codes ".gitignore(1)"
unfolding with_suffix
dot_first = refl

in_dir :
    with_suffix (desired (codes "d/a.bin") (some (codes "d")) (codes "a.bin")) 12
    ≡ codes "d/a(12).bin"
unfolding with_suffix
in_dir = refl

abbrev on_disk : Looks
on_disk = record {
  exists = λ n p. same_text p (codes "a");
  exists_locked = λ n p. same_text p (codes "a");
  occupied = λ n. codes "a(1)" ∷ [];
}

second_free : rename_loop 9 (desired (codes "a") (some []) (codes "a")) on_disk 0 [] ≡ codes "a(2)"
unfolding rename_loop with_suffix
second_free = refl

resolve_rename-FirstFree_example :
    (m : ℕ) × (resolve_rename (desired (codes "a") (some []) (codes "a")) on_disk []
      ≡ nth_candidate (desired (codes "a") (some []) (codes "a")) m)
    × ((j : ℕ) → j < m → WasTaken (desired (codes "a") (some []) (codes "a")) on_disk [] j)
    × (((m ≤ 10000)
          × (is_taken
                (on_disk.exists_locked m)
                (on_disk.occupied m)
                (nth_candidate (desired (codes "a") (some []) (codes "a")) m)
              ≡ false))
        ⊎ ((m ≡ 10000) × WasTaken (desired (codes "a") (some []) (codes "a")) on_disk [] m))
resolve_rename-FirstFree_example =
    resolve_rename-FirstFree (desired (codes "a") (some []) (codes "a")) on_disk []

abbrev numbered_file : Desired
numbered_file = desired (codes "d/a.bin") (some (codes "d")) (codes "a.bin")

with_suffix_distinct_example : with_suffix numbered_file 1 ≢ with_suffix numbered_file 12
with_suffix_distinct_example = with_suffix_distinct numbered_file 1 12 (λ e. absurd (omega arith))

-- A download ends, its task is paused and resumed, and only then its end is heard: the entry of the
-- new download is removed, and a second one is started although `max` is 1.
abbrev late_end : List Step
late_end =
    add 1 (codes "a")
    ∷ add 2 (codes "b")
    ∷ pops
    ∷ registers
    ∷ pauses 1
    ∷ resumes 1
    ∷ pops
    ∷ registers
    ∷ completes 1 none
    ∷ pops
    ∷ registers
    ∷ []

abbrev play : List Step → QueueState × List ℕ → QueueState × List ℕ
play [] w = w
play (step ∷ rest) (s, jobs) = play rest (apply step s, jobs_after step s jobs)

two_run : (play late_end (empty, [])).1 ≡ 2 ∷ 1 ∷ []
unfolding apply jobs_after with_max_concurrent Map.insert Task.new
two_run = refl

max_is_one : empty.max ≡ 1
unfolding with_max_concurrent
max_is_one = refl
