-- ===== src/Monitor/Tests.antt =====
-- A file of 100 bytes from one URL.
use simple_downloader.Prelude.{
  ℕ, ◌+◌, ◌*◌, ◌-◌, ◌≡◌, ◌⊎◌, refl, inl, true, false, List, [], ◌∷◌, map, none, some, arith,
}
use simple_downloader.Prelude.Map
use simple_downloader.Prelude.Text.{codes}
use simple_downloader.Types.{chunk_progress, download_complete, chunk_failed, chunk_bisected}
use simple_downloader.Retry
use simple_downloader.Retry.Classify
use simple_downloader.Retry.Queues
use simple_downloader.State
use simple_downloader.Retry.Queues.{has_permanent_failure}
use simple_downloader.State.{total_downloaded}
use simple_downloader.Monitor.{Session, finished, failed, new_with_completed}
use simple_downloader.Monitor.Info.{contains}
use simple_downloader.Monitor.Tick.{Tick}
use simple_downloader.Monitor.Loop.{
  Event, reliable, heard, joined, ticks, start_session, run, is_running,
}
use simple_downloader.Monitor.Retired.{run-IsTombstoned}
use simple_downloader.Monitor.Finish.{IsComplete, is_finished, run-IsHonest}
use simple_downloader.Monitor.Ranges.{held}
use simple_downloader.Monitor.Tally.{taken, run-held}
use simple_downloader.Lane.{from_candidates, best_lane}
use simple_downloader.Lane.Sample.{runtime, runtime-Reachable}
use simple_downloader.Monitor.Room.{HasRoom, run-HasRoom}
use simple_downloader.Monitor.Stall.{run_ticks-ends}

abbrev clock : ℕ → ℕ
clock k = 5000 + k

abbrev tick : Tick
tick = record {
  elapsed_ns = 500 * 1000 * 1000;
  seconds = none;
  adaptive = [];
  drain_clock = clock;
  queue_clock = clock;
  retry_clock = clock;
  back_clock = clock;
  now = 6000;
}

abbrev fresh : Session
fresh = start_session (new_with_completed 100 0) [] none (some 8) 1 1 true

abbrev idle : Session
idle = start_session (new_with_completed 100 40) [] none (some 8) 0 1 true

-- Half of the chunk is handed over; both halves complete, and late progress follows.
abbrev split_run : List Event
split_run =
    heard clock (chunk_progress 0 0 99 20)
    ∷ reliable clock (chunk_bisected 0 50 99)
    ∷ reliable clock (download_complete 0)
    ∷ heard clock (chunk_progress 0 0 99 70)
    ∷ heard clock (chunk_progress 1 50 99 50)
    ∷ reliable clock (download_complete 1)
    ∷ joined
    ∷ joined
    ∷ []

abbrev six_ticks : List Tick
six_ticks = tick ∷ tick ∷ tick ∷ tick ∷ tick ∷ tick ∷ []

split_finishes : (run fresh split_run).status ≡ finished
unfolding start_session run Map.get new_with_completed Retry.new State.new_chunk
    Queues.are_all_tasks_done
split_finishes = refl

split_counts : total_downloaded (run fresh split_run).monitor.state ≡ 100
unfolding total_downloaded start_session run Map.get new_with_completed Retry.new State.new_chunk
    Queues.are_all_tasks_done
split_counts = refl

idle_fails : (run idle (map ticks six_ticks)).status ≡ failed
unfolding start_session new_with_completed run Retry.new Queues.are_all_tasks_done
idle_fails = refl

-- Without a connection the other half waits. Progress that was sent before the split comes after it
-- and gives the chunk its old end, so that the chunk counts for the whole file when it completes.
abbrev stale_run : List Event
stale_run =
    heard clock (chunk_progress 0 0 99 20)
    ∷ reliable clock (chunk_bisected 0 50 99)
    ∷ heard clock (chunk_progress 0 0 99 30)
    ∷ reliable clock (download_complete 0)
    ∷ joined
    ∷ ticks tick
    ∷ []

abbrev unconnected : Session
unconnected = start_session (new_with_completed 100 0) [] none none 1 1 true

stale_finishes : (run unconnected stale_run).status ≡ finished
unfolding total_downloaded start_session run Map.get new_with_completed Retry.new State.new_chunk
    Queues.are_all_tasks_done
stale_finishes = refl

stale_waits : (run unconnected stale_run).monitor.pending_bisects ≡ (50, 99) ∷ []
unfolding total_downloaded start_session run Map.get new_with_completed Retry.new State.new_chunk
    Queues.are_all_tasks_done
stale_waits = refl

retry_runs :
    (run fresh (reliable (λ k. k) (chunk_failed 0 30 99 (codes "timeout")) ∷ ticks tick ∷ [])).tasks
    ≡ 2
unfolding start_session run Map.get new_with_completed Retry.new State.new_chunk
    Queues.are_all_tasks_done Retry.handle_failure Classify.is_local_io_failure Retry.by_class
    Classify.classify_error Retry.count_and_schedule Retry.count_of Retry.schedule
    Classify.retry_delay Retry.is_batch
retry_runs = refl

run-IsTombstoned_example :
    (contains 0 (run fresh split_run).monitor.retired_ids ≡ false)
    ⊎ (Map.get 0 (run fresh split_run).monitor.state.chunks ≡ none)
unfolding start_session new_with_completed
run-IsTombstoned_example = run-IsTombstoned fresh split_run (λ id. inl refl) 0

run-IsHonest_example :
    (is_finished (run fresh split_run).status ≡ false) ⊎ IsComplete (run fresh split_run)
unfolding start_session
run-IsHonest_example =
    run-IsHonest fresh split_run (refl, (refl, (refl, (refl, (refl, (refl, (refl, (refl, tt))))))))
      (inl refl)

run-held_example :
    (has_permanent_failure (run fresh split_run).monitor.retry_handler ≡ true)
    ⊎ (held (λ a b. b - a + 1) (run fresh split_run)
        ≡ held (λ a b. b - a + 1) fresh + taken (λ a b. b - a + 1) fresh split_run)
run-held_example = run-held (λ a b. b - a + 1) fresh split_run

run_ticks-ends_example : is_running (run idle (map ticks six_ticks)).status ≡ false
unfolding start_session new_with_completed Retry.new
run_ticks-ends_example =
    run_ticks-ends six_ticks 0 idle
      (omega arith, (omega arith, (omega arith, (omega arith, (omega arith, (omega arith, tt))))))
      (omega arith) (omega arith) (refl, refl, refl, refl, refl, refl, refl)

-- Two lanes that are free, and the chunk 0, which has none.
abbrev by_lanes : Session
by_lanes = start_session (new_with_completed 100 0) [] (some runtime) none 1 1 true

one_lane_is_taken :
    (run by_lanes (reliable clock (chunk_bisected 0 50 99) ∷ [])).monitor.lane_bindings
    ≡ (1, 2) ∷ []
unfolding start_session new_with_completed run Map.get from_candidates Retry.new best_lane
one_lane_is_taken = refl

run-HasRoom_example :
    HasRoom (run by_lanes split_run).monitor.lane_bindings (run by_lanes split_run).multi_runtime
unfolding start_session new_with_completed
run-HasRoom_example = run-HasRoom by_lanes split_run (runtime-Reachable, λ k. omega arith)
