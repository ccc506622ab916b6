-- ===== src/Concurrency/Tests.antt =====
-- Runs of the concurrency manager of src/concurrency.rs, with its test's state and speeds in
-- thousandths.
use simple_downloader.Prelude.{
  ℕ, ◌≡◌, refl, true, false, List, [], ◌∷◌, map, none, ltb, ◌==◌, if◌then◌else◌, All, Among, arith,
}
use simple_downloader.Prelude.Map
use simple_downloader.Types.{ChunkId, bisect_download_skewed, terminate_chunk}
use simple_downloader.Chunk.Split.{min_chunk_size}
use simple_downloader.State.{ChunkState, is_splittable}
use simple_downloader.Float.{Fixed, fixed_float, Fixed-IsOrdered}
use simple_downloader.Speed.{Gauge}
use simple_downloader.Concurrency.{stable, ready, ConcurrencyManager, Reading, speed_of}
use simple_downloader.Concurrency.Find.{values, find_slowest_splittable_chunk}
use simple_downloader.Concurrency.Decide.{decide_and_act}
use simple_downloader.Concurrency.Outcome.{Outcome, books}
use simple_downloader.Concurrency.Sound.{decide_and_act-Outcome}
use simple_downloader.Concurrency.Pace.{Paced, run, run-Paced}
use simple_downloader.Concurrency.Phase.{Kept, decide_and_act-Kept}
use simple_downloader.Concurrency.Choice.{splittable, find_slowest_splittable_chunk-tops}

abbrev chunk : (id start_byte end_byte downloaded : ℕ) → ChunkState
chunk id start_byte end_byte downloaded = record {
  id = id;
  start_byte = start_byte;
  end_byte = end_byte;
  downloaded_bytes = downloaded;
  last_progress_bytes = downloaded;
  last_progress_at = 1000;
  status = 0;
  status_message = none;
  status_changed_at = 1000;
}

abbrev speeds : (one two : Fixed) → ChunkId → Gauge Fixed
speeds one two id = record { speed = if id == 1 then one else two; last_sampled_bytes = 0 }

abbrev slow : ChunkState
slow = chunk 2 60001 4999999 1000

-- Six bytes per second on the second chunk.
abbrev trickle : ℕ → Reading Fixed
trickle now = record {
  state = record {
    total_file_size = 5000000;
    chunks = (1, chunk 1 0 60000 55000) ∷ (2, slow) ∷ [];
    completed_bytes = 0;
  };
  gauges = speeds 9000000 6000;
  now = now;
}

abbrev settled : ConcurrencyManager Fixed
settled = record {
  max_workers = 8;
  update_interval = 500;
  phase = stable;
  max_speed = 10000000;
  recent_best_speed = 10000000;
  last_split_time = 850;
  stable_speed_samples = 5000000 ∷ 5000000 ∷ 5000000 ∷ [];
  observation_state = ready;
  current_observation = none;
  consecutive_probe_no_gain = 0;
  skewed_split_counts = Map.empty;
  last_steal_time = Map.empty;
}

-- The repository's own test: a stalled chunk is cut askew, and nothing is observed.
stalled_chunk_gets_skewed_split_without_observation :
    let (m, sent) = decide_and_act (trickle 1000) settled in
    (sent ≡ bisect_download_skewed 2 ∷ []) × (m.observation_state ≡ ready)
unfolding decide_and_act
stalled_chunk_gets_skewed_split_without_observation = (refl, refl)

-- Five calls in a row that can act: four cuts, then the end of the chunk.
abbrev calls : List (Reading Fixed)
calls = map trickle (20000 ∷ 20100 ∷ 20150 ∷ 20300 ∷ 20450 ∷ 20600 ∷ [])

trickle_is_killed :
    (run calls settled).1
    ≡ bisect_download_skewed 2
      ∷ bisect_download_skewed 2
      ∷ bisect_download_skewed 2
      ∷ bisect_download_skewed 2
      ∷ terminate_chunk 2
      ∷ []
unfolding decide_and_act
trickle_is_killed = refl

-- With more chunks than workers a stalled chunk is cut all the same.
rescue_exceeds_workers :
    (decide_and_act (trickle 20000) (record settled { max_workers = 2 })).1
    ≡ bisect_download_skewed 2 ∷ []
unfolding decide_and_act
rescue_exceeds_workers = refl

decide_and_act-Outcome_example :
    Outcome (trickle 1000) (books settled) (decide_and_act (trickle 1000) settled)
decide_and_act-Outcome_example = decide_and_act-Outcome (trickle 1000) settled

run-Paced_example : Paced settled (run calls settled)
run-Paced_example = run-Paced calls settled

decide_and_act-Kept_example : Kept stable (decide_and_act (trickle 1000) settled)
decide_and_act-Kept_example = decide_and_act-Kept (trickle 1000) settled (tt, omega arith)

find_slowest_splittable_chunk-tops_example :
    Among slow (values (trickle 1000).state.chunks)
    × (is_splittable slow min_chunk_size ≡ true)
    × All
        (λ y. ltb (speed_of (trickle 1000) y.id) (speed_of (trickle 1000) slow.id) ≡ false)
        (splittable (trickle 1000).state.chunks)
unfolding is_splittable find_slowest_splittable_chunk
find_slowest_splittable_chunk-tops_example =
    find_slowest_splittable_chunk-tops Fixed-IsOrdered (trickle 1000) slow (refl, tt) refl
