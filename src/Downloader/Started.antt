-- ===== src/Downloader/Started.antt =====
-- No range of a download is lost between the resume plan and the end of the monitor's loop.
use simple_downloader.Prelude.{
  ℕ, suc, ◌+◌, ◌≡◌, ◌⊎◌, inl, inr, refl, true, List, [], ◌∷◌, Option, none, some, weigh,
  weigh-append, arith,
}
use simple_downloader.Prelude.Map
use simple_downloader.Types.{ChunkId}
use simple_downloader.Retry.Queues.{has_permanent_failure}
use simple_downloader.Retry
use simple_downloader.Lane.{LaneId}
use simple_downloader.Lane.Runtime.{LaneRuntime, MultiRuntime, claim_request_builder}
use simple_downloader.Monitor.{
  Monitor, Session, Request, spawns, running, by_url, new_with_completed,
}
use simple_downloader.Monitor.Tick.{drain_pending}
use simple_downloader.Monitor.Loop.{Event, bind_all, start_session}
use simple_downloader.Monitor.Ranges.{RangeMeasure, of_pair, of_output, of_handler, held}
use simple_downloader.Monitor.Conservation.{drain_loop-held}
use simple_downloader.Monitor.Tally.{taken, run-held}
use simple_downloader.Downloader.{split_resume_ranges}
use simple_downloader.Downloader.Split.{holds, split_resume_ranges-IsSplit}
use simple_downloader.Downloader.Orchestrate.{
  Job, Opening, effective_workers, spawn_initial, enter_lane, open_range, open_ranges, opening,
  initial_monitor, hand_over, begin, orchestrate_downloads,
}

module _ (g : RangeMeasure) where
  -- The ranges that were started or are buffered.
  abbrev opened : Opening → ℕ
  opened o = weigh (of_pair g) o.pending_initial + weigh (of_output g) o.sent

  spawn_initial-opened :
      (lane : Option LaneId) (request : Request) (per global : Option ℕ) (r : ℕ × ℕ) (o : Opening)
      → opened (spawn_initial lane request per global r o) ≡ opened o + of_pair g r
  unfolding spawn_initial
  spawn_initial-opened lane request per global (start, end) o =
      omega (arith, weigh-append (of_output g) o.sent (spawns _ ∷ []))

  enter_lane-opened :
      (own : Option ℕ) (r : ℕ × ℕ) (claimed : Option (LaneId × LaneRuntime)) (next : MultiRuntime)
      → (o : Opening) → opened (enter_lane own r claimed next o) ≡ opened o + of_pair g r
  unfolding enter_lane
  enter_lane-opened own r none next o =
      omega (arith, weigh-append (of_pair g) o.pending_initial (r ∷ []))
  enter_lane-opened own r (some (lane, runtime)) next o =
      spawn_initial-opened (some lane) _ _ _ r (record o { multi_runtime = some next })

  open_range-opened :
      (now : ℕ) (j : Job) (r : ℕ × ℕ) (runtime : Option MultiRuntime) (o : Opening)
      → opened (open_range now j r runtime o) ≡ opened o + of_pair g r
  unfolding open_range
  open_range-opened now j r none o = spawn_initial-opened none (by_url j.url) none j.own_limiter r o
  open_range-opened now j r (some runtime) o =
      let (claimed, next) = claim_request_builder now runtime in
      enter_lane-opened j.own_limiter r claimed next o

  open_ranges-opened :
      (clock : ℕ → ℕ) (k : ℕ) (j : Job) (ranges : List (ℕ × ℕ)) (o : Opening)
      → opened (open_ranges clock k j ranges o) ≡ opened o + weigh (of_pair g) ranges
  unfolding open_ranges
  open_ranges-opened clock k j [] o = omega arith
  open_ranges-opened clock k j (r ∷ ranges) o = omega (
    arith,
    open_range-opened (clock k) j r o.multi_runtime o,
    open_ranges-opened clock (suc k) j ranges (open_range (clock k) j r o.multi_runtime o),
  )

  abbrev waiting : Monitor → ℕ
  waiting m = weigh (of_pair g) m.pending_bisects + of_handler g m.retry_handler

  bind_all-waiting :
      (lanes : List (ChunkId × LaneId)) (m : Monitor) → waiting (bind_all lanes m) ≡ waiting m
  bind_all-waiting [] m = refl
  bind_all-waiting ((id, lane) ∷ lanes) m =
      bind_all-waiting lanes (record m { lane_bindings = Map.insert id lane m.lane_bindings })

  hand_over-held : (clock : ℕ → ℕ) (j : Job) (o : Opening) → held g (hand_over clock j o) ≡ opened o
  unfolding hand_over start_session drain_pending initial_monitor new_with_completed Retry.new
  hand_over-held clock j o =
      let entered : Session = record {
        monitor = initial_monitor j o.pending_initial;
        multi_runtime = o.multi_runtime;
        url = some j.url;
        tasks = o.tasks;
        next_chunk_id = o.next_chunk_id;
        reliable_open = true;
        status = running;
        sent = o.sent;
      } in
      let drained = drain_pending clock entered in
      omega (
        arith,
        bind_all-waiting o.initial_lanes drained.monitor,
        drain_loop-held g clock 0 o.pending_initial entered,
      )

  begin-held :
      (open_clock drain_clock : ℕ → ℕ) (j : Job)
      → held g (begin open_clock drain_clock j)
        ≡ weigh (of_pair g) (split_resume_ranges j.resume_ranges (effective_workers j))
  unfolding begin
  begin-held open_clock drain_clock j =
      let ranges = split_resume_ranges j.resume_ranges (effective_workers j) in
      omega (
        arith,
        hand_over-held drain_clock j (open_ranges open_clock 0 j ranges (opening j)),
        open_ranges-opened open_clock 0 j ranges (opening j),
      )

-- Does the range from `a` to `b` hold the byte?
abbrev pub has_byte : ℕ → RangeMeasure
has_byte x a b = holds x (a, b)

holds-of_pair :
    (x : ℕ) (ranges : List (ℕ × ℕ)) → weigh (of_pair (has_byte x)) ranges ≡ weigh (holds x) ranges
holds-of_pair x [] = refl
holds-of_pair x (r ∷ ranges) = omega (arith, holds-of_pair x ranges)

-- Whatever the lanes answer and over any events of the monitor's loop: unless something has failed for
-- good, each byte is in exactly as many ranges that wait for a lane or a retry or were started as it
-- is in the ranges of the resume plan and in those that failed and bisected chunks bring back.
pub orchestrate_downloads-held :
    (open_clock drain_clock : ℕ → ℕ) (j : Job) (events : List Event) (x : ℕ)
    → let last = orchestrate_downloads open_clock drain_clock j events in
      (has_permanent_failure last.monitor.retry_handler ≡ true)
      ⊎ (held (has_byte x) last
          ≡ weigh (holds x) j.resume_ranges
            + taken (has_byte x) (begin open_clock drain_clock j) events)
unfolding orchestrate_downloads
orchestrate_downloads-held open_clock drain_clock j events x =
    let first = begin open_clock drain_clock j in
    let (same, few, ends) = split_resume_ranges-IsSplit j.resume_ranges (effective_workers j) in
    elim (run-held (has_byte x) first events) [
      | inl lost ↦ inl lost
      | inr kept ↦ inr (
          omega (
            arith,
            kept,
            begin-held (has_byte x) open_clock drain_clock j,
            holds-of_pair x (split_resume_ranges j.resume_ranges (effective_workers j)),
            same x,
          ))
    ]
