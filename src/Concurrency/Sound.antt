-- ===== src/Concurrency/Sound.antt =====
-- Every call of `decide_and_act` of src/concurrency.rs comes to one of the outcomes.
use simple_downloader.Prelude.{
  ◌<◌, ◌≡◌, refl, inl, inr, Bool, true, false, ◌&&◌, not, [], Option, none, some, ltb, leb, ◌==◌,
  length, if-holds, Bool-cases, arith,
}
use simple_downloader.State.{ChunkState}
use simple_downloader.Float.{Float}
use simple_downloader.Speed.{total_speed}
use simple_downloader.Concurrency.{
  DownloadPhase, probing, stable, ObservationState, ready, observing, evaluating, SplitObservation,
  ConcurrencyManager, Reading, elapsed, min_split_interval, split_is_useful, request_split,
  request_split_with_observation, transition_to_stable,
}
use simple_downloader.Concurrency.Find.{
  values, find_largest_splittable_chunk, find_slowest_splittable_chunk, is_stall, is_stalled,
  find_stalled,
}
use simple_downloader.Concurrency.Decide.{
  active, push_sample, average, estimate, track, observe, probe_split, no_gain, split_slowest,
  rescue_or_split, split_further, evaluate, stable_by, act_on, act, handle_probing_phase,
  handle_stable_ready, handle_stable_evaluate, handle_stable_phase, decide_and_act,
}
use simple_downloader.Concurrency.Outcome.{
  books, Outcome, Outcome.quiet, Outcome.cut, best-keep, request_skewed_split-Outcome,
}

module _ {W : Type 0} ⦃f : Float W⦄ (r : Reading W) where
  probe_split-Outcome :
      (o : Option ChunkState) (m : ConcurrencyManager W)
      → find_largest_splittable_chunk r.state.chunks ≡ o
      → active r < m.max_workers
      → Outcome r (books m) (probe_split r o m)
  unfolding find_largest_splittable_chunk request_split transition_to_stable
  probe_split-Outcome none m h room = quiet (record { sent = refl; kept = refl })
  probe_split-Outcome (some c) m h room =
      let (among, splittable) = best-keep _ _ (values r.state.chunks) c h in
      cut c
        (record { among = among; splittable = splittable; room = room; sent = refl; kept = refl })

  no_gain-Outcome : (m : ConcurrencyManager W) → Outcome r (books m) (no_gain r m)
  unfolding transition_to_stable
  no_gain-Outcome m =
      if-holds (Outcome r (books m)) _ _ _ (quiet (record { sent = refl; kept = refl }))
        (quiet (record { sent = refl; kept = refl }))

  handle_probing_phase-Outcome :
      (avg est before : W) (m : ConcurrencyManager W)
      → Outcome r (books m) (handle_probing_phase r avg est before m)
  unfolding handle_probing_phase transition_to_stable
  handle_probing_phase-Outcome avg est before m = elim (Bool-cases (leb m.max_workers (active r))) [
    | inl e ↦ rw e (quiet (record { sent = refl; kept = refl }))
    | inr e ↦ rw e (
        if-holds (Outcome r (books m)) (not (split_is_useful r.state avg est)) _ _
          (quiet (record { sent = refl; kept = refl }))
          (if-holds (Outcome r (books m)) _ _ _
            (probe_split-Outcome (find_largest_splittable_chunk r.state.chunks) m refl
              (ground arith))
            (no_gain-Outcome m)))
  ]

  split_slowest-Outcome :
      (avg : W) (o : Option ChunkState) (m : ConcurrencyManager W)
      → find_slowest_splittable_chunk r ≡ o
      → active r < m.max_workers
      → Outcome r (books m) (split_slowest r avg o m)
  unfolding find_slowest_splittable_chunk request_split_with_observation
  split_slowest-Outcome avg none m h room = quiet (record { sent = refl; kept = refl })
  split_slowest-Outcome avg (some c) m h room =
      let (among, splittable) = best-keep _ _ (values r.state.chunks) c h in
      elim (Bool-cases (is_stall r c)) [
        | inl e ↦ rw e (request_skewed_split-Outcome r m c among e)
        | inr e ↦ rw e (
            if-holds (Outcome r (books m)) _ _ _ (quiet (record { sent = refl; kept = refl })) (
              cut c (record {
                among = among;
                splittable = splittable;
                room = room;
                sent = refl;
                kept = refl;
              })))
      ]

  rescue_or_split-Outcome :
      (avg : W) (b : Bool) (o : Option ChunkState) (m : ConcurrencyManager W)
      → find_stalled r ≡ o
      → (b ≡ true → active r < m.max_workers)
      → Outcome r (books m) (rescue_or_split r avg b o m)
  unfolding find_stalled is_stalled
  rescue_or_split-Outcome avg b (some c) m h room =
      let (among, stalled) = best-keep _ _ (values r.state.chunks) c h in
      request_skewed_split-Outcome r m c among (ground arith)
  rescue_or_split-Outcome avg true none m h room =
      split_slowest-Outcome avg (find_slowest_splittable_chunk r) m refl (room refl)
  rescue_or_split-Outcome avg false none m h room = quiet (record { sent = refl; kept = refl })

  handle_stable_ready-Outcome :
      (avg est : W) (m : ConcurrencyManager W)
      → Outcome r (books m) (handle_stable_ready r avg est m)
  unfolding handle_stable_ready
  handle_stable_ready-Outcome avg est m =
      rescue_or_split-Outcome avg _ (find_stalled r) m refl (λ h. ground arith)

  split_further-Outcome :
      (avg : W) (o : Option ChunkState) (m : ConcurrencyManager W)
      → find_largest_splittable_chunk r.state.chunks ≡ o
      → active r < m.max_workers
      → Outcome r (books m) (split_further r avg o m)
  unfolding find_largest_splittable_chunk request_split_with_observation
  split_further-Outcome avg none m h room = quiet (record { sent = refl; kept = refl })
  split_further-Outcome avg (some c) m h room =
      let (among, splittable) = best-keep _ _ (values r.state.chunks) c h in
      cut c
        (record { among = among; splittable = splittable; room = room; sent = refl; kept = refl })

  evaluate-Outcome :
      (avg est : W) (o : Option (SplitObservation W)) (m : ConcurrencyManager W)
      → Outcome r (books m) (evaluate r avg est o m)
  evaluate-Outcome avg est none m = quiet (record { sent = refl; kept = refl })
  evaluate-Outcome avg est (some o) m =
      elim (Bool-cases (ltb (active r) m.max_workers && split_is_useful r.state avg est)) [
        | inl e ↦ rw e (
            if-holds (Outcome r (books m)) _ _ _
              (split_further-Outcome avg (find_largest_splittable_chunk r.state.chunks)
                (record m { recent_best_speed = f.fmax o.best_speed_seen m.recent_best_speed }) refl
                (ground arith))
              (quiet (record { sent = refl; kept = refl })))
        | inr e ↦ rw e (
            if-holds (Outcome r (books m)) _ _ _ (quiet (record { sent = refl; kept = refl }))
              (quiet (record { sent = refl; kept = refl })))
      ]

  stable_by-Outcome :
      (avg est : W) (o : ObservationState) (m : ConcurrencyManager W)
      → Outcome r (books m) (stable_by r avg est o m)
  unfolding handle_stable_evaluate
  stable_by-Outcome avg est ready m = handle_stable_ready-Outcome avg est m
  stable_by-Outcome avg est observing m = quiet (record { sent = refl; kept = refl })
  stable_by-Outcome avg est evaluating m =
      evaluate-Outcome avg est m.current_observation (record m { current_observation = none })

  act_on-Outcome :
      (avg est before : W) (phase : DownloadPhase) (m : ConcurrencyManager W)
      → Outcome r (books m) (act_on r avg est before phase m)
  unfolding handle_stable_phase
  act_on-Outcome avg est before probing m = handle_probing_phase-Outcome avg est before m
  act_on-Outcome avg est before stable m = stable_by-Outcome avg est m.observation_state m

  act-Outcome : (m : ConcurrencyManager W) → Outcome r (books m) (act r m)
  unfolding act observe track
  act-Outcome m =
      let avg = average m.stable_speed_samples in
      act_on-Outcome avg (estimate r.state avg) m.max_speed m.phase
        (observe (total_speed r.gauges r.state) (track avg m))

  -- A call of decide_and_act sends no command and changes neither its counts nor its times; or it
  -- sends one, which names a chunk of the state: a cut in two of a splittable chunk with a worker
  -- free, a skewed cut of a slow chunk with at least 128 KiB left and fewer than four such cuts, the
  -- end of one with four, or the end of a slow chunk with less left that has been idle for ten
  -- seconds. With a command the time of the last split is the present.
  pub decide_and_act-Outcome : (m : ConcurrencyManager W) → Outcome r (books m) (decide_and_act r m)
  unfolding decide_and_act
  decide_and_act-Outcome m =
      let sampled : ConcurrencyManager W = record m {
        stable_speed_samples = push_sample m.stable_speed_samples (total_speed r.gauges r.state);
      } in
      elim (Bool-cases (ltb (elapsed r.now m.last_split_time) min_split_interval)) [
        | inl e ↦ rw e (quiet (record { sent = refl; kept = refl }))
        | inr e ↦ rw e (
            if-holds (Outcome r (books m)) (length sampled.stable_speed_samples == 0) (sampled, [])
              (act r sampled) (quiet (record { sent = refl; kept = refl })) (act-Outcome sampled))
      ]

  -- Within 150 ms of the last split a call of decide_and_act changes nothing and sends nothing.
  pub decide_and_act-throttled :
      (m : ConcurrencyManager W)
      → elapsed r.now m.last_split_time < min_split_interval
      → decide_and_act r m ≡ (m, [])
  unfolding decide_and_act
  decide_and_act-throttled m h = ground arith
