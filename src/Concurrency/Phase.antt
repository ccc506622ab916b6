-- ===== src/Concurrency/Phase.antt =====
-- The phases and the observations of `ConcurrencyManager` of src/concurrency.rs.
use simple_downloader.Prelude.{
  ℕ, suc, ◌+◌, ◌≤◌, ◌<◌, ◌≡◌, refl, inl, inr, Bool, true, false, ◌&&◌, not, List, [], ◌∷◌, ◌++◌,
  Option, none, some, ltb, leb, ◌==◌, length, length-append, length-drop, if-holds, subst, sym,
  Bool-cases, arith,
}
use simple_downloader.State.{ChunkState, DownloadState, remaining_bytes}
use simple_downloader.Types.{ChunkId}
use simple_downloader.Float.{Float}
use simple_downloader.Speed.{total_speed}
use simple_downloader.Concurrency.{
  DownloadPhase, probing, stable, ObservationState, ready, observing, evaluating, SplitObservation,
  ConcurrencyManager, Reading, Act, elapsed, min_split_interval, split_is_useful, request_split,
  request_split_with_observation, request_skewed_split, steal_small_tail, transition_to_stable,
  required_samples_for_interval, new_with_interval, chunk_idle_secs, is_steal_throttled,
  small_tail_bytes, count_of,
}
use simple_downloader.Concurrency.Find.{
  find_largest_splittable_chunk, find_slowest_splittable_chunk, is_stall, find_stalled,
}
use simple_downloader.Concurrency.Decide.{
  active, push_sample, average, estimate, track, observe, observed, probe_split, no_gain,
  split_slowest, rescue_or_split, split_further, evaluate, stable_by, act_on, act,
  handle_probing_phase, handle_stable_ready, handle_stable_evaluate, handle_stable_phase,
  decide_and_act,
}

-- There is an observation exactly while the stable phase observes, and it lacks samples, at most
-- five. Nothing is left to be evaluated between two calls.
abbrev pub IsSteady :
    {W : Type 0} → DownloadPhase → ObservationState → Option (SplitObservation W) → Type 0
IsSteady phase ready none = Unit
IsSteady stable observing (some o) =
    (o.collected_samples < o.required_samples) × (o.required_samples ≤ 5)
IsSteady _ _ _ = ⊥

-- The phase goes from probing to stable and not back.
abbrev pub Advances : DownloadPhase → DownloadPhase → Type 0
Advances probing _ = Unit
Advances stable stable = Unit
Advances stable probing = ⊥

Advances_refl : (p : DownloadPhase) → Advances p p
Advances_refl probing = tt
Advances_refl stable = tt

Advances_stable : (p : DownloadPhase) → Advances p stable
Advances_stable probing = tt
Advances_stable stable = tt

evaluating-IsSteady :
    {W : Type 0} (p : DownloadPhase) (o : Option (SplitObservation W)) → ¬ IsSteady p evaluating o
evaluating-IsSteady probing none h = h
evaluating-IsSteady probing (some o) h = h
evaluating-IsSteady stable none h = h
evaluating-IsSteady stable (some o) h = h

module _ {W : Type 0} ⦃f : Float W⦄ where
  abbrev pub IsTidy : ConcurrencyManager W → Type 0
  IsTidy m =
      IsSteady m.phase m.observation_state m.current_observation
      × (length m.stable_speed_samples ≤ 5)

  pub record Kept (phase : DownloadPhase) (a : Act W) : Type 0 where
    pub tidy : IsTidy a.0
    pub advance : Advances phase a.0.phase

  transition_to_stable-Kept : (m : ConcurrencyManager W) → Kept m.phase (transition_to_stable m, [])
  unfolding transition_to_stable
  transition_to_stable-Kept m = record {
    tidy = (tt, omega arith);
    advance = Advances_stable m.phase;
  }

  no_gain-Kept : (r : Reading W) (m : ConcurrencyManager W) → IsTidy m → Kept m.phase (no_gain r m)
  unfolding transition_to_stable
  no_gain-Kept r m h =
      let counted : ConcurrencyManager W = record m {
        consecutive_probe_no_gain = suc m.consecutive_probe_no_gain;
      } in
      if-holds (Kept m.phase)
        (ltb 1 (active r)
          && leb 3 (length m.stable_speed_samples)
          && leb 1 counted.consecutive_probe_no_gain)
        _ _ (transition_to_stable-Kept counted)
        (record { tidy = h; advance = Advances_refl m.phase })

  probe_split-Kept :
      (r : Reading W) (o : Option ChunkState) (m : ConcurrencyManager W)
      → IsTidy m
      → Kept m.phase (probe_split r o m)
  unfolding request_split
  probe_split-Kept r none m h = transition_to_stable-Kept m
  probe_split-Kept r (some c) m h = record { tidy = h; advance = Advances_refl m.phase }

  handle_probing_phase-Kept :
      (r : Reading W) (avg est before : W) (m : ConcurrencyManager W)
      → IsTidy m
      → Kept m.phase (handle_probing_phase r avg est before m)
  unfolding handle_probing_phase
  handle_probing_phase-Kept r avg est before m h =
      if-holds (Kept m.phase) (leb m.max_workers (active r)) _ _ (transition_to_stable-Kept m) (
        if-holds (Kept m.phase) (not (split_is_useful r.state avg est)) _ _
          (record { tidy = h; advance = Advances_refl m.phase })
          (if-holds (Kept m.phase) _ _ _
            (probe_split-Kept r (find_largest_splittable_chunk r.state.chunks) m h)
            (no_gain-Kept r m h)))

  -- In the stable phase; `m` is the manager, perhaps with its observation taken out.
  module _ (r : Reading W) where
    steal_small_tail-Kept :
        (s : DownloadState) (id : ℕ) (m : ConcurrencyManager W)
        → IsTidy m
        → Kept m.phase (steal_small_tail r.now s id m)
    unfolding steal_small_tail
    steal_small_tail-Kept s id m h =
        if-holds (Kept m.phase)
          (leb 10 (chunk_idle_secs r.now s id) && not (is_steal_throttled r.now id m)) _ _
          (record { tidy = h; advance = Advances_refl m.phase })
          (record { tidy = h; advance = Advances_refl m.phase })

    request_skewed_split-Kept :
        (s : DownloadState) (id n : ℕ) (m : ConcurrencyManager W)
        → IsTidy m
        → Kept m.phase (request_skewed_split r.now s id n m)
    unfolding request_skewed_split
    request_skewed_split-Kept s id n m h =
        if-holds (Kept m.phase) (ltb n small_tail_bytes) _ _ (steal_small_tail-Kept s id m h) (
          if-holds (Kept m.phase) (ltb 4 (count_of id m.skewed_split_counts + 1)) _ _
            (record { tidy = h; advance = Advances_refl m.phase })
            (record { tidy = h; advance = Advances_refl m.phase }))

    required_samples_bounds :
        (interval : W)
        → (0 < required_samples_for_interval interval)
          × (required_samples_for_interval interval ≤ 5)
    unfolding required_samples_for_interval
    required_samples_bounds interval = omega arith

    request_split_with_observation-Kept :
        (id : ChunkId) (avg : W) (m : ConcurrencyManager W)
        → m.phase ≡ stable
        → length m.stable_speed_samples ≤ 5
        → Kept stable (request_split_with_observation r.now id avg m)
    unfolding request_split_with_observation request_split
    request_split_with_observation-Kept id avg m e h = record {
      tidy = (rw e (required_samples_bounds m.update_interval), h);
      advance = rw e tt;
    }

    quiet-Kept : (m : ConcurrencyManager W) → m.phase ≡ stable → IsTidy m → Kept stable (m, [])
    quiet-Kept m e h = record { tidy = h; advance = rw e tt }

    rescued :
        (c : ChunkState) (m : ConcurrencyManager W)
        → m.phase ≡ stable
        → IsTidy m
        → Kept stable (request_skewed_split r.now r.state c.id (remaining_bytes c) m)
    rescued c m e h =
        subst (λ p. Kept p (request_skewed_split r.now r.state c.id (remaining_bytes c) m)) e
          (request_skewed_split-Kept r.state c.id (remaining_bytes c) m h)

    split_slowest-Kept :
        (avg : W) (o : Option ChunkState) (m : ConcurrencyManager W)
        → m.phase ≡ stable
        → IsTidy m
        → Kept stable (split_slowest r avg o m)
    split_slowest-Kept avg none m e h = quiet-Kept m e h
    split_slowest-Kept avg (some c) m e h = if-holds (Kept stable) _ _ _ (quiet-Kept m e h) (
        if-holds (Kept stable) (is_stall r c) _ _ (rescued c m e h)
          (request_split_with_observation-Kept c.id avg m e h.1))

    rescue_or_split-Kept :
        (avg : W) (b : Bool) (o : Option ChunkState) (m : ConcurrencyManager W)
        → m.phase ≡ stable
        → IsTidy m
        → Kept stable (rescue_or_split r avg b o m)
    rescue_or_split-Kept avg b (some c) m e h = rescued c m e h
    rescue_or_split-Kept avg true none m e h =
        split_slowest-Kept avg (find_slowest_splittable_chunk r) m e h
    rescue_or_split-Kept avg false none m e h = quiet-Kept m e h

    -- The manager with its observation taken out and nothing to evaluate.
    cleared-Kept :
        (m : ConcurrencyManager W)
        → m.phase ≡ stable
        → m.current_observation ≡ none
        → length m.stable_speed_samples ≤ 5
        → Kept stable (record m { observation_state = ready }, [])
    cleared-Kept m e c h = record { tidy = (rw c tt, h); advance = rw e tt }

    split_further-Kept :
        (avg : W) (o : Option ChunkState) (m : ConcurrencyManager W)
        → m.phase ≡ stable
        → m.current_observation ≡ none
        → length m.stable_speed_samples ≤ 5
        → Kept stable (split_further r avg o m)
    split_further-Kept avg none m e c h = cleared-Kept m e c h
    split_further-Kept avg (some x) m e c h = request_split_with_observation-Kept x.id avg m e h

    evaluate-Kept :
        (avg est : W) (o : Option (SplitObservation W)) (m : ConcurrencyManager W)
        → m.phase ≡ stable
        → m.current_observation ≡ none
        → length m.stable_speed_samples ≤ 5
        → Kept stable (evaluate r avg est o m)
    evaluate-Kept avg est none m e c h = cleared-Kept m e c h
    evaluate-Kept avg est (some o) m e c h =
        let better : ConcurrencyManager W = record m {
          recent_best_speed = f.fmax o.best_speed_seen m.recent_best_speed;
        } in
        if-holds (Kept stable) _ _ _
          (if-holds (Kept stable) (ltb (active r) m.max_workers && split_is_useful r.state avg est)
            (split_further r avg (find_largest_splittable_chunk r.state.chunks) better)
            (record better { observation_state = ready }, [])
            (split_further-Kept avg (find_largest_splittable_chunk r.state.chunks) better e c h)
            (cleared-Kept better e c h))
          (cleared-Kept m e c h)

    handle_stable_ready-Kept :
        (avg est : W) (m : ConcurrencyManager W)
        → m.phase ≡ stable
        → IsTidy m
        → Kept stable (handle_stable_ready r avg est m)
    unfolding handle_stable_ready
    handle_stable_ready-Kept avg est m e h = rescue_or_split-Kept avg _ (find_stalled r) m e h

    -- After the samples: the stable phase acts by the state of the observation.
    stable_by-Kept :
        (avg est speed : W) (state : ObservationState) (o : Option (SplitObservation W))
        (m : ConcurrencyManager W)
        → m.phase ≡ stable
        → IsSteady stable state o
        → (m.observation_state ≡ (observed speed stable state o).0)
          × (m.current_observation ≡ (observed speed stable state o).1)
        → length m.stable_speed_samples ≤ 5
        → Kept stable (stable_by r avg est m.observation_state m)
    unfolding handle_stable_evaluate
    stable_by-Kept avg est speed ready none m e h (same, seen) n =
        subst (λ q. Kept stable (stable_by r avg est q m)) (sym same)
          (handle_stable_ready-Kept avg est m e (rw (e, same, seen) tt, n))
    stable_by-Kept avg est speed observing (some o) m e h (same, seen) n =
        elim (Bool-cases (leb o.required_samples (suc o.collected_samples))) [
          | inl t ↦
              let done : m.observation_state ≡ evaluating = rw t at same in
              subst (λ q. Kept stable (stable_by r avg est q m)) (sym done)
                (evaluate-Kept avg est m.current_observation
                  (record m { current_observation = none }) e refl n)
          | inr t ↦
              let still : m.observation_state ≡ observing = rw t at same in
              let lacks : suc o.collected_samples < o.required_samples = ground arith in
              subst (λ q. Kept stable (stable_by r avg est q m)) (sym still)
                (quiet-Kept m e (rw (e, still, seen) (lacks, h.1), n))
        ]
    stable_by-Kept avg est speed ready (some o) m e h s n = absurd h
    stable_by-Kept avg est speed observing none m e h s n = absurd h
    stable_by-Kept avg est speed evaluating o m e h s n = absurd (evaluating-IsSteady stable o h)

    act_on-Kept :
        (avg est before speed : W) (p : DownloadPhase) (m n : ConcurrencyManager W)
        → m.phase ≡ p
        → n.phase ≡ p
        → IsTidy m
        → (n.observation_state ≡ (observed speed p m.observation_state m.current_observation).0)
          × (n.current_observation ≡ (observed speed p m.observation_state m.current_observation).1)
        → n.stable_speed_samples ≡ m.stable_speed_samples
        → Kept p (act_on r avg est before p n)
    unfolding handle_stable_phase
    act_on-Kept avg est before speed probing m n d e h (same, seen) t =
        subst (λ q. Kept q (handle_probing_phase r avg est before n)) e
          (handle_probing_phase-Kept r avg est before n (rw (e, same, seen, t, sym d) h))
    act_on-Kept avg est before speed stable m n d e h s t =
        let steady : IsSteady stable m.observation_state m.current_observation =
          subst (λ q. IsSteady q m.observation_state m.current_observation) d h.0 in
        let few : length n.stable_speed_samples ≤ 5 = rw t h.1 in
        stable_by-Kept avg est speed m.observation_state m.current_observation n e steady s few

    act-Kept : (m : ConcurrencyManager W) → IsTidy m → Kept m.phase (act r m)
    unfolding act observe track
    act-Kept m h =
        let avg = average m.stable_speed_samples in
        let speed = total_speed r.gauges r.state in
        act_on-Kept avg (estimate r.state avg) m.max_speed speed m.phase m
          (observe speed (track avg m)) refl refl h (refl, refl) refl

    push_sample_bound :
        (samples : List W) (speed : W) → length samples ≤ 5 → length (push_sample samples speed) ≤ 5
    unfolding push_sample
    push_sample_bound samples speed h =
        let pushed : length (samples ++ speed ∷ []) ≡ length samples + 1 =
          length-append samples (speed ∷ []) in
        elim (Bool-cases (ltb 5 (length (samples ++ speed ∷ [])))) [
          | inl e ↦ rw (e, length-drop 1 (samples ++ speed ∷ [])) (omega arith)
          | inr e ↦ rw e (ground arith)
        ]

    -- A call of decide_and_act keeps the manager tidy: it has an observation exactly while the stable
    -- phase observes, one that lacks samples and wants at most five, and at most five speeds; and the
    -- phase never goes from stable back to probing.
    pub decide_and_act-Kept :
        (m : ConcurrencyManager W) → IsTidy m → Kept m.phase (decide_and_act r m)
    unfolding decide_and_act
    decide_and_act-Kept m h =
        let quiet : Kept m.phase (m, []) = record { tidy = h; advance = Advances_refl m.phase } in
        let speed = total_speed r.gauges r.state in
        let sampled : ConcurrencyManager W = record m {
          stable_speed_samples = push_sample m.stable_speed_samples speed;
        } in
        let tidy : IsTidy sampled = (h.0, push_sample_bound m.stable_speed_samples speed h.1) in
        if-holds (Kept m.phase) (ltb (elapsed r.now m.last_split_time) min_split_interval) _ _ quiet
          (if-holds (Kept m.phase) (length sampled.stable_speed_samples == 0) _ _
            (record { tidy = tidy; advance = Advances_refl m.phase }) (act-Kept sampled tidy))

  -- A new manager is tidy; with one worker its phase is stable.
  pub new_with_interval-IsTidy :
      (now max_workers : ℕ) (interval : W) → IsTidy (new_with_interval now max_workers interval)
  unfolding new_with_interval
  new_with_interval-IsTidy now max_workers interval = (tt, omega arith)
