-- ===== src/Lane/Sized.antt =====
-- The pools that src/lane.rs sorts the probed lanes into hold lanes of one file size each.
use simple_downloader.Prelude.{
  ℕ, ◌≡◌, refl, sym, subst, inl, inr, Bool, true, false, List, [], ◌∷◌, Option, none, some, ◌==◌,
  All, All-append, if-holds, Bool-cases, arith,
}
use simple_downloader.Prelude.Map
use simple_downloader.Prelude.Map.{Map}
use simple_downloader.Lane.Runtime.{LaneRuntime}
use simple_downloader.Lane.Probe.{
  Probe, Pools, or_empty, push_runtime, drop_fallback, with_ranges, first_fallback, without_ranges,
  measured_runtime, sort_probe, sort_probes,
}

module _ (P : LaneRuntime → ℕ → Bool → Type 0) where
  -- Each connection passes for the size.
  abbrev pub AllServe : ℕ → Bool → Map (List LaneRuntime) → Type 0
  AllServe size ranges runtimes = All (λ e. All (λ r. P r size ranges) e.1) runtimes

  abbrev pub Passes : LaneRuntime → Option (ℕ × Bool) → Type 0
  Passes r none = Unit
  Passes r (some (size, ranges)) = P r size ranges

  remove-AllServe :
      (size : ℕ) (ranges : Bool) (k : ℕ) (runtimes : Map (List LaneRuntime))
      → AllServe size ranges runtimes
      → AllServe size ranges (Map.remove k runtimes)
  unfolding Map.remove
  remove-AllServe size ranges k [] h = tt
  remove-AllServe size ranges k ((j, rs) ∷ runtimes) h =
      if-holds (AllServe size ranges) (j == k) (Map.remove k runtimes)
        ((j, rs) ∷ Map.remove k runtimes) (remove-AllServe size ranges k runtimes h.1)
        (h.0, remove-AllServe size ranges k runtimes h.1)

  get-AllServe :
      (size : ℕ) (ranges : Bool) (k : ℕ) (runtimes : Map (List LaneRuntime))
      → AllServe size ranges runtimes
      → All (λ r. P r size ranges) (or_empty (Map.get k runtimes))
  unfolding Map.get
  get-AllServe size ranges k [] h = tt
  get-AllServe size ranges k ((j, rs) ∷ runtimes) h =
      if-holds (λ o. All (λ r. P r size ranges) (or_empty o)) (j == k) (some rs)
        (Map.get k runtimes) h.0 (get-AllServe size ranges k runtimes h.1)

  push_runtime-AllServe :
      (size : ℕ) (ranges : Bool) (r : LaneRuntime) (runtimes : Map (List LaneRuntime))
      → P r size ranges
      → AllServe size ranges runtimes
      → AllServe size ranges (push_runtime r runtimes)
  unfolding push_runtime Map.insert
  push_runtime-AllServe size ranges r runtimes p h = (
    All-append (λ x. P x size ranges) (or_empty (Map.get r.lane_id runtimes)) (r ∷ [])
        (get-AllServe size ranges r.lane_id runtimes h) (p, tt),
    remove-AllServe size ranges r.lane_id runtimes h,
  )

  -- A pool without a size is empty.
  abbrev pub IsSized : Bool → Option ℕ → Map (List LaneRuntime) → Type 0
  IsSized ranges none runtimes = runtimes ≡ []
  IsSized ranges (some size) runtimes = AllServe size ranges runtimes

  abbrev pub AreSized : Pools → Type 0
  AreSized pools =
      IsSized true pools.range_file_size pools.range_runtimes
      × IsSized false pools.fallback_file_size pools.fallback_runtimes

  drop_fallback-IsSized :
      (size : ℕ) (o : Option ℕ) (pools : Pools)
      → IsSized false pools.fallback_file_size pools.fallback_runtimes
      → let dropped = drop_fallback size o pools in
        IsSized false dropped.fallback_file_size dropped.fallback_runtimes
  drop_fallback-IsSized size none pools h = h
  drop_fallback-IsSized size (some fallback) pools h =
      if-holds (λ q. IsSized false q.fallback_file_size q.fallback_runtimes) (fallback == size)
        pools
        (record pools {
          fallback_candidates = [];
          fallback_runtimes = Map.empty;
          fallback_file_size = none;
        })
        h refl

  to_AllServe :
      (ranges : Bool) (size : ℕ) (o : Option ℕ) (runtimes : Map (List LaneRuntime))
      → o ≡ some size
      → IsSized ranges o runtimes
      → AllServe size ranges runtimes
  to_AllServe ranges size o runtimes e h = subst (λ x. IsSized ranges x runtimes) e h

  from_AllServe :
      (ranges : Bool) (size : ℕ) (o : Option ℕ) (runtimes : Map (List LaneRuntime))
      → o ≡ some size
      → AllServe size ranges runtimes
      → IsSized ranges o runtimes
  from_AllServe ranges size o runtimes e h = subst (λ x. IsSized ranges x runtimes) (sym e) h

  drop_fallback-range :
      (size n : ℕ) (o : Option ℕ) (pools : Pools)
      → pools.range_file_size ≡ some n
      → pools.range_runtimes ≡ []
      → let dropped = drop_fallback size o pools in
        (dropped.range_file_size ≡ some n) × (dropped.range_runtimes ≡ [])
  drop_fallback-range size n none pools e f = (e, f)
  drop_fallback-range size n (some fallback) pools e f =
      if-holds (λ q. (q.range_file_size ≡ some n) × (q.range_runtimes ≡ [])) (fallback == size)
        pools
        (record pools {
          fallback_candidates = [];
          fallback_runtimes = Map.empty;
          fallback_file_size = none;
        })
        (e, f) (e, f)

  with_ranges-AreSized :
      (size : ℕ) (r : LaneRuntime) (o : Option ℕ) (pools : Pools)
      → pools.range_file_size ≡ o
      → P r size true
      → AreSized pools
      → AreSized (with_ranges size r o pools)
  with_ranges-AreSized size r (some expected) pools e p (ranged, fallback) =
      elim (Bool-cases (expected == size)) [
        | inl t ↦
            let same : expected ≡ size = ground arith in
            let serves =
              to_AllServe true size pools.range_file_size pools.range_runtimes (rw same at e)
                ranged in
            rw t (
              from_AllServe true size pools.range_file_size (push_runtime r pools.range_runtimes)
                  (rw same at e) (push_runtime-AllServe size true r pools.range_runtimes p serves),
              fallback,
            )
        | inr t ↦ rw t (ranged, fallback)
      ]
  with_ranges-AreSized size r none pools e p (ranged, fallback) =
      let empty : pools.range_runtimes ≡ [] =
        subst (λ x. IsSized true x pools.range_runtimes) e ranged in
      let sized = record pools { range_file_size = some size } in
      let dropped = drop_fallback size pools.fallback_file_size sized in
      let (is_size, none_yet) =
        drop_fallback-range size size pools.fallback_file_size sized refl empty in
      (
        from_AllServe true size dropped.range_file_size (push_runtime r dropped.range_runtimes)
            is_size
            (push_runtime-AllServe size true r dropped.range_runtimes p
              (subst (AllServe size true) (sym none_yet) tt)),
        drop_fallback-IsSized size pools.fallback_file_size sized fallback,
      )

  first_fallback-AreSized :
      (size : ℕ) (r : LaneRuntime) (o : Option ℕ) (pools : Pools)
      → pools.fallback_file_size ≡ o
      → P r size false
      → AreSized pools
      → AreSized (first_fallback size r o pools)
  first_fallback-AreSized size r (some expected) pools e p (ranged, fallback) =
      elim (Bool-cases (expected == size)) [
        | inl t ↦
            let same : expected ≡ size = ground arith in
            let serves =
              to_AllServe false size pools.fallback_file_size pools.fallback_runtimes (rw same at e)
                fallback in
            rw t (
              ranged,
              from_AllServe false size pools.fallback_file_size
                  (push_runtime r pools.fallback_runtimes) (rw same at e)
                  (push_runtime-AllServe size false r pools.fallback_runtimes p serves),
            )
        | inr t ↦ rw t (ranged, fallback)
      ]
  first_fallback-AreSized size r none pools e p (ranged, fallback) =
      let empty : pools.fallback_runtimes ≡ [] =
        subst (λ x. IsSized false x pools.fallback_runtimes) e fallback in
      (
        ranged,
        push_runtime-AllServe size false r pools.fallback_runtimes p
            (subst (AllServe size false) (sym empty) tt),
      )

  without_ranges-AreSized :
      (size : ℕ) (r : LaneRuntime) (o : Option ℕ) (pools : Pools)
      → P r size false
      → AreSized pools
      → AreSized (without_ranges size r o pools)
  without_ranges-AreSized size r (some ranged) pools p h = h
  without_ranges-AreSized size r none pools p h =
      first_fallback-AreSized size r pools.fallback_file_size pools refl p h

  sort_probe-AreSized :
      (answer : Option (ℕ × Bool)) (r : LaneRuntime) (pools : Pools)
      → Passes r answer
      → AreSized pools
      → AreSized (sort_probe answer r pools)
  sort_probe-AreSized none r pools p h = h
  sort_probe-AreSized (some (size, true)) r pools p h =
      with_ranges-AreSized size r pools.range_file_size pools refl p h
  sort_probe-AreSized (some (size, false)) r pools p h =
      without_ranges-AreSized size r pools.range_file_size pools p h

  pub sort_probes-AreSized :
      (probes : List Probe) (pools : Pools)
      → All (λ p. Passes (measured_runtime p) p.answer) probes
      → AreSized pools
      → AreSized (sort_probes probes pools)
  unfolding sort_probes
  sort_probes-AreSized [] pools ps h = h
  sort_probes-AreSized (p ∷ probes) pools ps h =
      sort_probes-AreSized probes (sort_probe p.answer (measured_runtime p) pools) ps.1
        (sort_probe-AreSized p.answer (measured_runtime p) pools ps.0 h)
