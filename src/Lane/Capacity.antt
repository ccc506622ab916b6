-- ===== src/Lane/Capacity.antt =====
-- The limits of the scheduler of src/lane.rs: by download, by lane and by source.
use simple_downloader.Prelude.{
  ℕ, ◌≤◌, ◌≡◌, refl, subst, some-injective, inl, inr, true, false, List, Option, none, some, ◌==◌,
  All, Bool-cases, arith,
}
use simple_downloader.Lane.{
  LaneId, LaneModel, per_source, per_source_proxy, LaneCandidate, LaneEntry, LaneScheduler, id_of,
  fresh_entry, from_candidates, active_of, total_active_chunks, active_of_source,
  source_active_chunks, find, is_eligible, select_lane, decay_entry, decay_expired_blacklists,
  or_blacklisted, best_lane, one_less, failed_once, succeeded, assign_chunk, release_chunk,
  record_failure, record_success,
}
use simple_downloader.Lane.Change.{Distinct}
use simple_downloader.Lane.Runtime.{MultiRuntime}
use simple_downloader.Lane.History.{Reachable}
use simple_downloader.Lane.Invariant.{IsKept, Reachable-IsKept}
use simple_downloader.Lane.Start.{
  from_candidates-Distinct, from_candidates_idle, from_candidates-All,
}
use simple_downloader.Lane.Bounds.{
  IsWithin, IsBounded, on_lane-IsBounded, map-IsBounded, decay_entry-Shrinks, failed_once-Shrinks,
  assign_chunk-IsBounded,
}

abbrev IsGood : LaneScheduler → Type 0
IsGood s = Distinct s.lanes × IsBounded s

assign_best-IsGood :
    (s : LaneScheduler) (o o' : Option LaneEntry)
    → find (is_eligible s false) s.lanes ≡ o
    → find (is_eligible s true) s.lanes ≡ o'
    → IsGood s
    → (id : LaneId) → or_blacklisted o o' ≡ some id
    → IsGood (assign_chunk id s)
assign_best-IsGood s none none h k g id found = absurd (cc)
assign_best-IsGood s none (some e) h k g id found =
    subst (λ i. IsGood (assign_chunk i s)) (some-injective (id_of e) id found)
      (assign_chunk-IsBounded s true e k g)
assign_best-IsGood s (some e) o' h k g id found =
    subst (λ i. IsGood (assign_chunk i s)) (some-injective (id_of e) id found)
      (assign_chunk-IsBounded s false e h g)

decay-IsGood : (now : ℕ) (s : LaneScheduler) → IsGood s → IsGood (decay_expired_blacklists now s)
unfolding decay_expired_blacklists
decay-IsGood now s g = map-IsBounded (decay_entry now) (decay_entry-Shrinks now) s g

none-IsWithin : (model : LaneModel) (limit : Option ℕ) (n : ℕ) → n ≡ 0 → IsWithin model limit n
none-IsWithin per_source none n h = tt
none-IsWithin per_source (some limit) n h = omega arith
none-IsWithin per_source_proxy limit n h = tt

no_source : (source : ℕ) (c : LaneCandidate) → active_of_source source (fresh_entry c) ≡ 0
no_source source c = elim (Bool-cases (c.source_id == source)) [
  | inl t ↦ rw t refl
  | inr t ↦ rw t refl
]

start-IsGood :
    (candidates : List LaneCandidate) (model : LaneModel) (workers per_lane : ℕ)
    → (limit : Option ℕ) → IsGood (from_candidates candidates model workers per_lane limit)
start-IsGood candidates model workers per_lane limit =
    let idle = from_candidates_idle candidates model workers per_lane limit in
    let s = from_candidates candidates model workers per_lane limit in
    (
      from_candidates-Distinct candidates model workers per_lane limit,
      (
        omega (arith, idle active_of (λ c. refl)),
        from_candidates-All candidates model workers per_lane limit
            (λ e. e.active_chunks ≤ s.max_chunks_per_lane) (λ c. omega arith),
        λ source.
            none-IsWithin s.lane_model s.max_chunks_per_source (source_active_chunks s source)
              (idle (active_of_source source) (no_source source)),
      ),
    )

IsGood-IsKept : IsKept IsGood
IsGood-IsKept = record {
  from_start = start-IsGood;
  by_decay = decay-IsGood;
  by_claim = λ now s id found decayed.
      let t = decay_expired_blacklists now s in
      unfold best_lane select_lane in
      assign_best-IsGood t (select_lane t false) (select_lane t true) refl refl decayed id found;
  by_release = λ id s g.
      unfold release_chunk in on_lane-IsBounded one_less (λ e. (refl, refl, omega arith)) id s g;
  by_success = λ id s g.
      unfold record_success in on_lane-IsBounded succeeded (λ e. (refl, refl, omega arith)) id s g;
  by_failure = λ now id s g.
      unfold record_failure in on_lane-IsBounded (failed_once now) (failed_once-Shrinks now) id s g;
}

pub Reachable-Distinct : (m : MultiRuntime) → Reachable m → Distinct m.scheduler.lanes
Reachable-Distinct m r = (Reachable-IsKept IsGood IsGood-IsKept m r).0

-- In any history of a `MultiRuntime` the chunks in all lanes are at most `max_workers`, those in a
-- lane at most `max_chunks_per_lane`, and those of a source at most `max_chunks_per_source`, where
-- lanes are by source and that limit is set.
pub Reachable-IsBounded :
    (m : MultiRuntime)
    → Reachable m
    → (total_active_chunks m.scheduler ≤ m.scheduler.max_workers)
      × All (λ e. e.active_chunks ≤ m.scheduler.max_chunks_per_lane) m.scheduler.lanes
      × ((source : ℕ)
          → IsWithin m.scheduler.lane_model m.scheduler.max_chunks_per_source
              (source_active_chunks m.scheduler source))
Reachable-IsBounded m r = (Reachable-IsKept IsGood IsGood-IsKept m r).1
