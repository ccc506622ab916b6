-- ===== src/Lane/Invariant.antt =====
-- How a property of the scheduler is shown for any history of a `MultiRuntime` of src/lane.rs.
use simple_downloader.Prelude.{ℕ, ◌%◌, ◌≡◌, refl, ◌∙◌, List, Option, none, some, length, get_elem?}
use simple_downloader.Prelude.Map
use simple_downloader.Lane.{
  LaneId, LaneModel, LaneCandidate, LaneScheduler, from_candidates, decay_expired_blacklists,
  best_lane, assign_chunk, release_chunk, record_failure, record_success,
}
use simple_downloader.Lane.Runtime.{
  LaneRuntime, MultiRuntime, or_zero, turn_to, claimed, next_of, next_runtime, claim_lane,
  claim_request_builder, primary_lane,
}
use simple_downloader.Lane.History.{
  Step, claims, looks, chooses, turns, releases, succeeds, fails, apply, Reachable, start, after,
}

turn_to-scheduler :
    (id : LaneId) (index : ℕ) (o : Option LaneRuntime) (m : MultiRuntime)
    → (turn_to id index o m).1.scheduler ≡ m.scheduler
turn_to-scheduler id index none m = refl
turn_to-scheduler id index (some runtime) m = refl

pub next_of-scheduler :
    (id : LaneId) (o : Option (List LaneRuntime)) (m : MultiRuntime)
    → (next_of id o m).1.scheduler ≡ m.scheduler
next_of-scheduler id none m = refl
next_of-scheduler id (some runtimes) m =
    let index = or_zero (Map.get id m.next_runtime_index) in
    turn_to-scheduler id index (get_elem? runtimes (index % length runtimes)) m

claimed-scheduler :
    (id : LaneId) (r : Option LaneRuntime × MultiRuntime)
    → (claimed id r).1.scheduler ≡ r.1.scheduler
claimed-scheduler id (none, m) = refl
claimed-scheduler id (some runtime, m) = refl

claim_lane-scheduler :
    (id : LaneId) (m : MultiRuntime)
    → (claim_lane (some id) m).1.scheduler ≡ assign_chunk id m.scheduler
unfolding claim_lane next_runtime
claim_lane-scheduler id m =
    let assigned = record m { scheduler = assign_chunk id m.scheduler } in
    claimed-scheduler id (next_runtime id assigned)
    ∙ next_of-scheduler id (Map.get id m.runtimes) assigned

-- What a property has to be kept by.
pub record IsKept (P : LaneScheduler → Type 0) : Type 0 where
  pub from_start :
      (candidates : List LaneCandidate) (model : LaneModel) (workers per_lane : ℕ)
      → (per_source : Option ℕ) → P (from_candidates candidates model workers per_lane per_source)
  pub by_decay : (now : ℕ) (s : LaneScheduler) → P s → P (decay_expired_blacklists now s)
  pub by_claim :
      (now : ℕ) (s : LaneScheduler) (id : LaneId)
      → (best_lane now s).0 ≡ some id
      → P (decay_expired_blacklists now s)
      → P (assign_chunk id (decay_expired_blacklists now s))
  pub by_release : (id : LaneId) (s : LaneScheduler) → P s → P (release_chunk id s)
  pub by_success : (id : LaneId) (s : LaneScheduler) → P s → P (record_success id s)
  pub by_failure : (now : ℕ) (id : LaneId) (s : LaneScheduler) → P s → P (record_failure now id s)

module _ (P : LaneScheduler → Type 0) (kept : IsKept P) where
  claim_lane-IsKept :
      (o : Option LaneId) (m : MultiRuntime)
      → ((id : LaneId) → o ≡ some id → P (assign_chunk id m.scheduler))
      → P m.scheduler
      → P (claim_lane o m).1.scheduler
  claim_lane-IsKept none m h g = unfold claim_lane in g
  claim_lane-IsKept (some id) m h g = rw (claim_lane-scheduler id m) (h id refl)

  apply-IsKept : (step : Step) (m : MultiRuntime) → P m.scheduler → P (apply step m).scheduler
  unfolding apply best_lane
  apply-IsKept (claims now) m g =
      let decayed = kept.by_decay now m.scheduler g in
      unfold claim_request_builder in
      claim_lane-IsKept (best_lane now m.scheduler).0
        (record m { scheduler = decay_expired_blacklists now m.scheduler })
        (λ id e. kept.by_claim now m.scheduler id e decayed) decayed
  apply-IsKept (looks now) m g = unfold primary_lane in kept.by_decay now m.scheduler g
  apply-IsKept (chooses now) m g = kept.by_decay now m.scheduler g
  apply-IsKept (turns id) m g =
      unfold next_runtime in rw (next_of-scheduler id (Map.get id m.runtimes) m) g
  apply-IsKept (releases id) m g = kept.by_release id m.scheduler g
  apply-IsKept (succeeds id) m g = kept.by_success id m.scheduler g
  apply-IsKept (fails now id) m g = kept.by_failure now id m.scheduler g

  pub Reachable-IsKept : (m : MultiRuntime) → Reachable m → P m.scheduler
  Reachable-IsKept m (start n candidates model workers per_lane limit e) =
      rw e (kept.from_start candidates model workers per_lane limit)
  Reachable-IsKept m (after step t r) = apply-IsKept step t (Reachable-IsKept t r)
