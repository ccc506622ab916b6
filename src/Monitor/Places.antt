-- ===== src/Monitor/Places.antt =====
-- The chunks that are bound to a lane in src/monitor.rs have a place in it.
use simple_downloader.Prelude.{
  ℕ, ◌+◌, ◌≤◌, ◌≡◌, refl, sym, inl, inr, [], ◌∷◌, Option, none, some, ◌==◌, weigh, Bool-cases,
  arith, some-injective, subst,
}
use simple_downloader.Prelude.Map
use simple_downloader.Prelude.Map.{Map}
use simple_downloader.Types.{ChunkId}
use simple_downloader.Lane.{
  LaneId, best_lane, decay_expired_blacklists, assign_chunk, record_success, record_failure,
}
use simple_downloader.Lane.Runtime.{
  LaneRuntime, MultiRuntime, claimed, claim_lane, claim_request_builder, next_runtime, on_scheduler,
}
use simple_downloader.Lane.History.{
  Reachable, after, claims, chooses, releases, succeeds, fails, apply,
}
use simple_downloader.Lane.Invariant.{next_of-scheduler}
use simple_downloader.Lane.Change.{Distinct}
use simple_downloader.Lane.Capacity.{Reachable-Distinct}
use simple_downloader.Lane.Slots.{
  is_at, active_at, decay-active_at, record_failure-active_at, record_success-active_at,
  release_chunk-active_at, best_lane-active_at,
}
use simple_downloader.Monitor.{Request, request_for, build_request, bind_lane}
use simple_downloader.Monitor.Info.{settle_lane, after_success, after_failure}

-- The chunks that are bound to the lane.
abbrev pub bound : LaneId → Map LaneId → ℕ
bound k bindings = weigh (λ e. is_at k e.1) bindings

bound-remove : (k id : ℕ) (b : Map LaneId) → bound k (Map.remove id b) ≤ bound k b
unfolding Map.remove
bound-remove k id [] = omega arith
bound-remove k id ((j, v) ∷ b) = ground (arith, bound-remove k id b)

bound-remove_found :
    (k id lane : ℕ) (b : Map LaneId)
    → Map.get id b ≡ some lane
    → bound k (Map.remove id b) + is_at k lane ≤ bound k b
unfolding Map.remove Map.get
bound-remove_found k id lane [] h = absurd (cc)
bound-remove_found k id lane ((j, v) ∷ b) h = elim (Bool-cases (j == id)) [
  | inl t ↦
      let same : v ≡ lane = some-injective v lane (rw t at h) in
      rw t (rw same (omega (arith, bound-remove k id b)))
  | inr t ↦ rw t (omega (arith, bound-remove_found k id lane b (rw t at h)))
]

bound-insert :
    (k id lane : ℕ) (b : Map LaneId) → bound k (Map.insert id lane b) ≤ bound k b + is_at k lane
unfolding Map.insert
bound-insert k id lane b = omega (arith, bound-remove k id b)

-- A download by lanes has a place for each chunk that is bound.
abbrev pub HasPlaces : Map LaneId → Option MultiRuntime → Type 0
HasPlaces b none = Unit
HasPlaces b (some m) = Reachable m × ((k : LaneId) → bound k b ≤ active_at k m.scheduler)

-- The place that a request has taken.
abbrev place : LaneId → Option (Option LaneId × Request) → ℕ
place k none = 0
place k (some (none, request)) = 0
place k (some (some lane, request)) = is_at k lane

abbrev pub IsPlaced : Map LaneId → Option (Option LaneId × Request) → Option MultiRuntime → Type 0
IsPlaced b target none = Unit
IsPlaced b target (some m) =
    Reachable m × ((k : LaneId) → bound k b + place k target ≤ active_at k m.scheduler)

claimed-place :
    (id : LaneId) (r : Option LaneRuntime × MultiRuntime) (k n : ℕ)
    → n + is_at k id ≤ active_at k r.1.scheduler
    → n + place k (request_for (claimed id r).0) ≤ active_at k (claimed id r).1.scheduler
claimed-place id (none, m) k n h = omega (arith, h)
claimed-place id (some runtime, m) k n h = h

claim_lane-place :
    (o : Option LaneId) (m : MultiRuntime) (k n : ℕ)
    → n ≤ active_at k m.scheduler
    → ((id : LaneId) → o ≡ some id → n + is_at k id ≤ active_at k (assign_chunk id m.scheduler))
    → n + place k (request_for (claim_lane o m).0) ≤ active_at k (claim_lane o m).1.scheduler
claim_lane-place none m k n h found = unfold claim_lane in omega (arith, h)
claim_lane-place (some id) m k n h found =
    let assigned = record m { scheduler = assign_chunk id m.scheduler } in
    let taken = next_runtime id assigned in
    let same : taken.1.scheduler ≡ assign_chunk id m.scheduler =
      unfold next_runtime in next_of-scheduler id (Map.get id m.runtimes) assigned in
    unfold claim_lane in
    claimed-place id taken k n
      (subst (λ t. n + is_at k id ≤ active_at k t) (sym same) (found id refl))

pub build_request-IsPlaced :
    (now : ℕ) (url : Option ℕ) (b : Map LaneId) (rt : Option MultiRuntime)
    → HasPlaces b rt
    → IsPlaced b (build_request now url rt).0 (build_request now url rt).1
unfolding build_request
build_request-IsPlaced now url b none h = tt
build_request-IsPlaced now url b (some m) (reached, places) =
    let s = decay_expired_blacklists now m.scheduler in
    let decayed = record m { scheduler = s } in
    let distinct : Distinct s.lanes =
      unfold apply best_lane in
      Reachable-Distinct (apply (chooses now) m) (after (chooses now) m reached) in
    let one_more_claim : Reachable (claim_request_builder now m).1 =
      unfold apply in after (claims now) m reached in
    (
      one_more_claim,
      λ k.
          unfold claim_request_builder best_lane in
          claim_lane-place (best_lane now m.scheduler).0 decayed k (bound k b)
            (omega (arith, places k, decay-active_at now k m.scheduler))
            (λ id found.
              omega (arith, places k, best_lane-active_at now m.scheduler id distinct found k)),
    )

pub IsPlaced-HasPlaces :
    (b : Map LaneId) (rt : Option MultiRuntime) → IsPlaced b none rt → HasPlaces b rt
IsPlaced-HasPlaces b none h = tt
IsPlaced-HasPlaces b (some m) (reached, h) = (reached, λ k. omega (arith, h k))

pub bind_lane-HasPlaces :
    (id : ChunkId) (lane : Option LaneId) (request : Request) (b : Map LaneId)
    (rt : Option MultiRuntime)
    → IsPlaced b (some (lane, request)) rt
    → HasPlaces (bind_lane id lane b) rt
bind_lane-HasPlaces id lane request b none h = tt
bind_lane-HasPlaces id none request b (some m) (reached, h) = (reached, λ k. omega (arith, h k))
bind_lane-HasPlaces id (some lane) request b (some m) (reached, h) =
    (reached, λ k. omega (arith, h k, bound-insert k id lane b))

-- What a chunk's end does to its lane, in a history of calls.
abbrev IsReturn : (LaneId → MultiRuntime → MultiRuntime) → Type 0
IsReturn f =
    (lane : LaneId) (m : MultiRuntime)
    → Reachable m
    → Reachable (f lane m)
      × ((k : LaneId) → active_at k m.scheduler ≤ active_at k (f lane m).scheduler + is_at k lane)

pub after_success-IsReturn : IsReturn after_success
after_success-IsReturn lane m r =
    let told = on_scheduler (record_success lane) m in
    let reached : Reachable (after_success lane m) =
      unfold apply in after (releases lane) told (after (succeeds lane) m r) in
    (
      reached,
      λ k. omega (
        arith,
        record_success-active_at lane k m.scheduler,
        release_chunk-active_at lane k told.scheduler,
      ),
    )

pub after_failure-IsReturn : (now : ℕ) → IsReturn (after_failure now)
after_failure-IsReturn now lane m r =
    let told = on_scheduler (record_failure now lane) m in
    let reached : Reachable (after_failure now lane m) =
      unfold apply in after (releases lane) told (after (fails now lane) m r) in
    (
      reached,
      λ k. omega (
        arith,
        record_failure-active_at now lane k m.scheduler,
        release_chunk-active_at lane k told.scheduler,
      ),
    )

pub settle_lane-HasPlaces :
    (f : LaneId → MultiRuntime → MultiRuntime) (id : ChunkId)
    → (o : Option LaneId) (b : Map LaneId) (rt : Option MultiRuntime) → IsReturn f
    → Map.get id b ≡ o
    → HasPlaces b rt
    → HasPlaces (Map.remove id b) (settle_lane f o rt)
settle_lane-HasPlaces f id none b none back e h = tt
settle_lane-HasPlaces f id none b (some m) back e (reached, h) =
    (reached, λ k. omega (arith, h k, bound-remove k id b))
settle_lane-HasPlaces f id (some lane) b none back e h = tt
settle_lane-HasPlaces f id (some lane) b (some m) back e (reached, h) =
    let (reached', returned) = back lane m reached in
    (reached', λ k. omega (arith, h k, returned k, bound-remove_found k id lane b e))
