-- ===== src/Lane/History.antt =====
-- The life of a `MultiRuntime` of src/lane.rs: the calls that its users make of it, in any order.
use simple_downloader.Prelude.{ℕ, ◌≡◌, List, Option}
use simple_downloader.Lane.{
  LaneId, LaneModel, LaneCandidate, from_candidates, release_chunk, record_failure, record_success,
  best_lane,
}
use simple_downloader.Lane.Runtime.{
  MultiRuntime, claim_request_builder, next_runtime, primary_lane, on_scheduler,
}

-- A call, with the reading of the clock that it takes.
pub data Step : Type 0 where
  claims looks : (now : ℕ) → Step
  chooses : (now : ℕ) → Step
  turns : LaneId → Step
  releases succeeds : LaneId → Step
  fails : (now : ℕ) → LaneId → Step

unfoldable pub apply : Step → MultiRuntime → MultiRuntime
unfolding claim_request_builder primary_lane best_lane next_runtime release_chunk record_failure
    record_success
apply (claims now) m = (claim_request_builder now m).1
apply (looks now) m = (primary_lane now m).1
apply (chooses now) m = record m { scheduler = (best_lane now m.scheduler).1 }
apply (turns id) m = (next_runtime id m).1
apply (releases id) m = on_scheduler (release_chunk id) m
apply (succeeds id) m = on_scheduler (record_success id) m
apply (fails now id) m = on_scheduler (record_failure now id) m

-- The states that any sequence of calls leads to, from a scheduler of any candidates and limits.
pub data Reachable : MultiRuntime → Type 0 where
  start :
      (m : MultiRuntime) (candidates : List LaneCandidate) (model : LaneModel)
      → (workers per_lane : ℕ) (per_source : Option ℕ)
      → m.scheduler ≡ from_candidates candidates model workers per_lane per_source
      → Reachable m
  after : (step : Step) (m : MultiRuntime) → Reachable m → Reachable (apply step m)
