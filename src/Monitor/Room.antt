-- ===== src/Monitor/Room.antt =====
-- Over the loop of src/monitor.rs no lane serves more chunks than it has places.
use simple_downloader.Prelude.{
  ℕ, ◌+◌, ◌-◌, ◌≤◌, ◌≡◌, refl, inl, inr, min, Bool, true, false, List, [], ◌∷◌, ◌++◌, Option, none,
  some, ltb, leb, ◌==◌, if◌then◌else◌, All, weigh, Bool-cases, if-holds, arith, u32_mod,
}
use simple_downloader.Prelude.Map
use simple_downloader.Types.{terminate_all}
use simple_downloader.State.{total_downloaded}
use simple_downloader.Retry.Queues.{has_permanent_failure, fail_stalled}
use simple_downloader.Lane.{LaneId, LaneEntry, id_of}
use simple_downloader.Lane.Change.{is_lane}
use simple_downloader.Lane.Runtime.{MultiRuntime}
use simple_downloader.Lane.Capacity.{Reachable-Distinct, Reachable-IsBounded}
use simple_downloader.Lane.Slots.{active_in, active_at}
use simple_downloader.Monitor.{
  Session, commands, send_monitor_update, is_reliable_event, failed, finished,
}
use simple_downloader.Monitor.Info.{handle_download_info}
use simple_downloader.Monitor.Tick.{
  Tick, set_handler, tick_work, check_stall, is_stalled, handle_tick, is_short_circuit, is_all_done,
  stall_limit, shortest_tick_ns,
}
use simple_downloader.Monitor.Loop.{
  Event, reliable, reliable_closed, joined, closed, heard, lagged, ticks, fail_fast, finish_if,
  add_lagged, handle, is_running, step, run,
}
use simple_downloader.Monitor.Places.{bound, HasPlaces}
use simple_downloader.Monitor.Slots.{HasSlots, info-HasSlots, tick_work-HasSlots}

fail_fast-HasSlots : (s : Session) → HasSlots s → HasSlots (fail_fast s)
unfolding fail_fast
fail_fast-HasSlots s h =
    if-holds HasSlots (has_permanent_failure s.monitor.retry_handler)
      (record s { status = failed; sent = s.sent ++ commands terminate_all ∷ [] }) s h h

check_stall-HasSlots : (now : ℕ) (s : Session) → HasSlots s → HasSlots (check_stall now s)
unfolding check_stall
check_stall-HasSlots now s h =
    let ticks_now = min (s.monitor.stall_ticks + 1) (u32_mod - 1) in
    let state = s.monitor.state in
    let counted = record s { monitor = record s.monitor { stall_ticks = ticks_now } } in
    let reset = record s { monitor = record s.monitor { stall_ticks = 0 } } in
    let lost =
      set_handler
        (fail_stalled now (total_downloaded state) state.total_file_size s.monitor.retry_handler)
        counted in
    if-holds HasSlots (is_stalled s) (if leb stall_limit ticks_now then lost else counted) reset
      (if-holds HasSlots (leb stall_limit ticks_now) lost counted h h) h

handle_tick-HasSlots : (t : Tick) (s : Session) → HasSlots s → HasSlots (handle_tick t s).1
unfolding handle_tick
handle_tick-HasSlots t s h =
    let Good : Bool × Session → Type 0 = λ p. HasSlots p.1 in
    let worked = tick_work t s in
    let checked = check_stall t.now worked in
    let after_work = tick_work-HasSlots t s h in
    let rest : Bool × Session =
      if is_short_circuit worked then (true, worked) else (is_all_done checked, checked) in
    if-holds Good (ltb t.elapsed_ns shortest_tick_ns) (false, s) rest h
      (if-holds Good (is_short_circuit worked) (true, worked) (is_all_done checked, checked)
        after_work (check_stall-HasSlots t.now worked after_work))

finish_if-HasSlots : (p : Bool × Session) → HasSlots p.1 → HasSlots (finish_if p)
finish_if-HasSlots (true, s) h = h
finish_if-HasSlots (false, s) h = fail_fast-HasSlots s h

handle-HasSlots : (e : Event) (s : Session) → HasSlots s → HasSlots (handle e s)
unfolding handle
handle-HasSlots (reliable clock info) s h =
    let t = handle_download_info clock info s in
    if-holds HasSlots s.reliable_open (fail_fast t) s
      (fail_fast-HasSlots t (info-HasSlots clock info s h)) h
handle-HasSlots reliable_closed s h = h
handle-HasSlots joined s h =
    let left = record s { tasks = s.tasks - 1 } in
    let done = record left { status = finished } in
    if-holds HasSlots (s.tasks == 0) s (if is_all_done left then done else left) h
      (if-holds HasSlots (is_all_done left) done left h h)
handle-HasSlots closed s h = h
handle-HasSlots (heard clock info) s h =
    let t = handle_download_info clock info s in
    let next = if is_reliable_event info then s else t in
    fail_fast-HasSlots next
      (if-holds HasSlots (is_reliable_event info) s t h (info-HasSlots clock info s h))
handle-HasSlots (lagged skipped seconds) s h = unfold send_monitor_update add_lagged in h
handle-HasSlots (ticks t) s h = finish_if-HasSlots (handle_tick t s) (handle_tick-HasSlots t s h)

step-HasSlots : (s : Session) (e : Event) → HasSlots s → HasSlots (step s e)
unfolding step
step-HasSlots s e h =
    let checked = fail_fast s in
    let safe = fail_fast-HasSlots s h in
    let next = if is_running checked.status then handle e checked else checked in
    if-holds HasSlots (is_running s.status) next s
      (if-holds HasSlots (is_running checked.status) (handle e checked) checked
        (handle-HasSlots e checked safe) safe)
      h

run_all-HasSlots : (s : Session) (events : List Event) → HasSlots s → HasSlots (run s events)
unfolding run
run_all-HasSlots s [] h = h
run_all-HasSlots s (e ∷ events) h = run_all-HasSlots (step s e) events (step-HasSlots s e h)

active_in_none :
    (k : LaneId) (lanes : List LaneEntry)
    → weigh (is_lane k) lanes ≡ 0
    → weigh (active_in k) lanes ≡ 0
active_in_none k [] h = refl
active_in_none k (x ∷ lanes) h = elim (Bool-cases (id_of x == k)) [
  | inl t ↦ absurd (ground arith)
  | inr t ↦ rw t (omega (arith, active_in_none k lanes (omega (arith, rw t at h))))
]

active_in_max :
    (k n : ℕ) (lanes : List LaneEntry)
    → weigh (is_lane k) lanes ≤ 1
    → All (λ e. e.active_chunks ≤ n) lanes
    → weigh (active_in k) lanes ≤ n
active_in_max k n [] h a = omega arith
active_in_max k n (x ∷ lanes) h a = elim (Bool-cases (id_of x == k)) [
  | inl t ↦ rw t (omega (arith, a.0, active_in_none k lanes (omega (arith, rw t at h))))
  | inr t ↦ rw t (omega (arith, active_in_max k n lanes (omega (arith, rw t at h)) a.1))
]

-- No lane serves more chunks than it has assigned, or than a lane may.
abbrev pub HasRoom : Map.Map LaneId → Option MultiRuntime → Type 0
HasRoom b none = Unit
HasRoom b (some m) =
    (k : LaneId)
    → (bound k b ≤ active_at k m.scheduler)
      × (active_at k m.scheduler ≤ m.scheduler.max_chunks_per_lane)

HasPlaces-HasRoom : (b : Map.Map LaneId) (rt : Option MultiRuntime) → HasPlaces b rt → HasRoom b rt
HasPlaces-HasRoom b none h = tt
HasPlaces-HasRoom b (some m) (r, h) = λ k. (
  h k,
  active_in_max k m.scheduler.max_chunks_per_lane m.scheduler.lanes (Reachable-Distinct m r k)
      (Reachable-IsBounded m r).1,
)

-- Over any sequence of events, whatever the sources answer: if the lanes come from a history of a
-- `MultiRuntime` and hold a place for each chunk that is bound at first, then in every lane the chunks
-- that are bound to it are at most its active chunks, and these at most `max_chunks_per_lane`.
pub run-HasRoom :
    (s : Session) (events : List Event)
    → HasPlaces s.monitor.lane_bindings s.multi_runtime
    → HasRoom (run s events).monitor.lane_bindings (run s events).multi_runtime
run-HasRoom s events h =
    HasPlaces-HasRoom (run s events).monitor.lane_bindings (run s events).multi_runtime
      (run_all-HasSlots s events h)
