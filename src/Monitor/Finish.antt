-- ===== src/Monitor/Finish.antt =====
-- When the loop of src/monitor.rs ends without an error.
use simple_downloader.Prelude.{
  ℕ, ◌-◌, ◌≤◌, ◌≡◌, ◌⊎◌, ◌∙◌, ap, refl, sym, inl, inr, Bool, true, false, List, [], ◌∷◌, ◌++◌,
  Option, none, some, ltb, leb, ◌==◌, if◌then◌else◌, Bool-cases, if-holds, All, arith,
}
use simple_downloader.Prelude.Map
use simple_downloader.Types.{
  DownloadInfo, terminate_all, chunk_progress, download_complete, chunk_failed, chunk_bisected,
  monitor_update, chunk_status_changed,
}
use simple_downloader.State.{ChunkState, total_downloaded, is_download_finished, update_status}
use simple_downloader.Retry.Queues.{has_permanent_failure, is_empty}
use simple_downloader.Retry.Queues
use simple_downloader.Lane.{LaneId}
use simple_downloader.Monitor.{
  Session, Status, running, finished, failed, commands, informs, Request, send, build_request,
  spawn, spawn_new, is_reliable_event, send_monitor_update, are_all_tasks_done,
}
use simple_downloader.Monitor.Info.{
  contains, set_chunks, or_new, progressed, on_progress, on_complete, on_failed, shrink_chunk,
  start_or_buffer, on_bisected, handle_download_info,
}
use simple_downloader.Monitor.Tick.{
  Tick, handle_tick, tick_work, check_stall, is_all_done, is_short_circuit, queues_are_empty,
  shortest_tick_ns,
}
use simple_downloader.Monitor.Frame.{handle_tick-frame}
use simple_downloader.Monitor.Loop.{
  Event, reliable, reliable_closed, joined, closed, heard, lagged, ticks, fail_fast, finish_if,
  add_lagged, handle, is_running, step, run,
}

-- Nothing runs, nothing waits for a retry, and as many bytes are counted as the file has.
abbrev pub IsComplete : Session → Type 0
IsComplete s =
    (s.tasks ≡ 0)
    × (queues_are_empty s ≡ true)
    × ((s.monitor.state.total_file_size ≤ total_downloaded s.monitor.state)
        ⊎ (s.monitor.state.total_file_size ≤ s.monitor.state.completed_bytes))

abbrev pub is_finished : Status → Bool
is_finished finished = true
is_finished other = false

abbrev pub IsHonest : Session → Type 0
IsHonest s = (is_finished s.status ≡ false) ⊎ IsComplete s

running_lem : (status : Status) → is_running status ≡ true → is_finished status ≡ false
running_lem running h = refl
running_lem finished h = sym h
running_lem failed h = refl

abbrev IsOpen : Session → Type 0
IsOpen s = is_finished s.status ≡ false

start_or_buffer-status :
    (a b : ℕ) (o : Option (Option LaneId × Request)) (s : Session)
    → (start_or_buffer a b o s).status ≡ s.status
unfolding spawn_new spawn
start_or_buffer-status a b none s = refl
start_or_buffer-status a b (some target) s = refl

shrink_chunk-status :
    (now id start : ℕ) (o : Option ChunkState) (s : Session)
    → (shrink_chunk now id start o s).status ≡ s.status
shrink_chunk-status now id start none s = refl
shrink_chunk-status now id start (some c) s = refl

-- A message of a chunk does not end the loop.
pub info-status :
    (clock : ℕ → ℕ) (info : DownloadInfo) (s : Session)
    → (handle_download_info clock info s).status ≡ s.status
unfolding handle_download_info on_progress on_complete on_failed on_bisected
info-status clock (chunk_progress id a b d) s =
    let chunks = s.monitor.state.chunks in
    let c = progressed (clock 1) (or_new (Map.get id chunks) id a b (clock 0)) b d in
    let same = λ (t : Session). t.status ≡ s.status in
    let grown = set_chunks (Map.insert id c chunks) s in
    let back = set_chunks (Map.insert id (update_status c 0 none (clock 2)) chunks) s in
    let told = send (informs (chunk_status_changed id 0 none)) back in
    let next = if c.status == 0 then grown else told in
    if-holds same (contains id s.monitor.retired_ids) s next refl
      (if-holds same (c.status == 0) grown told refl refl)
info-status clock (download_complete id) s = refl
info-status clock (chunk_failed id a b error) s = refl
info-status clock (chunk_bisected id a b) s =
    let cut = shrink_chunk (clock 0) id a (Map.get id s.monitor.state.chunks) s in
    let answer = build_request (clock 1) s.url s.multi_runtime in
    start_or_buffer-status a b answer.0 (record cut { multi_runtime = answer.1 })
    ∙ shrink_chunk-status (clock 0) id a (Map.get id s.monitor.state.chunks) s
info-status clock (monitor_update a b c d e) s = refl
info-status clock (chunk_status_changed a b c) s = refl

fail_fast-IsHonest : (s : Session) → IsHonest s → IsHonest (fail_fast s)
unfolding fail_fast
fail_fast-IsHonest s h =
    if-holds IsHonest (has_permanent_failure s.monitor.retry_handler)
      (record s { status = failed; sent = s.sent ++ commands terminate_all ∷ [] }) s (inl refl) h

short_circuit-IsComplete : (s : Session) → is_short_circuit s ≡ true → IsComplete s
unfolding is_short_circuit
short_circuit-IsComplete s h =
    let counted : leb s.monitor.state.total_file_size (total_downloaded s.monitor.state) ≡ true =
      ground arith in
    (ground arith, ground arith, inl (ground arith))

all_done-IsComplete : (s : Session) → is_all_done s ≡ true → IsComplete s
unfolding is_all_done are_all_tasks_done Queues.are_all_tasks_done is_download_finished
all_done-IsComplete s h = (ground arith, ground arith, inr (ground arith))

-- The answer of a tick, if it says that the download is done.
handle_tick_done :
    (t : Tick) (s : Session) → ((handle_tick t s).0 ≡ false) ⊎ IsComplete (handle_tick t s).1
unfolding handle_tick
handle_tick_done t s =
    let worked = tick_work t s in
    let checked = check_stall t.now worked in
    let Good : Bool × Session → Type 0 = λ p. (p.0 ≡ false) ⊎ IsComplete p.1 in
    let rest : Bool × Session =
      if is_short_circuit worked then (true, worked) else (is_all_done checked, checked) in
    if-holds Good (ltb t.elapsed_ns shortest_tick_ns) (false, s) rest (inl refl)
      (elim (Bool-cases (is_short_circuit worked)) [
        | inl f ↦ rw f (inr (short_circuit-IsComplete worked f))
        | inr f ↦ elim (Bool-cases (is_all_done checked)) [
          | inl g ↦ rw f (inr (all_done-IsComplete checked g))
          | inr g ↦ rw f (inl g)
        ]
      ])

finish_if-IsHonest :
    (p : Bool × Session)
    → is_running p.1.status ≡ true
    → (p.0 ≡ false) ⊎ IsComplete p.1
    → IsHonest (finish_if p)
finish_if-IsHonest (true, s) r (inl e) = absurd (cc)
finish_if-IsHonest (true, s) r (inr c) = inr c
finish_if-IsHonest (false, s) r h = fail_fast-IsHonest s (inl (running_lem s.status r))

abbrev pub is_closed : Event → Bool
is_closed closed = true
is_closed other = false

handle-IsHonest :
    (e : Event) (s : Session)
    → is_running s.status ≡ true
    → is_closed e ≡ false
    → IsHonest (handle e s)
unfolding handle
handle-IsHonest (reliable clock info) s r n =
    let t = handle_download_info clock info s in
    let open_now = running_lem s.status r in
    if-holds IsHonest s.reliable_open (fail_fast t) s
      (fail_fast-IsHonest t (inl (rw (info-status clock info s) open_now))) (inl open_now)
handle-IsHonest reliable_closed s r n = inl (running_lem s.status r)
handle-IsHonest joined s r n =
    let left = record s { tasks = s.tasks - 1 } in
    let done = record left { status = finished } in
    let open_now = running_lem s.status r in
    if-holds IsHonest (s.tasks == 0) s (if is_all_done left then done else left) (inl open_now)
      (elim (Bool-cases (is_all_done left)) [
        | inl t ↦ rw t (inr (all_done-IsComplete left t))
        | inr t ↦ rw t (inl open_now)
      ])
handle-IsHonest closed s r n = absurd (cc)
handle-IsHonest (heard clock info) s r n =
    let t = handle_download_info clock info s in
    let open_now = running_lem s.status r in
    let next = if is_reliable_event info then s else t in
    fail_fast-IsHonest next (
      if-holds IsHonest (is_reliable_event info) s t (inl open_now)
        (inl (rw (info-status clock info s) open_now)))
handle-IsHonest (lagged skipped seconds) s r n =
    unfold send_monitor_update add_lagged in inl (running_lem s.status r)
handle-IsHonest (ticks t) s r n =
    finish_if-IsHonest (handle_tick t s) (rw (ap (λ p. p.2) (handle_tick-frame t s)) r)
      (handle_tick_done t s)

step-IsHonest : (s : Session) (e : Event) → is_closed e ≡ false → IsHonest s → IsHonest (step s e)
unfolding step
step-IsHonest s e n h =
    let checked = fail_fast s in
    let safe = fail_fast-IsHonest s h in
    let next = if is_running checked.status then handle e checked else checked in
    if-holds IsHonest (is_running s.status) next s
      (elim (Bool-cases (is_running checked.status)) [
        | inl t ↦ rw t (handle-IsHonest e checked t n)
        | inr t ↦ rw t safe
      ])
      h

-- Over any sequence of events among which the broadcast channel is not closed, a loop that has not
-- ended before ends without an error only when no task is left, no chunk waits for a retry, and as
-- many bytes are counted, or entered in the ledger, as the file has.
pub run-IsHonest :
    (s : Session) (events : List Event)
    → All (λ e. is_closed e ≡ false) events
    → (is_finished s.status ≡ false) ⊎ IsComplete s
    → (is_finished (run s events).status ≡ false) ⊎ IsComplete (run s events)
unfolding run
run-IsHonest s [] n h = h
run-IsHonest s (e ∷ events) n h = run-IsHonest (step s e) events n.1 (step-IsHonest s e n.0 h)
