-- ===== src/Monitor/Tick.antt =====
-- `drain_pending` and `handle_tick` of src/monitor.rs: what the monitor does at each tick.
use simple_downloader.Prelude.{
  ℕ, suc, zero, ◌+◌, ◌-◌, ◌*◌, min, Bool, true, false, ◌&&◌, List, [], ◌∷◌, ◌++◌, map, Option, none,
  some, ltb, leb, ◌==◌, if◌then◌else◌, length, u32_mod,
}
use simple_downloader.Prelude.Text.{codes, decimal}
use simple_downloader.Types.{DownloadCmd, chunk_status_changed}
use simple_downloader.State.{total_downloaded, is_download_finished}
use simple_downloader.Retry.{RetryHandler, FailedChunkInfo}
use simple_downloader.Retry.Queues.{
  is_empty, process_queues, pop_ready_chunk, push_back_retry_with_backoff, fail_stalled,
}
use simple_downloader.Lane.{LaneId}
use simple_downloader.Lane.Runtime.{MultiRuntime}
use simple_downloader.Monitor.{
  Session, Output, informs, commands, Request, send, build_request, spawn, spawn_new,
  send_monitor_update, are_all_tasks_done,
}

abbrev pub set_handler : RetryHandler → Session → Session
set_handler h s = record s { monitor = record s.monitor { retry_handler = h } }

abbrev pub set_pending : List (ℕ × ℕ) → Session → Session
set_pending pending s = record s { monitor = record s.monitor { pending_bisects = pending } }

abbrev pub set_runtime : Option MultiRuntime → Session → Session
set_runtime runtime s = record s { multi_runtime = runtime }

-- The loop of `drain_pending` over the ranges that wait: it stops at the first without a lane.
unfoldable pub drain_loop : (ℕ → ℕ) → ℕ → List (ℕ × ℕ) → Session → Session
unfolding build_request spawn_new
drain_loop clock k [] s = set_pending [] s
drain_loop clock k ((start, end) ∷ pending) s =
    let (target, runtime) = build_request (clock k) s.url s.multi_runtime in
    elim target [
      | none ↦ set_pending ((start, end) ∷ pending) (set_runtime runtime s)
      | some found ↦
          drain_loop clock (suc k) pending (spawn_new start end found (set_runtime runtime s))
    ]

unfoldable pub drain_pending : (ℕ → ℕ) → Session → Session
unfolding drain_loop
drain_pending clock s = drain_loop clock 0 s.monitor.pending_bisects s

abbrev pub retry_message : FailedChunkInfo → Output
retry_message c =
    informs
      (chunk_status_changed c.id 1 (some (codes "正在进行第 " ++ (decimal c.attempts ++ codes " 次重试"))))

-- A chunk whose time has come is started again, or deferred without a lane.
abbrev pub retry_or_defer :
    FailedChunkInfo
    → Option (Option LaneId × Request)
    → Session × List FailedChunkInfo
    → Session × List FailedChunkInfo
retry_or_defer c none (s, deferred) = (s, deferred ++ c ∷ [])
retry_or_defer c (some target) (s, deferred) =
    (spawn c.id c.start c.end target (send (retry_message c) s), deferred)

-- The loop over the chunks that are ready; each turn takes one off the retry queue.
unfoldable pub retry_loop :
    (ℕ → ℕ) → ℕ → Session × List FailedChunkInfo → Session × List FailedChunkInfo
unfolding build_request spawn pop_ready_chunk
retry_loop clock zero (s, deferred) = (s, deferred)
retry_loop clock (suc fuel) (s, deferred) =
    let (popped, handler) = pop_ready_chunk (clock (2 * fuel)) s.monitor.retry_handler in
    elim popped [
      | none ↦ (s, deferred)
      | some c ↦
          let (target, runtime) = build_request (clock (2 * fuel + 1)) s.url s.multi_runtime in
          retry_loop clock fuel
            (retry_or_defer c target (set_runtime runtime (set_handler handler s), deferred))
    ]

unfoldable pub push_back_all : (ℕ → ℕ) → List FailedChunkInfo → RetryHandler → RetryHandler
unfolding push_back_retry_with_backoff
push_back_all clock [] h = h
push_back_all clock (c ∷ deferred) h =
    push_back_all (λ k. clock (suc k)) deferred (push_back_retry_with_backoff (clock 0) c h)

-- The length of the retry queue is fuel enough.
unfoldable pub retry_ready : (ℕ → ℕ) → (ℕ → ℕ) → Session → Session
unfolding retry_loop push_back_all
retry_ready clock back_clock s =
    let (t, deferred) = retry_loop clock (length s.monitor.retry_handler.retry_queue) (s, []) in
    set_handler (push_back_all back_clock deferred t.monitor.retry_handler) t

abbrev pub queues_are_empty : Session → Bool
queues_are_empty s =
    is_empty s.monitor.retry_handler.retry_queue
    && is_empty s.monitor.retry_handler.delayed_retry_queue

-- All bytes are counted, nothing runs and nothing waits for a retry.
unfoldable pub is_short_circuit : Session → Bool
unfolding total_downloaded
is_short_circuit s =
    s.tasks == 0
    && queues_are_empty s
    && leb s.monitor.state.total_file_size (total_downloaded s.monitor.state)

unfoldable pub is_stalled : Session → Bool
is_stalled s =
    s.tasks == 0
    && is_empty s.monitor.state.chunks
    && queues_are_empty s
    && is_empty s.monitor.pending_bisects

abbrev pub stall_limit : ℕ
stall_limit = 6

-- After six ticks in a row with nothing to do the download fails.
unfoldable pub check_stall : ℕ → Session → Session
unfolding is_stalled fail_stalled total_downloaded
check_stall now s =
    let ticks = min (s.monitor.stall_ticks + 1) (u32_mod - 1) in
    let counted = record s { monitor = record s.monitor { stall_ticks = ticks } } in
    let state = s.monitor.state in
    if is_stalled s
    then (if leb stall_limit ticks
        then set_handler
            (fail_stalled now (total_downloaded state) state.total_file_size
              s.monitor.retry_handler)
            counted
        else counted)
    else record s { monitor = record s.monitor { stall_ticks = 0 } }

unfoldable pub is_all_done : Session → Bool
unfolding are_all_tasks_done is_download_finished
is_all_done s = s.tasks == 0 && are_all_tasks_done s.monitor && is_download_finished s.monitor.state

-- What the clock, the speeds and the concurrency manager answer in a tick.
pub record Tick : Type 0 where
  pub elapsed_ns : ℕ
  pub seconds : Option (ℕ → ℕ)
  pub adaptive : List DownloadCmd
  pub drain_clock : ℕ → ℕ
  pub queue_clock : ℕ → ℕ
  pub retry_clock : ℕ → ℕ
  pub back_clock : ℕ → ℕ
  pub now : ℕ

abbrev pub shortest_tick_ns : ℕ
shortest_tick_ns = 50 * 1000 * 1000

-- The part of the tick that moves ranges and chunks; a limited rate freezes the adaptive commands.
unfoldable pub tick_work : Tick → Session → Session
unfolding send_monitor_update drain_pending process_queues retry_ready
tick_work t s =
    let shown = send_monitor_update t.seconds s in
    let adaptive = if s.monitor.is_rate_limited then [] else map commands t.adaptive in
    let acted = record shown { sent = shown.sent ++ adaptive } in
    let drained = drain_pending t.drain_clock acted in
    retry_ready t.retry_clock t.back_clock
      (set_handler (process_queues t.queue_clock drained.monitor.retry_handler) drained)

-- The first component says whether the download is done.
unfoldable pub handle_tick : Tick → Session → Bool × Session
unfolding tick_work is_short_circuit check_stall is_all_done
handle_tick t s =
    let worked = tick_work t s in
    let checked = check_stall t.now worked in
    if ltb t.elapsed_ns shortest_tick_ns
    then (false, s)
    else if is_short_circuit worked
    then (true, worked)
    else (is_all_done checked, checked)
