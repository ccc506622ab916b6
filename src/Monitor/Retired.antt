-- ===== src/Monitor/Retired.antt =====
-- A chunk that is complete does not come back into the ledger of src/monitor.rs.
use simple_downloader.Prelude.{
  ℕ, ◌-◌, ◌≡◌, ◌⊎◌, ◌∙◌, refl, sym, subst, inl, inr, Bool, true, false, List, [], ◌∷◌, Option, none,
  some, none-ne-some, ◌==◌, if◌then◌else◌, Bool-cases, Option-cases, if-holds, arith,
}
use simple_downloader.Prelude.Map
use simple_downloader.Prelude.Map.{Map, get-insert, get-remove}
use simple_downloader.Types.{
  ChunkId, DownloadInfo, chunk_progress, download_complete, chunk_failed, chunk_bisected,
  monitor_update, chunk_status_changed,
}
use simple_downloader.State.{
  ChunkState, DownloadState, complete_chunk, credit, preserve_partial, preserve_partial_exact,
  update_status,
}
use simple_downloader.Retry.{Failure, keep_prefix, preserve, on_chunk_failed}
use simple_downloader.Lane.{LaneId}
use simple_downloader.Monitor.{
  Session, finished, Request, build_request, spawn, spawn_new, is_reliable_event,
  send_monitor_update,
}
use simple_downloader.Monitor.Info.{
  contains, or_new, progressed, on_progress, on_complete, on_failed, shrunk, shrink_chunk,
  start_or_buffer, on_bisected, handle_download_info,
}
use simple_downloader.Monitor.Tick.{handle_tick, is_all_done}
use simple_downloader.Monitor.Loop.{
  Event, reliable, reliable_closed, joined, closed, heard, lagged, ticks, fail_fast, finish_if,
  add_lagged, handle, is_running, step, run,
}
use simple_downloader.Monitor.Frame.{ledger, handle_tick-ledger, fail_fast-ledger}

abbrev IsBuried : Map ChunkState → List ChunkId → Type 0
IsBuried chunks ids = (id : ChunkId) → (contains id ids ≡ false) ⊎ (Map.get id chunks ≡ none)

insert-IsBuried :
    (id : ChunkId) (c : ChunkState) (chunks : Map ChunkState) (ids : List ChunkId)
    → contains id ids ≡ false
    → IsBuried chunks ids
    → IsBuried (Map.insert id c chunks) ids
insert-IsBuried id c chunks ids absent h j = elim (Bool-cases (id == j)) [
  | inl t ↦ let same : id ≡ j = ground arith in inl (rw same at absent)
  | inr t ↦ elim (h j) [ inl p ↦ inl p | inr p ↦ inr (get-insert id j c chunks ∙ rw t p) ]
]

remove-IsBuried :
    (id : ChunkId) (chunks : Map ChunkState) (ids : List ChunkId)
    → IsBuried chunks ids
    → IsBuried (Map.remove id chunks) ids
remove-IsBuried id chunks ids h j = elim (h j) [
  | inl p ↦ inl p
  | inr p ↦ inr (get-remove id j chunks ∙ ground (arith, p))
]

bury-IsBuried :
    (id : ChunkId) (chunks : Map ChunkState) (ids : List ChunkId)
    → Map.get id chunks ≡ none
    → IsBuried chunks ids
    → IsBuried chunks (id ∷ ids)
bury-IsBuried id chunks ids gone h j = elim (Bool-cases (id == j)) [
  | inl t ↦ let same : id ≡ j = ground arith in inr (rw same at gone)
  | inr t ↦ rw t (h j)
]

complete_chunk-IsBuried :
    (id : ChunkId) (s : DownloadState) (ids : List ChunkId)
    → IsBuried s.chunks ids
    → IsBuried (complete_chunk s id).chunks (id ∷ ids)
unfolding complete_chunk credit
complete_chunk-IsBuried id s ids h = elim (Option-cases (Map.get id s.chunks)) [
  | inl e ↦ rw (e, complete_chunk) (bury-IsBuried id s.chunks ids e h)
  | inr (c, e) ↦
      rw (e, complete_chunk)
        (bury-IsBuried id (Map.remove id s.chunks) ids (get-remove id id s.chunks ∙ ground arith)
          (remove-IsBuried id s.chunks ids h))
]

preserve-chunks : (s : DownloadState) (f : Failure) → (preserve s f).chunks ≡ s.chunks
unfolding preserve preserve_partial preserve_partial_exact credit
preserve-chunks s f = elim (Option-cases (Map.get f.id s.chunks)) [
  | inl e ↦ rw (e, preserve) (rw (e, preserve_partial) refl)
  | inr (c, e) ↦ rw (e, preserve) (rw (e, preserve_partial_exact) refl)
]

abbrev pub IsTombstoned : Session → Type 0
IsTombstoned s =
    (id : ChunkId)
    → (contains id s.monitor.retired_ids ≡ false) ⊎ (Map.get id s.monitor.state.chunks ≡ none)

same-IsTombstoned : (s t : Session) → ledger t ≡ ledger s → IsTombstoned s → IsTombstoned t
same-IsTombstoned s t e h = subst (λ p. IsBuried p.0.chunks p.1) (sym e) h

on_progress-IsTombstoned :
    (clock : ℕ → ℕ) (id a b d : ℕ) (s : Session)
    → IsTombstoned s
    → IsTombstoned (on_progress clock id a b d s)
unfolding on_progress
on_progress-IsTombstoned clock id a b d s h =
    let chunks = s.monitor.state.chunks in
    let ids = s.monitor.retired_ids in
    let c = progressed (clock 1) (or_new (Map.get id chunks) id a b (clock 0)) b d in
    elim (Bool-cases (contains id ids)) [
      | inl t ↦ rw t h
      | inr t ↦ elim (Bool-cases (c.status == 0)) [
        | inl u ↦ rw (t, u) (insert-IsBuried id c chunks ids t h)
        | inr u ↦ rw (t, u) (insert-IsBuried id (update_status c 0 none (clock 2)) chunks ids t h)
      ]
    ]

on_failed-IsTombstoned :
    (clock : ℕ → ℕ) (f : Failure) (s : Session)
    → IsTombstoned s
    → IsTombstoned (on_failed clock f s)
unfolding on_failed on_chunk_failed keep_prefix
on_failed-IsTombstoned clock f s h =
    remove-IsBuried f.id (preserve s.monitor.state f).chunks s.monitor.retired_ids
      (rw (preserve-chunks s.monitor.state f) h)

start_or_buffer-ledger :
    (a b : ℕ) (o : Option (Option LaneId × Request)) (s : Session)
    → ledger (start_or_buffer a b o s) ≡ ledger s
unfolding spawn_new spawn
start_or_buffer-ledger a b none s = refl
start_or_buffer-ledger a b (some target) s = refl

shrink_chunk-IsTombstoned :
    (now : ℕ) (id : ChunkId) (start : ℕ) (o : Option ChunkState) (s : Session)
    → Map.get id s.monitor.state.chunks ≡ o
    → IsTombstoned s
    → IsTombstoned (shrink_chunk now id start o s)
shrink_chunk-IsTombstoned now id start none s e h = h
shrink_chunk-IsTombstoned now id start (some c) s e h = elim (h id) [
  | inl p ↦ insert-IsBuried id (shrunk now c start) s.monitor.state.chunks s.monitor.retired_ids p h
  | inr p ↦ absurd (none-ne-some c (sym p ∙ e))
]

on_bisected-IsTombstoned :
    (clock : ℕ → ℕ) (id a b : ℕ) (s : Session)
    → IsTombstoned s
    → IsTombstoned (on_bisected clock id a b s)
unfolding on_bisected
on_bisected-IsTombstoned clock id a b s h =
    let cut = shrink_chunk (clock 0) id a (Map.get id s.monitor.state.chunks) s in
    let answer = build_request (clock 1) s.url s.multi_runtime in
    let ready = record cut { multi_runtime = answer.1 } in
    same-IsTombstoned cut (start_or_buffer a b answer.0 ready)
      (start_or_buffer-ledger a b answer.0 ready)
      (shrink_chunk-IsTombstoned (clock 0) id a (Map.get id s.monitor.state.chunks) s refl h)

info-IsTombstoned :
    (clock : ℕ → ℕ) (info : DownloadInfo) (s : Session)
    → IsTombstoned s
    → IsTombstoned (handle_download_info clock info s)
unfolding handle_download_info
info-IsTombstoned clock (chunk_progress id a b d) s h = on_progress-IsTombstoned clock id a b d s h
info-IsTombstoned clock (download_complete id) s h =
    unfold on_complete in complete_chunk-IsBuried id s.monitor.state s.monitor.retired_ids h
info-IsTombstoned clock (chunk_failed id a b error) s h =
    on_failed-IsTombstoned clock (record { id = id; start = a; end = b; error = error }) s h
info-IsTombstoned clock (chunk_bisected id a b) s h = on_bisected-IsTombstoned clock id a b s h
info-IsTombstoned clock (monitor_update a b c d e) s h = h
info-IsTombstoned clock (chunk_status_changed a b c) s h = h

fail_fast-IsTombstoned : (s : Session) → IsTombstoned s → IsTombstoned (fail_fast s)
fail_fast-IsTombstoned s h = same-IsTombstoned s (fail_fast s) (fail_fast-ledger s) h

finish_if-IsTombstoned : (p : Bool × Session) → IsTombstoned p.1 → IsTombstoned (finish_if p)
finish_if-IsTombstoned (true, s) h = h
finish_if-IsTombstoned (false, s) h = fail_fast-IsTombstoned s h

handle-IsTombstoned : (e : Event) (s : Session) → IsTombstoned s → IsTombstoned (handle e s)
unfolding handle
handle-IsTombstoned (reliable clock info) s h =
    let t = handle_download_info clock info s in
    if-holds IsTombstoned s.reliable_open (fail_fast t) s
      (fail_fast-IsTombstoned t (info-IsTombstoned clock info s h)) h
handle-IsTombstoned reliable_closed s h = h
handle-IsTombstoned joined s h =
    let left = record s { tasks = s.tasks - 1 } in
    let done = record left { status = finished } in
    if-holds IsTombstoned (s.tasks == 0) s (if is_all_done left then done else left) h
      (if-holds IsTombstoned (is_all_done left) done left h h)
handle-IsTombstoned closed s h = h
handle-IsTombstoned (heard clock info) s h =
    let t = handle_download_info clock info s in
    let next = if is_reliable_event info then s else t in
    fail_fast-IsTombstoned next
      (if-holds IsTombstoned (is_reliable_event info) s t h (info-IsTombstoned clock info s h))
handle-IsTombstoned (lagged skipped seconds) s h = unfold send_monitor_update add_lagged in h
handle-IsTombstoned (ticks t) s h =
    finish_if-IsTombstoned (handle_tick t s)
      (same-IsTombstoned s (handle_tick t s).1 (handle_tick-ledger t s) h)

step-IsTombstoned : (s : Session) (e : Event) → IsTombstoned s → IsTombstoned (step s e)
unfolding step
step-IsTombstoned s e h =
    let checked = fail_fast s in
    let safe = fail_fast-IsTombstoned s h in
    let next = if is_running checked.status then handle e checked else checked in
    if-holds IsTombstoned (is_running s.status) next s
      (if-holds IsTombstoned (is_running checked.status) (handle e checked) checked
        (handle-IsTombstoned e checked safe) safe)
      h

-- Over any sequence of events, in any order on both channels: if no chunk that is retired is in the
-- ledger at first, none is ever, so that late progress of a complete chunk is not counted again.
pub run-IsTombstoned :
    (s : Session) (events : List Event)
    → IsTombstoned s
    → (id : ChunkId)
    → (contains id (run s events).monitor.retired_ids ≡ false)
      ⊎ (Map.get id (run s events).monitor.state.chunks ≡ none)
unfolding run
run-IsTombstoned s [] h = h
run-IsTombstoned s (e ∷ events) h = run-IsTombstoned (step s e) events (step-IsTombstoned s e h)
