-- ===== src/Monitor/Ranges.antt =====
-- No range is lost or doubled on its way through the monitor of src/monitor.rs.
use simple_downloader.Prelude.{
  ℕ, suc, ◌+◌, ◌≡◌, refl, List, [], ◌∷◌, map, Option, none, some, if◌then◌else◌, if-holds, weigh,
  weigh-append, arith, ◌==◌, ◌%◌, u64_mod,
}
use simple_downloader.Prelude.Map
use simple_downloader.Types.{
  DownloadInfo, chunk_progress, download_complete, chunk_failed, chunk_bisected, monitor_update,
  chunk_status_changed,
}
use simple_downloader.State.{ChunkState, update_status}
use simple_downloader.Retry.{
  FailedChunkInfo, RetryHandler, Failure, handle_failure, on_chunk_failed,
}
use simple_downloader.Retry.Queues.{on_download_complete}
use simple_downloader.Retry.Conservation.{tally, handle_failure-tally}
use simple_downloader.Lane.{LaneId}
use simple_downloader.Monitor.{
  Session, Output, informs, spawns, Request, send, build_request, spawn, spawn_new,
}
use simple_downloader.Monitor.Info.{
  contains, set_chunks, or_new, progressed, on_progress, on_complete, on_failed, shrink_chunk,
  start_or_buffer, on_bisected, handle_download_info,
}

-- A measure of a range by its bounds.
abbrev pub RangeMeasure : Type 0
RangeMeasure = ℕ → ℕ → ℕ

module _ (g : RangeMeasure) where
  abbrev pub of_pair : ℕ × ℕ → ℕ
  of_pair (start, end) = g start end

  abbrev pub of_output : Output → ℕ
  of_output (spawns c) = g c.start c.end
  of_output other = 0

  abbrev pub of_handler : RetryHandler → ℕ
  of_handler h = tally (λ id start end. g start end) h

  abbrev pub of_failed : FailedChunkInfo → ℕ
  of_failed c = g c.start c.end

  -- The ranges that wait for a lane, those that the retry handler holds, and those that were started.
  abbrev pub held : Session → ℕ
  held s =
      weigh of_pair s.monitor.pending_bisects
      + of_handler s.monitor.retry_handler
      + weigh of_output s.sent

  -- The range that a message brings in.
  abbrev pub brought : DownloadInfo → ℕ
  brought (chunk_failed id start end error) = g start end
  brought (chunk_bisected id start end) = g start end
  brought other = 0

  pub sent_none :
      (A : Type 0) (f : A → Output) (h : (x : A) → of_output (f x) ≡ 0) (xs : List A)
      → weigh of_output (map f xs) ≡ 0
  sent_none A f h [] = refl
  sent_none A f h (x ∷ xs) = omega (arith, h x, sent_none A f h xs)

  pub spawn-held :
      (id a b : ℕ) (target : Option LaneId × Request) (s : Session)
      → held (spawn id a b target s) ≡ held s + g a b
  unfolding spawn
  spawn-held id a b (lane, request) s = omega (arith, weigh-append of_output s.sent (spawns _ ∷ []))

  start_or_buffer-held :
      (a b : ℕ) (o : Option (Option LaneId × Request)) (s : Session)
      → held (start_or_buffer a b o s) ≡ held s + g a b
  unfolding spawn_new
  start_or_buffer-held a b none s =
      omega (arith, weigh-append of_pair s.monitor.pending_bisects ((a, b) ∷ []))
  start_or_buffer-held a b (some target) s =
      spawn-held s.next_chunk_id a b target
        (record s { next_chunk_id = (s.next_chunk_id + 1) % u64_mod })

  shrink_chunk-held :
      (now id start : ℕ) (o : Option ChunkState) (s : Session)
      → held (shrink_chunk now id start o s) ≡ held s
  shrink_chunk-held now id start none s = refl
  shrink_chunk-held now id start (some c) s = refl

  pub send-held : (info : DownloadInfo) (s : Session) → held (send (informs info) s) ≡ held s
  send-held info s = omega (arith, weigh-append of_output s.sent (informs info ∷ []))

  on_failed-held :
      (clock : ℕ → ℕ) (f : Failure) (s : Session)
      → held (on_failed clock f s) ≡ held s + g f.start f.end
  unfolding on_failed on_chunk_failed
  on_failed-held clock f s =
      let infos = (handle_failure (λ k. clock (suc k)) s.monitor.retry_handler f).1 in
      omega (
        arith,
        weigh-append of_output s.sent (map informs infos),
        sent_none DownloadInfo informs (λ x. refl) infos,
        handle_failure-tally (λ id a b. g a b) (λ k. clock (suc k)) s.monitor.retry_handler f,
      )

  pub info-held :
      (clock : ℕ → ℕ) (info : DownloadInfo) (s : Session)
      → held (handle_download_info clock info s) ≡ held s + brought info
  unfolding handle_download_info on_progress on_complete on_bisected
  info-held clock (chunk_progress id a b d) s =
      let chunks = s.monitor.state.chunks in
      let c = progressed (clock 1) (or_new (Map.get id chunks) id a b (clock 0)) b d in
      let same = λ (t : Session). held t ≡ held s + 0 in
      let grown = set_chunks (Map.insert id c chunks) s in
      let back = set_chunks (Map.insert id (update_status c 0 none (clock 2)) chunks) s in
      let told = send (informs (chunk_status_changed id 0 none)) back in
      let next = if c.status == 0 then grown else told in
      if-holds same (contains id s.monitor.retired_ids) s next (omega arith) (
        if-holds same (c.status == 0) grown told (omega arith)
          (omega (arith, send-held (chunk_status_changed id 0 none) back)))
  info-held clock (download_complete id) s =
      unfold on_download_complete in
      omega (arith, weigh-append of_output s.sent (informs (chunk_status_changed id 4 none) ∷ []))
  info-held clock (chunk_failed id a b error) s =
      on_failed-held clock (record { id = id; start = a; end = b; error = error }) s
  info-held clock (chunk_bisected id a b) s =
      let cut = shrink_chunk (clock 0) id a (Map.get id s.monitor.state.chunks) s in
      let answer = build_request (clock 1) s.url s.multi_runtime in
      omega (
        arith,
        start_or_buffer-held a b answer.0 (record cut { multi_runtime = answer.1 }),
        shrink_chunk-held (clock 0) id a (Map.get id s.monitor.state.chunks) s,
      )
  info-held clock (monitor_update a b c d e) s = omega arith
  info-held clock (chunk_status_changed a b c) s = omega arith
