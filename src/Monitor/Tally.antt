-- ===== src/Monitor/Tally.antt =====
-- The loop of src/monitor.rs keeps all ranges as long as the download has not failed for good.
use simple_downloader.Prelude.{
  ℕ, ◌+◌, ◌-◌, ◌≡◌, ◌⊎◌, refl, inl, inr, Bool, true, false, List, [], ◌∷◌, ◌++◌, leb, ltb, min,
  if◌then◌else◌, Bool-cases, if-holds, weigh-append, arith, ◌==◌, u32_mod,
}
use simple_downloader.Types.{
  DownloadInfo, terminate_all, chunk_progress, download_complete, chunk_failed, chunk_bisected,
  monitor_update, chunk_status_changed,
}
use simple_downloader.State.{total_downloaded}
use simple_downloader.Retry.{RetryHandler}
use simple_downloader.Retry.Queues.{has_permanent_failure, fail_stalled, is_empty}
use simple_downloader.Monitor.{
  Session, informs, commands, send_monitor_update, is_reliable_event, failed, finished,
}
use simple_downloader.Monitor.Info.{handle_download_info}
use simple_downloader.Monitor.Tick.{
  Tick, tick_work, check_stall, is_stalled, handle_tick, is_short_circuit, stall_limit,
  shortest_tick_ns, is_all_done,
}
use simple_downloader.Monitor.Loop.{
  Event, reliable, reliable_closed, joined, closed, heard, lagged, ticks, fail_fast, finish_if,
  add_lagged, handle, is_running, step, run,
}
use simple_downloader.Monitor.Ranges.{RangeMeasure, of_output, held, brought, info-held}
use simple_downloader.Monitor.Conservation.{tick_work-held}

-- Some chunk, or the whole download, has failed for good.
abbrev pub IsLost : Session → Type 0
IsLost s = has_permanent_failure s.monitor.retry_handler ≡ true

is_empty-snoc {ℓ} : {A : Type ℓ} (xs : List A) (x : A) → is_empty (xs ++ x ∷ []) ≡ false
is_empty-snoc [] x = refl
is_empty-snoc (y ∷ xs) x = refl

pub fail_stalled-has_permanent_failure :
    (now d t : ℕ) (h : RetryHandler) → has_permanent_failure (fail_stalled now d t h) ≡ true
unfolding fail_stalled
fail_stalled-has_permanent_failure now d t h = elim (Bool-cases (has_permanent_failure h)) [
  | inl e ↦ rw (e, fail_stalled) e
  | inr e ↦
      rw (e, fail_stalled)
        (unfold has_permanent_failure in rw (is_empty-snoc h.permanent_failures _) refl)
]

module _ (g : RangeMeasure) where
  -- The ranges are those of before and `n` more, unless something failed for good.
  abbrev IsKeptWith : Session → ℕ → Session → Type 0
  IsKeptWith s n t = IsLost t ⊎ (held g t ≡ held g s + n)

  abbrev stopped : Session → Session
  stopped t = record t { status = failed; sent = t.sent ++ commands terminate_all ∷ [] }

  fail_fast-IsKeptWith :
      (s : Session) (n : ℕ) (t : Session) → IsKeptWith s n t → IsKeptWith s n (fail_fast t)
  unfolding fail_fast
  fail_fast-IsKeptWith s n t h =
      if-holds (IsKeptWith s n) (has_permanent_failure t.monitor.retry_handler) (stopped t) t
        (elim h [
          | inl lost ↦ inl lost
          | inr same ↦
              inr (
                omega
                  (arith, same, weigh-append (of_output g) t.sent (commands terminate_all ∷ [])))
        ])
        h

  check_stall-IsKeptWith :
      (now : ℕ) (s t : Session) → IsKeptWith s 0 t → IsKeptWith s 0 (check_stall now t)
  unfolding check_stall
  check_stall-IsKeptWith now s t h =
      let ticks_now = min (t.monitor.stall_ticks + 1) (u32_mod - 1) in
      let state = t.monitor.state in
      let counted = record t { monitor = record t.monitor { stall_ticks = ticks_now } } in
      let reset = record t { monitor = record t.monitor { stall_ticks = 0 } } in
      let lost = record counted {
        monitor = record counted.monitor {
          retry_handler =
              fail_stalled now (total_downloaded state) state.total_file_size
                t.monitor.retry_handler;
        };
      } in
      if-holds (IsKeptWith s 0) (is_stalled t) (if leb stall_limit ticks_now then lost else counted)
        reset
        (if-holds (IsKeptWith s 0) (leb stall_limit ticks_now) lost counted
          (inl (
            fail_stalled-has_permanent_failure now (total_downloaded state) state.total_file_size
              t.monitor.retry_handler))
          h)
        h

  handle_tick-IsKeptWith : (t : Tick) (s : Session) → IsKeptWith s 0 (handle_tick t s).1
  unfolding handle_tick
  handle_tick-IsKeptWith t s =
      let Good : Bool × Session → Type 0 = λ p. IsKeptWith s 0 p.1 in
      let worked = tick_work t s in
      let checked = check_stall t.now worked in
      let quiet : IsKeptWith s 0 worked = inr (omega (arith, tick_work-held g t s)) in
      let rest : Bool × Session =
        if is_short_circuit worked then (true, worked) else (is_all_done checked, checked) in
      if-holds Good (ltb t.elapsed_ns shortest_tick_ns) (false, s) rest (inr (omega arith))
        (if-holds Good (is_short_circuit worked) (true, worked) (is_all_done checked, checked) quiet
          (check_stall-IsKeptWith t.now s worked quiet))

  finish_if-IsKeptWith :
      (s : Session) (p : Bool × Session) → IsKeptWith s 0 p.1 → IsKeptWith s 0 (finish_if p)
  finish_if-IsKeptWith s (true, t) h = h
  finish_if-IsKeptWith s (false, t) h = fail_fast-IsKeptWith s 0 t h

  -- What an event brings in: failed and bisected ranges count on the reliable channel only.
  abbrev pub intake : Event → Session → ℕ
  intake (reliable clock info) s = if s.reliable_open then brought g info else 0
  intake other s = 0

  unreliable_lem : (info : DownloadInfo) → is_reliable_event info ≡ false → brought g info ≡ 0
  unfolding is_reliable_event
  unreliable_lem (chunk_progress a b c d) h = refl
  unreliable_lem (monitor_update a b c d e) h = refl
  unreliable_lem (download_complete a) h = refl
  unreliable_lem (chunk_failed a b c d) h = absurd (cc)
  unreliable_lem (chunk_bisected a b c) h = absurd (cc)
  unreliable_lem (chunk_status_changed a b c) h = refl

  handle-IsKeptWith : (e : Event) (s : Session) → IsKeptWith s (intake e s) (handle e s)
  unfolding handle
  handle-IsKeptWith (reliable clock info) s = elim (Bool-cases s.reliable_open) [
    | inl o ↦
        let t = handle_download_info clock info s in
        simp o (fail_fast-IsKeptWith s (brought g info) t (inr (info-held g clock info s)))
    | inr o ↦ simp o (inr (omega arith))
  ]
  handle-IsKeptWith reliable_closed s = inr (omega arith)
  handle-IsKeptWith joined s =
      let left = record s { tasks = s.tasks - 1 } in
      let done = record left { status = finished } in
      let same : held g s ≡ held g s + 0 = omega arith in
      if-holds (IsKeptWith s 0) (s.tasks == 0) s (if is_all_done left then done else left)
        (inr same) (if-holds (IsKeptWith s 0) (is_all_done left) done left (inr same) (inr same))
  handle-IsKeptWith closed s = inr (omega arith)
  handle-IsKeptWith (heard clock info) s =
      let t = handle_download_info clock info s in
      let next = if is_reliable_event info then s else t in
      fail_fast-IsKeptWith s 0 next (elim (Bool-cases (is_reliable_event info)) [
        | inl r ↦ rw r (inr (omega arith))
        | inr r ↦ rw r (inr (omega (arith, info-held g clock info s, unreliable_lem info r)))
      ])
  handle-IsKeptWith (lagged skipped seconds) s =
      unfold send_monitor_update add_lagged in
      inr (omega (arith, weigh-append (of_output g) s.sent (informs _ ∷ [])))
  handle-IsKeptWith (ticks t) s =
      finish_if-IsKeptWith s (handle_tick t s) (handle_tick-IsKeptWith t s)

  fail_fast-held : (s : Session) → held g (fail_fast s) ≡ held g s
  unfolding fail_fast
  fail_fast-held s =
      if-holds (λ t. held g t ≡ held g s) (has_permanent_failure s.monitor.retry_handler)
        (stopped s) s
        (omega (arith, weigh-append (of_output g) s.sent (commands terminate_all ∷ []))) refl

  abbrev pub step_intake : Event → Session → ℕ
  step_intake e s =
      if is_running s.status
      then (if is_running (fail_fast s).status then intake e (fail_fast s) else 0)
      else 0

  -- What the events bring in, each in the state that it finds.
  abbrev pub taken : Session → List Event → ℕ
  taken s [] = 0
  taken s (e ∷ events) = step_intake e s + taken (step s e) events

  step-IsKeptWith : (s : Session) (e : Event) → IsKeptWith s (step_intake e s) (step s e)
  unfolding step
  step-IsKeptWith s e =
      let checked = fail_fast s in
      elim (Bool-cases (is_running s.status)) [
        | inl r ↦ elim (Bool-cases (is_running checked.status)) [
          | inl q ↦
              simp (r, q)
                (elim (handle-IsKeptWith e checked) [
                  | inl lost ↦ inl lost
                  | inr same ↦ inr (omega (arith, same, fail_fast-held s))
                ])
          | inr q ↦ simp (r, q) (inr (omega (arith, fail_fast-held s)))
        ]
        | inr r ↦ simp r (inr (omega arith))
      ]

  fail_fast-stopped : (s : Session) → IsLost s → fail_fast s ≡ stopped s
  unfolding fail_fast
  fail_fast-stopped s lost = simp lost refl

  step-IsLost : (s : Session) (e : Event) → IsLost s → IsLost (step s e)
  unfolding step
  step-IsLost s e lost =
      if-holds IsLost (is_running s.status)
        (if is_running (fail_fast s).status then handle e (fail_fast s) else fail_fast s) s
        (rw (fail_fast-stopped s lost) lost) lost

  run-IsLost : (s : Session) (events : List Event) → IsLost s → IsLost (run s events)
  unfolding run
  run-IsLost s [] lost = lost
  run-IsLost s (e ∷ events) lost = run-IsLost (step s e) events (step-IsLost s e lost)

  -- Over any sequence of events, whatever the lanes answer: unless something has failed for good, the
  -- ranges that the monitor held before, with those of the failed and the bisected chunks that reach it
  -- on the reliable channel, are exactly those that wait for a lane or a retry, or were started.
  pub run-held :
      (s : Session) (events : List Event)
      → (has_permanent_failure (run s events).monitor.retry_handler ≡ true)
        ⊎ (held g (run s events) ≡ held g s + taken s events)
  unfolding run
  run-held s [] = inr (omega arith)
  run-held s (e ∷ events) = elim (step-IsKeptWith s e) [
    | inl lost ↦ inl (run-IsLost (step s e) events lost)
    | inr same ↦ elim (run-held (step s e) events) [
      | inl lost ↦ inl lost
      | inr rest ↦ inr (omega (arith, same, rest))
    ]
  ]
