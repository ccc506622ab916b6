-- ===== src/Concurrency/Pace.antt =====
-- How many commands a run of `decide_and_act` of src/concurrency.rs sends, and how often it cuts a
-- slow chunk before it ends it.
use simple_downloader.Prelude.{
  ℕ, ◌+◌, ◌*◌, ◌≤◌, ◌≡◌, ap, inl, inr, List, [], ◌∷◌, ◌++◌, ltb, ◌==◌, if◌then◌else◌, length,
  length-append, weigh, weigh-append, Bool-cases, arith,
}
use simple_downloader.Prelude.Map
use simple_downloader.Prelude.Map.{Map}
use simple_downloader.Types.{ChunkId, DownloadCmd, bisect_download_skewed, terminate_chunk}
use simple_downloader.Float.{Float}
use simple_downloader.Concurrency.{
  ConcurrencyManager, Reading, Act, elapsed, min_split_interval, count_of, new_with_interval,
}
use simple_downloader.Concurrency.Decide.{decide_and_act}
use simple_downloader.Concurrency.Outcome.{Outcome}
use simple_downloader.Concurrency.Sound.{decide_and_act-Outcome, decide_and_act-throttled}

-- The skewed cuts of a chunk among the commands, and the ends of it.
abbrev pub cuts_of : ChunkId → DownloadCmd → ℕ
cuts_of id (bisect_download_skewed k) = if k == id then 1 else 0
cuts_of id _ = 0

abbrev pub ends_of : ChunkId → DownloadCmd → ℕ
ends_of id (terminate_chunk k) = if k == id then 1 else 0
ends_of id _ = 0

count_of-insert :
    (k id n : ℕ) (counts : Map ℕ)
    → count_of id (Map.insert k n counts) ≡ (if k == id then n else count_of id counts)
count_of-insert k id n counts = ground (arith, Map.get-insert k id n counts)

count_of-remove :
    (k id : ℕ) (counts : Map ℕ)
    → count_of id (Map.remove k counts) ≡ (if k == id then 0 else count_of id counts)
count_of-remove k id counts = ground (arith, Map.get-remove k id counts)

module _ {W : Type 0} ⦃f : Float W⦄ where
  -- The calls one after another, with all that they sent.
  abbrev pub run_after : (ConcurrencyManager W → Act W) → Act W → Act W
  run_after rest (m, sent) = let (last, later) = rest m in (last, sent ++ later)

  abbrev pub run : List (Reading W) → ConcurrencyManager W → Act W
  run [] m = (m, [])
  run (r ∷ rs) m = run_after (run rs) (decide_and_act r m)

  -- The splits before and after a call, against what it sent.
  abbrev pub Paced : ConcurrencyManager W → Act W → Type 0
  Paced m a = m.last_split_time + min_split_interval * length a.1 ≤ a.0.last_split_time

  pub decide_and_act-Paced :
      (r : Reading W) (m : ConcurrencyManager W) → Paced m (decide_and_act r m)
  decide_and_act-Paced r m =
      elim (Bool-cases (ltb (elapsed r.now m.last_split_time) min_split_interval)) [
        | inl e ↦ rw (decide_and_act-throttled r m (ground arith)) (omega arith)
        | inr e ↦ elim (decide_and_act-Outcome r m) [
          | Outcome.quiet q ↦ rw (q.sent, ap (λ b. b.last_split_time) q.kept) (omega arith)
          | Outcome.cut c q ↦ rw (q.sent, ap (λ b. b.last_split_time) q.kept) (ground arith)
          | Outcome.skewed c q ↦ rw (q.sent, ap (λ b. b.last_split_time) q.kept) (ground arith)
          | Outcome.killed c q ↦ rw (q.sent, ap (λ b. b.last_split_time) q.kept) (ground arith)
          | Outcome.stolen c q ↦ rw (q.sent, ap (λ b. b.last_split_time) q.kept) (ground arith)
        ]
      ]

  -- Over any calls of decide_and_act, at any times: the commands sent are 150 ms apart, so that there
  -- is at most one for each 150 ms between the last splits before and after.
  pub run-Paced :
      (rs : List (Reading W)) (m : ConcurrencyManager W)
      → let (last, sent) = run rs m in
        m.last_split_time + min_split_interval * length sent ≤ last.last_split_time
  run-Paced [] m = omega arith
  run-Paced (r ∷ rs) m =
      let (next, sent) = decide_and_act r m in
      let (last, later) = run rs next in
      rw (length-append sent later) (omega (arith, decide_and_act-Paced r m, run-Paced rs next))

  abbrev cut_count : ChunkId → ConcurrencyManager W → ℕ
  cut_count id m = count_of id m.skewed_split_counts

  -- No chunk has been cut more than four times since it was last ended, and what was sent tells how
  -- the counts have grown.
  abbrev pub Counted : ChunkId → ConcurrencyManager W → Act W → Type 0
  Counted id m a =
      (cut_count id m + weigh (cuts_of id) a.1 ≤ cut_count id a.0 + 4 * weigh (ends_of id) a.1)
      × (cut_count id a.0 ≤ 4)

  decide_and_act-Counted :
      (id : ChunkId) (r : Reading W) (m : ConcurrencyManager W)
      → cut_count id m ≤ 4
      → Counted id m (decide_and_act r m)
  decide_and_act-Counted id r m h = elim (decide_and_act-Outcome r m) [
    | Outcome.quiet q ↦ rw (q.sent, ap (λ b. b.counts) q.kept) (omega arith)
    | Outcome.cut c q ↦ rw (q.sent, ap (λ b. b.counts) q.kept) (omega arith)
    | Outcome.skewed c q ↦
        let turn = q.turn in
        rw
          (
            q.sent,
            ap (λ b. b.counts) q.kept,
            count_of-insert c.id id (count_of c.id m.skewed_split_counts + 1) m.skewed_split_counts,
          )
          (ground arith)
    | Outcome.killed c q ↦
        let turn = q.turn in
        rw
          (
            q.sent,
            ap (λ b. b.counts) q.kept,
            count_of-remove c.id id
                (Map.insert c.id (count_of c.id m.skewed_split_counts + 1) m.skewed_split_counts),
            count_of-insert c.id id (count_of c.id m.skewed_split_counts + 1) m.skewed_split_counts,
          )
          (ground arith)
    | Outcome.stolen c q ↦ rw (q.sent, ap (λ b. b.counts) q.kept) (ground arith)
  ]

  run-Counted :
      (id : ChunkId) (rs : List (Reading W)) (m : ConcurrencyManager W)
      → cut_count id m ≤ 4
      → Counted id m (run rs m)
  run-Counted id [] m h = (omega arith, h)
  run-Counted id (r ∷ rs) m h =
      let (next, sent) = decide_and_act r m in
      let (last, later) = run rs next in
      let (here, bound) = decide_and_act-Counted id r m h in
      let (after, end) = run-Counted id rs next bound in
      rw (weigh-append (cuts_of id) sent later, weigh-append (ends_of id) sent later)
        (omega arith, end)

  -- Over any calls of decide_and_act by a new manager, a chunk is cut by skewed cuts at most four
  -- times more than four times the ends it is sent: after four cuts that did not help, it is ended.
  pub run-cuts_of :
      (id : ChunkId) (now max_workers : ℕ) (interval : W) (rs : List (Reading W))
      → let sent = (run rs (new_with_interval now max_workers interval)).1 in
        weigh (cuts_of id) sent ≤ 4 * weigh (ends_of id) sent + 4
  unfolding new_with_interval Map.get
  run-cuts_of id now max_workers interval rs =
      let (tally, bound) =
        run-Counted id rs (new_with_interval now max_workers interval) (omega arith) in
      omega (arith, tally, bound)
