-- ===== src/Resume/Plan.antt =====
-- `ResumePlan::verified_ranges` of src/resume.rs, the ranges that the file writer trusts.
use simple_downloader.Prelude.{
  ℕ, ◌+◌, ◌-◌, ◌≤◌, ◌<◌, ◌≡◌, ◌∙◌, inl, inr, min, max, true, false, ◌&&◌, ◌||◌, not, List, [], ◌∷◌,
  Option, none, ltb, leb, ◌==◌, if◌then◌else◌, All, u64_max, sat_add, Bool-cases, arith,
}
use simple_downloader.Range.{Range, covers, merge_from, collect_contiguous_ranges}
use simple_downloader.Range.Merge.{IsGapped, collect_contiguous_ranges-IsGapped, not_below}
use simple_downloader.Prelude.Text.{Text}
use simple_downloader.Types.{DownloadCmd}
use simple_downloader.Writer.{Disk, file_writer}
use simple_downloader.Writer.Gate.{held, Sends, file_writer-gate}
use simple_downloader.Resume.{
  ResumeMetadata, hashed, verified_ranges, remaining_ranges, validate_shape,
}
use simple_downloader.Resume.Segments.{
  Inside, Inside-IsRange, hashed-Ascends, hashed-Inside, validate_shape-Tiled,
  remaining_ranges-verified_ranges,
}

-- The loop over the remaining ranges, and the range behind the last one.
unfoldable pub plan_loop : ℕ → ℕ → List Range → List Range
plan_loop file_size cursor [] =
    if ltb 0 file_size && ltb cursor file_size then (cursor, file_size - 1) ∷ [] else []
plan_loop file_size cursor ((s, e) ∷ rest) =
    let start = min s (file_size - 1) in
    let end = min e (file_size - 1) in
    let next = max cursor (sat_add end 1) in
    let more = plan_loop file_size next rest in
    let behind = if leb file_size next then [] else more in
    if file_size == 0 then [] else if ltb cursor start then (cursor, start - 1) ∷ behind else behind

unfoldable pub plan_verified_ranges : List Range → ℕ → List Range
unfolding plan_loop
plan_verified_ranges remaining file_size = plan_loop file_size 0 remaining

-- A byte before the cursor is not covered, and one behind it exactly if it does not remain.
plan_loop-covers :
    (n c b x : ℕ) (rs : List Range)
    → n ≤ u64_max
    → c ≤ b
    → IsGapped b rs
    → All (Inside n) rs
    → x < n
    → covers (plan_loop n c rs) x ≡ (leb c x && not (covers rs x))
unfolding plan_loop
plan_loop-covers n c b x [] m h g w k = ground arith
plan_loop-covers n c b x ((s, e) ∷ rest) m h g w k =
    let start : min s (n - 1) ≡ s = omega arith in
    let next : max c (sat_add (min e (n - 1)) 1) ≡ e + 1 = omega arith in
    let zero : (n == 0) ≡ false = ground arith in
    let ih = plan_loop-covers n (e + 1) (e + 2) x rest m (omega arith) g.2 w.1 k in
    let low = not_below (e + 2) x rest g.2 in rw (start, next, zero) (ground (arith, ih, low))

merge_from-Inside :
    (n ls le : ℕ) (rs : List Range)
    → Inside n (ls, le)
    → All (Inside n) rs
    → All (Inside n) (merge_from (ls, le) rs)
unfolding merge_from
merge_from-Inside n ls le [] h w = (h, tt)
merge_from-Inside n ls le ((s, e) ∷ rest) h w = elim (Bool-cases (leb s (sat_add le 1))) [
  | inl t ↦
      rw (t, merge_from) (merge_from-Inside n ls (max le e) rest (omega arith, omega arith) w.1)
  | inr f ↦ rw (f, merge_from) (h, merge_from-Inside n s e rest w.0 w.1)
]

collect_contiguous_ranges-Inside :
    (n : ℕ) (rs : List Range) → All (Inside n) rs → All (Inside n) (collect_contiguous_ranges rs)
unfolding collect_contiguous_ranges
collect_contiguous_ranges-Inside n [] w = tt
collect_contiguous_ranges-Inside n (r ∷ rs) w = merge_from-Inside n r.0 r.1 rs w.0 w.1

-- From metadata that pass `validate_shape` the file writer is told to trust exactly the bytes of the
-- segments that have a hash.
pub plan_verified_ranges-covers :
    (m : ResumeMetadata) (n x : ℕ)
    → n ≤ u64_max
    → validate_shape m n ≡ none
    → x < n
    → covers (plan_verified_ranges (remaining_ranges m) n) x ≡ covers (verified_ranges m) x
unfolding plan_verified_ranges
plan_verified_ranges-covers m n x k h b =
    let t = validate_shape-Tiled m n k h in
    let inside = hashed-Inside false 0 n m.segments t in
    let either = remaining_ranges-verified_ranges m n x k h b in
    let plan =
      plan_loop-covers n 0 0 x (remaining_ranges m) k (omega arith)
        (unfold remaining_ranges in
          collect_contiguous_ranges-IsGapped (hashed false m.segments)
            (hashed-Ascends false 0 n m.segments t)
            (Inside-IsRange n (hashed false m.segments) k inside))
        (unfold remaining_ranges in
          collect_contiguous_ranges-Inside n (hashed false m.segments) inside)
        b in
    plan ∙ rw either (ground arith)

-- If no block that is sent is empty, and the blocks and the size are within the `u64` bounds: a file
-- that is resumed from metadata that pass `validate_shape` and whose writer ends without an error has
-- no hole: each byte was written in this session, or is in a segment that has a hash.
pub resumed-gate :
    (m : ResumeMetadata) (n : ℕ) (commands : List (Disk × DownloadCmd)) (d : Disk)
    (recorder_flush file_flush : Option Text) (x : ℕ)
    → n ≤ u64_max
    → validate_shape m n ≡ none
    → All (λ c. Sends c.1) commands
    → (file_writer
        (plan_verified_ranges (remaining_ranges m) n)
        n
        commands
        d
        recorder_flush
        file_flush).writer_err
      ≡ none
    → x < n
    → (held x
          (file_writer
            (plan_verified_ranges (remaining_ranges m) n)
            n
            commands
            d
            recorder_flush
            file_flush).file
        || covers (verified_ranges m) x)
      ≡ true
resumed-gate m n commands d recorder_flush file_flush x k h sends ok b =
    rw (plan_verified_ranges-covers m n x k h b) at (
      file_writer-gate (plan_verified_ranges (remaining_ranges m) n) n commands d recorder_flush
        file_flush x k sends ok b)
