-- ===== src/Resume/Recorder.antt =====
-- `ResumeRecorder` of src/resume.rs: which segments of the file are written, and the hashes of those
-- that are. What the file and the saving answer is an argument; `last_digest`, which nothing reads,
-- is left out. The two lists have an entry for each segment, as `new` makes them.
use simple_downloader.Prelude.{
  ℕ, suc, ◌+◌, ◌-◌, ◌/◌, min, max, Bool, true, false, ◌&&◌, ◌||◌, List, [], ◌∷◌, map, some, ltb,
  leb, ◌==◌, if◌then◌else◌, length, sat_add,
}
use simple_downloader.Range.{Range, add_covered_range, covers_segment}
use simple_downloader.Resume.{SegmentRecord, ResumeMetadata, len, is_some, hash_bytes}

-- `read_exact` of a segment: its bytes, the end of the file, or another error.
pub data Read : Type 0 where
  bytes : List ℕ → Read
  unexpected_eof read_error : Read

pub record ResumeRecorder : Type 0 where
  pub metadata : ResumeMetadata
  pub covered_ranges : List (List Range)
  pub pending_segments : ℕ
  pub last_save : ℕ

pub data Recorded : Type 0 where
  recorded save_failed read_failed : Recorded
  saved : ResumeMetadata → Recorded

abbrev pub covered_at_first : SegmentRecord → List Range
covered_at_first s = if is_some s.hash then (s.start, s.end) ∷ [] else []

unfoldable pub new_recorder : ResumeMetadata → ℕ → ResumeRecorder
new_recorder m now = record {
  metadata = m;
  covered_ranges = map covered_at_first m.segments;
  pending_segments = 0;
  last_save = now;
}

-- A segment with what is covered of it, whether it was hashed just now, and whether a read failed.
pub record Visit : Type 0 where
  pub segment : SegmentRecord
  pub covered : List Range
  pub newly : ℕ
  pub is_broken : Bool

abbrev pub visit_read : SegmentRecord → List Range → Read → Visit
visit_read s covered (bytes xs) = record {
  segment = record s { hash = some (hash_bytes xs) };
  covered = covered;
  newly = 1;
  is_broken = false;
}
visit_read s covered unexpected_eof = record {
  segment = s;
  covered = covered;
  newly = 0;
  is_broken = false;
}
visit_read s covered read_error = record {
  segment = s;
  covered = covered;
  newly = 0;
  is_broken = true;
}

-- The body of the loop for one segment; only a segment that is covered is read.
unfoldable pub visit_segment : (ℕ → ℕ → Read) → ℕ → ℕ → SegmentRecord → List Range → Visit
unfolding add_covered_range covers_segment
visit_segment read write_start write_end s covered =
    let grown = add_covered_range covered (max write_start s.start) (min write_end s.end) in
    if is_some s.hash
    then record { segment = s; covered = covered; newly = 0; is_broken = false }
    else if covers_segment grown s.start s.end
    then visit_read s grown (read s.start (len s))
    else record { segment = s; covered = grown; newly = 0; is_broken = false }

-- The segments and what is covered of them, how many were hashed, and whether a read failed.
pub record Pass : Type 0 where
  pub segments : List SegmentRecord
  pub covered_ranges : List (List Range)
  pub newly_completed : ℕ
  pub is_broken : Bool

abbrev pub untouched : List SegmentRecord → List (List Range) → Pass
untouched segments covered = record {
  segments = segments;
  covered_ranges = covered;
  newly_completed = 0;
  is_broken = false;
}

abbrev pub put_first : Visit → Pass → Pass
put_first v p = record {
  segments = v.segment ∷ p.segments;
  covered_ranges = v.covered ∷ p.covered_ranges;
  newly_completed = v.newly + p.newly_completed;
  is_broken = v.is_broken || p.is_broken;
}

-- The loop over the indexes `first` to `last`: `i` is the index of the first segment of the list. A
-- read that fails leaves the segments behind it as they are.
unfoldable pub visit_loop :
    (ℕ → ℕ → Read) → ℕ → ℕ → ℕ → ℕ → ℕ → List SegmentRecord → List (List Range) → Pass
unfolding visit_segment
visit_loop read ws we first last i [] covered = untouched [] covered
visit_loop read ws we first last i (s ∷ segments) [] = untouched (s ∷ segments) []
visit_loop read ws we first last i (s ∷ segments) (c ∷ covered) =
    let rest = visit_loop read ws we first last (suc i) segments covered in
    let v = visit_segment read ws we s c in
    if leb first i && leb i last
    then (if v.is_broken then put_first v (untouched segments covered) else put_first v rest)
    else put_first (record { segment = s; covered = c; newly = 0; is_broken = false }) rest

-- The indexes of the segments that the written range touches, by the size of a segment.
unfoldable pub segment_indexes_for_range : ResumeMetadata → ℕ → ℕ → ℕ × ℕ
segment_indexes_for_range m start end =
    let segment_size = max m.segment_size 1 in
    (start / segment_size, min (end / segment_size) (length m.segments - 1))

abbrev pub save_now : Bool → ℕ → ResumeRecorder → Recorded × ResumeRecorder
save_now true now r = (saved r.metadata, record r { pending_segments = 0; last_save = now })
save_now false now r = (save_failed, r)

-- After 16 segments, or a second, the metadata are saved.
unfoldable pub after_pass : Bool → ℕ → ℕ → ResumeRecorder → Recorded × ResumeRecorder
after_pass save_ok now newly r =
    let counted = record r { pending_segments = r.pending_segments + newly } in
    if newly == 0
    then (recorded, r)
    else if leb 16 counted.pending_segments || leb 1000 (now - r.last_save)
    then save_now save_ok now counted
    else (recorded, counted)

unfoldable pub record_write :
    (ℕ → ℕ → Read) → Bool → ℕ → ℕ → ℕ → ResumeRecorder → Recorded × ResumeRecorder
unfolding visit_loop segment_indexes_for_range after_pass
record_write read save_ok now offset len r =
    let write_end = sat_add offset len - 1 in
    let (first, last) = segment_indexes_for_range r.metadata offset write_end in
    let p = visit_loop read offset write_end first last 0 r.metadata.segments r.covered_ranges in
    let next = record r {
      metadata = record r.metadata { segments = p.segments };
      covered_ranges = p.covered_ranges;
    } in
    if len == 0 || r.metadata.file_size == 0
    then (recorded, r)
    else if p.is_broken
    then (read_failed, next)
    else after_pass save_ok now p.newly_completed next

unfoldable pub flush : Bool → ℕ → ResumeRecorder → Recorded × ResumeRecorder
flush save_ok now r = if ltb 0 r.pending_segments then save_now save_ok now r else (recorded, r)

-- A call of `record_write` with the answers that it gets.
pub record Write : Type 0 where
  pub read : ℕ → ℕ → Read
  pub save_ok : Bool
  pub now : ℕ
  pub offset : ℕ
  pub len : ℕ

unfoldable pub record_all : List Write → ResumeRecorder → ResumeRecorder
unfolding record_write
record_all [] r = r
record_all (w ∷ writes) r =
    record_all writes (record_write w.read w.save_ok w.now w.offset w.len r).1
