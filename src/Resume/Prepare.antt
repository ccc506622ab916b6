-- ===== src/Resume/Prepare.antt =====
-- `ResumePlan::prepare` of src/resume.rs: whether a download is resumed, and what then is trusted. The
-- files are arguments, and what is done to the metadata file is a list of effects.
use simple_downloader.Prelude.{
  ℕ, Bool, true, false, not, ◌++◌, ◌&&◌, List, [], ◌∷◌, map, drop, Option, none, some, ◌==◌,
  if◌then◌else◌,
}
use simple_downloader.Prelude.Text.{Text, codes, append_rev, to_ascii_lowercase, starts_with}
use simple_downloader.ContentRange.{trim}
use simple_downloader.Range.{Range}
use simple_downloader.Resume.{
  SegmentRecord, ResumeMetadata, default_segment_size, metadata_version, full_ranges,
  verified_ranges, remaining_ranges, completed_bytes, validate_from, validate_shape, verify_segment,
  verify_against_file,
}
use simple_downloader.Resume

-- The metadata file: none, one that cannot be read, or what it holds.
pub data Sidecar : Type 0 where
  absent corrupted : Sidecar
  loaded : ResumeMetadata → Sidecar

-- The output file's bytes, if it exists; whether it can be read; and whether the verified metadata
-- can be saved.
pub record Files : Type 0 where
  pub sidecar : Sidecar
  pub contents : Option (List ℕ)
  pub readable : Bool
  pub save_ok : Bool

pub data FileEffect : Type 0 where
  removes : FileEffect
  saves : ResumeMetadata → FileEffect

pub record ResumePlan : Type 0 where
  pub metadata : Option ResumeMetadata
  pub truncate_output : Bool
  pub remaining : List Range
  pub completed : ℕ

-- None of the bytes is there.
abbrev pub full_plan : ℕ → Option ResumeMetadata → ResumePlan
full_plan file_size metadata = record {
  metadata = metadata;
  truncate_output = true;
  remaining = full_ranges file_size;
  completed = 0;
}

-- The old metadata file is removed, and a new one is saved; that it cannot be is only logged.
abbrev pub rebuilt : ℕ → List FileEffect → Option ResumePlan × List FileEffect
rebuilt file_size before =
    let metadata = Resume.new file_size default_segment_size in
    (some (full_plan file_size (some metadata)), before ++ saves metadata ∷ [])

abbrev pub resumed_plan : ResumeMetadata → ResumePlan
resumed_plan verified = record {
  metadata = some verified;
  truncate_output = false;
  remaining = remaining_ranges verified;
  completed = completed_bytes verified;
}

abbrev pub resumed : Files → List ℕ → ResumeMetadata → Option ResumePlan × List FileEffect
resumed d file metadata =
    let verified = verify_against_file file metadata in
    if not d.readable
    then (none, [])
    else if not d.save_ok
    then (none, [])
    else (some (resumed_plan verified), saves verified ∷ [])

abbrev pub by_shape :
    Files → ℕ → List ℕ → ResumeMetadata → Option Text → Option ResumePlan × List FileEffect
by_shape d file_size file metadata (some error) = rebuilt file_size (removes ∷ [])
by_shape d file_size file metadata none = resumed d file metadata

abbrev pub by_files : Files → ℕ → Sidecar → Option (List ℕ) → Option ResumePlan × List FileEffect
by_files d file_size absent contents = rebuilt file_size []
by_files d file_size corrupted none = rebuilt file_size (removes ∷ [])
by_files d file_size corrupted (some file) = rebuilt file_size (removes ∷ [])
by_files d file_size (loaded metadata) none = rebuilt file_size (removes ∷ [])
by_files d file_size (loaded metadata) (some file) =
    by_shape d file_size file metadata (validate_shape metadata file_size)

unfoldable pub prepare : Files → ℕ → Bool → Option ResumePlan × List FileEffect
unfolding Resume.new full_ranges validate_shape verify_against_file remaining_ranges completed_bytes
prepare d file_size enabled =
    if enabled
    then by_files d file_size d.sidecar d.contents
    else (some (full_plan file_size none), removes ∷ [])

drop_quotes : Text → Text
drop_quotes [] = []
drop_quotes (c ∷ s) = if c == b'"' then drop_quotes s else c ∷ s

-- `trim_matches('"')`
unquoted : Text → Text
unfolding drop_quotes
unquoted s = append_rev (drop_quotes (append_rev (drop_quotes s) [])) []

-- `norm` of `check_etag_mismatch`: the tag without a weak mark, blanks and quotes.
unfoldable pub normal_etag : Text → Text
unfolding unquoted
normal_etag tag =
    let s = trim tag in
    if starts_with (codes "w/") (to_ascii_lowercase s)
    then unquoted (trim (drop 2 s))
    else unquoted (trim s)

unfoldable pub is_same_text : Text → Text → Bool
is_same_text [] [] = true
is_same_text (c ∷ s) (d ∷ t) = (c == d) && is_same_text s t
is_same_text _ _ = false

abbrev pub forget_hash : SegmentRecord → SegmentRecord
forget_hash s = record s { hash = none }

abbrev pub without_hashes : ResumeMetadata → ResumeMetadata
without_hashes m = record m { segments = map forget_hash m.segments }

-- Without both tags nothing is compared.
unfoldable pub compare_tags : Option Text → Option Text → ResumeMetadata → Bool × ResumeMetadata
unfolding normal_etag is_same_text
compare_tags (some stored) (some current) m =
    let old = to_ascii_lowercase (normal_etag stored) in
    let new = to_ascii_lowercase (normal_etag current) in
    if is_same_text old new then (false, m) else (true, without_hashes m)
compare_tags _ _ m = (false, m)

unfoldable pub check_etag_mismatch : Option Text → ResumeMetadata → Bool × ResumeMetadata
unfolding compare_tags
check_etag_mismatch current m = compare_tags m.etag current m
