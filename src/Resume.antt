-- ===== src/Resume.antt =====
-- The resume metadata of src/resume.rs: the segments of a file, their hashes, and the ranges that are
-- verified or remain. The encoding of the metadata and its file are left out.
pub mod Segments
pub mod Verify
pub mod Plan
pub mod Recorder
pub mod Vouched
pub mod Prepare
pub mod Prepared
mod Tests
use simple_downloader.Prelude.{
  ℕ, zero, suc, ◌+◌, ◌-◌, ◌*◌, ◌/◌, ◌%◌, ◌^◌, min, max, Bool, true, false, ◌||◌, not, List, [], ◌∷◌,
  ◌++◌, map, Option, none, some, ltb, leb, ◌==◌, if◌then◌else◌, length, take, drop, keep, weigh,
  sat_add, wrap_add, wrap_sub, u64_mod, arith,
}
use simple_downloader.Prelude.Text.{Text, codes, decimal}
use simple_downloader.Range.{Range, collect_contiguous_ranges}

abbrev pub default_segment_size : ℕ
default_segment_size = 64 * 1024

abbrev pub metadata_version : ℕ
metadata_version = 2

abbrev pub adaptive_segment_size : ℕ → ℕ
adaptive_segment_size file_size =
    if leb file_size (100 * 1024 * 1024)
    then 64 * 1024
    else if leb file_size (1024 * 1024 * 1024)
    then 256 * 1024
    else 1024 * 1024

pub record SegmentRecord : Type 0 where
  pub start : ℕ
  pub end : ℕ
  pub hash : Option ℕ

abbrev pub len : SegmentRecord → ℕ
len s = sat_add (s.end - s.start) 1

pub record ResumeMetadata : Type 0 where
  pub version : ℕ
  pub file_size : ℕ
  pub segment_size : ℕ
  pub segments : List SegmentRecord
  pub etag : Option Text
  pub last_modified : Option Text
  pub effective_url : Option Text

-- The loop of `ResumeMetadata::new`; each turn takes at least one byte.
unfoldable pub segments_from : ℕ → ℕ → ℕ → ℕ → List SegmentRecord
segments_from zero file_size segment_size start = []
segments_from (suc fuel) file_size segment_size start =
    let end = min (wrap_sub (wrap_add start segment_size) 1) (file_size - 1) in
    let rest = segments_from fuel file_size segment_size (wrap_add end 1) in
    if ltb start file_size then record { start = start; end = end; hash = none } ∷ rest else []

unfoldable pub new : ℕ → ℕ → ResumeMetadata
unfolding segments_from
new file_size segment_size = record {
  version = metadata_version;
  file_size = file_size;
  segment_size = max segment_size 1;
  segments = segments_from file_size file_size (max segment_size 1) 0;
  etag = none;
  last_modified = none;
  effective_url = none;
}

abbrev set_hash_at : List SegmentRecord → ℕ → ℕ → List SegmentRecord
set_hash_at [] index hash = []
set_hash_at (s ∷ segments) zero hash = record s { hash = some hash } ∷ segments
set_hash_at (s ∷ segments) (suc index) hash = s ∷ set_hash_at segments index hash

-- An index out of range is ignored.
unfoldable pub set_segment_hash : ResumeMetadata → ℕ → ℕ → ResumeMetadata
set_segment_hash m index hash = record m { segments = set_hash_at m.segments index hash }

abbrev pub is_some {ℓ} : {A : Type ℓ} → Option A → Bool
is_some none = false
is_some (some a) = true

abbrev pub range_of : SegmentRecord → Range
range_of s = (s.start, s.end)

-- The ranges of the segments that have a hash, or that have none.
abbrev pub hashed : Bool → List SegmentRecord → List Range
hashed true segments = map range_of (keep (λ s. is_some s.hash) segments)
hashed false segments = map range_of (keep (λ s. not (is_some s.hash)) segments)

unfoldable pub verified_ranges : ResumeMetadata → List Range
unfolding collect_contiguous_ranges
verified_ranges m = collect_contiguous_ranges (hashed true m.segments)

unfoldable pub remaining_ranges : ResumeMetadata → List Range
unfolding collect_contiguous_ranges
remaining_ranges m = collect_contiguous_ranges (hashed false m.segments)

unfoldable pub completed_bytes : ResumeMetadata → ℕ
completed_bytes m = weigh len (keep (λ s. is_some s.hash) m.segments) % u64_mod

extra_text : ℕ → Text
extra_text index = codes "resume metadata contains extra segment at index " ++ decimal index

range_text : ℕ → SegmentRecord → ℕ → ℕ → Text
range_text index s start end =
    codes "resume metadata segment "
    ++ (decimal index
        ++ (codes " has range "
            ++ (decimal s.start
                ++ (codes "-"
                    ++ (decimal s.end
                        ++ (codes ", expected "
                            ++ (decimal start ++ (codes "-" ++ decimal end))))))))

ends_text : ℕ → ℕ → Text
ends_text start file_size =
    codes "resume metadata segment ledger ends at "
    ++ (decimal start ++ (codes ", expected " ++ decimal file_size))

-- The loop of `validate_shape` and the test behind it; none is `Ok(())`.
unfoldable pub validate_from : ℕ → ℕ → ℕ → ℕ → List SegmentRecord → Option Text
unfolding extra_text range_text ends_text
validate_from file_size segment_size index expected_start [] =
    if expected_start == file_size then none else some (ends_text expected_start file_size)
validate_from file_size segment_size index expected_start (s ∷ segments) =
    let expected_end = min (sat_add expected_start (segment_size - 1)) (file_size - 1) in
    let rest =
      validate_from file_size segment_size (index + 1) (wrap_add expected_end 1) segments in
    if leb file_size expected_start
    then some (extra_text index)
    else if not (s.start == expected_start) || not (s.end == expected_end)
    then some (range_text index s expected_start expected_end)
    else rest

unfoldable pub validate_shape : ResumeMetadata → ℕ → Option Text
unfolding validate_from
validate_shape m file_size =
    if not (m.version == metadata_version)
    then some (codes "unsupported resume metadata version " ++ decimal m.version)
    else if not (m.file_size == file_size)
    then some (
        codes "resume metadata file size "
        ++ (decimal m.file_size
            ++ (codes " does not match current file size " ++ decimal file_size)))
    else if m.segment_size == 0
    then some (codes "resume metadata segment size must not be zero")
    else validate_from file_size m.segment_size 0 0 m.segments

-- The bitwise exclusive or of the lowest `n` bits.
abbrev xor_bits : ℕ → ℕ → ℕ → ℕ
xor_bits zero a b = 0
xor_bits (suc n) a b = (a + b) % 2 + 2 * xor_bits n (a / 2) (b / 2)

hash_from : ℕ → List ℕ → ℕ
hash_from hash [] = hash
hash_from hash (byte ∷ bytes) = hash_from (xor_bits 64 hash byte * 1099511628211 % u64_mod) bytes

unfoldable pub hash_bytes : List ℕ → ℕ
unfolding hash_from
hash_bytes bytes = hash_from 14695981039346656037 bytes

-- What becomes of a segment's hash: it stays if it is still that of the bytes of the file.
unfoldable pub verify_hash : List ℕ → SegmentRecord → Option ℕ → Option ℕ
verify_hash file s none = none
verify_hash file s (some expected_hash) =
    if leb (length file) s.end
    then none
    else if hash_bytes (take (len s) (drop s.start file)) == expected_hash
    then some expected_hash
    else none

abbrev pub verify_segment : List ℕ → SegmentRecord → SegmentRecord
verify_segment file s = record s { hash = verify_hash file s s.hash }

-- On a file that can be read.
unfoldable pub verify_against_file : List ℕ → ResumeMetadata → ResumeMetadata
unfolding verify_hash
verify_against_file file m = record m { segments = map (verify_segment file) m.segments }

unfoldable pub full_ranges : ℕ → List Range
full_ranges file_size = if file_size == 0 then [] else (0, file_size - 1) ∷ []
