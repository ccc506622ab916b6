-- ===== src/Resume/Tests.antt =====
-- Metadata of a small file, of which one segment has been fetched.
use simple_downloader.Prelude.{
  ℕ, ◌≡◌, ◌⊎◌, ◌||◌, sort_by_key, refl, true, false, List, [], ◌∷◌, some, none, All, map, arith,
}
use simple_downloader.Types.{DownloadCmd, write_file}
use simple_downloader.Range.{covers, within}
use simple_downloader.Resume.Recorder.{bytes, Write, record_all, new_recorder, flush}
use simple_downloader.Resume.Vouched.{in_writes, in_hashed, record_all-IsVouchedFor}
use simple_downloader.Writer.{Disk, file_writer, open_writer}
use simple_downloader.Range.{mark_written}
use simple_downloader.Writer.Gate.{held}
use simple_downloader.Resume.{
  ResumeMetadata, new, set_segment_hash, verified_ranges, remaining_ranges, validate_shape, is_some,
  hash_bytes, completed_bytes, verify_against_file, range_of,
}
use simple_downloader.Resume.Segments.{new-validate_shape}
use simple_downloader.Resume.Verify.{IsVerified, verify_against_file-IsVerified}
use simple_downloader.Prelude.Text.{codes, append_rev, to_ascii_lowercase, starts_with}
use simple_downloader.ContentRange.{trim}
use simple_downloader.Resume.Prepare.{Files, loaded, prepare, check_etag_mismatch}
use simple_downloader.Resume.Prepared.{Prepared, prepare-Prepared}
use simple_downloader.Resume.Plan.{plan_verified_ranges, resumed-gate}

abbrev metadata : ResumeMetadata
metadata = record {
  version = 2;
  file_size = 10;
  segment_size = 4;
  segments =
      record { start = 0; end = 3; hash = none }
      ∷ record { start = 4; end = 7; hash = some 12638201494206434313 }
      ∷ record { start = 8; end = 9; hash = some 5 }
      ∷ [];
  etag = none;
  last_modified = none;
  effective_url = none;
}

abbrev files : Files
files = record {
  sidecar = loaded metadata;
  contents = some (1 ∷ 2 ∷ 3 ∷ 4 ∷ 5 ∷ 6 ∷ 7 ∷ 8 ∷ 9 ∷ []);
  readable = true;
  save_ok = true;
}

prepare-Prepared_example : Prepared files.contents 10 (prepare files 10 true).0
prepare-Prepared_example = prepare-Prepared files 10 true (omega arith)

-- A weak tag is the same as a strong one.
weak_tag :
    (check_etag_mismatch
      (some (codes "w/\"ab\""))
      (record metadata { etag = some (codes "\"AB\"") })).0
    ≡ false
unfolding check_etag_mismatch append_rev to_ascii_lowercase starts_with trim
weak_tag = refl

same_shape : (set_segment_hash (set_segment_hash (new 10 4) 1 12638201494206434313) 2 5) ≡ metadata
unfolding new set_segment_hash
same_shape = refl

-- The FNV-1a hash of the text "a".
hash_of_a : hash_bytes (97 ∷ []) ≡ 12638187200555641996
unfolding hash_bytes
hash_of_a = refl

metadata-valid : validate_shape metadata 10 ≡ none
unfolding validate_shape
metadata-valid = refl

abbrev contents : List ℕ
contents = 1 ∷ 2 ∷ 3 ∷ 4 ∷ 5 ∷ 6 ∷ 7 ∷ 8 ∷ 9 ∷ []

-- The last segment reaches beyond the file, and the hash of the second one does not fit.
discarded : completed_bytes (verify_against_file contents metadata) ≡ 0
unfolding verify_against_file completed_bytes hash_bytes
discarded = refl

new-validate_shape_example : validate_shape (new 10 4) 10 ≡ none
new-validate_shape_example = new-validate_shape 10 4 (omega arith)

verify_against_file-IsVerified_example :
    All (λ s. IsVerified contents s s.hash) (verify_against_file contents metadata).segments
    × (map range_of (verify_against_file contents metadata).segments
        ≡ map range_of metadata.segments)
verify_against_file-IsVerified_example = verify_against_file-IsVerified contents metadata

abbrev works : Disk
works = record { seek = none; write_all = none; flush = none; record_write = none }

-- The bytes that remain.
abbrev rest : List (Disk × DownloadCmd)
rest = (works, write_file 0 (1 ∷ 2 ∷ 3 ∷ 4 ∷ [])) ∷ []

rest_ends :
    (file_writer
      (plan_verified_ranges (remaining_ranges metadata) 10)
      10
      rest
      works
      none
      none).writer_err
    ≡ none
unfolding file_writer plan_verified_ranges remaining_ranges open_writer mark_written
rest_ends = refl

resumed-gate_example :
    (held 2
        (file_writer
          (plan_verified_ranges (remaining_ranges metadata) 10)
          10
          rest
          works
          none
          none).file
      || covers (verified_ranges metadata) 2)
    ≡ true
resumed-gate_example =
    resumed-gate metadata 10 rest works none none 2 (omega arith) metadata-valid
      ((omega arith, omega arith), tt) rest_ends (omega arith)

abbrev first_write : Write
first_write = record {
  read = λ start n. bytes (1 ∷ 2 ∷ 3 ∷ 4 ∷ []);
  save_ok = true;
  now = 10;
  offset = 2;
  len = 3;
}

abbrev two_writes : List Write
two_writes = first_write ∷ record first_write { offset = 0; len = 2 } ∷ []

-- The second write fills the first segment.
fills_the_segment : completed_bytes (record_all two_writes (new_recorder metadata 0)).metadata ≡ 10
unfolding record_all new_recorder completed_bytes hash_bytes sort_by_key
fills_the_segment = refl

not_before : completed_bytes (record_all (first_write ∷ []) (new_recorder metadata 0)).metadata ≡ 6
unfolding record_all new_recorder completed_bytes hash_bytes sort_by_key
not_before = refl

flushed : (flush true 20 (record_all two_writes (new_recorder metadata 0))).1.pending_segments ≡ 0
unfolding record_all new_recorder flush hash_bytes sort_by_key
flushed = refl

record_all-IsVouchedFor_example :
    All
      (λ s.
        (is_some s.hash ≡ false)
        ⊎ ((x : ℕ)
            → (within (s.start, s.end) x ≡ false)
              ⊎ ((in_writes two_writes x || in_hashed metadata.segments x) ≡ true)))
      (record_all two_writes (new_recorder metadata 0)).metadata.segments
record_all-IsVouchedFor_example = record_all-IsVouchedFor metadata 0 two_writes
