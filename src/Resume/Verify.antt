-- ===== src/Resume/Verify.antt =====
-- The hashes of the segments: how many bytes they stand for, and that they are those of the file.
use simple_downloader.Prelude.{
  ℕ, ◌+◌, ◌≤◌, ◌<◌, ◌≡◌, ◌⊎◌, refl, sym, ap, inl, inr, Bool, true, false, not, List, [], ◌∷◌, map,
  Option, none, some, leb, ◌==◌, length, take, drop, keep, All, weigh, u64_max, Bool-cases, arith,
}
use simple_downloader.Resume.{
  SegmentRecord, ResumeMetadata, is_some, range_of, len, completed_bytes, hash_bytes, verify_hash,
  verify_segment, verify_against_file, validate_shape,
}
use simple_downloader.Resume.Segments.{Tiled, validate_shape-Tiled}

-- The sizes of the segments that have a hash, or that have none.
abbrev pub bytes_in : Bool → List SegmentRecord → ℕ
bytes_in true segments = weigh len (keep (λ s. is_some s.hash) segments)
bytes_in false segments = weigh len (keep (λ s. not (is_some s.hash)) segments)

bytes_in-Tiled :
    (b n : ℕ) (segments : List SegmentRecord)
    → n ≤ u64_max
    → Tiled b n segments
    → b + bytes_in true segments + bytes_in false segments ≡ n
bytes_in-Tiled b n [] m t = omega arith
bytes_in-Tiled b n (s ∷ segments) m (e, f, g, t) =
    let ih = bytes_in-Tiled (s.end + 1) n segments m t in
    elim (Bool-cases (is_some s.hash)) [ inl u ↦ rw u (omega arith) | inr u ↦ rw u (omega arith) ]

-- In metadata that pass `validate_shape`, the completed bytes and the sizes of the segments without a
-- hash add up to the file size.
pub completed_bytes_total :
    (m : ResumeMetadata) (n : ℕ)
    → n ≤ u64_max
    → validate_shape m n ≡ none
    → completed_bytes m + bytes_in false m.segments ≡ n
unfolding completed_bytes
completed_bytes_total m n k h =
    let sum = bytes_in-Tiled 0 n m.segments k (validate_shape-Tiled m n k h) in omega arith

-- A hash that is left is that of the segment's bytes in the file.
abbrev pub IsVerified : List ℕ → SegmentRecord → Option ℕ → Type 0
IsVerified file s hash =
    (hash ≡ none)
    ⊎ (s.end < length file) × (hash ≡ some (hash_bytes (take (len s) (drop s.start file))))

verify_hash-IsVerified :
    (file : List ℕ) (s : SegmentRecord) (hash : Option ℕ)
    → IsVerified file s (verify_hash file s hash)
unfolding verify_hash
verify_hash-IsVerified file s none = inl refl
verify_hash-IsVerified file s (some h) = elim (Bool-cases (leb (length file) s.end)) [
  | inl t ↦ rw t (inl refl)
  | inr t ↦ elim (Bool-cases (hash_bytes (take (len s) (drop s.start file)) == h)) [
    | inl u ↦
        let same : hash_bytes (take (len s) (drop s.start file)) ≡ h = ground arith in
        rw (t, u) (inr (ground arith, ap some (sym same)))
    | inr u ↦ rw (t, u) (inl refl)
  ]
]

-- After `verify_against_file` the segments are the same ranges as before, and each one that still
-- has a hash lies within the file and has the hash of the bytes that are there.
pub verify_against_file-IsVerified :
    (file : List ℕ) (m : ResumeMetadata)
    → All (λ s. IsVerified file s s.hash) (verify_against_file file m).segments
      × (map range_of (verify_against_file file m).segments ≡ map range_of m.segments)
unfolding verify_against_file
verify_against_file-IsVerified file m = (all m.segments, same m.segments)
  where
    all :
        (segments : List SegmentRecord)
        → All (λ s. IsVerified file s s.hash) (map (verify_segment file) segments)
    all [] = tt
    all (s ∷ segments) = (verify_hash-IsVerified file s s.hash, all segments)

    same :
        (segments : List SegmentRecord)
        → map range_of (map (verify_segment file) segments) ≡ map range_of segments
    same [] = refl
    same (s ∷ segments) = ap (◌∷◌ (range_of s)) (same segments)
