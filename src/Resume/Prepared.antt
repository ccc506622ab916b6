-- ===== src/Resume/Prepared.antt =====
-- What `ResumePlan::prepare` of src/resume.rs lets the writer trust.
use simple_downloader.Prelude.{
  ℕ, ◌+◌, ◌-◌, ◌≤◌, ◌<◌, ◌≡◌, ◌⊎◌, refl, inl, inr, min, Bool, true, false, not, ◌||◌, List, [], ◌∷◌,
  map, Option, none, some, leb, ◌==◌, All, u64_max, sat_add, wrap_add, Bool-cases, Option-cases,
  ◌∙◌, arith, if-holds,
}
use simple_downloader.Range.{covers}
use simple_downloader.Resume.{
  SegmentRecord, ResumeMetadata, metadata_version, full_ranges, verified_ranges, validate_from,
  validate_shape, verify_segment, verify_against_file,
}
use simple_downloader.Resume.Segments.{remaining_ranges-verified_ranges}
use simple_downloader.Resume.Plan.{plan_loop, plan_verified_ranges, plan_verified_ranges-covers}
use simple_downloader.Resume.Verify.{IsVerified, verify_against_file-IsVerified}
use simple_downloader.Resume.Prepare.{
  Files, Sidecar, absent, corrupted, loaded, FileEffect, ResumePlan, full_plan, resumed_plan,
  resumed, by_files, prepare,
}

-- A byte that remains is not trusted. A byte that is trusted was there before, is left there, and lies
-- in a segment whose hash is that of the file's own bytes.
abbrev pub Vouches : Option (List ℕ) → ℕ → ℕ → ResumePlan → Type 0
Vouches contents n x p =
    ((covers p.remaining x ≡ true) × (covers (plan_verified_ranges p.remaining n) x ≡ false))
    ⊎ ((covers p.remaining x ≡ false)
        × (covers (plan_verified_ranges p.remaining n) x ≡ true)
        × (p.truncate_output ≡ false)
        × (file : List ℕ) × (m : ResumeMetadata) × (contents ≡ some file)
        × (p.metadata ≡ some m)
        × (covers (verified_ranges m) x ≡ true)
        × All (λ s. IsVerified file s s.hash) m.segments)

abbrev pub Prepared : Option (List ℕ) → ℕ → Option ResumePlan → Type 0
Prepared contents n none = Unit
Prepared contents n (some p) = (x : ℕ) → x < n → Vouches contents n x p

abbrev Prepares : Option (List ℕ) → ℕ → Option ResumePlan × List FileEffect → Type 0
Prepares contents n (plan, effects) = Prepared contents n plan

full_plan-Vouches :
    (contents : Option (List ℕ)) (n x : ℕ) (m : Option ResumeMetadata)
    → n ≤ u64_max
    → x < n
    → Vouches contents n x (full_plan n m)
unfolding full_ranges plan_verified_ranges plan_loop
full_plan-Vouches contents n x m h k =
    let some_size : (n == 0) ≡ false = ground arith in
    let next : sat_add (min (n - 1) (n - 1)) 1 ≡ n = omega arith in
    rw some_size (inl (ground arith, ground arith))

-- Only the hashes of the metadata change.
validate_from-verify :
    (file : List ℕ) (n size k e : ℕ) (segments : List SegmentRecord)
    → validate_from n size k e segments ≡ none
    → validate_from n size k e (map (verify_segment file) segments) ≡ none
unfolding validate_from
validate_from-verify file n size k e [] h = h
validate_from-verify file n size k e (s ∷ segments) h =
    let end = min (sat_add e (size - 1)) (n - 1) in
    elim (Bool-cases (leb n e)) [
      | inl t ↦ absurd (let stuck = rw t at h in cc)
      | inr t ↦ elim (Bool-cases (not (s.start == e) || not (s.end == end))) [
        | inl u ↦ absurd (let stuck = rw (t, u) at h in cc)
        | inr u ↦
            rw (t, u)
              (validate_from-verify file n size (k + 1) (wrap_add end 1) segments (rw (t, u) at h))
      ]
    ]

validate_shape-verify :
    (file : List ℕ) (m : ResumeMetadata) (n : ℕ)
    → validate_shape m n ≡ none
    → validate_shape (verify_against_file file m) n ≡ none
unfolding validate_shape verify_against_file
validate_shape-verify file m n h = elim (Bool-cases (not (m.version == metadata_version))) [
  | inl t ↦ absurd (let stuck = rw t at h in cc)
  | inr t ↦ elim (Bool-cases (not (m.file_size == n))) [
    | inl u ↦ absurd (let stuck = rw (t, u) at h in cc)
    | inr u ↦ elim (Bool-cases (m.segment_size == 0)) [
      | inl v ↦ absurd (let stuck = rw (t, u, v) at h in cc)
      | inr v ↦
          simp (t, u, v)
            (validate_from-verify file n m.segment_size 0 0 m.segments (rw (t, u, v) at h))
    ]
  ]
]

resumed-Prepared :
    (d : Files) (file : List ℕ) (metadata : ResumeMetadata) (n : ℕ)
    → n ≤ u64_max
    → validate_shape metadata n ≡ none
    → Prepares (some file) n (resumed d file metadata)
resumed-Prepared d file metadata n h shape =
    let verified = verify_against_file file metadata in
    let valid = validate_shape-verify file metadata n shape in
    let (hashes, same) = verify_against_file-IsVerified file metadata in
    let vouched : (x : ℕ) → x < n → Vouches (some file) n x (resumed_plan verified) = λ x k.
      let trusted = plan_verified_ranges-covers verified n x h valid k in
      let remains = remaining_ranges-verified_ranges verified n x h valid k in
      elim (Bool-cases (covers (verified_ranges verified) x)) [
        | inl c ↦ inr (rw c at remains, trusted ∙ c, refl, file, verified, refl, refl, c, hashes)
        | inr c ↦ inl (rw c at remains, trusted ∙ c)
      ] in
    if-holds (Prepares (some file) n) (not d.readable) _ _ tt
      (if-holds (Prepares (some file) n) (not d.save_ok) _ _ tt vouched)

by_files-Prepared :
    (d : Files) (n : ℕ) (sidecar : Sidecar) (contents : Option (List ℕ))
    → n ≤ u64_max
    → Prepares contents n (by_files d n sidecar contents)
by_files-Prepared d n absent contents h = λ x k. full_plan-Vouches contents n x _ h k
by_files-Prepared d n corrupted none h = λ x k. full_plan-Vouches none n x _ h k
by_files-Prepared d n corrupted (some file) h = λ x k. full_plan-Vouches (some file) n x _ h k
by_files-Prepared d n (loaded m) none h = λ x k. full_plan-Vouches none n x _ h k
by_files-Prepared d n (loaded m) (some file) h = elim (Option-cases (validate_shape m n)) [
  | inl e ↦ simp e (resumed-Prepared d file m n h e)
  | inr (error, e) ↦ simp e (λ x k. full_plan-Vouches (some file) n x _ h k)
]

-- Whatever the files are like: if prepare gives a plan, each byte of the file either remains to be
-- fetched and is not trusted by the writer; or does not remain, is trusted, the output is not
-- truncated, and the byte lies in a verified range of metadata in which every hash that is left is
-- that of the output file's own bytes.
pub prepare-Prepared :
    (d : Files) (n : ℕ) (enabled : Bool)
    → n ≤ u64_max
    → Prepared d.contents n (prepare d n enabled).0
unfolding prepare
prepare-Prepared d n true h = by_files-Prepared d n d.sidecar d.contents h
prepare-Prepared d n false h = λ x k. full_plan-Vouches d.contents n x none h k
