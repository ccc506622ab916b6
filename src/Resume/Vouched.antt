-- ===== src/Resume/Vouched.antt =====
-- The recorder of src/resume.rs hashes a segment only when all of it was written.
use simple_downloader.Prelude.{
  ℕ, suc, ◌+◌, ◌-◌, ◌≡◌, ◌⊎◌, refl, inl, inr, min, max, Bool, true, false, ◌&&◌, ◌||◌, List, [],
  ◌∷◌, map, ltb, leb, ◌==◌, if◌then◌else◌, sat_add, All, Bool-cases, if-holds, arith,
}
use simple_downloader.Range.{Range, within, covers, add_covered_range, covers_segment}
use simple_downloader.Range.Sound.{add_covered_range_sound, covers_segment_sound}
use simple_downloader.Resume.{SegmentRecord, ResumeMetadata, len, is_some}
use simple_downloader.Resume.Recorder.{
  Read, bytes, unexpected_eof, read_error, ResumeRecorder, new_recorder, covered_at_first, Visit,
  visit_read, visit_segment, Pass, visit_loop, untouched, put_first, record_write, after_pass,
  save_now, Recorded, segment_indexes_for_range, recorded, read_failed, Write, record_all,
}

module _ (P : ℕ → Bool) where
  -- Every byte of the ranges passes.
  abbrev pub AllPass : List Range → Type 0
  AllPass rs = (x : ℕ) → (covers rs x ≡ false) ⊎ (P x ≡ true)

  abbrev pub IsVouchedFor : SegmentRecord → Type 0
  IsVouchedFor s =
      (is_some s.hash ≡ false) ⊎ ((x : ℕ) → (within (s.start, s.end) x ≡ false) ⊎ (P x ≡ true))

  grown-AllPass :
      (rs : List Range) (start end : ℕ)
      → AllPass rs
      → ((x : ℕ) → (within (start, end) x ≡ false) ⊎ (P x ≡ true))
      → AllPass (add_covered_range rs start end)
  grown-AllPass rs start end old new x =
      elim (Bool-cases (covers (add_covered_range rs start end) x)) [
        | inr t ↦ inl t
        | inl t ↦
            let either = add_covered_range_sound rs start end x t in
            elim (old x) [
              | inr p ↦ inr p
              | inl u ↦ elim (new x) [ inr p ↦ inr p | inl v ↦ absurd (cc) ]
            ]
      ]

  -- What is covered of a segment passes; and all of it, if it has a hash.
  abbrev IsSlot : SegmentRecord → List Range → Type 0
  IsSlot s c = AllPass c × IsVouchedFor s

  module _ (read : ℕ → ℕ → Read) (ws we : ℕ)
      (h : (x : ℕ) → (within (ws, we) x ≡ false) ⊎ (P x ≡ true)) where
    overlap-AllPass : (s e x : ℕ) → (within (max ws s, min we e) x ≡ false) ⊎ (P x ≡ true)
    overlap-AllPass s e x = elim (h x) [ inl out ↦ inl (ground arith) | inr p ↦ inr p ]

    visit_read-IsSlot :
        (s : SegmentRecord) (c : List Range) (answer : Read)
        → is_some s.hash ≡ false
        → AllPass c
        → covers_segment c s.start s.end ≡ true
        → IsSlot (visit_read s c answer).segment (visit_read s c answer).covered
    visit_read-IsSlot s c (bytes xs) fresh pass full = (
      pass,
      inr (λ x. elim (Bool-cases (within (s.start, s.end) x)) [
        | inr out ↦ inl out
        | inl here ↦
            let held = covers_segment_sound c s.start s.end x full here in
            elim (pass x) [ inl u ↦ absurd (cc) | inr p ↦ inr p ]
      ]),
    )
    visit_read-IsSlot s c unexpected_eof fresh pass full = (pass, inl fresh)
    visit_read-IsSlot s c read_error fresh pass full = (pass, inl fresh)

    visit_segment-IsSlot :
        (s : SegmentRecord) (c : List Range)
        → IsSlot s c
        → IsSlot (visit_segment read ws we s c).segment (visit_segment read ws we s c).covered
    unfolding visit_segment
    visit_segment-IsSlot s c (pass, vouched) =
        let grown = add_covered_range c (max ws s.start) (min we s.end) in
        let more : AllPass grown =
          grown-AllPass c (max ws s.start) (min we s.end) pass (overlap-AllPass s.start s.end) in
        elim (Bool-cases (is_some s.hash)) [
          | inl t ↦ rw t (pass, vouched)
          | inr t ↦ elim (Bool-cases (covers_segment grown s.start s.end)) [
            | inl u ↦ rw (t, u) (visit_read-IsSlot s grown (read s.start (len s)) t more u)
            | inr u ↦ rw (t, u) (more, inl t)
          ]
        ]

  -- As many lists as segments, and all as they should be.
  abbrev AreSlots : List SegmentRecord → List (List Range) → Type 0
  AreSlots [] covered = Unit
  AreSlots (s ∷ segments) [] = true ≡ false
  AreSlots (s ∷ segments) (c ∷ covered) = IsSlot s c × AreSlots segments covered

  visit_loop-AreSlots :
      (read : ℕ → ℕ → Read) (ws we first last i : ℕ)
      → (segments : List SegmentRecord) (covered : List (List Range))
      → ((x : ℕ) → (within (ws, we) x ≡ false) ⊎ (P x ≡ true))
      → AreSlots segments covered
      → let p = visit_loop read ws we first last i segments covered in
        AreSlots p.segments p.covered_ranges
  unfolding visit_loop
  visit_loop-AreSlots read ws we first last i [] covered h a = tt
  visit_loop-AreSlots read ws we first last i (s ∷ segments) [] h a = a
  visit_loop-AreSlots read ws we first last i (s ∷ segments) (c ∷ covered) h a =
      let Good : Pass → Type 0 = λ p. AreSlots p.segments p.covered_ranges in
      let rest = visit_loop read ws we first last (suc i) segments covered in
      let v = visit_segment read ws we s c in
      let skipped : Visit = record { segment = s; covered = c; newly = 0; is_broken = false } in
      let stop = put_first v (untouched segments covered) in
      let go_on = put_first v rest in
      let later = visit_loop-AreSlots read ws we first last (suc i) segments covered h a.1 in
      let slot = visit_segment-IsSlot read ws we h s c a.0 in
      if-holds Good (leb first i && leb i last) (if v.is_broken then stop else go_on)
        (put_first skipped rest) (if-holds Good v.is_broken stop go_on (slot, a.1) (slot, later))
        (a.0, later)

  abbrev HasSlots : ResumeRecorder → Type 0
  HasSlots r = AreSlots r.metadata.segments r.covered_ranges

  save_now-HasSlots :
      (ok : Bool) (now : ℕ) (r : ResumeRecorder) → HasSlots r → HasSlots (save_now ok now r).1
  save_now-HasSlots true now r h = h
  save_now-HasSlots false now r h = h

  after_pass-HasSlots :
      (ok : Bool) (now newly : ℕ) (r : ResumeRecorder)
      → HasSlots r
      → HasSlots (after_pass ok now newly r).1
  unfolding after_pass
  after_pass-HasSlots ok now newly r h =
      let Good : Recorded × ResumeRecorder → Type 0 = λ p. HasSlots p.1 in
      let counted = record r { pending_segments = r.pending_segments + newly } in
      let due = leb 16 counted.pending_segments || leb 1000 (now - r.last_save) in
      let kept : Recorded × ResumeRecorder = (recorded, counted) in
      if-holds Good (newly == 0) (recorded, r) (if due then save_now ok now counted else kept) h
        (if-holds Good due (save_now ok now counted) kept (save_now-HasSlots ok now counted h) h)

  -- The bytes of a write.
  abbrev pub holds_byte : Write → ℕ → Bool
  holds_byte w x = leb w.offset x && ltb x (w.offset + w.len)

  abbrev PassesAll : Write → Type 0
  PassesAll w = (x : ℕ) → (holds_byte w x ≡ false) ⊎ (P x ≡ true)

  record_write-HasSlots :
      (w : Write) (r : ResumeRecorder)
      → PassesAll w
      → HasSlots r
      → HasSlots (record_write w.read w.save_ok w.now w.offset w.len r).1
  unfolding record_write
  record_write-HasSlots w r pass h =
      let Good : Recorded × ResumeRecorder → Type 0 = λ p. HasSlots p.1 in
      let write_end = sat_add w.offset w.len - 1 in
      let range = segment_indexes_for_range r.metadata w.offset write_end in
      let p =
        visit_loop w.read w.offset write_end range.0 range.1 0 r.metadata.segments
          r.covered_ranges in
      let next = record r {
        metadata = record r.metadata { segments = p.segments };
        covered_ranges = p.covered_ranges;
      } in
      let broken : Recorded × ResumeRecorder = (read_failed, next) in
      let done = after_pass w.save_ok w.now p.newly_completed next in
      let empty = w.len == 0 || r.metadata.file_size == 0 in
      elim (Bool-cases empty) [
        | inl t ↦ rw t h
        | inr t ↦
            let inside : (x : ℕ) → (within (w.offset, write_end) x ≡ false) ⊎ (P x ≡ true) =
              λ x. elim (pass x) [ inl out ↦ inl (ground arith) | inr q ↦ inr q ] in
            let slots : HasSlots next =
              visit_loop-AreSlots w.read w.offset write_end range.0 range.1 0 r.metadata.segments
                r.covered_ranges inside h in
            rw t (
              if-holds Good p.is_broken broken done slots
                (after_pass-HasSlots w.save_ok w.now p.newly_completed next slots))
      ]

  record_all-HasSlots :
      (writes : List Write) (r : ResumeRecorder)
      → All PassesAll writes
      → HasSlots r
      → HasSlots (record_all writes r)
  unfolding record_all
  record_all-HasSlots [] r pass h = h
  record_all-HasSlots (w ∷ writes) r pass h =
      record_all-HasSlots writes (record_write w.read w.save_ok w.now w.offset w.len r).1 pass.1
        (record_write-HasSlots w r pass.0 h)

  AreSlots-All :
      (segments : List SegmentRecord) (covered : List (List Range))
      → AreSlots segments covered
      → All IsVouchedFor segments
  AreSlots-All [] covered h = tt
  AreSlots-All (s ∷ segments) [] h = absurd (cc)
  AreSlots-All (s ∷ segments) (c ∷ covered) h = (h.0.1, AreSlots-All segments covered h.1)

-- Is the byte in a segment that has a hash?
abbrev pub in_hashed : List SegmentRecord → ℕ → Bool
in_hashed [] x = false
in_hashed (s ∷ segments) x = (is_some s.hash && within (s.start, s.end) x) || in_hashed segments x

-- Is the byte in one of the writes?
abbrev pub in_writes : List Write → ℕ → Bool
in_writes [] x = false
in_writes (w ∷ writes) x = (leb w.offset x && ltb x (w.offset + w.len)) || in_writes writes x

start-AreSlots :
    (P : ℕ → Bool) (segments : List SegmentRecord)
    → ((x : ℕ) → (in_hashed segments x ≡ false) ⊎ (P x ≡ true))
    → AreSlots P segments (map covered_at_first segments)
start-AreSlots P [] h = tt
start-AreSlots P (s ∷ segments) h =
    let rest =
      start-AreSlots P segments
        (λ x. elim (h x) [ inl out ↦ inl (ground arith) | inr p ↦ inr p ]) in
    elim (Bool-cases (is_some s.hash)) [
      | inl t ↦
          let inside : (x : ℕ) → (within (s.start, s.end) x ≡ false) ⊎ (P x ≡ true) =
            λ x. elim (h x) [ inl out ↦ inl (ground arith) | inr p ↦ inr p ] in
          let pass : AllPass P ((s.start, s.end) ∷ []) =
            λ x. elim (inside x) [ inl out ↦ inl (ground arith) | inr p ↦ inr p ] in
          rw t ((pass, inr inside), rest)
      | inr t ↦ rw t ((λ x. inl refl, inl refl), rest)
    ]

writes-PassesAll :
    (P : ℕ → Bool) (writes : List Write)
    → ((x : ℕ) → (in_writes writes x ≡ false) ⊎ (P x ≡ true))
    → All (PassesAll P) writes
writes-PassesAll P [] h = tt
writes-PassesAll P (w ∷ writes) h = (
  λ x. elim (h x) [ inl out ↦ inl (ground arith) | inr p ↦ inr p ],
  writes-PassesAll P writes (λ x. elim (h x) [ inl out ↦ inl (ground arith) | inr p ↦ inr p ]),
)

-- Whatever the file and the saving answer: after any calls of `record_write`, in any order, each
-- segment that has a hash has each of its bytes in one of the writes, or in a segment that had a hash
-- at first.
pub record_all-IsVouchedFor :
    (m : ResumeMetadata) (now : ℕ) (writes : List Write)
    → All
        (λ s.
          (is_some s.hash ≡ false)
          ⊎ ((x : ℕ)
              → (within (s.start, s.end) x ≡ false)
                ⊎ ((in_writes writes x || in_hashed m.segments x) ≡ true)))
        (record_all writes (new_recorder m now)).metadata.segments
unfolding new_recorder
record_all-IsVouchedFor m now writes =
    let P = λ (x : ℕ). in_writes writes x || in_hashed m.segments x in
    let r = new_recorder m now in
    let out = record_all writes r in
    AreSlots-All P out.metadata.segments out.covered_ranges (
      record_all-HasSlots P writes r
        (writes-PassesAll P writes
          (λ x. elim (Bool-cases (in_writes writes x)) [ inl t ↦ inr (rw t refl) | inr t ↦ inl t ]))
        (start-AreSlots P m.segments (λ x. elim (Bool-cases (in_hashed m.segments x)) [
          | inl t ↦ inr (ground arith)
          | inr t ↦ inl t
        ])))
