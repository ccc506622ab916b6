-- ===== src/Resume/Segments.antt =====
-- The segments of the resume metadata tile the file, so that each byte is verified or remains.
use simple_downloader.Prelude.{
  ℕ, zero, suc, ◌+◌, ◌-◌, ◌≤◌, ◌<◌, ◌≡◌, refl, sym, ap, ◌∙◌, inl, inr, min, max, Bool, true, false,
  ◌||◌, not, List, [], ◌∷◌, none, ltb, leb, ◌==◌, All, Ascends, Ascends-mono, u64_max, wrap_add,
  sat_add, wrap_sub, Bool-cases, arith,
}
use simple_downloader.Range.{Range, start_of, covers, collect_contiguous_ranges}
use simple_downloader.Range.Merge.{IsRange, covers-collect_contiguous_ranges}
use simple_downloader.Range.Gap.{below_first}
use simple_downloader.Resume.{
  SegmentRecord, ResumeMetadata, segments_from, new, is_some, hashed, verified_ranges,
  remaining_ranges, validate_from, validate_shape, metadata_version,
}

-- The segments lie one behind the other and fill the bytes from `b` up to the file size.
abbrev pub Tiled : ℕ → ℕ → List SegmentRecord → Type 0
Tiled b n [] = b ≡ n
Tiled b n (s ∷ segments) = (s.start ≡ b) × (b ≤ s.end) × (s.end < n) × Tiled (s.end + 1) n segments

validate_from-Tiled :
    (n size index b : ℕ) (segments : List SegmentRecord)
    → n ≤ u64_max
    → 0 < size
    → validate_from n size index b segments ≡ none
    → Tiled b n segments
unfolding validate_from
validate_from-Tiled n size index b [] m p h = elim (Bool-cases (b == n)) [
  | inl t ↦ ground arith
  | inr t ↦ absurd (let stuck = rw t at h in cc)
]
validate_from-Tiled n size index b (s ∷ segments) m p h =
    let e = min (sat_add b (size - 1)) (n - 1) in
    elim (Bool-cases (leb n b)) [
      | inl t ↦ absurd (let stuck = rw t at h in cc)
      | inr t ↦ elim (Bool-cases (not (s.start == b) || not (s.end == e))) [
        | inl u ↦ absurd (let stuck = rw (t, u) at h in cc)
        | inr u ↦
            let same : s.end ≡ e = ground arith in
            let next : wrap_add e 1 ≡ s.end + 1 = ground arith in
            let rest : validate_from n size (index + 1) (s.end + 1) segments ≡ none =
              rw next at (rw (t, u) at h) in
            (
              ground arith,
              ground arith,
              ground arith,
              validate_from-Tiled n size (index + 1) (s.end + 1) segments m p rest,
            )
      ]
    ]

pub hashed-Ascends :
    (p : Bool) (b n : ℕ) (segments : List SegmentRecord)
    → Tiled b n segments
    → Ascends start_of b (hashed p segments)
hashed-Ascends true b n [] t = tt
hashed-Ascends false b n [] t = tt
hashed-Ascends true b n (s ∷ segments) (e, f, g, t) =
    let ih = hashed-Ascends true (s.end + 1) n segments t in
    elim (Bool-cases (is_some s.hash)) [
      | inl u ↦ rw u (omega arith, Ascends-mono start_of s.start (s.end + 1) _ (omega arith) ih)
      | inr u ↦ rw u (Ascends-mono start_of b (s.end + 1) _ (omega arith) ih)
    ]
hashed-Ascends false b n (s ∷ segments) (e, f, g, t) =
    let ih = hashed-Ascends false (s.end + 1) n segments t in
    elim (Bool-cases (is_some s.hash)) [
      | inl u ↦ rw u (Ascends-mono start_of b (s.end + 1) _ (omega arith) ih)
      | inr u ↦ rw u (omega arith, Ascends-mono start_of s.start (s.end + 1) _ (omega arith) ih)
    ]

-- A range of at least one byte, below the file size.
abbrev pub Inside : ℕ → Range → Type 0
Inside n r = (r.0 ≤ r.1) × (r.1 < n)

pub hashed-Inside :
    (p : Bool) (b n : ℕ) (segments : List SegmentRecord)
    → Tiled b n segments
    → All (Inside n) (hashed p segments)
hashed-Inside true b n [] t = tt
hashed-Inside false b n [] t = tt
hashed-Inside true b n (s ∷ segments) (e, f, g, t) =
    let ih = hashed-Inside true (s.end + 1) n segments t in
    elim (Bool-cases (is_some s.hash)) [ inl u ↦ rw u ((omega arith, g), ih) | inr u ↦ rw u ih ]
hashed-Inside false b n (s ∷ segments) (e, f, g, t) =
    let ih = hashed-Inside false (s.end + 1) n segments t in
    elim (Bool-cases (is_some s.hash)) [ inl u ↦ rw u ih | inr u ↦ rw u ((omega arith, g), ih) ]

pub Inside-IsRange : (n : ℕ) (rs : List Range) → n ≤ u64_max → All (Inside n) rs → All IsRange rs
Inside-IsRange n [] m w = tt
Inside-IsRange n (r ∷ rs) m w = ((omega arith, omega arith, omega arith), Inside-IsRange n rs m w.1)

-- Each byte of the file is in the range of exactly one segment, which has a hash or has none.
hashed-partition :
    (b n x : ℕ) (segments : List SegmentRecord)
    → Tiled b n segments
    → b ≤ x
    → x < n
    → covers (hashed false segments) x ≡ not (covers (hashed true segments) x)
hashed-partition b n x [] t h k = absurd (omega arith)
hashed-partition b n x (s ∷ segments) (e, f, g, t) h k =
    let low =
      below_first (s.end + 1) x (hashed false segments) (hashed-Ascends false _ n segments t) in
    let high =
      below_first (s.end + 1) x (hashed true segments) (hashed-Ascends true _ n segments t) in
    let ih = hashed-partition (s.end + 1) n x segments t in
    elim (Bool-cases (leb x s.end)) [
      | inl i ↦ elim (Bool-cases (is_some s.hash)) [
        | inl u ↦ rw (u, low (ground arith), high (ground arith)) (ground arith)
        | inr u ↦ rw (u, low (ground arith), high (ground arith)) (ground arith)
      ]
      | inr i ↦ elim (Bool-cases (is_some s.hash)) [
        | inl u ↦ rw (u, i, ih (ground arith) k) (ground arith)
        | inr u ↦ rw (u, i, ih (ground arith) k) (ground arith)
      ]
    ]

pub validate_shape-Tiled :
    (m : ResumeMetadata) (n : ℕ) → n ≤ u64_max → validate_shape m n ≡ none → Tiled 0 n m.segments
unfolding validate_shape
validate_shape-Tiled m n k h = elim (Bool-cases (not (m.version == metadata_version))) [
  | inl t ↦ absurd (let stuck = rw t at h in cc)
  | inr t ↦ elim (Bool-cases (not (m.file_size == n))) [
    | inl u ↦ absurd (let stuck = rw (t, u) at h in cc)
    | inr u ↦ elim (Bool-cases (m.segment_size == 0)) [
      | inl v ↦ absurd (let stuck = rw (t, u, v) at h in cc)
      | inr v ↦
          validate_from-Tiled n m.segment_size 0 0 m.segments k (ground arith) (rw (t, u, v) at h)
    ]
  ]
]

-- In metadata that pass `validate_shape`, each byte of the file either is in a verified range or
-- remains, and not both.
pub remaining_ranges-verified_ranges :
    (m : ResumeMetadata) (n x : ℕ)
    → n ≤ u64_max
    → validate_shape m n ≡ none
    → x < n
    → covers (remaining_ranges m) x ≡ not (covers (verified_ranges m) x)
unfolding remaining_ranges verified_ranges
remaining_ranges-verified_ranges m n x k h b =
    let t = validate_shape-Tiled m n k h in
    let plain : (p : Bool)
        → covers (collect_contiguous_ranges (hashed p m.segments)) x
          ≡ covers (hashed p m.segments) x =
      λ p.
        covers-collect_contiguous_ranges (hashed p m.segments) x (hashed-Ascends p 0 n m.segments t)
          (Inside-IsRange n (hashed p m.segments) k (hashed-Inside p 0 n m.segments t)) in
    plain false ∙ hashed-partition 0 n x m.segments t (omega arith) b ∙ ap not (sym (plain true))

segments_from-valid :
    (fuel n size index b : ℕ)
    → n + size ≤ u64_max
    → 0 < size
    → b ≤ n
    → n ≤ b + fuel
    → validate_from n size index b (segments_from fuel n size b) ≡ none
unfolding validate_from segments_from
segments_from-valid zero n size index b m p h k =
    let t : (b == n) ≡ true = ground arith in rw t refl
segments_from-valid (suc fuel) n size index b m p h k = elim (Bool-cases (ltb b n)) [
  | inl t ↦
      let e = min (wrap_sub (wrap_add b size) 1) (n - 1) in
      let same : min (sat_add b (size - 1)) (n - 1) ≡ e = ground arith in
      let more : leb n b ≡ false = ground arith in
      let hit : (not (b == b) || not (e == min (sat_add b (size - 1)) (n - 1))) ≡ false =
        ground arith in
      rw (t, more, hit)
        (rw same (
          segments_from-valid fuel n size (index + 1) (wrap_add e 1) m p (ground arith)
            (ground arith)))
  | inr t ↦ let u : (b == n) ≡ true = ground arith in rw (t, u) refl
]

-- New metadata pass `validate_shape`, so that their segments tile the file; for a file and a segment
-- size whose sum is within `u64`.
pub new-validate_shape :
    (n size : ℕ) → n + max size 1 ≤ u64_max → validate_shape (new n size) n ≡ none
unfolding validate_shape new
new-validate_shape n size h =
    let u : not (n == n) ≡ false = ground arith in
    let v : (max size 1 == 0) ≡ false = ground arith in
    rw (u, v) (segments_from-valid n n (max size 1) 0 0 h (omega arith) (omega arith) (omega arith))
