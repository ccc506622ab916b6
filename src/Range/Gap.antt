-- ===== src/Range/Gap.antt =====
-- The writer's coverage gate finds the first hole, and only a hole.
use simple_downloader.Prelude.{
  ℕ, ◌+◌, ◌-◌, ◌≤◌, ◌<◌, ◌≡◌, refl, ◌∙◌, sym, inl, inr, max, min, true, false, ◌&&◌, List, [], ◌∷◌,
  ◌++◌, map, keep, Option, none, some, leb, ltb, u64_max, sat_add, sort_by_key, sort_by_key-Ascends,
  Ascends, Ascends-mono, sort_by_key-All, All, Bool-cases, arith,
}
use simple_downloader.Range.{Range, start_of, covers, gap_loop, extents, coverage_gap}
use simple_downloader.Range.Merge.{covers-sort_by_key}

-- The verdict of a scan of the bytes below `size` for a byte that `rs` does not cover.
abbrev pub FirstHole : List Range → ℕ → Option Range → Type 0
FirstHole rs size none = (x : ℕ) → x < size → covers rs x ≡ true
FirstHole rs size (some (g, h)) =
    (g ≤ h)
    × (h < size)
    × ((x : ℕ) → x < g → covers rs x ≡ true)
    × ((x : ℕ) → g ≤ x → x ≤ h → covers rs x ≡ false)

-- The bytes below `cursor` are known to be covered.
abbrev HoleFrom : ℕ → List Range → ℕ → Option Range → Type 0
HoleFrom c rs size none = (x : ℕ) → c ≤ x → x < size → covers rs x ≡ true
HoleFrom c rs size (some (g, h)) =
    (c ≤ g)
    × (g ≤ h)
    × (h < size)
    × ((x : ℕ) → c ≤ x → x < g → covers rs x ≡ true)
    × ((x : ℕ) → g ≤ x → x ≤ h → covers rs x ≡ false)

abbrev IsExtent : ℕ → Range → Type 0
IsExtent size r = (r.0 ≤ r.1) × (r.1 < size)

pub below_first : (b x : ℕ) (rs : List Range) → Ascends start_of b rs → x < b → covers rs x ≡ false
below_first b x [] a h = refl
below_first b x ((s, e) ∷ rs) a h = ground (arith, below_first s x rs a.1)

HoleFrom-cons :
    (size c s e : ℕ) (rs : List Range) (o : Option Range)
    → s ≤ c
    → HoleFrom (max c (e + 1)) rs size o
    → HoleFrom c ((s, e) ∷ rs) size o
HoleFrom-cons size c s e rs none h k = λ x p q. ground (arith, k x)
HoleFrom-cons size c s e rs (some (g, t)) h k =
    (omega arith, k.1, k.2, λ x p q. ground (arith, k.3 x), λ x p q. ground (arith, k.4 x))

gap_loop-HoleFrom :
    (size c : ℕ) (rs : List Range)
    → size ≤ u64_max
    → Ascends start_of 0 rs
    → All (IsExtent size) rs
    → HoleFrom c rs size (gap_loop size c rs)
unfolding gap_loop
gap_loop-HoleFrom size c [] m a w = elim (Bool-cases (ltb c size)) [
  | inl t ↦
      rw t (omega arith, ground arith, ground arith, λ x p q. absurd (omega arith), λ x p q. refl)
  | inr f ↦ rw f (λ x p q. absurd (ground arith))
]
gap_loop-HoleFrom size c ((s, e) ∷ rs) m a w =
    let last : sat_add e 1 ≡ e + 1 = omega arith in
    elim (Bool-cases (ltb c s)) [
      | inl t ↦ rw t (
        omega arith,
        ground arith,
        ground arith,
        λ x p q. absurd (omega arith),
        λ x p q. ground (arith, below_first s x rs a.1),
      )
      | inr f ↦ elim (Bool-cases (leb size (max c (sat_add e 1)))) [
        | inl t ↦ rw (f, t) (λ x p q. ground arith)
        | inr g ↦
            rw (f, g)
              (HoleFrom-cons size c s e rs _ (ground arith) (
                rw last (
                  gap_loop-HoleFrom size (max c (e + 1)) rs m
                    (Ascends-mono start_of 0 s rs (omega arith) a.1) w.1)))
      ]
    ]

module _ (size : ℕ) where
  abbrev kept : List Range → List Range
  kept rs = map (λ r. (r.0, min r.1 (size - 1))) (keep (λ r. leb r.0 r.1 && ltb r.0 size) rs)

  kept-IsExtent : (rs : List Range) → All (IsExtent size) (kept rs)
  kept-IsExtent [] = tt
  kept-IsExtent ((s, e) ∷ rs) = elim (Bool-cases (leb s e && ltb s size)) [
    | inl t ↦ rw t ((ground arith, ground arith), kept-IsExtent rs)
    | inr f ↦ rw f (kept-IsExtent rs)
  ]

  covers-kept : (rs : List Range) (x : ℕ) → x < size → covers (kept rs) x ≡ covers rs x
  covers-kept [] x h = refl
  covers-kept ((s, e) ∷ rs) x h = ground (arith, covers-kept rs x h)

FirstHole-transfer :
    (rs qs : List Range) (size : ℕ) (o : Option Range)
    → ((x : ℕ) → x < size → covers qs x ≡ covers rs x)
    → HoleFrom 0 qs size o
    → FirstHole rs size o
FirstHole-transfer rs qs size none same h = λ x p. sym (same x p) ∙ h x (omega arith) p
FirstHole-transfer rs qs size (some (g, t)) same h = (
  h.1,
  h.2,
  λ x p. sym (same x (omega arith)) ∙ h.3 x (omega arith) p,
  λ x p q. sym (same x (omega arith)) ∙ h.4 x p q,
)

-- For a file size of a `u64` below its maximum, the gate returns none exactly when every byte below
-- the size lies in a written or a trusted range, and otherwise a range of bytes that none covers,
-- below the size, with every byte before it covered.
pub coverage_gap-FirstHole :
    (written trusted : List Range) (size : ℕ)
    → size ≤ u64_max
    → FirstHole (written ++ trusted) size (coverage_gap written trusted size)
unfolding coverage_gap extents
coverage_gap-FirstHole written trusted size m =
    let found : List Range = kept size (written ++ trusted) in
    FirstHole-transfer (written ++ trusted) (sort_by_key start_of found) size _
      (λ x h. covers-sort_by_key found x ∙ covers-kept size (written ++ trusted) x h)
      (gap_loop-HoleFrom size 0 (sort_by_key start_of found) m (sort_by_key-Ascends start_of found)
        (sort_by_key-All start_of (IsExtent size) found (kept-IsExtent size (written ++ trusted))))
