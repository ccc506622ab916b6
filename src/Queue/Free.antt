-- ===== src/Queue/Free.antt =====
-- What `resolve_rename` chooses: the first of its candidates that is free; and its candidates differ.
use simple_downloader.Prelude.{
  ℕ, zero, suc, ◌+◌, ◌-◌, ◌≤◌, ◌<◌, ◌≡◌, ◌⊎◌, refl, inl, inr, Bool, true, false, ◌||◌, List,
  Bool-cases, arith, sym, subst, leb,
}
use simple_downloader.Prelude.Text.{Text}
use simple_downloader.Queue.{holds_path}
use simple_downloader.Queue.Rename.{
  Desired, Looks, nth_candidate, is_taken, rename_loop, resolve_rename,
}

-- A candidate was on the disk in its turn, or was occupied when the snapshot or the lock was taken.
abbrev pub WasTaken : Desired → Looks → List Text → ℕ → Type 0
WasTaken d looks snapshot n =
    (looks.exists n (nth_candidate d n) ≡ true)
    ⊎ (looks.exists_locked n (nth_candidate d n) ≡ true)
    ⊎ (holds_path snapshot (nth_candidate d n) ≡ true)
    ⊎ ((i : ℕ) × (i ≤ n) × (holds_path (looks.occupied i) (nth_candidate d n) ≡ true))

-- From turn `n` on, with `turns` left, the path is that of the turn at which it was free under the
-- lock, or that of the last turn.
abbrev pub FirstFree : ℕ → Desired → Looks → ℕ → List Text → Text → Type 0
FirstFree turns d looks n snapshot p =
    (m : ℕ) × (p ≡ nth_candidate d m)
    × ((j : ℕ) → n ≤ j → j < m → WasTaken d looks snapshot j)
    × (((n ≤ m)
          × (m < n + turns)
          × (is_taken (looks.exists_locked m) (looks.occupied m) (nth_candidate d m) ≡ false))
        ⊎ ((m ≡ n + turns - 1) × (n ≤ m → WasTaken d looks snapshot m)))

or_true : (a b : Bool) → (a || b) ≡ true → (a ≡ true) ⊎ (b ≡ true)
or_true true b h = inl refl
or_true false b h = inr h

-- The snapshot is the first, or what was occupied in a turn before.
abbrev Snapshot : Looks → List Text → ℕ → List Text → Type 0
Snapshot looks first n now = (now ≡ first) ⊎ ((i : ℕ) × (i < n) × (now ≡ looks.occupied i))

kept :
    (looks : Looks) (first : List Text) (n : ℕ) (now : List Text)
    → Snapshot looks first n now
    → Snapshot looks first (suc n) now
kept looks first n now (inl same) = inl same
kept looks first n now (inr (i, before, same)) = inr (i, omega arith, same)

taken_now :
    (d : Desired) (looks : Looks) (first now : List Text) (n : ℕ)
    → Snapshot looks first n now
    → is_taken (looks.exists n) now (nth_candidate d n) ≡ true
    → WasTaken d looks first n
taken_now d looks first now n at h =
    elim (or_true (holds_path now (nth_candidate d n)) (looks.exists n (nth_candidate d n)) h) [
      | inl e ↦ elim at [
        | inl same ↦ inr (inr (inl (rw same at e)))
        | inr (i, before, same) ↦ inr (inr (inr (i, omega arith, rw same at e)))
      ]
      | inr e ↦ inl e
    ]

taken_locked :
    (d : Desired) (looks : Looks) (first : List Text) (n : ℕ)
    → is_taken (looks.exists_locked n) (looks.occupied n) (nth_candidate d n) ≡ true
    → WasTaken d looks first n
taken_locked d looks first n h =
    elim (or_true (holds_path (looks.occupied n) (nth_candidate d n))
      (looks.exists_locked n (nth_candidate d n)) h) [
        | inl e ↦ inr (inr (inr (n, omega arith, e)))
        | inr e ↦ inr (inl e)
      ]

-- A turn whose candidate was taken.
further :
    (turns : ℕ) (d : Desired) (looks : Looks) (n : ℕ) (p : Text) (snapshot : List Text)
    → WasTaken d looks snapshot n
    → FirstFree turns d looks (suc n) snapshot p
    → FirstFree (suc turns) d looks n snapshot p
further turns d looks n p snapshot taken (m, same, before, end) =
    let here : (j : ℕ) → j ≡ n → WasTaken d looks snapshot j =
      λ j e. subst (WasTaken d looks snapshot) (sym e) taken in
    let upto : (j : ℕ)
        → n ≤ j
        → (suc n ≤ j → WasTaken d looks snapshot j)
        → WasTaken d looks snapshot j =
      λ j from later. elim (Bool-cases (leb j n)) [
        | inl e ↦ here j (ground arith)
        | inr e ↦ later (ground arith)
      ] in
    (
      m,
      same,
      λ j from below. upto j from (λ after. before j after below),
      elim end [
        | inl (from, below, free) ↦ inl (omega arith, omega arith, free)
        | inr (last, taken_too) ↦ inr (omega arith, λ from. upto m from taken_too)
      ],
    )

rename_loop-FirstFree :
    (turns : ℕ) (d : Desired) (looks : Looks) (n : ℕ) (first now : List Text)
    → 1 ≤ n + turns
    → Snapshot looks first n now
    → FirstFree turns d looks n first (rename_loop turns d looks n now)
unfolding rename_loop
rename_loop-FirstFree zero d looks n first now some_turn at = (
  n - 1,
  refl,
  λ j from below. absurd (omega arith),
  inr (omega arith, λ from. absurd (omega arith)),
)
rename_loop-FirstFree (suc turns) d looks n first now some_turn at =
    let later : (next : List Text)
        → Snapshot looks first (suc n) next
        → FirstFree turns d looks (suc n) first (rename_loop turns d looks (suc n) next) =
      λ next shot. rename_loop-FirstFree turns d looks (suc n) first next (omega arith) shot in
    elim (Bool-cases (is_taken (looks.exists n) now (nth_candidate d n))) [
      | inl e ↦ rw e (
          further turns d looks n _ first (taken_now d looks first now n at e)
            (later now (kept looks first n now at)))
      | inr e ↦
          elim (Bool-cases
            (is_taken (looks.exists_locked n) (looks.occupied n) (nth_candidate d n))) [
              | inl f ↦
                  rw (e, f)
                    (further turns d looks n _ first (taken_locked d looks first n f)
                      (later (looks.occupied n) (inr (n, omega arith, refl))))
              | inr f ↦
                  rw (e, f)
                    (
                      n,
                      refl,
                      λ j from below. absurd (omega arith),
                      inl (omega arith, omega arith, f),
                    )
            ]
    ]

-- `resolve_rename` ends with a candidate of one of the turns 0 to 10000, all of whose forerunners were
-- taken: on the disk in their turn, or occupied when a snapshot or the lock was taken. The path was
-- free, on the disk and in the queue, when the lock was held in that turn; or it is the last
-- candidate, with the number 10000, and was taken like the others.
pub resolve_rename-FirstFree :
    (d : Desired) (looks : Looks) (snapshot : List Text)
    → (m : ℕ) × (resolve_rename d looks snapshot ≡ nth_candidate d m)
      × ((j : ℕ) → j < m → WasTaken d looks snapshot j)
      × (((m ≤ 10000)
            × (is_taken (looks.exists_locked m) (looks.occupied m) (nth_candidate d m) ≡ false))
          ⊎ ((m ≡ 10000) × WasTaken d looks snapshot m))
unfolding resolve_rename
resolve_rename-FirstFree d looks snapshot =
    let (m, same, before, end) =
      rename_loop-FirstFree 10001 d looks 0 snapshot snapshot (omega arith) (inl refl) in
    (
      m,
      same,
      λ j below. before j (omega arith) below,
      elim end [
        | inl (from, below, free) ↦ inl (omega arith, free)
        | inr (last, taken) ↦ inr (omega arith, taken (omega arith))
      ],
    )
