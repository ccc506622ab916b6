-- ===== src/Downloader/Tail.antt =====
-- The refill of a short tail in src/downloader.rs writes only where it should.
use simple_downloader.Prelude.{
  ℕ, suc, zero, ◌+◌, ◌-◌, ◌≤◌, ◌<◌, ◌≡◌, ◌⊎◌, inl, inr, refl, sym, subst, min, max, Bool, true,
  false, not, List, [], ◌∷◌, ◌++◌, none, some, ltb, leb, ◌==◌, if-holds, length, length-append,
  length-take, take, get_elem?, Bool-cases, some-injective, arith,
}
use simple_downloader.Downloader.Refill.{
  File, put, write_at, RefillResult, RefillError, refilled, refused, Piece, piece, broken, Round,
  Reply, unsent, reply, len_or_zero, is_echoed, settle_refill, refill_loop, store_reply,
  refill_tail_gap, go_on, refill_rounds, check_length,
}

write_at-outside :
    (pos i : ℕ) (xs : List ℕ) (f : File)
    → (i < pos) ⊎ (pos + length xs ≤ i)
    → (write_at pos xs f).bytes i ≡ f.bytes i
unfolding write_at
write_at-outside pos i [] f h = refl
write_at-outside pos i (x ∷ xs) f h =
    let other : (i == pos) ≡ false = ground arith in
    let rest = write_at-outside (suc pos) i xs (put pos x f) (ground arith) in rw other at rest

write_at-inside :
    (pos i b : ℕ) (xs : List ℕ) (f : File)
    → get_elem? xs i ≡ some b
    → (write_at pos xs f).bytes (pos + i) ≡ b
unfolding write_at
write_at-inside pos i b [] f h = absurd (cc)
write_at-inside pos zero b (x ∷ xs) f h =
    let same : (pos + 0 == pos) ≡ true = ground arith in
    let rest = write_at-outside (suc pos) (pos + 0) xs (put pos x f) (inl (omega arith)) in
    rw (rest, same) (some-injective x b h)
write_at-inside pos (suc i) b (x ∷ xs) f h =
    let shift : suc pos + i ≡ pos + suc i = omega arith in
    subst (λ n. (write_at (suc pos) xs (put pos x f)).bytes n ≡ b) shift
      (write_at-inside (suc pos) i b xs (put pos x f) h)

write_at-len :
    (pos : ℕ) (xs : List ℕ) (f : File)
    → pos ≤ f.len
    → (write_at pos xs f).len ≡ max f.len (pos + length xs)
unfolding write_at
write_at-len pos [] f h = omega arith
write_at-len pos (x ∷ xs) f h = omega (arith, write_at-len (suc pos) xs (put pos x f) (omega arith))

-- The bytes of the body.
abbrev pub body : List Piece → List ℕ
body [] = []
body (broken ∷ pieces) = body pieces
body (piece bytes w ∷ pieces) = bytes ++ body pieces

-- Outside of the bytes from `a` to below `b` the file is as before, and no longer than to `b`.
pub record IsWithin (a b : ℕ) (f out : File) : Type 0 where
  pub below : (i : ℕ) → i < a → out.bytes i ≡ f.bytes i
  pub above : (i : ℕ) → b ≤ i → out.bytes i ≡ f.bytes i
  pub short : out.len ≤ max f.len b

-- The bytes from `a` on are those of the list.
abbrev pub Reads : ℕ → List ℕ → File → Type 0
Reads a xs f = (i b : ℕ) → get_elem? xs i ≡ some b → f.bytes (a + i) ≡ b

-- Success means that the body is as long as the gap and stands in it.
abbrev pub Fills : ℕ → ℕ → List ℕ → RefillResult → File → Type 0
Fills a b xs (refused e) out = Unit
Fills a b xs refilled out = (a + length xs ≡ b) × Reads a xs out × (b ≤ out.len)

same-IsWithin : (a b : ℕ) (f : File) → IsWithin a b f f
same-IsWithin a b f = record { below = λ i h. refl; above = λ i h. refl; short = omega arith }

write_at-IsWithin :
    (a b : ℕ) (xs : List ℕ) (f : File)
    → a ≤ f.len
    → a + length xs ≤ b
    → IsWithin a b f (write_at a xs f)
write_at-IsWithin a b xs f h k = record {
  below = λ i l. write_at-outside a i xs f (inl l);
  above = λ i l. write_at-outside a i xs f (inr (omega arith));
  short = omega (arith, write_at-len a xs f h);
}

abbrev pub Refills : ℕ → ℕ → List ℕ → File → RefillResult × File → Type 0
Refills a b xs f (res, out) = IsWithin a b f out × Fills a b xs res out

get_elem?-lt : (i b : ℕ) (xs : List ℕ) → get_elem? xs i ≡ some b → i < length xs
get_elem?-lt i b [] h = absurd (cc)
get_elem?-lt zero b (x ∷ xs) h = omega arith
get_elem?-lt (suc i) b (x ∷ xs) h = omega (arith, get_elem?-lt i b xs h)

Reads-append :
    (a : ℕ) (xs ys : List ℕ) (f : File)
    → Reads a xs f
    → Reads (a + length xs) ys f
    → Reads a (xs ++ ys) f
Reads-append a [] ys f h k i b e =
    let none_more : a + 0 + i ≡ a + i = omega arith in
    subst (λ n. f.bytes n ≡ b) none_more (k i b e)
Reads-append a (x ∷ xs) ys f h k zero b e = h zero b e
Reads-append a (x ∷ xs) ys f h k (suc i) b e =
    let shift : suc a + i ≡ a + suc i = omega arith in
    let later : Reads (suc a) xs f = λ j c d.
      let back : a + suc j ≡ suc a + j = omega arith in
      subst (λ n. f.bytes n ≡ c) back (h (suc j) c d) in
    let far : Reads (suc a + length xs) ys f = λ j c d.
      let back : a + suc (length xs) + j ≡ suc a + length xs + j = omega arith in
      subst (λ n. f.bytes n ≡ c) back (k j c d) in
    subst (λ n. f.bytes n ≡ b) shift (Reads-append (suc a) xs ys f later far i b e)

-- A piece that is written, and then the rest.
piece-Refills :
    (a b : ℕ) (xs ys : List ℕ) (f : File) (o : RefillResult × File)
    → a ≤ f.len
    → a + length xs ≤ b
    → Refills (a + length xs) b ys (write_at a xs f) o
    → Refills a b (xs ++ ys) f o
piece-Refills a b xs ys f (refused e, out) h k (within, fills) = (joined_lem within, tt)
  where
    joined_lem : IsWithin (a + length xs) b (write_at a xs f) out → IsWithin a b f out
    joined_lem w = record {
      below = λ i l. rw (w.below i (omega arith)) (write_at-outside a i xs f (inl l));
      above = λ i l. rw (w.above i l) (write_at-outside a i xs f (inr (omega arith)));
      short = omega (arith, w.short, write_at-len a xs f h);
    }
piece-Refills a b xs ys f (refilled, out) h k (w, (total, reads, long)) = (
  record {
    below = λ i l. rw (w.below i (omega arith)) (write_at-outside a i xs f (inl l));
    above = λ i l. rw (w.above i l) (write_at-outside a i xs f (inr (omega arith)));
    short = omega (arith, w.short, write_at-len a xs f h);
  },
  (
    omega (arith, total, length-append xs ys),
    Reads-append a xs ys out
        (λ i c e.
          rw (w.below (a + i) (omega (arith, get_elem?-lt i c xs e)))
            (write_at-inside a i c xs f e))
        reads,
    long,
  ),
)

settle_refill-Fills :
    (r : Round) (start want received : ℕ) (f : File)
    → start + received ≤ f.len
    → Fills (start + received) (start + want) [] (settle_refill r want received) f
settle_refill-Fills r start want received f h = elim (Bool-cases r.flush_ok) [
  | inr e ↦ simp e tt
  | inl e ↦ elim (Bool-cases r.sync_ok) [
    | inr d ↦ simp (e, d) tt
    | inl d ↦ elim (Bool-cases (received == want)) [
      | inr c ↦ simp (e, d, c) tt
      | inl c ↦ simp (e, d, c) (ground arith, λ i b u. absurd (cc), ground arith)
    ]
  ]
]

refill_loop-Refills :
    (r : Round) (start want received : ℕ) (pieces : List Piece) (f : File)
    → start + received ≤ f.len
    → received ≤ want
    → Refills
        (start + received)
        (start + want)
        (body pieces)
        f
        (refill_loop r start want received pieces f)
unfolding refill_loop
refill_loop-Refills r start want received [] f h k = (
  same-IsWithin (start + received) (start + want) f,
  settle_refill-Fills r start want received f h,
)
refill_loop-Refills r start want received (broken ∷ pieces) f h k =
    (same-IsWithin (start + received) (start + want) f, tt)
refill_loop-Refills r start want received (piece bytes none ∷ pieces) f h k =
    elim (Bool-cases (ltb want (received + length bytes))) [
      | inl e ↦ rw e (same-IsWithin (start + received) (start + want) f, tt)
      | inr e ↦
          let at : start + (received + length bytes) ≡ start + received + length bytes =
            omega arith in
          let next = write_at (start + received) bytes f in
          let long : start + (received + length bytes) ≤ next.len =
            omega (arith, write_at-len (start + received) bytes f h) in
          let rest =
            refill_loop-Refills r start want (received + length bytes) pieces next long
              (ground arith) in
          rw e (
            piece-Refills (start + received) (start + want) bytes (body pieces) f
              (refill_loop r start want (received + length bytes) pieces next) h (ground arith)
              (rw at at rest))
    ]
refill_loop-Refills r start want received (piece bytes (some n) ∷ pieces) f h k =
    elim (Bool-cases (ltb want (received + length bytes))) [
      | inl e ↦ rw e (same-IsWithin (start + received) (start + want) f, tt)
      | inr e ↦
          let few : length (take n bytes) ≡ min n (length bytes) = length-take n bytes in
          rw e (
            write_at-IsWithin (start + received) (start + want) (take n bytes) f h (ground arith),
            tt,
          )
    ]

abbrev pub body_of : Reply → List ℕ
body_of unsent = []
body_of (reply status content_range pieces) = body pieces

store_reply-Refills :
    (r : Round) (start end : ℕ) (answer : Reply) (f : File)
    → start ≤ end
    → start ≤ f.len
    → Refills start end (body_of answer) f (store_reply r start end answer f)
store_reply-Refills r start end unsent f h k = (same-IsWithin start end f, tt)
store_reply-Refills r start end (reply status range pieces) f h k =
    let at : start + 0 ≡ start = omega arith in
    let all : start + (end - start) ≡ end = omega arith in
    let raw = refill_loop-Refills r start (end - start) 0 pieces f (omega arith) (omega arith) in
    let went : Refills start end (body pieces) f (refill_loop r start (end - start) 0 pieces f) =
      rw (at, all) at raw in
    let kept = λ (e : RefillError). stopped e in
    if-holds (Refills start end (body pieces) f) (not (status == 206)) _ _
      (kept RefillError.unexpected_status)
      (if-holds (Refills start end (body pieces) f) (not (is_echoed start end range)) _ _
        (kept RefillError.range_mismatch)
        (if-holds (Refills start end (body pieces) f) (not r.open_ok) _ _ (kept RefillError.io) (
          if-holds (Refills start end (body pieces) f) (not r.seek_ok) _ _ (kept RefillError.io)
            went)))
  where
    stopped : (e : RefillError) → Refills start end (body pieces) f (refused e, f)
    stopped e = (same-IsWithin start end f, tt)

pub refill_tail_gap-Refills :
    (r : Round) (start end : ℕ) (f : File)
    → start ≤ end
    → Refills start end (body_of r.answer) f (refill_tail_gap r start end f)
unfolding refill_tail_gap
refill_tail_gap-Refills r start end f h = elim (Bool-cases (len_or_zero r.landed_ok f == start)) [
  | inr e ↦ rw e (same-IsWithin start end f, tt)
  | inl e ↦
      let low : len_or_zero r.landed_ok f ≤ f.len =
        if-holds (λ n. n ≤ f.len) r.landed_ok f.len 0 (omega arith) (omega arith) in
      rw e (store_reply-Refills r start end r.answer f h (ground (arith, low)))
]

-- A file that is long enough is left alone.
refill_rounds-full :
    (file_size : ℕ) (r : Round) (rounds : List Round) (f : File)
    → r.stat_ok ≡ true
    → file_size ≤ f.len
    → refill_rounds file_size (r ∷ rounds) f ≡ f
unfolding refill_rounds
refill_rounds-full file_size r rounds f h k =
    let full : leb file_size (len_or_zero r.stat_ok f) ≡ true = simp h (ground arith) in
    rw full refl

module _ (file_size : ℕ) (f : File) (xs : List ℕ) where
  -- Behind a refill the next round has nothing to do, and behind an error there is none.
  after_refill :
      (two : Round) (rounds : List Round) (o : RefillResult × File)
      → two.stat_ok ≡ true
      → Refills f.len file_size xs f o
      → IsWithin f.len file_size f (go_on (refill_rounds file_size (two ∷ rounds)) o)
        × (go_on (refill_rounds file_size (two ∷ rounds)) o ≡ go_on (refill_rounds file_size []) o)
  unfolding refill_rounds
  after_refill two rounds (refused e, out) k h = (h.0, refl)
  after_refill two rounds (refilled, out) k (within, (total, reads, long)) =
      let same = refill_rounds-full file_size two rounds out k long in
      (subst (IsWithin f.len file_size f) (sym same) within, same)

refill_rounds-once :
    (file_size : ℕ) (one two : Round) (rounds : List Round) (f : File)
    → one.stat_ok ≡ true
    → two.stat_ok ≡ true
    → IsWithin f.len file_size f (refill_rounds file_size (one ∷ two ∷ rounds) f)
      × (refill_rounds file_size (one ∷ two ∷ rounds) f ≡ refill_rounds file_size (one ∷ []) f)
unfolding refill_rounds
refill_rounds-once file_size one two rounds f h k =
    let actual : len_or_zero one.stat_ok f ≡ f.len = simp h refl in
    elim (Bool-cases (leb file_size f.len)) [
      | inl e ↦ rw (actual, e) (same-IsWithin f.len file_size f, refl)
      | inr e ↦
          rw (actual, e)
            (after_refill file_size f (body_of one.answer) two rounds
              (refill_tail_gap one f.len file_size f) k
              (refill_tail_gap-Refills one f.len file_size f (ground arith)))
    ]

-- Where the length of the file can be read in the first two rounds: the check of the length behind a
-- download leaves each byte of the file as it was and writes none behind `file_size`; it passes only a
-- file of exactly `file_size` bytes, unless that is 0; and the rounds after the first change nothing.
pub check_length-IsExact :
    (file_size : ℕ) (one two three : Round) (last : Bool) (f : File)
    → one.stat_ok ≡ true
    → two.stat_ok ≡ true
    → let (passed, out) = check_length file_size true (one, two, three) last f in
      IsWithin f.len file_size f out
      × ((passed ≡ false) ⊎ (file_size ≡ 0) ⊎ (out.len ≡ file_size))
      × ((file_size ≡ 0) ⊎ (out ≡ refill_rounds file_size (one ∷ []) f))
unfolding check_length
check_length-IsExact file_size one two three last f h k =
    let (within, same) = refill_rounds-once file_size one two (three ∷ []) f h k in
    elim (Bool-cases (file_size == 0)) [
      | inl e ↦
          let none_wanted : file_size ≡ 0 = ground arith in
          rw e (same-IsWithin f.len file_size f, inr (inl none_wanted), inl none_wanted)
      | inr e ↦ elim (Bool-cases last) [
        | inr d ↦ rw (e, d) (within, inl refl, inr same)
        | inl d ↦
            rw (e, d)
              (
                within,
                elim (Bool-cases
                    ((refill_rounds file_size (one ∷ two ∷ three ∷ []) f).len == file_size)) [
                      | inl c ↦ inr (inr (ground arith))
                      | inr c ↦ inl c
                    ],
                inr same,
              )
      ]
    ]
