-- ===== src/FileProbe/Grounds.antt =====
-- What the answer of the probe of src/util.rs rests on.
use simple_downloader.Prelude.{
  ℕ, ◌≡◌, ◌≢◌, ◌⊎◌, refl, inl, inr, Bool, true, false, Option, none, some, ◌==◌, Bool-cases, arith,
  ap,
}
use simple_downloader.FileProbe.{
  Head, RangeReply, Known, FileInfo, first_some, parse_length, probe_head, probe_zero_range_byte,
  total_after_slash, unsatisfied_total, is_same, is_coherent, info, is_success, on_failure_status,
  by_headers, on_partial, head_info, on_reply, get_file_info,
}

-- A header has named the size.
pub data Announced (k : Known) (r : RangeReply) (n : ℕ) : Type 0 where
  of_head : k.head_size ≡ some n → Announced k r n
  of_range : total_after_slash r.content_range ≡ some n → Announced k r n
  of_length : parse_length r.content_length ≡ some n → Announced k r n
  of_416 : unsatisfied_total r r.content_range ≡ some n → Announced k r n

-- Ranges are not claimed, or an answer speaks for them.
pub data HasRanges (k : Known) (r : RangeReply) (support : Bool) : Type 0 where
  unclaimed : support ≡ false → HasRanges k r support
  told : support ≡ k.head_support → HasRanges k r support
  partial : r.status ≡ 206 → HasRanges k r support
  total : (n : ℕ) → total_after_slash r.content_range ≡ some n → HasRanges k r support
  unsatisfied : (n : ℕ) → unsatisfied_total r r.content_range ≡ some n → HasRanges k r support

-- Where a 206 names the size, that is the size, and its one byte is the first of the whole body.
abbrev pub IsCoherent : RangeReply → ℕ → Type 0
IsCoherent r n =
    (r.status ≢ 206)
    ⊎ (total_after_slash r.content_range ≡ none)
    ⊎ ((total_after_slash r.content_range ≡ some n)
        × (b : ℕ) × (probe_zero_range_byte r ≡ some b)
        × (r.plain_first_byte ≡ some b))

-- The probe fails only without a size from the HEAD, or at a 206 whose byte is another.
abbrev pub Grounded : Known → Option RangeReply → Option FileInfo → Type 0
Grounded k none none = k.head_size ≡ none
Grounded k none (some (n, support, etag, last_modified)) =
    (k.head_size ≡ some n) × (support ≡ k.head_support)
Grounded k (some r) none = (k.head_size ≡ none) ⊎ ((r.status ≡ 206) × (is_coherent r ≡ false))
Grounded k (some r) (some (n, support, etag, last_modified)) =
    Announced k r n × HasRanges k r support × IsCoherent r n

head_info-Grounded : (k : Known) (o : Option ℕ) → k.head_size ≡ o → Grounded k none (head_info k o)
head_info-Grounded k none e = e
head_info-Grounded k (some n) e = (e, refl)

module _ (k : Known) (r : RangeReply) where
  abbrev P : Option FileInfo → Type 0
  P = Grounded k (some r)

  choose-Grounded :
      (support : Bool) (o : Option ℕ) (rest : Option FileInfo)
      → ((n : ℕ) → o ≡ some n → Announced k r n × HasRanges k r support × IsCoherent r n)
      → (o ≡ none → P rest)
      → P (first_some (info support k r o) rest)
  choose-Grounded support none rest h g = g refl
  choose-Grounded support (some n) rest h g = h n refl

  last-Grounded :
      (support : Bool) (o : Option ℕ)
      → k.head_size ≡ none
      → ((n : ℕ) → o ≡ some n → Announced k r n × HasRanges k r support × IsCoherent r n)
      → P (info support k r o)
  last-Grounded support none e h = inl e
  last-Grounded support (some n) e h = h n refl

  on_failure_status-Grounded : r.status ≢ 206 → P (on_failure_status k r)
  unfolding on_failure_status
  on_failure_status-Grounded other =
      choose-Grounded true (unsatisfied_total r r.content_range)
        (info k.head_support k r k.head_size) (λ n e. (of_416 e, unsatisfied n e, inl other))
        (λ e. head_last k.head_size refl)
    where
      head_last : (o : Option ℕ) → k.head_size ≡ o → P (info k.head_support k r o)
      head_last none e = inl e
      head_last (some n) e = (of_head e, told refl, inl other)

  -- The fallbacks are used where the status is not 206, or it names no size.
  by_headers-Grounded :
      ((r.status ≢ 206) ⊎ (total_after_slash r.content_range ≡ none)) → P (by_headers k r)
  unfolding by_headers
  by_headers-Grounded loose =
      choose-Grounded true (total_after_slash r.content_range) _
        (λ n e. (of_range e, total n e, coherent_lem n))
        (λ none_there.
          choose-Grounded k.head_support k.head_size
            (info false k r (parse_length r.content_length))
            (λ n e. (of_head e, told refl, coherent_lem n))
            (λ e.
              last-Grounded false (parse_length r.content_length) e
                (λ n d. (of_length d, unclaimed refl, coherent_lem n))))
    where
      coherent_lem : (n : ℕ) → IsCoherent r n
      coherent_lem n = elim loose [ inl other ↦ inl other | inr none_there ↦ inr (inl none_there) ]

  same-first : (a b : Option ℕ) → is_same a b ≡ true → (x : ℕ) × (a ≡ some x) × (b ≡ some x)
  same-first none b e = absurd (cc)
  same-first (some a) none e = absurd (cc)
  same-first (some a) (some b) e =
      let same : b ≡ a = ground arith in (a, refl, ap (λ n. some n) same)

  on_partial-Grounded :
      (o : Option ℕ) → r.status ≡ 206 → total_after_slash r.content_range ≡ o → P (on_partial k r o)
  unfolding is_coherent
  on_partial-Grounded (some n) s e = elim (Bool-cases (is_coherent r)) [
    | inl c ↦
        let (b, range_byte, plain) = same-first (probe_zero_range_byte r) r.plain_first_byte c in
        rw c (of_range e, partial s, inr (inr (e, b, range_byte, plain)))
    | inr c ↦ rw c (inr (s, c))
  ]
  on_partial-Grounded none s e =
      choose-Grounded true k.head_size _ (λ n d. (of_head d, partial s, inr (inl e)))
        (λ d.
          choose-Grounded true (parse_length r.content_length) (by_headers k r)
            (λ n c. (of_length c, partial s, inr (inl e))) (λ c. by_headers-Grounded (inr e)))

on_reply-Grounded : (k : Known) (reply : Option RangeReply) → Grounded k reply (on_reply k reply)
on_reply-Grounded k none = head_info-Grounded k k.head_size refl
on_reply-Grounded k (some r) = elim (Bool-cases (is_success r.status)) [
  | inr f ↦ rw f (on_failure_status-Grounded k r (λ s. absurd (ground arith)))
  | inl f ↦ elim (Bool-cases (r.status == 206)) [
    | inl s ↦
        let is_206 : r.status ≡ 206 = ground arith in
        rw (f, s) (on_partial-Grounded k r (total_after_slash r.content_range) is_206 refl)
    | inr s ↦ rw (f, s) (by_headers-Grounded k r (inl (λ e. absurd (ground arith))))
  ]
]

-- Whatever the server answers: the size that the probe gives stands in one of the headers; that ranges
-- are served is claimed only where the HEAD, a 206, a total of a range or a 416 says so; where a 206
-- names a size the probe gives that size, and only if its one byte is the first of the whole body; and
-- the probe fails only where the HEAD named no size, or a 206 gave another byte.
pub get_file_info-Grounded :
    (head : Option Head) (reply : Option RangeReply)
    → Grounded (probe_head head) reply (get_file_info head reply)
unfolding get_file_info
get_file_info-Grounded head reply = on_reply-Grounded (probe_head head) reply
