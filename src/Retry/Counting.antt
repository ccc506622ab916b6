-- ===== src/Retry/Counting.antt =====
-- How the methods of the retry handler count the failures of a chunk.
use simple_downloader.Prelude.{
  ℕ, ◌+◌, ◌%◌, ◌≤◌, ◌≡◌, ◌≢◌, ◌⊎◌, refl, ap, inl, inr, true, false, List, [], ◌∷◌, ◌++◌, Option,
  none, some, leb, ltb, ◌==◌, if◌then◌else◌, Bool-cases, arith, u32_mod,
}
use simple_downloader.Prelude.Map
use simple_downloader.Prelude.Map.{get-insert, get-remove}
use simple_downloader.Retry.Classify.{
  ErrorClass, transient, permanent, retriable, classify_error, is_local_io_failure,
}
use simple_downloader.Retry.Queues.{
  popped, on_download_complete, has_permanent_failure, fail_stalled, is_empty,
}
use simple_downloader.Retry.{
  FailedChunkInfo, RetryHandler, Failure, give_up, schedule, count_and_schedule, by_class,
  handle_failure, max_retries, max_total_attempts, count_of,
}

-- Some chunk was given up, or the failures of `id` are counted and few.
abbrev pub Counted : ℕ → ℕ → RetryHandler → Type 0
Counted id n h =
    (has_permanent_failure h ≡ true)
    ⊎ (n ≤ count_of id h.total_attempts) × (count_of id h.total_attempts ≤ max_total_attempts)

count_of-insert :
    (k id v : ℕ) (m : Map.Map ℕ)
    → count_of id (Map.insert k v m) ≡ (if k == id then v else count_of id m)
unfolding count_of
count_of-insert k id v m = ground (arith, get-insert k id v m)

is_empty-snoc : {A : Type 0} (xs : List A) (x : A) → is_empty (xs ++ x ∷ []) ≡ false
is_empty-snoc [] x = refl
is_empty-snoc (y ∷ xs) x = refl

give_up-permanent :
    (h : RetryHandler) (f : Failure) (t a : ℕ) → has_permanent_failure (give_up h f t a) ≡ true
unfolding give_up has_permanent_failure
give_up-permanent h f t a = rw (is_empty-snoc h.permanent_failures _)

schedule-same :
    (clock : ℕ → ℕ) (h : RetryHandler) (f : Failure) (a : ℕ)
    → ((schedule clock h f a).0.total_attempts ≡ h.total_attempts)
      × ((schedule clock h f a).0.permanent_failures ≡ h.permanent_failures)
unfolding schedule
schedule-same clock h f a = elim (Bool-cases (leb a max_retries)) [
  | inl t ↦ rw t (refl, refl)
  | inr t ↦ rw t (refl, refl)
]

-- A turn that leaves the counts and the permanent failures.
pub Counted-same :
    (id n : ℕ) (h h' : RetryHandler)
    → h'.total_attempts ≡ h.total_attempts
    → h'.permanent_failures ≡ h.permanent_failures
    → Counted id n h
    → Counted id n h'
unfolding has_permanent_failure
Counted-same id n h h' e p c = rw (e, p) c

-- One more failure, of `id` or of another chunk.
abbrev pub one_if : ℕ → ℕ → ℕ
one_if id k = if k == id then 1 else 0

counted_up :
    (id n k c d : ℕ)
    → (k ≡ id → d ≡ c)
    → ltb max_total_attempts ((d + 1) % u32_mod) ≡ false
    → n ≤ c
    → c ≤ max_total_attempts
    → let c' = if k == id then (d + 1) % u32_mod else c in
      (one_if id k + n ≤ c') × (c' ≤ max_total_attempts)
counted_up id n k c d same t h b = elim (Bool-cases (k == id)) [
  | inl e ↦ let eq : d ≡ c = same (ground arith) in rw (e, eq) (ground arith, ground arith)
  | inr e ↦ rw e (omega arith, b)
]

insert-Counted :
    (id n k : ℕ) (h : RetryHandler)
    → let total = (count_of k h.total_attempts + 1) % u32_mod in
      ltb max_total_attempts total ≡ false
      → Counted id n h
      → Counted id
          (one_if id k + n)
          (record h { total_attempts = Map.insert k total h.total_attempts })
insert-Counted id n k h t (inl p) = inl (unfold has_permanent_failure in p)
insert-Counted id n k h t (inr (a, b)) =
    let total = (count_of k h.total_attempts + 1) % u32_mod in
    inr (
      rw (count_of-insert k id total h.total_attempts) (
        counted_up id n k _ (count_of k h.total_attempts)
          (λ e. ap (λ j. count_of j h.total_attempts) e) t a b))

count_and_schedule-Counted :
    (id n : ℕ) (clock : ℕ → ℕ) (h : RetryHandler) (f : Failure)
    → Counted id n h
    → Counted id (one_if id f.id + n) (count_and_schedule clock h f).0
unfolding count_and_schedule
count_and_schedule-Counted id n clock h f c =
    let total = (count_of f.id h.total_attempts + 1) % u32_mod in
    elim (Bool-cases (ltb max_total_attempts total)) [
      | inl t ↦ rw t (inl (give_up-permanent (record h { total_attempts = _ }) f (clock 0) total))
      | inr t ↦ rw t (
          Counted-same id (one_if id f.id + n)
            (record h { total_attempts = Map.insert f.id total h.total_attempts }) _
            (schedule-same clock _ f _).0 (schedule-same clock _ f _).1
            (insert-Counted id n f.id h t c))
    ]

by_class-Counted :
    (id n : ℕ) (clock : ℕ → ℕ) (h : RetryHandler) (f : Failure) (e : ErrorClass)
    → Counted id n h
    → Counted id (one_if id f.id + n) (by_class clock h f e).0
unfolding by_class
by_class-Counted id n clock h f transient c = count_and_schedule-Counted id n clock h f c
by_class-Counted id n clock h f permanent c = inl (give_up-permanent h f (clock 0) _)
by_class-Counted id n clock h f retriable c = count_and_schedule-Counted id n clock h f c

pub handle_failure-Counted :
    (id n : ℕ) (clock : ℕ → ℕ) (h : RetryHandler) (f : Failure)
    → Counted id n h
    → Counted id (one_if id f.id + n) (handle_failure clock h f).0
unfolding handle_failure
handle_failure-Counted id n clock h f c = elim (Bool-cases (is_local_io_failure f.error)) [
  | inl t ↦ rw t (inl (give_up-permanent h f (clock 0) _))
  | inr t ↦ rw t (by_class-Counted id n clock h f (classify_error f.error) c)
]

pub popped-Counted :
    (id n : ℕ) (h : RetryHandler) (o : Option (FailedChunkInfo × List FailedChunkInfo))
    → Counted id n h
    → Counted id n (popped h o).1
popped-Counted id n h none c = c
popped-Counted id n h (some (d, rest)) c = Counted-same id n h _ refl refl c

pub complete-Counted :
    (id n k : ℕ) (h : RetryHandler)
    → k ≢ id
    → Counted id n h
    → Counted id n (on_download_complete k h)
unfolding on_download_complete
complete-Counted id n k h ne (inl p) = inl (unfold has_permanent_failure in p)
complete-Counted id n k h ne (inr b) =
    let same : count_of id (Map.remove k h.total_attempts) ≡ count_of id h.total_attempts =
      unfold count_of in ground (arith, get-remove k id h.total_attempts) in
    inr (rw same b)

pub stall-Counted :
    (id n now d t : ℕ) (h : RetryHandler) → Counted id n h → Counted id n (fail_stalled now d t h)
unfolding fail_stalled
stall-Counted id n now d t h c = elim (Bool-cases (has_permanent_failure h)) [
  | inl p ↦ rw p c
  | inr p ↦ rw p (inl (unfold has_permanent_failure in rw (is_empty-snoc h.permanent_failures _)))
]
