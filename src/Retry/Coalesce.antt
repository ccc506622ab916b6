-- ===== src/Retry/Coalesce.antt =====
-- `coalesce_small_fragments` of src/retry.rs keeps every byte that is to be fetched again.
use simple_downloader.Prelude.{
  ℕ, ◌+◌, ◌≤◌, ◌≡◌, refl, ◌∙◌, inl, inr, true, ◌&&◌, List, [], ◌∷◌, leb, if◌then◌else◌, weigh, All,
  sort_by_key, sort_by_key-All, weigh-sort_by_key, Bool-cases, arith,
}
use simple_downloader.Retry.Queues.{
  can_merge, merge, merge_loop, merge_all, coalesce, coalesce_small_fragments,
}
use simple_downloader.Retry.{FailedChunkInfo, RetryHandler}

-- 1 if the chunk holds the byte `x`, and 0 if not.
abbrev pub holds : ℕ → FailedChunkInfo → ℕ
holds x c = if leb c.start x && leb x c.end then 1 else 0

-- The chunk ends at most one byte before it starts.
abbrev pub IsProper : FailedChunkInfo → Type 0
IsProper c = c.start ≤ c.end + 1

merge-holds :
    (x : ℕ) (last chunk : FailedChunkInfo)
    → IsProper last
    → IsProper chunk
    → can_merge last chunk ≡ true
    → (holds x (merge last chunk) ≡ holds x last + holds x chunk) × IsProper (merge last chunk)
unfolding can_merge merge
merge-holds x last chunk p q h = ground arith

merge_loop-holds :
    (x : ℕ) (last : FailedChunkInfo) (rest : List FailedChunkInfo)
    → IsProper last
    → All IsProper rest
    → weigh (holds x) (merge_loop last rest) ≡ holds x last + weigh (holds x) rest
unfolding merge_loop
merge_loop-holds x last [] p w = refl
merge_loop-holds x last (chunk ∷ rest) p w = elim (Bool-cases (can_merge last chunk)) [
  | inl t ↦
      let (sum, proper) = merge-holds x last chunk p w.0 t in
      rw (t, merge_loop) (omega (arith, merge_loop-holds x (merge last chunk) rest proper w.1))
  | inr t ↦ rw (t, merge_loop) (omega (arith, merge_loop-holds x chunk rest w.0 w.1))
]

-- Joining small fragments keeps, for each byte, how many chunks of the retry queue hold it; all
-- chunks are taken to end at most one byte before they start.
pub coalesce_small_fragments-holds :
    (h : RetryHandler) (x : ℕ)
    → All IsProper h.retry_queue
    → weigh (holds x) (coalesce_small_fragments h).retry_queue ≡ weigh (holds x) h.retry_queue
unfolding coalesce_small_fragments
coalesce_small_fragments-holds h x w = queue h.retry_queue w
  where
    all :
        (q : List FailedChunkInfo)
        → All IsProper q
        → weigh (holds x) (merge_all q) ≡ weigh (holds x) q
    all [] w = unfold merge_all in refl
    all (c ∷ q) w = unfold merge_all in merge_loop-holds x c q w.0 w.1

    queue :
        (q : List FailedChunkInfo)
        → All IsProper q
        → weigh (holds x) (coalesce q) ≡ weigh (holds x) q
    queue [] w = unfold coalesce in refl
    queue (c ∷ []) w = unfold coalesce in refl
    queue (c ∷ d ∷ q) w =
        unfold coalesce in
        all (sort_by_key (λ e. e.start) (c ∷ d ∷ q))
          (sort_by_key-All (λ e. e.start) IsProper (c ∷ d ∷ q) w)
        ∙ weigh-sort_by_key (λ e. e.start) (holds x) (c ∷ d ∷ q)
