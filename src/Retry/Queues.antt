-- ===== src/Retry/Queues.antt =====
-- The methods of `RetryHandler` in src/retry.rs that move chunks between its queues.
use simple_downloader.Prelude.{
  ℕ, suc, ◌+◌, ◌-◌, ◌*◌, max, min, Bool, true, false, ◌&&◌, ◌||◌, List, [], ◌∷◌, ◌++◌, Option, none,
  some, ltb, leb, ◌==◌, if◌then◌else◌, wrap_add, u64_max, sort_by_key, map,
}
use simple_downloader.Prelude.Map
use simple_downloader.Prelude.Text.{Text, codes, decimal}
use simple_downloader.Types.{ChunkId}
use simple_downloader.Retry.{FailedChunkInfo, DelayedChunkInfo, RetryHandler, retry_delay_ms}

-- A chunk that goes back to the retry queue, ready at once.
abbrev pub revive : ℕ → DelayedChunkInfo → FailedChunkInfo
revive now d = record d.chunk { failure_time = now - retry_delay_ms; attempts = 0 }

-- The loop of `process_queues`: `clock k` is read when the next chunk is moved.
unfoldable pub process_loop :
    (ℕ → ℕ)
    → ℕ
    → ℕ
    → List FailedChunkInfo
    → List DelayedChunkInfo
    → List FailedChunkInfo × List DelayedChunkInfo
process_loop clock k now queue [] = (queue, [])
process_loop clock k now queue (d ∷ delayed) =
    let rest = process_loop clock (suc k) now (queue ++ revive (clock k) d ∷ []) delayed in
    if leb d.retry_at now then rest else (queue, d ∷ delayed)

unfoldable pub process_queues : (ℕ → ℕ) → RetryHandler → RetryHandler
unfolding process_loop
process_queues clock h =
    let (queue, delayed) = process_loop clock 1 (clock 0) h.retry_queue h.delayed_retry_queue in
    record h { retry_queue = queue; delayed_retry_queue = delayed }

unfoldable pub force_drain_delayed : ℕ → RetryHandler → RetryHandler
force_drain_delayed now h = record h {
  retry_queue = h.retry_queue ++ map (revive now) h.delayed_retry_queue;
  delayed_retry_queue = [];
}

-- `end.saturating_sub(start) + 1`.
abbrev pub size_of : FailedChunkInfo → ℕ
size_of c = wrap_add (c.end - c.start) 1

-- Does `chunk` go on where `last` ends, and are both together small enough?
unfoldable pub can_merge : FailedChunkInfo → FailedChunkInfo → Bool
can_merge last chunk =
    let adjacent = ltb last.end u64_max && (last.end + 1) == chunk.start in
    let both_small = ltb (size_of last) (256 * 1024) || ltb (size_of chunk) (256 * 1024) in
    let combined_ok = leb (wrap_add (size_of last) (size_of chunk)) (1024 * 1024) in
    adjacent && both_small && combined_ok

unfoldable pub merge : FailedChunkInfo → FailedChunkInfo → FailedChunkInfo
merge last chunk = record last {
  end = chunk.end;
  attempts = max last.attempts chunk.attempts;
  failure_time = min last.failure_time chunk.failure_time;
}

-- The loop over the sorted chunks: the first argument is the last entry of `merged`.
unfoldable pub merge_loop : FailedChunkInfo → List FailedChunkInfo → List FailedChunkInfo
unfolding can_merge merge
merge_loop last [] = last ∷ []
merge_loop last (chunk ∷ rest) = elim (can_merge last chunk) [
  | true ↦ merge_loop (merge last chunk) rest
  | false ↦ last ∷ merge_loop chunk rest
]

unfoldable pub merge_all : List FailedChunkInfo → List FailedChunkInfo
unfolding merge_loop
merge_all [] = []
merge_all (chunk ∷ rest) = merge_loop chunk rest

-- A queue of fewer than two chunks is left alone.
unfoldable pub coalesce : List FailedChunkInfo → List FailedChunkInfo
unfolding merge_all sort_by_key
coalesce [] = []
coalesce (chunk ∷ []) = chunk ∷ []
coalesce (c ∷ d ∷ queue) = merge_all (sort_by_key (λ x. x.start) (c ∷ d ∷ queue))

unfoldable pub coalesce_small_fragments : RetryHandler → RetryHandler
unfolding coalesce
coalesce_small_fragments h = record h { retry_queue = coalesce h.retry_queue }

-- The first chunk of the queue that is ready at `now`, and the others.
unfoldable pub take_ready :
    ℕ → List FailedChunkInfo → Option (FailedChunkInfo × List FailedChunkInfo)
take_ready now [] = none
take_ready now (c ∷ queue) = elim (leb c.failure_time now) [
  | true ↦ some (c, queue)
  | false ↦ elim (take_ready now queue) [ none ↦ none | some (d, rest) ↦ some (d, c ∷ rest) ]
]

abbrev pub popped :
    RetryHandler
    → Option (FailedChunkInfo × List FailedChunkInfo)
    → Option FailedChunkInfo × RetryHandler
popped h none = (none, h)
popped h (some (c, rest)) = (some c, record h { retry_queue = rest })

unfoldable pub pop_ready_chunk : ℕ → RetryHandler → Option FailedChunkInfo × RetryHandler
unfolding take_ready
pop_ready_chunk now h = popped h (take_ready now h.retry_queue)

abbrev pub take_first : List FailedChunkInfo → Option (FailedChunkInfo × List FailedChunkInfo)
take_first [] = none
take_first (c ∷ queue) = some (c, queue)

unfoldable pub pop_ready_chunk_starved : RetryHandler → Option FailedChunkInfo × RetryHandler
pop_ready_chunk_starved h = popped h (take_first h.retry_queue)

unfoldable pub push_front_retry : FailedChunkInfo → RetryHandler → RetryHandler
push_front_retry c h = record h { retry_queue = c ∷ h.retry_queue }

unfoldable pub push_back_retry : FailedChunkInfo → RetryHandler → RetryHandler
push_back_retry c h = record h { retry_queue = h.retry_queue ++ c ∷ [] }

unfoldable pub push_back_retry_with_backoff : ℕ → FailedChunkInfo → RetryHandler → RetryHandler
push_back_retry_with_backoff now c h = record h {
  retry_queue = h.retry_queue ++ record c { failure_time = now } ∷ [];
}

unfoldable pub on_download_complete : ChunkId → RetryHandler → RetryHandler
unfolding Map.remove
on_download_complete id h = record h {
  retry_attempts = Map.remove id h.retry_attempts;
  total_attempts = Map.remove id h.total_attempts;
}

abbrev pub is_empty {ℓ} : {A : Type ℓ} → List A → Bool
is_empty [] = true
is_empty (x ∷ xs) = false

unfoldable pub are_all_tasks_done : RetryHandler → Bool
are_all_tasks_done h = is_empty h.retry_queue && is_empty h.delayed_retry_queue

unfoldable pub has_permanent_failure : RetryHandler → Bool
has_permanent_failure h = if is_empty h.permanent_failures then false else true

-- A failure that stands for the whole download, under the id `u64::MAX`.
unfoldable pub fail_stalled : ℕ → ℕ → ℕ → RetryHandler → RetryHandler
unfolding has_permanent_failure
fail_stalled now downloaded total h =
    let stalled : FailedChunkInfo = record {
      id = u64_max;
      start = downloaded;
      end = total;
      failure_time = now;
      attempts = 0;
    } in
    if has_permanent_failure h
    then h
    else record h { permanent_failures = h.permanent_failures ++ stalled ∷ [] }

failure_text : FailedChunkInfo → Text
failure_text f =
    if f.id == u64_max
    then codes "尾部 "
      ++ (decimal (f.end - f.start)
          ++ (codes " 字节无活跃块（已下载 "
              ++ (decimal f.start ++ (codes "/" ++ (decimal f.end ++ codes "），走 resume 重试补尾")))))
    else codes "块 "
      ++ (decimal f.id
          ++ (codes " 区间 "
              ++ (decimal f.start
                  ++ (codes "-"
                      ++ (decimal f.end
                          ++ (codes " 永久失败，已重试 " ++ (decimal f.attempts ++ codes " 次")))))))

unfoldable pub permanent_failure_message : RetryHandler → Option Text
unfolding failure_text
permanent_failure_message h = elim h.permanent_failures [
  | [] ↦ none
  | f ∷ rest ↦ some (failure_text f)
]
