-- ===== src/Retry.antt =====
-- src/retry.rs: the queues of failed chunks. Times are in milliseconds; each call of
-- `Instant::now()` in a method is a reading of the clock that is passed, `clock 0` the first.
-- `Instant - Duration` is the truncated difference: instants count from more than RETRY_DELAY ago.
pub mod Classify
pub mod Queues
pub mod Conservation
pub mod Coalesce
pub mod Counting
pub mod History
pub mod Order
mod Tests
use simple_downloader.Prelude.{
  ℕ, zero, suc, ◌+◌, ◌-◌, ◌*◌, ◌%◌, max, Bool, true, false, ◌&&◌, ◌||◌, not, List, [], ◌∷◌, ◌++◌,
  Option, none, some, ltb, leb, ◌==◌, if◌then◌else◌, length, sat_add, wrap_add, u32_mod, u64_max,
  sort_by_key,
}
use simple_downloader.Prelude.Map
use simple_downloader.Prelude.Map.{Map}
use simple_downloader.Prelude.Text.{Text, codes, decimal}
use simple_downloader.Types.{ChunkId, DownloadInfo, chunk_status_changed}
use simple_downloader.State.{DownloadState, preserve_partial, preserve_partial_exact}
use Classify.{
  ErrorClass, permanent, transient, retriable, classify_error, is_local_io_failure, retry_delay,
}

abbrev pub max_retries : ℕ
max_retries = 10

abbrev pub retry_delay_ms : ℕ
retry_delay_ms = 2000

abbrev pub delayed_retry_ms : ℕ
delayed_retry_ms = 10000

abbrev pub max_total_attempts : ℕ
max_total_attempts = 30

pub record FailedChunkInfo : Type 0 where
  pub id : ChunkId
  pub start : ℕ
  pub end : ℕ
  pub failure_time : ℕ
  pub attempts : ℕ

pub record DelayedChunkInfo : Type 0 where
  pub chunk : FailedChunkInfo
  pub retry_at : ℕ

pub record RetryHandler : Type 0 where
  pub retry_queue : List FailedChunkInfo
  pub delayed_retry_queue : List DelayedChunkInfo
  pub retry_attempts : Map ℕ
  pub total_attempts : Map ℕ
  pub permanent_failures : List FailedChunkInfo
  pub last_failure_time : Option ℕ

unfoldable pub new : RetryHandler
new = record {
  retry_queue = [];
  delayed_retry_queue = [];
  retry_attempts = Map.empty;
  total_attempts = Map.empty;
  permanent_failures = [];
  last_failure_time = none;
}

-- `*map.get(&id).unwrap_or(&0)`.
unfoldable pub count_of : ChunkId → Map ℕ → ℕ
unfolding Map.get
count_of id m = elim (Map.get id m) [ none ↦ 0 | some n ↦ n ]

-- The failure of one chunk, as the method's arguments give it.
pub record Failure : Type 0 where
  pub id : ChunkId
  pub start : ℕ
  pub end : ℕ
  pub error : Text

abbrev info_of : Failure → ℕ → ℕ → FailedChunkInfo
info_of f time attempts = record {
  id = f.id;
  start = f.start;
  end = f.end;
  failure_time = time;
  attempts = attempts;
}

-- The chunk is given up, and its cycle of retries forgotten.
unfoldable pub give_up : RetryHandler → Failure → ℕ → ℕ → RetryHandler
give_up h f time attempts = record h {
  permanent_failures = h.permanent_failures ++ info_of f time attempts ∷ [];
  retry_attempts = Map.remove f.id h.retry_attempts;
}

-- Have several chunks failed within half a second?
unfoldable pub is_batch : RetryHandler → ℕ → Bool
is_batch h now = elim h.last_failure_time [
  | none ↦ false
  | some t ↦ ltb (now - t) 500 && leb 3 (length h.retry_queue)
]

abbrev status_of : ChunkId → ℕ → Text → List DownloadInfo
status_of id status message = chunk_status_changed id status (some message) ∷ []

-- A retry in this cycle, or, after `MAX_RETRIES` of them, a long wait.
unfoldable pub schedule : (ℕ → ℕ) → RetryHandler → Failure → ℕ → RetryHandler × List DownloadInfo
schedule clock h f attempts =
    let now = clock 0 in
    let backoff = if is_batch h now then 200 * (length h.retry_queue + 1) else 0 in
    let seen = record h { last_failure_time = some now } in
    let soon = info_of f (now + retry_delay attempts + backoff) attempts in
    let later : DelayedChunkInfo = record {
      chunk = info_of f (clock 2) attempts;
      retry_at = clock 1 + delayed_retry_ms;
    } in
    if leb attempts max_retries
    then (
      record seen { retry_queue = h.retry_queue ++ soon ∷ [] },
      status_of f.id 2 (
          codes "将进行第 "
          ++ (decimal attempts ++ (codes " 次重试 (共 " ++ (decimal max_retries ++ codes " 次)")))),
    )
    else (
      record seen {
        delayed_retry_queue = h.delayed_retry_queue ++ later ∷ [];
        retry_attempts = Map.remove f.id h.retry_attempts;
      },
      status_of f.id 3 (codes "将在 10s 后重试"),
    )

-- The failure is counted, over all cycles and in this one.
unfoldable pub count_and_schedule :
    (ℕ → ℕ) → RetryHandler → Failure → RetryHandler × List DownloadInfo
count_and_schedule clock h f =
    let total = (count_of f.id h.total_attempts + 1) % u32_mod in
    let counted = record h { total_attempts = Map.insert f.id total h.total_attempts } in
    let attempts = (count_of f.id h.retry_attempts + 1) % u32_mod in
    let again = record counted { retry_attempts = Map.insert f.id attempts h.retry_attempts } in
    if ltb max_total_attempts total
    then (
      give_up counted f (clock 0) total,
      status_of f.id 5
          (codes "永久失败，已重试 " ++ (decimal max_total_attempts ++ (codes " 次: " ++ f.error))),
    )
    else schedule clock again f attempts

-- A permanent error is not retried.
unfoldable pub by_class :
    (ℕ → ℕ) → RetryHandler → Failure → ErrorClass → RetryHandler × List DownloadInfo
by_class clock h f permanent =
    let attempts = (count_of f.id h.total_attempts + 1) % u32_mod in
    (give_up h f (clock 0) attempts, status_of f.id 5 (codes "永久失败（不可重试）: " ++ f.error))
by_class clock h f transient = count_and_schedule clock h f
by_class clock h f retriable = count_and_schedule clock h f

-- The handler's part of `on_chunk_failed`.
unfoldable pub handle_failure : (ℕ → ℕ) → RetryHandler → Failure → RetryHandler × List DownloadInfo
handle_failure clock h f =
    let attempts = (count_of f.id h.total_attempts + 1) % u32_mod in
    if is_local_io_failure f.error
    then (give_up h f (clock 0) attempts, status_of f.id 5 (codes "本地写入失败，终止重试: " ++ f.error))
    else by_class clock h f (classify_error f.error)

-- Where the chunk is known, the failure's offset says how much of it was downloaded.
unfoldable pub preserve : DownloadState → Failure → DownloadState
preserve s f = elim (Map.get f.id s.chunks) [
  | some c ↦ preserve_partial_exact s f.id (f.start - c.start_byte)
  | none ↦ preserve_partial s f.id
]

-- The state's part: the prefix that was downloaded stays in the ledger, and the chunk goes.
unfoldable pub keep_prefix : DownloadState → Failure → DownloadState
keep_prefix s f = let kept = preserve s f in record kept { chunks = Map.remove f.id kept.chunks }

unfoldable pub on_chunk_failed :
    (ℕ → ℕ)
    → RetryHandler
    → DownloadState
    → Failure
    → RetryHandler × DownloadState × List DownloadInfo
on_chunk_failed clock h s f =
    let (h', infos) = handle_failure clock h f in (h', keep_prefix s f, infos)
