-- ===== src/Retry/Tests.antt =====
-- The retry handler at concrete failures.
use simple_downloader.Prelude.{
  ℕ, zero, suc, ◌+◌, ◌-◌, ◌≡◌, refl, true, List, [], ◌∷◌, none, All, weigh, arith,
}
use simple_downloader.Prelude.Text.{codes}
use simple_downloader.Retry.Classify.{permanent, classify_error, is_local_io_failure}
use simple_downloader.Retry.Queues.{coalesce_small_fragments, has_permanent_failure}
use simple_downloader.Retry.{FailedChunkInfo, RetryHandler, new, Failure}
use simple_downloader.Retry.Coalesce.{holds, coalesce_small_fragments-holds}
use simple_downloader.Retry.History.{Op, fails, run, NotComplete, run-permanent}

-- Offsets and process numbers in a text count as status codes and error numbers.
misread :
    (classify_error (codes "chunk idle timeout (15s no data, 1404000-2000000)") ≡ permanent)
    × (is_local_io_failure (codes "connection reset by peer (os error 54)") ≡ true)
unfolding classify_error is_local_io_failure
misread = (refl, refl)

abbrev chunk : ℕ → ℕ → ℕ → ℕ → FailedChunkInfo
chunk id start end time = record {
  id = id;
  start = start;
  end = end;
  failure_time = time;
  attempts = 1;
}

abbrev waiting : RetryHandler
waiting = record {
  retry_queue = chunk 4 5000 8999 90 ∷ chunk 2 1000 4999 40 ∷ [];
  delayed_retry_queue = record { chunk = chunk 6 9000 9999 30; retry_at = 70 } ∷ [];
  retry_attempts = [];
  total_attempts = [];
  permanent_failures = [];
  last_failure_time = none;
}

abbrev clock : ℕ → ℕ
clock k = 80 + k

abbrev reset : Failure
reset = record { id = 7; start = 10; end = 99; error = codes "connection reset" }

-- The number of bytes of a chunk.
abbrev bytes_of : ℕ → ℕ → ℕ → ℕ
bytes_of id start end = end - start + 1

coalesced : (coalesce_small_fragments waiting).retry_queue ≡ chunk 2 1000 8999 40 ∷ []
unfolding coalesce_small_fragments
coalesced = refl

coalesce_small_fragments-holds_example :
    weigh (holds 6000) (coalesce_small_fragments waiting).retry_queue
    ≡ weigh (holds 6000) waiting.retry_queue
coalesce_small_fragments-holds_example =
    coalesce_small_fragments-holds waiting 6000 (omega arith, (omega arith, tt))

abbrev repeat : ℕ → Op → List Op
repeat zero op = []
repeat (suc n) op = op ∷ repeat n op

repeat-NotComplete : (n id : ℕ) (op : Op) → NotComplete id op → All (NotComplete id) (repeat n op)
repeat-NotComplete zero id op h = tt
repeat-NotComplete (suc n) id op h = (h, repeat-NotComplete n id op h)

run-permanent_example : has_permanent_failure (run new (repeat 31 (fails clock reset))) ≡ true
run-permanent_example =
    run-permanent 7 (repeat 31 (fails clock reset))
      (repeat-NotComplete 31 7 (fails clock reset) (λ e. ground arith)) (omega arith)

abbrev delayed : RetryHandler
delayed = record waiting {
  delayed_retry_queue =
      record { chunk = chunk 6 9000 9999 30; retry_at = 70 }
      ∷ record { chunk = chunk 8 500 999 30; retry_at = 90 }
      ∷ [];
}
