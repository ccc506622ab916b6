-- ===== src/Retry/Classify.antt =====
-- The classes of errors in src/retry.rs, read off the error's text, and the delay before a retry.
use simple_downloader.Prelude.{ℕ, ◌+◌, ◌*◌, ◌%◌, ◌^◌, min, Bool, ◌||◌, if◌then◌else◌, u32_mod}
use simple_downloader.Prelude.Text.{Text, codes, contains, to_ascii_lowercase}

pub data ErrorClass : Type 0 where
  transient permanent retriable : ErrorClass

unfoldable pub classify_error : Text → ErrorClass
unfolding contains to_ascii_lowercase
classify_error msg =
    let lower = to_ascii_lowercase msg in
    if contains lower (codes "decoding")
      || contains lower (codes "early eof")
      || contains lower (codes "unexpected eof")
      || contains lower (codes "early_eof")
    then transient
    else if contains lower (codes "403")
        || contains lower (codes "404")
        || contains lower (codes "416")
        || contains lower (codes "forbidden")
        || contains lower (codes "not found")
    then permanent
    else retriable

-- Is the file writer dead?
unfoldable pub is_local_io_failure : Text → Bool
unfolding contains
is_local_io_failure error =
    contains error (codes "写入通道已关闭")
    || contains error (codes "writer closed")
    || contains error (codes "BrokenPipe")
    || contains error (codes "os error 5")

-- In milliseconds.
unfoldable pub retry_delay : ℕ → ℕ
retry_delay attempt =
    let base_secs = 2 ^ min attempt 3 in
    let jitter_ms = (attempt * 73) % u32_mod % 200 in min base_secs 8 * 1000 + jitter_ms
