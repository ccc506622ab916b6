-- ===== src/Types.antt =====
-- src/types.rs: the commands and the messages that the parts exchange. The `f64` fields of
-- `MonitorUpdate` (the speeds) and the methods that read them are left out.
use simple_downloader.Prelude.{ℕ, Bool, false, List, Option, none, some, leb, ◌==◌, if◌then◌else◌}
use simple_downloader.Prelude.Text.{Text}

abbrev pub ChunkId : Type 0
ChunkId = ℕ

pub data DownloadCmd : Type 0 where
  write_file : ℕ → List ℕ → DownloadCmd
  bisect_download : ChunkId → DownloadCmd
  bisect_download_skewed : ChunkId → DownloadCmd
  terminate_chunk : ChunkId → DownloadCmd
  terminate_all : DownloadCmd

-- (id, size, downloaded, status) of a chunk.
abbrev pub ChunkDetail : Type 0
ChunkDetail = ℕ × ℕ × ℕ × ℕ

pub data DownloadInfo : Type 0 where
  chunk_progress : (id start_byte end_byte downloaded : ℕ) → DownloadInfo
  monitor_update :
      (total_size total_downloaded : ℕ) → List ChunkDetail → Option ℕ → List Bool → DownloadInfo
  download_complete : ChunkId → DownloadInfo
  chunk_failed : (id start end : ℕ) (error : Text) → DownloadInfo
  chunk_bisected : (original_id new_start new_end : ℕ) → DownloadInfo
  chunk_status_changed : (id status : ℕ) (message : Option Text) → DownloadInfo

unfoldable pub downloaded_bytes : DownloadInfo → ℕ
downloaded_bytes (monitor_update size done details eta bitmap) = done
downloaded_bytes other = 0

unfoldable pub total_bytes : DownloadInfo → ℕ
total_bytes (monitor_update size done details eta bitmap) = size
total_bytes other = 0

-- Without a known size only an empty download is complete.
unfoldable pub is_complete : DownloadInfo → Bool
is_complete (monitor_update size done details eta bitmap) =
    if size == 0 then done == 0 else leb size done
is_complete other = false

unfoldable pub eta_secs : DownloadInfo → Option ℕ
eta_secs (monitor_update size done details eta bitmap) = eta
eta_secs other = none

unfoldable pub pieces : DownloadInfo → Option (List Bool)
pieces (monitor_update size done details eta bitmap) = some bitmap
pieces other = none
