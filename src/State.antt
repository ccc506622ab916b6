-- ===== src/State.antt =====
-- src/state.rs: the ledger of a download. The `f64` speeds (`update_speed`, `total_speed`) are kept
-- beside it, in Speed; times are in milliseconds, and the clock's reading is an argument.
pub mod Ledger
mod Tests
use simple_downloader.Prelude.{
  ℕ, ◌+◌, ◌-◌, ◌*◌, ◌%◌, min, max, Bool, Option, none, some, ltb, leb, ◌==◌, if◌then◌else◌, sat_add,
  wrap_add, weigh, length, keep, u64_mod,
}
use simple_downloader.Prelude.Map
use simple_downloader.Prelude.Map.{Map}
use simple_downloader.Prelude.Text.{Text}
use simple_downloader.Types.{ChunkId}

pub record ChunkState : Type 0 where
  pub id : ChunkId
  pub start_byte : ℕ
  pub end_byte : ℕ
  pub downloaded_bytes : ℕ
  pub last_progress_bytes : ℕ
  pub last_progress_at : ℕ
  pub status : ℕ
  pub status_message : Option Text
  pub status_changed_at : ℕ

unfoldable pub new_chunk : ChunkId → ℕ → ℕ → ℕ → ChunkState
new_chunk id start_byte end_byte now = record {
  id = id;
  start_byte = start_byte;
  end_byte = end_byte;
  downloaded_bytes = 0;
  last_progress_bytes = 0;
  last_progress_at = now;
  status = 0;
  status_message = none;
  status_changed_at = now;
}

unfoldable pub update_status : ChunkState → ℕ → Option Text → ℕ → ChunkState
update_status c status message now = record c {
  status = status;
  status_message = message;
  status_changed_at = now;
}

unfoldable pub update_downloaded : ChunkState → ℕ → ℕ → ChunkState
update_downloaded c downloaded now =
    let grown = record c {
      downloaded_bytes = downloaded;
      last_progress_bytes = downloaded;
      last_progress_at = now;
    } in
    if ltb c.downloaded_bytes downloaded then grown else record c { downloaded_bytes = downloaded }

unfoldable pub update_end_byte : ChunkState → ℕ → ChunkState
update_end_byte c end_byte = record c { end_byte = end_byte }

unfoldable pub size : ChunkState → ℕ
size c = wrap_add (c.end_byte - c.start_byte) 1

unfoldable pub remaining_bytes : ChunkState → ℕ
unfolding size
remaining_bytes c = size c - c.downloaded_bytes

unfoldable pub is_splittable : ChunkState → ℕ → Bool
unfolding remaining_bytes
is_splittable c min_chunk_size = leb ((min_chunk_size * 2) % u64_mod) (remaining_bytes c)

pub record DownloadState : Type 0 where
  pub total_file_size : ℕ
  pub chunks : Map ChunkState
  pub completed_bytes : ℕ

unfoldable pub new : ℕ → DownloadState
new total = record { total_file_size = total; chunks = Map.empty; completed_bytes = 0 }

unfoldable pub with_completed : ℕ → ℕ → DownloadState
with_completed total completed = record {
  total_file_size = total;
  chunks = Map.empty;
  completed_bytes = min completed total;
}

-- Enters bytes in the ledger.
unfoldable pub credit : DownloadState → ℕ → DownloadState
credit s n = record s { completed_bytes = sat_add s.completed_bytes n }

unfoldable pub complete_chunk : DownloadState → ChunkId → DownloadState
unfolding credit size Map.get Map.remove
complete_chunk s id = elim (Map.get id s.chunks) [
  | none ↦ s
  | some c ↦ credit (record s { chunks = Map.remove id s.chunks }) (size c)
]

unfoldable pub preserve_partial : DownloadState → ChunkId → DownloadState
unfolding credit Map.get
preserve_partial s id = elim (Map.get id s.chunks) [
  | none ↦ s
  | some c ↦ credit s c.downloaded_bytes
]

unfoldable pub preserve_partial_exact : DownloadState → ChunkId → ℕ → DownloadState
unfolding credit size Map.get
preserve_partial_exact s id exact_downloaded = elim (Map.get id s.chunks) [
  | none ↦ credit s exact_downloaded
  | some c ↦ credit s (max c.downloaded_bytes (min exact_downloaded (size c)))
]

-- The bytes of the chunks in flight.
abbrev pub in_flight : DownloadState → ℕ
in_flight s = weigh (λ e. e.1.downloaded_bytes) s.chunks

unfoldable pub total_downloaded : DownloadState → ℕ
total_downloaded s = min (wrap_add s.completed_bytes (in_flight s % u64_mod)) s.total_file_size

unfoldable pub normal_chunk_count : DownloadState → ℕ
normal_chunk_count s = length (keep (λ e. e.1.status == 0) s.chunks)

unfoldable pub is_download_finished : DownloadState → Bool
is_download_finished s = leb s.total_file_size s.completed_bytes
