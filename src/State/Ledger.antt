-- ===== src/State/Ledger.antt =====
-- What the ledger counts.
use simple_downloader.Prelude.{
  ℕ, ◌+◌, ◌-◌, ◌≤◌, ◌≡◌, ◌∙◌, inl, inr, min, max, some, u64_max, sat_add, leb, false, ◌⊎◌,
  Bool-cases, arith,
}
use simple_downloader.Prelude.Map
use simple_downloader.Prelude.Map.{get-remove, get-insert}
use simple_downloader.Types.{ChunkId}
use simple_downloader.State.{
  ChunkState, DownloadState, new_chunk, size, credit, complete_chunk, preserve_partial_exact,
  in_flight, total_downloaded, is_download_finished,
}

-- `DownloadState::chunks.insert` and `remove`, as the retry handler and the monitor call them.
abbrev pub put_chunk : DownloadState → ChunkState → DownloadState
put_chunk s c = record s { chunks = Map.insert c.id c s.chunks }

abbrev pub drop_chunk : DownloadState → ChunkId → DownloadState
drop_chunk s id = record s { chunks = Map.remove id s.chunks }

complete-put :
    (s : DownloadState) (c : ChunkState)
    → (complete_chunk (put_chunk s c) c.id).completed_bytes ≡ sat_add s.completed_bytes (size c)
unfolding complete_chunk
complete-put s c = ground (arith, get-insert c.id c.id c s.chunks)

-- A chunk that fails at `offset`, and whose retry fetches the rest and completes, enters the bytes
-- of its range in the ledger exactly once, if the progress that the state saw is not ahead of the
-- offset.
pub preserve-retry_complete :
    (s : DownloadState) (id : ChunkId) (c : ChunkState) (offset now : ℕ)
    → Map.get id s.chunks ≡ some c
    → c.start_byte ≤ offset
    → offset ≤ c.end_byte
    → c.downloaded_bytes ≤ offset - c.start_byte
    → s.completed_bytes + (c.end_byte - c.start_byte + 1) ≤ u64_max
    → let failed = drop_chunk (preserve_partial_exact s id (offset - c.start_byte)) id in
      (complete_chunk (put_chunk failed (new_chunk id offset c.end_byte now)) id).completed_bytes
      ≡ s.completed_bytes + (c.end_byte - c.start_byte + 1)
unfolding new_chunk size credit preserve_partial_exact
preserve-retry_complete s id c offset now e h k d b =
    let exact = offset - c.start_byte in
    let kept : preserve_partial_exact s id exact
        ≡ credit s (max c.downloaded_bytes (min exact (size c))) =
      rw (e, preserve_partial_exact) in
    let tail = new_chunk id offset c.end_byte now in
    rw kept (
      complete-put (drop_chunk (credit s (max c.downloaded_bytes (min exact (size c)))) id) tail
      ∙ ground arith)

-- The progress that is shown never exceeds the file size; and where the counts do not overflow, a
-- finished download shows all of it.
pub total_downloaded_bounds :
    (s : DownloadState)
    → s.completed_bytes + in_flight s ≤ u64_max
    → (total_downloaded s ≤ s.total_file_size)
      × ((is_download_finished s ≡ false) ⊎ (total_downloaded s ≡ s.total_file_size))
unfolding total_downloaded is_download_finished
total_downloaded_bounds s h = (
  ground arith,
  elim (Bool-cases (leb s.total_file_size s.completed_bytes)) [
    | inl t ↦ inr (ground arith)
    | inr f ↦ inl f
  ],
)
