-- ===== src/State/Tests.antt =====
-- A ledger with one chunk that fails half-way.
use simple_downloader.Prelude.{◌≡◌, ◌+◌, ◌-◌, refl, true, none, [], ◌∷◌, arith}
use simple_downloader.Prelude.Map
use simple_downloader.State.{
  ChunkState, DownloadState, new_chunk, complete_chunk, preserve_partial_exact, total_downloaded,
  is_splittable,
}
use simple_downloader.State.Ledger.{put_chunk, drop_chunk, preserve-retry_complete}

abbrev half : ChunkState
half = record {
  id = 3;
  start_byte = 100;
  end_byte = 199;
  downloaded_bytes = 40;
  last_progress_bytes = 40;
  last_progress_at = 7;
  status = 0;
  status_message = none;
  status_changed_at = 0;
}

abbrev ledger : DownloadState
ledger = record { total_file_size = 200; chunks = (3, half) ∷ []; completed_bytes = 100 }

half_splittable : is_splittable half 30 ≡ true
unfolding is_splittable
half_splittable = refl

shown : total_downloaded ledger ≡ 140
unfolding total_downloaded
shown = refl

preserve-retry_complete_example :
    (complete_chunk
      (put_chunk
        (drop_chunk (preserve_partial_exact ledger 3 (150 - 100)) 3)
        (new_chunk 3 150 199 9))
      3).completed_bytes
    ≡ 100 + (199 - 100 + 1)
preserve-retry_complete_example =
    preserve-retry_complete ledger 3 half 150 9 (unfold Map.get in refl) (omega arith) (omega arith)
      (omega arith) (omega arith)
