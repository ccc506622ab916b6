-- ===== src/Downloader/Streaming.antt =====
-- `streaming_download` of src/downloader.rs: one stream of a length that is not known. The pieces of
-- the body, the ticks and the answers of the writer are events; the speeds are left out.
use simple_downloader.Prelude.{
  ℕ, ◌%◌, Bool, true, false, List, [], ◌∷◌, ◌++◌, map, none, if◌then◌else◌, length, wrap_add,
  u32_mod,
}
use simple_downloader.Types.{
  ChunkDetail, DownloadInfo, chunk_progress, monitor_update, download_complete,
}
use simple_downloader.Chunk.{batches}

pub data Output : Type 0 where
  acquires : ℕ → Output
  writes : ℕ → List ℕ → Output
  informs : DownloadInfo → Output
  stops_writer stops_all : Output

-- A piece of the body, with whether the writer's channel is open; an error of the stream; its end; or
-- the ticker.
pub data Item : Type 0 where
  piece : List ℕ → Bool → Item
  broken eof ticked : Item

pub data Outcome : Type 0 where
  streaming done failed : Outcome

pub record Stream : Type 0 where
  pub offset : ℕ
  pub total_downloaded : ℕ
  pub sent : List Output

abbrev pub emit : List Output → Stream → Stream
emit os s = record s { sent = s.sent ++ os }

-- The batches for the limiter: the length is taken as a `u32`.
abbrev pub tokens : Bool → List ℕ → List Output
tokens limited bytes =
    let n = length bytes % u32_mod in if limited then map acquires (batches n n) else []

unfoldable pub on_piece : Bool → List ℕ → Stream → Stream
on_piece limited bytes s =
    let total = wrap_add s.total_downloaded (length bytes) in
    record s {
      offset = wrap_add s.offset (length bytes);
      total_downloaded = total;
      sent =
          s.sent
          ++ (tokens limited bytes
              ++ writes s.offset bytes ∷ informs (chunk_progress 0 0 0 total) ∷ []);
    }

abbrev pub update_of : ℕ → ℕ → List ChunkDetail → DownloadInfo
update_of size total details = monitor_update size total details none []

unfoldable pub on_tick : Stream → Stream
on_tick s =
    emit (informs (update_of 0 s.total_downloaded ((0, 0, s.total_downloaded, 0) ∷ [])) ∷ []) s

-- An empty piece is passed over.
unfoldable pub stream_loop : Bool → List Item → Stream → Outcome × Stream
unfolding on_piece on_tick batches
stream_loop limited [] s = (streaming, s)
stream_loop limited (piece [] writer_open ∷ items) s = stream_loop limited items s
stream_loop limited (piece (b ∷ bytes) true ∷ items) s =
    stream_loop limited items (on_piece limited (b ∷ bytes) s)
stream_loop limited (piece (b ∷ bytes) false ∷ items) s =
    (failed, emit (tokens limited (b ∷ bytes)) s)
stream_loop limited (broken ∷ items) s = (failed, s)
stream_loop limited (eof ∷ items) s = (done, s)
stream_loop limited (ticked ∷ items) s = stream_loop limited items (on_tick s)

-- Behind the loop; `writer_ok` is the writer's own result.
abbrev pub close_stream : Bool → Outcome × Stream → Outcome × Stream
close_stream writer_ok (done, s) =
    let stopped = emit (stops_writer ∷ stops_all ∷ []) s in
    let total = s.total_downloaded in
    if writer_ok
    then (
      done,
      emit (informs (update_of total total []) ∷ informs (download_complete 0) ∷ []) stopped,
    )
    else (failed, stopped)
close_stream writer_ok (outcome, s) = (outcome, s)

unfoldable pub streaming_download : (limited writer_ok : Bool) → List Item → Outcome × Stream
unfolding stream_loop
streaming_download limited writer_ok items =
    close_stream writer_ok
      (stream_loop limited items (record { offset = 0; total_downloaded = 0; sent = [] }))
