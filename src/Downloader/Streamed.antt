-- ===== src/Downloader/Streamed.antt =====
-- What `streaming_download` of src/downloader.rs hands to the writer.
use mathlib.Core.List.{append_assoc, append-nil}
use simple_downloader.Prelude.{
  ℕ, ◌+◌, ◌%◌, ◌<◌, ◌≡◌, ◌≢◌, ◌⊎◌, inl, inr, refl, sym, ◌∙◌, Bool, true, false, List, [], ◌∷◌, ◌++◌,
  map, length, length-append, u64_mod, u32_mod, wrap_add, arith,
}
use simple_downloader.Chunk.{batches}
use simple_downloader.Types.{chunk_progress, download_complete}
use simple_downloader.Downloader.Streaming.{
  Output, acquires, writes, informs, stops_writer, stops_all, Item, piece, broken, eof, ticked,
  Outcome, streaming, done, failed, Stream, emit, tokens, on_piece, on_tick, update_of, stream_loop,
  close_stream, streaming_download,
}

-- The bytes of the body up to the end of the stream, to an error, or to a closed channel.
abbrev pub read : List Item → List ℕ
read [] = []
read (piece [] w ∷ items) = read items
read (piece (b ∷ bytes) true ∷ items) = (b ∷ bytes) ++ read items
read (piece (b ∷ bytes) false ∷ items) = []
read (broken ∷ items) = []
read (eof ∷ items) = []
read (ticked ∷ items) = read items

-- The blocks among what is sent, in their order.
abbrev pub blocks : List Output → List (ℕ × List ℕ)
blocks [] = []
blocks (writes offset bytes ∷ os) = (offset, bytes) ∷ blocks os
blocks (acquires n ∷ os) = blocks os
blocks (informs i ∷ os) = blocks os
blocks (stops_writer ∷ os) = blocks os
blocks (stops_all ∷ os) = blocks os

-- The blocks lie one behind the other from `a` on, and hold the bytes.
abbrev pub Laid : ℕ → List (ℕ × List ℕ) → List ℕ → Type 0
Laid a [] xs = xs ≡ []
Laid a ((offset, bytes) ∷ bs) xs =
    (offset ≡ a) × (rest : List ℕ) × (bytes ++ rest ≡ xs) × Laid (a + length bytes) bs rest

blocks-append : (os ps : List Output) → blocks (os ++ ps) ≡ blocks os ++ blocks ps
blocks-append [] ps = refl
blocks-append (writes offset bytes ∷ os) ps = rw (blocks-append os ps) refl
blocks-append (acquires n ∷ os) ps = blocks-append os ps
blocks-append (informs i ∷ os) ps = blocks-append os ps
blocks-append (stops_writer ∷ os) ps = blocks-append os ps
blocks-append (stops_all ∷ os) ps = blocks-append os ps

blocks-acquires : (ns : List ℕ) → blocks (map acquires ns) ≡ []
blocks-acquires [] = refl
blocks-acquires (n ∷ ns) = blocks-acquires ns

blocks-tokens : (limited : Bool) (bytes : List ℕ) → blocks (tokens limited bytes) ≡ []
blocks-tokens true bytes =
    blocks-acquires (batches (length bytes % u32_mod) (length bytes % u32_mod))
blocks-tokens false bytes = refl

-- What the loop adds to the sent, after what was sent before.
record Adds (s : Stream) (xs : List ℕ) (o : Outcome × Stream) : Type 0 where
  pub more : List Output
  pub sent : o.1.sent ≡ s.sent ++ more
  pub laid : Laid s.offset (blocks more) xs
  pub total : o.1.total_downloaded ≡ s.total_downloaded + length xs

same-Adds : (s : Stream) (outcome : Outcome) → Adds s [] (outcome, s)
same-Adds s outcome = record {
  more = [];
  sent = sym (append-nil s.sent);
  laid = refl;
  total = omega arith;
}

none-Adds :
    (s : Stream) (outcome : Outcome) (os : List Output)
    → blocks os ≡ []
    → Adds s [] (outcome, emit os s)
none-Adds s outcome os e = record { more = os; sent = refl; laid = rw e refl; total = omega arith }

-- The outputs before, and then what is added to a stream that has sent them.
then-Adds :
    (s t : Stream) (os : List Output) (bytes xs : List ℕ) (o : Outcome × Stream)
    → t.sent ≡ s.sent ++ os
    → blocks os ≡ (s.offset, bytes) ∷ []
    → t.offset ≡ s.offset + length bytes
    → t.total_downloaded ≡ s.total_downloaded + length bytes
    → Adds t xs o
    → Adds s (bytes ++ xs) o
then-Adds s t os bytes xs o e b at sum h = record {
  more = os ++ h.more;
  sent = h.sent ∙ rw e (append_assoc s.sent os h.more);
  laid = rw (blocks-append os h.more, b) (refl, xs, refl, rw at at h.laid);
  total = omega (arith, h.total, sum, length-append bytes xs);
}

quiet-Adds :
    (s : Stream) (i : Output) (xs : List ℕ) (o : Outcome × Stream)
    → blocks (i ∷ []) ≡ []
    → Adds (emit (i ∷ []) s) xs o
    → Adds s xs o
quiet-Adds s i xs o b h = record {
  more = (i ∷ []) ++ h.more;
  sent = h.sent ∙ append_assoc s.sent (i ∷ []) h.more;
  laid = rw (blocks-append (i ∷ []) h.more, b) h.laid;
  total = h.total;
}

stream_loop-Adds :
    (limited : Bool) (items : List Item) (s : Stream)
    → s.offset ≡ s.total_downloaded
    → s.offset + length (read items) < u64_mod
    → Adds s (read items) (stream_loop limited items s)
unfolding stream_loop on_piece on_tick
stream_loop-Adds limited [] s e h = same-Adds s streaming
stream_loop-Adds limited (piece [] w ∷ items) s e h = stream_loop-Adds limited items s e h
stream_loop-Adds limited (piece (b ∷ bytes) true ∷ items) s e h =
    let block = b ∷ bytes in
    let small : s.offset + length block + length (read items) < u64_mod =
      omega (arith, h, length-append block (read items)) in
    let next = on_piece limited block s in
    let total = wrap_add s.total_downloaded (length block) in
    let told = writes s.offset block ∷ informs (chunk_progress 0 0 0 total) ∷ [] in
    let at : wrap_add s.offset (length block) ≡ s.offset + length block = omega (arith, small) in
    let sum : wrap_add s.total_downloaded (length block) ≡ s.total_downloaded + length block =
      omega (arith, small, e) in
    let found : blocks (tokens limited block ++ told) ≡ (s.offset, block) ∷ [] =
      rw (blocks-append (tokens limited block) told, blocks-tokens limited block) refl in
    then-Adds s next (tokens limited block ++ told) block (read items)
      (stream_loop limited items next) refl found at sum
      (stream_loop-Adds limited items next (omega (arith, at, sum, e)) (omega (arith, at, small)))
stream_loop-Adds limited (piece (b ∷ bytes) false ∷ items) s e h =
    none-Adds s failed (tokens limited (b ∷ bytes)) (blocks-tokens limited (b ∷ bytes))
stream_loop-Adds limited (broken ∷ items) s e h = same-Adds s failed
stream_loop-Adds limited (eof ∷ items) s e h = same-Adds s done
stream_loop-Adds limited (ticked ∷ items) s e h =
    quiet-Adds s _ (read items) (stream_loop limited items (on_tick s)) refl
      (stream_loop-Adds limited items (on_tick s) e h)

abbrev last_of : List ℕ → List Output
last_of xs =
    stops_writer
    ∷ stops_all
    ∷ informs (update_of (length xs) (length xs) [])
    ∷ informs (download_complete 0)
    ∷ []

-- The blocks hold the bytes; and with success the writer has stopped without an error, and the last
-- update shows as many bytes as were sent, all of them done.
abbrev pub Delivers : Bool → List ℕ → Outcome × Stream → Type 0
Delivers writer_ok xs (outcome, s) =
    Laid 0 (blocks s.sent) xs
    × ((outcome ≢ done)
        ⊎ ((writer_ok ≡ true) × (before : List Output) × (s.sent ≡ before ++ last_of xs)))

abbrev start : Stream
start = record { offset = 0; total_downloaded = 0; sent = [] }

stopped-Laid :
    (xs : List ℕ) (sent tail : List Output)
    → Laid 0 (blocks sent) xs
    → blocks tail ≡ []
    → Laid 0 (blocks (sent ++ tail)) xs
stopped-Laid xs sent tail h e = rw (blocks-append sent tail, e, append-nil (blocks sent)) h

close_stream-Delivers :
    (ok : Bool) (xs : List ℕ) (o : Outcome × Stream)
    → Adds start xs o
    → Delivers ok xs (close_stream ok o)
close_stream-Delivers ok xs (streaming, s) a = (rw a.sent a.laid, inl (λ e. absurd (cc)))
close_stream-Delivers ok xs (failed, s) a = (rw a.sent a.laid, inl (λ e. absurd (cc)))
close_stream-Delivers false xs (done, s) a =
    let laid : Laid 0 (blocks s.sent) xs = rw a.sent a.laid in
    (stopped-Laid xs s.sent (stops_writer ∷ stops_all ∷ []) laid refl, inl (λ e. absurd (cc)))
close_stream-Delivers true xs (done, s) a =
    let laid : Laid 0 (blocks s.sent) xs = rw a.sent a.laid in
    let total : s.total_downloaded ≡ length xs = omega (arith, a.total) in
    let stops = stops_writer ∷ stops_all ∷ [] in
    let told =
      informs (update_of s.total_downloaded s.total_downloaded [])
      ∷ informs (download_complete 0)
      ∷ [] in
    let joined : (s.sent ++ stops) ++ told ≡ s.sent ++ last_of xs =
      append_assoc s.sent stops told ∙ rw total refl in
    (
      stopped-Laid xs (s.sent ++ stops) told (stopped-Laid xs s.sent stops laid refl) refl,
      inr (refl, s.sent, joined),
    )

-- Whatever the limiter, the channel and the writer do, for a body of less than 2^64 bytes: the blocks
-- that the writer is sent lie one behind the other from 0 on and hold the bytes of the body, in
-- order, up to the end of the stream, an error or a closed channel; and if the download succeeds the
-- writer has stopped without an error, and the last update shows as many bytes as were sent, all of
-- them done.
pub streaming_download-Delivers :
    (limited writer_ok : Bool) (items : List Item)
    → length (read items) < u64_mod
    → Delivers writer_ok (read items) (streaming_download limited writer_ok items)
unfolding streaming_download
streaming_download-Delivers limited writer_ok items h =
    close_stream-Delivers writer_ok (read items) (stream_loop limited items start)
      (stream_loop-Adds limited items start refl (omega (arith, h)))
