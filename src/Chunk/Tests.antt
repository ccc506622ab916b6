-- ===== src/Chunk/Tests.antt =====
-- Runs of chunks: one that is split and then loses its connection, and one that completes.
use simple_downloader.Prelude.{◌≡◌, refl, true, false, List, [], ◌∷◌, none, some, arith}
use simple_downloader.Prelude.Text.{codes, decimal}
use simple_downloader.Types.{bisect_download_skewed}
use simple_downloader.ContentRange.{parse_content_range}
use simple_downloader.Chunk.Check.{Response, answer, check_response}
use simple_downloader.Chunk.Split.{split_range_skewed, split_range_skewed-Cut, Cut}
use simple_downloader.Chunk.Writes.{InRange, Turn, received}
use simple_downloader.Chunk.Stream.{run-Turn}
use simple_downloader.Chunk.Handover.{handed, HandedDown, run-Handover}
use simple_downloader.Chunk.Ends.{ends, completed, failed}
use simple_downloader.Chunk.Ending.{Accounts, looped, chunk_run-Accounts}
use simple_downloader.Chunk.{
  start_chunk, Event, command, bytes, stream_error, Env, step, run, chunk_run, on_bytes, on_command,
  bisect, advance, batches, should_send, fail_rest, finish,
}

abbrev env : Env
env = record { broadcast_heard = true; writer_open = true; limited = true; now = 100 }

-- Three bytes arrive, the rest is split, two more bytes arrive, and the connection breaks.
abbrev split_events : List (Env × Event)
split_events =
    (env, bytes (1 ∷ 2 ∷ 3 ∷ []))
    ∷ (env, command (bisect_download_skewed 7))
    ∷ (env, bytes (4 ∷ 5 ∷ []))
    ∷ (env, stream_error (codes "reset"))
    ∷ []

-- The four bytes that are asked for arrive, and one more.
abbrev whole_events : List (Env × Event)
whole_events = (env, bytes (1 ∷ 2 ∷ [])) ∷ (env, bytes (3 ∷ 4 ∷ 5 ∷ [])) ∷ []

abbrev partial : Response
partial = answer 206 (some (codes "bytes 0-29999/90000"))

split_range_skewed-Cut_example : Cut 3 29999 (split_range_skewed 3 29999 true)
split_range_skewed-Cut_example = split_range_skewed-Cut 3 29999 true (omega arith)

start-InRange : InRange (start_chunk 7 0 29999 0)
unfolding start_chunk
start-InRange = record { from_start = omega arith; to_end = omega arith; bounded = omega arith }

run-Turn_example :
    Turn
      (start_chunk 7 0 29999 0)
      (received split_events)
      (run (start_chunk 7 0 29999 0) split_events)
run-Turn_example = run-Turn (start_chunk 7 0 29999 0) split_events start-InRange

run-Handover_example :
    HandedDown
      (start_chunk 7 0 29999 0).end
      (handed (run (start_chunk 7 0 29999 0) split_events).effects)
      (run (start_chunk 7 0 29999 0) split_events).chunk.end
run-Handover_example =
    run-Handover (start_chunk 7 0 29999 0) split_events start-InRange
      (refl, (refl, (refl, (refl, tt))))

split_stops : (looped decimal 7 0 29999 0 partial split_events none).running ≡ false
unfolding run step on_bytes on_command bisect advance should_send fail_rest start_chunk
split_stops = refl

split_unterminated : (looped decimal 7 0 29999 0 partial split_events none).chunk.terminated ≡ false
unfolding run step on_bytes on_command bisect advance should_send fail_rest start_chunk
split_unterminated = refl

split_ends : ends (run (start_chunk 7 0 29999 0) split_events).effects ≡ failed 7 5 10242 ∷ []
unfolding run step on_bytes on_command bisect advance should_send fail_rest start_chunk batches
split_ends = refl

whole_ends :
    ends
      (chunk_run decimal 7 10 13 0 (answer 206 (some (codes "bytes 10-13/90"))) whole_events none)
    ≡ completed 7 ∷ []
unfolding chunk_run check_response run step on_bytes advance should_send start_chunk batches finish
    parse_content_range
whole_ends = refl

chunk_run-Accounts_example :
    Accounts 7 0 29999 (chunk_run decimal 7 0 29999 0 partial split_events none)
chunk_run-Accounts_example =
    chunk_run-Accounts decimal 7 0 29999 0 partial split_events none (omega arith) (omega arith)
      (refl, (refl, (refl, (refl, tt)))) split_stops split_unterminated (λ e. ground arith)
