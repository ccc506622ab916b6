-- ===== src/Downloader/Tests.antt =====
-- Two ranges for three workers, a short tail, and a stream of three bytes.
use simple_downloader.Prelude.{
  ℕ, ◌+◌, ◌≡◌, ◌⊎◌, refl, true, false, List, [], ◌∷◌, none, some, max, arith, weigh,
}
use simple_downloader.Retry.Queues.{has_permanent_failure}
use simple_downloader.Monitor.Loop.{joined}
use simple_downloader.Monitor.Ranges.{held}
use simple_downloader.Monitor.Tally.{taken}
use simple_downloader.Downloader.Orchestrate.{Job, begin, orchestrate_downloads}
use simple_downloader.Prelude.Text.{codes, starts_with, decimal, digits_rev, append_rev}
use simple_downloader.Downloader.Refill.{
  File, Piece, piece, Round, reply, refill_rounds, check_length,
}
use simple_downloader.Downloader.Tail.{IsWithin, check_length-IsExact}
use simple_downloader.Downloader.Streaming
use simple_downloader.Downloader.Streaming.{Item, eof, ticked, done, streaming_download}
use simple_downloader.Downloader.Streamed.{Delivers, streaming_download-Delivers}
use simple_downloader.Downloader.Started.{has_byte, orchestrate_downloads-held}
use simple_downloader.Downloader.{longest, splice, split_loop, split_resume_ranges}
use simple_downloader.Downloader.Split.{holds, IsSplit, split_resume_ranges-IsSplit}

abbrev two_ranges : List (ℕ × ℕ)
two_ranges = (0, 9999) ∷ (50000, 149999) ∷ []

longest_is_split :
    split_resume_ranges two_ranges 3 ≡ (0, 9999) ∷ (50000, 99999) ∷ (100000, 149999) ∷ []
unfolding split_resume_ranges split_loop longest splice
longest_is_split = refl

no_range_is_small : split_resume_ranges ((0, 9999) ∷ []) 4 ≡ (0, 9999) ∷ []
unfolding split_resume_ranges split_loop longest splice
no_range_is_small = refl

split_resume_ranges-IsSplit_example :
    IsSplit (max 3 1) two_ranges (split_resume_ranges two_ranges 3)
split_resume_ranges-IsSplit_example = split_resume_ranges-IsSplit two_ranges 3

abbrev job : Job
job = record {
  file_size = 2097152;
  support_ranges = true;
  workers = 3;
  completed_bytes = 0;
  resume_ranges = two_ranges;
  url = 8;
  own_limiter = none;
  multi_runtime = none;
}

abbrev clock : ℕ → ℕ
clock k = 5000 + k

orchestrate_downloads-held_example :
    let last = orchestrate_downloads clock clock job (joined ∷ []) in
    (has_permanent_failure last.monitor.retry_handler ≡ true)
    ⊎ (held (has_byte 60000) last
        ≡ weigh (holds 60000) two_ranges
          + taken (has_byte 60000) (begin clock clock job) (joined ∷ []))
orchestrate_downloads-held_example = orchestrate_downloads-held clock clock job (joined ∷ []) 60000

three_chunks : (begin clock clock job).tasks ≡ 3
unfolding begin
three_chunks = refl

-- A file of ten bytes that should have twelve, and a server that sends the last two.
abbrev landed : File
landed = record { bytes = λ i. i; len = 10 }

abbrev wanted : ℕ
wanted = 12

abbrev tail_pieces : List Piece
tail_pieces = piece (70 ∷ []) none ∷ piece (71 ∷ []) none ∷ []

abbrev round : Round
round = record {
  stat_ok = true;
  landed_ok = true;
  answer = reply 206 (some (codes "bytes 10-11/12")) tail_pieces;
  open_ok = true;
  seek_ok = true;
  flush_ok = true;
  sync_ok = true;
}

tail_is_filled :
    let (passed, out) = check_length 12 true (round, round, round) true landed in
    (passed ≡ true) × (out.len ≡ 12) × (out.bytes 9 ≡ 9) × (out.bytes 11 ≡ 71)
unfolding check_length decimal digits_rev append_rev starts_with
tail_is_filled = (refl, refl, refl, refl)

check_length-IsExact_example :
    let (passed, out) = check_length wanted true (round, round, round) true landed in
    IsWithin 10 wanted landed out
    × ((passed ≡ false) ⊎ (wanted ≡ 0) ⊎ (out.len ≡ wanted))
    × ((wanted ≡ 0) ⊎ (out ≡ refill_rounds wanted (round ∷ []) landed))
check_length-IsExact_example = check_length-IsExact wanted round round round true landed refl refl

abbrev items : List Item
items = Streaming.piece (1 ∷ 2 ∷ []) true ∷ ticked ∷ Streaming.piece (3 ∷ []) true ∷ eof ∷ []

streaming_download-Delivers_example :
    Delivers true (1 ∷ 2 ∷ 3 ∷ []) (streaming_download false true items)
streaming_download-Delivers_example = streaming_download-Delivers false true items (omega arith)

stream_is_done : (streaming_download false true items).0 ≡ done
unfolding streaming_download
stream_is_done = refl
