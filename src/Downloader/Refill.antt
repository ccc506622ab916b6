-- ===== src/Downloader/Refill.antt =====
-- `refill_tail_gap` of src/downloader.rs and the check of the file's length that calls it. What the
-- file system and the server answer are arguments.
use simple_downloader.Prelude.{
  ℕ, suc, ◌+◌, ◌-◌, max, Bool, true, false, not, List, [], ◌∷◌, ◌++◌, Option, none, some, ltb, leb,
  ◌==◌, if◌then◌else◌, length, take,
}
use simple_downloader.Prelude.Text.{Text, codes, starts_with, decimal}

-- The bytes of a file by their address, and its length.
pub record File : Type 0 where
  pub bytes : ℕ → ℕ
  pub len : ℕ

abbrev pub put : ℕ → ℕ → File → File
put pos x f = record { bytes = λ i. if i == pos then x else f.bytes i; len = max f.len (pos + 1) }

-- `write_all` at a position of the file.
unfoldable pub write_at : ℕ → List ℕ → File → File
write_at pos [] f = f
write_at pos (x ∷ xs) f = write_at (suc pos) xs (put pos x f)

pub data RefillError : Type 0 where
  moved request unexpected_status range_mismatch io overflow short : RefillError

pub data RefillResult : Type 0 where
  refilled : RefillResult
  refused : RefillError → RefillResult

-- A piece of the body, and after how many of its bytes the write fails, if it does; or an error of
-- the stream.
pub data Piece : Type 0 where
  piece : List ℕ → Option ℕ → Piece
  broken : Piece

pub data Reply : Type 0 where
  unsent : Reply
  reply : (status : ℕ) (content_range : Option Text) → List Piece → Reply

-- What is answered in one round. A failed `metadata` counts as no byte.
pub record Round : Type 0 where
  pub stat_ok : Bool
  pub landed_ok : Bool
  pub answer : Reply
  pub open_ok : Bool
  pub seek_ok : Bool
  pub flush_ok : Bool
  pub sync_ok : Bool

abbrev pub len_or_zero : Bool → File → ℕ
len_or_zero ok f = if ok then f.len else 0

unfoldable pub want_echo : ℕ → ℕ → Text
want_echo start end = codes "bytes " ++ (decimal start ++ (codes "-" ++ decimal (end - 1)))

abbrev pub is_echoed : ℕ → ℕ → Option Text → Bool
is_echoed start end none = true
is_echoed start end (some echoed) = starts_with (want_echo start end) echoed

-- Behind the loop over the pieces.
abbrev pub settle_refill : Round → ℕ → ℕ → RefillResult
settle_refill r want received =
    if not r.flush_ok
    then refused io
    else if not r.sync_ok
    then refused io
    else if received == want
    then refilled
    else refused short

-- A failed write leaves some of its bytes.
unfoldable pub refill_loop : Round → ℕ → ℕ → ℕ → List Piece → File → RefillResult × File
unfolding write_at
refill_loop r start want received [] f = (settle_refill r want received, f)
refill_loop r start want received (broken ∷ pieces) f = (refused request, f)
refill_loop r start want received (piece bytes none ∷ pieces) f =
    let rest =
      refill_loop r start want (received + length bytes) pieces
        (write_at (start + received) bytes f) in
    if ltb want (received + length bytes) then (refused overflow, f) else rest
refill_loop r start want received (piece bytes (some n) ∷ pieces) f =
    if ltb want (received + length bytes)
    then (refused overflow, f)
    else (refused io, write_at (start + received) (take n bytes) f)

abbrev pub store_reply : Round → ℕ → ℕ → Reply → File → RefillResult × File
store_reply r start end unsent f = (refused request, f)
store_reply r start end (reply status content_range pieces) f =
    if not (status == 206)
    then (refused unexpected_status, f)
    else if not (is_echoed start end content_range)
    then (refused range_mismatch, f)
    else if not r.open_ok
    then (refused io, f)
    else if not r.seek_ok
    then (refused io, f)
    else refill_loop r start (end - start) 0 pieces f

unfoldable pub refill_tail_gap : Round → ℕ → ℕ → File → RefillResult × File
unfolding want_echo refill_loop
refill_tail_gap r start end f =
    if not (len_or_zero r.landed_ok f == start)
    then (refused moved, f)
    else store_reply r start end r.answer f

abbrev pub go_on : (File → File) → RefillResult × File → File
go_on next (refilled, f) = next f
go_on next (refused e, f) = f

-- The rounds: the loop is left when the file is long enough, and at an error.
unfoldable pub refill_rounds : ℕ → List Round → File → File
unfolding refill_tail_gap
refill_rounds file_size [] f = f
refill_rounds file_size (r ∷ rounds) f =
    let actual = len_or_zero r.stat_ok f in
    if leb file_size actual
    then f
    else go_on (refill_rounds file_size rounds) (refill_tail_gap r actual file_size f)

-- The three rounds and the length in the end, which `stat_ok` says whether can be read.
unfoldable pub check_length : ℕ → Bool → Round × Round × Round → Bool → File → Bool × File
unfolding refill_rounds
check_length file_size support_ranges (one, two, three) stat_ok f =
    let filled = if support_ranges then refill_rounds file_size (one ∷ two ∷ three ∷ []) f else f in
    if file_size == 0
    then (true, f)
    else if stat_ok
    then (filled.len == file_size, filled)
    else (false, filled)
