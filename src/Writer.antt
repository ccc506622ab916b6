-- ===== src/Writer.antt =====
-- The file writer of src/util.rs (`file_writer_task_impl`): it joins adjacent blocks, puts them into
-- the file, and refuses a file with a hole. What the file system and the resume recorder answer
-- comes with each command; a block that was written is an entry of `file`, the oldest first.
pub mod Gate
pub mod Image
pub mod Delivery
mod Tests
use simple_downloader.Prelude.{
  ℕ, ◌+◌, ◌*◌, ◌≤◌, Bool, true, false, ◌&&◌, List, [], ◌∷◌, ◌++◌, Option, none, some, ltb, leb,
  ◌==◌, if◌then◌else◌, length, wrap_add,
}
use simple_downloader.Prelude.Text.{Text, codes, decimal}
use simple_downloader.Types.{
  DownloadCmd, write_file, bisect_download, bisect_download_skewed, terminate_chunk, terminate_all,
}
use simple_downloader.Range.{Range, mark_written, coverage_gap}

abbrev pub coalesce_limit : ℕ
coalesce_limit = 128 * 1024

-- An offset in the file and the bytes from there on.
abbrev pub Block : Type 0
Block = ℕ × List ℕ

-- The errors, if any, of the calls that put a block on disk. Without a recorder `record_write` has none.
pub record Disk : Type 0 where
  pub seek : Option Text
  pub write_all : Option Text
  pub flush : Option Text
  pub record_write : Option Text

-- The local variables of the task, and the blocks that went into the file.
pub record Writer : Type 0 where
  pub pending : Option Block
  pub written : List Range
  pub writer_err : Option Text
  pub file : List Block

unfoldable pub open_writer : Writer
open_writer = record { pending = none; written = []; writer_err = none; file = [] }

abbrev fails : Writer → Text → Writer
fails w e = record w { writer_err = some e }

-- `flush`, then the entry in the ledger, then the recorder.
unfoldable pub settle : Option Text → Option Text → Writer → ℕ → ℕ → Writer
settle (some e) record_write w off len = fails w e
settle none record_write w off len = record w {
  written = mark_written w.written off len;
  writer_err = record_write;
}

-- `write_all`. On `TerminateAll` (`last`) its error is only logged.
unfoldable pub write_block : Bool → Option Text → Disk → Writer → ℕ → List ℕ → Writer
unfolding settle
write_block true (some e) d w off buf = w
write_block false (some e) d w off buf = fails w e
write_block last none d w off buf =
    settle d.flush d.record_write (record w { file = w.file ++ (off, buf) ∷ [] }) off (length buf)

unfoldable pub put_at : Bool → Option Text → Disk → Writer → ℕ → List ℕ → Writer
unfolding write_block
put_at last (some e) d w off buf = fails w e
put_at last none d w off buf = write_block last d.write_all d w off buf

-- Takes the pending block and puts it on disk.
unfoldable pub flush_pending : Bool → Disk → Option Block → Writer → Writer
unfolding put_at
flush_pending last d none w = w
flush_pending last d (some (off, buf)) w =
    put_at last d.seek d (record w { pending = none }) off buf

abbrev pub is_none {ℓ} : {A : Type ℓ} → Option A → Bool
is_none none = true
is_none (some a) = false

-- Does the block go on where the pending one ends, and are both together small enough?
unfoldable pub can_coalesce : Option Block → ℕ → List ℕ → Bool
can_coalesce none offset block = false
can_coalesce (some (p_off, p_buf)) offset block =
    (wrap_add p_off (length p_buf) == offset) && leb (length p_buf + length block) coalesce_limit

abbrev pub extend : Option Block → List ℕ → Option Block
extend none block = none
extend (some (p_off, p_buf)) block = some (p_off, p_buf ++ block)

unfoldable pub on_write : Disk → Writer → ℕ → List ℕ → Writer
unfolding can_coalesce flush_pending
on_write d w offset block =
    let flushed = flush_pending false d w.pending w in
    if can_coalesce w.pending offset block
    then record w { pending = extend w.pending block }
    else if is_none flushed.writer_err
    then record flushed { pending = some (offset, block) }
    else flushed

-- One turn of the loop, and whether the loop goes on.
unfoldable pub on_command : Disk → Writer → DownloadCmd → Writer × Bool
unfolding on_write flush_pending
on_command d w (write_file offset block) =
    let next = on_write d w offset block in (next, is_none next.writer_err)
on_command d w terminate_all = (flush_pending true d w.pending w, false)
on_command d w (bisect_download id) = (w, true)
on_command d w (bisect_download_skewed id) = (w, true)
on_command d w (terminate_chunk id) = (w, true)

-- The loop; the channel is closed behind the last command.
unfoldable pub run : Writer → List (Disk × DownloadCmd) → Writer
unfolding on_command
run w [] = w
run w ((d, cmd) ∷ commands) =
    let (next, more) = on_command d w cmd in
    let rest = run next commands in if more then rest else next

-- The flush behind the loop; after an error the pending block is dropped.
unfoldable pub close : Disk → Writer → Writer
unfolding flush_pending
close d w =
    if is_none w.writer_err then flush_pending false d w.pending w else record w { pending = none }

-- The first error.
abbrev pub or_else : Option Text → Option Text → Option Text
or_else (some e) f = some e
or_else none f = f

unfoldable pub hole_text : Range → ℕ → Text
hole_text (gs, ge) size =
    codes "unwritten hole "
    ++ (decimal gs
        ++ (codes "-"
            ++ (decimal ge ++ (codes " of " ++ (decimal size ++ codes ", refusing corrupt file")))))

abbrev hole_error : ℕ → Option Range → Option Text
hole_error size none = none
hole_error size (some gap) = some (hole_text gap size)

-- The coverage gate.
unfoldable pub gate : List Range → List Range → ℕ → Option Text
unfolding coverage_gap
gate written trusted size =
    if ltb 0 size then hole_error size (coverage_gap written trusted size) else none

-- The task's result behind its loop: the error, if any, of the loop, the last flush of the recorder,
-- the last flush of the file and the gate, the first that there is.
unfoldable pub finish : Disk → Option Text → Option Text → List Range → ℕ → Writer → Writer
unfolding close gate
finish d recorder_flush file_flush trusted size w =
    let closed = close d w in
    record closed {
      writer_err =
          or_else closed.writer_err
            (or_else recorder_flush (or_else file_flush (gate closed.written trusted size)));
    }

-- The whole task.
unfoldable pub file_writer :
    List Range → ℕ → List (Disk × DownloadCmd) → Disk → Option Text → Option Text → Writer
unfolding run finish
file_writer trusted size commands d recorder_flush file_flush =
    finish d recorder_flush file_flush trusted size (run open_writer commands)
