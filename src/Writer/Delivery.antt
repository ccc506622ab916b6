-- ===== src/Writer/Delivery.antt =====
-- The writer joins blocks, but the bytes go into the file as they were sent.
use mathlib.Core.List.{append_assoc, append-nil}
use simple_downloader.Prelude.{
  ℕ, ◌≡◌, refl, sym, ap, ◌∙◌, inl, inr, Bool, true, false, List, [], ◌∷◌, ◌++◌, Option, none, some,
  All, Bool-cases,
}
use simple_downloader.Prelude.Text.{Text}
use simple_downloader.Types.{
  DownloadCmd, write_file, bisect_download, bisect_download_skewed, terminate_chunk, terminate_all,
}
use simple_downloader.Range.{Range}
use simple_downloader.Writer.Gate.{FitsIfAny, Sends, Sound, on_command-Sound, open_writer-Sound}
use simple_downloader.Writer.Image.{
  bytes_at, image, image_of, total, sent_by, sent, IsWritten, Begins, flush_pending-Flushed,
  extend-total,
}
use simple_downloader.Writer.{
  Disk, Writer, open_writer, flush_pending, is_none, can_coalesce, on_write, on_command, run, close,
  or_else, finish, file_writer,
}

-- What is sent behind a command of which the loop takes notice.
abbrev later : DownloadCmd → List (Disk × DownloadCmd) → List (ℕ × ℕ)
later terminate_all commands = []
later other commands = sent commands

-- What a turn of the loop does to the bytes `all`, those of the writer and of the command.
record Turn (all : List (ℕ × ℕ)) (sure : Type 0) (out : Writer) (more : Bool) : Type 0 where
  begins : (rest : List (ℕ × ℕ)) × (total out ++ rest ≡ all)
  goes_on : more ≡ true → total out ≡ all
  whole : is_none out.writer_err ≡ true → sure → total out ≡ all

idle_Turn : (w : Writer) (sure : Type 0) (more : Bool) → Turn (total w ++ []) sure w more
idle_Turn w sure more =
    let same = sym (append-nil (total w)) in
    record { begins = ([], refl); goes_on = λ e. same; whole = λ n s. same }

emptied : (w : Writer) → w.pending ≡ none → total w ≡ image w.file
emptied w e = rw e (append-nil (image w.file))

on_write-Turn :
    (d : Disk) (w : Writer) (off : ℕ) (buf : List ℕ)
    → FitsIfAny w.pending
    → let out = on_write d w off buf in
      Turn (total w ++ bytes_at off buf) Unit out (is_none out.writer_err)
unfolding on_write
on_write-Turn d w off buf k =
    let flushed = flush_pending false d w.pending w in
    let f = flush_pending-Flushed false d w.pending w refl in
    elim (Bool-cases (can_coalesce w.pending off buf)) [
      | inl t ↦
          let e = extend-total w w.pending off buf t k in
          rw t (record { begins = ([], append-nil _ ∙ e); goes_on = λ n. e; whole = λ n s. e })
      | inr t ↦ elim (Bool-cases (is_none flushed.writer_err)) [
        | inl u ↦
            let e : image flushed.file ++ bytes_at off buf ≡ total w ++ bytes_at off buf =
              ap (λ xs. xs ++ bytes_at off buf) (f.whole u (λ no. absurd (cc))) in
            rw (t, u)
              (record { begins = ([], append-nil _ ∙ e); goes_on = λ n. e; whole = λ n s. e })
        | inr u ↦
            let (rest, e) = f.begins in
            rw (t, u)
              (record {
                begins = (
                  rest ++ bytes_at off buf,
                  ap (λ xs. xs ++ (rest ++ bytes_at off buf)) (emptied flushed f.taken)
                      ∙ sym (append_assoc (image flushed.file) rest (bytes_at off buf))
                      ∙ ap (λ xs. xs ++ bytes_at off buf) e,
                );
                goes_on = λ n. absurd (cc);
                whole = λ n s. absurd (cc);
              })
      ]
    ]

on_command-Turn :
    (d : Disk) (w : Writer) (cmd : DownloadCmd)
    → FitsIfAny w.pending
    → Turn
        (total w ++ sent_by cmd)
        (IsWritten (d, cmd))
        (on_command d w cmd).0
        (on_command d w cmd).1
unfolding on_command
on_command-Turn d w (write_file off buf) k = on_write-Turn d w off buf k
on_command-Turn d w terminate_all k =
    let f = flush_pending-Flushed true d w.pending w refl in
    let out = flush_pending true d w.pending w in
    let (rest, e) = f.begins in
    record {
      begins = (rest, ap (λ xs. xs ++ rest) (emptied out f.taken) ∙ e ∙ sym (append-nil (total w)));
      goes_on = λ n. absurd (cc);
      whole = λ n s. emptied out f.taken ∙ f.whole n (λ last. s) ∙ sym (append-nil (total w));
    }
on_command-Turn d w (bisect_download id) k = idle_Turn w _ true
on_command-Turn d w (bisect_download_skewed id) k = idle_Turn w _ true
on_command-Turn d w (terminate_chunk id) k = idle_Turn w _ true

sent-cons :
    (d : Disk) (cmd : DownloadCmd) (commands : List (Disk × DownloadCmd))
    → sent ((d, cmd) ∷ commands) ≡ sent_by cmd ++ later cmd commands
sent-cons d (write_file off buf) commands = refl
sent-cons d terminate_all commands = refl
sent-cons d (bisect_download id) commands = refl
sent-cons d (bisect_download_skewed id) commands = refl
sent-cons d (terminate_chunk id) commands = refl

-- Where the loop goes on, all that is sent counts; where it stops without an error, nothing more.
goes_on-later :
    (d : Disk) (w : Writer) (cmd : DownloadCmd) (commands : List (Disk × DownloadCmd))
    → ((on_command d w cmd).1 ≡ true → later cmd commands ≡ sent commands)
      × ((on_command d w cmd).1 ≡ false
          → is_none (on_command d w cmd).0.writer_err ≡ true
          → later cmd commands ≡ [])
unfolding on_command
goes_on-later d w (write_file off buf) commands = (λ e. refl, λ e n. absurd (cc))
goes_on-later d w terminate_all commands = (λ e. absurd (cc), λ e n. refl)
goes_on-later d w (bisect_download id) commands = (λ e. refl, λ e n. absurd (cc))
goes_on-later d w (bisect_download_skewed id) commands = (λ e. refl, λ e n. absurd (cc))
goes_on-later d w (terminate_chunk id) commands = (λ e. refl, λ e n. absurd (cc))

-- The bytes of the writer at the end, against the bytes `all`.
record Delivered (all : List (ℕ × ℕ)) (sure : Type 0) (out : Writer) : Type 0 where
  begins : (rest : List (ℕ × ℕ)) × (total out ++ rest ≡ all)
  whole : is_none out.writer_err ≡ true → sure → total out ≡ all

run-Delivered :
    (w : Writer) (commands : List (Disk × DownloadCmd))
    → All (λ c. Sends c.1) commands
    → Sound w
    → Delivered (total w ++ sent commands) (All IsWritten commands) (run w commands)
unfolding run
run-Delivered w [] k s =
    let same = sym (append-nil (total w)) in record { begins = ([], refl); whole = λ n all. same }
run-Delivered w ((d, cmd) ∷ commands) k s =
    let next = (on_command d w cmd).0 in
    let t = on_command-Turn d w cmd s.fits in
    let (on, off) = goes_on-later d w cmd commands in
    let cut : total w ++ sent ((d, cmd) ∷ commands)
        ≡ (total w ++ sent_by cmd) ++ later cmd commands =
      ap (λ xs. total w ++ xs) (sent-cons d cmd commands)
      ∙ sym (append_assoc (total w) (sent_by cmd) (later cmd commands)) in
    elim (Bool-cases (on_command d w cmd).1) [
      | inl more ↦
          let all : total w ++ sent ((d, cmd) ∷ commands) ≡ total next ++ sent commands =
            cut ∙ rw (on more) (ap (λ xs. xs ++ sent commands) (sym (t.goes_on more))) in
          let r = run-Delivered next commands k.1 (on_command-Sound d w cmd k.0 s) in
          rw more (record {
            begins = let (rest, e) = r.begins in (rest, e ∙ sym all);
            whole = λ n sure. r.whole n sure.1 ∙ sym all;
          })
      | inr stop ↦
          let (rest, e) = t.begins in
          rw stop (record {
            begins = (
              rest ++ later cmd commands,
              sym (append_assoc (total next) rest (later cmd commands))
                  ∙ ap (λ xs. xs ++ later cmd commands) e
                  ∙ sym cut,
            );
            whole = λ n sure.
                t.whole n sure.0
                ∙ sym (append-nil (total w ++ sent_by cmd))
                ∙ ap (λ xs. (total w ++ sent_by cmd) ++ xs) (sym (off stop n))
                ∙ sym cut;
          })
    ]

-- The same for the file, once nothing is pending any more.
abbrev Ends : List (ℕ × ℕ) → Type 0 → Writer → Type 0
Ends all sure out =
    Begins out.file all × (is_none out.writer_err ≡ true → sure → image out.file ≡ all)

close-Ends :
    (d : Disk) (w : Writer) (all : List (ℕ × ℕ)) (sure : Type 0)
    → Delivered all sure w
    → Ends all sure (close d w)
unfolding close
close-Ends d w all sure r =
    let (rest, e) = r.begins in
    elim (Bool-cases (is_none w.writer_err)) [
      | inl t ↦
          let f = flush_pending-Flushed false d w.pending w refl in
          let (more, p) = f.begins in
          rw t (
            (more ++ rest, sym (append_assoc _ more rest) ∙ ap (λ xs. xs ++ rest) p ∙ e),
            λ n s. f.whole n (λ no. absurd (cc)) ∙ r.whole t s,
          )
      | inr t ↦ rw t (
        (image_of w.pending ++ rest, sym (append_assoc (image w.file) _ rest) ∙ e),
        λ n s. absurd (cc),
      )
    ]

or_else-is_none : (e f : Option Text) → is_none (or_else e f) ≡ true → is_none e ≡ true
or_else-is_none none f h = refl
or_else-is_none (some e) f h = h

module _ (trusted : List Range) (size : ℕ) (commands : List (Disk × DownloadCmd)) (d : Disk)
    (recorder_flush file_flush : Option Text) where
  -- How the writer ends.
  abbrev pub ended : Writer
  ended = file_writer trusted size commands d recorder_flush file_flush

  ended-Ends : All (λ c. Sends c.1) commands → Ends (sent commands) (All IsWritten commands) ended
  unfolding file_writer finish
  ended-Ends k =
      let r : Delivered (sent commands) (All IsWritten commands) (run open_writer commands) =
        unfold open_writer in run-Delivered open_writer commands k open_writer-Sound in
      let c = close-Ends d (run open_writer commands) (sent commands) _ r in
      (c.0, λ n s. c.1 (or_else-is_none _ _ n) s)

  -- Whatever the file system and the recorder answer, the bytes that go into the file, each at its
  -- address, are the first of those that are sent before the first `TerminateAll`, in their order.
  -- The blocks that are sent are not empty and lie within the `u64` bounds.
  pub ended-Begins : All (λ c. Sends c.1) commands → Begins ended.file (sent commands)
  ended-Begins k = (ended-Ends k).0

  -- If the writer ends without an error, and no write at a `TerminateAll` fails, all bytes that are
  -- sent before the first `TerminateAll` go into the file, each at its address, in their order. The
  -- blocks that are sent are not empty and lie within the `u64` bounds.
  pub ended-image :
      All (λ c. Sends c.1) commands
      → ended.writer_err ≡ none
      → All IsWritten commands
      → image ended.file ≡ sent commands
  ended-image k n s = (ended-Ends k).1 (ap is_none n) s
