-- ===== src/Writer/Gate.antt =====
-- A file that the writer delivers has no hole.
use simple_downloader.Prelude.{
  ℕ, ◌+◌, ◌-◌, ◌≤◌, ◌<◌, ◌≡◌, refl, sym, ◌∙◌, inl, inr, Bool, true, false, ◌&&◌, ◌||◌, List, [],
  ◌∷◌, ◌++◌, Option, none, some, ltb, leb, length, length-append, sat_add, u64_max, All, Bool-cases,
  Option-cases, arith,
}
use simple_downloader.Prelude.Text.{Text}
use simple_downloader.Types.{
  DownloadCmd, write_file, bisect_download, bisect_download_skewed, terminate_chunk, terminate_all,
}
use simple_downloader.Range.{Range, within, covers, mark_written, coverage_gap}
use simple_downloader.Range.Merge.{
  IsRange, covers-append, covers-add_covered_range, add_covered_range-All,
}
use simple_downloader.Range.Gap.{FirstHole, coverage_gap-FirstHole}
use simple_downloader.Writer.{
  Block, Disk, Writer, open_writer, settle, write_block, put_at, flush_pending, is_none,
  can_coalesce, extend, on_write, on_command, run, close, or_else, gate, finish, file_writer,
}

-- Does some block of the file hold the byte at `x`?
abbrev pub held : ℕ → List Block → Bool
held x [] = false
held x ((off, buf) ∷ file) = (leb off x && ltb x (off + length buf)) || held x file

held-append :
    (x : ℕ) (file more : List Block) → held x (file ++ more) ≡ (held x file || held x more)
held-append x [] more = refl
held-append x ((off, buf) ∷ file) more = ground (arith, held-append x file more)

-- A block has bytes, and they end below the largest `u64`.
abbrev pub Fits : Block → Type 0
Fits (off, buf) = (0 < length buf) × (off + length buf ≤ u64_max)

abbrev pub FitsIfAny : Option Block → Type 0
FitsIfAny none = Unit
FitsIfAny (some b) = Fits b

-- A command to write has a block that fits.
abbrev pub Sends : DownloadCmd → Type 0
Sends (write_file off buf) = Fits (off, buf)
Sends other = Unit

-- What the ledger says is in the file.
pub record Sound (w : Writer) : Type 0 where
  ranges : All IsRange w.written
  honest : (x : ℕ) → covers w.written x ≡ true → held x w.file ≡ true
  pub fits : FitsIfAny w.pending

settle-Sound :
    (f r : Option Text) (w : Writer) (off : ℕ) (buf : List ℕ)
    → Fits (off, buf)
    → Sound w
    → Sound (settle f r (record w { file = w.file ++ (off, buf) ∷ [] }) off (length buf))
unfolding settle
settle-Sound (some e) r w off buf k s = record {
  ranges = s.ranges;
  honest = λ x h. let old = s.honest x h in ground (arith, held-append x w.file ((off, buf) ∷ []));
  fits = s.fits;
}
settle-Sound none r w off buf k s =
    let last : IsRange (off, sat_add off (length buf) - 1) =
      (omega arith, omega arith, omega arith) in
    record {
      ranges =
          unfold mark_written in
          add_covered_range-All w.written off (sat_add off (length buf) - 1) s.ranges last;
      honest = λ x h.
          let split : (covers w.written x || within (off, sat_add off (length buf) - 1) x) ≡ true =
            sym (
              covers-add_covered_range w.written off (sat_add off (length buf) - 1) s.ranges last x)
            ∙ (unfold mark_written in h) in
          elim (Bool-cases (covers w.written x)) [
            | inl t ↦
                let old = s.honest x t in ground (arith, held-append x w.file ((off, buf) ∷ []))
            | inr t ↦ ground (arith, held-append x w.file ((off, buf) ∷ []))
          ];
      fits = s.fits;
    }

write_block-Sound :
    (last : Bool) (o : Option Text) (d : Disk) (w : Writer) (off : ℕ) (buf : List ℕ)
    → Fits (off, buf)
    → Sound w
    → Sound (write_block last o d w off buf)
unfolding write_block
write_block-Sound true (some e) d w off buf k s = s
write_block-Sound false (some e) d w off buf k s = record {
  ranges = s.ranges;
  honest = s.honest;
  fits = s.fits;
}
write_block-Sound true none d w off buf k s = settle-Sound d.flush d.record_write w off buf k s
write_block-Sound false none d w off buf k s = settle-Sound d.flush d.record_write w off buf k s

put_at-Sound :
    (last : Bool) (o : Option Text) (d : Disk) (w : Writer) (off : ℕ) (buf : List ℕ)
    → Fits (off, buf)
    → Sound w
    → Sound (put_at last o d w off buf)
unfolding put_at
put_at-Sound last (some e) d w off buf k s = record {
  ranges = s.ranges;
  honest = s.honest;
  fits = s.fits;
}
put_at-Sound last none d w off buf k s = write_block-Sound last d.write_all d w off buf k s

flush_pending-Sound :
    (last : Bool) (d : Disk) (p : Option Block) (w : Writer)
    → FitsIfAny p
    → Sound w
    → Sound (flush_pending last d p w)
unfolding flush_pending
flush_pending-Sound last d none w k s = s
flush_pending-Sound last d (some (off, buf)) w k s =
    put_at-Sound last d.seek d (record w { pending = none }) off buf k
      (record { ranges = s.ranges; honest = s.honest; fits = tt })

pend : (w : Writer) (p : Option Block) → FitsIfAny p → Sound w → Sound (record w { pending = p })
pend w p k s = record { ranges = s.ranges; honest = s.honest; fits = k }

-- The bytes that join the pending block end where the new ones do.
extend-Sound :
    (w : Writer) (p : Option Block) (off : ℕ) (buf : List ℕ)
    → can_coalesce p off buf ≡ true
    → FitsIfAny p
    → Fits (off, buf)
    → Sound w
    → Sound (record w { pending = extend p buf })
unfolding can_coalesce
extend-Sound w none off buf c k j s = absurd (cc)
extend-Sound w (some (p_off, p_buf)) off buf c k j s =
    pend w (some (p_off, p_buf ++ buf)) (ground (arith, length-append p_buf buf)) s

on_write-Sound :
    (d : Disk) (w : Writer) (off : ℕ) (buf : List ℕ)
    → Fits (off, buf)
    → Sound w
    → Sound (on_write d w off buf)
unfolding on_write
on_write-Sound d w off buf k s =
    let flushed = flush_pending false d w.pending w in
    let fs = flush_pending-Sound false d w.pending w s.fits s in
    elim (Bool-cases (can_coalesce w.pending off buf)) [
      | inl t ↦ rw t (extend-Sound w w.pending off buf t s.fits k s)
      | inr t ↦ elim (Bool-cases (is_none flushed.writer_err)) [
        | inl u ↦ rw (t, u) (pend flushed (some (off, buf)) k fs)
        | inr u ↦ rw (t, u) fs
      ]
    ]

pub on_command-Sound :
    (d : Disk) (w : Writer) (cmd : DownloadCmd) → Sends cmd → Sound w → Sound (on_command d w cmd).0
unfolding on_command
on_command-Sound d w (write_file off buf) k s = on_write-Sound d w off buf k s
on_command-Sound d w terminate_all k s = flush_pending-Sound true d w.pending w s.fits s
on_command-Sound d w (bisect_download id) k s = s
on_command-Sound d w (bisect_download_skewed id) k s = s
on_command-Sound d w (terminate_chunk id) k s = s

run-Sound :
    (w : Writer) (commands : List (Disk × DownloadCmd))
    → All (λ c. Sends c.1) commands
    → Sound w
    → Sound (run w commands)
unfolding run
run-Sound w [] k s = s
run-Sound w ((d, cmd) ∷ commands) k s =
    let next = on_command-Sound d w cmd k.0 s in
    elim (Bool-cases (on_command d w cmd).1) [
      | inl t ↦ rw t (run-Sound (on_command d w cmd).0 commands k.1 next)
      | inr t ↦ rw t next
    ]

close-Sound : (d : Disk) (w : Writer) → Sound w → Sound (close d w)
unfolding close
close-Sound d w s = elim (Bool-cases (is_none w.writer_err)) [
  | inl t ↦ rw t (flush_pending-Sound false d w.pending w s.fits s)
  | inr t ↦ rw t (pend w none tt s)
]

or_else-none : (e f : Option Text) → or_else e f ≡ none → (e ≡ none) × (f ≡ none)
or_else-none none f h = (refl, h)
or_else-none (some e) f h = absurd (cc)

pub open_writer-Sound : Sound open_writer
unfolding open_writer
open_writer-Sound = record { ranges = tt; honest = λ x h. h; fits = tt }

-- The gate lets only ledgers through that cover the file.
gate-none :
    (written trusted : List Range) (size x : ℕ)
    → size ≤ u64_max
    → gate written trusted size ≡ none
    → x < size
    → (covers written x || covers trusted x) ≡ true
unfolding gate
gate-none written trusted size x m h k =
    let big : ltb 0 size ≡ true = ground arith in
    let verdict = coverage_gap-FirstHole written trusted size m in
    elim (Option-cases (coverage_gap written trusted size)) [
      | inl e ↦
          let all : FirstHole (written ++ trusted) size none = rw e at verdict in
          sym (covers-append written trusted x) ∙ all x k
      | inr (gap, e) ↦ absurd (let stuck = rw (big, e) at h in cc)
    ]

-- Whatever the file system and the recorder answer: if no block that is sent is empty, the blocks and
-- the size are within the `u64` bounds, and the writer ends without an error, then each byte below
-- the size was written in some block of the file or is in a trusted range.
pub file_writer-gate :
    (trusted : List Range) (size : ℕ) (commands : List (Disk × DownloadCmd)) (d : Disk)
    (recorder_flush file_flush : Option Text) (x : ℕ)
    → size ≤ u64_max
    → All (λ c. Sends c.1) commands
    → (file_writer trusted size commands d recorder_flush file_flush).writer_err ≡ none
    → x < size
    → (held x (file_writer trusted size commands d recorder_flush file_flush).file
        || covers trusted x)
      ≡ true
unfolding file_writer finish
file_writer-gate trusted size commands d recorder_flush file_flush x m k h b =
    let s =
      close-Sound d (run open_writer commands)
        (run-Sound open_writer commands k open_writer-Sound) in
    let closed = close d (run open_writer commands) in
    let g =
      (or_else-none file_flush _
        (or_else-none recorder_flush _ (or_else-none closed.writer_err _ h).1).1).1 in
    let seen = gate-none closed.written trusted size x m g b in
    elim (Bool-cases (covers closed.written x)) [
      | inl t ↦ let there = s.honest x t in ground arith
      | inr t ↦ ground arith
    ]
