-- ===== src/Writer/Image.antt =====
-- The bytes of the writer's blocks, each with its address, and what a flush makes of them.
use mathlib.Core.List.{append_assoc, append-nil}
use simple_downloader.Prelude.{
  ℕ, suc, ◌+◌, ◌≡◌, refl, sym, ap, ◌∙◌, Bool, true, false, List, [], ◌∷◌, ◌++◌, Option, none, some,
  length, arith,
}
use simple_downloader.Prelude.Text.{Text}
use simple_downloader.Types.{DownloadCmd, write_file, terminate_all}
use simple_downloader.Writer.Gate.{FitsIfAny}
use simple_downloader.Writer.{
  Block, Disk, Writer, settle, write_block, put_at, flush_pending, is_none, can_coalesce, extend,
}

-- Each byte with its address.
abbrev pub bytes_at : ℕ → List ℕ → List (ℕ × ℕ)
bytes_at off [] = []
bytes_at off (b ∷ buf) = (off, b) ∷ bytes_at (suc off) buf

abbrev pub image : List Block → List (ℕ × ℕ)
image [] = []
image ((off, buf) ∷ file) = bytes_at off buf ++ image file

abbrev pub image_of : Option Block → List (ℕ × ℕ)
image_of none = []
image_of (some (off, buf)) = bytes_at off buf

-- The bytes that are in the file, and those that wait.
abbrev pub total : Writer → List (ℕ × ℕ)
total w = image w.file ++ image_of w.pending

-- The bytes of a command, and of all commands up to the first `TerminateAll`.
abbrev pub sent_by : DownloadCmd → List (ℕ × ℕ)
sent_by (write_file off buf) = bytes_at off buf
sent_by other = []

abbrev pub sent : List (Disk × DownloadCmd) → List (ℕ × ℕ)
sent [] = []
sent ((d, write_file off buf) ∷ commands) = bytes_at off buf ++ sent commands
sent ((d, terminate_all) ∷ commands) = []
sent ((d, other) ∷ commands) = sent commands

-- The last write, at `TerminateAll`, does not fail.
abbrev pub IsWritten : Disk × DownloadCmd → Type 0
IsWritten (d, terminate_all) = d.write_all ≡ none
IsWritten (d, other) = Unit

-- `file` holds the first of the bytes `all`.
abbrev pub Begins : List Block → List (ℕ × ℕ) → Type 0
Begins file all = (rest : List (ℕ × ℕ)) × (image file ++ rest ≡ all)

bytes_at-append :
    (off : ℕ) (xs ys : List ℕ)
    → bytes_at off (xs ++ ys) ≡ bytes_at off xs ++ bytes_at (off + length xs) ys
bytes_at-append off [] ys = let same : off + 0 ≡ off = omega arith in rw same refl
bytes_at-append off (x ∷ xs) ys =
    let moved : off + suc (length xs) ≡ suc off + length xs = omega arith in
    rw moved (ap (◌∷◌ (off, x)) (bytes_at-append (suc off) xs ys))

image-snoc :
    (file : List Block) (off : ℕ) (buf : List ℕ)
    → image (file ++ (off, buf) ∷ []) ≡ image file ++ bytes_at off buf
image-snoc [] off buf = append-nil (bytes_at off buf)
image-snoc ((o, b) ∷ file) off buf =
    ap (λ xs. bytes_at o b ++ xs) (image-snoc file off buf)
    ∙ sym (append_assoc (bytes_at o b) (image file) (bytes_at off buf))

-- What a flush of the bytes `all` leaves: the first of them in the file; and all, where no error is
-- reported and `sure` holds.
pub record Flushed (sure : Type 0) (all : List (ℕ × ℕ)) (out : Writer) : Type 0 where
  pub begins : Begins out.file all
  pub whole : is_none out.writer_err ≡ true → sure → image out.file ≡ all
  pub taken : out.pending ≡ none

module _ (d : Disk) (w : Writer) (off : ℕ) (buf : List ℕ) where
  abbrev all : List (ℕ × ℕ)
  all = image w.file ++ bytes_at off buf

  abbrev Sure : Bool → Option Text → Type 0
  Sure last o = last ≡ true → o ≡ none

  settle-Flushed :
      (sure : Type 0) (f r : Option Text)
      → Flushed sure all (
          settle f r
            (record w { pending = none; file = w.file ++ (off, buf) ∷ [] })
            off
            (length buf))
  unfolding settle
  settle-Flushed sure (some e) r = record {
    begins = ([], append-nil _ ∙ image-snoc w.file off buf);
    whole = λ n. absurd (cc);
    taken = refl;
  }
  settle-Flushed sure none r = record {
    begins = ([], append-nil _ ∙ image-snoc w.file off buf);
    whole = λ n s. image-snoc w.file off buf;
    taken = refl;
  }

  write_block-Flushed :
      (last : Bool) (o : Option Text)
      → Flushed (Sure last o) all (write_block last o d (record w { pending = none }) off buf)
  unfolding write_block
  write_block-Flushed true (some e) = record {
    begins = (bytes_at off buf, refl);
    whole = λ n s. absurd (let k = s refl in cc);
    taken = refl;
  }
  write_block-Flushed false (some e) = record {
    begins = (bytes_at off buf, refl);
    whole = λ n. absurd (cc);
    taken = refl;
  }
  write_block-Flushed true none = settle-Flushed _ d.flush d.record_write
  write_block-Flushed false none = settle-Flushed _ d.flush d.record_write

  put_at-Flushed :
      (last : Bool) (o : Option Text)
      → Flushed (Sure last d.write_all) all (put_at last o d (record w { pending = none }) off buf)
  unfolding put_at
  put_at-Flushed last (some e) = record {
    begins = (bytes_at off buf, refl);
    whole = λ n. absurd (cc);
    taken = refl;
  }
  put_at-Flushed last none = write_block-Flushed last d.write_all

pub flush_pending-Flushed :
    (last : Bool) (d : Disk) (p : Option Block) (w : Writer)
    → w.pending ≡ p
    → Flushed
        (last ≡ true → d.write_all ≡ none)
        (image w.file ++ image_of p)
        (flush_pending last d p w)
unfolding flush_pending
flush_pending-Flushed last d none w e = record {
  begins = ([], refl);
  whole = λ n s. sym (append-nil (image w.file));
  taken = e;
}
flush_pending-Flushed last d (some (off, buf)) w e = put_at-Flushed d w off buf last d.seek

pub extend-total :
    (w : Writer) (p : Option Block) (off : ℕ) (buf : List ℕ)
    → can_coalesce p off buf ≡ true
    → FitsIfAny p
    → image w.file ++ image_of (extend p buf) ≡ (image w.file ++ image_of p) ++ bytes_at off buf
unfolding can_coalesce
extend-total w none off buf c k = absurd (cc)
extend-total w (some (p_off, p_buf)) off buf c k =
    let meet : p_off + length p_buf ≡ off = ground arith in
    ap (λ xs. image w.file ++ xs) (bytes_at-append p_off p_buf buf)
    ∙ rw meet (sym (append_assoc (image w.file) (bytes_at p_off p_buf) (bytes_at off buf)))
