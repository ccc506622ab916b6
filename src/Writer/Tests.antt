-- ===== src/Writer/Tests.antt =====
-- Runs of the writer: one that joins two blocks, and one whose last write fails unnoticed.
use simple_downloader.Prelude.{◌≡◌, ◌||◌, refl, true, false, List, [], ◌∷◌, none, some, All, arith}
use simple_downloader.Prelude.Text.{codes, decimal}
use simple_downloader.Types.{DownloadCmd, write_file, terminate_all}
use simple_downloader.Range.{covers, mark_written}
use simple_downloader.Writer.Gate.{held, Sends, file_writer-gate}
use simple_downloader.Writer.Image.{image, sent}
use simple_downloader.Writer.Delivery.{ended-image}
use simple_downloader.Writer.{Disk, open_writer, hole_text, file_writer}

abbrev works : Disk
works = record { seek = none; write_all = none; flush = none; record_write = none }

abbrev full : Disk
full = record works { write_all = some (codes "disk full") }

-- Two adjacent blocks, and one elsewhere.
abbrev blocks : List (Disk × DownloadCmd)
blocks =
    (works, write_file 4 (1 ∷ 2 ∷ []))
    ∷ (works, write_file 6 (3 ∷ 4 ∷ []))
    ∷ (works, write_file 0 (5 ∷ 6 ∷ []))
    ∷ []

blocks-Sends : All (λ c. Sends c.1) blocks
blocks-Sends =
    ((omega arith, omega arith), ((omega arith, omega arith), ((omega arith, omega arith), tt)))

joined :
    (file_writer ((2, 3) ∷ []) 8 blocks works none none).file
    ≡ (4, 1 ∷ 2 ∷ 3 ∷ 4 ∷ []) ∷ (0, 5 ∷ 6 ∷ []) ∷ []
unfolding file_writer open_writer mark_written hole_text decimal
joined = refl

delivered : (file_writer ((2, 3) ∷ []) 8 blocks works none none).writer_err ≡ none
unfolding file_writer open_writer mark_written hole_text decimal
delivered = refl

refused :
    (file_writer [] 8 blocks works none none).writer_err
    ≡ some (codes "unwritten hole 2-3 of 8, refusing corrupt file")
unfolding file_writer open_writer mark_written hole_text decimal
refused = refl

-- At `TerminateAll` the pending block is lost, and only the gate can tell: here its bytes are trusted.
abbrev lost : List (Disk × DownloadCmd)
lost = (works, write_file 0 (9 ∷ 9 ∷ [])) ∷ (full, terminate_all) ∷ []

unnoticed :
    ((file_writer ((0, 1) ∷ []) 2 lost works none none).file ≡ [])
    × ((file_writer ((0, 1) ∷ []) 2 lost works none none).writer_err ≡ none)
unfolding file_writer open_writer mark_written hole_text decimal
unnoticed = (refl, refl)

-- An empty block at address 0 counts as the byte 0, so that the gate lets a hole through.
abbrev empty_block_first : List (Disk × DownloadCmd)
empty_block_first = (works, write_file 0 []) ∷ []

empty_block_hides :
    (held 0 (file_writer [] 1 empty_block_first works none none).file ≡ false)
    × ((file_writer [] 1 empty_block_first works none none).writer_err ≡ none)
unfolding file_writer open_writer mark_written hole_text decimal
empty_block_hides = (refl, refl)

file_writer-gate_example :
    (held 5 (file_writer ((2, 3) ∷ []) 8 blocks works none none).file || covers ((2, 3) ∷ []) 5)
    ≡ true
file_writer-gate_example =
    file_writer-gate ((2, 3) ∷ []) 8 blocks works none none 5 (omega arith) blocks-Sends delivered
      (omega arith)

ended-image_example : image (file_writer ((2, 3) ∷ []) 8 blocks works none none).file ≡ sent blocks
ended-image_example =
    ended-image ((2, 3) ∷ []) 8 blocks works none none blocks-Sends delivered (tt, (tt, (tt, tt)))
