-- ===== src/Chunk/Check.antt =====
-- The check of the response in src/chunk.rs, before the first byte is read. The texts that the HTTP
-- library prints, a status and a failed request, are parameters.
use simple_downloader.Prelude.{ℕ, ◌||◌, not, ◌++◌, Option, none, some, ◌==◌, if◌then◌else◌}
use simple_downloader.Prelude.Text.{Text, codes, decimal}
use simple_downloader.ContentRange.{parse_content_range}

-- The status code and the `Content-Range` header, or the text of the failed request.
pub data Response : Type 0 where
  answer : ℕ → Option Text → Response
  failure : Text → Response

module _ (show_status : ℕ → Text) (start_byte end_byte : ℕ) where
  requested : Text
  requested = decimal start_byte ++ (codes "-" ++ decimal end_byte)

  mismatch_text : Text → Text
  unfolding requested
  mismatch_text header =
      codes "Content-Range mismatch: expected bytes " ++ (requested ++ (codes "/*, got " ++ header))

  -- A partial answer must name exactly the bytes that were asked for.
  check_partial : Option Text → Option Text
  unfolding mismatch_text
  check_partial none = some (codes "missing Content-Range header for 206 Partial Content")
  check_partial (some header) = elim (parse_content_range header) [
    | none ↦ some (codes "invalid Content-Range header for 206: " ++ header)
    | some (cr_start, cr_end, cr_total) ↦
        if not (cr_start == start_byte) || not (cr_end == end_byte)
        then some (mismatch_text header)
        else none
  ]

  abbrev header_or_empty : Option Text → Text
  header_or_empty none = codes ""
  header_or_empty (some header) = header

  unsatisfiable_text : ℕ → Option Text → Text
  unfolding requested
  unsatisfiable_text status header =
      codes "416 Range Not Satisfiable for Range request bytes="
      ++ (requested
          ++ (codes ", Content-Range: "
              ++ (header_or_empty header ++ (codes ", status: " ++ show_status status))))

  ignored_text : Text
  unfolding requested
  ignored_text =
      codes "server returned 200 OK but Range requested "
      ++ (requested ++ codes ", only single-segment full download (0-*) is allowed to downgrade")

  unexpected_text : ℕ → Option Text → Text
  unfolding requested
  unexpected_text status header =
      codes "unexpected status "
      ++ (show_status status
          ++ (codes " for Range request bytes="
              ++ (requested ++ (codes ", Content-Range: " ++ header_or_empty header))))

  -- The error with which the chunk fails at once, or none if its body is to be read.
  unfoldable pub check_response : Response → Option Text
  unfolding check_partial unsatisfiable_text ignored_text unexpected_text
  check_response (failure error) = some error
  check_response (answer status header) =
      if status == 206
      then check_partial header
      else if status == 416
      then some (unsatisfiable_text status header)
      else if status == 200
      then (if start_byte == 0 then none else some ignored_text)
      else some (unexpected_text status header)
