-- ===== src/FileProbe.antt =====
-- `get_file_info_with_request_headers` of src/util.rs: what is learnt of a file from a HEAD and a GET
-- of its first byte. The answers of the server are arguments; a header's value is its ASCII text.
pub mod Grounds
mod Tests
use simple_downloader.Prelude.{
  ℕ, suc, ◌+◌, ◌-◌, Bool, true, false, ◌&&◌, ◌||◌, not, List, [], ◌∷◌, ◌++◌, Option, none, some,
  ltb, leb, ◌==◌, if◌then◌else◌, length, take,
}
use simple_downloader.Prelude.Text.{Text}
use simple_downloader.ContentRange.{is_star, parse_u64, trim, split_at_last, parse_content_range}

-- The headers that the HEAD brings; `accept_ranges` says whether `Accept-Ranges` is "bytes".
pub record Head : Type 0 where
  pub content_length : Option Text
  pub accept_ranges : Bool
  pub etag : Option Text
  pub last_modified : Option Text

-- The answer to the GET of the first byte: the pieces of its body, with none for an error of the
-- stream, whether they come in time, and the first byte of the body without a range.
pub record RangeReply : Type 0 where
  pub status : ℕ
  pub content_range : Option Text
  pub content_length : Option Text
  pub etag : Option Text
  pub last_modified : Option Text
  pub pieces : List (Option (List ℕ))
  pub in_time : Bool
  pub plain_first_byte : Option ℕ

-- What the HEAD has told.
pub record Known : Type 0 where
  pub head_size : Option ℕ
  pub head_support : Bool
  pub head_etag : Option Text
  pub head_last_modified : Option Text

-- (size, are ranges served, ETag, Last-Modified)
abbrev pub FileInfo : Type 0
FileInfo = ℕ × Bool × Option Text × Option Text

abbrev pub first_some {ℓ} : {A : Type ℓ} → Option A → Option A → Option A
first_some none other = other
first_some (some a) other = some a

unfoldable pub parse_length : Option Text → Option ℕ
unfolding parse_u64
parse_length none = none
parse_length (some value) = parse_u64 value

abbrev pub is_known : Option ℕ → Bool
is_known none = false
is_known (some n) = true

-- Without a length the HEAD says nothing of ranges.
unfoldable pub probe_head : Option Head → Known
unfolding parse_length
probe_head none = record {
  head_size = none;
  head_support = false;
  head_etag = none;
  head_last_modified = none;
}
probe_head (some h) = record {
  head_size = parse_length h.content_length;
  head_support = is_known (parse_length h.content_length) && h.accept_ranges;
  head_etag = h.etag;
  head_last_modified = h.last_modified;
}

-- At most two bytes are read.
unfoldable pub read_two : List ℕ → List (Option (List ℕ)) → List ℕ
read_two buf [] = buf
read_two buf (none ∷ pieces) = buf
read_two buf (some bytes ∷ pieces) =
    let rest = read_two (buf ++ take (2 - length buf) bytes) pieces in
    if ltb (length buf) 2 then rest else buf

abbrev pub single : List ℕ → Option ℕ
single [] = none
single (b ∷ []) = some b
single (b ∷ c ∷ bytes) = none

unfoldable pub probe_zero_range_byte : RangeReply → Option ℕ
unfolding read_two
probe_zero_range_byte r = if r.in_time then single (read_two [] r.pieces) else none

-- The number behind the last slash of `Content-Range`.
abbrev pub total_part : Option (Text × Text) → Option ℕ
total_part none = none
total_part (some (range, total)) = if is_star (trim total) then none else parse_u64 (trim total)

unfoldable pub total_after_slash : Option Text → Option ℕ
unfolding split_at_last trim parse_u64
total_after_slash none = none
total_after_slash (some value) = total_part (split_at_last b'/' value)

abbrev pub nonzero_total : Option (ℕ × ℕ × ℕ) → Option ℕ
nonzero_total none = none
nonzero_total (some (start, end, total)) = if total == 0 then none else some total

-- `bytes */total` of a status 416.
unfoldable pub unsatisfied_total : RangeReply → Option Text → Option ℕ
unfolding parse_content_range
unsatisfied_total r none = none
unsatisfied_total r (some value) =
    if r.status == 416 then nonzero_total (parse_content_range value) else none

abbrev pub is_same : Option ℕ → Option ℕ → Bool
is_same (some a) (some b) = b == a
is_same _ _ = false

unfoldable pub is_coherent : RangeReply → Bool
unfolding probe_zero_range_byte
is_coherent r = is_same (probe_zero_range_byte r) r.plain_first_byte

abbrev pub info : Bool → Known → RangeReply → Option ℕ → Option FileInfo
info support k r none = none
info support k r (some size) =
    some (
      size,
      support,
      first_some r.etag k.head_etag,
      first_some r.last_modified k.head_last_modified,
    )

abbrev pub is_success : ℕ → Bool
is_success status = leb 200 status && ltb status 300

unfoldable pub on_failure_status : Known → RangeReply → Option FileInfo
unfolding unsatisfied_total
on_failure_status k r =
    first_some (info true k r (unsatisfied_total r r.content_range))
      (info k.head_support k r k.head_size)

-- The fallbacks behind the test for a 206.
unfoldable pub by_headers : Known → RangeReply → Option FileInfo
unfolding total_after_slash parse_length
by_headers k r = first_some (info true k r (total_after_slash r.content_range)) (
    first_some (info k.head_support k r k.head_size)
      (info false k r (parse_length r.content_length)))

-- A 206 with a total is believed only if its one byte is the first byte of the whole body.
abbrev pub on_partial : Known → RangeReply → Option ℕ → Option FileInfo
on_partial k r (some total) = if is_coherent r then info true k r (some total) else none
on_partial k r none =
    first_some (info true k r k.head_size)
      (first_some (info true k r (parse_length r.content_length)) (by_headers k r))

abbrev pub head_info : Known → Option ℕ → Option FileInfo
head_info k none = none
head_info k (some size) = some (size, k.head_support, k.head_etag, k.head_last_modified)

abbrev pub on_reply : Known → Option RangeReply → Option FileInfo
on_reply k none = head_info k k.head_size
on_reply k (some r) =
    if not (is_success r.status)
    then on_failure_status k r
    else if r.status == 206
    then on_partial k r (total_after_slash r.content_range)
    else by_headers k r

unfoldable pub get_file_info : Option Head → Option RangeReply → Option FileInfo
unfolding probe_head on_failure_status by_headers is_coherent parse_length total_after_slash
get_file_info head reply = on_reply (probe_head head) reply
