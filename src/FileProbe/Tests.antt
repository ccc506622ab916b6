-- ===== src/FileProbe/Tests.antt =====
-- Answers of servers.
use simple_downloader.Prelude.{◌≡◌, refl, true, false, [], ◌∷◌, none, some}
use simple_downloader.Prelude.Text.{Text, codes}
use simple_downloader.FileProbe.{Head, RangeReply, probe_head, get_file_info}
use simple_downloader.FileProbe.Grounds.{Grounded, get_file_info-Grounded}

abbrev head : Head
head = record {
  content_length = some (codes "100");
  accept_ranges = false;
  etag = some (codes "x");
  last_modified = none;
}

abbrev partial : Text → RangeReply
partial range = record {
  status = 206;
  content_range = some range;
  content_length = some (codes "1");
  etag = none;
  last_modified = none;
  pieces = some (7 ∷ []) ∷ [];
  in_time = true;
  plain_first_byte = some 7;
}

coherent :
    get_file_info (some head) (some (partial (codes "bytes 0-0/100")))
    ≡ some (100, true, some (codes "x"), none)
unfolding get_file_info
coherent = refl

-- Of a range of unknown total and no HEAD, the length of the one byte is taken for the file's.
one_byte_file :
    get_file_info none (some (partial (codes "bytes 0-0/*"))) ≡ some (1, true, none, none)
unfolding get_file_info
one_byte_file = refl

get_file_info-Grounded_example :
    Grounded
      (probe_head (some head))
      (some (partial (codes "bytes 0-0/100")))
      (get_file_info (some head) (some (partial (codes "bytes 0-0/100"))))
get_file_info-Grounded_example =
    get_file_info-Grounded (some head) (some (partial (codes "bytes 0-0/100")))
