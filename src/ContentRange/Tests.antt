-- ===== src/ContentRange/Tests.antt =====
-- `parse_content_range` at the examples of its documentation.
use simple_downloader.Prelude.{◌≡◌, refl, none, some}
use simple_downloader.Prelude.Text.{codes}
use simple_downloader.ContentRange.{parse_content_range}

full : parse_content_range (codes "bytes 0-44/45") ≡ some (0, 44, 45)
unfolding parse_content_range
full = refl

wildcard_total : parse_content_range (codes "Bytes 0-44/*") ≡ some (0, 44, 0)
unfolding parse_content_range
wildcard_total = refl

unsatisfied : parse_content_range (codes "bytes */1234") ≡ some (0, 0, 1234)
unfolding parse_content_range
unsatisfied = refl

reversed : parse_content_range (codes "bytes 45-44/50") ≡ none
unfolding parse_content_range
reversed = refl
