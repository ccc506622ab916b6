-- ===== src/Range/Tests.antt =====
-- Merged ranges, and coverage gates that pass and fail.
use simple_downloader.Prelude.{◌≡◌, refl, List, [], ◌∷◌, ◌++◌, none, some, All, arith}
use simple_downloader.Range.{Range, add_covered_range, mark_written, coverage_gap}
use simple_downloader.Range.Merge.{IsRange}
use simple_downloader.Range.Gap.{FirstHole, coverage_gap-FirstHole}

abbrev apart : List Range
apart = (0, 9) ∷ (20, 29) ∷ []

apart-IsRange : All IsRange apart
apart-IsRange =
    ((omega arith, omega arith, omega arith), ((omega arith, omega arith, omega arith), tt))

joined : add_covered_range apart 10 19 ≡ (0, 29) ∷ []
unfolding add_covered_range
joined = refl

hole : coverage_gap apart ((30, 39) ∷ []) 40 ≡ some (10, 19)
unfolding coverage_gap
hole = refl

no_hole : coverage_gap apart ((8, 21) ∷ []) 30 ≡ none
unfolding coverage_gap
no_hole = refl

-- A block of no bytes at offset 0 is recorded as the byte 0.
empty_block : mark_written [] 0 0 ≡ (0, 0) ∷ []
unfolding mark_written
empty_block = refl

coverage_gap-FirstHole_example :
    FirstHole (apart ++ (30, 39) ∷ []) 40 (coverage_gap apart ((30, 39) ∷ []) 40)
coverage_gap-FirstHole_example = coverage_gap-FirstHole apart ((30, 39) ∷ []) 40 (omega arith)
