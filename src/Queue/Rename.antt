-- ===== src/Queue/Rename.antt =====
-- `resolve_rename` and `with_suffix` of src/queue.rs: the choice of a path that nothing else has.
-- What `Path` makes of a text, its parent and its file name, is given with it; the disk's answers
-- come by the turn of the loop, as does what is occupied when the lock is held.
use simple_downloader.Prelude.{
  ℕ, zero, suc, Bool, ◌||◌, List, [], ◌∷◌, ◌++◌, Option, none, some, if◌then◌else◌, ◌==◌, ◌-◌,
}
use simple_downloader.Prelude.Text.{Text, codes, decimal}
use simple_downloader.ContentRange.{split_at_last}
use simple_downloader.Queue.{holds_path}

-- A desired path with the answers of `Path::parent` and `Path::file_name`, the latter as UTF-8.
pub record Desired : Type 0 where
  pub path : Text
  pub parent : Option Text
  pub file_name : Option Text

-- The stem and the extension; a name that begins with its only dot has none.
abbrev split_name : Text → Option (Text × Text) → Text × Text
split_name file_name none = (file_name, [])
split_name file_name (some ([], ext)) = (file_name, [])
split_name file_name (some (c ∷ stem, ext)) = (c ∷ stem, ext)

unfoldable pub stem_and_ext : Text → Text × Text
unfolding split_at_last
stem_and_ext file_name = split_name file_name (split_at_last b'.' file_name)

-- `Path::join` with a relative name: a separator is set unless one is there.
unfoldable pub join_path : Text → Text → Text
join_path [] name = name
join_path (c ∷ []) name = if c == b'/' then c ∷ name else c ∷ b'/' ∷ name
join_path (c ∷ d ∷ parent) name = c ∷ join_path (d ∷ parent) name

abbrev pub name_or_file : Option Text → Text
name_or_file none = codes "file"
name_or_file (some name) = name

abbrev pub numbered : Text × Text → Text → Text
numbered (stem, []) n = stem ++ (codes "(" ++ (n ++ codes ")"))
numbered (stem, c ∷ ext) n = stem ++ (codes "(" ++ (n ++ (codes ")." ++ (c ∷ ext))))

abbrev pub placed_in : Option Text → Text → Text
placed_in none name = name
placed_in (some parent) name = join_path parent name

unfoldable pub with_suffix : Desired → ℕ → Text
unfolding stem_and_ext join_path decimal
with_suffix d n =
    placed_in d.parent (numbered (stem_and_ext (name_or_file d.file_name)) (decimal n))

-- What the disk and the lock show in each turn: whether the file or its sidecar is there, before the
-- lock is taken and under it, and what is occupied then.
pub record Looks : Type 0 where
  pub exists : ℕ → Text → Bool
  pub exists_locked : ℕ → Text → Bool
  pub occupied : ℕ → List Text

abbrev pub nth_candidate : Desired → ℕ → Text
nth_candidate d zero = d.path
nth_candidate d (suc n) = with_suffix d (suc n)

abbrev pub is_taken : (Text → Bool) → List Text → Text → Bool
is_taken exists occupied p = holds_path occupied p || exists p

-- The loop from turn `n` on, with fuel for the turns that are left until `n > 10000`. The snapshot of
-- what is occupied is renewed where the lock shows a conflict.
unfoldable pub rename_loop : ℕ → Desired → Looks → ℕ → List Text → Text
rename_loop zero d looks n snapshot = nth_candidate d (n - 1)
rename_loop (suc turns) d looks n snapshot =
    let seen = is_taken (looks.exists n) snapshot (nth_candidate d n) in
    let rest = rename_loop turns d looks (suc n) (if seen then snapshot else looks.occupied n) in
    if seen || is_taken (looks.exists_locked n) (looks.occupied n) (nth_candidate d n)
    then rest
    else nth_candidate d n

unfoldable pub resolve_rename : Desired → Looks → List Text → Text
unfolding rename_loop
resolve_rename d looks snapshot = rename_loop 10001 d looks 0 snapshot
