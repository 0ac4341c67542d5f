-- ===== src/Sync/Files.antt =====
-- The files that cmake/modules/SyncResourceDirs.py reads and writes: a dict from paths without empty
-- components. A directory exists where a file stands below it, and there are no links.
use xemu_perf_tests.Base.{
  ℕ, Bool, not, ◌||◌, String, ◌<>◌, Option, none, some, List, [], ◌∷◌, if◌then◌else◌,
}
use xemu_perf_tests.Base.Text.{after_prefix, starts_with, ends_with, contains_text, is_blank}

-- What `os.stat` and `shutil.copy2` see of a file; a time is a number of ticks.
pub record File : Type 0 where
  pub content : List ℕ
  pub mtime : ℕ

abbrev pub Files : Type 0
Files = List (String × File)

-- `os.path.join`
unfoldable pub join : String → String → String
unfolding starts_with ends_with
join a b =
    if starts_with b "/"
    then b
    else if is_blank a || ends_with a "/"
    then a <> b
    else a <> ("/" <> b)

-- Where the pattern `**` of `glob` looks: below the directory, in no hidden file or directory.
abbrev is_visible : String → Bool
is_visible rel =
    not (is_blank rel || starts_with rel "/" || starts_with rel "." || contains_text rel "/.")

abbrev visible : Option String → Option String
visible none = none
visible (some rel) = if is_visible rel then some rel else none

-- `os.path.relpath(path, directory)` of a path that the pattern finds.
unfoldable pub below : String → String → Option String
unfolding join after_prefix starts_with contains_text
below directory path = visible (after_prefix (join directory "") path)

abbrev pub add_found : Option String → String → List (String × String) → List (String × String)
add_found none path found = found
add_found (some rel) path found = (path, rel) ∷ found

-- `glob.glob(f"{directory}/**", recursive=True)`, the files of it, each with its relative path.
unfoldable pub glob : String → Files → List (String × String)
unfolding below
glob directory [] = []
glob directory ((path, f) ∷ files) = add_found (below directory path) path (glob directory files)
