-- ===== src/Sync/Copy.antt =====
-- `_copy_if_needed` and `_sync_resource_dir` of cmake/modules/SyncResourceDirs.py.
use xemu_perf_tests.Base.{
  ℕ, ◌==◌, Bool, true, false, ◌&&◌, ◌||◌, String, Option, none, some, List, [], ◌∷◌, ◌++◌, length,
  contains, lookup, insert, erase, if◌then◌else◌,
}
use xemu_perf_tests.Sync.Files.{File, Files, join, glob}

-- What a run reports: a file with its new time, or a file that it removed.
pub data Change : Type 0 where
  copied : String → ℕ → Change
  removed : String → Change

-- The target is a file with the size and the time of the source.
abbrev pub is_same : File → Option File → Bool
is_same f none = false
is_same f (some g) = (length f.content == length g.content) && (f.mtime == g.mtime)

-- `_copy_if_needed`, for a source that is there: the files, and whether it copied.
unfoldable pub copy_if_needed : File → String → Files → Files × Bool
copy_if_needed f target files =
    if is_same f (lookup target files) then (files, false) else (insert target f files, true)

pub record Synced : Type 0 where
  pub files : Files
  pub matched : List String
  pub changes : List Change

-- A round of the loop over the sources: what a source that is a file does, whose target is not ignored.
abbrev pub source_of : List String → String → Option File → Option File
source_of ignore target none = none
source_of ignore target (some f) = if contains ignore target then none else some f

abbrev pub copied_files : Option File → String → Files → Files
copied_files none target files = files
copied_files (some f) target files = (copy_if_needed f target files).0

abbrev pub add_match : Option File → String → List String → List String
add_match none target matched = matched
add_match (some f) target matched = target ∷ matched

abbrev pub add_change : Option File → String → Files → List Change → List Change
add_change none target files changes = changes
add_change (some f) target files changes =
    if (copy_if_needed f target files).1 then copied target f.mtime ∷ changes else changes

-- The loop over the sources.
unfoldable pub copy_all : String → List String → List (String × String) → Files → Synced
unfolding copy_if_needed
copy_all directory ignore [] files = record { files = files; matched = []; changes = [] }
copy_all directory ignore ((path, rel) ∷ sources) files =
    let target = join directory rel in
    let source = source_of ignore target (lookup path files) in
    let rest = copy_all directory ignore sources (copied_files source target files) in
    record {
      files = rest.files;
      matched = add_match source target rest.matched;
      changes = add_change source target files rest.changes;
    }

-- `existing_files - matched_files - target_ignore_files`
abbrev pub extra_files : List String → List String → List (String × String) → List String
extra_files matched ignore [] = []
extra_files matched ignore ((path, rel) ∷ existing) =
    let rest = extra_files matched ignore existing in
    if contains matched path || contains ignore path then rest else path ∷ rest

abbrev add_removed : Option File → String → List Change → List Change
add_removed none path changes = changes
add_removed (some f) path changes = removed path ∷ changes

-- The loop over the extra files; what is no file is left alone.
unfoldable pub remove_all : List String → Files → Files × List Change
remove_all [] files = (files, [])
remove_all (path ∷ paths) files =
    let rest = remove_all paths (erase path files) in
    (rest.0, add_removed (lookup path files) path rest.1)

unfoldable pub sync_resource_dir : String → String → List String → Files → Synced
unfolding glob copy_all remove_all
sync_resource_dir local target ignore files =
    let copies = copy_all target ignore (glob local files) files in
    let last = remove_all (extra_files copies.matched ignore (glob target files)) copies.files in
    record { files = last.0; matched = copies.matched; changes = copies.changes ++ last.1 }
