-- ===== src/Sync/Perform.antt =====
-- `perform_sync` of cmake/modules/SyncResourceDirs.py; what the files are after an exception is not
-- kept.
use xemu_perf_tests.Base.{
  Bool, true, false, not, ◌&&◌, ◌||◌, String, Option, none, some, List, [], ◌∷◌, ◌++◌, map,
  is_empty, lookup, insert, if◌then◌else◌,
}
use xemu_perf_tests.Base.Text.{contains_text, is_blank, is_some}
use xemu_perf_tests.Base.Result.{Result, ok, err, crash, ◌>>=◌}
use xemu_perf_tests.Sync.{build_relative_paths}
use xemu_perf_tests.Sync.Files.{File, Files, join}
use xemu_perf_tests.Sync.Copy.{Change, sync_resource_dir}

-- The loop over the dict of directories.
unfoldable pub sync_all :
    String → List String → List (String × String) → Files → Files × List Change
unfolding sync_resource_dir
sync_all output ignore [] files = (files, [])
sync_all output ignore ((source, relative) ∷ directories) files =
    let here = sync_resource_dir source (join output relative) ignore files in
    let rest = sync_all output ignore directories here.files in (rest.0, here.changes ++ rest.1)

-- A receipt is written: one is asked for, and a file changed or none is there.
abbrev pub is_due : String → List Change → Files → Bool
is_due path changes files =
    not (is_blank path) && (not (is_empty changes) || not (is_some (lookup path files)))

abbrev pub with_receipt : File → String → List Change → Files → Files
with_receipt receipt path changes files =
    if is_due path changes files then insert path receipt files else files

-- The last branch. `os.makedirs` refuses the directory name of a path without a separator.
unfoldable pub write_receipt : File → Option String → List Change → Files → Result Files
unfolding contains_text
write_receipt receipt none changes files = ok files
write_receipt receipt (some path) changes files =
    if not (contains_text path "/") && is_due path changes files
    then err (crash "FileNotFoundError: ''")
    else ok (with_receipt receipt path changes files)

-- What iterating an argument does: one that was not given is None.
abbrev pub given : Option (List String) → Result (List String)
given none = err (crash "TypeError: 'NoneType' object is not iterable")
given (some names) = ok names

-- `receipt` is the file that the text of the changes makes at the time of the run.
unfoldable pub perform_sync :
    (List Change → File)
    → String
    → Option String
    → Option (List String)
    → Option (List String)
    → Option (List String)
    → Files
    → Result Files
unfolding build_relative_paths sync_all write_receipt
perform_sync receipt output path roots directories ignore files = do
  ds ← given directories
  rs ← elim (is_empty ds) [ true ↦ ok [] | false ↦ given roots ]
  names ← given ignore
  let last = sync_all output (map (join output) names) (build_relative_paths rs ds) files
  write_receipt (receipt last.1) path last.1 last.0
