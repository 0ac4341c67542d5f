-- ===== src/Tests/Sync.antt =====
-- The theorem on cmake/modules/SyncResourceDirs.py at two nested roots.
use Prim.Native.Char.{code}
use xemu_perf_tests.Base.{
  ◌==◌, false, arith, inl, inr, Bool-cases, true, not, ◌||◌, contains, lookup, some, map, is_empty,
  str_eq, if◌then◌else◌, ℕ, String, Option, none, List, [], ◌∷◌, All, ◌≡◌, ◌⊎◌, refl, string_dec,
}
use xemu_perf_tests.Sync.{rootless, build_relative_paths}
use xemu_perf_tests.Base.Distinct.{Distinct}
use xemu_perf_tests.Base.Text.{contains_text, is_some, after_prefix}
use xemu_perf_tests.Base.Result.{ok, err, crash}
use xemu_perf_tests.Sync.Files.{File, Files, join, below, glob}
use xemu_perf_tests.Sync.Copy.{Change, copied, removed, sync_resource_dir}
use xemu_perf_tests.Sync.Copied.{AreApart}
use xemu_perf_tests.Sync.Synced.{synced_targets, is_extra, SyncedFrom, sync_resource_dir_lem}
use xemu_perf_tests.Sync.Twice.{sync_resource_dir_idem}
use xemu_perf_tests.Sync.Perform.{sync_all, perform_sync}
use xemu_perf_tests.Sync.Receipt.{perform_sync-receipt}
use xemu_perf_tests.Sync.Longest.{left_over, Bounds, Attained, rootless-longest}

abbrev roots : List String
roots = "/a" ∷ "/a/resources" ∷ "/b" ∷ []

paths_built : build_relative_paths roots ("/a/resources/x" ∷ []) ≡ ("/a/resources/x", "x") ∷ []
unfolding build_relative_paths string_dec
paths_built = refl

rootless-longest_example :
    (o : Option ℕ) × (rootless roots "/a/resources/x" ≡ left_over "/a/resources/x" o)
    × All (Bounds "/a/resources/x" o) roots
    × ((o ≡ none) ⊎ Attained "/a/resources/x" roots o)
rootless-longest_example = rootless-longest roots "/a/resources/x"

abbrev file : ℕ → ℕ → File
file byte mtime = record { content = byte ∷ []; mtime = mtime }

-- A source, a hidden one, its old target, a file that no source has, and the ignored executable.
abbrev build_files : Files
build_files =
    ("res/a.txt", file 1 20)
    ∷ ("res/.hidden", file 2 20)
    ∷ ("out/a.txt", file 1 10)
    ∷ ("out/stale.txt", file 3 10)
    ∷ ("out/default.xbe", file 4 10)
    ∷ []

abbrev ignored : List String
ignored = "out/default.xbe" ∷ []

synced_once :
    (sync_resource_dir "res" "out" ignored build_files).changes
    ≡ copied "out/a.txt" 20 ∷ removed "out/stale.txt" ∷ []
unfolding sync_resource_dir string_dec
synced_once = refl

one_source : glob "res" build_files ≡ ("res/a.txt", "a.txt") ∷ []
unfolding glob string_dec
one_source = refl

one_target : Distinct (synced_targets "res" "out" ignored build_files)
unfolding glob join string_dec
one_target = (refl, tt)

no_source : AreApart (synced_targets "res" "out" ignored build_files) (glob "res" build_files)
unfolding glob join string_dec
no_source = (refl, tt)

target_outside : All (λ t. below "res" t ≡ none) (synced_targets "res" "out" ignored build_files)
unfolding glob join below string_dec
target_outside = (refl, tt)

directories_apart : (q : String) → (below "res" q ≡ none) ⊎ (below "out" q ≡ none)
unfolding below join string_dec after_prefix
directories_apart String.[] = inl refl
directories_apart (String.◌∷◌ c q) = elim (Bool-cases (114 == code c)) [
  | inl e ↦ let far : (111 == code c) ≡ false = ground arith in inr (rw far refl)
  | inr e ↦ inl (rw e refl)
]

sync_resource_dir_lem_example :
    All
      (SyncedFrom "res" "out" ignored build_files
        (sync_resource_dir "res" "out" ignored build_files).files)
      (glob "res" build_files)
    × ((contains (synced_targets "res" "out" ignored build_files) "out/stale.txt" ≡ true)
        ⊎ (lookup "out/stale.txt" (sync_resource_dir "res" "out" ignored build_files).files ≡ (
            if is_extra "res" "out" ignored build_files "out/stale.txt"
            then none
            else lookup "out/stale.txt" build_files)))
sync_resource_dir_lem_example =
    sync_resource_dir_lem "res" "out" ignored build_files "out/stale.txt" one_target no_source

abbrev built : Files
built = (sync_resource_dir "res" "out" ignored build_files).files

sync_resource_dir_idem_example :
    ((sync_resource_dir "res" "out" ignored built).changes ≡ [])
    × ((sync_resource_dir "res" "out" ignored built).files ≡ built)
sync_resource_dir_idem_example =
    sync_resource_dir_idem "res" "out" ignored build_files one_target target_outside
      directories_apart

abbrev receipt_file : List Change → File
receipt_file changes = file 9 30

abbrev all_synced : Files × List Change
all_synced =
    sync_all "out" (map (join "out") ("default.xbe" ∷ []))
      (build_relative_paths ("res" ∷ []) ("res" ∷ [])) build_files

slash : contains_text "xbe/stamp" "/" ≡ true
unfolding contains_text
slash = refl

perform_sync-receipt_example :
    (out : Files) × (perform_sync receipt_file "out"
        (some "xbe/stamp")
        (some ("res" ∷ []))
        (some ("res" ∷ []))
        (some ("default.xbe" ∷ []))
        build_files
      ≡ ok out)
    × (lookup "xbe/stamp" out ≡ (
        if not (is_empty all_synced.1) || not (is_some (lookup "xbe/stamp" all_synced.0))
        then some (receipt_file all_synced.1)
        else lookup "xbe/stamp" all_synced.0))
    × ((str_eq "out/a.txt" "xbe/stamp" ≡ true)
        ⊎ (lookup "out/a.txt" out ≡ lookup "out/a.txt" all_synced.0))
perform_sync-receipt_example =
    perform_sync-receipt receipt_file "out" "xbe/stamp" ("res" ∷ []) ("res" ∷ [])
      ("default.xbe" ∷ []) build_files "out/a.txt" refl slash

-- Without --ignore-files the run raises.
not_ignoring :
    perform_sync receipt_file "out" none (some ("res" ∷ [])) (some ("res" ∷ [])) none build_files
    ≡ err (crash "TypeError: 'NoneType' object is not iterable")
unfolding perform_sync
not_ignoring = refl

-- Two directories that are roots themselves have one target: the second run removes the first's file.
two_roots :
    (sync_all "out" [] (("a", "") ∷ ("b", "") ∷ []) (("a/x", file 1 1) ∷ ("b/y", file 2 2) ∷ [])).1
    ≡ copied "out/x" 1 ∷ copied "out/y" 2 ∷ removed "out/x" ∷ []
unfolding sync_all sync_resource_dir string_dec
two_roots = refl
