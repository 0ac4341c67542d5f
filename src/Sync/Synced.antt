-- ===== src/Sync/Synced.antt =====
-- What `_sync_resource_dir` of cmake/modules/SyncResourceDirs.py leaves in the files.
use mathlib.Core.Path.{subst}
use xemu_perf_tests.Base.{
  Bool, true, not, ◌&&◌, ◌||◌, String, none, List, [], ◌∷◌, contains, lookup, erase, lookup-erase,
  if◌then◌else◌, All, ◌≡◌, refl, sym, ◌∙◌, ◌⊎◌, inl, inr, Bool-cases, arith,
}
use xemu_perf_tests.Base.Distinct.{Distinct, keys_of}
use xemu_perf_tests.Sync.Files.{Files, join, glob}
use xemu_perf_tests.Sync.Copy.{source_of, copy_all, extra_files, remove_all, sync_resource_dir}
use xemu_perf_tests.Sync.Copied.{
  targets, AreApart, IsUpToDate, Kept, Copied, Matched, copy_all-elsewhere, copy_all-Copied,
  copy_all-matched, matched-targets,
}

lookup-remove_all :
    (paths : List String) (files : Files) (p : String)
    → lookup p (remove_all paths files).0 ≡ (if contains paths p then none else lookup p files)
unfolding remove_all
lookup-remove_all [] files p = refl
lookup-remove_all (path ∷ paths) files p =
    let rest = lookup-remove_all paths (erase path files) p in
    ground (arith, rest, lookup-erase p path files)

contains-extra_files :
    (matched ignore : List String) (existing : List (String × String)) (p : String)
    → contains (extra_files matched ignore existing) p
      ≡ (contains (keys_of existing) p && not (contains matched p || contains ignore p))
contains-extra_files matched ignore [] p = refl
contains-extra_files matched ignore ((path, rel) ∷ existing) p =
    ground (arith, contains-extra_files matched ignore existing p)

module _ (local directory : String) (ignore : List String) (files : Files) where
  -- The targets of the directory's sources.
  abbrev pub synced_targets : List String
  synced_targets = targets directory (glob local files)

  abbrev pub is_extra : String → Bool
  is_extra p = contains (keys_of (glob directory files)) p && not (contains ignore p)

  -- A source that is a file and whose target is not ignored has a target of its size and time.
  abbrev pub SyncedFrom : Files → String × String → Type 0
  SyncedFrom after (path, rel) =
      IsUpToDate (source_of ignore (join directory rel) (lookup path files))
        (lookup (join directory rel) after)

  not_removed :
      (matched : List String) (copied after : Files) (s : String × String)
      → ((p : String)
          → lookup p after ≡ (
              if contains (extra_files matched ignore (glob directory files)) p
              then none
              else lookup p copied))
      → (source_of ignore (join directory s.1) (lookup s.0 files) ≡ none)
        ⊎ (contains matched (join directory s.1) ≡ true)
      → IsUpToDate
          (source_of ignore (join directory s.1) (lookup s.0 files))
          (lookup (join directory s.1) copied)
      → SyncedFrom after s
  not_removed matched copied after s left (inl none_wanted) h =
      subst (λ o. IsUpToDate o (lookup (join directory s.1) after)) (sym none_wanted) tt
  not_removed matched copied after s left (inr m) h =
      let target = join directory s.1 in
      let extra = contains-extra_files matched ignore (glob directory files) target in
      let same : lookup target copied ≡ lookup target after =
        ground (arith, left target, extra, m) in
      subst (IsUpToDate (source_of ignore target (lookup s.0 files))) same h

  all_kept :
      (matched : List String) (copied after : Files) (sources : List (String × String))
      → ((p : String)
          → lookup p after ≡ (
              if contains (extra_files matched ignore (glob directory files)) p
              then none
              else lookup p copied))
      → Matched directory ignore files matched sources
      → Copied directory ignore files copied sources
      → All (SyncedFrom after) sources
  all_kept matched copied after [] left m h = tt
  all_kept matched copied after (s ∷ sources) left m h = (
    not_removed matched copied after s left m.0 h.0,
    all_kept matched copied after sources left m.1 h.1,
  )

  Kept_self : (sources : List (String × String)) → Kept directory ignore files files sources
  Kept_self [] = tt
  Kept_self (s ∷ sources) = (refl, Kept_self sources)

  -- Where no two sources have one target and no source is a target: after a directory was synced, every source that is a file and whose target is not ignored has a target of its size and time, and every path that is no target is as before, or removed if it is a visible file below the target directory that is not ignored.
  pub sync_resource_dir_lem :
      (p : String)
      → Distinct synced_targets
      → AreApart synced_targets (glob local files)
      → All (SyncedFrom (sync_resource_dir local directory ignore files).files) (glob local files)
        × ((contains synced_targets p ≡ true)
            ⊎ (lookup p (sync_resource_dir local directory ignore files).files
                ≡ (if is_extra p then none else lookup p files)))
  unfolding sync_resource_dir
  sync_resource_dir_lem p d a =
      let sources = glob local files in
      let copies = copy_all directory ignore sources files in
      let extras = extra_files copies.matched ignore (glob directory files) in
      let after = (remove_all extras copies.files).0 in
      let left : (q : String)
          → lookup q after ≡ (if contains extras q then none else lookup q copies.files) =
        lookup-remove_all extras copies.files in
      (
        all_kept copies.matched copies.files after sources left
            (copy_all-matched directory ignore files sources files a (Kept_self sources))
            (copy_all-Copied directory ignore files sources files d a (Kept_self sources)),
        elim (Bool-cases (contains synced_targets p)) [
          | inl e ↦ inl e
          | inr e ↦ inr (
              left p
              ∙ ground (
                arith,
                contains-extra_files copies.matched ignore (glob directory files) p,
                matched-targets directory ignore files sources files p e,
                copy_all-elsewhere directory ignore sources files p e,
              ))
        ],
      )
