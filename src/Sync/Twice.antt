-- ===== src/Sync/Twice.antt =====
-- A second run of `_sync_resource_dir` of cmake/modules/SyncResourceDirs.py changes nothing.
use mathlib.Core.Path.{subst}
use xemu_perf_tests.Base.{
  true, false, ◌||◌, String, Option, none, some, List, [], ◌∷◌, ◌++◌, contains, lookup, All, ◌≡◌,
  refl, sym, ap, ◌∙◌, ◌⊎◌, inl, inr, Bool-cases, Option-cases, arith,
}
use xemu_perf_tests.Base.Distinct.{Distinct}
use xemu_perf_tests.Base.Members.{Member, All-Member, Member-All}
use xemu_perf_tests.Sync.Files.{File, Files, join, glob, below}
use xemu_perf_tests.Sync.Copy.{
  copy_if_needed, source_of, copied_files, add_change, copy_all, extra_files, remove_all,
  sync_resource_dir, Change,
}
use xemu_perf_tests.Sync.Copied.{AreApart, IsUpToDate, Matched, Matched-first, Matched-add}
use xemu_perf_tests.Sync.Synced.{synced_targets, sync_resource_dir_lem}
use xemu_perf_tests.Sync.Found.{
  glob-Member, Member-glob, targets-Member, keys-Member, contains-outside, contains-glob,
}

-- A directory whose targets are all up to date.
module _ (directory : String) (ignore : List String) (files : Files) where
  abbrev Current : String × String → Type 0
  Current (path, rel) =
      IsUpToDate (source_of ignore (join directory rel) (lookup path files))
        (lookup (join directory rel) files)

  copied_same :
      (source : Option File) (target : String) (changes : List Change)
      → IsUpToDate source (lookup target files)
      → (copied_files source target files ≡ files)
        × (add_change source target files changes ≡ changes)
  unfolding copy_if_needed
  copied_same none target changes h = (refl, refl)
  copied_same (some f) target changes h = (ground (arith, h), ground (arith, h))

  copy_all-Current :
      (sources : List (String × String))
      → All Current sources
      → ((copy_all directory ignore sources files).files ≡ files)
        × ((copy_all directory ignore sources files).changes ≡ [])
        × Matched directory ignore files (copy_all directory ignore sources files).matched sources
  unfolding copy_all
  copy_all-Current [] h = (refl, refl, tt)
  copy_all-Current ((path, rel) ∷ sources) h =
      let target = join directory rel in
      let source = source_of ignore target (lookup path files) in
      let rest = copy_all-Current sources h.1 in
      let settled = copied_files source target files in
      let same = (copied_same source target [] h.0).0 in
      let run = copy_all directory ignore sources in
      (
        ap (λ c. (run c).files) same ∙ rest.0,
        (copied_same source target (run settled).changes h.0).1
            ∙ ap (λ c. (run c).changes) same
            ∙ rest.1,
        (
          Matched-first directory ignore files source target (run settled).matched,
          Matched-add directory ignore files source target (run settled).matched sources (
              subst (λ c. Matched directory ignore files (run c).matched sources) (sym same)
                rest.2),
        ),
      )

extra_files-nil :
    (matched ignore : List String) (existing : List (String × String))
    → All (λ s. (contains matched s.0 || contains ignore s.0) ≡ true) existing
    → extra_files matched ignore existing ≡ []
extra_files-nil matched ignore [] h = refl
extra_files-nil matched ignore (s ∷ existing) h =
    rw h.0 (extra_files-nil matched ignore existing h.1)

-- A run that copies nothing and finds nothing extra.
idle :
    (local directory : String) (ignore : List String) (files : Files)
    → (copy_all directory ignore (glob local files) files).files ≡ files
    → (copy_all directory ignore (glob local files) files).changes ≡ []
    → extra_files
        (copy_all directory ignore (glob local files) files).matched
        ignore
        (glob directory files)
      ≡ []
    → ((sync_resource_dir local directory ignore files).changes ≡ [])
      × ((sync_resource_dir local directory ignore files).files ≡ files)
unfolding sync_resource_dir remove_all
idle local directory ignore files kept none_copied none_extra =
    let copies = copy_all directory ignore (glob local files) files in
    (
      ap (λ extras. copies.changes ++ (remove_all extras copies.files).1) none_extra
          ∙ ap (λ changes. changes ++ []) none_copied,
      ap (λ extras. (remove_all extras copies.files).0) none_extra ∙ kept,
    )

-- A source that is a file has a target that is matched, or ignored.
covered :
    (ignore : List String) (target : String) (matched : List String) (o : Option File) (f : File)
    → o ≡ some f
    → (source_of ignore target o ≡ none) ⊎ (contains matched target ≡ true)
    → (contains matched target || contains ignore target) ≡ true
covered ignore target matched none f e h = cc
covered ignore target matched (some g) f e (inl h) = elim (Bool-cases (contains ignore target)) [
  | inl i ↦ ground (arith, i)
  | inr i ↦ let bad : some g ≡ none = sym (ground (arith, i)) ∙ h in cc
]
covered ignore target matched (some g) f e (inr h) = ground (arith, h)

module _ (local directory : String) (ignore : List String) (files : Files)
    (distinct : Distinct (synced_targets local directory ignore files))
    (outside : All (λ t. below local t ≡ none) (synced_targets local directory ignore files))
    (apart : (q : String) → (below local q ≡ none) ⊎ (below directory q ≡ none)) where
  abbrev after : Files
  after = (sync_resource_dir local directory ignore files).files

  sources_apart : AreApart (synced_targets local directory ignore files) (glob local files)
  sources_apart =
      Member-All _ (glob local files)
        λ s m. contains-outside local s.0 s.1 _ outside (Member-glob local s.0 s.1 files m).0

  source_kept :
      (path rel : String) → below local path ≡ some rel → lookup path after ≡ lookup path files
  source_kept path rel b =
      let known = contains-outside local path rel _ outside b in
      elim (sync_resource_dir_lem local directory ignore files path distinct sources_apart).1 [
        | inl e ↦ let bad : true ≡ false = sym e ∙ known in cc
        | inr e ↦ elim (apart path) [
          | inl none_there ↦ let bad : none ≡ some rel = sym none_there ∙ b in cc
          | inr h ↦ e ∙ ground (arith, contains-glob directory path files h)
        ]
      ]

  -- A file below the target directory after the run was ignored or is the target of a source.
  left_over_ignored :
      (p rel : String) (f : File)
      → below directory p ≡ some rel
      → lookup p after ≡ some f
      → contains (synced_targets local directory ignore files) p ≡ false
      → contains ignore p ≡ true
  left_over_ignored p rel f b there no_target = elim (Bool-cases (contains ignore p)) [
    | inl e ↦ e
    | inr e ↦ elim (sync_resource_dir_lem local directory ignore files p distinct sources_apart).1 [
      | inl t ↦ let bad : true ≡ false = sym t ∙ no_target in cc
      | inr kept ↦ elim (Option-cases (lookup p files)) [
        | inl gone ↦ let bad : some f ≡ none = sym there ∙ kept ∙ ground (arith, gone) in cc
        | inr (g, before) ↦
            let known = keys-Member p rel _ (glob-Member directory p rel g files before b) in
            let bad : some f ≡ none = sym there ∙ kept ∙ ground (arith, known) in cc
      ]
    ]
  ]

  all-Current : All (Current directory ignore after) (glob local after)
  all-Current = Member-All (Current directory ignore after) (glob local after) λ s m.
      let (b, (f, there)) = Member-glob local s.0 s.1 after m in
      let same = source_kept s.0 s.1 b in
      let known = glob-Member local s.0 s.1 f files (sym same ∙ there) b in
      subst
        (λ o.
          IsUpToDate (source_of ignore (join directory s.1) o) (lookup (join directory s.1) after))
        (sym same)
        (All-Member _ (glob local files) s
          (sync_resource_dir_lem local directory ignore files "" distinct sources_apart).0 known)

  accounted :
      (s : String × String)
      → Member s (glob directory after)
      → (contains (copy_all directory ignore (glob local after) after).matched s.0
          || contains ignore s.0)
        ≡ true
  accounted (p, r) m =
      let (b, (f, there)) = Member-glob directory p r after m in
      elim (Bool-cases (contains (synced_targets local directory ignore files) p)) [
        | inr none_such ↦ ground (arith, left_over_ignored p r f b there none_such)
        | inl e ↦
            let (t, member, same) = targets-Member directory p (glob local files) e in
            let (b', (f', before)) = Member-glob local t.0 t.1 files member in
            let again = source_kept t.0 t.1 b' ∙ before in
            let matched =
              All-Member _ (glob local after) t
                (copy_all-Current directory ignore after (glob local after) all-Current).2
                (glob-Member local t.0 t.1 f' after again b') in
            subst
              (λ q.
                (contains (copy_all directory ignore (glob local after) after).matched q
                  || contains ignore q)
                ≡ true)
              (sym same) (covered ignore (join directory t.1) _ (lookup t.0 after) f' again matched)
      ]

  -- Where no two sources have one target, no target lies below the source directory, and no path lies below both directories: a second run of `_sync_resource_dir` after a first one reports no change and leaves every file as it is.
  pub sync_resource_dir_idem :
      ((sync_resource_dir local directory ignore after).changes ≡ [])
      × ((sync_resource_dir local directory ignore after).files ≡ after)
  sync_resource_dir_idem =
      let copies = copy_all-Current directory ignore after (glob local after) all-Current in
      idle local directory ignore after copies.0 copies.1 (
        extra_files-nil _ ignore (glob directory after)
          (Member-All _ (glob directory after) accounted))
