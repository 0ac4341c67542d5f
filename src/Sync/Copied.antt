-- ===== src/Sync/Copied.antt =====
-- What the loop over the sources in `_sync_resource_dir` of cmake/modules/SyncResourceDirs.py copies.
use mathlib.Core.Path.{subst}
use xemu_perf_tests.Base.{
  true, false, String, str_eq, str_eq_self, Option, none, some, List, [], ◌∷◌, contains, lookup,
  lookup-insert, All, ◌≡◌, refl, sym, ◌∙◌, ◌⊎◌, inl, inr, Bool-cases, arith,
}
use xemu_perf_tests.Base.Distinct.{Distinct}
use xemu_perf_tests.Sync.Files.{File, Files, join}
use xemu_perf_tests.Sync.Copy.{
  is_same, copy_if_needed, source_of, copied_files, add_match, copy_all,
}

-- The targets of the sources.
abbrev pub targets : String → List (String × String) → List String
targets directory [] = []
targets directory ((path, rel) ∷ sources) = join directory rel ∷ targets directory sources

-- No source is a target.
abbrev pub AreApart : List String → List (String × String) → Type 0
AreApart names sources = All (λ s. contains names s.0 ≡ false) sources

-- A source that is copied has a target of its size and time.
abbrev pub IsUpToDate : Option File → Option File → Type 0
IsUpToDate none found = Unit
IsUpToDate (some f) found = is_same f found ≡ true

is_same_self : (f : File) → is_same f (some f) ≡ true
is_same_self f = ground arith

copied_files-elsewhere :
    (source : Option File) (target p : String) (files : Files)
    → str_eq p target ≡ false
    → lookup p (copied_files source target files) ≡ lookup p files
unfolding copy_if_needed
copied_files-elsewhere none target p files h = refl
copied_files-elsewhere (some f) target p files h = ground (arith, lookup-insert p target f files)

copied_files-IsUpToDate :
    (source : Option File) (target : String) (files : Files)
    → IsUpToDate source (lookup target (copied_files source target files))
unfolding copy_if_needed
copied_files-IsUpToDate none target files = tt
copied_files-IsUpToDate (some f) target files =
    elim (Bool-cases (is_same f (lookup target files))) [
      | inl e ↦ ground arith
      | inr e ↦ ground (arith, lookup-insert target target f files, is_same_self f)
    ]

pub copy_all-elsewhere :
    (directory : String) (ignore : List String) (sources : List (String × String)) (files : Files)
    (p : String)
    → contains (targets directory sources) p ≡ false
    → lookup p (copy_all directory ignore sources files).files ≡ lookup p files
unfolding copy_all
copy_all-elsewhere directory ignore [] files p h = refl
copy_all-elsewhere directory ignore ((path, rel) ∷ sources) files p h =
    let target = join directory rel in
    let source = source_of ignore target (lookup path files) in
    copy_all-elsewhere directory ignore sources (copied_files source target files) p (ground arith)
    ∙ copied_files-elsewhere source target p files (ground arith)

module _ (directory : String) (ignore : List String) (before : Files) where
  abbrev pub wanted : String × String → Option File
  wanted (path, rel) = source_of ignore (join directory rel) (lookup path before)

  abbrev pub Kept : Files → List (String × String) → Type 0
  Kept files sources = All (λ s. lookup s.0 files ≡ lookup s.0 before) sources

  Kept-copied :
      (source : Option File) (target : String) (names : List String) (files : Files)
      (sources : List (String × String))
      → AreApart (target ∷ names) sources
      → Kept files sources
      → Kept (copied_files source target files) sources
  Kept-copied source target names files [] a k = tt
  Kept-copied source target names files (s ∷ sources) a k = (
    copied_files-elsewhere source target s.0 files (ground arith) ∙ k.0,
    Kept-copied source target names files sources a.1 k.1,
  )

  AreApart-later :
      (target : String) (names : List String) (sources : List (String × String))
      → AreApart (target ∷ names) sources
      → AreApart names sources
  AreApart-later target names [] a = tt
  AreApart-later target names (s ∷ sources) a =
      (ground arith, AreApart-later target names sources a.1)

  abbrev pub Copied : Files → List (String × String) → Type 0
  Copied after sources =
      All (λ s. IsUpToDate (wanted s) (lookup (join directory s.1) after)) sources

  pub copy_all-Copied :
      (sources : List (String × String)) (files : Files)
      → Distinct (targets directory sources)
      → AreApart (targets directory sources) sources
      → Kept files sources
      → Copied (copy_all directory ignore sources files).files sources
  unfolding copy_all
  copy_all-Copied [] files d a k = tt
  copy_all-Copied ((path, rel) ∷ sources) files d a k =
      let target = join directory rel in
      let source = source_of ignore target (lookup path files) in
      let names = targets directory sources in
      let out = (copy_all directory ignore sources (copied_files source target files)).files in
      let kept =
        copy_all-elsewhere directory ignore sources (copied_files source target files) target d.0 in
      (
        subst (λ o. IsUpToDate (source_of ignore target o) (lookup target out)) k.0
            (subst (IsUpToDate source) (sym kept) (copied_files-IsUpToDate source target files)),
        copy_all-Copied sources (copied_files source target files) d.1
            (AreApart-later target names sources a.1)
            (Kept-copied source target names files sources a.1 k.1),
      )

  abbrev pub Matched : List String → List (String × String) → Type 0
  Matched matched sources =
      All (λ s. (wanted s ≡ none) ⊎ (contains matched (join directory s.1) ≡ true)) sources

  pub Matched-add :
      (source : Option File) (target : String) (matched : List String)
      (sources : List (String × String))
      → Matched matched sources
      → Matched (add_match source target matched) sources
  Matched-add none target matched sources h = h
  Matched-add (some f) target matched [] h = tt
  Matched-add (some f) target matched (s ∷ sources) h = (
    elim h.0 [ inl e ↦ inl e | inr e ↦ inr (ground (arith, e)) ],
    Matched-add (some f) target matched sources h.1,
  )

  pub Matched-first :
      (source : Option File) (target : String) (matched : List String)
      → (source ≡ none) ⊎ (contains (add_match source target matched) target ≡ true)
  Matched-first none target matched = inl refl
  Matched-first (some f) target matched = inr (ground (arith, str_eq_self target))

  -- The targets that the loop has matched are those of the sources that it copies.
  pub copy_all-matched :
      (sources : List (String × String)) (files : Files)
      → AreApart (targets directory sources) sources
      → Kept files sources
      → Matched (copy_all directory ignore sources files).matched sources
  unfolding copy_all
  copy_all-matched [] files a k = tt
  copy_all-matched ((path, rel) ∷ sources) files a k =
      let target = join directory rel in
      let names = targets directory sources in
      let source = source_of ignore target (lookup path files) in
      let rest =
        copy_all-matched sources (copied_files source target files)
          (AreApart-later target names sources a.1)
          (Kept-copied source target names files sources a.1 k.1) in
      let matched =
        (copy_all directory ignore sources (copied_files source target files)).matched in
      (
        subst
            (λ o.
              (source_of ignore target o ≡ none)
              ⊎ (contains (add_match source target matched) target ≡ true))
            k.0 (Matched-first source target matched),
        Matched-add source target matched sources rest,
      )

  add_match-misses :
      (source : Option File) (target : String) (matched : List String) (p : String)
      → str_eq p target ≡ false
      → contains matched p ≡ false
      → contains (add_match source target matched) p ≡ false
  add_match-misses none target matched p h m = m
  add_match-misses (some f) target matched p h m = ground arith

  pub matched-targets :
      (sources : List (String × String)) (files : Files) (p : String)
      → contains (targets directory sources) p ≡ false
      → contains (copy_all directory ignore sources files).matched p ≡ false
  unfolding copy_all
  matched-targets [] files p h = refl
  matched-targets ((path, rel) ∷ sources) files p h =
      let target = join directory rel in
      let source = source_of ignore target (lookup path files) in
      let rest = matched-targets sources (copied_files source target files) p (ground arith) in
      add_match-misses source target _ p (ground arith) rest
