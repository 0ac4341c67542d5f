-- ===== src/Catalog/Update/Current.antt =====
-- What `main` of utils/test_catalog.py leaves in the files, and when its check fails.
use xemu_perf_tests.Base.{
  Bool, true, false, String, str_eq, eq_of-str_eq, str_eq_self, Option, none, some, [], ◌∷◌, lookup,
  insert, lookup-insert, contains, ◌≡◌, refl, List-cases, ap, ◌∙◌, ◌↔◌, inl, inr, All, Bool-cases,
  arith, ◌||◌, if◌then◌else◌,
}
use xemu_perf_tests.Base.Distinct.{Distinct, keys_of}
use xemu_perf_tests.Catalog.Render.{Files}
use xemu_perf_tests.Catalog.Update.{update, is_current, exit_code}

-- Every file of the output stands with its text.
abbrev pub IsCurrent : Files → Files → Type 0
IsCurrent files output = All (λ f. lookup f.0 files ≡ some f.1) output

is_current-lookup :
    (files : Files) (path text : String)
    → is_current files path text ≡ true
    → lookup path files ≡ some text
is_current-lookup files path text h = ground arith

lookup-is_current :
    (files : Files) (path text : String)
    → lookup path files ≡ some text
    → is_current files path text ≡ true
lookup-is_current files path text h = rw h (str_eq_self text)

update-unchanged : (output files : Files) → (update true output files).files ≡ files
unfolding update
update-unchanged [] files = refl
update-unchanged ((path, text) ∷ output) files = elim (Bool-cases (is_current files path text)) [
  | inl e ↦ rw e (update-unchanged output files)
  | inr e ↦ rw e (update-unchanged output files)
]

-- A path that is not rendered keeps what it holds.
pub update-elsewhere :
    (check : Bool) (output files : Files) (path : String)
    → contains (keys_of output) path ≡ false
    → lookup path (update check output files).files ≡ lookup path files
unfolding update
update-elsewhere check [] files path h = refl
update-elsewhere check ((name, text) ∷ output) files path h =
    elim (Bool-cases (is_current files name text || check)) [
      | inl e ↦ rw e (update-elsewhere check output files path (ground arith))
      | inr e ↦ rw e (
          update-elsewhere check output (insert name text files) path (ground arith)
          ∙ ground (arith, lookup-insert path name text files))
    ]

settled-lookup :
    (files : Files) (path text : String)
    → lookup path (if is_current files path text || false then files else insert path text files)
      ≡ some text
settled-lookup files path text = elim (Bool-cases (is_current files path text)) [
  | inl e ↦ rw e (is_current-lookup files path text e)
  | inr e ↦ rw e (ground (arith, lookup-insert path path text files))
]

update-writes :
    (output files : Files)
    → Distinct (keys_of output)
    → IsCurrent (update false output files).files output
unfolding update
update-writes [] files d = tt
update-writes ((path, text) ∷ output) files d =
    let settled = if is_current files path text || false then files else insert path text files in
    (
      update-elsewhere false output settled path d.0 ∙ settled-lookup files path text,
      update-writes output settled d.1,
    )

update-stale :
    (output files : Files) → IsCurrent files output ↔ ((update true output files).stale ≡ [])
unfolding update
update-stale [] files = (λ h. refl, λ h. tt)
update-stale ((path, text) ∷ output) files =
    let rest = update-stale output files in
    elim (Bool-cases (is_current files path text)) [
      | inl e ↦ rw e (λ h. rest.0 h.1, λ h. (is_current-lookup files path text e, rest.1 h))
      | inr e ↦ rw e (λ h. let now = lookup-is_current files path text h.0 in cc, λ h. cc)
    ]

-- A run with --check changes no file, and its exit code is 0 if and only if every rendered file stands with its text.
pub check-passes_iff :
    (output files : Files)
    → ((update true output files).files ≡ files)
      × ((exit_code true (update true output files) ≡ 0) ↔ IsCurrent files output)
check-passes_iff output files =
    let stale = update-stale output files in
    (
      update-unchanged output files,
      elim (List-cases (update true output files).stale) [
        | inl e ↦ (λ h. stale.1 e, λ h. rw e refl)
        | inr (y, ys, e) ↦ (λ h. ground (arith, h), λ h. let bad = stale.0 h in cc)
      ],
    )

-- What a run leaves under a path: the rendered text, and else what was there.
abbrev pub over : Option String → Option String → Option String
over none old = old
over (some text) old = some text

lookup-absent :
    (output : Files) (path : String)
    → contains (keys_of output) path ≡ false
    → lookup path output ≡ none
lookup-absent [] path h = refl
lookup-absent ((name, text) ∷ output) path h =
    ground (arith, lookup-absent output path (ground arith))

settled-elsewhere :
    (files : Files) (name text path : String)
    → str_eq path name ≡ false
    → lookup path (if is_current files name text || false then files else insert name text files)
      ≡ lookup path files
settled-elsewhere files name text path h = elim (Bool-cases (is_current files name text)) [
  | inl e ↦ rw e refl
  | inr e ↦ rw e (ground (arith, lookup-insert path name text files))
]

lookup-update :
    (output files : Files) (path : String)
    → Distinct (keys_of output)
    → lookup path (update false output files).files ≡ over (lookup path output) (lookup path files)
unfolding update
lookup-update [] files path d = refl
lookup-update ((name, text) ∷ output) files path d =
    let settled = if is_current files name text || false then files else insert name text files in
    let rest = lookup-update output settled path d.1 in
    elim (Bool-cases (str_eq path name)) [
      | inl e ↦
          rw (e, eq_of-str_eq path name e)
            (update-elsewhere false output settled name d.0 ∙ settled-lookup files name text)
      | inr e ↦
          rw e (rest ∙ ap (over (lookup path output)) (settled-elsewhere files name text path e))
    ]

-- Where no path is rendered twice, a run without --check exits with 0 and leaves under every path the rendered text if there is one and else what was there; a run with --check after it finds nothing stale, changes nothing and exits with 0.
pub update-then_check :
    (output files : Files) (path : String)
    → Distinct (keys_of output)
    → let first = update false output files in
      (exit_code false first ≡ 0)
      × (lookup path first.files ≡ over (lookup path output) (lookup path files))
      × (update true output first.files ≡ record { stale = []; files = first.files })
      × (exit_code true (update true output first.files) ≡ 0)
update-then_check output files path d =
    let first = update false output files in
    let current = update-writes output files d in
    (
      ground arith,
      lookup-update output files path d,
      λ i. record {
        stale = (update-stale output first.files).0 current i;
        files = update-unchanged output first.files i;
      },
      (check-passes_iff output first.files).1.1 current,
    )
