-- ===== src/Package/Output.antt =====
-- What `package` of utils/package_runner_suite.py leaves at the output path.
use mathlib.Core.List.{append_assoc, append-nil}
use xemu_perf_tests.Base.{
  Bool, true, not, ◌||◌, String, Option, none, some, List, [], ◌∷◌, ◌++◌, ◌≡◌, refl, sym, ap, ◌∙◌,
  inl, inr, Bool-cases, arith,
}
use xemu_perf_tests.Base.Result.{
  Result, ok, err, invalid, guard, Result-cases, ok_inj, >>=-eq-ok, >>-eq-ok, guard-eq-ok,
}
use xemu_perf_tests.Json.{Fields}
use xemu_perf_tests.Package.{
  Content, Directory, absent, present, package_files, write_files, publish, returned_catalog,
  Inputs, package_value, write_package,
}
use xemu_perf_tests.Package.Iso.{Bytes, bytes_eq, enough, embedded_catalog}
use xemu_perf_tests.Package.Manifest.{Library}
use xemu_perf_tests.Package.Manifest.Partition.{Made, manifest-Made}

eq_of-bytes_eq : (xs ys : Bytes) → bytes_eq xs ys ≡ true → xs ≡ ys
eq_of-bytes_eq [] [] h = refl
eq_of-bytes_eq [] (y ∷ ys) h = cc
eq_of-bytes_eq (x ∷ xs) [] h = cc
eq_of-bytes_eq (x ∷ xs) (y ∷ ys) h =
    let e : x ≡ y = ground arith in rw (e, eq_of-bytes_eq xs ys (ground arith)) refl

write_files-eq-ok :
    (fails : String → Bool) (files done written : List (String × Content))
    → write_files fails files done ≡ ok written
    → written ≡ done ++ files
unfolding write_files
write_files-eq-ok fails [] done written h = sym (ok_inj h) ∙ sym (append-nil done)
write_files-eq-ok fails ((name, content) ∷ files) done written h = elim (Bool-cases (fails name)) [
  | inl raised ↦ let bad = rw raised at h in cc
  | inr fine ↦
      write_files-eq-ok fails files (done ++ ((name, content) ∷ [])) written (rw fine at h)
      ∙ append_assoc done ((name, content) ∷ []) files
]

-- What a package that was written is.
pub record Package (l : Library) (i : Inputs) (before after : Directory) (value : Fields)
    : Type 0 where
  pub new : before ≡ absent
  pub complete : after ≡ present (package_files i.iso i.catalog value)
  pub embedded : embedded_catalog enough i.iso ≡ some (ok i.catalog)
  pub made : Made l i.iso i.catalog i.source_commit value

abbrev pub Left : Library → Inputs → Directory → Result Fields × Directory → Type 0
Left l i before (err e, after) = after ≡ before
Left l i before (ok value, after) = Package l i before after value

returned_catalog-eq-ok :
    (o : Option (Result Bytes)) (bytes : Bytes)
    → returned_catalog o ≡ ok bytes
    → o ≡ some (ok bytes)
returned_catalog-eq-ok none bytes h = cc
returned_catalog-eq-ok (some r) bytes h = ap some h

publish-Left :
    (l : Library) (fails : String → Bool) (i : Inputs) (before : Directory) (value : Fields)
    → embedded_catalog enough i.iso ≡ some (ok i.catalog)
    → Made l i.iso i.catalog i.source_commit value
    → Left l i before (publish fails i.iso i.catalog value before)
unfolding publish
publish-Left l fails i (present files) value e m = refl
publish-Left l fails i absent value e m =
    elim (Result-cases (write_files fails (package_files i.iso i.catalog value) [])) [
      | inr (x, w) ↦ rw w refl
      | inl (written, w) ↦ rw w (record {
        new = refl;
        complete =
            ap present (write_files-eq-ok fails (package_files i.iso i.catalog value) [] written w);
        embedded = e;
        made = m;
      })
    ]

-- `package` either raises and leaves the output path as it was, also where a write fails halfway, or
-- it returns a manifest and has made a directory, where nothing was, that holds exactly the image,
-- the catalog and that manifest. The catalog is then the one inside the image.
pub write_package-Left :
    (l : Library) (fails : String → Bool) (i : Inputs) (before : Directory)
    → Left l i before (write_package l fails i before)
unfolding write_package
write_package-Left l fails i before = elim (Result-cases (package_value l i)) [
  | inr (x, v) ↦ rw v refl
  | inl (value, v) ↦
      let (g, h1) =
        >>-eq-ok
          (guard (not (i.iso_is_link || i.catalog_is_link))
            (invalid "Package inputs must be regular files, not links."))
          _ v in
      let (found, f, h2) = >>=-eq-ok (returned_catalog (embedded_catalog enough i.iso)) _ h1 in
      let (b, h3) =
        >>-eq-ok
          (guard (bytes_eq found i.catalog)
            (invalid "Selected catalog bytes differ from the ISO embedded catalog."))
          _ h2 in
      let same : found ≡ i.catalog = eq_of-bytes_eq found i.catalog (guard-eq-ok _ _ b) in
      rw v (
        publish-Left l fails i before value (returned_catalog-eq-ok _ i.catalog (rw same at f))
          (manifest-Made l i.iso i.catalog i.source_commit value h3))
]
