-- ===== src/Package/Manifest/Generated.antt =====
-- The catalog that utils/test_catalog.py generates, in `manifest` of utils/package_runner_suite.py.
use xemu_perf_tests.Base.{
  ◌<>◌, ◌&&◌, inl, inr, Bool, true, false, not, String, List, [], ◌≡◌, refl, string_dec, length,
  leb, is_empty, ◌==◌,
}
use xemu_perf_tests.Base.Text.{after_prefix-append}
use xemu_perf_tests.Base.Result.{Result, ok, err, Result-cases}
use xemu_perf_tests.Json.{Json, arr, obj, Fields}
use xemu_perf_tests.Oracle.Canonical.{Platform, canonical_json, json_sha256}
use xemu_perf_tests.Package.Iso.{Bytes}
use xemu_perf_tests.Package.Catalog.{Test, is_hash, is_catalog_id}
use xemu_perf_tests.Package.Manifest.{
  Library, manifest, read_kinds, read_catalog, place_all, atomic_groups, empty_partitions,
  Partitions,
}
use xemu_perf_tests.Package.Manifest.Partition.{Made, manifest-Made}
use xemu_perf_tests.Package.Category.{categories}
use xemu_perf_tests.Catalog.Entries.{entries}
use xemu_perf_tests.Catalog.Document.{catalog, identity, documents, children_of}

abbrev is_ok {ℓ} : {A : Type ℓ} → Result A → Bool
is_ok (err e) = false
is_ok (ok a) = true

abbrev kinds_ok : Result (List Test × List Test) → Bool
kinds_ok (err e) = false
kinds_ok (ok kinds) =
    is_ok (place_all kinds.0 (empty_partitions categories)) && is_ok (atomic_groups kinds.1)

module _ (p : Platform) where
  kinds_read : kinds_ok (read_kinds (catalog p entries)) ≡ true
  unfolding read_kinds place_all atomic_groups catalog entries string_dec
      xemu_perf_tests.Catalog.Entry.staged xemu_perf_tests.Base.Numerals.decimal
      xemu_perf_tests.Json.Equality.py_eq
  kinds_read = refl

abbrev RunsThrough : Result (List Test × List Test) → Type 0
RunsThrough call =
    (kinds : List Test × List Test) × (ps : Partitions) × (atomic : List Json) × (call ≡ ok kinds)
    × (place_all kinds.0 (empty_partitions categories) ≡ ok ps)
    × (atomic_groups kinds.1 ≡ ok atomic)

through : (call : Result (List Test × List Test)) → kinds_ok call ≡ true → RunsThrough call
through (err e) h = cc
through (ok kinds) h = elim (Result-cases (place_all kinds.0 (empty_partitions categories))) [
  | inl (ps, e2) ↦ elim (Result-cases (atomic_groups kinds.1)) [
    | inl (atomic, e3) ↦ (kinds, ps, atomic, refl, e2, e3)
    | inr (raised, e3) ↦ let bad : false ≡ true = rw (e2, e3) at h in cc
  ]
  | inr (raised, e2) ↦ let bad : false ≡ true = rw e2 at h in cc
]

identified : (s : String) → is_hash 64 s ≡ true → is_catalog_id ("sha256:" <> s) ≡ true
identified s h = rw (after_prefix-append "sha256:" s) h

module _ (p : Platform) where
  catalog_read :
      (l : Library) (iso bytes : Bytes) (commit : String)
      → ((text : String) → is_hash 64 (p.sha256 text) ≡ true)
      → is_empty iso ≡ false
      → leb (length bytes) 1048576 ≡ true
      → is_hash 40 commit ≡ true
      → l.loads bytes ≡ ok (obj (catalog p entries))
      → (id : String) × (read_catalog l iso bytes commit ≡ ok (catalog p entries, id))
  unfolding read_catalog catalog string_dec xemu_perf_tests.Json.Equality.py_eq
      xemu_perf_tests.Base.Text.after_prefix json_sha256
  catalog_read l iso bytes commit hex image size commit_hex read =
      let tests = documents (children_of entries) entries in
      let known : is_catalog_id (identity p tests) ≡ true =
        identified (json_sha256 p (arr tests)) (hex (canonical_json p (arr tests))) in
      (identity p tests, rw (image, size, commit_hex, read, known) refl)

  -- Where SHA-256 yields 64 hexadecimal digits, the image is not empty, the catalog has at most 1 MiB, the commit has 40 hexadecimal digits and the bytes of the catalog read as the generated document, `manifest` returns: every test is in a category, the counts fit, and what is returned is made as `Made` says.
  pub generated_catalog-manifest :
      (l : Library) (iso bytes : Bytes) (commit : String)
      → ((text : String) → is_hash 64 (p.sha256 text) ≡ true)
      → is_empty iso ≡ false
      → leb (length bytes) 1048576 ≡ true
      → is_hash 40 commit ≡ true
      → l.loads bytes ≡ ok (obj (catalog p entries))
      → (m : Fields) × (manifest l iso bytes commit ≡ ok m) × Made l iso bytes commit m
  unfolding manifest
  generated_catalog-manifest l iso bytes commit hex image size commit_hex read =
      let (kinds, ps, atomic, e1, e2, e3) =
        through (read_kinds (catalog p entries)) (kinds_read p) in
      let (m, e) : (m : Fields) × (manifest l iso bytes commit ≡ ok m) =
        let (id, e0) = catalog_read l iso bytes commit hex image size commit_hex read in
        rw (e0, e1, e2, e3) (_, refl) in
      (m, e, manifest-Made l iso bytes commit m e)
