-- ===== src/Package.antt =====
-- utils/package_runner_suite.py: the catalog inside the image, the categories and the manifest.
pub mod Iso
pub mod Category
pub mod Catalog
pub mod Manifest
pub mod Output
use xemu_perf_tests.Base.{
  Bool, true, false, not, ◌||◌, String, ◌<>◌, Option, none, some, List, [], ◌∷◌, ◌++◌,
  if◌then◌else◌,
}
use xemu_perf_tests.Base.Result.{Result, ok, err, invalid, crash, guard, ◌>>=◌, ◌>>◌}
use xemu_perf_tests.Json.{Fields}
use xemu_perf_tests.Package.Iso.{Bytes, bytes_eq, enough, embedded_catalog}
use xemu_perf_tests.Package.Manifest.{Library, manifest}

-- What a file of the package holds: bytes, or the text of a dict.
pub data Content : Type 0 where
  raw : Bytes → Content
  dumped : Fields → Content

-- The output path: nothing there, or a directory with its files.
pub data Directory : Type 0 where
  absent : Directory
  present : List (String × Content) → Directory

abbrev pub package_files : Bytes → Bytes → Fields → List (String × Content)
package_files iso catalog value =
    ("suite.iso", raw iso) ∷ ("catalog.json", raw catalog) ∷ ("suite.json", dumped value) ∷ []

-- The writes into the new directory, of which some may raise.
unfoldable pub write_files :
    (String → Bool)
    → List (String × Content)
    → List (String × Content)
    → Result (List (String × Content))
write_files fails [] done = ok done
write_files fails ((name, content) ∷ files) done =
    let rest = write_files fails files (done ++ ((name, content) ∷ [])) in
    if fails name then err (crash "OSError") else rest

-- `mkdir` raises where something is there; a write that raises removes the directory.
abbrev pub settled : Fields → Result (List (String × Content)) → Result Fields × Directory
settled value (ok files) = (ok value, present files)
settled value (err e) = (err e, absent)

unfoldable pub publish :
    (String → Bool) → Bytes → Bytes → Fields → Directory → Result Fields × Directory
unfolding write_files
publish fails iso catalog value (present files) = (err (crash "FileExistsError"), present files)
publish fails iso catalog value absent =
    settled value (write_files fails (package_files iso catalog value) [])

abbrev pub returned_catalog : Option (Result Bytes) → Result Bytes
returned_catalog none = err (crash "the loop goes on")
returned_catalog (some r) = r

-- The inputs of `package`: whether each path is a link, and the bytes.
pub record Inputs : Type 0 where
  pub iso_is_link : Bool
  pub catalog_is_link : Bool
  pub iso : Bytes
  pub catalog : Bytes
  pub source_commit : String

abbrev pub published :
    (Fields → Directory → Result Fields × Directory)
    → Directory
    → Result Fields
    → Result Fields × Directory
published out directory (ok value) = out value directory
published out directory (err e) = (err e, directory)

module _ (l : Library) where
  unfoldable pub package_value : Inputs → Result Fields
  unfolding embedded_catalog manifest
  package_value i = do
    guard (not (i.iso_is_link || i.catalog_is_link))
        (invalid "Package inputs must be regular files, not links.")
    found ← returned_catalog (embedded_catalog enough i.iso)
    guard (bytes_eq found i.catalog)
        (invalid "Selected catalog bytes differ from the ISO embedded catalog.")
    manifest l i.iso i.catalog i.source_commit

  -- `package`
  unfoldable pub write_package : (String → Bool) → Inputs → Directory → Result Fields × Directory
  unfolding package_value publish
  write_package fails i directory =
      published (publish fails i.iso i.catalog) directory (package_value i)
