-- ===== src/Tests/Manifest.antt =====
-- The theorems on the manifest and the output of utils/package_runner_suite.py at a small catalog.
use xemu_perf_tests.Base.{String, [], ◌∷◌, false, ◌≡◌, refl, string_dec}
use xemu_perf_tests.Base.Int.{pos}
use xemu_perf_tests.Base.Result.{Result, ok, err}
use xemu_perf_tests.Json.{Json, int, str, arr, obj, nil, cons, Fields, end, field}
use xemu_perf_tests.Package.{Inputs, absent, write_package}
use xemu_perf_tests.Package.Manifest.{Library, manifest}
use xemu_perf_tests.Package.Manifest.Partition.{Made, manifest-Made}
use xemu_perf_tests.Tests.Package.{image, found}
use xemu_perf_tests.Package.Output.{Left, write_package-Left}

abbrev test : String → String → String → Json
test kind id suite =
    obj (field "kind" (str kind) (field "id" (str id) (field "suite_id" (str suite) end)))

abbrev catalog : Json
catalog = obj (
    field "schema_version" (int (pos 1)) (
      field "catalog_id"
        (str "sha256:0123456789abcdef0123456789abcdef0123456789abcdef0123456789abcdef")
        (field "tests"
          (arr (
            cons (test "leaf" "surface.fill" "Surface") (
              cons (test "leaf" "cpu.add" "cpu_float")
                (cons (test "group" "all" "cpu_float") nil))))
          (field "leaf_count" (int (pos 2)) (field "group_count" (int (pos 1)) end)))))

abbrev library : Library
library = record { sha256 = λ bytes. "00"; loads = λ bytes. ok catalog }

abbrev commit : String
commit = "0123456789012345678901234567890123456789"

abbrev value_of : Result Fields → Fields
value_of (ok fs) = fs
value_of (err e) = end

small_manifest : Fields
unfolding manifest string_dec
small_manifest = value_of (manifest library (1 ∷ []) [] commit)

manifest_made : manifest library (1 ∷ []) [] commit ≡ ok small_manifest
unfolding small_manifest
manifest_made = refl

manifest-Made_example : Made library (1 ∷ []) [] commit small_manifest
manifest-Made_example = manifest-Made library (1 ∷ []) [] commit small_manifest manifest_made

abbrev inputs : Inputs
inputs = record {
  iso_is_link = false;
  catalog_is_link = false;
  iso = image;
  catalog = found;
  source_commit = commit;
}

write_package-Left_example :
    Left library inputs absent (write_package library (λ name. false) inputs absent)
write_package-Left_example = write_package-Left library (λ name. false) inputs absent
