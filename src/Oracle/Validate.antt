-- ===== src/Oracle/Validate.antt =====
-- `validate_against_oracle` of utils/oracle_validation.py.
pub mod Accepted
pub mod NoOracle
use xemu_perf_tests.Base.{not, ◌||◌, String, ◌<>◌, str_eq, Option, none, some}
use xemu_perf_tests.Base.Result.{Result, ok, err, invalid, guard, ◌>>=◌, ◌>>◌}
use xemu_perf_tests.Json.{str, Fields, end, field, get_null}
use xemu_perf_tests.Json.Equality.{py_eq}
use xemu_perf_tests.Oracle.Canonical.{Platform}
use xemu_perf_tests.Oracle.Shape.{validate_report_shape}
use xemu_perf_tests.Oracle.View.{comparison_records}
use xemu_perf_tests.Oracle.Difference.{first_difference}
use xemu_perf_tests.Oracle.Manifest.{validate_oracle_shape, provenance_of}

unfoldable pub matches_on : String → Fields → Fields → Result (Unit {0})
matches_on name report oracle =
    guard (py_eq (get_null name oracle) (get_null name report))
      (invalid ("functional oracle mismatch for " <> name))

unfoldable pub no_mismatch : Option String → Result (Unit {0})
no_mismatch none = ok tt
no_mismatch (some path) = err (invalid ("functional oracle mismatch for " <> path))

-- The fields of a report against those of an oracle.
unfoldable pub matches : Fields → Fields → Result (Unit {0})
unfolding matches_on no_mismatch
matches report oracle = do
  matches_on "guest_image_sha256" report oracle
  matches_on "job_sha256" report oracle
  expected ← comparison_records (get_null "records" oracle)
  actual ← comparison_records (get_null "records" report)
  no_mismatch (first_difference expected actual "records")

unfoldable pub validate_against_oracle : Platform → Fields → Fields → Result Fields
unfolding matches
validate_against_oracle p report oracle = do
  validate_report_shape p report
  validate_oracle_shape p oracle
  provenance ← provenance_of (get_null "oracle_provenance" oracle)
  guard
      (not (str_eq provenance "REGRESSION_CONSENSUS")
        || py_eq (get_null "source_backend" oracle) (get_null "source_backend" report))
      (invalid "REGRESSION_CONSENSUS is valid only for its source backend")
  matches report oracle
  ok (
      field "status" (str "PASSED") (
        field "oracle_id" (get_null "oracle_id" oracle)
          (field "oracle_provenance" (str provenance) end)))
