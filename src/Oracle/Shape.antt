-- ===== src/Oracle/Shape.antt =====
-- `_validate_normalized_records` and `_validate_report_shape` of utils/oracle_validation.py.
pub mod Valid
use xemu_perf_tests.Base.{Bool, not, ◌&&◌, String, ◌<>◌, str_eq, List, [], ◌∷◌, contains}
use xemu_perf_tests.Base.Int.{pos}
use xemu_perf_tests.Base.Result.{Result, ok, err, invalid, guard, ◌>>=◌, ◌>>◌}
use xemu_perf_tests.Json.{Json, null, int, str, arr, obj, Items, nil, cons, Fields, get_null}
use xemu_perf_tests.Json.Equality.{py_eq}
use xemu_perf_tests.Oracle.Values.{hash, text}
use xemu_perf_tests.Oracle.Canonical.{Platform, json_sha256}
use xemu_perf_tests.Oracle.Record.{is_null}
use xemu_perf_tests.Oracle.Report.{source_types, one_of, report_stable, report_identity, identity}
use xemu_perf_tests.Oracle.RecordShape.{
  is_dict, dict, check_contract, excluded_of, check_policy, check_hashes, check_internal,
}

module _ (p : Platform) where
  -- One round of the loop: the identities that were seen, with this record's.
  unfoldable pub validate_record : List String → Json → Result (List String)
  unfolding check_contract check_policy check_hashes check_internal
  validate_record seen (obj entry) = do
    test_id ← text (get_null "test_id" entry) "functional report record test_id is required"
    let contract = get_null "contract" entry
    let hashes = get_null "hashes" entry
    guard (is_dict contract && is_dict hashes)
        (invalid (test_id <> " contract and hashes are required"))
    check_contract test_id (dict contract)
    guard (not (contains seen (identity p (str test_id) contract)))
        (invalid "functional report contains a duplicate result record")
    check_policy test_id (get_null "comparison_policy" entry)
    check_hashes test_id (excluded_of (get_null "comparison_policy" entry)) (dict hashes)
    check_internal test_id (get_null "internal_oracle" entry)
    ok (identity p (str test_id) contract ∷ seen)
  validate_record seen v = err (invalid "functional report record must be an object")

  unfoldable pub validate_records : List String → Items → Result (Unit {0})
  validate_records seen nil = ok tt
  validate_records seen (cons v vs) = do more ← validate_record seen v; validate_records more vs

  unfoldable pub validate_normalized_records : Json → Result (Unit {0})
  unfolding validate_record validate_records
  validate_normalized_records (arr (cons v vs)) = validate_records [] (cons v vs)
  validate_normalized_records v = err (invalid "functional hash data has no records")

  abbrev pub is_version_one : Fields → Bool
  is_version_one fs = py_eq (get_null "schema_version" fs) (int (pos 1))

  unfoldable pub validate_report_shape : Fields → Result (Unit {0})
  unfolding validate_normalized_records one_of
  validate_report_shape report = do
    guard
        (is_version_one report
          && py_eq (get_null "kind" report) (str "xemu_functional_hash_report"))
        (invalid "unsupported functional hash report")
    guest ← hash (get_null "guest_image_sha256" report) "guest_image_sha256" (64 ∷ [])
    job ← hash (get_null "job_sha256" report) "job_sha256" (64 ∷ [])
    report_id ← hash (get_null "report_id" report) "report_id" (64 ∷ [])
    functional_id ← hash (get_null "functional_id" report) "functional_id" (64 ∷ [])
    observation ←
        text (get_null "observation_id" report) "functional report observation_id is required"
    source_type ←
        one_of source_types (get_null "source_type" report)
          "functional report source_type is invalid"
    backend ← text (get_null "source_backend" report) "functional report source_backend is required"
    guard (is_null (get_null "oracle_provenance" report))
        (invalid "raw functional report cannot declare oracle provenance")
    let records = get_null "records" report
    validate_normalized_records records
    let stable = report_stable null (str source_type) (str backend) (str guest) (str job) records
    guard (str_eq functional_id (json_sha256 p (obj stable)))
        (invalid "functional report functional_id does not match content")
    guard
        (str_eq report_id (
          json_sha256 p (
            report_identity (str functional_id) (str observation) (get_null "surface_scale" report)
              (get_null "build" report) (get_null "hardware" report))))
        (invalid "functional report report_id does not match content")
