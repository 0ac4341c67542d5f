-- ===== src/Tests/NoOracle.antt =====
-- A report with a null internal oracle, which is valid and which no oracle accepts.
use xemu_perf_tests.Base.{[], ◌∷◌, ◌++◌, ◌≡◌, refl, some}
use xemu_perf_tests.Base.Result.{Error, ok, err}
use xemu_perf_tests.Json.{Json, null, arr, obj, str, Fields, get, get_null, put, elems, of_elems}
use xemu_perf_tests.Oracle.Canonical.{json_sha256}
use xemu_perf_tests.Oracle.Manifest.{list_items}
use xemu_perf_tests.Oracle.Report.{report_stable, report_identity}
use xemu_perf_tests.Oracle.RecordShape.{dict}
use xemu_perf_tests.Oracle.Shape.{validate_report_shape}
use xemu_perf_tests.Oracle.Validate.{validate_against_oracle}
use xemu_perf_tests.Oracle.Validate.NoOracle.{null_internal_oracle_is_rejected}
use xemu_perf_tests.Tests.Reports.{toy, runs, report}
use xemu_perf_tests.Tests.Oracle.{some_record, other_records, agreed_manifest}

abbrev null_record : Json
null_record = obj (put "internal_oracle" null (dict some_record))

abbrev null_records : Json
null_records = arr (of_elems (null_record ∷ other_records))

abbrev null_functional_id : Json
null_functional_id = str (
    json_sha256 toy (
      obj (
        report_stable null (get_null "source_type" (report "one"))
          (get_null "source_backend" (report "one")) (get_null "guest_image_sha256" (report "one"))
          (get_null "job_sha256" (report "one")) null_records)))

abbrev null_report_id : Json
null_report_id = str (
    json_sha256 toy (
      report_identity null_functional_id (get_null "observation_id" (report "one"))
        (get_null "surface_scale" (report "one")) (get_null "build" (report "one"))
        (get_null "hardware" (report "one"))))

abbrev null_report : Fields
null_report =
    put "functional_id" null_functional_id
      (put "report_id" null_report_id (put "records" null_records (report "one")))

null_report_is_valid : validate_report_shape toy null_report ≡ ok tt
unfolding runs report
null_report_is_valid = refl

null_listed :
    elems (list_items (get_null "records" null_report)) ≡ [] ++ null_record ∷ other_records
unfolding runs report
null_listed = refl

null_found : get "internal_oracle" (dict null_record) ≡ some null
unfolding runs report
null_found = refl

null_internal_oracle_is_rejected_example :
    (e : Error) × (validate_against_oracle toy null_report agreed_manifest ≡ err e)
null_internal_oracle_is_rejected_example =
    null_internal_oracle_is_rejected toy null_report agreed_manifest null_record [] other_records
      null_listed null_found
