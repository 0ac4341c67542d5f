-- ===== src/Oracle/Revalidate.antt =====
-- `main` of utils/revalidate_oracles.py on reports that were read, and `load_report` of
-- utils/oracle_validation.py.
pub mod Passed
use xemu_perf_tests.Base.{
  ℕ, Bool, true, false, not, ◌&&◌, String, str_eq, List, [], ◌∷◌, ◌++◌, length, if◌then◌else◌,
}
use xemu_perf_tests.Base.Int.{pos}
use xemu_perf_tests.Base.Result.{Result, ok, err, invalid, crash, guard, ◌>>=◌, ◌>>◌}
use xemu_perf_tests.Json.{
  Json, bool, int, str, arr, obj, Items, nil, cons, Fields, end, field, get, get_null, elems,
  of_elems,
}
use xemu_perf_tests.Json.Equality.{py_eq}
use xemu_perf_tests.Oracle.Canonical.{Platform}
use xemu_perf_tests.Oracle.Shape.{validate_report_shape}
use xemu_perf_tests.Oracle.View.{item, comparison_records}
use xemu_perf_tests.Oracle.Consensus.{build_consensus}
use xemu_perf_tests.Oracle.Validate.{validate_against_oracle}
use xemu_perf_tests.Oracle.Ledger.{LedgerFile, load_json}

-- A path on the command line: what the file holds, and its SHA-256 at the start and at the end of the
-- run. Another program may write the file in between.
pub record Input : Type 0 where
  pub before : String
  pub file : LedgerFile
  pub after : String

-- `load_report` of utils/oracle_validation.py
unfoldable pub load_report : Platform → LedgerFile → Result Fields
unfolding load_json
load_report p file = do value ← load_json file; validate_report_shape p value; ok value

unfoldable pub load_reports : Platform → List Input → Result (List Fields)
unfolding load_report
load_reports p [] = ok []
load_reports p (i ∷ inputs) = do
  report ← load_report p i.file
  reports ← load_reports p inputs
  ok (report ∷ reports)

-- The list of outcomes.
unfoldable pub validate_all : Platform → List Fields → Fields → Result (List Fields)
validate_all p [] consensus = ok []
validate_all p (report ∷ reports) consensus = do
  outcome ← validate_against_oracle p report consensus
  outcomes ← validate_all p reports consensus
  ok (outcome ∷ outcomes)

-- `v[key]`
abbrev pub part : String → Json → Result Json
part key (obj fs) = item key (get key fs)
part key v = err (crash "TypeError: indices must be integers")

-- What is noted of a record that the comparison does not see as it is.
unfoldable pub change_of : Json → Result Json
unfolding item
change_of raw = do
  test_id ← part "test_id" raw
  internal ← part "internal_oracle" raw
  count ← part "failure_count" internal
  policy ← part "comparison_policy" raw
  reason ← part "reason" policy
  ok (
      obj (
        field "test_id" test_id (
          field "comparison_only_exclusion" (str "internal_oracle.failure_count")
            (field "retained_raw_value" count (field "reason" reason end)))))

-- The loop over the records and their projections.
unfoldable pub changes_of : List Json → List Json → Result (List Json)
unfolding change_of py_eq
changes_of (raw ∷ raws) (projected ∷ views) = do
  let same = py_eq raw projected
  here ← if same then ok [] else (change_of raw >>= λ c. ok (c ∷ []))
  rest ← changes_of raws views
  ok (here ++ rest)
changes_of raws views = ok []

abbrev list_of : Json → Result (List Json)
list_of (arr vs) = ok (elems vs)
list_of v = err (crash "TypeError: object is no list")

-- An element of `audit`.
unfoldable pub audit_of : Fields → String → Result Json
unfolding item changes_of
audit_of report digest = do
  records ← item "records" (get "records" report)
  views ← comparison_records records
  raws ← list_of records
  projected ← list_of views
  changes ← changes_of raws projected
  report_id ← item "report_id" (get "report_id" report)
  ok (
      obj (
        field "report_id" report_id (
          field "file_sha256" (str digest) (
            field "record_count" (int (pos (length raws)))
              (field "exclusions" (arr (of_elems changes)) end)))))

unfoldable pub audit_all : List Fields → List Input → Result (List Json)
unfolding audit_of
audit_all (report ∷ reports) (i ∷ inputs) = do
  entry ← audit_of report i.before
  rest ← audit_all reports inputs
  ok (entry ∷ rest)
audit_all reports inputs = ok []

-- `before == [oracle.file_sha256(path) for path in paths]`
abbrev pub are_unchanged : List Input → Bool
are_unchanged [] = true
are_unchanged (i ∷ inputs) = str_eq i.before i.after && are_unchanged inputs

-- The two files that are written.
pub record Evidence : Type 0 where
  pub consensus : Fields
  pub revalidation : Fields

abbrev dicts : List Fields → Items
dicts [] = nil
dicts (fs ∷ more) = cons (obj fs) (dicts more)

abbrev pub revalidation_of : Json → String → Json → List Json → List Fields → Fields
revalidation_of backend validator guest audit outcomes = field "status" (str "PASSED") (
    field "backend" backend (
      field "validator_sha256" (str validator) (
        field "guest_image_sha256" guest (
          field "inputs_unchanged" (bool true) (
            field "inputs" (arr (of_elems audit)) (
              field "candidates" (arr (dicts outcomes)) (
                field "scope"
                  (str "Offline output comparison only; no new runtime/performance qualification.")
                  end)))))))

abbrev pub first_of : String → List Fields → Result Json
first_of key [] = err (crash "IndexError: list index out of range")
first_of key (report ∷ reports) = item key (get key report)

-- `validator` is the SHA-256 of utils/oracle_validation.py.
unfoldable pub revalidate : Platform → String → Bool → List Input → List Input → Result Evidence
unfolding load_reports validate_all audit_all item
revalidate p validator output_exists baseline_paths candidate_paths = do
  guard (not output_exists) (invalid "output already exists; choose a new directory")
  baseline ← load_reports p baseline_paths
  candidate ← load_reports p candidate_paths
  consensus ← build_consensus p baseline
  outcomes ← validate_all p candidate consensus
  audit ← audit_all (baseline ++ candidate) (baseline_paths ++ candidate_paths)
  guard (are_unchanged (baseline_paths ++ candidate_paths))
      (invalid "an input changed during revalidation")
  backend ← first_of "source_backend" baseline
  guest ← first_of "guest_image_sha256" baseline
  ok (record {
    consensus = consensus;
    revalidation = revalidation_of backend validator guest audit outcomes;
  })
