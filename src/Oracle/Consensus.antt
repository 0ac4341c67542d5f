-- ===== src/Oracle/Consensus.antt =====
-- `build_consensus` of utils/oracle_validation.py.
pub mod Sound
use Prim.Native.Nat.{Ordering, compare}
use xemu_perf_tests.Base.{
  ℕ, ltb, Bool, true, false, not, ◌&&◌, ◌||◌, String, ◌<>◌, Option, none, some, List, [], ◌∷◌,
  length, if◌then◌else◌,
}
use xemu_perf_tests.Base.Int.{ℤ, pos, negsuc}
use xemu_perf_tests.Base.Result.{
  Result, ok, err, invalid, nondeterminism, crash, guard, ◌>>=◌, ◌>>◌,
}
use xemu_perf_tests.Json.{Json, null, int, str, arr, obj, Fields, end, field, get_null, of_elems}
use xemu_perf_tests.Json.Equality.{py_eq}
use xemu_perf_tests.Json.Keys.{text_lt}
use xemu_perf_tests.Oracle.Canonical.{Platform, json_sha256}
use xemu_perf_tests.Oracle.Record.{is_null}
use xemu_perf_tests.Oracle.Contract.{join}
use xemu_perf_tests.Oracle.Shape.{validate_report_shape}
use xemu_perf_tests.Oracle.View.{comparison_records}
use xemu_perf_tests.Oracle.Difference.{first_difference}

abbrev pub is_in : List Json → Json → Bool
is_in [] v = false
is_in (w ∷ ws) v = py_eq v w || is_in ws v

-- The values of a set comprehension, each once.
abbrev pub once : List Json → List Json
once [] = []
once (v ∷ vs) = let rest = once vs in if is_in rest v then rest else v ∷ rest

-- `a < b`, for values that Python can order: texts, or integers.
abbrev value_lt : Json → Json → Result Bool
value_lt (str s) (str t) = ok (text_lt s t)
value_lt (int (pos m)) (int (pos n)) = ok (ltb m n)
value_lt (int (negsuc m)) (int (negsuc n)) = ok (ltb n m)
value_lt (int (pos m)) (int (negsuc n)) = ok false
value_lt (int (negsuc m)) (int (pos n)) = ok true
value_lt v w = err (crash "TypeError: '<' not supported")

unfoldable pub insert_value : Json → List Json → Result (List Json)
insert_value v [] = ok (v ∷ [])
insert_value v (w ∷ ws) = do
  before ← value_lt w v
  rest ← insert_value v ws
  ok (if before then w ∷ rest else v ∷ w ∷ ws)

-- `sorted(set)`
unfoldable pub sorted_values : List Json → Result (List Json)
unfolding insert_value
sorted_values [] = ok []
sorted_values (v ∷ vs) = do ws ← sorted_values vs; insert_value v ws

abbrev pub report_ids : List Fields → List Json
report_ids [] = []
report_ids (r ∷ rs) = get_null "report_id" r ∷ report_ids rs

-- The second loop: each report has a comparison view, with no failed internal oracle.
unfoldable pub check_views : List Fields → Result (Unit {0})
check_views [] = ok tt
check_views (r ∷ rs) = do _ ← comparison_records (get_null "records" r); check_views rs

-- `if difference: raise`, over the views of two reports.
unfoldable pub no_difference : Option String → Result (Unit {0})
no_difference none = ok tt
no_difference (some path) = err (nondeterminism ("same-backend reports disagree on " <> path))

unfoldable pub agree_on : String → String → Fields → Fields → Result (Unit {0})
agree_on who name first report =
    guard (py_eq (get_null name report) (get_null name first))
      (invalid (who <> (" disagree on " <> name)))

-- The fields of a report against those of the first one.
unfoldable pub agrees : Fields → Fields → Result (Unit {0})
unfolding no_difference agree_on
agrees first report = do
  agree_on "consensus reports" "source_backend" first report
  agree_on "consensus reports" "guest_image_sha256" first report
  agree_on "consensus reports" "job_sha256" first report
  expected ← comparison_records (get_null "records" first)
  actual ← comparison_records (get_null "records" report)
  no_difference (first_difference expected actual "records")

unfoldable pub all_agree : Fields → List Fields → Result (Unit {0})
unfolding agrees
all_agree first [] = ok tt
all_agree first (r ∷ rs) = do agrees first r; all_agree first rs

abbrev pub consensus_stable : Json → Json → Json → Json → Json → Json → Fields
consensus_stable backend guest job records count ids = field "schema_version" (int (pos 1)) (
    field "kind" (str "xemu_functional_hash_oracle") (
      field "oracle_provenance" (str "REGRESSION_CONSENSUS") (
        field "source_backend" backend (
          field "guest_image_sha256" guest (
            field "job_sha256" job (
              field "records" records
                (field "consensus_report_count" count (field "consensus_report_ids" ids end))))))))

module _ (p : Platform) where
  -- The first loop.
  unfoldable pub check_reports : List Fields → Result (Unit {0})
  check_reports [] = ok tt
  check_reports (r ∷ rs) = do
    validate_report_shape p r
    guard (py_eq (get_null "source_type" r) (str "XEMU"))
        (invalid "REGRESSION_CONSENSUS accepts only xemu reports")
    guard (is_null (get_null "oracle_provenance" r))
        (invalid "consensus inputs must be raw observations")
    check_reports rs

  abbrev pub manifest_of : Fields → List Json → List Json → Fields
  manifest_of first ids sorted_ids =
      let stable =
        consensus_stable (get_null "source_backend" first) (get_null "guest_image_sha256" first)
          (get_null "job_sha256" first) (get_null "records" first) (int (pos (length ids)))
          (arr (of_elems sorted_ids)) in
      join stable (field "oracle_id" (str (json_sha256 p (obj stable))) end)

  unfoldable pub build_consensus : List Fields → Result Fields
  unfolding check_reports check_views all_agree sorted_values
  build_consensus (first ∷ second ∷ more) = do
    check_reports (first ∷ second ∷ more)
    let ids = once (report_ids (first ∷ second ∷ more))
    guard (ltb 1 (length ids)) (invalid "REGRESSION_CONSENSUS requires two distinct reports")
    check_views (first ∷ second ∷ more)
    all_agree first (second ∷ more)
    sorted_ids ← sorted_values ids
    ok (manifest_of first ids sorted_ids)
  build_consensus reports = err (invalid "REGRESSION_CONSENSUS requires at least two reports")
