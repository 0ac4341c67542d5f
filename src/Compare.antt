-- ===== src/Compare.antt =====
-- utils/hash_compare.py: the hashes of a baseline run against those of candidate runs. A run is the
-- path it was read from and the value in the file; the path names it in the report only.
pub mod Records
pub mod Rows
pub mod Checks
pub mod Counts
pub mod Pass
use xemu_perf_tests.Base.{
  ℕ, ◌==◌, Bool, true, false, not, ◌&&◌, ◌||◌, String, ◌<>◌, str_eq, Option, none, some, List, [],
  ◌∷◌, ◌++◌, length, is_empty, if◌then◌else◌,
}
use xemu_perf_tests.Base.Numerals.{decimal}
use xemu_perf_tests.Base.Result.{Result, ok, err, ◌>>=◌}
use xemu_perf_tests.Json.{Json, Fields}
use xemu_perf_tests.Json.Keys.{sorted, sorted_union}
use xemu_perf_tests.Compare.Records.{Python, load_run}
use xemu_perf_tests.Compare.Rows.{
  Check, Row, Progress, minus, row_of, progress_all, checked_of, is_match,
}

pub record Comparison : Type 0 where
  pub candidate : String
  pub verdict : String
  pub checked_hashes : ℕ
  pub mismatched_hashes : ℕ
  pub missing_records : List String
  pub extra_records : List String
  pub records : List Row

abbrev pub verdict_of : ℕ → ℕ → List String → List String → String
verdict_of checked mismatched missing extra =
    if checked == 0
    then "UNVERIFIED"
    else if not (is_empty missing) || not (is_empty extra) || not (mismatched == 0)
    then "FAIL"
    else "PASS"

pub record Report : Type 0 where
  pub baseline : String
  pub verdict : String
  pub comparisons : List Comparison

abbrev all_pass : List Comparison → Bool
all_pass [] = true
all_pass (c ∷ cs) = str_eq c.verdict "PASS" && all_pass cs

module _ (p : Python) where
  -- One round of the loop over the candidates.
  unfoldable pub compare_run : Fields → String → Fields → Comparison
  unfolding progress_all
  compare_run baseline source candidate =
      let done =
        progress_all p baseline candidate (sorted_union baseline candidate)
          (record { rows = []; checked = 0; mismatched = 0 }) in
      let missing = sorted (minus baseline candidate) in
      let extra = sorted (minus candidate baseline) in
      record {
        candidate = source;
        verdict = verdict_of done.checked done.mismatched missing extra;
        checked_hashes = done.checked;
        mismatched_hashes = done.mismatched;
        missing_records = missing;
        extra_records = extra;
        records = done.rows;
      }

  unfoldable pub compare_all : Fields → List (String × Json) → Result (List Comparison)
  unfolding compare_run load_run
  compare_all baseline [] = ok []
  compare_all baseline ((source, document) ∷ runs) = do
    candidate ← load_run p document
    rest ← compare_all baseline runs
    ok (compare_run baseline source candidate ∷ rest)

  unfoldable pub compare_runs : String × Json → List (String × Json) → Result Report
  unfolding compare_all load_run
  compare_runs (source, document) runs = do
    baseline ← load_run p document
    comparisons ← compare_all baseline runs
    ok (record {
      baseline = source;
      verdict = if all_pass comparisons then "PASS" else "FAIL";
      comparisons = comparisons;
    })

-- `main`'s exit code, where no output file is asked for.
abbrev pub exit_code : Result Report → ℕ
exit_code (err e) = 2
exit_code (ok report) = if str_eq report.verdict "PASS" then 0 else 1

abbrev mark : Check → String
mark check = if checked_of check then (if is_match check then "1" else "0") else "-"

unfoldable pub render_row : Row → String
render_row row =
    "  "
    <> row.record_id
    <> " framebuffer="
    <> mark row.framebuffer
    <> " work="
    <> mark row.work
    <> " result="
    <> mark row.result

unfoldable pub render_rows : List Row → List String
unfolding render_row
render_rows [] = []
render_rows (row ∷ rows) = render_row row ∷ render_rows rows

unfoldable pub render_run : Comparison → List String
unfolding render_rows decimal
render_run c =
    ("RUN " <> c.candidate) ∷ render_rows c.records
    ++ (("VERDICT "
          <> c.verdict
          <> " checked="
          <> decimal c.checked_hashes
          <> " mismatch="
          <> decimal c.mismatched_hashes
          <> " missing="
          <> decimal (length c.missing_records)
          <> " extra="
          <> decimal (length c.extra_records))
        ∷ [])

unfoldable pub render_runs : List Comparison → List String
unfolding render_run
render_runs [] = []
render_runs (c ∷ cs) = render_run c ++ render_runs cs

-- The lines of `render_human`.
unfoldable pub render_human : Report → List String
unfolding render_runs
render_human report =
    ("BASELINE " <> report.baseline) ∷ render_runs report.comparisons
    ++ (("OVERALL " <> report.verdict) ∷ [])
