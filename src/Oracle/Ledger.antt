-- ===== src/Oracle/Ledger.antt =====
-- `update_determinism_ledger` of utils/oracle_validation.py and its helpers. The ledger's file is
-- read, checked and replaced under one lock, so the state is what the file holds.
pub mod Ids
pub mod Steps
pub mod Updates
pub mod Outcome
pub mod History
pub mod Agreement
use Prim.Native.String.{count}
use xemu_perf_tests.Base.{
  ℕ, ◌-◌, leb, Bool, false, ◌&&◌, String, ◌<>◌, Option, none, some, List, [], ◌∷◌, ◌++◌, length,
  if◌then◌else◌,
}
use xemu_perf_tests.Base.Int.{pos}
use xemu_perf_tests.Base.Text.{contains_text}
use xemu_perf_tests.Base.Result.{
  Result, ok, err, invalid, nondeterminism, crash, guard, ◌>>=◌, ◌>>◌,
}
use xemu_perf_tests.Json.{
  Json, null, int, str, arr, obj, Items, nil, cons, Fields, end, field, get, get_null, has, put,
  size, elems, of_elems,
}
use xemu_perf_tests.Json.Equality.{py_eq}
use xemu_perf_tests.Oracle.Values.{shown}
use xemu_perf_tests.Oracle.Canonical.{Platform, json_sha256}
use xemu_perf_tests.Oracle.RecordShape.{dict}
use xemu_perf_tests.Oracle.Shape.{validate_report_shape}
use xemu_perf_tests.Oracle.View.{get_or, as_dict, is_str, item}
use xemu_perf_tests.Oracle.Consensus.{is_in, sorted_values}
use xemu_perf_tests.Oracle.Manifest.{list_items}

-- No file, a file that cannot be read as JSON, or a JSON value.
pub data LedgerFile : Type 0 where
  missing : LedgerFile
  unreadable : LedgerFile
  holds : Json → LedgerFile

abbrev pub empty_ledger : Fields
empty_ledger = field "schema_version" (int (pos 1)) (field "entries" (obj end) end)

-- `_load_json`
unfoldable pub load_json : LedgerFile → Result Fields
load_json (holds (obj fs)) = ok fs
load_json (holds v) = err (invalid "the ledger must contain a JSON object")
load_json _ = err (invalid "could not read the ledger")

unfoldable pub open_ledger : LedgerFile → Result Fields
unfolding load_json
open_ledger missing = ok empty_ledger
open_ledger file = do
  ledger ← load_json file
  guard (py_eq (get_null "schema_version" ledger) (int (pos 1)))
      (invalid "unsupported determinism ledger")
  ok ledger

unfoldable pub entries_of : Json → Result Fields
entries_of (obj fs) = ok fs
entries_of v = err (invalid "determinism ledger entries must be an object")

-- `_ledger_surface_scale`
unfoldable pub surface_scale : Json → Result ℕ
surface_scale (int (pos n)) = do
  guard (leb 1 n && leb n 4)
      (invalid "determinism ledger surface_scale must be an integer from 1 through 4")
  ok n
surface_scale v =
    err (invalid "determinism ledger surface_scale must be an integer from 1 through 4")

-- The append and the sort, with the new length.
unfoldable pub sorted_with : List Json → Json → Result (Json × ℕ)
sorted_with vs id = do ws ← sorted_values (vs ++ id ∷ []); ok (arr (of_elems ws), length ws)

-- `report["report_id"] in existing["report_ids"]`, the append and the sort, with the new length. A
-- text or a dict has `in` and a length, and no append.
unfoldable pub add_report_id : Json → Json → Result (Json × ℕ)
unfolding sorted_with
add_report_id id (arr vs) =
    if is_in (elems vs) id then ok (arr vs, length (elems vs)) else sorted_with (elems vs) id
add_report_id (str s) (obj fs) =
    if has s fs then ok (obj fs, size fs) else err (crash "AttributeError: 'append'")
add_report_id (str s) (str ids) =
    if contains_text ids s then ok (str ids, count ids) else err (crash "AttributeError: 'append'")
add_report_id id v = err (crash "TypeError: report_ids is no list")

module _ (p : Platform) where
  -- `_ledger_key`
  unfoldable pub ledger_key : Fields → Fields → String
  ledger_key report entry = json_sha256 p (
      obj (
        field "source_backend" (get_null "source_backend" report) (
          field "surface_scale" (get_null "surface_scale" report) (
            field "guest_image_sha256" (get_null "guest_image_sha256" report) (
              field "job_sha256" (get_null "job_sha256" report) (
                field "test_id" (get_null "test_id" entry)
                  (field "contract" (get_null "contract" entry) end)))))))

abbrev pub new_entry : ℕ → Fields → Fields → Fields
new_entry scale report entry = field "source_backend" (get_null "source_backend" report) (
    field "surface_scale" (int (pos scale)) (
      field "guest_image_sha256" (get_null "guest_image_sha256" report) (
        field "job_sha256" (get_null "job_sha256" report) (
          field "test_id" (get_null "test_id" entry) (
            field "contract" (get_null "contract" entry)
              (field "hashes" (get_null "hashes" entry) (field "report_ids" (arr nil) end)))))))

-- The entry under the record's key, if its hashes are the record's; a new one if there is none.
unfoldable pub matching_entry : ℕ → Fields → Fields → Option Json → Result Fields
matching_entry scale report entry none = ok (new_entry scale report entry)
matching_entry scale report entry (some null) = ok (new_entry scale report entry)
matching_entry scale report entry (some v) = do
  existing ← as_dict v
  guard (py_eq (get_null "hashes" existing) (get_null "hashes" entry))
      (nondeterminism ("same-backend nondeterminism for " <> shown (get_null "test_id" entry)))
  ok existing

unfoldable pub observe : Fields → Fields → Result Fields
unfolding add_report_id
observe report existing = do
  ids ← item "report_ids" (get "report_ids" existing)
  (ids', n) ← add_report_id (get_null "report_id" report) ids
  ok (put "observation_count" (int (pos n)) (put "report_ids" ids' existing))

abbrev pub has_failed : Json → Bool
has_failed (obj internal) = is_str "FAIL" (get_null "status" internal)
has_failed v = false

abbrev skip_reason : Fields → Json
skip_reason entry =
    get_or (str "guest internal oracle failed")
      (get "failure_reason" (dict (get_null "internal_oracle" entry)))

-- What the loop over the records carries: the staged entries and the two lists of the summary.
pub record Staged : Type 0 where
  pub entries : Fields
  pub skipped : List Json
  pub excluded : List Json

abbrev exclusion : Fields → Json → List Json
exclusion entry null = []
exclusion entry policy =
    obj (
      field "test_id" (get_null "test_id" entry) (
        field "observations" (get_null "excluded_observations" (dict policy))
          (field "reason" (get_null "reason" (dict policy)) end)))
    ∷ []

module _ (p : Platform) (scale : ℕ) (report : Fields) where
  unfoldable pub stage_checked : Fields → Staged → Result Staged
  unfolding ledger_key matching_entry observe
  stage_checked entry s = do
    let key = ledger_key p report entry
    existing ← matching_entry scale report entry (get key s.entries)
    updated ← observe report existing
    ok (record {
      entries = put key (obj updated) s.entries;
      skipped = s.skipped;
      excluded = s.excluded ++ exclusion entry (get_null "comparison_policy" entry);
    })

  -- One round of the loop.
  unfoldable pub stage : Json → Staged → Result Staged
  unfolding stage_checked
  stage v s =
      if has_failed (get_null "internal_oracle" (dict v))
      then ok (record s {
        skipped =
            s.skipped
            ++ (obj (
                  field "test_id" (get_null "test_id" (dict v))
                    (field "reason" (skip_reason (dict v)) end))
                ∷ []);
      })
      else stage_checked (dict v) s

  unfoldable pub stage_all : Items → Staged → Result Staged
  stage_all nil s = ok s
  stage_all (cons v vs) s = do s' ← stage v s; stage_all vs s'

-- The summary, less the path of the ledger.
pub record Summary : Type 0 where
  pub record_count : ℕ
  pub skipped : List Json
  pub excluded : List Json

module _ (p : Platform) where
  -- The new ledger with the summary.
  unfoldable pub updated_ledger : LedgerFile → Fields → Result (Fields × Summary)
  unfolding stage stage_all open_ledger entries_of surface_scale
  updated_ledger file report = do
    validate_report_shape p report
    guard (py_eq (get_null "source_type" report) (str "XEMU"))
        (invalid "determinism ledger accepts only xemu reports")
    scale ← surface_scale (get_null "surface_scale" report)
    ledger ← open_ledger file
    entries ← entries_of (get_null "entries" ledger)
    let records = list_items (get_null "records" report)
    s ← stage_all p scale report records (record { entries = entries; skipped = []; excluded = [] })
    ok (
      put "entries" (obj s.entries) ledger,
      record {
        record_count = length (elems records) - length s.skipped;
        skipped = s.skipped;
        excluded = s.excluded;
      },
    )

  abbrev finished : LedgerFile → Result (Fields × Summary) → Result Summary × LedgerFile
  finished file (ok (ledger, summary)) = (ok summary, holds (obj ledger))
  finished file (err e) = (err e, file)

  -- The file is replaced whole at the end, so an exception leaves it as it was.
  unfoldable pub update_determinism_ledger : LedgerFile → Fields → Result Summary × LedgerFile
  unfolding updated_ledger
  update_determinism_ledger file report = finished file (updated_ledger file report)
