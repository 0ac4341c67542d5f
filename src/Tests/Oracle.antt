-- ===== src/Tests/Oracle.antt =====
-- Runs of the oracle tools, and their theorems at concrete inputs.
use xemu_perf_tests.Base.{
  String, str_eq_self, List, true, false, sym, ap, ◌∙◌, inl, inr, [], ◌∷◌, ◌≡◌, refl, ◌↔◌, none,
  some, string_dec,
}
use xemu_perf_tests.Base.Int.{pos}
use xemu_perf_tests.Base.Numerals.{decimal}
use xemu_perf_tests.Base.Result.{Error, Result, ok, err}
use xemu_perf_tests.Json.{
  elems, get, get_null, Json, null, int, str, arr, obj, nil, cons, Fields, end, field,
}
use xemu_perf_tests.Json.Keys.{sorted_union}
use xemu_perf_tests.Oracle.Values.{hash}
use xemu_perf_tests.Oracle.Values.Laws.{hash_idem}
use xemu_perf_tests.Oracle.Difference.{first_difference}
use xemu_perf_tests.Oracle.Difference.Same.{Same}
use xemu_perf_tests.Oracle.Difference.Complete.{first_difference-eq-none_iff}
use xemu_perf_tests.Oracle.Consensus.{build_consensus}
use xemu_perf_tests.Oracle.Consensus.Sound.{Consensus, build_consensus_sound}
use xemu_perf_tests.Oracle.Ledger.{
  holds, open_ledger, entries_of, ledger_key, has_failed, LedgerFile, missing, Summary,
  update_determinism_ledger,
}
use xemu_perf_tests.Oracle.Ledger.Outcome.{
  contradicting_report_is_rejected, Outcome, update_determinism_ledger_sound,
}
use xemu_perf_tests.Oracle.Ledger.Steps.{SameHashes}
use xemu_perf_tests.Oracle.RecordShape.{dict}
use xemu_perf_tests.Oracle.Validate.{validate_against_oracle}
use xemu_perf_tests.Oracle.Validate.Accepted.{Accepted, verdict, validate_against_oracle-eq-ok_iff}
use xemu_perf_tests.Oracle.Manifest.{list_items, validate_oracle_shape}
use xemu_perf_tests.Json.Equality.{py_eq}
use xemu_perf_tests.Tests.Reports.{toy, runs, report, value_of}

abbrev left : Json
left = obj (field "a" (int (pos 1)) (field "b" (arr (cons (str "x") (cons null nil))) end))

abbrev right : Json
right = obj (field "b" (arr (cons (str "x") (cons (str "y") nil))) (field "a" (int (pos 1)) end))

difference_found : first_difference left right "records" ≡ some "records.b[1]"
unfolding first_difference sorted_union string_dec decimal
difference_found = refl

first_difference-eq-none_iff_example :
    (first_difference left right "records" ≡ none) ↔ Same left right
first_difference-eq-none_iff_example = first_difference-eq-none_iff left right "records"

hash_read : hash (str " 0x0000ABCD ") "work" (8 ∷ []) ≡ ok "0000abcd"
unfolding runs
hash_read = refl

hash_idem_example : hash (str "0000abcd") "again" (8 ∷ []) ≡ ok "0000abcd"
hash_idem_example = hash_idem (str " 0x0000ABCD ") "work" "again" 7 hash_read

pub agreed_manifest : Fields
unfolding runs report build_consensus
agreed_manifest = value_of (build_consensus toy (report "one" ∷ report "two" ∷ []))

consensus_made : build_consensus toy (report "one" ∷ report "two" ∷ []) ≡ ok agreed_manifest
unfolding agreed_manifest first_difference
consensus_made = refl

build_consensus_sound_example : Consensus toy (report "one" ∷ report "two" ∷ []) agreed_manifest
build_consensus_sound_example =
    build_consensus_sound toy (report "one" ∷ report "two" ∷ []) agreed_manifest consensus_made

abbrev written : Result Summary × LedgerFile → LedgerFile
written (r, file) = file

ledger_written : LedgerFile
unfolding runs report update_determinism_ledger
ledger_written = written (update_determinism_ledger toy missing (report "one"))

update_determinism_ledger_sound_example :
    Outcome toy ledger_written
      (report "two")
      (update_determinism_ledger toy ledger_written (report "two"))
update_determinism_ledger_sound_example =
    update_determinism_ledger_sound toy ledger_written (report "two")

abbrev first_of : List Json → Json
first_of [] = null
first_of (v ∷ vs) = v

abbrev rest_of : List Json → List Json
rest_of [] = []
rest_of (v ∷ vs) = vs

abbrev pub some_record : Json
some_record = first_of (elems (list_items (get_null "records" (report "one"))))

abbrev pub other_records : List Json
other_records = rest_of (elems (list_items (get_null "records" (report "one"))))

-- A ledger whose entry for the first record has no hashes.
abbrev pub bare_entry : Fields
bare_entry = field "hashes" (obj end) (field "report_ids" (arr nil) end)

abbrev pub bare_entries : Fields
bare_entries = field (ledger_key toy (report "one") (dict some_record)) (obj bare_entry) end

abbrev pub bare_ledger : Fields
bare_ledger = field "schema_version" (int (pos 1)) (field "entries" (obj bare_entries) end)

pub bare_opened : open_ledger (holds (obj bare_ledger)) ≡ ok bare_ledger
unfolding open_ledger py_eq string_dec
bare_opened = refl

pub bare_read : entries_of (get_null "entries" bare_ledger) ≡ ok bare_entries
unfolding entries_of string_dec
bare_read = refl

pub records_listed :
    elems (list_items (get_null "records" (report "one"))) ≡ some_record ∷ other_records
unfolding runs report
records_listed = refl

pub some_passed : has_failed (get_null "internal_oracle" (dict some_record)) ≡ false
unfolding runs report
some_passed = refl

pub bare_there :
    get (ledger_key toy (report "one") (dict some_record)) bare_entries ≡ some (obj bare_entry)
bare_there = rw (str_eq_self (ledger_key toy (report "one") (dict some_record))) refl

hashes_self : py_eq (obj end) (obj end) ≡ true
unfolding py_eq
hashes_self = refl

hashes_differ : py_eq (obj end) (get_null "hashes" (dict some_record)) ≡ false
unfolding runs report
hashes_differ = refl

bare_contradicted : ¬ SameHashes bare_entry (dict some_record)
unfolding string_dec
bare_contradicted (inl e) =
    let b : true ≡ false = sym hashes_self ∙ ap (py_eq (obj end)) e ∙ hashes_differ in cc
bare_contradicted (inr e) = let b : true ≡ false = sym e ∙ hashes_differ in cc

contradicting_report_is_rejected_example :
    (e : Error) × (update_determinism_ledger toy (holds (obj bare_ledger)) (report "one")
      ≡ (err e, holds (obj bare_ledger)))
contradicting_report_is_rejected_example =
    contradicting_report_is_rejected toy (holds (obj bare_ledger)) (report "one") bare_ledger
      bare_entries bare_entry some_record [] other_records bare_opened bare_read records_listed
      some_passed bare_there bare_contradicted

report_passes :
    validate_against_oracle toy (report "three") agreed_manifest
    ≡ ok (verdict agreed_manifest "REGRESSION_CONSENSUS")
unfolding agreed_manifest validate_against_oracle first_difference validate_oracle_shape
report_passes = refl

validate_against_oracle-eq-ok_iff_example :
    (validate_against_oracle toy (report "three") agreed_manifest
      ≡ ok (verdict agreed_manifest "REGRESSION_CONSENSUS"))
    ↔ ((provenance : String) × Accepted toy (report "three") agreed_manifest provenance
        × (verdict agreed_manifest "REGRESSION_CONSENSUS" ≡ verdict agreed_manifest provenance))
validate_against_oracle-eq-ok_iff_example =
    validate_against_oracle-eq-ok_iff toy (report "three") agreed_manifest
      (verdict agreed_manifest "REGRESSION_CONSENSUS")
