-- ===== src/Tests/Ledger.antt =====
-- The history of the ledger at concrete runs.
use xemu_perf_tests.Base.{[], ◌∷◌, ◌≡◌, refl}
use xemu_perf_tests.Base.Result.{Result, ok, err}
use xemu_perf_tests.Json.{obj, end, get_null, elems}
use xemu_perf_tests.Oracle.Consensus.{sorted_values}
use xemu_perf_tests.Oracle.Manifest.{list_items}
use xemu_perf_tests.Oracle.RecordShape.{dict}
use xemu_perf_tests.Oracle.Ledger.{
  ledger_key, LedgerFile, missing, holds, Summary, update_determinism_ledger,
}
use xemu_perf_tests.Oracle.Ledger.History.{Stands, here, next, Remains, Reached-Remains}
use xemu_perf_tests.Oracle.Ledger.Agreement.{IsAdded, Agree, IsAdded-Agree}
use xemu_perf_tests.Tests.Reports.{toy, runs, report}
use xemu_perf_tests.Tests.Oracle.{
  some_record, other_records, records_listed, some_passed, bare_entry, bare_entries, bare_ledger,
  bare_opened, bare_read, bare_there,
}

abbrev bare_stands :
    Stands (holds (obj bare_ledger)) (ledger_key toy (report "one") (dict some_record)) bare_entry
bare_stands = record {
  old = bare_ledger;
  entries = bare_entries;
  opened = bare_opened;
  read = bare_read;
  there = bare_there;
}

-- A report that is no report, and then one that contradicts the entry.
Reached-Remains_example :
    Remains toy
      (update_determinism_ledger toy
        (update_determinism_ledger toy (holds (obj bare_ledger)) end).1
        (report "one")).1
      (ledger_key toy (report "one") (dict some_record))
      bare_entry
Reached-Remains_example =
    Reached-Remains toy (next (next here end) (report "one"))
      (ledger_key toy (report "one") (dict some_record)) bare_entry bare_stands

abbrev no_summary : Summary
no_summary = record { record_count = 0; skipped = []; excluded = [] }

abbrev summary_of : Result Summary → Summary
summary_of (ok s) = s
summary_of (err e) = no_summary

abbrev after_one : LedgerFile
after_one = (update_determinism_ledger toy missing (report "one")).1

-- The first report once more, and then a report that is refused.
abbrev between : LedgerFile
between =
    (update_determinism_ledger toy (update_determinism_ledger toy after_one (report "one")).1 end).1

one_returned :
    (update_determinism_ledger toy missing (report "one")).0
    ≡ ok (summary_of (update_determinism_ledger toy missing (report "one")).0)
unfolding runs report update_determinism_ledger sorted_values
one_returned = refl

one-IsAdded : IsAdded toy missing (report "one") some_record
one-IsAdded = record {
  summary = summary_of (update_determinism_ledger toy missing (report "one")).0;
  vs = [];
  ws = other_records;
  returned = one_returned;
  among = records_listed;
  passed = some_passed;
}

two_returned :
    (update_determinism_ledger toy between (report "two")).0
    ≡ ok (summary_of (update_determinism_ledger toy between (report "two")).0)
unfolding runs report update_determinism_ledger sorted_values
two_returned = refl

two_listed : elems (list_items (get_null "records" (report "two"))) ≡ some_record ∷ other_records
unfolding runs report
two_listed = refl

two-IsAdded : IsAdded toy between (report "two") some_record
two-IsAdded = record {
  summary = summary_of (update_determinism_ledger toy between (report "two")).0;
  vs = [];
  ws = other_records;
  returned = two_returned;
  among = two_listed;
  passed = some_passed;
}

keys_equal :
    ledger_key toy (report "one") (dict some_record)
    ≡ ledger_key toy (report "two") (dict some_record)
unfolding runs report ledger_key
keys_equal = refl

IsAdded-Agree_example :
    Agree toy
      (update_determinism_ledger toy between (report "two")).1
      (ledger_key toy (report "two") (dict some_record))
      some_record
      some_record
IsAdded-Agree_example =
    IsAdded-Agree toy missing between (report "one") (report "two") some_record some_record
      one-IsAdded (next (next here (report "one")) end) two-IsAdded keys_equal
