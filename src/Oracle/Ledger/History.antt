-- ===== src/Oracle/Ledger/History.antt =====
-- The ledger of utils/oracle_validation.py over any sequence of runs of `update_determinism_ledger`.
use xemu_perf_tests.Base.{true, String, some, ◌≡◌, refl, sym, ◌∙◌, string_dec}
use xemu_perf_tests.Base.Int.{pos}
use xemu_perf_tests.Base.Result.{Result, ok, err, ok_inj, >>-eq-ok, guard-eq-ok}
use xemu_perf_tests.Json.{int, obj, Fields, get, get_null, put}
use xemu_perf_tests.Json.Equality.{py_eq}
use xemu_perf_tests.Json.Laws.{get-put}
use xemu_perf_tests.Oracle.Canonical.{Platform}
use xemu_perf_tests.Oracle.Ledger.{
  LedgerFile, empty_ledger, missing, unreadable, holds, load_json, open_ledger, entries_of, Summary,
  update_determinism_ledger,
}
use xemu_perf_tests.Oracle.Ledger.Outcome.{IsUpdate, Outcome, update_determinism_ledger_sound}

-- An entry that stands in the ledger that the next run would read.
pub record Stands (file : LedgerFile) (key : String) (f : Fields) : Type 0 where
  pub old : Fields
  pub entries : Fields
  pub opened : open_ledger file ≡ ok old
  pub read : entries_of (get_null "entries" old) ≡ ok entries
  pub there : get key entries ≡ some (obj f)

abbrev IsVersioned : Fields → Type 0
IsVersioned old = py_eq (get_null "schema_version" old) (int (pos 1)) ≡ true

open_ledger-IsVersioned :
    (file : LedgerFile) (old : Fields) → open_ledger file ≡ ok old → IsVersioned old
unfolding open_ledger load_json py_eq string_dec
open_ledger-IsVersioned missing old h =
    let opened : empty_ledger ≡ old = ok_inj h in rw (← opened) refl
open_ledger-IsVersioned unreadable old h = cc
open_ledger-IsVersioned (holds (obj fs)) old h =
    let (g, same) = >>-eq-ok _ _ h in
    let opened : fs ≡ old = ok_inj same in rw (← opened) (guard-eq-ok _ _ g)
open_ledger-IsVersioned (holds v) old h = cc

-- A ledger that was written is read again.
open_ledger-put :
    (old new : Fields)
    → IsVersioned old
    → open_ledger (holds (obj (put "entries" (obj new) old))) ≡ ok (put "entries" (obj new) old)
unfolding open_ledger load_json string_dec
open_ledger-put old new v = rw (get-put, v) refl

entries_of-put :
    (old new : Fields) → entries_of (get_null "entries" (put "entries" (obj new) old)) ≡ ok new
unfolding entries_of string_dec
entries_of-put old new = rw get-put refl

-- What the file is after any number of runs, those that fail included.
pub data Reached (p : Platform) (start : LedgerFile) : LedgerFile → Type 0 where
  here : Reached p start start
  next :
      {file : LedgerFile}
      → Reached p start file
      → (report : Fields) → Reached p start (update_determinism_ledger p file report).1

module _ (p : Platform) where
  -- An entry still stands after a run, with its hashes.
  pub record Remains (file : LedgerFile) (key : String) (f : Fields) : Type 0 where
    pub now : Fields
    pub stands : Stands file key now
    pub hashes : get_null "hashes" now ≡ get_null "hashes" f

  pub Stands-update :
      (file : LedgerFile) (report ledger : Fields)
      → (u : IsUpdate p file report ledger) (key : String) (f : Fields)
      → get key u.new ≡ some (obj f)
      → Stands (holds (obj ledger)) key f
  Stands-update file report ledger u key f h = rw u.written (record {
    old = put "entries" (obj u.new) u.old;
    entries = u.new;
    opened = open_ledger-put u.old u.new (open_ledger-IsVersioned file u.old u.opened);
    read = entries_of-put u.old u.new;
    there = h;
  })

  IsUpdate-Remains :
      (file : LedgerFile) (report ledger : Fields)
      → IsUpdate p file report ledger
      → (key : String) (f : Fields) → Stands file key f
      → Remains (holds (obj ledger)) key f
  IsUpdate-Remains file report ledger u key f s =
      let old : s.old ≡ u.old = ok_inj (sym s.opened ∙ u.opened) in
      let entries : s.entries ≡ u.entries = ok_inj (sym s.read ∙ rw old u.read) in
      let k = u.kept key f (rw (← entries) s.there) in
      record {
        now = k.now;
        stands = Stands-update file report ledger u key k.now k.there;
        hashes = k.hashes;
      }

  Outcome-Remains :
      (file : LedgerFile) (report : Fields) (ran : Result Summary × LedgerFile)
      → Outcome p file report ran
      → (key : String) (f : Fields) → Stands file key f
      → Remains ran.1 key f
  Outcome-Remains file report (err e, file') same key f s = record {
    now = f;
    stands = rw same s;
    hashes = refl;
  }
  Outcome-Remains file report (ok t, holds (obj ledger)) u key f s =
      IsUpdate-Remains file report ledger u key f s
  Outcome-Remains file report (ok t, missing) u key f s = absurd u
  Outcome-Remains file report (ok t, unreadable) u key f s = absurd u
  Outcome-Remains file report (ok t, holds v) u key f s = absurd u

  pub update-Remains :
      (file : LedgerFile) (report : Fields) (key : String) (f : Fields)
      → Stands file key f
      → Remains (update_determinism_ledger p file report).1 key f
  update-Remains file report =
      Outcome-Remains file report (update_determinism_ledger p file report)
        (update_determinism_ledger_sound p file report)

  Remains-trans :
      (file file' : LedgerFile) (key : String) (f : Fields)
      → (r : Remains file key f) → Remains file' key r.now
      → Remains file' key f
  Remains-trans file file' key f r t = record {
    now = t.now;
    stands = t.stands;
    hashes = t.hashes ∙ r.hashes;
  }

  -- An entry that stands in the ledger stands in it after any number of runs, those that fail
  -- included, and its hashes are the ones that it had.
  pub Reached-Remains :
      {start file : LedgerFile}
      → Reached p start file
      → (key : String) (f : Fields) → Stands start key f
      → Remains file key f
  Reached-Remains here key f s = record { now = f; stands = s; hashes = refl }
  Reached-Remains (next {file} r report) key f s =
      let before = Reached-Remains r key f s in
      Remains-trans file _ key f before (update-Remains file report key before.now before.stands)
