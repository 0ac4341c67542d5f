-- ===== src/Oracle/Ledger/Agreement.antt =====
-- Two records with one key in the history of the ledger of utils/oracle_validation.py.
use xemu_perf_tests.Base.{
  false, String, Option, some, List, ◌∷◌, All-middle, ◌≡◌, sym, ap, ◌∙◌, ◌++◌, inl, inr,
}
use xemu_perf_tests.Base.Result.{Result, ok, err, ok_inj}
use xemu_perf_tests.Json.{Json, obj, Fields, get_null, or_null, elems}
use xemu_perf_tests.Oracle.Canonical.{Platform}
use xemu_perf_tests.Oracle.Manifest.{list_items}
use xemu_perf_tests.Oracle.RecordShape.{dict}
use xemu_perf_tests.Oracle.Ledger.{
  has_failed, ledger_key, LedgerFile, missing, unreadable, holds, Summary,
  update_determinism_ledger,
}
use xemu_perf_tests.Oracle.Ledger.Steps.{SameHashes}
use xemu_perf_tests.Oracle.Ledger.Updates.{IsListed}
use xemu_perf_tests.Oracle.Ledger.Outcome.{Outcome, update_determinism_ledger_sound}
use xemu_perf_tests.Oracle.Ledger.History.{
  Stands, Reached, Stands-update, update-Remains, Reached-Remains,
}

module _ (p : Platform) where
  -- A run goes through, and the record is one of its report's, with no failed internal oracle.
  pub record IsAdded (file : LedgerFile) (report : Fields) (v : Json) : Type 0 where
    pub summary : Summary
    pub vs : List Json
    pub ws : List Json
    pub returned : (update_determinism_ledger p file report).0 ≡ ok summary
    pub among : elems (list_items (get_null "records" report)) ≡ vs ++ v ∷ ws
    pub passed : has_failed (get_null "internal_oracle" (dict v)) ≡ false

  -- The entry that stands for a record.
  pub record StandsFor (file : LedgerFile) (key : String) (v : Json) : Type 0 where
    pub entry : Fields
    pub stands : Stands file key entry
    pub hashes : SameHashes entry (dict v)

  Outcome-StandsFor :
      (file : LedgerFile) (report : Fields) (v : Json) (ran : Result Summary × LedgerFile)
      (a : IsAdded file report v)
      → ran.0 ≡ ok a.summary
      → Outcome p file report ran
      → StandsFor ran.1 (ledger_key p report (dict v)) v
  Outcome-StandsFor file report v (err e, file') a h u = cc
  Outcome-StandsFor file report v (ok t, missing) a h u = absurd u
  Outcome-StandsFor file report v (ok t, unreadable) a h u = absurd u
  Outcome-StandsFor file report v (ok t, holds (obj ledger)) a h u =
      elim (All-middle (IsListed p u.scale report u.new) a.vs v a.ws (rw a.among at u.recorded)) [
        | inl failed ↦ let passed = a.passed in cc
        | inr r ↦ record {
          entry = r.now;
          stands =
              Stands-update p file report ledger u (ledger_key p report (dict v)) r.now r.there;
          hashes = r.hashes;
        }
      ]
  Outcome-StandsFor file report v (ok t, holds w) a h u = absurd u

  IsAdded-StandsFor :
      (file : LedgerFile) (report : Fields) (v : Json)
      → IsAdded file report v
      → StandsFor (update_determinism_ledger p file report).1 (ledger_key p report (dict v)) v
  IsAdded-StandsFor file report v a =
      Outcome-StandsFor file report v (update_determinism_ledger p file report) a a.returned
        (update_determinism_ledger_sound p file report)

  -- One entry stands for two records.
  pub record Agree (file : LedgerFile) (key : String) (v w : Json) : Type 0 where
    pub entry : Fields
    pub stands : Stands file key entry
    pub first : SameHashes entry (dict v)
    pub second : SameHashes entry (dict w)

  Stands-unique :
      (file : LedgerFile) (key : String) (f g : Fields)
      → Stands file key f
      → Stands file key g
      → f ≡ g
  Stands-unique file key f g s t =
      let old : s.old ≡ t.old = ok_inj (sym s.opened ∙ t.opened) in
      let entries : s.entries ≡ t.entries = ok_inj (sym s.read ∙ rw old t.read) in
      let there : some (obj f) ≡ some (obj g) = sym s.there ∙ rw entries t.there in
      ap (λ (o : Option Json). dict (or_null o)) there

  -- Where a record was added by one run, and a record with the same key by a later one, then,
  -- whatever runs went through or failed between them, one entry of the ledger has hashes equal to
  -- the first record's and to the second's.
  pub IsAdded-Agree :
      (start later : LedgerFile) (first second : Fields) (v w : Json)
      → IsAdded start first v
      → Reached p (update_determinism_ledger p start first).1 later
      → IsAdded later second w
      → ledger_key p first (dict v) ≡ ledger_key p second (dict w)
      → Agree (update_determinism_ledger p later second).1 (ledger_key p second (dict w)) v w
  IsAdded-Agree start later first second v w a r b k =
      let key = ledger_key p second (dict w) in
      let x = IsAdded-StandsFor start first v a in
      let y = IsAdded-StandsFor later second w b in
      let mid = Reached-Remains p r key x.entry (rw (← k) x.stands) in
      let final = update-Remains p later second key mid.now mid.stands in
      let same = Stands-unique _ key final.now y.entry final.stands y.stands in
      let kept : get_null "hashes" y.entry ≡ get_null "hashes" x.entry =
        rw (← same) (final.hashes ∙ mid.hashes) in
      record { entry = y.entry; stands = y.stands; first = rw kept x.hashes; second = y.hashes }
