-- ===== src/Oracle/Ledger/Outcome.antt =====
-- What `update_determinism_ledger` of utils/oracle_validation.py does to the ledger's file.
use xemu_perf_tests.Base.{
  ℕ, true, false, String, str_eq_self, Option, some, List, [], ◌∷◌, All, ◌≡◌, refl, sym, ap, ◌∙◌,
  ◌++◌, All-middle, inl, inr, arith,
}
use xemu_perf_tests.Base.Int.{pos}
use xemu_perf_tests.Base.Result.{
  Error, Result, ok, err, Result-cases, ok_inj, >>=-eq-ok, >>-eq-ok, guard, invalid,
}
use xemu_perf_tests.Json.{Json, int, str, obj, Fields, get, get_null, or_null, put, elems}
use xemu_perf_tests.Json.Equality.{py_eq}
use xemu_perf_tests.Oracle.Canonical.{Platform}
use xemu_perf_tests.Oracle.Values.{hash}
use xemu_perf_tests.Oracle.Shape.{validate_report_shape}
use xemu_perf_tests.Oracle.Shape.Valid.{validate_report_shape_sound}
use xemu_perf_tests.Oracle.Manifest.{list_items}
use xemu_perf_tests.Oracle.Ledger.{
  has_failed, ledger_key, LedgerFile, holds, open_ledger, entries_of, surface_scale, stage_all,
  Staged, Summary, updated_ledger, update_determinism_ledger,
}
use xemu_perf_tests.Oracle.RecordShape.{dict}
use xemu_perf_tests.Oracle.Ledger.Steps.{SameHashes}
use xemu_perf_tests.Oracle.Ledger.Updates.{Kept, IsListed, stage_all-Kept, stage_all-IsListed}

hash-py_eq_self :
    (v : Json) (name : String) (ws : List ℕ) {r : String} → hash v name ws ≡ ok r → py_eq v v ≡ true
unfolding hash py_eq
hash-py_eq_self (int (pos n)) name ws h = ground arith
hash-py_eq_self (str s) name ws h = str_eq_self s
hash-py_eq_self v name ws h = cc

module _ (p : Platform) where
  report_id_self :
      (report : Fields)
      → validate_report_shape p report ≡ ok tt
      → py_eq (get_null "report_id" report) (get_null "report_id" report) ≡ true
  report_id_self report h = hash-py_eq_self _ _ _ (validate_report_shape_sound p report h).id_read

  -- What a run that went through has read and written.
  pub record IsUpdate (file : LedgerFile) (report ledger : Fields) : Type 0 where
    pub scale : ℕ
    pub old : Fields
    pub entries : Fields
    pub new : Fields
    pub valid : validate_report_shape p report ≡ ok tt
    pub opened : open_ledger file ≡ ok old
    pub read : entries_of (get_null "entries" old) ≡ ok entries
    pub written : ledger ≡ put "entries" (obj new) old
    pub kept :
        (key : String) (f : Fields) → get key entries ≡ some (obj f) → Kept p scale report key f new
    pub recorded :
        All (IsListed p scale report new) (elems (list_items (get_null "records" report)))

  updated_ledger_sound :
      (file : LedgerFile) (report ledger : Fields) (summary : Summary)
      → updated_ledger p file report ≡ ok (ledger, summary)
      → IsUpdate file report ledger
  unfolding updated_ledger
  updated_ledger_sound file report ledger summary h =
      let (v, h1) = >>-eq-ok (validate_report_shape p report) _ h in
      let (x, h2) =
        >>-eq-ok
          (guard (py_eq (get_null "source_type" report) (str "XEMU"))
            (invalid "determinism ledger accepts only xemu reports"))
          _ h1 in
      let (scale, c, h3) = >>=-eq-ok (surface_scale (get_null "surface_scale" report)) _ h2 in
      let (old, o, h4) = >>=-eq-ok (open_ledger file) _ h3 in
      let (entries, e, h5) = >>=-eq-ok (entries_of (get_null "entries" old)) _ h4 in
      let start : Staged = record { entries = entries; skipped = []; excluded = [] } in
      let (s, g, h6) =
        >>=-eq-ok (stage_all p scale report (list_items (get_null "records" report)) start) _ h5 in
      let own = report_id_self report v in
      record {
        scale = scale;
        old = old;
        entries = entries;
        new = s.entries;
        valid = v;
        opened = o;
        read = e;
        written = ground arith;
        kept = λ key f k. stage_all-Kept p scale report own _ start s g key f k;
        recorded = stage_all-IsListed p scale report own _ start s g;
      }

  -- The file after a run: as it was where the run failed, and otherwise a ledger.
  abbrev pub Outcome : LedgerFile → Fields → Result Summary × LedgerFile → Type 0
  Outcome file report (err e, file') = file' ≡ file
  Outcome file report (ok s, holds (obj ledger)) = IsUpdate file report ledger
  Outcome file report (ok s, _) = ⊥

  -- A run of `update_determinism_ledger` either fails and leaves the file as it was, or it replaces
  -- the file by a ledger that has the old top-level values, in which every entry of the old file is
  -- still there with its hashes and its listing of this report, and in which each record of the
  -- valid report whose internal oracle did not fail has an entry under its key with equal hashes
  -- that lists the report.
  pub update_determinism_ledger_sound :
      (file : LedgerFile) (report : Fields)
      → Outcome file report (update_determinism_ledger p file report)
  unfolding update_determinism_ledger
  update_determinism_ledger_sound file report = elim (Result-cases (updated_ledger p file report)) [
    | inr (e, u) ↦ rw u refl
    | inl ((ledger, summary), u) ↦ rw u (updated_ledger_sound file report ledger summary u)
  ]

  -- What a run that went through has read is what the file held.
  IsUpdate-SameHashes :
      (file : LedgerFile) (report ledger old entries f : Fields) (v : Json) (vs ws : List Json)
      → open_ledger file ≡ ok old
      → entries_of (get_null "entries" old) ≡ ok entries
      → elems (list_items (get_null "records" report)) ≡ vs ++ v ∷ ws
      → has_failed (get_null "internal_oracle" (dict v)) ≡ false
      → get (ledger_key p report (dict v)) entries ≡ some (obj f)
      → IsUpdate file report ledger
      → SameHashes f (dict v)
  IsUpdate-SameHashes file report ledger old entries f v vs ws o e m passed there u =
      let same_old : old ≡ u.old = ok_inj (sym o ∙ u.opened) in
      let same_entries : entries ≡ u.entries = ok_inj (sym e ∙ rw same_old u.read) in
      let k = u.kept (ledger_key p report (dict v)) f (rw (← same_entries) there) in
      let here = All-middle (IsListed p u.scale report u.new) vs v ws (rw m at u.recorded) in
      elim here [
        | inl failed ↦ ground arith
        | inr r ↦
            let one : k.now ≡ r.now =
              ap (λ (o : Option Json). dict (or_null o)) (sym k.there ∙ r.there) in
            rw (← k.hashes, one) r.hashes
      ]

  -- A report with a record whose internal oracle did not fail is rejected, and the file is left as
  -- it was, where the file's entry under the record's key has other hashes.
  pub contradicting_report_is_rejected :
      (file : LedgerFile) (report old entries f : Fields) (v : Json) (vs ws : List Json)
      → open_ledger file ≡ ok old
      → entries_of (get_null "entries" old) ≡ ok entries
      → elems (list_items (get_null "records" report)) ≡ vs ++ v ∷ ws
      → has_failed (get_null "internal_oracle" (dict v)) ≡ false
      → get (ledger_key p report (dict v)) entries ≡ some (obj f)
      → ¬ SameHashes f (dict v)
      → (e : Error) × (update_determinism_ledger p file report ≡ (err e, file))
  unfolding update_determinism_ledger
  contradicting_report_is_rejected file report old entries f v vs ws o e m passed there differ =
      elim (Result-cases (updated_ledger p file report)) [
        | inr (x, u) ↦ (x, rw u refl)
        | inl ((ledger, summary), u) ↦ absurd (
            differ (
              IsUpdate-SameHashes file report ledger old entries f v vs ws o e m passed there
                (updated_ledger_sound file report ledger summary u)))
      ]
