-- ===== src/Oracle/Ledger/Steps.antt =====
-- One round of the loop of `update_determinism_ledger` of utils/oracle_validation.py.
use xemu_perf_tests.Base.{
  ℕ, true, Option, none, some, ◌≡◌, sym, ap, ◌⊎◌, inl, inr, arith, Bool-cases, string_dec,
}
use xemu_perf_tests.Base.Int.{pos}
use xemu_perf_tests.Base.Result.{ok, Result-cases, ok_inj}
use xemu_perf_tests.Json.{Json, null, int, obj, Fields, get, get_null, put}
use xemu_perf_tests.Json.Laws.{get-put}
use xemu_perf_tests.Json.Equality.{py_eq}
use xemu_perf_tests.Oracle.Canonical.{Platform}
use xemu_perf_tests.Oracle.View.{item}
use xemu_perf_tests.Oracle.Ledger.{
  add_report_id, ledger_key, matching_entry, observe, Staged, stage_checked,
}
use xemu_perf_tests.Oracle.Ledger.Ids.{lists, add_report_id-lists}

-- An entry after it was observed once more.
abbrev observed : Fields → Json → ℕ → Fields
observed e ids n = put "observation_count" (int (pos n)) (put "report_ids" ids e)

hashes-observed :
    (e : Fields) (ids : Json) (n : ℕ) → get_null "hashes" (observed e ids n) ≡ get_null "hashes" e
unfolding string_dec
hashes-observed e ids n = rw (get-put, get-put)

report_ids-observed :
    (e : Fields) (ids : Json) (n : ℕ) → get_null "report_ids" (observed e ids n) ≡ ids
unfolding string_dec
report_ids-observed e ids n = rw (get-put, get-put)

pub record IsObserved (report before after : Fields) : Type 0 where
  pub hashes : get_null "hashes" after ≡ get_null "hashes" before
  pub listed : lists (get_null "report_id" report) (get_null "report_ids" after) ≡ true

pub observe_lem :
    (report e e' : Fields)
    → py_eq (get_null "report_id" report) (get_null "report_id" report) ≡ true
    → observe report e ≡ ok e'
    → IsObserved report e e'
unfolding observe
observe_lem report e e' p h = elim (Result-cases (item "report_ids" (get "report_ids" e))) [
  | inr (x, i) ↦ ground arith
  | inl (ids, i) ↦ elim (Result-cases (add_report_id (get_null "report_id" report) ids)) [
    | inr (x, a) ↦ ground arith
    | inl ((ids', n), a) ↦
        let same : observed e ids' n ≡ e' = ground arith in
        rw (← same) (record {
          hashes = hashes-observed e ids' n;
          listed =
              rw (report_ids-observed e ids' n)
                (add_report_id-lists (get_null "report_id" report) ids p a);
        })
  ]
]

-- Equal hashes: the same value, or equal for Python.
abbrev pub SameHashes : Fields → Fields → Type 0
SameHashes e entry =
    (get_null "hashes" e ≡ get_null "hashes" entry)
    ⊎ (py_eq (get_null "hashes" e) (get_null "hashes" entry) ≡ true)

pub matching_entry-SameHashes :
    (scale : ℕ) (report entry : Fields) (o : Option Json) (e : Fields)
    → matching_entry scale report entry o ≡ ok e
    → SameHashes e entry
unfolding matching_entry string_dec
matching_entry-SameHashes scale report entry none e h =
    inl (ap (get_null "hashes") (sym (ok_inj h)))
matching_entry-SameHashes scale report entry (some null) e h =
    inl (ap (get_null "hashes") (sym (ok_inj h)))
matching_entry-SameHashes scale report entry (some (obj f)) e h =
    elim (Bool-cases (py_eq (get_null "hashes" f) (get_null "hashes" entry))) [
      | inl same ↦ let k : f ≡ e = ground arith in inr (rw (← k) same)
      | inr differ ↦ ground arith
    ]
matching_entry-SameHashes scale report entry (some v) e h = cc

pub matching_entry-kept :
    (scale : ℕ) (report entry f e : Fields)
    → matching_entry scale report entry (some (obj f)) ≡ ok e
    → f ≡ e
unfolding matching_entry
matching_entry-kept scale report entry f e h = ground arith

module _ (p : Platform) (scale : ℕ) (report : Fields) where
  -- What a round that went through did to the entries.
  pub record IsStep (entry : Fields) (s s' : Staged) : Type 0 where
    pub existing : Fields
    pub updated : Fields
    pub found :
        matching_entry scale report entry (get (ledger_key p report entry) s.entries) ≡ ok existing
    pub seen : observe report existing ≡ ok updated
    pub after : s'.entries ≡ put (ledger_key p report entry) (obj updated) s.entries

  pub stage_checked_lem :
      (entry : Fields) (s s' : Staged)
      → stage_checked p scale report entry s ≡ ok s'
      → IsStep entry s s'
  unfolding stage_checked
  stage_checked_lem entry s s' h =
      elim (Result-cases
        (matching_entry scale report entry (get (ledger_key p report entry) s.entries))) [
          | inr (x, m) ↦ ground arith
          | inl (existing, m) ↦ elim (Result-cases (observe report existing)) [
            | inr (x, o) ↦ ground arith
            | inl (updated, o) ↦ record {
              existing = existing;
              updated = updated;
              found = m;
              seen = o;
              after = ground arith;
            }
          ]
        ]
