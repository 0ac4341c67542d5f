-- ===== src/Oracle/Ledger/Updates.antt =====
-- What a run of `update_determinism_ledger` of utils/oracle_validation.py leaves in the ledger.
use xemu_perf_tests.Base.{
  ℕ, true, String, str_eq, eq_of-str_eq, str_eq_self, some, All, ◌≡◌, refl, ◌∙◌, ap, ◌⊎◌, inl, inr,
  arith, Bool-cases,
}
use xemu_perf_tests.Base.Result.{ok, Result-cases, ok_inj}
use xemu_perf_tests.Json.{Json, obj, Items, nil, cons, Fields, get, get_null, elems}
use xemu_perf_tests.Json.Laws.{get-put}
use xemu_perf_tests.Json.Equality.{py_eq}
use xemu_perf_tests.Oracle.Canonical.{Platform}
use xemu_perf_tests.Oracle.RecordShape.{dict}
use xemu_perf_tests.Oracle.Ledger.{ledger_key, has_failed, Staged, stage, stage_all}
use xemu_perf_tests.Oracle.Ledger.Ids.{lists}
use xemu_perf_tests.Oracle.Ledger.Steps.{
  SameHashes, observe_lem, matching_entry-SameHashes, matching_entry-kept, IsStep,
  stage_checked_lem,
}

module _ (p : Platform) (scale : ℕ) (report : Fields) where
  -- An entry is still there, with its hashes; a report that it listed is listed.
  pub record Kept (key : String) (f : Fields) (entries : Fields) : Type 0 where
    pub now : Fields
    pub there : get key entries ≡ some (obj now)
    pub hashes : get_null "hashes" now ≡ get_null "hashes" f
    pub listed :
        lists (get_null "report_id" report) (get_null "report_ids" f) ≡ true
        → lists (get_null "report_id" report) (get_null "report_ids" now) ≡ true

  -- The entry under a record's key has the record's hashes and lists the report.
  pub record Recorded (entry : Fields) (entries : Fields) : Type 0 where
    pub now : Fields
    pub there : get (ledger_key p report entry) entries ≡ some (obj now)
    pub hashes : SameHashes now entry
    pub listed : lists (get_null "report_id" report) (get_null "report_ids" now) ≡ true

  Kept-refl :
      (key : String) (f entries : Fields) → get key entries ≡ some (obj f) → Kept key f entries
  Kept-refl key f entries h = record { now = f; there = h; hashes = refl; listed = λ l. l }

  -- Each record whose internal oracle did not fail is in the ledger.
  abbrev pub IsListed : Fields → Json → Type 0
  IsListed entries v =
      (has_failed (get_null "internal_oracle" (dict v)) ≡ true) ⊎ Recorded (dict v) entries

  module _ (own : py_eq (get_null "report_id" report) (get_null "report_id" report) ≡ true) where
    step-Kept :
        (entry : Fields) (s s' : Staged)
        → IsStep p scale report entry s s'
        → (key : String) (f : Fields) → get key s.entries ≡ some (obj f)
        → Kept key f s'.entries
    step-Kept entry s s' d key f h = elim (Bool-cases (str_eq key (ledger_key p report entry))) [
      | inl same ↦
          let e : key ≡ ledger_key p report entry = eq_of-str_eq _ _ same in
          let k : f ≡ d.existing =
            matching_entry-kept scale report entry f d.existing (rw (← h, e) d.found) in
          let o = observe_lem report d.existing d.updated own d.seen in
          record {
            now = d.updated;
            there = rw (d.after, get-put, same) refl;
            hashes = rw k o.hashes;
            listed = λ _. o.listed;
          }
      | inr differ ↦ Kept-refl key f s'.entries (rw (d.after, get-put, differ) h)
    ]

    step-Recorded :
        (entry : Fields) (s s' : Staged)
        → IsStep p scale report entry s s'
        → Recorded entry s'.entries
    step-Recorded entry s s' d =
        let o = observe_lem report d.existing d.updated own d.seen in
        record {
          now = d.updated;
          there = rw (d.after, get-put, str_eq_self (ledger_key p report entry)) refl;
          hashes = rw o.hashes (matching_entry-SameHashes scale report entry _ d.existing d.found);
          listed = o.listed;
        }

    Kept-trans :
        (key : String) (f : Fields) (s s' : Staged)
        → (k : Kept key f s.entries) → Kept key k.now s'.entries
        → Kept key f s'.entries
    Kept-trans key f s s' k l = record {
      now = l.now;
      there = l.there;
      hashes = l.hashes ∙ k.hashes;
      listed = λ h. l.listed (k.listed h);
    }

    stage-Kept :
        (v : Json) (s s' : Staged)
        → stage p scale report v s ≡ ok s'
        → (key : String) (f : Fields) → get key s.entries ≡ some (obj f)
        → Kept key f s'.entries
    unfolding stage
    stage-Kept v s s' h key f g =
        elim (Bool-cases (has_failed (get_null "internal_oracle" (dict v)))) [
          | inl failed ↦
              let e : s.entries ≡ s'.entries = ground arith in
              Kept-refl key f s'.entries (rw (← e) g)
          | inr passed ↦
              step-Kept (dict v) s s'
                (stage_checked_lem p scale report (dict v) s s' (rw passed at h)) key f g
        ]

    pub stage_all-Kept :
        (vs : Items) (s s' : Staged)
        → stage_all p scale report vs s ≡ ok s'
        → (key : String) (f : Fields) → get key s.entries ≡ some (obj f)
        → Kept key f s'.entries
    unfolding stage_all
    stage_all-Kept nil s s' h key f g =
        Kept-refl key f s'.entries (rw (← ap (λ (t : Staged). t.entries) (ok_inj h)) g)
    stage_all-Kept (cons v vs) s s' h key f g = elim (Result-cases (stage p scale report v s)) [
      | inr (x, m) ↦ ground arith
      | inl (t, m) ↦
          let k = stage-Kept v s t m key f g in
          Kept-trans key f t s' k (stage_all-Kept vs t s' (rw m at h) key k.now k.there)
    ]

    Recorded-later :
        (entry : Fields) (vs : Items) (s s' : Staged)
        → stage_all p scale report vs s ≡ ok s'
        → Recorded entry s.entries
        → Recorded entry s'.entries
    Recorded-later entry vs s s' h r =
        let k = stage_all-Kept vs s s' h (ledger_key p report entry) r.now r.there in
        record {
          now = k.now;
          there = k.there;
          hashes = rw k.hashes r.hashes;
          listed = k.listed r.listed;
        }

    IsListed-later :
        (v : Json) (vs : Items) (s s' : Staged)
        → stage_all p scale report vs s ≡ ok s'
        → IsListed s.entries v
        → IsListed s'.entries v
    IsListed-later v vs s s' h (inl failed) = inl failed
    IsListed-later v vs s s' h (inr r) = inr (Recorded-later (dict v) vs s s' h r)

    stage-IsListed :
        (v : Json) (s s' : Staged) → stage p scale report v s ≡ ok s' → IsListed s'.entries v
    unfolding stage
    stage-IsListed v s s' h = elim (Bool-cases (has_failed (get_null "internal_oracle" (dict v)))) [
      | inl failed ↦ inl failed
      | inr passed ↦ inr (
          step-Recorded (dict v) s s'
            (stage_checked_lem p scale report (dict v) s s' (rw passed at h)))
    ]

    pub stage_all-IsListed :
        (vs : Items) (s s' : Staged)
        → stage_all p scale report vs s ≡ ok s'
        → All (IsListed s'.entries) (elems vs)
    unfolding stage_all
    stage_all-IsListed nil s s' h = tt
    stage_all-IsListed (cons v vs) s s' h = elim (Result-cases (stage p scale report v s)) [
      | inr (x, m) ↦ ground arith
      | inl (t, m) ↦
          let later : stage_all p scale report vs t ≡ ok s' = rw m at h in
          (
            IsListed-later v vs t s' later (stage-IsListed v s t m),
            stage_all-IsListed vs t s' later,
          )
    ]
