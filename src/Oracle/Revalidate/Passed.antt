-- ===== src/Oracle/Revalidate/Passed.antt =====
-- What a run of utils/revalidate_oracles.py that passes has established.
use xemu_perf_tests.Base.{
  Bool, true, false, not, String, eq_of-str_eq, List, [], ◌∷◌, ◌++◌, All, ◌≡◌, refl, arith,
}
use xemu_perf_tests.Base.Result.{ok, invalid, guard, guard-eq-ok, ok_inj, >>=-eq-ok, >>-eq-ok}
use xemu_perf_tests.Json.{Fields}
use xemu_perf_tests.Oracle.Canonical.{Platform}
use xemu_perf_tests.Oracle.Consensus.{build_consensus}
use xemu_perf_tests.Oracle.Consensus.Sound.{Consensus, build_consensus_sound}
use xemu_perf_tests.Oracle.Validate.{validate_against_oracle}
use xemu_perf_tests.Oracle.Validate.Accepted.{Accepted, validate_against_oracle-eq-ok_iff}
use xemu_perf_tests.Oracle.Revalidate.{
  Input, Evidence, load_report, load_reports, validate_all, audit_all, are_unchanged, first_of,
  revalidate,
}

-- The reports are those in the files, in order.
abbrev pub AreLoaded : Platform → List Input → List Fields → Type 0
AreLoaded p [] [] = Unit
AreLoaded p (i ∷ inputs) (r ∷ reports) = (load_report p i.file ≡ ok r) × AreLoaded p inputs reports
AreLoaded p inputs reports = ⊥

-- A report that the oracle accepts under some provenance.
abbrev pub IsAccepted : Platform → Fields → Fields → Type 0
IsAccepted p oracle report = (provenance : String) × Accepted p report oracle provenance

pub record Passed (p : Platform) (output_exists : Bool) (baseline candidate : List Input)
    (written : Evidence) : Type 0 where
  pub base : List Fields
  pub compared : List Fields
  pub new_output : output_exists ≡ false
  pub base_loaded : AreLoaded p baseline base
  pub candidates_loaded : AreLoaded p candidate compared
  pub agreed : Consensus p base written.consensus
  pub accepted : All (IsAccepted p written.consensus) compared
  pub unchanged : All (λ i. i.before ≡ i.after) (baseline ++ candidate)

absent : (b : Bool) → not b ≡ true → b ≡ false
absent true h = cc
absent false h = refl

load_reports-AreLoaded :
    (p : Platform) (inputs : List Input) (reports : List Fields)
    → load_reports p inputs ≡ ok reports
    → AreLoaded p inputs reports
unfolding load_reports
load_reports-AreLoaded p [] [] h = tt
load_reports-AreLoaded p [] (r ∷ reports) h = cc
load_reports-AreLoaded p (i ∷ inputs) reports h =
    let (r, e, h1) = >>=-eq-ok (load_report p i.file) _ h in
    let (rs, es, h2) = >>=-eq-ok (load_reports p inputs) _ h1 in
    rw (← ok_inj h2) (e, load_reports-AreLoaded p inputs rs es)

validate_all-IsAccepted :
    (p : Platform) (reports : List Fields) (oracle : Fields) (outcomes : List Fields)
    → validate_all p reports oracle ≡ ok outcomes
    → All (IsAccepted p oracle) reports
unfolding validate_all
validate_all-IsAccepted p [] oracle outcomes h = tt
validate_all-IsAccepted p (r ∷ reports) oracle outcomes h =
    let (o, e, h1) = >>=-eq-ok (validate_against_oracle p r oracle) _ h in
    let (os, es, h2) = >>=-eq-ok (validate_all p reports oracle) _ h1 in
    let (provenance, a, same) = (validate_against_oracle-eq-ok_iff p r oracle o).0 e in
    ((provenance, a), validate_all-IsAccepted p reports oracle os es)

are_unchanged_sound :
    (inputs : List Input) → are_unchanged inputs ≡ true → All (λ i. i.before ≡ i.after) inputs
are_unchanged_sound [] h = tt
are_unchanged_sound (i ∷ inputs) h =
    (eq_of-str_eq i.before i.after (ground arith), are_unchanged_sound inputs (ground arith))

-- A run that writes its evidence has found the output directory absent and every input a valid report, has built its consensus from all the baseline reports, has had every candidate report accepted by that consensus, and no input's hash has changed from its start to its end.
pub revalidate-Passed :
    (p : Platform) (validator : String) (output_exists : Bool) (baseline candidate : List Input)
    (written : Evidence)
    → revalidate p validator output_exists baseline candidate ≡ ok written
    → Passed p output_exists baseline candidate written
unfolding revalidate
revalidate-Passed p validator output_exists baseline candidate written h =
    let (g, h1) =
      >>-eq-ok (guard (not output_exists) (invalid "output already exists; choose a new directory"))
        _ h in
    let (base, b, h2) = >>=-eq-ok (load_reports p baseline) _ h1 in
    let (candidates, c, h3) = >>=-eq-ok (load_reports p candidate) _ h2 in
    let (consensus, m, h4) = >>=-eq-ok (build_consensus p base) _ h3 in
    let (outcomes, v, h5) = >>=-eq-ok (validate_all p candidates consensus) _ h4 in
    let (audit, a, h6) = >>=-eq-ok (audit_all (base ++ candidates) (baseline ++ candidate)) _ h5 in
    let (u, h7) =
      >>-eq-ok
        (guard (are_unchanged (baseline ++ candidate))
          (invalid "an input changed during revalidation"))
        _ h6 in
    let (backend, e8, h8) = >>=-eq-ok (first_of "source_backend" base) _ h7 in
    let (guest, e9, h9) = >>=-eq-ok (first_of "guest_image_sha256" base) _ h8 in
    rw (← ok_inj h9) (record {
      base = base;
      compared = candidates;
      new_output = absent output_exists (guard-eq-ok _ _ g);
      base_loaded = load_reports-AreLoaded p baseline base b;
      candidates_loaded = load_reports-AreLoaded p candidate candidates c;
      agreed = build_consensus_sound p base consensus m;
      accepted = validate_all-IsAccepted p candidates consensus outcomes v;
      unchanged = are_unchanged_sound (baseline ++ candidate) (guard-eq-ok _ _ u);
    })
