-- ===== src/Oracle/Validate/Accepted.antt =====
-- The reports that `validate_against_oracle` of utils/oracle_validation.py accepts.
use xemu_perf_tests.Base.{
  true, not, ◌||◌, String, str_eq, Option, none, some, ◌≡◌, ◌↔◌, refl, sym, ap, ◌∙◌,
}
use xemu_perf_tests.Base.Result.{ok, >>=-eq-ok, >>-eq-ok, guard-eq-ok, ok_inj}
use xemu_perf_tests.Json.{Json, str, Fields, end, field, get_null}
use xemu_perf_tests.Json.Equality.{py_eq}
use xemu_perf_tests.Oracle.Canonical.{Platform}
use xemu_perf_tests.Oracle.Shape.{validate_report_shape}
use xemu_perf_tests.Oracle.View.{comparison_records}
use xemu_perf_tests.Oracle.Difference.Same.{Same}
use xemu_perf_tests.Oracle.Difference.Complete.{first_difference-eq-none_iff}
use xemu_perf_tests.Oracle.Manifest.{validate_oracle_shape, provenance_of}
use xemu_perf_tests.Oracle.Validate.{matches_on, no_mismatch, matches, validate_against_oracle}

-- The report and the oracle are valid, the oracle is for the report's backend if it is a consensus,
-- they are about the same guest image and job, and their records are the same value.
pub record Accepted (p : Platform) (report oracle : Fields) (provenance : String) : Type 0 where
  pub report_valid : validate_report_shape p report ≡ ok tt
  pub oracle_valid : validate_oracle_shape p oracle ≡ ok tt
  pub provenance_read : provenance_of (get_null "oracle_provenance" oracle) ≡ ok provenance
  pub backend :
      (not (str_eq provenance "REGRESSION_CONSENSUS")
        || py_eq (get_null "source_backend" oracle) (get_null "source_backend" report))
      ≡ true
  pub guest :
      py_eq (get_null "guest_image_sha256" oracle) (get_null "guest_image_sha256" report) ≡ true
  pub job : py_eq (get_null "job_sha256" oracle) (get_null "job_sha256" report) ≡ true
  pub expected : Json
  pub actual : Json
  pub oracle_view : comparison_records (get_null "records" oracle) ≡ ok expected
  pub report_view : comparison_records (get_null "records" report) ≡ ok actual
  pub same : Same expected actual

no_mismatch-eq-ok : (d : Option String) → no_mismatch d ≡ ok tt → d ≡ none
unfolding no_mismatch
no_mismatch-eq-ok none h = refl
no_mismatch-eq-ok (some path) h = cc

abbrev pub verdict : Fields → String → Fields
verdict oracle provenance = field "status" (str "PASSED") (
    field "oracle_id" (get_null "oracle_id" oracle)
      (field "oracle_provenance" (str provenance) end))

validate_against_oracle_sound :
    (p : Platform) (report oracle out : Fields)
    → validate_against_oracle p report oracle ≡ ok out
    → (provenance : String) × Accepted p report oracle provenance
      × (out ≡ verdict oracle provenance)
unfolding validate_against_oracle
validate_against_oracle_sound p report oracle out h =
    let (r, h1) = >>-eq-ok (validate_report_shape p report) _ h in
    let (o, h2) = >>-eq-ok (validate_oracle_shape p oracle) _ h1 in
    let (provenance, v, h3) = >>=-eq-ok _ _ h2 in
    let (b, h4) = >>-eq-ok _ _ h3 in
    let (m, h5) = >>-eq-ok (matches report oracle) _ h4 in
    let (g, m1) = >>-eq-ok (matches_on "guest_image_sha256" report oracle) _ m in
    let (j, m2) = >>-eq-ok (matches_on "job_sha256" report oracle) _ m1 in
    let (expected, e, m3) = >>=-eq-ok (comparison_records (get_null "records" oracle)) _ m2 in
    let (actual, a, m4) = >>=-eq-ok (comparison_records (get_null "records" report)) _ m3 in
    (
      provenance,
      record {
        report_valid = r;
        oracle_valid = o;
        provenance_read = v;
        backend = guard-eq-ok _ _ b;
        guest = guard-eq-ok _ _ g;
        job = guard-eq-ok _ _ j;
        expected = expected;
        actual = actual;
        oracle_view = e;
        report_view = a;
        same = (first_difference-eq-none_iff expected actual "records").0 (no_mismatch-eq-ok _ m4);
      },
      sym (ok_inj h5),
    )

validate_against_oracle_complete :
    (p : Platform) (report oracle : Fields) (provenance : String)
    → Accepted p report oracle provenance
    → validate_against_oracle p report oracle ≡ ok (verdict oracle provenance)
unfolding validate_against_oracle
validate_against_oracle_complete p report oracle provenance d =
    let none_found = (first_difference-eq-none_iff d.expected d.actual "records").1 d.same in
    rw
      (
        d.report_valid, d.oracle_valid, d.provenance_read, d.backend, d.guest, d.job, d.oracle_view,
        d.report_view, none_found,
      )
      refl

-- `validate_against_oracle` returns exactly where the report is valid, the oracle is valid and has an
-- explicit provenance, a consensus is for the report's backend, both are about the same guest image
-- and the same job, and the views of their records for comparison are the same value. What it
-- returns then is PASSED with the oracle's identifier and provenance.
pub validate_against_oracle-eq-ok_iff :
    (p : Platform) (report oracle out : Fields)
    → (validate_against_oracle p report oracle ≡ ok out) ↔ (
        (provenance : String) × Accepted p report oracle provenance
        × (out ≡ verdict oracle provenance))
validate_against_oracle-eq-ok_iff p report oracle out = (
  validate_against_oracle_sound p report oracle out,
  λ (provenance, d, e).
      validate_against_oracle_complete p report oracle provenance d ∙ ap ok (sym e),
)
