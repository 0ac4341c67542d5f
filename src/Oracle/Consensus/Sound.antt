-- ===== src/Oracle/Consensus/Sound.antt =====
-- What a consensus of utils/oracle_validation.py has established about its reports.
use xemu_perf_tests.Base.{
  ltb→lt, ◌<◌, true, String, Option, none, some, List, [], ◌∷◌, length, All, ◌≡◌, refl, sym,
}
use xemu_perf_tests.Base.Result.{ok, >>=-eq-ok, >>-eq-ok, guard-eq-ok, ok_inj}
use xemu_perf_tests.Json.{Json, str, Fields, get_null}
use xemu_perf_tests.Json.Equality.{py_eq}
use xemu_perf_tests.Oracle.Canonical.{Platform}
use xemu_perf_tests.Oracle.Record.{is_null}
use xemu_perf_tests.Oracle.Shape.{validate_report_shape}
use xemu_perf_tests.Oracle.View.{comparison_records}
use xemu_perf_tests.Oracle.Difference.Same.{Same}
use xemu_perf_tests.Oracle.Difference.Complete.{first_difference-eq-none_iff}
use xemu_perf_tests.Oracle.Consensus.{
  once, report_ids, no_difference, agrees, all_agree, check_reports, manifest_of, sorted_values,
  build_consensus,
}

-- A report agrees with the first one: on its backend, its guest image and its job, and its view for
-- comparison is the same value.
pub record Agrees (first report : Fields) : Type 0 where
  pub backend : py_eq (get_null "source_backend" report) (get_null "source_backend" first) ≡ true
  pub guest :
      py_eq (get_null "guest_image_sha256" report) (get_null "guest_image_sha256" first) ≡ true
  pub job : py_eq (get_null "job_sha256" report) (get_null "job_sha256" first) ≡ true
  pub expected : Json
  pub actual : Json
  pub first_view : comparison_records (get_null "records" first) ≡ ok expected
  pub report_view : comparison_records (get_null "records" report) ≡ ok actual
  pub same : Same expected actual

no_difference-eq-ok : (d : Option String) {u : Unit {0}} → no_difference d ≡ ok u → d ≡ none
unfolding no_difference
no_difference-eq-ok none h = refl
no_difference-eq-ok (some path) h = cc

agrees_sound : (first report : Fields) → agrees first report ≡ ok tt → Agrees first report
unfolding agrees
agrees_sound first report h =
    let (b, h1) = >>-eq-ok _ _ h in
    let (g, h2) = >>-eq-ok _ _ h1 in
    let (j, h3) = >>-eq-ok _ _ h2 in
    let (expected, e, h4) = >>=-eq-ok _ _ h3 in
    let (actual, a, h5) = >>=-eq-ok _ _ h4 in
    record {
      backend = guard-eq-ok _ _ b;
      guest = guard-eq-ok _ _ g;
      job = guard-eq-ok _ _ j;
      expected = expected;
      actual = actual;
      first_view = e;
      report_view = a;
      same = (first_difference-eq-none_iff expected actual "records").0 (no_difference-eq-ok _ h5);
    }

all_agree_sound :
    (first : Fields) (reports : List Fields)
    → all_agree first reports ≡ ok tt
    → All (Agrees first) reports
unfolding all_agree
all_agree_sound first [] h = tt
all_agree_sound first (r ∷ rs) h =
    let (here, later) = >>-eq-ok _ _ h in
    (agrees_sound first r here, all_agree_sound first rs later)

-- What the first loop has checked of a report.
pub record IsRawXemu (p : Platform) (report : Fields) : Type 0 where
  pub valid : validate_report_shape p report ≡ ok tt
  pub from_xemu : py_eq (get_null "source_type" report) (str "XEMU") ≡ true
  pub raw : is_null (get_null "oracle_provenance" report) ≡ true

check_reports_sound :
    (p : Platform) (reports : List Fields)
    → check_reports p reports ≡ ok tt
    → All (IsRawXemu p) reports
unfolding check_reports
check_reports_sound p [] h = tt
check_reports_sound p (r ∷ rs) h =
    let (v, h1) = >>-eq-ok _ _ h in
    let (x, h2) = >>-eq-ok _ _ h1 in
    let (n, later) = >>-eq-ok _ _ h2 in
    (
      record { valid = v; from_xemu = guard-eq-ok _ _ x; raw = guard-eq-ok _ _ n },
      check_reports_sound p rs later,
    )

-- A consensus that was built: at least two reports, with at least two different identifiers.
pub record Consensus (p : Platform) (reports : List Fields) (manifest : Fields) : Type 0 where
  pub first : Fields
  pub others : List Fields
  pub listed : reports ≡ first ∷ others
  pub raw : All (IsRawXemu p) reports
  pub two : 1 < length (once (report_ids reports))
  pub agreed : All (Agrees first) others
  pub ids : List Json
  pub in_order : sorted_values (once (report_ids reports)) ≡ ok ids
  pub made : manifest ≡ manifest_of p first (once (report_ids reports)) ids

-- `build_consensus` returns a manifest only where there are two reports or more with at least two
-- distinct identifiers, each valid, raw and from xemu, and where every further report has the first
-- one's backend, guest image and job, and a view for comparison that is the same value as the first
-- one's. The manifest is then the one made of the first report and the sorted identifiers.
pub build_consensus_sound :
    (p : Platform) (reports : List Fields) (manifest : Fields)
    → build_consensus p reports ≡ ok manifest
    → Consensus p reports manifest
unfolding build_consensus
build_consensus_sound p [] m h = cc
build_consensus_sound p (r ∷ []) m h = cc
build_consensus_sound p (first ∷ second ∷ more) m h =
    let (c, h1) = >>-eq-ok _ _ h in
    let (g, h2) = >>-eq-ok _ _ h1 in
    let (v, h3) = >>-eq-ok _ _ h2 in
    let (a, h4) = >>-eq-ok _ _ h3 in
    let (ids, s, h5) = >>=-eq-ok _ _ h4 in
    record {
      first = first;
      others = second ∷ more;
      listed = refl;
      raw = check_reports_sound p (first ∷ second ∷ more) c;
      two = ltb→lt _ _ (guard-eq-ok _ _ g);
      agreed = all_agree_sound first (second ∷ more) a;
      ids = ids;
      in_order = s;
      made = sym (ok_inj h5);
    }
