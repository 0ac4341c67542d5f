-- ===== src/Oracle/Shape/Valid.antt =====
-- What a report that passes `_validate_report_shape` of utils/oracle_validation.py is known to be.
use xemu_perf_tests.Base.{true, ◌&&◌, String, eq_of-str_eq, [], ◌∷◌, ◌≡◌}
use xemu_perf_tests.Base.Result.{ok, >>=-eq-ok, >>-eq-ok, guard-eq-ok}
use xemu_perf_tests.Json.{null, str, obj, Fields, get_null}
use xemu_perf_tests.Json.Equality.{py_eq}
use xemu_perf_tests.Oracle.Values.{hash, text}
use xemu_perf_tests.Oracle.Canonical.{Platform, json_sha256}
use xemu_perf_tests.Oracle.Record.{is_null}
use xemu_perf_tests.Oracle.Report.{source_types, one_of, report_stable, report_identity}
use xemu_perf_tests.Oracle.Shape.{
  validate_normalized_records, is_version_one, validate_report_shape,
}

module _ (p : Platform) where
  pub record IsReport (report : Fields) : Type 0 where
    pub guest : String
    pub job : String
    pub report_id : String
    pub functional_id : String
    pub observation : String
    pub source_type : String
    pub backend : String
    pub kind :
        (is_version_one p report
          && py_eq (get_null "kind" report) (str "xemu_functional_hash_report"))
        ≡ true
    pub guest_read :
        hash (get_null "guest_image_sha256" report) "guest_image_sha256" (64 ∷ []) ≡ ok guest
    pub job_read : hash (get_null "job_sha256" report) "job_sha256" (64 ∷ []) ≡ ok job
    pub id_read : hash (get_null "report_id" report) "report_id" (64 ∷ []) ≡ ok report_id
    pub functional_read :
        hash (get_null "functional_id" report) "functional_id" (64 ∷ []) ≡ ok functional_id
    pub observation_read :
        text (get_null "observation_id" report) "functional report observation_id is required"
        ≡ ok observation
    pub source_read :
        one_of source_types
          (get_null "source_type" report)
          "functional report source_type is invalid"
        ≡ ok source_type
    pub backend_read :
        text (get_null "source_backend" report) "functional report source_backend is required"
        ≡ ok backend
    pub raw : is_null (get_null "oracle_provenance" report) ≡ true
    pub records_valid : validate_normalized_records p (get_null "records" report) ≡ ok tt
    pub functional_made :
        functional_id
        ≡ json_sha256 p (
            obj (
              report_stable null
                (str source_type)
                (str backend)
                (str guest)
                (str job)
                (get_null "records" report)))
    pub id_made :
        report_id
        ≡ json_sha256 p (
            report_identity
              (str functional_id)
              (str observation)
              (get_null "surface_scale" report)
              (get_null "build" report)
              (get_null "hardware" report))

  pub validate_report_shape_sound :
      (report : Fields) → validate_report_shape p report ≡ ok tt → IsReport report
  unfolding validate_report_shape
  validate_report_shape_sound report h =
      let (k, h1) = >>-eq-ok _ _ h in
      let (guest, g, h2) = >>=-eq-ok _ _ h1 in
      let (job, j, h3) = >>=-eq-ok _ _ h2 in
      let (report_id, r, h4) = >>=-eq-ok _ _ h3 in
      let (functional_id, f, h5) = >>=-eq-ok _ _ h4 in
      let (observation, o, h6) = >>=-eq-ok _ _ h5 in
      let (source_type, s, h7) = >>=-eq-ok _ _ h6 in
      let (backend, b, h8) = >>=-eq-ok _ _ h7 in
      let (n, h9) = >>-eq-ok _ _ h8 in
      let (v, h10) = >>-eq-ok _ _ h9 in
      let (m, h11) = >>-eq-ok _ _ h10 in
      record {
        guest = guest;
        job = job;
        report_id = report_id;
        functional_id = functional_id;
        observation = observation;
        source_type = source_type;
        backend = backend;
        kind = guard-eq-ok _ _ k;
        guest_read = g;
        job_read = j;
        id_read = r;
        functional_read = f;
        observation_read = o;
        source_read = s;
        backend_read = b;
        raw = guard-eq-ok _ _ n;
        records_valid = v;
        functional_made = eq_of-str_eq _ _ (guard-eq-ok _ _ m);
        id_made = eq_of-str_eq _ _ (guard-eq-ok _ _ h11);
      }
