-- ===== src/Oracle/Retail.antt =====
-- `build_retail_consensus` of utils/oracle_validation.py.
use xemu_perf_tests.Base.{
  Bool, true, not, ◌&&◌, String, List, [], ◌∷◌, length, contains, if◌then◌else◌,
}
use xemu_perf_tests.Base.Int.{pos}
use xemu_perf_tests.Base.Result.{Result, ok, err, invalid, guard, ◌>>=◌, ◌>>◌}
use xemu_perf_tests.Json.{Json, int, str, arr, obj, Items, nil, cons, Fields, end, field, get_null}
use xemu_perf_tests.Json.Equality.{py_eq}
use xemu_perf_tests.Json.Keys.{text_lt}
use xemu_perf_tests.Oracle.Values.{text}
use xemu_perf_tests.Oracle.Canonical.{Platform, json_sha256}
use xemu_perf_tests.Oracle.Record.{is_null}
use xemu_perf_tests.Oracle.Contract.{join}
use xemu_perf_tests.Oracle.Shape.{validate_report_shape}
use xemu_perf_tests.Oracle.Consensus.{agree_on}

pub record Owner : Type 0 where
  pub owner_id : String
  pub hardware_revision : String
  pub report_id : Json

abbrev pub owner_json : Owner → Json
owner_json o = obj (
    field "owner_id" (str o.owner_id)
      (field "hardware_revision" (str o.hardware_revision) (field "report_id" o.report_id end)))

abbrev pub owners_json : List Owner → Items
owners_json [] = nil
owners_json (o ∷ os) = cons (owner_json o) (owners_json os)

abbrev pub owner_ids : List Owner → List String
owner_ids [] = []
owner_ids (o ∷ os) = o.owner_id ∷ owner_ids os

-- `len(set(ids)) == len(ids)`
abbrev pub all_distinct : List String → Bool
all_distinct [] = true
all_distinct (s ∷ ss) = not (contains ss s) && all_distinct ss

-- `owners.sort(key=lambda item: item["owner_id"])`
unfoldable pub insert_owner : Owner → List Owner → List Owner
insert_owner o [] = o ∷ []
insert_owner o (q ∷ qs) =
    if text_lt q.owner_id o.owner_id then q ∷ insert_owner o qs else o ∷ q ∷ qs

unfoldable pub sort_owners : List Owner → List Owner
unfolding insert_owner
sort_owners [] = []
sort_owners (o ∷ os) = insert_owner o (sort_owners os)

-- Who sent a report, from its hardware metadata.
unfoldable pub owner_of : Fields → Json → Result Owner
owner_of report (obj hardware) = do
  owner_id ← text (get_null "owner_id" hardware) "retail report owner_id is required"
  revision ← text (get_null "revision" hardware) "retail report hardware revision is required"
  ok (record {
    owner_id = owner_id;
    hardware_revision = revision;
    report_id = get_null "report_id" report;
  })
owner_of report v = err (invalid "retail report hardware metadata is required")

-- Every field of a retail report against the first one's, with Python's `!=`.
unfoldable pub retail_agrees : Fields → List Fields → Result (Unit {0})
unfolding agree_on
retail_agrees first [] = ok tt
retail_agrees first (r ∷ rs) = do
  agree_on "retail owner reports" "guest_image_sha256" first r
  agree_on "retail owner reports" "job_sha256" first r
  agree_on "retail owner reports" "records" first r
  retail_agrees first rs

abbrev pub retail_stable : Json → Json → Json → Json → Json → Fields
retail_stable guest job records count owners = field "schema_version" (int (pos 1)) (
    field "kind" (str "xemu_functional_hash_oracle") (
      field "oracle_provenance" (str "RETAIL_XBOX") (
        field "source_backend" (str "retail-xbox") (
          field "guest_image_sha256" guest (
            field "job_sha256" job (
              field "records" records
                (field "owner_report_count" count (field "owner_reports" owners end))))))))

module _ (p : Platform) where
  -- The loop that checks the reports and lists their owners.
  unfoldable pub owner_reports : List Fields → Result (List Owner)
  unfolding owner_of
  owner_reports [] = ok []
  owner_reports (r ∷ rs) = do
    validate_report_shape p r
    guard
        (py_eq (get_null "source_type" r) (str "RETAIL_XBOX")
          && is_null (get_null "oracle_provenance" r))
        (invalid "retail consensus accepts only raw RETAIL_XBOX reports")
    owner ← owner_of r (get_null "hardware" r)
    owners ← owner_reports rs
    ok (owner ∷ owners)

  abbrev pub retail_manifest : Fields → List Owner → Fields
  retail_manifest first owners =
      let stable =
        retail_stable (get_null "guest_image_sha256" first) (get_null "job_sha256" first)
          (get_null "records" first) (int (pos (length owners)))
          (arr (owners_json (sort_owners owners))) in
      join stable (field "oracle_id" (str (json_sha256 p (obj stable))) end)

  unfoldable pub build_retail_consensus : List Fields → Result Fields
  unfolding owner_reports retail_agrees sort_owners
  build_retail_consensus (first ∷ second ∷ more) = do
    owners ← owner_reports (first ∷ second ∷ more)
    guard (all_distinct (owner_ids owners))
        (invalid "RETAIL_XBOX oracle requires distinct owner IDs")
    retail_agrees first (second ∷ more)
    ok (retail_manifest first owners)
  build_retail_consensus reports =
      err (invalid "RETAIL_XBOX oracle requires at least two owner reports")
