-- ===== src/Oracle/Manifest.antt =====
-- `_validate_oracle_shape` of utils/oracle_validation.py.
use xemu_perf_tests.Base.{
  ℕ, ◌==◌, ltb, Bool, false, ◌&&◌, String, str_eq, List, [], ◌∷◌, length, if◌then◌else◌,
}
use xemu_perf_tests.Base.Int.{pos}
use xemu_perf_tests.Base.Result.{Result, ok, err, invalid, crash, guard, ◌>>=◌, ◌>>◌}
use xemu_perf_tests.Json.{
  Json, int, str, arr, obj, Items, nil, cons, Fields, get_null, elems, texts,
}
use xemu_perf_tests.Json.Equality.{py_eq}
use xemu_perf_tests.Json.Keys.{sorted}
use xemu_perf_tests.Oracle.Values.{integer, hash, text}
use xemu_perf_tests.Oracle.Canonical.{Platform, json_sha256}
use xemu_perf_tests.Oracle.Report.{one_of}
use xemu_perf_tests.Oracle.Shape.{validate_normalized_records, is_version_one}
use xemu_perf_tests.Oracle.Consensus.{consensus_stable}
use xemu_perf_tests.Oracle.Retail.{
  Owner, owners_json, owner_ids, all_distinct, sort_owners, retail_stable,
}

abbrev provenance_classes : List String
provenance_classes = "REGRESSION_CONSENSUS" ∷ "RETAIL_XBOX" ∷ []

-- Membership in the frozenset ORACLE_PROVENANCE_CLASSES hashes the value, which a list or a dict has
-- no hash for.
unfoldable pub provenance_of : Json → Result String
unfolding one_of
provenance_of (arr vs) = err (crash "TypeError: unhashable type: 'list'")
provenance_of (obj fs) = err (crash "TypeError: unhashable type: 'dict'")
provenance_of v = one_of provenance_classes v "oracle provenance must be explicit"

-- `not isinstance(value, list) or len(value) != count`, turned round.
abbrev pub is_list_of : ℕ → Json → Bool
is_list_of n (arr vs) = length (elems vs) == n
is_list_of n v = false

abbrev pub list_items : Json → Items
list_items (arr vs) = vs
list_items v = nil

unfoldable pub normalized_ids : Items → Result (List String)
normalized_ids nil = ok []
normalized_ids (cons v vs) = do
  s ← hash v "consensus_report_id" (64 ∷ [])
  ss ← normalized_ids vs
  ok (s ∷ ss)

unfoldable pub normalized_owner : Json → Result Owner
normalized_owner (obj fs) = do
  owner_id ← text (get_null "owner_id" fs) "owner report owner_id is required"
  revision ← text (get_null "hardware_revision" fs) "owner report hardware revision is required"
  report_id ← hash (get_null "report_id" fs) "owner report_id" (64 ∷ [])
  ok (record { owner_id = owner_id; hardware_revision = revision; report_id = str report_id })
normalized_owner v = err (invalid "owner report metadata must be an object")

unfoldable pub normalized_owners : Items → Result (List Owner)
unfolding normalized_owner
normalized_owners nil = ok []
normalized_owners (cons v vs) = do o ← normalized_owner v; os ← normalized_owners vs; ok (o ∷ os)

-- What a manifest of the first class is stable in, once its list of reports is checked.
unfoldable pub consensus_part : Fields → Json → Json → Json → Result Fields
unfolding normalized_ids
consensus_part value backend guest job = do
  count ← integer (get_null "consensus_report_count" value) "consensus_report_count"
  let ids = get_null "consensus_report_ids" value
  guard (ltb 1 count && is_list_of count ids)
      (invalid "REGRESSION_CONSENSUS requires distinct reports")
  hashes ← normalized_ids (list_items ids)
  guard (all_distinct (sorted hashes) && py_eq ids (arr (texts (sorted hashes))))
      (invalid "consensus report IDs must be unique and sorted")
  ok (
      consensus_stable backend guest job (get_null "records" value) (int (pos count))
        (arr (texts (sorted hashes))))

unfoldable pub retail_part : Fields → String → Json → Json → Result Fields
unfolding normalized_owners
retail_part value backend guest job = do
  guard (str_eq backend "retail-xbox") (invalid "RETAIL_XBOX source backend must be retail-xbox")
  count ← integer (get_null "owner_report_count" value) "owner_report_count"
  let reports = get_null "owner_reports" value
  guard (ltb 1 count && is_list_of count reports)
      (invalid "RETAIL_XBOX oracle requires multiple owner reports")
  owners ← normalized_owners (list_items reports)
  let by_owner = sort_owners owners
  guard (all_distinct (owner_ids by_owner) && py_eq reports (arr (owners_json by_owner)))
      (invalid "owner reports must have distinct sorted owner IDs")
  ok (
      retail_stable guest job (get_null "records" value) (int (pos count))
        (arr (owners_json by_owner)))

module _ (p : Platform) where
  unfoldable pub validate_oracle_shape : Fields → Result (Unit {0})
  unfolding provenance_of consensus_part retail_part
  validate_oracle_shape value = do
    guard
        (is_version_one p value
          && py_eq (get_null "kind" value) (str "xemu_functional_hash_oracle"))
        (invalid "unsupported functional hash oracle")
    provenance ← provenance_of (get_null "oracle_provenance" value)
    backend ← text (get_null "source_backend" value) "oracle source_backend is required"
    guest ← hash (get_null "guest_image_sha256" value) "guest_image_sha256" (64 ∷ [])
    job ← hash (get_null "job_sha256" value) "job_sha256" (64 ∷ [])
    validate_normalized_records p (get_null "records" value)
    stable ←
        if str_eq provenance "REGRESSION_CONSENSUS"
        then consensus_part value (str backend) (str guest) (str job)
        else retail_part value backend (str guest) (str job)
    oracle_id ← hash (get_null "oracle_id" value) "oracle_id" (64 ∷ [])
    guard (str_eq oracle_id (json_sha256 p (obj stable)))
        (invalid "oracle_id does not match oracle content")
