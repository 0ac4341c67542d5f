-- ===== src/Oracle/Report.antt =====
-- `normalized_records` and `build_report` of utils/oracle_validation.py.
use xemu_perf_tests.Base.{
  Bool, true, not, ◌&&◌, ◌||◌, String, str_eq, Option, none, some, List, [], ◌∷◌, contains,
  if◌then◌else◌,
}
use xemu_perf_tests.Base.Int.{pos}
use xemu_perf_tests.Base.Result.{Result, ok, err, invalid, guard, ◌>>=◌, ◌>>◌}
use xemu_perf_tests.Json.{
  Json, null, int, str, arr, obj, Items, nil, cons, Fields, end, field, get_null, texts,
}
use xemu_perf_tests.Json.Keys.{text_lt}
use xemu_perf_tests.Oracle.Values.{hash, text}
use xemu_perf_tests.Oracle.Canonical.{Platform, canonical_json, json_sha256}
use xemu_perf_tests.Oracle.Record.{Policy, eligible_record_hashes}
use xemu_perf_tests.Oracle.Contract.{record_contract, record_internal_oracle, join}

abbrev pub policy_json : Policy → Json
policy_json policy = obj (
    field "excluded_observations" (arr (texts policy.excluded))
      (field "reason" (str policy.reason) end))

abbrev pub policy_field : Option Policy → Fields
policy_field none = end
policy_field (some policy) = field "comparison_policy" (policy_json policy) end

abbrev pub oracle_field : Option Fields → Fields
oracle_field none = end
oracle_field (some assessment) = field "internal_oracle" (obj assessment) end

-- A normalized record: what the loop of `normalized_records` appends.
pub record Item : Type 0 where
  pub test_id : Json
  pub contract : Fields
  pub hashes : Fields
  pub policy : Option Policy
  pub internal : Option Fields

abbrev pub item_json : Item → Json
item_json i = obj (
    field "test_id" i.test_id (
      field "contract" (obj i.contract)
        (field "hashes" (obj i.hashes) (join (policy_field i.policy) (oracle_field i.internal)))))

unfoldable pub normalized_item : Fields → Result Item
normalized_item entry = do
  (hashes, policy) ← eligible_record_hashes entry
  contract ← record_contract entry
  internal ← record_internal_oracle entry
  ok (record {
    test_id = get_null "name" entry;
    contract = contract;
    hashes = hashes;
    policy = policy;
    internal = internal;
  })

unfoldable pub normalized_items : List Fields → Result (List Item)
normalized_items [] = ok []
normalized_items (entry ∷ rest) = do
  item ← normalized_item entry
  items ← normalized_items rest
  ok (item ∷ items)

abbrev pub name_of : Json → String
name_of (str s) = s
name_of _ = ""

module _ (p : Platform) where
  abbrev pub contract_text : Item → String
  contract_text i = canonical_json p (obj i.contract)

  -- The sort's key is the test's name, which is a text, and then the contract's text.
  abbrev item_lt : Item → Item → Bool
  item_lt i j =
      text_lt (name_of i.test_id) (name_of j.test_id)
      || (str_eq (name_of i.test_id) (name_of j.test_id)
          && text_lt (contract_text i) (contract_text j))

  unfoldable pub insert_item : Item → List Item → List Item
  insert_item i [] = i ∷ []
  insert_item i (j ∷ js) = if item_lt j i then j ∷ insert_item i js else i ∷ j ∷ js

  unfoldable pub sort_items : List Item → List Item
  unfolding insert_item
  sort_items [] = []
  sort_items (i ∷ is) = insert_item i (sort_items is)

  abbrev pub identity : Json → Json → String
  identity test_id contract =
      canonical_json p (obj (field "test_id" test_id (field "contract" contract end)))

  abbrev pub identities : List Item → List String
  identities [] = []
  identities (i ∷ is) = identity i.test_id (obj i.contract) ∷ identities is

  -- `len(set(texts)) == len(texts)`
  abbrev pub distinct : List String → Bool
  distinct [] = true
  distinct (s ∷ ss) = not (contains ss s) && distinct ss

  unfoldable pub normalized_records : List Fields → Result (List Item)
  unfolding normalized_item normalized_items sort_items
  normalized_records entries = do
    items ← normalized_items entries
    let sorted_items = sort_items items
    guard (distinct (identities sorted_items))
        (invalid "functional report contains a duplicate result record")
    ok sorted_items

abbrev pub items_json : List Item → Items
items_json [] = nil
items_json (i ∷ is) = cons (item_json i) (items_json is)

-- The keyword arguments of `build_report`; an argument that is None is `null`.
pub record Observation : Type 0 where
  pub guest_image_sha256 : Json
  pub job_config : Json
  pub source_backend : Json
  pub source_type : Json
  pub observation_id : Json
  pub build : Json
  pub surface_scale : Json
  pub hardware : Json

-- `value or None`, for a dict or None.
abbrev pub or_none : Json → Json
or_none (obj end) = null
or_none v = v

abbrev pub source_types : List String
source_types = "XEMU" ∷ "RETAIL_XBOX" ∷ []

-- A value that must be one of some texts.
unfoldable pub one_of : List String → Json → String → Result String
one_of allowed (str s) message = do guard (contains allowed s) (invalid message); ok s
one_of allowed v message = err (invalid message)

abbrev pub report_stable : Json → Json → Json → Json → Json → Json → Fields
report_stable provenance source_type backend guest job records =
    field "schema_version" (int (pos 1)) (
      field "kind" (str "xemu_functional_hash_report") (
        field "oracle_provenance" provenance (
          field "source_type" source_type (
            field "source_backend" backend (
              field "guest_image_sha256" guest
                (field "job_sha256" job (field "records" records end)))))))

abbrev pub report_identity : Json → Json → Json → Json → Json → Json
report_identity functional_id observation_id scale build hardware = obj (
    field "functional_id" functional_id (
      field "observation_id" observation_id
        (field "surface_scale" scale (field "build" build (field "hardware" hardware end)))))

module _ (p : Platform) where
  -- The report that `build_report` puts together from checked parts.
  abbrev pub assembled : Observation → String → List Item → Fields
  assembled o guest items =
      let stable =
        report_stable null o.source_type o.source_backend (str guest)
          (str (json_sha256 p o.job_config)) (arr (items_json items)) in
      let functional_id = json_sha256 p (obj stable) in
      join stable (
        field "functional_id" (str functional_id) (
          field "observation_id" o.observation_id (
            field "surface_scale" o.surface_scale (
              field "build" (or_none o.build) (
                field "hardware" (or_none o.hardware) (
                  field "report_id"
                    (str (
                      json_sha256 p (
                        report_identity (str functional_id) o.observation_id o.surface_scale
                          (or_none o.build) (or_none o.hardware))))
                    end))))))

  unfoldable pub build_report : List Fields → Observation → Result Fields
  unfolding normalized_records one_of
  build_report entries o = do
    guest ← hash o.guest_image_sha256 "guest_image_sha256" (64 ∷ [])
    _ ← one_of source_types o.source_type "source_type must be XEMU or RETAIL_XBOX"
    _ ← text o.source_backend "source_backend is required"
    _ ← text o.observation_id "observation_id is required"
    items ← normalized_records p entries
    ok (assembled o guest items)
