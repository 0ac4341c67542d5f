-- ===== src/Catalog/Document.antt =====
-- `catalog` of utils/test_catalog.py: the document that the other generated files are made from.
pub mod Children
use xemu_perf_tests.Base.{
  ℕ, suc, ◌+◌, Bool, true, false, not, ◌||◌, String, ◌<>◌, str_eq, Option, none, some, List, [],
  ◌∷◌, ◌++◌, contains, lookup, insert, if◌then◌else◌,
}
use xemu_perf_tests.Base.Groups.{or_nil, group_by}
use xemu_perf_tests.Base.Int.{pos}
use xemu_perf_tests.Base.Text.{contains_text}
use xemu_perf_tests.Json.{Json, int, str, arr, obj, Items, nil, cons, Fields, end, field, texts}
use xemu_perf_tests.Oracle.Canonical.{Platform, json_sha256}
use xemu_perf_tests.Catalog.Entry.{Entry, legacy_id}

-- `X87_STATUS_IDS`
abbrev pub x87_status_ids : List String
x87_status_ids =
    "cpu_floating_point.x87_status_vectors" ∷ "cpu_floating_point.x87_status_ax"
    ∷ "cpu_floating_point.x87_compare_status_ax" ∷ []

abbrev code_ids : List String
code_ids = "cpu_translation_blocks.code_stable" ∷ "cpu_translation_blocks.code_rewrite" ∷ []

unfoldable pub revision : Entry → ℕ
revision x =
    if contains ("report_query" ∷ "pvideo" ∷ []) x.suite_id
      || contains x87_status_ids x.id
      || contains code_ids x.id
    then 2
    else 1

abbrev pub supported_targets : Entry → List String
supported_targets x = if contains x.tags "xemu-only" then "xemu" ∷ [] else "xemu" ∷ "xbox" ∷ []

unfoldable pub timeout_ms : Entry → ℕ
unfolding contains_text
timeout_ms x =
    if str_eq x.suite_id "pfifo_packet_boundary" || contains code_ids x.id
    then 300000
    else if contains_text x.id "stress"
        || contains_text x.id "jump_cache"
        || str_eq x.suite_id "pvideo"
    then 120000
    else 30000

abbrev pub measurement_class : Entry → String
measurement_class x =
    if not (contains x.tags "performance")
    then "correctness"
    else if contains x.tags "scenario" || contains x.tags "memory-pressure"
    then "scenario"
    else "micro"

abbrev pub Children : Type 0
Children = List (String × List String)

-- The first loop of `catalog`.
unfoldable pub children_of : List Entry → Children
unfolding group_by
children_of items = group_by (λ x. x.parent_id) (λ x. x.id) items []

-- `children.get(id, [])`
unfoldable pub child_ids : Children → String → List String
child_ids children id = or_nil (lookup id children)

abbrev structured : String → Json
structured name = obj (
    field "name" (str name)
      (field "kind" (str "structured") (field "scope_version" (int (pos 1)) end)))

abbrev when : Bool → Json → Items → Items
when true v vs = cons v vs
when false v vs = vs

unfoldable pub observations : Entry → Items
observations x =
    cons
      (obj (
        field "name" (str "framebuffer.visible") (
          field "kind" (str "hash")
            (field "algorithm" (str "fnv1a64") (field "scope_version" (int (pos 1)) end)))))
      (when (str_eq x.suite_id "pvideo") (structured "pvideo.source") (
        when (str_eq x.suite_id "report_query") (structured "report.memory")
          (when (str_eq x.suite_id "mcpx_voice") (structured "apu.mix") nil)))

abbrev measured_samples : Entry → Json
measured_samples x =
    if not (contains x.tags "performance") then int (pos 1) else str "workload_default"

-- What only a group has, and what only a leaf has.
unfoldable pub kind_fields : Children → Entry → Fields
unfolding child_ids observations
kind_fields children x =
    if str_eq x.kind "group"
    then field "child_ids" (arr (texts (child_ids children x.id)))
        (field "aggregation" (str "none") (field "observations" (arr nil) end))
    else field "execution"
        (obj (
          field "legacy_suite" (str x.legacy_suite)
            (field "legacy_test" (str x.execution_test) end)))
        (field "default_measurement"
          (obj (
            field "warmup_samples" (int (pos 0))
              (field "measured_samples" (measured_samples x) end)))
          (field "observations" (arr (observations x)) end))

-- A round of the second loop.
unfoldable pub document : Children → Entry → Fields
unfolding revision timeout_ms kind_fields
document children x = field "id" (str x.id) (
    field "revision" (int (pos (revision x))) (
      field "kind" (str x.kind) (
        field "legacy_ids" (arr (texts (legacy_id x ∷ []))) (
          field "suite_id" (str x.suite_id) (
            field "display_name" (str x.legacy_result) (
              field "description" (str x.description) (
                field "tags" (arr (texts x.tags)) (
                  field "supported_targets" (arr (texts (supported_targets x))) (
                    field "isolation" (str "same_process") (
                      field "timeout_ms" (int (pos (timeout_ms x))) (
                        field "measurement_class" (str (measurement_class x))
                          (kind_fields children x))))))))))))

unfoldable pub documents : Children → List Entry → Items
unfolding document
documents children [] = nil
documents children (x ∷ xs) = cons (obj (document children x)) (documents children xs)

-- `sum(x.kind == kind for x in items)`
abbrev pub count_kind : String → List Entry → ℕ
count_kind kind [] = 0
count_kind kind (x ∷ xs) =
    let rest = count_kind kind xs in if str_eq x.kind kind then suc rest else rest

module _ (p : Platform) where
  abbrev pub identity : Items → String
  identity tests = "sha256:" <> json_sha256 p (arr tests)

  unfoldable pub catalog : List Entry → Fields
  unfolding children_of documents
  catalog items =
      let tests = documents (children_of items) items in
      field "schema_version" (int (pos 1)) (
        field "catalog_id" (str (identity tests)) (
          field "leaf_count" (int (pos (count_kind "leaf" items))) (
            field "group_count" (int (pos (count_kind "group" items)))
              (field "tests" (arr tests) end))))
