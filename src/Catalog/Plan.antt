-- ===== src/Catalog/Plan.antt =====
-- `resolved_plan` of utils/test_catalog.py.
use xemu_perf_tests.Base.{String, ◌<>◌, List, [], ◌∷◌, length}
use xemu_perf_tests.Base.Int.{pos}
use xemu_perf_tests.Base.Result.{Result, ok, ◌>>=◌}
use xemu_perf_tests.Json.{Json, int, str, arr, obj, Items, nil, cons, Fields, end, field, get}
use xemu_perf_tests.Oracle.Canonical.{Platform, json_sha256}
use xemu_perf_tests.Oracle.View.{item}
use xemu_perf_tests.Catalog.Print.{indented}

-- `[{"id": test_id} for test_id in ids]`
abbrev pub id_items : List String → Items
id_items [] = nil
id_items (id ∷ ids) = cons (obj (field "id" (str id) end)) (id_items ids)

-- What the identifier of a plan is the hash of.
abbrev pub contract : Json → List String → Json
contract catalog_id ids =
    obj (field "catalog_id" catalog_id (field "tests" (arr (id_items ids)) end))

module _ (p : Platform) where
  abbrev pub plan_id : Json → List String → String
  plan_id catalog_id ids = "sha256:" <> json_sha256 p (contract catalog_id ids)

  unfoldable pub plan : Json → Fields → List String → Json
  plan catalog_id settings ids = obj (
      field "settings" (obj settings) (
        field "resolved_plan"
          (obj (
            field "schema_version" (int (pos 2)) (
              field "plan_id" (str (plan_id catalog_id ids)) (
                field "catalog_id" catalog_id (
                  field "selected_leaf_count" (int (pos (length ids)))
                    (field "tests" (arr (id_items ids)) end))))))
          end))

  unfoldable pub resolved_plan : Fields → Fields → List String → Result String
  unfolding item plan indented
  resolved_plan doc settings ids = do
    catalog_id ← item "catalog_id" (get "catalog_id" doc)
    ok (indented p 0 (plan catalog_id settings ids) <> "\n")
