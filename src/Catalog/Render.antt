-- ===== src/Catalog/Render.antt =====
-- `render` of utils/test_catalog.py: every generated file and its text.
pub mod Settings
pub mod Plans
mod Profiles
pub mod Total
pub mod Selection
use xemu_perf_tests.Base.{String, str_eq, List, [], ◌∷◌, ◌++◌, insert, if◌then◌else◌}
use xemu_perf_tests.Base.Result.{Result, ok, ◌>>=◌, ◌>>◌}
use xemu_perf_tests.Json.{Json, Fields, get}
use xemu_perf_tests.Json.Equality.{py_eq}
use xemu_perf_tests.Oracle.Canonical.{Platform}
use xemu_perf_tests.Oracle.View.{item, is_str}
use xemu_perf_tests.Package.Catalog.{iterated}
use xemu_perf_tests.Catalog.Entries.{entries}
use xemu_perf_tests.Catalog.Validate.{validate}
use xemu_perf_tests.Catalog.Document.{catalog}
use xemu_perf_tests.Catalog.Plan.{resolved_plan}
use xemu_perf_tests.Catalog.Text.{entry_of, text_of, cpp, markdown, catalog_json}
use xemu_perf_tests.Catalog.Guide.{failure_guide_markdown}
use Settings.{Planned}
use Plans.{
  smoke_plan, pfifo_plans, boundary_plan, pvideo_plans, growth_plan, shader_plans, voice_plan,
}
use Profiles.{
  texture_plans, specialized_plans, dirty_plans, report_plans, submission_plans, x87_plans,
}

-- A dict from paths to texts.
abbrev pub Files : Type 0
Files = List (String × String)

-- `[x["id"] for x in doc["tests"] if x["suite_id"] == "mcpx_voice"]`; an identifier is a text there.
unfoldable pub voice_ids : List Json → Result (List String)
unfolding item
voice_ids [] = ok []
voice_ids (x ∷ xs) = do
  suite_id ← entry_of "suite_id" x
  id ← entry_of "id" x
  name ← text_of id
  rest ← voice_ids xs
  ok (if is_str "mcpx_voice" suite_id then name ∷ rest else rest)

abbrev pub insert_all : List (String × String) → Files → Files
insert_all [] output = output
insert_all ((path, text) ∷ more) output = insert_all more (insert path text output)

-- The plans that are added to the dict after its first files.
unfoldable pub later_plans : List String → List Planned
unfolding pvideo_plans
later_plans ids =
    pvideo_plans
    ++ (growth_plan ∷ shader_plans
        ++ (voice_plan ids ∷ texture_plans
            ++ specialized_plans
            ++ dirty_plans
            ++ report_plans
            ++ submission_plans
            ++ x87_plans))

-- The files in the order in which the dict receives them.
abbrev pub gathered : String → Files → String → String → String → Files → Files
gathered json early table guide inc later =
    (("resources/catalog.json", json) ∷ early)
    ++ (("docs/generated/test-catalog.md", table)
        ∷ ("docs/generated/test-failure-guide.md", guide)
        ∷ ("src/generated/test_catalog.inc", inc)
        ∷ later)

module _ (p : Platform) where
  unfoldable pub plan_texts : Fields → List Planned → Result Files
  unfolding resolved_plan
  plan_texts doc [] = ok []
  plan_texts doc ((path, settings, ids) ∷ plans) = do
    text ← resolved_plan p doc settings ids
    rest ← plan_texts doc plans
    ok ((path, text) ∷ rest)

  unfoldable pub render : (Json → String) → Result Files
  unfolding validate catalog plan_texts catalog_json markdown failure_guide_markdown cpp item
      iterated voice_ids later_plans
  render repr = do
    validate entries
    let doc = catalog p entries
    early ← plan_texts doc (smoke_plan ∷ pfifo_plans ++ (boundary_plan ∷ []))
    json ← catalog_json p repr doc
    table ← markdown repr doc
    guide ← failure_guide_markdown repr doc
    catalog_id ← item "catalog_id" (get "catalog_id" doc)
    identity ← text_of catalog_id
    inc ← cpp entries identity
    tests ← item "tests" (get "tests" doc)
    xs ← iterated tests
    ids ← voice_ids xs
    later ← plan_texts doc (later_plans ids)
    ok (insert_all (gathered json early table guide inc later) [])
