-- ===== src/Catalog/Entry.antt =====
-- `Entry`, `leaf`, `group`, `simple` and `staged` of utils/test_catalog.py.
use Prim.Native.Char.{code}
use xemu_perf_tests.Base.{ℕ, suc, ◌==◌, String, ◌<>◌, List, [], ◌∷◌, ◌++◌, if◌then◌else◌}
use xemu_perf_tests.Base.Text.{is_blank}

pub record Entry : Type 0 where
  pub id : String
  pub suite_id : String
  pub legacy_suite : String
  pub legacy_result : String
  pub execution_test : String
  pub description : String
  pub tags : List String
  pub kind : String
  pub parent_id : String
  pub selection_group : String
  pub selection_bit : ℕ

-- The property `legacy_id`.
abbrev pub legacy_id : Entry → String
legacy_id x = x.legacy_suite <> ("::" <> x.legacy_result)

-- `leaf` with every argument given.
abbrev pub leaf_in :
    String → String → String → String → String → List String → String → String → String → ℕ → Entry
leaf_in id suite_id legacy_suite legacy_result description tags execution_test parent_id
      selection_group selection_bit =
    record {
      id = id;
      suite_id = suite_id;
      legacy_suite = legacy_suite;
      legacy_result = legacy_result;
      execution_test = if is_blank execution_test then legacy_result else execution_test;
      description = description;
      tags = tags;
      kind = "leaf";
      parent_id = parent_id;
      selection_group = selection_group;
      selection_bit = selection_bit;
    }

-- `leaf` with the defaults of its last four arguments.
abbrev pub leaf : String → String → String → String → String → List String → Entry
leaf id suite_id legacy_suite legacy_result description tags =
    leaf_in id suite_id legacy_suite legacy_result description tags "" "" "" 0

abbrev pub group : String → String → String → String → String → List String → Entry
group id suite_id legacy_suite legacy_result description tags = record {
  id = id;
  suite_id = suite_id;
  legacy_suite = legacy_suite;
  legacy_result = legacy_result;
  execution_test = legacy_result;
  description = description;
  tags = tags;
  kind = "group";
  parent_id = "";
  selection_group = "";
  selection_bit = 0;
}

-- What `simple` appends.
abbrev pub simple : String → String → List (String × String) → List String → List Entry
simple sid suite [] tags = []
simple sid suite ((stable, legacy) ∷ pairs) tags =
    leaf (sid <> ("." <> stable)) sid suite legacy
      ("Runs the " <> (legacy <> " workload and records its deterministic result.")) tags
    ∷ simple sid suite pairs tags

-- `s.replace("_", " ")`
abbrev pub spaced : String → String
spaced String.[] = ""
spaced (String.◌∷◌ c s) = String.◌∷◌ (if code c == 95 then " " else c) (spaced s)

-- `s.split(".")[0]`
abbrev pub before_dot : String → String
before_dot String.[] = ""
before_dot (String.◌∷◌ c s) =
    let rest = before_dot s in if code c == 46 then "" else String.◌∷◌ c rest

-- The loop of `staged` over the stages, from a number on.
unfoldable pub stage_leaves :
    String → String → String → List String → ℕ → List (String × String) → List Entry
stage_leaves parent legacy_parent selection_group tags bit [] = []
stage_leaves parent legacy_parent selection_group tags bit ((stable, legacy) ∷ stages) =
    leaf_in (parent <> ("." <> stable)) (before_dot parent) "GameLoadComposite" legacy
      ("Measures the " <> (spaced stable <> " stage.")) tags legacy_parent parent selection_group
      bit
    ∷ stage_leaves parent legacy_parent selection_group tags (suc bit) stages

-- What `staged` appends.
unfoldable pub staged :
    String → String → String → List (String × String) → List String → String → List Entry
unfolding stage_leaves
staged parent legacy_parent selection_group stages tags description =
    group parent (before_dot parent) "GameLoadComposite" legacy_parent
      (description <> "; the group has no timing value.") (tags ++ ("group" ∷ []))
    ∷ stage_leaves parent legacy_parent selection_group tags 0 stages

-- A loop that appends several entries a round.
abbrev pub each {ℓ} : {A : Type ℓ} → (A → List Entry) → List A → List Entry
each f [] = []
each f (x ∷ xs) = f x ++ each f xs
