-- ===== src/Package/Category.antt =====
-- `category` of utils/package_runner_suite.py, on the lowered suite and test names.
use xemu_perf_tests.Base.{
  Bool, true, false, ◌||◌, String, ◌<>◌, str_eq, List, [], ◌∷◌, contains, if◌then◌else◌, ◌≡◌, refl,
  string_dec,
}
use mathlib.Core.Path.{subst}
use xemu_perf_tests.Base.Text.{contains_text, starts_with}
use xemu_perf_tests.Base.Result.{Error, Result, ok, err, invalid, ok_inj}

-- `CATEGORIES`
abbrev pub categories : List (String × String)
categories =
    ("cpu", "CPU and translation")
    ∷ ("commands", "Command submission and reports")
    ∷ ("geometry", "Geometry and vertex data")
    ∷ ("textures", "Textures and compression")
    ∷ ("surfaces", "Surfaces, framebuffer and memory")
    ∷ ("scenarios", "Game-like scenarios")
    ∷ ("shaders", "Shaders and pipelines")
    ∷ ("audio", "MCPX voice input and mixing")
    ∷ []

abbrev geometry_suites : List String
geometry_suites =
    "high_vertex_count" ∷ "primitive_type" ∷ "tiny_draw" ∷ "vertex_buffer_allocation" ∷ []

abbrev surface_suites : List String
surface_suites = "surface" ∷ "surface_rendering" ∷ "fill_rate" ∷ "pvideo" ∷ []

unfoldable pub category : String → String → Result String
unfolding contains_text starts_with
category suite identity =
    if str_eq suite "mcpx_voice"
    then ok "audio"
    else if contains_text suite "shader"
        || contains ("uniform_thrash" ∷ "pipeline_texture_switch" ∷ []) suite
    then ok "shaders"
    else if starts_with suite "cpu"
    then ok "cpu"
    else if contains_text suite "pfifo" || contains_text suite "report_query"
    then ok "commands"
    else if contains geometry_suites suite
    then ok "geometry"
    else if contains_text suite "texture" || contains_text identity "s3tc_sync_factor"
    then ok "textures"
    else if contains surface_suites suite
    then ok "surfaces"
    else if str_eq suite "game_load" || starts_with suite "game_load_"
    then ok "scenarios"
    else err
        (invalid ("Unclassified suite: " <> suite <> "; extend the category map before packaging."))

abbrev pub is_key : String → List (String × String) → Bool
is_key key [] = false
is_key key ((k, name) ∷ cs) = str_eq key k || is_key key cs

if_known :
    (k : String) (b : Bool) {key : String} {rest : Result String}
    → is_key k categories ≡ true
    → (rest ≡ ok key → is_key key categories ≡ true)
    → (if b then ok k else rest) ≡ ok key
    → is_key key categories ≡ true
if_known k true g later h = subst (λ j. is_key j categories ≡ true) (ok_inj h) g
if_known k false g later h = later h

unclassified : {key : String} {e : Error} → err e ≡ ok key → is_key key categories ≡ true
unclassified h = cc

-- What `category` returns is a key of `CATEGORIES`.
pub category-is_key :
    (suite identity key : String) → category suite identity ≡ ok key → is_key key categories ≡ true
unfolding category string_dec
category-is_key suite identity key h =
    if_known "audio" _ refl
      (if_known "shaders" _ refl (
        if_known "cpu" _ refl (
          if_known "commands" _ refl (
            if_known "geometry" _ refl (
              if_known "textures" _ refl
                (if_known "surfaces" _ refl (if_known "scenarios" _ refl unclassified)))))))
      h
