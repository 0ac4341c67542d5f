-- ===== src/Audio/Paths.antt =====
-- What the cases that `build_cases` of utils/audio_torture_cases.py makes have in common.
use xemu_perf_tests.Base.{true, String, str_eq, some, List, All, ◌≡◌}
use xemu_perf_tests.Base.Result.{ok}
use xemu_perf_tests.Audio.{Family, Case, intended_paths}
use xemu_perf_tests.Audio.Validate.{has_paths}
use xemu_perf_tests.Audio.Wanted.{Wanted}

-- The case requires the paths that are wanted of it, and the two conditions that `validate` has on
-- its state and its paths hold.
pub record IsReady (families : List Family) (c : Case) : Type 0 where
  pub paths : List String
  pub required : c.required_paths ≡ some paths
  pub wanted : Wanted families c paths
  pub state_accepted : str_eq c.implementation_state "planned" ≡ true
  pub paths_accepted :
      (expected : List String)
      → intended_paths families c ≡ ok expected
      → has_paths c.required_paths expected ≡ true

abbrev IsPlanned : Case → Type 0
IsPlanned c = c.implementation_state ≡ "planned"

abbrev ArePlanned : List Case → Type 0
ArePlanned = All IsPlanned

-- `_intended_paths` reads nothing that is set after it was called.
abbrev with_required : Case → List String → Case
with_required c paths = record c { required_paths = some paths }
