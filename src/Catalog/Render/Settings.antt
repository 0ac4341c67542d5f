-- ===== src/Catalog/Render/Settings.antt =====
-- The settings that the plans of `render` of utils/test_catalog.py are written with.
use xemu_perf_tests.Base.{ℕ, true, String, List, [], ◌∷◌}
use xemu_perf_tests.Base.Int.{pos}
use xemu_perf_tests.Json.{Json, bool, int, str, Fields}

abbrev pub Planned : Type 0
Planned = String × Fields × List String

abbrev pub Setting : Type 0
Setting = String × Json

abbrev pub autorun : Setting
autorun = ("enable_autorun_immediately", bool true)

abbrev pub xemu_only : Setting
xemu_only = ("enable_xemu_only_tests", bool true)

abbrev pub skip : Setting
skip = ("skip_tests_by_default", bool true)

abbrev pub output_path : Setting
output_path = ("output_directory_path", str "e:/xemu_perf_tests")

-- `warmup`, `multiplier` and `completion`
abbrev pub Profile : Type 0
Profile = String × ℕ × ℕ × String

abbrev pub iterations : ℕ → ℕ → String → List Setting
iterations warmup multiplier completion =
    ("warmup_iterations", int (pos warmup))
    ∷ ("measurement_iterations_multiplier", int (pos multiplier))
    ∷ ("gpu_completion_mode", str completion)
    ∷ []

-- `base_settings`
abbrev pub base_settings : List Setting
base_settings = skip ∷ output_path ∷ []
