-- ===== src/Tests/Compare.antt =====
-- The theorem on utils/hash_compare.py at two concrete runs.
use xemu_perf_tests.Base.{String, none, true, str_eq, ◌≡◌, ◌↔◌, refl, string_dec}
use xemu_perf_tests.Base.Text.{lower, strip}
use xemu_perf_tests.Base.Result.{Result, ok, err}
use xemu_perf_tests.Json.{Json, str, arr, obj, nil, cons, Fields, end, field}
use xemu_perf_tests.Json.Keys.{sorted, sorted_union}
use xemu_perf_tests.Compare.{compare_run}
use xemu_perf_tests.Compare.Records.{Python, load_run}
use xemu_perf_tests.Compare.Pass.{Passed, compare_run-passes_iff}

abbrev python : Python
python = record { loads = λ s. none; repr = λ v. "" }

abbrev rec : String → String → Json
rec name frame = obj (
    field "name" (str name)
      (field "framebuffer_fnv1a64" (str frame) (field "work_checksum" (str "00ff") end)))

abbrev loaded : Result Fields → Fields
loaded (ok fs) = fs
loaded (err e) = end

abbrev baseline : Fields
baseline = loaded (load_run python (arr (cons (rec " a" "01AB") (cons (rec "b" "02") nil))))

abbrev candidate : Fields
candidate = loaded (load_run python (arr (cons (rec "b" "02 ") (cons (rec "a" "01ab") nil))))

run_passes : str_eq (compare_run python baseline "run" candidate).verdict "PASS" ≡ true
unfolding load_run compare_run sorted sorted_union lower strip string_dec
run_passes = refl

compare_run-passes_iff_example :
    (str_eq (compare_run python baseline "run" candidate).verdict "PASS" ≡ true)
    ↔ Passed python baseline candidate
compare_run-passes_iff_example = compare_run-passes_iff python baseline candidate "run"
