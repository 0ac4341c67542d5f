-- ===== src/Oracle/Contract.antt =====
-- `record_internal_oracle` and `record_contract` of utils/oracle_validation.py.
use xemu_perf_tests.Base.{
  Bool, true, false, ◌&&◌, String, ◌<>◌, Option, none, some, List, [], ◌∷◌, if◌then◌else◌,
}
use xemu_perf_tests.Base.Int.{pos}
use xemu_perf_tests.Base.Result.{Result, ok, err, invalid, guard, ◌>>=◌, ◌>>◌}
use xemu_perf_tests.Base.Text.{upper}
use xemu_perf_tests.Base.{contains}
use xemu_perf_tests.Json.{
  Json, null, int, str, arr, obj, Items, nil, cons, Fields, end, field, get, get_null, has,
}
use xemu_perf_tests.Oracle.Values.{integer, text, is_text, shown}

abbrev pub verdicts : List String
verdicts = "PASS" ∷ "FAIL" ∷ []

unfoldable pub check_status : String → Json → Result String
check_status name (str s) = do
  guard (contains verdicts (upper s)) (invalid (name <> ".oracle_status must be PASS or FAIL"))
  ok (upper s)
check_status name v = err (invalid (name <> ".oracle_status must be PASS or FAIL"))

-- An optional text that must not be empty, under a name of its own.
unfoldable pub optional_text : String → String → Json → Result Fields
optional_text key message null = ok end
optional_text key message v = do s ← text v message; ok (field key (str s) end)

unfoldable pub optional_count : String → Json → Result Fields
optional_count name null = ok end
optional_count name v = do
  n ← integer v (name <> ".oracle_failure_count")
  ok (field "failure_count" (int (pos n)) end)

-- One dict after the other.
abbrev pub join : Fields → Fields → Fields
join end gs = gs
join (field k v fs) gs = field k v (join fs gs)

unfoldable pub assessment : String → Fields → Result Fields
unfolding check_status optional_text optional_count
assessment name metadata = do
  status ← check_status name (get_null "oracle_status" metadata)
  provenance ←
      optional_text "provenance" (name <> ".oracle_provenance is invalid")
        (get_null "oracle_provenance" metadata)
  count ← optional_count name (get_null "oracle_failure_count" metadata)
  reason ←
      optional_text "failure_reason" (name <> ".oracle_failure_reason is invalid")
        (get_null "oracle_failure_reason" metadata)
  ok (field "status" (str status) (join provenance (join count reason)))

unfoldable pub metadata_oracle : String → Json → Result (Option Fields)
metadata_oracle name (obj metadata) =
    if has "oracle_status" metadata
    then (assessment name metadata >>= λ a. ok (some a))
    else ok none
metadata_oracle name v = ok none

unfoldable pub record_internal_oracle : Fields → Result (Option Fields)
unfolding assessment metadata_oracle
record_internal_oracle entry =
    metadata_oracle (shown (get_null "name" entry)) (get_null "metadata" entry)

abbrev pub all_text : Items → Bool
all_text nil = true
all_text (cons v vs) = is_text v && all_text vs

-- A list that is not empty, of texts that are not empty.
abbrev pub is_stage_order : Json → Bool
is_stage_order (arr (cons v vs)) = is_text v && all_text vs
is_stage_order _ = false

unfoldable pub with_stage_order : String → Option Json → Result Fields
with_stage_order name none = ok end
with_stage_order name (some order) = do
  guard (is_stage_order order) (invalid (name <> ".stage_order is invalid"))
  ok (field "stage_order" order end)

abbrev metadata_stage_order : Json → Option Json
metadata_stage_order (obj metadata) = get "stage_order" metadata
metadata_stage_order _ = none

unfoldable pub record_contract : Fields → Result Fields
unfolding with_stage_order
record_contract entry = do
  let name = shown (get_null "name" entry)
  iterations ← integer (get_null "iterations" entry) (name <> ".iterations")
  samples ← integer (get_null "sample_count" entry) (name <> ".sample_count")
  multiplier ←
      integer (get_null "measurement_iterations_multiplier" entry)
        (name <> ".measurement_iterations_multiplier")
  warmup ← integer (get_null "warmup_iterations" entry) (name <> ".warmup_iterations")
  completion ←
      text (get_null "gpu_completion_mode" entry) (name <> ".gpu_completion_mode is required")
  stages ← with_stage_order name (metadata_stage_order (get_null "metadata" entry))
  ok (
      field "iterations" (int (pos iterations)) (
        field "sample_count" (int (pos samples)) (
          field "measurement_iterations_multiplier" (int (pos multiplier)) (
            field "warmup_iterations" (int (pos warmup))
              (field "gpu_completion_mode" (str completion) stages)))))
