-- ===== src/Oracle/RecordShape.antt =====
-- The checks that `_validate_normalized_records` of utils/oracle_validation.py makes of a record. Where
-- the source goes through a set, the order in which the first failure is met is not fixed there;
-- here it is the order in which the fields are written.
use Prim.Native.String.{count}
use xemu_perf_tests.Base.{
  ltb, Bool, true, false, not, ◌&&◌, ◌||◌, String, ◌<>◌, str_eq, Option, none, some, List, [], ◌∷◌,
  contains, all,
}
use xemu_perf_tests.Base.Result.{Result, ok, err, invalid, guard, ◌>>=◌, ◌>>◌}
use xemu_perf_tests.Base.Text.{starts_with, remove_prefix}
use xemu_perf_tests.Json.{
  Json, null, str, arr, obj, Items, nil, cons, Fields, end, field, get, get_null, has, keys,
}
use xemu_perf_tests.Oracle.Values.{integer, hash, text, is_text}
use xemu_perf_tests.Oracle.Kats.{normalize_kat_node}
use xemu_perf_tests.Oracle.Contract.{is_stage_order, verdicts}

-- `value is a dict`
abbrev pub is_dict : Json → Bool
is_dict (obj fs) = true
is_dict _ = false

-- The items of a dict; of another value, none.
abbrev pub dict : Json → Fields
dict (obj fs) = fs
dict _ = end

abbrev pub contract_fields : List String
contract_fields =
    "iterations" ∷ "sample_count" ∷ "measurement_iterations_multiplier" ∷ "warmup_iterations"
    ∷ "gpu_completion_mode" ∷ []

-- `set(d) == set(names)`
abbrev pub keys_are : List String → Fields → Bool
keys_are names fs = all (contains names) (keys fs) && all (λ k. has k fs) names

abbrev pub has_contract_keys : Fields → Bool
has_contract_keys contract =
    keys_are contract_fields contract || keys_are ("stage_order" ∷ contract_fields) contract

abbrev pub order_ok : Option Json → Bool
order_ok none = true
order_ok (some order) = is_stage_order order

unfoldable pub check_contract : String → Fields → Result (Unit {0})
check_contract test_id contract = do
  guard (has_contract_keys contract) (invalid (test_id <> " fixed-work contract is incomplete"))
  _ ← integer (get_null "iterations" contract) (test_id <> ".iterations")
  _ ← integer (get_null "sample_count" contract) (test_id <> ".sample_count")
  _ ←
      integer (get_null "measurement_iterations_multiplier" contract)
        (test_id <> ".measurement_iterations_multiplier")
  _ ← integer (get_null "warmup_iterations" contract) (test_id <> ".warmup_iterations")
  _ ← text (get_null "gpu_completion_mode" contract) (test_id <> ".gpu_completion_mode is required")
  guard (order_ok (get "stage_order" contract)) (invalid (test_id <> ".stage_order is invalid"))

abbrev pub is_observation : Json → Bool
is_observation (str s) =
    str_eq s "framebuffer_fnv1a64" || (starts_with s "kats." && ltb 5 (count s))
is_observation _ = false

abbrev pub all_observations : Items → Bool
all_observations nil = true
all_observations (cons v vs) = is_observation v && all_observations vs

-- A list of observations that is not empty.
abbrev pub is_observation_list : Json → Bool
is_observation_list (arr (cons v vs)) = is_observation v && all_observations vs
is_observation_list _ = false

abbrev pub is_policy : Json → Bool
is_policy (obj fs) =
    keys_are ("excluded_observations" ∷ "reason" ∷ []) fs
    && is_observation_list (get_null "excluded_observations" fs)
    && is_text (get_null "reason" fs)
is_policy _ = false

-- The texts of a checked list.
abbrev pub item_texts : Items → List String
item_texts nil = []
item_texts (cons (str s) vs) = s ∷ item_texts vs
item_texts (cons v vs) = item_texts vs

abbrev list_texts : Json → List String
list_texts (arr vs) = item_texts vs
list_texts _ = []

abbrev pub excluded_of : Json → List String
excluded_of policy = list_texts (get_null "excluded_observations" (dict policy))

unfoldable pub check_policy : String → Json → Result (Unit {0})
check_policy test_id null = ok tt
check_policy test_id policy =
    guard (is_policy policy) (invalid (test_id <> ".comparison_policy is invalid"))

unfoldable pub check_frame : String → Bool → Fields → Result (Unit {0})
check_frame test_id true hashes =
    guard (not (has "framebuffer_fnv1a64" hashes))
      (invalid (test_id <> " retains an excluded framebuffer observation"))
check_frame test_id false hashes = do
  _ ← hash (get_null "framebuffer_fnv1a64" hashes) (test_id <> ".framebuffer_fnv1a64") (16 ∷ [])
  ok tt

unfoldable pub check_checksums : String → Option Json → Option Json → Result (Unit {0})
check_checksums test_id none none = ok tt
check_checksums test_id (some work) (some result) = do
  _ ← hash work (test_id <> ".work_checksum") (8 ∷ [])
  _ ← hash result (test_id <> ".result_checksum") (8 ∷ [])
  ok tt
check_checksums test_id _ _ =
    err (invalid (test_id <> " must provide both work_checksum and result_checksum"))

abbrev pub hash_fields : List String
hash_fields = "framebuffer_fnv1a64" ∷ "work_checksum" ∷ "result_checksum" ∷ "kats" ∷ []

unfoldable pub check_kats : String → Option Json → Result (Unit {0})
check_kats test_id none = ok tt
check_kats test_id (some (obj (field k v fs))) = do
  _ ← normalize_kat_node (obj (field k v fs)) (test_id <> ".kats")
  ok tt
check_kats test_id (some v) = err (invalid (test_id <> ".kats must be a non-empty object"))

-- `observation.removeprefix("kats.") in hashes.get("kats", {})`
abbrev pub retains : Fields → String → Bool
retains kats observation =
    starts_with observation "kats." && has (remove_prefix observation "kats.") kats

unfoldable pub check_hashes : String → List String → Fields → Result (Unit {0})
unfolding check_frame check_checksums check_kats
check_hashes test_id excluded hashes = do
  check_frame test_id (contains excluded "framebuffer_fnv1a64") hashes
  check_checksums test_id (get "work_checksum" hashes) (get "result_checksum" hashes)
  guard (all (contains hash_fields) (keys hashes))
      (invalid (test_id <> " contains unsupported hash fields"))
  check_kats test_id (get "kats" hashes)
  guard (all (λ o. not (retains (dict (get_null "kats" hashes)) o)) excluded)
      (invalid (test_id <> " retains an excluded observation"))

abbrev pub is_verdict : Json → Bool
is_verdict (str s) = contains verdicts s
is_verdict _ = false

abbrev pub text_if_there : Option Json → Bool
text_if_there none = true
text_if_there (some v) = is_text v

unfoldable pub check_count : String → Option Json → Result (Unit {0})
check_count test_id none = ok tt
check_count test_id (some v) = do _ ← integer v (test_id <> ".internal_oracle.failure_count"); ok tt

unfoldable pub check_internal : String → Json → Result (Unit {0})
unfolding check_count
check_internal test_id null = ok tt
check_internal test_id (obj internal) = do
  guard (is_verdict (get_null "status" internal))
      (invalid (test_id <> ".internal_oracle status must be PASS or FAIL"))
  check_count test_id (get "failure_count" internal)
  guard (text_if_there (get "provenance" internal))
      (invalid (test_id <> ".internal_oracle.provenance is invalid"))
  guard (text_if_there (get "failure_reason" internal))
      (invalid (test_id <> ".internal_oracle.failure_reason is invalid"))
check_internal test_id v = err (invalid (test_id <> ".internal_oracle must be an object"))
