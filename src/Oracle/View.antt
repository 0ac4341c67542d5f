-- ===== src/Oracle/View.antt =====
-- `comparison_records` of utils/oracle_validation.py: the view of a report's records that is compared.
use xemu_perf_tests.Base.{
  Bool, true, false, not, ◌&&◌, ◌||◌, String, ◌<>◌, str_eq, Option, none, some, List, [], ◌∷◌,
  contains, all, if◌then◌else◌,
}
use xemu_perf_tests.Base.Result.{Result, ok, err, invalid, crash, guard, ◌>>=◌, ◌>>◌}
use xemu_perf_tests.Json.{
  Json, str, arr, obj, Items, nil, cons, Fields, end, get, get_null, keys, put, pop,
}
use xemu_perf_tests.Oracle.Values.{shown}

abbrev pub s3tc_diagnostic_records : List String
s3tc_diagnostic_records =
    "GameLoadComposite::10-S3tcSyncFactor-02-Dxt1SameAddressQueued"
    ∷ "GameLoadComposite::10-S3tcSyncFactor-06-Rgba8SameAddressQueued" ∷ []

abbrev pub s3tc_diagnostic_reason : String
s3tc_diagnostic_reason =
    "unsynchronized same-address writes have no defined per-draw source generation"

abbrev pub s3tc_observations : List String
s3tc_observations = "framebuffer_fnv1a64" ∷ "kats.tile_center_kat" ∷ []

abbrev pub get_or : Json → Option Json → Json
get_or d none = d
get_or d (some v) = v

-- `d.get(...)` is made: what is no dict has no such method.
abbrev pub as_dict : Json → Result Fields
as_dict (obj fs) = ok fs
as_dict v = err (crash "AttributeError: object has no attribute 'get'")

abbrev is_hashable : Json → Bool
is_hashable (arr vs) = false
is_hashable (obj fs) = false
is_hashable v = true

abbrev all_hashable : Items → Bool
all_hashable nil = true
all_hashable (cons v vs) = is_hashable v && all_hashable vs

abbrev is_in : List String → Json → Bool
is_in names (str s) = contains names s
is_in names v = false

abbrev all_in : List String → Items → Bool
all_in names nil = true
all_in names (cons v vs) = is_in names v && all_in names vs

abbrev holds_text : String → Items → Bool
holds_text s nil = false
holds_text s (cons v vs) = is_in (s ∷ []) v || holds_text s vs

-- `set(value) == {...}`, where the value can be made a set.
unfoldable pub set_is : List String → Json → Result Bool
set_is names (arr vs) = do
  guard (all_hashable vs) (crash "TypeError: unhashable type")
  ok (all_in names vs && all (λ s. holds_text s vs) names)
set_is names (obj fs) = ok (all (contains names) (keys fs) && all (contains (keys fs)) names)
set_is names (str s) = ok false
set_is names v = err (crash "TypeError: object is not iterable")

abbrev pub is_str : String → Json → Bool
is_str s (str r) = str_eq r s
is_str s v = false

-- `d[key]`
unfoldable pub item : String → Option Json → Result Json
item key none = err (crash ("KeyError: " <> key))
item key (some v) = ok v

-- The test that lets the failure count of the two inspected records be left out. `and` stops at the
-- first test that fails, so the later ones may not be made.
unfoldable pub is_diagnostic : Json → Json → Fields → Result Bool
unfolding set_is
is_diagnostic test_id policy internal = do
  guard (is_hashable test_id) (crash "TypeError: unhashable type")
  if is_in s3tc_diagnostic_records test_id
      then (as_dict policy >>= λ fs.
          if is_str s3tc_diagnostic_reason (get_null "reason" fs)
          then (set_is s3tc_observations (get_or (arr nil) (get "excluded_observations" fs))
              >>= λ same. ok (same && is_str "regression_only" (get_null "provenance" internal)))
          else ok false)
      else ok false

unfoldable pub without_count : Bool → Fields → Fields → Fields
without_count true internal entry = put "internal_oracle" (obj (pop "failure_count" internal)) entry
without_count false internal entry = entry

unfoldable pub comparison_record : Json → Result Json
unfolding is_diagnostic without_count item
comparison_record v = do
  entry ← as_dict v
  internal ← as_dict (get_or (obj end) (get "internal_oracle" entry))
  test_id ← item "test_id" (get "test_id" entry)
  guard (not (is_str "FAIL" (get_null "status" internal)))
      (invalid (shown test_id <> ".internal_oracle.status is FAIL"))
  diagnostic ← is_diagnostic test_id (get_or (obj end) (get "comparison_policy" entry)) internal
  ok (obj (without_count diagnostic internal entry))

unfoldable pub comparison_items : Items → Result Items
comparison_items nil = ok nil
comparison_items (cons v vs) = do w ← comparison_record v; ws ← comparison_items vs; ok (cons w ws)

unfoldable pub comparison_records : Json → Result Json
unfolding comparison_items comparison_record
comparison_records (arr vs) = comparison_items vs >>= λ ws. ok (arr ws)
comparison_records v = err (crash "TypeError: object is not iterable")
