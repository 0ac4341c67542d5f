-- ===== src/Oracle/Record.antt =====
-- What utils/oracle_validation.py takes from one guest record: `record_hashes`,
-- `record_comparison_policy`, `eligible_record_hashes`, `record_internal_oracle`, `record_contract`.
use xemu_perf_tests.Base.{
  Bool, true, false, not, ◌&&◌, String, ◌<>◌, str_eq, Option, none, some, List, [], ◌∷◌, ◌++◌,
  contains, if◌then◌else◌,
}
use xemu_perf_tests.Base.Result.{Result, ok, err, invalid, crash, guard, ◌>>=◌, ◌>>◌}
use xemu_perf_tests.Base.Text.{starts_with, remove_prefix}
use xemu_perf_tests.Json.{
  Json, null, bool, str, arr, obj, Fields, end, field, get, get_null, keys, put, pop,
}
use xemu_perf_tests.Json.Keys.{sorted}
use xemu_perf_tests.Oracle.Values.{hash, text, shown}
use xemu_perf_tests.Oracle.Kats.{record_kats}

abbrev pub is_null : Json → Bool
is_null null = true
is_null _ = false

abbrev pub checksum_pair_optional_kinds : List String
checksum_pair_optional_kinds = "game_load_composite_repeated_display" ∷ []

-- `value in frozenset(...)`; a list or a dict has no hash.
abbrev pub in_kinds : Json → Result Bool
in_kinds (arr vs) = err (crash "TypeError: unhashable type")
in_kinds (obj fs) = err (crash "TypeError: unhashable type")
in_kinds (str s) = ok (contains checksum_pair_optional_kinds s)
in_kinds v = ok false

unfoldable pub check_expected_frame : String → String → Json → Result (Unit {0})
check_expected_frame name frame null = ok tt
check_expected_frame name frame v = do
  expected ← hash v (name <> ".expected_framebuffer_fnv1a64") (16 ∷ [])
  guard (str_eq expected frame)
      (invalid (name <> " framebuffer hash does not match its metadata oracle"))

abbrev xor : Bool → Bool → Bool
xor true b = not b
xor false b = b

-- The two checksums, where both are there.
unfoldable pub hashed_pair : String → Json → Json → Result Fields
hashed_pair name null result = ok end
hashed_pair name work null = ok end
hashed_pair name work result = do
  w ← hash work (name <> ".work_checksum") (8 ∷ [])
  r ← hash result (name <> ".result_checksum") (8 ∷ [])
  ok (field "work_checksum" (str w) (field "result_checksum" (str r) end))

unfoldable pub checksum_pair : String → Fields → Result Fields
unfolding hashed_pair
checksum_pair name metadata = do
  let work = get_null "work_checksum" metadata
  let result = get_null "result_checksum" metadata
  optional ← in_kinds (get_null "kind" metadata)
  guard (not (xor (is_null work) (is_null result) && not optional))
      (invalid (name <> " must provide both work_checksum and result_checksum"))
  hashed_pair name work result

abbrev with_kats : Fields → Fields → Fields
with_kats end fs = fs
with_kats kats fs = put "kats" (obj kats) fs

unfoldable pub metadata_hashes : String → String → Json → Result Fields
unfolding check_expected_frame checksum_pair
metadata_hashes name frame (obj metadata) = do
  check_expected_frame name frame (get_null "expected_framebuffer_fnv1a64" metadata)
  pair ← checksum_pair name metadata
  kats ← record_kats metadata
  ok (with_kats kats (field "framebuffer_fnv1a64" (str frame) pair))
metadata_hashes name frame v = ok (field "framebuffer_fnv1a64" (str frame) end)

unfoldable pub record_hashes : Fields → Result Fields
unfolding metadata_hashes
record_hashes entry = do
  name ← text (get_null "name" entry) "result record is missing name"
  frame ← hash (get_null "framebuffer_fnv1a64" entry) (name <> ".framebuffer_fnv1a64") (16 ∷ [])
  metadata_hashes name frame (get_null "metadata" entry)

pub record Policy : Type 0 where
  pub excluded : List String
  pub reason : String

abbrev pub is_false : Json → Bool
is_false (bool false) = true
is_false _ = false

-- The known-answer tests that the guest's applicability flag excludes.
abbrev pub rendered_kats : List String → List String
rendered_kats [] = []
rendered_kats (k ∷ ks) =
    let rest = rendered_kats ks in if starts_with k "source_" then rest else ("kats." <> k) ∷ rest

unfoldable pub excluded_kats : Fields → Result (List String)
excluded_kats metadata =
    if is_false (get_null "oracle_applicable" metadata)
    then (record_kats metadata >>= λ kats. ok (rendered_kats (keys kats)))
    else ok []

abbrev excluded_frame : Fields → List String
excluded_frame metadata =
    if is_false (get_null "framebuffer_comparison_eligible" metadata)
    then "framebuffer_fnv1a64" ∷ []
    else []

unfoldable pub policy_of : Fields → Json → List String → Result (Option Policy)
policy_of entry reason [] = ok none
policy_of entry reason excluded = do
  r ←
      text reason
        (shown (get_null "name" entry) <> " excludes observations without a comparison reason")
  ok (some (record { excluded = sorted excluded; reason = r }))

unfoldable pub metadata_policy : Fields → Json → Result (Option Policy)
unfolding policy_of excluded_kats
metadata_policy entry (obj metadata) = do
  named ← excluded_kats metadata
  policy_of entry (get_null "framebuffer_comparison_reason" metadata)
      (excluded_frame metadata ++ named)
metadata_policy entry v = ok none

unfoldable pub record_comparison_policy : Fields → Result (Option Policy)
unfolding metadata_policy
record_comparison_policy entry = metadata_policy entry (get_null "metadata" entry)

abbrev unless_empty : Fields → Fields → Fields
unless_empty end hashes = pop "kats" hashes
unless_empty kats hashes = put "kats" (obj kats) hashes

abbrev pub drop_kat : String → Option Json → Fields → Fields
drop_kat name (some (obj kats)) hashes = unless_empty (pop name kats) hashes
drop_kat name found hashes = hashes

abbrev pub drop_observation : String → Fields → Fields
drop_observation observation hashes =
    if str_eq observation "framebuffer_fnv1a64"
    then pop observation hashes
    else if starts_with observation "kats."
    then drop_kat (remove_prefix observation "kats.") (get "kats" hashes) hashes
    else hashes

abbrev pub drop_observations : List String → Fields → Fields
drop_observations [] hashes = hashes
drop_observations (o ∷ os) hashes = drop_observations os (drop_observation o hashes)

abbrev pub is_empty_dict : Fields → Bool
is_empty_dict end = true
is_empty_dict (field k v fs) = false

unfoldable pub apply_policy : Fields → Fields → Option Policy → Result (Fields × Option Policy)
apply_policy entry hashes none = ok (hashes, none)
apply_policy entry hashes (some policy) = do
  let kept = drop_observations policy.excluded hashes
  guard (not (is_empty_dict kept))
      (invalid (shown (get_null "name" entry) <> " has no eligible functional observations"))
  ok (kept, some policy)

unfoldable pub eligible_record_hashes : Fields → Result (Fields × Option Policy)
unfolding record_hashes record_comparison_policy apply_policy
eligible_record_hashes entry = do
  hashes ← record_hashes entry
  policy ← record_comparison_policy entry
  apply_policy entry hashes policy
