-- ===== src/Oracle/Kats.antt =====
-- `_normalize_kat_node` and `record_kats` of utils/oracle_validation.py: known-answer tests.
use xemu_perf_tests.Base.{
  ℕ, suc, Bool, true, ◌||◌, String, ◌<>◌, str_eq, Option, none, some, List, [], ◌∷◌, if◌then◌else◌,
}
use xemu_perf_tests.Base.Result.{Result, ok, err, invalid, guard, ◌>>=◌, ◌>>◌}
use xemu_perf_tests.Base.Numerals.{decimal}
use xemu_perf_tests.Base.Text.{
  starts_with, remove_prefix, ends_with, remove_suffix, contains_text, lower,
}
use xemu_perf_tests.Json.{Json, float, arr, obj, Items, nil, cons, Fields, end, field, get}
use xemu_perf_tests.Json.Equality.{py_eq}
use xemu_perf_tests.Json.Keys.{sorted_pairs}

-- The key that an expected value is checked against.
unfoldable pub counterpart : String → Option String
counterpart key =
    if str_eq key "expected"
    then some "actual"
    else if starts_with key "expected_"
    then some ("actual_" <> remove_prefix key "expected_")
    else if ends_with key "_expected"
    then some (remove_suffix key "_expected" <> "_actual")
    else none

abbrev equals : Option Json → Json → Bool
equals none v = true
equals (some w) v = py_eq w v

abbrev at : Option String → Fields → Option Json
at none fs = none
at (some k) fs = get k fs

-- The loop over `normalized.items()`; `all` is the whole dict.
unfoldable pub pairs_agree : Fields → Fields → String → Result (Unit {0})
pairs_agree fs end name = ok tt
pairs_agree fs (field key item rest) name = do
  guard (equals (at (counterpart key) fs) item) (invalid (name <> " expected/actual KAT mismatch"))
  pairs_agree fs rest name

-- The dict that a sorted list of results makes, or the first exception in it.
unfoldable pub collect : List (String × Result Json) → Result Fields
collect [] = ok end
collect ((k, r) ∷ rest) = do v ← r; fs ← collect rest; ok (field k v fs)

-- What is done with the items of a dict, each normalized, in the order of their keys.
unfoldable pub finish_dict : List (String × Result Json) → String → Result Fields
unfolding collect pairs_agree
finish_dict entries name = do fs ← collect (sorted_pairs entries); pairs_agree fs fs name; ok fs

unfoldable mutual
  pub normalize_kat_node : Json → String → Result Json
  normalize_kat_node (obj fs) name = do
    normalized ← finish_dict (normalized_entries fs name) name
    ok (obj normalized)
  normalize_kat_node (arr vs) name = do normalized ← normalize_items vs 0 name; ok (arr normalized)
  normalize_kat_node (float m k) name = err (invalid (name <> " contains an unsupported KAT value"))
  normalize_kat_node v name = ok v

  pub normalized_entries : Fields → String → List (String × Result Json)
  normalized_entries end name = []
  normalized_entries (field k v fs) name =
      (k, normalize_kat_node v (name <> ("." <> k))) ∷ normalized_entries fs name

  pub normalize_items : Items → ℕ → String → Result Items
  normalize_items nil i name = ok nil
  normalize_items (cons v vs) i name = do
    w ← normalize_kat_node v (name <> ("[" <> (decimal i <> "]")))
    ws ← normalize_items vs (suc i) name
    ok (cons w ws)

abbrev pub is_kat_key : String → Bool
is_kat_key key =
    contains_text (lower key) "kat"
    || ends_with (lower key) "_final"
    || ends_with (lower key) "_final_state"

unfoldable pub select_kats : Fields → Fields
select_kats end = end
select_kats (field k v fs) =
    let rest = select_kats fs in if is_kat_key k then field k v rest else rest

unfoldable pub record_kats : Fields → Result Fields
record_kats metadata =
    finish_dict (normalized_entries (select_kats metadata) "metadata.kats") "metadata.kats"
