-- ===== src/Oracle/Difference.antt =====
-- `first_difference` of utils/oracle_validation.py.
pub mod Same
pub mod Laws
pub mod Complete
use xemu_perf_tests.Base.{ℕ, suc, ◌==◌, Bool, true, false, String, ◌<>◌, Option, none, some}
use xemu_perf_tests.Base.{List, [], ◌∷◌, if◌then◌else◌, length, lookup}
use xemu_perf_tests.Base.Text.{is_blank}
use xemu_perf_tests.Base.Numerals.{decimal}
use xemu_perf_tests.Json.{
  Json, null, bool, int, float, str, arr, obj, Items, nil, cons, Fields, end, field, get, elems,
}
use xemu_perf_tests.Json.Equality.{scalar_eq}
use xemu_perf_tests.Json.Keys.{sorted_union}

-- `type(a) is type(b)`
abbrev same_type : Json → Json → Bool
same_type null null = true
same_type (bool a) (bool b) = true
same_type (int m) (int n) = true
same_type (float m j) (float n k) = true
same_type (str s) (str t) = true
same_type (arr vs) (arr ws) = true
same_type (obj fs) (obj gs) = true
same_type _ _ = false

-- Values of different types, and the last branch.
abbrev scalar_difference : Json → Json → String → Option String
scalar_difference v w path =
    if same_type v w then (if scalar_eq v w then none else some path) else some path

-- `if difference:`, which an empty text fails.
abbrev reported : Option String → Option String → Option String
reported none rest = rest
reported (some s) rest = if is_blank s then rest else some s

-- What comparing with a fixed expected value does: the actual value and the path to it.
abbrev pub Differ : Type 0
Differ = Json → String → Option String

abbrev at_key : Option Differ → Option Json → String → Option String → Option String
at_key none found child rest = some child
at_key (some d) none child rest = some child
at_key (some d) (some w) child rest = reported (d w child) rest

-- The loop over the sorted keys of both dicts; `differs` compares with `expected[key]`.
first_key : List (String × Differ) → Fields → String → List String → Option String
first_key differs gs path [] = none
first_key differs gs path (k ∷ ks) =
    let rest = first_key differs gs path ks in
    at_key (lookup k differs) (get k gs) (path <> ("." <> k)) rest

abbrev index_path : String → ℕ → String
index_path path i = path <> ("[" <> (decimal i <> "]"))

unfoldable mutual
  unfolding first_key

  pub first_difference : Json → Json → String → Option String
  first_difference (obj fs) (obj gs) path = first_key (differs fs) gs path (sorted_union fs gs)
  first_difference (arr vs) (arr ws) path =
      if length (elems vs) == length (elems ws)
      then first_item vs ws 0 path
      else some (path <> ".length")
  first_difference v w path = scalar_difference v w path

  first_item : Items → Items → ℕ → String → Option String
  first_item (cons v vs) (cons w ws) i path =
      reported (first_difference v w (index_path path i)) (first_item vs ws (suc i) path)
  first_item vs ws i path = none

  differs : Fields → List (String × Differ)
  differs end = []
  differs (field k v fs) = (k, first_difference v) ∷ differs fs
