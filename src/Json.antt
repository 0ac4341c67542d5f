-- ===== src/Json.antt =====
-- The values that `json.loads` returns and that the tools take apart: utils/oracle_validation.py,
-- utils/hash_compare.py.
pub mod Equality
pub mod Keys
pub mod Laws
use xemu_perf_tests.Base.{ℕ, ◌*◌, ◌^◌, ◌==◌, Bool, true, false, not, ◌&&◌, ◌||◌, String, str_eq}
use xemu_perf_tests.Base.{Option, none, some, List, [], ◌∷◌, if◌then◌else◌, suc, ◌+◌}
use xemu_perf_tests.Base.Int.{ℤ, pos, negsuc, eq_ℤ, scale}
use xemu_perf_tests.Base.Text.{is_blank}

-- `float m k` is the number m / 2^k: every finite double is one. `Items` is a list and `Fields` a
-- dict in insertion order; a dict that `json.loads` builds holds each key once.
mutual
  pub data Json : Type 0 where
    null : Json
    bool : Bool → Json
    int : ℤ → Json
    float : ℤ → ℕ → Json
    str : String → Json
    arr : Items → Json
    obj : Fields → Json

  pub data Items : Type 0 where
    nil : Items
    cons : Json → Items → Items

  pub data Fields : Type 0 where
    end : Fields
    field : String → Json → Fields → Fields

-- `d.get(key)`, where `none` is a missing key; `d[key]` and `key in d` go by it too.
abbrev pub get : String → Fields → Option Json
get k end = none
get k (field j v fs) = if str_eq k j then some v else get k fs

abbrev pub has : String → Fields → Bool
has k end = false
has k (field j v fs) = str_eq k j || has k fs

abbrev pub keys : Fields → List String
keys end = []
keys (field j v fs) = j ∷ keys fs

abbrev pub elems : Items → List Json
elems nil = []
elems (cons v vs) = v ∷ elems vs

abbrev pub of_elems : List Json → Items
of_elems [] = nil
of_elems (v ∷ vs) = cons v (of_elems vs)

abbrev pub pairs : Fields → List (String × Json)
pairs end = []
pairs (field k v fs) = (k, v) ∷ pairs fs

abbrev pub of_pairs : List (String × Json) → Fields
of_pairs [] = end
of_pairs ((k, v) ∷ m) = field k v (of_pairs m)

abbrev pub size : Fields → ℕ
size end = 0
size (field k v fs) = suc (size fs)

-- `d[key] = v`
abbrev pub put : String → Json → Fields → Fields
put k v end = field k v end
put k v (field j w fs) = if str_eq k j then field j v fs else field j w (put k v fs)

-- `d.pop(key, None)` and `del d[key]`
abbrev pub pop : String → Fields → Fields
pop k end = end
pop k (field j v fs) = let rest = pop k fs in if str_eq k j then rest else field j v rest

-- `d.get(key)`, where a missing key reads as None.
abbrev pub or_null : Option Json → Json
or_null none = null
or_null (some v) = v

abbrev pub get_null : String → Fields → Json
get_null k fs = or_null (get k fs)

abbrev pub texts : List String → Items
texts [] = nil
texts (s ∷ ss) = cons (str s) (texts ss)
