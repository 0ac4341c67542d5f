-- ===== src/Json/Equality.antt =====
-- Python's `==` on such values: True equals 1, 1 equals 1.0, and a dict forgets its order.
use xemu_perf_tests.Base.{ℕ, ◌^◌, ◌==◌, Bool, true, false, ◌&&◌, str_eq}
use xemu_perf_tests.Base.{Option, none, some}
use xemu_perf_tests.Base.Int.{ℤ, pos, eq_ℤ, scale}
use xemu_perf_tests.Json.{
  Json, null, bool, int, float, str, arr, obj, Items, nil, cons, Fields, end, field, get, size,
}

abbrev of_bool : Bool → ℤ
of_bool true = pos 1
of_bool false = pos 0

-- m / 2^j == n / 2^k
abbrev eq_scaled : ℤ → ℕ → ℤ → ℕ → Bool
eq_scaled m j n k = eq_ℤ (scale m (2 ^ k)) (scale n (2 ^ j))

abbrev eq_bool : Bool → Bool → Bool
eq_bool true b = b
eq_bool false true = false
eq_bool false false = true

abbrev pub scalar_eq : Json → Json → Bool
scalar_eq null null = true
scalar_eq (bool a) (bool b) = eq_bool a b
scalar_eq (bool a) (int n) = eq_ℤ (of_bool a) n
scalar_eq (int m) (bool b) = eq_ℤ m (of_bool b)
scalar_eq (int m) (int n) = eq_ℤ m n
scalar_eq (bool a) (float n k) = eq_scaled (of_bool a) 0 n k
scalar_eq (float m j) (bool b) = eq_scaled m j (of_bool b) 0
scalar_eq (int m) (float n k) = eq_scaled m 0 n k
scalar_eq (float m j) (int n) = eq_scaled m j n 0
scalar_eq (float m j) (float n k) = eq_scaled m j n k
scalar_eq (str s) (str t) = str_eq s t
scalar_eq _ _ = false

abbrev found_eq : (Json → Bool) → Option Json → Bool
found_eq same none = false
found_eq same (some v) = same v

unfoldable mutual
  pub py_eq : Json → Json → Bool
  py_eq (arr vs) (arr ws) = items_eq vs ws
  py_eq (obj fs) (obj gs) = (size fs == size gs) && fields_eq fs gs
  py_eq v w = scalar_eq v w

  pub items_eq : Items → Items → Bool
  items_eq nil nil = true
  items_eq (cons v vs) (cons w ws) = py_eq v w && items_eq vs ws
  items_eq _ _ = false

  -- Each key of the left dict is a key of the right one, at an equal value.
  pub fields_eq : Fields → Fields → Bool
  fields_eq end gs = true
  fields_eq (field k v fs) gs = found_eq (py_eq v) (get k gs) && fields_eq fs gs
