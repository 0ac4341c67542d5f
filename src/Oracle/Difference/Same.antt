-- ===== src/Oracle/Difference/Same.antt =====
-- When two values are the same for `first_difference` of utils/oracle_validation.py, as a relation.
use xemu_perf_tests.Base.{ℕ, Bool, true, false, String, Option, none, some}
use xemu_perf_tests.Base.{◌≡◌, arith}
use xemu_perf_tests.Base.{eq_of-str_eq}
use xemu_perf_tests.Base.{◌^◌, ap}
use xemu_perf_tests.Base.Int.{ℤ, pos, negsuc, eq_ℤ, scale}
use xemu_perf_tests.Json.{
  Json, null, bool, int, float, str, arr, obj, Items, nil, cons, Fields, get,
}
use xemu_perf_tests.Json.Equality.{scalar_eq}
use mathlib.Core.Path.{subst}
use xemu_perf_tests.Oracle.Difference.{same_type}

-- Equal values of equal types: a list in order, a dict by its keys.
mutual
  pub data Same : Json → Json → Type 0 where
    same_null : Same null null
    same_bool : {b : Bool} → Same (bool b) (bool b)
    same_int : {n : ℤ} → Same (int n) (int n)
    same_float :
        {m n : ℤ} {j k : ℕ}
        → eq_ℤ (scale m (2 ^ k)) (scale n (2 ^ j)) ≡ true
        → Same (float m j) (float n k)
    same_str : {s : String} → Same (str s) (str s)
    same_arr : {vs ws : Items} → SameItems vs ws → Same (arr vs) (arr ws)
    same_obj :
        {fs gs : Fields} → ((k : String) → SameAt (get k fs) (get k gs)) → Same (obj fs) (obj gs)

  pub data SameItems : Items → Items → Type 0 where
    same_nil : SameItems nil nil
    same_cons :
        {v w : Json} {vs ws : Items}
        → Same v w
        → SameItems vs ws
        → SameItems (cons v vs) (cons w ws)

  pub data SameAt : Option Json → Option Json → Type 0 where
    both_missing : SameAt none none
    both_there : {v w : Json} → Same v w → SameAt (some v) (some w)

eq_of-eq_ℤ : (m n : ℤ) → eq_ℤ m n ≡ true → m ≡ n
eq_of-eq_ℤ (pos a) (pos b) h = ap pos (ground arith)
eq_of-eq_ℤ (negsuc a) (negsuc b) h = ap negsuc (ground arith)
eq_of-eq_ℤ (pos a) (negsuc b) h = cc
eq_of-eq_ℤ (negsuc a) (pos b) h = cc

pub eq_ℤ-self : (n : ℤ) → eq_ℤ n n ≡ true
eq_ℤ-self (pos a) = ground arith
eq_ℤ-self (negsuc a) = ground arith

pub Same-of_scalar : (v w : Json) → same_type v w ≡ true → scalar_eq v w ≡ true → Same v w
Same-of_scalar null null t h = same_null
Same-of_scalar (bool true) (bool true) t h = same_bool
Same-of_scalar (bool false) (bool false) t h = same_bool
Same-of_scalar (bool true) (bool false) t h = cc
Same-of_scalar (bool false) (bool true) t h = cc
Same-of_scalar (int m) (int n) t h = subst (λ k. Same (int m) (int k)) (eq_of-eq_ℤ m n h) same_int
Same-of_scalar (float m j) (float n k) t h = same_float h
Same-of_scalar (str s) (str r) t h = subst (λ k. Same (str s) (str k)) (eq_of-str_eq s r h) same_str
Same-of_scalar (arr vs) _ t h = cc
Same-of_scalar (obj fs) _ t h = cc
Same-of_scalar _ _ t h = cc
