-- ===== src/Oracle/Difference/Complete.antt =====
-- `first_difference` of utils/oracle_validation.py reports nothing on values that are the same.
use mathlib.Core.Option
use xemu_perf_tests.Base.{
  ℕ, suc, true, String, ◌<>◌, Option, none, List, [], ◌∷◌, ◌≡◌, refl, ◌↔◌, arith, contains, ◌||◌,
  str_eq_self, length, lookup,
}
use xemu_perf_tests.Base.Text.{is_some}
use xemu_perf_tests.Json.{Json, Items, Fields, end, field, get, keys, elems}
use xemu_perf_tests.Json.Keys.{sorted_union}
use xemu_perf_tests.Json.Keys.Laws.{contains-sorted_union}
use xemu_perf_tests.Oracle.Difference.{
  Differ, at_key, first_key, index_path, first_difference, first_item, differs,
}
use xemu_perf_tests.Oracle.Difference.Same.{
  Same, same_null, same_bool, same_int, same_float, same_str, same_arr, same_obj, SameItems,
  same_nil, same_cons, SameAt, both_missing, both_there, eq_ℤ-self,
}
use xemu_perf_tests.Oracle.Difference.Laws.{lookup-differs, first_difference_sound}

contains-keys : (k : String) (fs : Fields) → contains (keys fs) k ≡ is_some (get k fs)
contains-keys k end = refl
contains-keys k (field j v fs) = ground (arith, contains-keys k fs)

first_key-quiet :
    (ds : List (String × Differ)) (gs : Fields) (path : String) (ks : List String)
    → ((k : String)
        → contains ks k ≡ true
        → (rest : Option String) → at_key (lookup k ds) (get k gs) (path <> ("." <> k)) rest ≡ rest)
    → first_key ds gs path ks ≡ none
unfolding first_key
first_key-quiet ds gs path [] h = refl
first_key-quiet ds gs path (j ∷ ks) h =
    rw (h j (ground arith) (first_key ds gs path ks))
      (first_key-quiet ds gs path ks (λ k m rest. h k (ground arith) rest))

length-SameItems : {vs ws : Items} → SameItems vs ws → length (elems vs) ≡ length (elems ws)
length-SameItems same_nil = refl
length-SameItems (same_cons s h) = omega (arith, length-SameItems h)

mutual
  unfolding first_difference

  first_difference_complete :
      {v w : Json} → Same v w → (path : String) → first_difference v w path ≡ none
  first_difference_complete same_null path = refl
  first_difference_complete (same_bool {b}) path = ground arith
  first_difference_complete (same_int {n}) path = rw (eq_ℤ-self n)
  first_difference_complete (same_float h) path = rw h
  first_difference_complete (same_str {s}) path = rw (str_eq_self s)
  first_difference_complete (same_arr {vs} {ws} h) path =
      ground (arith, length-SameItems h, items_complete h 0 path)
  first_difference_complete (same_obj {fs} {gs} h) path =
      first_key-quiet (differs fs) gs path (sorted_union fs gs) λ k m rest.
        rw (lookup-differs k fs) (
          at_complete (h k) (path <> ("." <> k)) rest
            (ground (arith, contains-sorted_union k fs gs, contains-keys k fs, contains-keys k gs)))

  items_complete :
      {vs ws : Items} → SameItems vs ws → (i : ℕ) (path : String) → first_item vs ws i path ≡ none
  items_complete same_nil i path = refl
  items_complete (same_cons s h) i path =
      rw (first_difference_complete s (index_path path i)) (items_complete h (suc i) path)

  at_complete :
      {o p : Option Json}
      → SameAt o p
      → (child : String) (rest : Option String) → (is_some o || is_some p) ≡ true
      → at_key (Option.map first_difference o) p child rest ≡ rest
  at_complete both_missing child rest h = cc
  at_complete (both_there s) child rest h = rw (first_difference_complete s child)

-- `first_difference` reports no difference exactly when the two values are the same: equal texts,
-- flags, integers and floats, of the same Python type, lists that are the same item by item, and
-- dicts that have the same keys at the same values, in whatever order.
pub first_difference-eq-none_iff :
    (v w : Json) (path : String) → (first_difference v w path ≡ none) ↔ Same v w
first_difference-eq-none_iff v w path =
    (first_difference_sound v w path, λ s. first_difference_complete s path)
