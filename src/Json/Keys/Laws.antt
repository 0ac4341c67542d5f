-- ===== src/Json/Keys/Laws.antt =====
-- The sorted union of two dicts' keys holds the keys of either, and no others.
use xemu_perf_tests.Base.{false, ◌||◌, String, str_eq, List, [], ◌∷◌, ◌≡◌, refl}
use xemu_perf_tests.Base.{contains, none, arith}
use xemu_perf_tests.Json.{Fields, end, field, keys, get}
use xemu_perf_tests.Json.Keys.{insert_sorted, sorted, union, sorted_union}

contains-insert_sorted :
    (j k : String) (ks : List String)
    → contains (insert_sorted j ks) k ≡ (str_eq k j || contains ks k)
unfolding insert_sorted
contains-insert_sorted j k [] = refl
contains-insert_sorted j k (i ∷ ks) = ground (arith, contains-insert_sorted j k ks)

contains-sorted : (k : String) (ks : List String) → contains (sorted ks) k ≡ contains ks k
unfolding sorted
contains-sorted k [] = refl
contains-sorted k (j ∷ ks) =
    ground (arith, contains-insert_sorted j k (sorted ks), contains-sorted k ks)

contains-union :
    (k : String) (js ks : List String) → contains (union js ks) k ≡ (contains js k || contains ks k)
unfolding union
contains-union k [] ks = refl
contains-union k (j ∷ js) ks = ground (arith, contains-union k js ks, contains-union j js ks)

pub contains-sorted_union :
    (k : String) (fs gs : Fields)
    → contains (sorted_union fs gs) k ≡ (contains (keys fs) k || contains (keys gs) k)
unfolding sorted_union
contains-sorted_union k fs gs = ground (
  arith,
  contains-sorted k (union (keys fs) (union (keys gs) [])),
  contains-union k (keys fs) (union (keys gs) []),
  contains-union k (keys gs) [],
)

pub get-eq-none_of_absent :
    (k : String) (fs : Fields) → contains (keys fs) k ≡ false → get k fs ≡ none
get-eq-none_of_absent k end h = refl
get-eq-none_of_absent k (field j v fs) h = ground (arith, get-eq-none_of_absent k fs)
