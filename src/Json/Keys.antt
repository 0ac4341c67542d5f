-- ===== src/Json/Keys.antt =====
-- Keys in sorted order, as Python compares texts: by code points.
pub mod Laws
use Prim.Native.Nat.{Ordering}
use Prim.Native.String.{compare}
use xemu_perf_tests.Base.{Bool, true, false, String, List, [], ◌∷◌, if◌then◌else◌}
use xemu_perf_tests.Base.{contains}
use xemu_perf_tests.Json.{Fields, keys}

abbrev pub text_lt : String → String → Bool
text_lt s t = elim (compare s t) [ Ordering.lt ↦ true | _ ↦ false ]

-- Into a sorted list, before the entries that are equal.
unfoldable pub insert_sorted : String → List String → List String
insert_sorted k [] = k ∷ []
insert_sorted k (j ∷ ks) = if text_lt j k then j ∷ insert_sorted k ks else k ∷ j ∷ ks

-- `sorted(keys)`
unfoldable pub sorted : List String → List String
unfolding insert_sorted
sorted [] = []
sorted (k ∷ ks) = insert_sorted k (sorted ks)

-- `set(a) | set(b)`, each text once.
unfoldable pub union : List String → List String → List String
union [] ks = ks
union (j ∷ js) ks = let rest = union js ks in if contains rest j then rest else j ∷ rest

-- `sorted(set(a) | set(b))`
unfoldable pub sorted_union : Fields → Fields → List String
unfolding sorted union
sorted_union fs gs = sorted (union (keys fs) (union (keys gs) []))

-- `sorted(d.items())`: the keys of a dict are distinct, so they alone decide.
module _ {ℓ} {V : Type ℓ} where
  unfoldable pub insert_pair : String → V → List (String × V) → List (String × V)
  insert_pair k v [] = (k, v) ∷ []
  insert_pair k v ((j, w) ∷ m) =
      if text_lt j k then (j, w) ∷ insert_pair k v m else (k, v) ∷ (j, w) ∷ m

  unfoldable pub sorted_pairs : List (String × V) → List (String × V)
  unfolding insert_pair
  sorted_pairs [] = []
  sorted_pairs ((k, v) ∷ m) = insert_pair k v (sorted_pairs m)
