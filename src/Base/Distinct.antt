-- ===== src/Base/Distinct.antt =====
-- Lists of texts without a repetition, and what a loop with a set of the texts seen finds out.
use mathlib.Core.Path.{◌≡◌, refl}
use mathlib.Core.Bool.{false, ◌||◌}
use mathlib.Core.Logic.{inl, inr}
use mathlib.Core.List.{List, [], ◌∷◌}
use Prim.Native.String.{String}
use native.Mathlib.Omega.{arith}
use xemu_perf_tests.Base.Tests.{str_eq, Bool-cases, eq_of-str_eq}
use xemu_perf_tests.Base.Lists.{contains, All, insert}

abbrev pub Distinct : List String → Type 0
Distinct [] = Unit
Distinct (x ∷ xs) = (contains xs x ≡ false) × Distinct xs

-- None of the texts is one of those seen.
abbrev pub Apart : List String → List String → Type 0
Apart seen xs = All (λ x. contains seen x ≡ false) xs

pub Apart-nil : (xs : List String) → Apart [] xs
Apart-nil [] = tt
Apart-nil (x ∷ xs) = (refl, Apart-nil xs)

pub Apart-tail :
    (a : String) (seen xs : List String)
    → Apart (a ∷ seen) xs
    → (contains xs a ≡ false) × Apart seen xs
Apart-tail a seen [] h = (refl, tt)
Apart-tail a seen (x ∷ xs) h =
    let rest = Apart-tail a seen xs h.1 in (ground (arith, rest), (ground (arith, rest), rest.1))

pub Apart-cons :
    (a : String) (seen xs : List String)
    → contains xs a ≡ false
    → Apart seen xs
    → Apart (a ∷ seen) xs
Apart-cons a seen [] h g = tt
Apart-cons a seen (x ∷ xs) h g = (ground arith, Apart-cons a seen xs (ground arith) g.1)

module _ {ℓ} {V : Type ℓ} where
  -- The keys of an association list.
  abbrev pub keys_of : List (String × V) → List String
  keys_of [] = []
  keys_of ((k, v) ∷ m) = k ∷ keys_of m

  contains-insert :
      (j k : String) (v : V) (m : List (String × V))
      → contains (keys_of (insert k v m)) j ≡ (str_eq j k || contains (keys_of m) j)
  contains-insert j k v [] = refl
  contains-insert j k v ((i, w) ∷ m) = ground (arith, contains-insert j k v m)

  -- A dict keeps each key once.
  pub insert-Distinct :
      (k : String) (v : V) (m : List (String × V))
      → Distinct (keys_of m)
      → Distinct (keys_of (insert k v m))
  insert-Distinct k v [] h = (refl, tt)
  insert-Distinct k v ((j, w) ∷ m) h = elim (Bool-cases (str_eq k j)) [
    | inl e ↦ rw e (ground (arith, eq_of-str_eq k j e), h.1)
    | inr e ↦ rw e (ground (arith, contains-insert j k v m), insert-Distinct k v m h.1)
  ]
