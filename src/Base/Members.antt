-- ===== src/Base/Members.antt =====
-- Membership in a list, and what it says of a property of all members.
use mathlib.Core.Path.{◌≡◌, refl, sym, subst}
use mathlib.Core.Logic.{◌⊎◌, inl, inr}
use mathlib.Core.List.{List, [], ◌∷◌}
use xemu_perf_tests.Base.Lists.{All}

module _ {A : Type 0} where
  abbrev pub Member : A → List A → Type 0
  Member x [] = ⊥
  Member x (y ∷ ys) = (x ≡ y) ⊎ Member x ys

module _ {κ} {A : Type 0} (P : A → Type κ) where
  pub All-Member : (xs : List A) (x : A) → All P xs → Member x xs → P x
  All-Member [] x h m = absurd m
  All-Member (y ∷ ys) x h (inl e) = subst P (sym e) h.0
  All-Member (y ∷ ys) x h (inr m) = All-Member ys x h.1 m

  pub Member-All : (xs : List A) → ((x : A) → Member x xs → P x) → All P xs
  Member-All [] h = tt
  Member-All (x ∷ xs) h = (h x (inl refl), Member-All xs (λ y m. h y (inr m)))
