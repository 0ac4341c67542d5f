-- ===== src/Base/Groups.antt =====
-- Dicts of lists that `d.setdefault(key, []).append(value)` builds in a loop.
use Prim.Native.String.{String}
use mathlib.Core.Path.{◌≡◌, sym}
use mathlib.Core.Option.{Option, none, some}
use mathlib.Core.List.{List, [], ◌∷◌, ◌++◌}
use mathlib.Core.List.{append_assoc, append-nil}
use mathlib.Core.Logic.{inl, inr}
use native.Mathlib.Omega.{arith}
use xemu_perf_tests.Base.Tests.{str_eq, if◌then◌else◌, Bool-cases, eq_of-str_eq}
use xemu_perf_tests.Base.Lists.{lookup, insert, lookup-insert, All}

module _ {ℓ} {V : Type ℓ} where
  -- `d.get(key, [])` of what `lookup` found.
  abbrev pub or_nil : Option (List V) → List V
  or_nil none = []
  or_nil (some vs) = vs

  -- `d.setdefault(key, []).append(value)`
  abbrev pub append_at : String → V → List (String × List V) → List (String × List V)
  append_at k v m = insert k (or_nil (lookup k m) ++ (v ∷ [])) m

module _ {ℓ κ} {A : Type ℓ} {V : Type κ} (key : A → String) (value : A → V) where
  unfoldable pub group_by : List A → List (String × List V) → List (String × List V)
  group_by [] m = m
  group_by (x ∷ xs) m = group_by xs (append_at (key x) (value x) m)

  -- The values of one key, in the order of the list.
  abbrev pub under : String → List A → List V
  under k [] = []
  under k (x ∷ xs) = let rest = under k xs in if str_eq (key x) k then value x ∷ rest else rest

  step :
      (k : String) (x : A) (m : List (String × List V)) (vs : List V)
      → or_nil (lookup k (append_at (key x) (value x) m)) ++ vs
        ≡ or_nil (lookup k m) ++ (if str_eq (key x) k then value x ∷ vs else vs)
  step k x m vs =
      let found = lookup-insert k (key x) (or_nil (lookup (key x) m) ++ (value x ∷ [])) m in
      elim (Bool-cases (str_eq (key x) k)) [
        | inl same ↦
            let e = eq_of-str_eq (key x) k same in
            ground (arith, append_assoc (or_nil (lookup k m)) (value x ∷ []) vs)
        | inr differ ↦ ground arith
      ]

  pub lookup-group_by :
      (k : String) (xs : List A) (m : List (String × List V))
      → or_nil (lookup k (group_by xs m)) ≡ or_nil (lookup k m) ++ under k xs
  unfolding group_by
  lookup-group_by k [] m = sym (append-nil (or_nil (lookup k m)))
  lookup-group_by k (x ∷ xs) m =
      rw (lookup-group_by k xs (append_at (key x) (value x) m)) (step k x m (under k xs))

module _ {κ μ} {V : Type κ} (P : V → Type μ) where
  -- Every value of every key has the property.
  abbrev pub AllValues : List (String × List V) → Type μ
  AllValues m = All (λ e. All P e.1) m

  All-append : (vs : List V) (v : V) → All P vs → P v → All P (vs ++ (v ∷ []))
  All-append [] v h p = (p, tt)
  All-append (w ∷ vs) v h p = (h.0, All-append vs v h.1 p)

  lookup-AllValues :
      (k : String) (m : List (String × List V)) → AllValues m → All P (or_nil (lookup k m))
  lookup-AllValues k [] h = tt
  lookup-AllValues k ((j, vs) ∷ m) h = elim (Bool-cases (str_eq k j)) [
    | inl e ↦ rw e h.0
    | inr e ↦ rw e (lookup-AllValues k m h.1)
  ]

  insert-AllValues :
      (k : String) (vs : List V) (m : List (String × List V))
      → All P vs
      → AllValues m
      → AllValues (insert k vs m)
  insert-AllValues k vs [] p h = (p, tt)
  insert-AllValues k vs ((j, ws) ∷ m) p h = elim (Bool-cases (str_eq k j)) [
    | inl e ↦ rw e (p, h.1)
    | inr e ↦ rw e (h.0, insert-AllValues k vs m p h.1)
  ]

module _ {ℓ κ μ} {A : Type ℓ} {V : Type κ} (key : A → String) (value : A → V) (P : V → Type μ) where
  pub group_by-AllValues :
      (xs : List A) (m : List (String × List V))
      → All (λ x. P (value x)) xs
      → AllValues P m
      → AllValues P (group_by key value xs m)
  unfolding group_by
  group_by-AllValues [] m h g = g
  group_by-AllValues (x ∷ xs) m h g = group_by-AllValues xs (append_at (key x) (value x) m) h.1 (
      insert-AllValues P (key x) _ m (All-append P _ (value x) (lookup-AllValues P (key x) m g) h.0)
        g)
