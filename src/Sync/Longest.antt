-- ===== src/Sync/Longest.antt =====
-- The root that `_build_relative_paths` of cmake/modules/SyncResourceDirs.py picks.
use Prim.Native.String.{count}
use xemu_perf_tests.Base.{
  any, ◌==◌, sym, ℕ, ◌+◌, ◌≤◌, ltb→lt, true, false, ◌&&◌, String, Option, none, some, List, [], ◌∷◌,
  All, ◌≡◌, ◌⊎◌, refl, arith, inl, inr, Bool-cases,
}
use mathlib.Core.Path.{subst}
use xemu_perf_tests.Base.Text.{starts_with}
use xemu_perf_tests.Sync.{drop_chars, Best, is_longer, best_root, rootless}

-- What is left of the directory, for the length of the root that was picked.
abbrev pub left_over : String → Option ℕ → String
left_over directory none = ""
left_over directory (some n) = drop_chars (n + 1) directory

abbrev NoLess : Option ℕ → Option ℕ → Type 0
NoLess none o = Unit
NoLess (some m) none = ⊥
NoLess (some m) (some n) = m ≤ n

-- Without a length no root matches, and a root that matches is at most so long.
abbrev pub Bounds : String → Option ℕ → String → Type 0
Bounds directory none root = starts_with directory root ≡ false
Bounds directory (some n) root = starts_with directory root ≡ true → count root ≤ n

-- A root that the directory starts with has the length.
abbrev pub Attained : String → List String → Option ℕ → Type 0
Attained directory roots none = ⊥
Attained directory roots (some n) =
    any (λ root. starts_with directory root && count root == n) roots ≡ true

Attained-later :
    (directory root : String) (roots : List String) (o : Option ℕ)
    → Attained directory roots o
    → Attained directory (root ∷ roots) o
Attained-later directory root roots none h = h
Attained-later directory root roots (some n) h = ground (arith, h)

Attained-here :
    (directory root : String) (roots : List String)
    → starts_with directory root ≡ true
    → Attained directory (root ∷ roots) (some (count root))
Attained-here directory root roots h = ground (arith, h)

later_or :
    (directory root : String) (roots : List String) (o o' : Option ℕ)
    → (o' ≡ o) ⊎ Attained directory roots o'
    → (o' ≡ o) ⊎ Attained directory (root ∷ roots) o'
later_or directory root roots o o' (inl e) = inl e
later_or directory root roots o o' (inr a) = inr (Attained-later directory root roots o' a)

here_or :
    (directory root : String) (roots : List String) (o' : Option ℕ)
    → starts_with directory root ≡ true
    → (o' ≡ some (count root)) ⊎ Attained directory roots o'
    → Attained directory (root ∷ roots) o'
here_or directory root roots o' h (inl e) =
    subst (Attained directory (root ∷ roots)) (sym e) (Attained-here directory root roots h)
here_or directory root roots o' h (inr a) = Attained-later directory root roots o' a

NoLess-refl : (o : Option ℕ) → NoLess o o
NoLess-refl none = tt
NoLess-refl (some n) = omega arith

longer : (c : ℕ) (o o' : Option ℕ) → is_longer c o ≡ true → NoLess (some c) o' → NoLess o o'
longer c none o' h k = tt
longer c (some m) none h k = absurd k
longer c (some m) (some n) h k = let l = ltb→lt m c h in omega (arith, l, k)

taken :
    (directory root : String) (o : Option ℕ)
    → NoLess (some (count root)) o
    → Bounds directory o root
taken directory root none k = absurd k
taken directory root (some n) k = λ e. k

unmatched :
    (directory root : String) (o : Option ℕ)
    → starts_with directory root ≡ false
    → Bounds directory o root
unmatched directory root none h = h
unmatched directory root (some n) h = λ e. ground arith

shorter :
    (directory root : String) (o o' : Option ℕ)
    → is_longer (count root) o ≡ false
    → NoLess o o'
    → Bounds directory o' root
shorter directory root none o' h k = cc
shorter directory root (some m) none h k = absurd k
shorter directory root (some m) (some n) h k = λ e. ground (arith, h, k)

pub record Picked (directory : String) (roots : List String) (before after : Best) : Type 0 where
  pub shape : after.rootless ≡ left_over directory after.longest
  pub no_less : NoLess before.longest after.longest
  pub bounds : All (Bounds directory after.longest) roots
  pub attained : (after.longest ≡ before.longest) ⊎ Attained directory roots after.longest

best_root-Picked :
    (directory : String) (roots : List String) (b : Best)
    → b.rootless ≡ left_over directory b.longest
    → Picked directory roots b (best_root directory roots b)
unfolding best_root
best_root-Picked directory [] b h = record {
  shape = h;
  no_less = NoLess-refl b.longest;
  bounds = tt;
  attained = inl refl;
}
best_root-Picked directory (root ∷ roots) b h = elim (Bool-cases (starts_with directory root)) [
  | inr out ↦
      let d = best_root-Picked directory roots b h in
      rw out (record {
        shape = d.shape;
        no_less = d.no_less;
        bounds = (unmatched directory root _ out, d.bounds);
        attained = later_or directory root roots b.longest _ d.attained;
      })
  | inl fits ↦ elim (Bool-cases (is_longer (count root) b.longest)) [
    | inr short ↦
        let d = best_root-Picked directory roots b h in
        rw (fits, short)
          (record {
            shape = d.shape;
            no_less = d.no_less;
            bounds = (shorter directory root b.longest _ short d.no_less, d.bounds);
            attained = later_or directory root roots b.longest _ d.attained;
          })
    | inl long ↦
        let next : Best = record {
          longest = some (count root);
          rootless = drop_chars (count root + 1) directory;
        } in
        let d = best_root-Picked directory roots next refl in
        rw (fits, long)
          (record {
            shape = d.shape;
            no_less = longer (count root) b.longest _ long d.no_less;
            bounds = (taken directory root _ d.no_less, d.bounds);
            attained = inr (here_or directory root roots _ fits d.attained);
          })
  ]
]

-- What `_build_relative_paths` keeps of a directory: nothing where no root matches, and otherwise what
-- follows the separator after the longest of the roots that the directory starts with.
pub rootless-longest :
    (roots : List String) (directory : String)
    → (o : Option ℕ) × (rootless roots directory ≡ left_over directory o)
      × All (Bounds directory o) roots
      × ((o ≡ none) ⊎ Attained directory roots o)
unfolding rootless
rootless-longest roots directory =
    let start : Best = record { longest = none; rootless = "" } in
    let d = best_root-Picked directory roots start refl in
    ((best_root directory roots start).longest, d.shape, d.bounds, d.attained)
