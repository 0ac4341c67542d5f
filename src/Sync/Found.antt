-- ===== src/Sync/Found.antt =====
-- What `glob` finds, and the names of the targets, in cmake/modules/SyncResourceDirs.py.
use mathlib.Core.Path.{subst}
use xemu_perf_tests.Base.{
  true, false, String, str_eq, str_eq_self, eq_of-str_eq, Option, none, some, List, [], ◌∷◌,
  contains, lookup, All, ◌≡◌, refl, sym, ap, ◌∙◌, inl, inr, Bool-cases, arith,
}
use xemu_perf_tests.Base.Distinct.{keys_of}
use xemu_perf_tests.Base.Members.{Member}
use xemu_perf_tests.Sync.Files.{File, Files, join, glob, below, add_found}
use xemu_perf_tests.Sync.Copied.{targets}

add_found-Member :
    (o : Option String) (p : String) (found : List (String × String)) (s : String × String)
    → Member s found
    → Member s (add_found o p found)
add_found-Member none p found s m = m
add_found-Member (some rel) p found s m = inr m

pub glob-Member :
    (directory path rel : String) (f : File) (files : Files)
    → lookup path files ≡ some f
    → below directory path ≡ some rel
    → Member (path, rel) (glob directory files)
unfolding glob
glob-Member directory path rel f [] h b = cc
glob-Member directory path rel f ((p, g) ∷ files) h b = elim (Bool-cases (str_eq path p)) [
  | inl e ↦ rw (← eq_of-str_eq path p e, b) (inl refl)
  | inr e ↦
      add_found-Member (below directory p) p _ (path, rel)
        (glob-Member directory path rel f files (ground arith) b)
]

-- A file that is found further on, or the first under its path.
found_later :
    (path p : String) (g : File) (files : Files) (f : File)
    → lookup path files ≡ some f
    → (f' : File) × (lookup path ((p, g) ∷ files) ≡ some f')
found_later path p g files f h = elim (Bool-cases (str_eq path p)) [
  | inl e ↦ (g, ground arith)
  | inr e ↦ (f, ground arith)
]

abbrev Found : String → String → String → Files → Type 0
Found directory path rel files =
    (below directory path ≡ some rel) × ((f : File) × (lookup path files ≡ some f))

Member-add_found :
    (directory path rel p : String) (g : File) (files : Files) (o : Option String)
    (found : List (String × String))
    → below directory p ≡ o
    → (Member (path, rel) found → Found directory path rel files)
    → Member (path, rel) (add_found o p found)
    → Found directory path rel ((p, g) ∷ files)
Member-add_found directory path rel p g files none found b later m =
    let (below_path, (f, h)) = later m in (below_path, found_later path p g files f h)
Member-add_found directory path rel p g files (some r) found b later (inl e) = (
  subst (λ t. below directory t.0 ≡ some t.1) (sym e) b,
  (g, subst (λ t. lookup t.0 ((p, g) ∷ files) ≡ some g) (sym e) (ground (arith, str_eq_self p))),
)
Member-add_found directory path rel p g files (some r) found b later (inr m) =
    let (below_path, (f, h)) = later m in (below_path, found_later path p g files f h)

pub Member-glob :
    (directory path rel : String) (files : Files)
    → Member (path, rel) (glob directory files)
    → Found directory path rel files
unfolding glob
Member-glob directory path rel [] m = absurd m
Member-glob directory path rel ((p, g) ∷ files) m =
    Member-add_found directory path rel p g files (below directory p) (glob directory files) refl
      (Member-glob directory path rel files) m

pub targets-Member :
    (directory p : String) (sources : List (String × String))
    → contains (targets directory sources) p ≡ true
    → (s : String × String) × Member s sources × (p ≡ join directory s.1)
targets-Member directory p [] h = cc
targets-Member directory p (s ∷ sources) h = elim (Bool-cases (str_eq p (join directory s.1))) [
  | inl e ↦ (s, inl refl, eq_of-str_eq p (join directory s.1) e)
  | inr e ↦ let (t, m, same) = targets-Member directory p sources (ground arith) in (t, inr m, same)
]

pub keys-Member :
    (p rel : String) (found : List (String × String))
    → Member (p, rel) found
    → contains (keys_of found) p ≡ true
keys-Member p rel [] m = absurd m
keys-Member p rel (s ∷ found) (inl e) =
    let first : p ≡ s.0 = ap (λ t. t.0) e in ground (arith, first)
keys-Member p rel (s ∷ found) (inr m) = ground (arith, keys-Member p rel found m)

pub contains-outside :
    (local p rel : String) (names : List String)
    → All (λ t. below local t ≡ none) names
    → below local p ≡ some rel
    → contains names p ≡ false
contains-outside local p rel [] h b = refl
contains-outside local p rel (t ∷ names) h b =
    let rest = contains-outside local p rel names h.1 b in
    elim (Bool-cases (str_eq p t)) [
      | inl e ↦
          let bad : none ≡ some rel = sym (ap (below local) (eq_of-str_eq p t e) ∙ h.0) ∙ b in cc
      | inr e ↦ rw (e, rest) refl
    ]

add_found-misses :
    (directory q p : String) (found : List (String × String)) (o : Option String)
    → below directory p ≡ o
    → below directory q ≡ none
    → contains (keys_of found) q ≡ false
    → contains (keys_of (add_found o p found)) q ≡ false
add_found-misses directory q p found none b h rest = rest
add_found-misses directory q p found (some r) b h rest = elim (Bool-cases (str_eq q p)) [
  | inl e ↦ let bad : none ≡ some r = sym h ∙ ap (below directory) (eq_of-str_eq q p e) ∙ b in cc
  | inr e ↦ rw (e, rest) refl
]

pub contains-glob :
    (directory q : String) (files : Files)
    → below directory q ≡ none
    → contains (keys_of (glob directory files)) q ≡ false
unfolding glob
contains-glob directory q [] h = refl
contains-glob directory q ((p, g) ∷ files) h =
    add_found-misses directory q p (glob directory files) (below directory p) refl h
      (contains-glob directory q files h)
