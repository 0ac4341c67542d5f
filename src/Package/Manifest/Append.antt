-- ===== src/Package/Manifest/Append.antt =====
-- How `manifest` of utils/package_runner_suite.py appends a test to the partition of its category.
use mathlib.Core.List.{Perm, append_assoc, perm_middle}
use mathlib.Core.List.Perm
use xemu_perf_tests.Base.{
  str_eq_self, true, String, str_eq, List, [], ◌∷◌, ◌++◌, contains, ◌≡◌, refl, inl, inr, Bool-cases,
  arith,
}
use xemu_perf_tests.Base.Result.{ok, Result-cases, ok_inj}
use xemu_perf_tests.Package.Manifest.{Partitions, append_to}
use xemu_perf_tests.Package.Manifest.Listing.{placed, tests_at}

pub append_to-Perm :
    (key id : String) (ps ps' : Partitions)
    → append_to key id ps ≡ ok ps'
    → Perm (placed ps') (id ∷ placed ps)
append_to-Perm key id [] ps' h = cc
append_to-Perm key id ((k, tests) ∷ ps) ps' h = elim (Bool-cases (str_eq key k)) [
  | inl here ↦
      let e : (k, tests ++ (id ∷ [])) ∷ ps ≡ ps' = ok_inj (rw here at h) in
      rw (← e, append_assoc tests (id ∷ []) (placed ps)) (perm_middle tests (placed ps))
  | inr later ↦ elim (Result-cases (append_to key id ps)) [
    | inr (x, a) ↦ let bad = rw (later, a) at h in cc
    | inl (rest, a) ↦
        let e : (k, tests) ∷ rest ≡ ps' = ok_inj (rw (later, a) at h) in
        rw (← e) (
          Perm.trans (Perm.append_left tests (append_to-Perm key id ps rest a))
            (perm_middle tests (placed ps)))
  ]
]

contains-append_self : (id : String) (ss : List String) → contains (ss ++ (id ∷ [])) id ≡ true
contains-append_self id [] = rw (str_eq_self id) refl
contains-append_self id (s ∷ ss) = ground (arith, contains-append_self id ss)

contains-append_left :
    (i id : String) (ss : List String) → contains ss i ≡ true → contains (ss ++ (id ∷ [])) i ≡ true
contains-append_left i id [] h = cc
contains-append_left i id (s ∷ ss) h = ground (arith, contains-append_left i id ss)

pub append_to-listed :
    (key id : String) (ps ps' : Partitions)
    → append_to key id ps ≡ ok ps'
    → contains (tests_at key ps') id ≡ true
append_to-listed key id [] ps' h = cc
append_to-listed key id ((k, tests) ∷ ps) ps' h = elim (Bool-cases (str_eq key k)) [
  | inl here ↦
      let e : (k, tests ++ (id ∷ [])) ∷ ps ≡ ps' = ok_inj (rw here at h) in
      rw (← e, here) (contains-append_self id tests)
  | inr later ↦ elim (Result-cases (append_to key id ps)) [
    | inr (x, a) ↦ let bad = rw (later, a) at h in cc
    | inl (rest, a) ↦
        let e : (k, tests) ∷ rest ≡ ps' = ok_inj (rw (later, a) at h) in
        rw (← e, later) (append_to-listed key id ps rest a)
  ]
]

pub append_to-keeps :
    (key id i j : String) (ps ps' : Partitions)
    → append_to key id ps ≡ ok ps'
    → contains (tests_at i ps) j ≡ true
    → contains (tests_at i ps') j ≡ true
append_to-keeps key id i j [] ps' h m = cc
append_to-keeps key id i j ((k, tests) ∷ ps) ps' h m = elim (Bool-cases (str_eq key k)) [
  | inl here ↦
      let e : (k, tests ++ (id ∷ [])) ∷ ps ≡ ps' = ok_inj (rw here at h) in
      elim (Bool-cases (str_eq i k)) [
        | inl same ↦ rw (← e, same) (contains-append_left j id tests (rw same at m))
        | inr other ↦ rw (← e, other) (rw other at m)
      ]
  | inr later ↦ elim (Result-cases (append_to key id ps)) [
    | inr (x, a) ↦ let bad = rw (later, a) at h in cc
    | inl (rest, a) ↦
        let e : (k, tests) ∷ rest ≡ ps' = ok_inj (rw (later, a) at h) in
        elim (Bool-cases (str_eq i k)) [
          | inl same ↦ rw (← e, same) (rw same at m)
          | inr other ↦ rw (← e, other) (append_to-keeps key id i j ps rest a (rw other at m))
        ]
  ]
]
