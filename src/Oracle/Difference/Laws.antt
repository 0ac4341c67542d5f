-- ===== src/Oracle/Difference/Laws.antt =====
-- What `first_difference` of utils/oracle_validation.py finds: against a relation on values.
use xemu_perf_tests.Base.{ℕ, suc, true, false, String, ◌<>◌, Option, none, some}
use xemu_perf_tests.Base.{List, [], ◌∷◌, length, lookup, ◌≡◌, refl, arith}
use xemu_perf_tests.Base.{Bool-cases, inl, inr, eq_of-str_eq, contains, str_eq}
use xemu_perf_tests.Base.Text.{is_blank}
use xemu_perf_tests.Json.{Json, arr, obj, Items, nil, cons, Fields, end, field, get, elems}
use xemu_perf_tests.Json.Keys.{sorted_union}
use mathlib.Core.Option
use xemu_perf_tests.Json.Keys.Laws.{contains-sorted_union, get-eq-none_of_absent}
use xemu_perf_tests.Oracle.Difference.{
  scalar_difference, reported, Differ, at_key, first_key, index_path, first_difference, first_item,
  differs,
}
use xemu_perf_tests.Oracle.Difference.Same.{
  Same, same_arr, same_obj, SameItems, same_nil, same_cons, SameAt, both_missing, both_there,
  Same-of_scalar,
}
use text.Mathlib.TextLemmas.{nil-append, cons-append}

reported-eq-none :
    (d : Option String) (rest : Option String)
    → ((s : String) → d ≡ some s → is_blank s ≡ false)
    → reported d rest ≡ none
    → (d ≡ none) × (rest ≡ none)
reported-eq-none none rest h e = (refl, e)
reported-eq-none (some s) rest h e = ground (arith, h s refl)

reported-none : (d rest : Option String) → d ≡ none → reported d rest ≡ rest
reported-none none rest e = refl
reported-none (some s) rest e = cc

-- The test at the end of `first_difference`.
scalar_report : (v w : Json) (path : String) → scalar_difference v w path ≡ none → Same v w
scalar_report v w path h = Same-of_scalar v w (ground arith) (ground arith)

is_blank-append : (p s : String) → is_blank s ≡ false → is_blank (p <> s) ≡ false
is_blank-append String.[] s h = rw nil-append h
is_blank-append (String.◌∷◌ c p) s h = rw cons-append refl

child_is_not_blank : (path k : String) → is_blank (path <> ("." <> k)) ≡ false
child_is_not_blank path k = is_blank-append path ("." <> k) (rw cons-append refl)

index_path_is_not_blank : (path : String) (i : ℕ) → is_blank (index_path path i) ≡ false
index_path_is_not_blank path i = is_blank-append path _ (rw cons-append refl)

-- A report below a dict or a list is never the empty text.
first_key-not_blank :
    (ds : List (String × Differ)) (gs : Fields) (path : String) (ks : List String) (s : String)
    → first_key ds gs path ks ≡ some s
    → is_blank s ≡ false
unfolding first_key
first_key-not_blank ds gs path [] s h = cc
first_key-not_blank ds gs path (k ∷ ks) s h =
    ground (arith, child_is_not_blank path k, first_key-not_blank ds gs path ks s)

reported-not_blank :
    (d rest : Option String) (s : String)
    → reported d rest ≡ some s
    → (rest ≡ some s → is_blank s ≡ false)
    → is_blank s ≡ false
reported-not_blank none rest s e h = h e
reported-not_blank (some r) rest s e h = ground (arith, h)

first_item-not_blank :
    (vs ws : Items) (i : ℕ) (path s : String)
    → first_item vs ws i path ≡ some s
    → is_blank s ≡ false
unfolding first_difference
first_item-not_blank nil ws i path s h = cc
first_item-not_blank (cons v vs) nil i path s h = cc
first_item-not_blank (cons v vs) (cons w ws) i path s h =
    reported-not_blank _ _ s h (first_item-not_blank vs ws (suc i) path s)

scalar-not_blank :
    (v w : Json) (path s : String)
    → is_blank path ≡ false
    → scalar_difference v w path ≡ some s
    → is_blank s ≡ false
scalar-not_blank v w path s p h = ground arith

first_difference-not_blank :
    (v w : Json) (path : String)
    → is_blank path ≡ false
    → (s : String) → first_difference v w path ≡ some s
    → is_blank s ≡ false
unfolding first_difference
first_difference-not_blank (obj fs) (obj gs) path p s h =
    first_key-not_blank (differs fs) gs path (sorted_union fs gs) s h
first_difference-not_blank (arr vs) (arr ws) path p s h =
    ground (arith, first_item-not_blank vs ws 0 path s, is_blank-append path ".length" refl)
first_difference-not_blank v w path p s h = scalar-not_blank v w path s p h

pub lookup-differs :
    (k : String) (fs : Fields) → lookup k (differs fs) ≡ Option.map first_difference (get k fs)
unfolding first_difference
lookup-differs k end = refl
lookup-differs k (field j v fs) = ground (arith, lookup-differs k fs)

reported_quiet :
    (d rest : Option String) → reported d rest ≡ none → (reported d none ≡ none) × (rest ≡ none)
reported_quiet none rest h = (refl, h)
reported_quiet (some s) rest h = (ground arith, ground arith)

at_key_quiet :
    (d : Option Differ) (found : Option Json) (child : String) (rest : Option String)
    → at_key d found child rest ≡ none
    → (at_key d found child none ≡ none) × (rest ≡ none)
at_key_quiet none found child rest h = cc
at_key_quiet (some d) none child rest h = cc
at_key_quiet (some d) (some w) child rest h = reported_quiet (d w child) rest h

-- Where the loop over the keys reports nothing, nothing is reported at any of them.
first_key-eq-none :
    (ds : List (String × Differ)) (gs : Fields) (path : String) (ks : List String)
    → first_key ds gs path ks ≡ none
    → (k : String) → contains ks k ≡ true
    → at_key (lookup k ds) (get k gs) (path <> ("." <> k)) none ≡ none
unfolding first_key
first_key-eq-none ds gs path [] h k m = cc
first_key-eq-none ds gs path (j ∷ ks) h k m =
    let (here, later) = at_key_quiet (lookup j ds) (get j gs) (path <> ("." <> j)) _ h in
    elim (Bool-cases (str_eq k j)) [
      | inl e ↦ rw (eq_of-str_eq k j e) here
      | inr n ↦ first_key-eq-none ds gs path ks later k (ground arith)
    ]

-- With no report at a key, the key is in both dicts.
at_key_there :
    (d : Option Differ) (found : Option Json) (child : String)
    → at_key d found child none ≡ none
    → (w : Json) × (found ≡ some w)
at_key_there none found child h = cc
at_key_there (some d) none child h = cc
at_key_there (some d) (some w) child h = (w, refl)

not_reported :
    (v w : Json) (child : String)
    → is_blank child ≡ false
    → reported (first_difference v w child) none ≡ none
    → first_difference v w child ≡ none
not_reported v w child p h = (reported-eq-none _ none (first_difference-not_blank v w child p) h).0

missing_in_both :
    (k : String) (fs gs : Fields)
    → contains (sorted_union fs gs) k ≡ false
    → SameAt (get k fs) (get k gs)
missing_in_both k fs gs n =
    rw
      (
        get-eq-none_of_absent k fs (ground (arith, contains-sorted_union k fs gs)),
        get-eq-none_of_absent k gs (ground (arith, contains-sorted_union k fs gs)),
      )
      both_missing

mutual
  unfolding first_difference

  pub first_difference_sound :
      (v w : Json) (path : String) → first_difference v w path ≡ none → Same v w
  first_difference_sound (obj fs) (obj gs) path h = same_obj λ k.
      elim (Bool-cases (contains (sorted_union fs gs) k)) [
        | inl m ↦
            let quiet = first_key-eq-none (differs fs) gs path (sorted_union fs gs) h k m in
            let (w, found) = at_key_there (lookup k (differs fs)) (get k gs) _ quiet in
            rw found (
              differs_sound fs k w (path <> ("." <> k)) (child_is_not_blank path k)
                (rw found at quiet))
        | inr n ↦ missing_in_both k fs gs n
      ]
  first_difference_sound (arr vs) (arr ws) path h =
      same_arr (items_sound vs ws 0 path (ground arith) (ground arith))
  first_difference_sound v w path h = scalar_report v w path h

  items_sound :
      (vs ws : Items) (i : ℕ) (path : String)
      → length (elems vs) ≡ length (elems ws)
      → first_item vs ws i path ≡ none
      → SameItems vs ws
  items_sound nil nil i path l h = same_nil
  items_sound nil (cons w ws) i path l h = absurd (omega arith)
  items_sound (cons v vs) nil i path l h = absurd (omega arith)
  items_sound (cons v vs) (cons w ws) i path l h =
      let (here, later) = reported_quiet _ _ h in
      same_cons
        (first_difference_sound v w (index_path path i)
          (not_reported v w (index_path path i) (index_path_is_not_blank path i) here))
        (items_sound vs ws (suc i) path (omega arith) later)

  differs_sound :
      (fs : Fields) (k : String) (w : Json) (child : String)
      → is_blank child ≡ false
      → at_key (lookup k (differs fs)) (some w) child none ≡ none
      → SameAt (get k fs) (some w)
  differs_sound end k w child p h = cc
  differs_sound (field j v fs) k w child p h = elim (Bool-cases (str_eq k j)) [
    | inl q ↦
        rw q (both_there (first_difference_sound v w child (not_reported v w child p (rw q at h))))
    | inr q ↦ rw q (differs_sound fs k w child p (rw q at h))
  ]
