-- ===== src/Package/Manifest/Listing.antt =====
-- The tests in the list under "categories" of the manifest of utils/package_runner_suite.py, read back
-- from its JSON.
use xemu_perf_tests.Base.{
  All, true, false, String, str_eq, eq_of-str_eq, str_eq_self, List, [], ◌∷◌, ◌++◌, contains,
  is_empty, if◌then◌else◌, ◌≡◌, refl, ap, inl, inr, Bool-cases, string_dec,
}
use xemu_perf_tests.Json.{Json, str, arr, Items, nil, cons, get_null, elems, texts}
use xemu_perf_tests.Oracle.RecordShape.{dict}
use xemu_perf_tests.Oracle.View.{is_str}
use xemu_perf_tests.Package.Manifest.{Partitions, category_items}

-- The texts in a list of values.
abbrev texts_in : Items → List String
texts_in nil = []
texts_in (cons (str s) vs) = s ∷ texts_in vs
texts_in (cons v vs) = texts_in vs

abbrev list_texts : Json → List String
list_texts (arr vs) = texts_in vs
list_texts v = []

-- The texts under "tests" of a category.
abbrev pub tests_of : Json → List String
tests_of v = list_texts (get_null "tests" (dict v))

-- The tests of all categories, one after the other.
abbrev pub listed : Items → List String
listed nil = []
listed (cons v vs) = tests_of v ++ listed vs

-- The tests of the categories with an identifier.
abbrev pub listed_under : String → Items → List String
listed_under key nil = []
listed_under key (cons v vs) =
    let rest = listed_under key vs in
    if is_str key (get_null "id" (dict v)) then tests_of v ++ rest else rest

-- The same of the partitions that the categories are made of.
abbrev pub placed : Partitions → List String
placed [] = []
placed ((key, tests) ∷ ps) = tests ++ placed ps

abbrev pub tests_at : String → Partitions → List String
tests_at key [] = []
tests_at key ((k, tests) ∷ ps) = if str_eq key k then tests else tests_at key ps

texts_in-texts : (ss : List String) → texts_in (texts ss) ≡ ss
texts_in-texts [] = refl
texts_in-texts (s ∷ ss) = ap (λ ts. s ∷ ts) (texts_in-texts ss)

is_empty-eq : (ss : List String) → is_empty ss ≡ true → ss ≡ []
is_empty-eq [] h = refl
is_empty-eq (s ∷ ss) h = cc

pub listed-category_items : (ps : Partitions) → listed (category_items ps) ≡ placed ps
unfolding string_dec
listed-category_items [] = refl
listed-category_items ((key, tests) ∷ ps) = elim (Bool-cases (is_empty tests)) [
  | inl none_there ↦ rw (none_there, is_empty-eq tests none_there) (listed-category_items ps)
  | inr filled ↦ rw (filled, texts_in-texts tests, listed-category_items ps) refl
]

-- No category is empty.
pub category_items-filled :
    (ps : Partitions) → All (λ v. is_empty (tests_of v) ≡ false) (elems (category_items ps))
unfolding string_dec
category_items-filled [] = tt
category_items-filled ((key, tests) ∷ ps) = elim (Bool-cases (is_empty tests)) [
  | inl none_there ↦ rw none_there (category_items-filled ps)
  | inr filled ↦ rw filled (rw (texts_in-texts tests) filled, category_items-filled ps)
]

contains-append :
    (id : String) (ss ts : List String) → contains ss id ≡ true → contains (ss ++ ts) id ≡ true
contains-append id [] ts h = cc
contains-append id (s ∷ ss) ts h = elim (Bool-cases (str_eq id s)) [
  | inl same ↦ rw same refl
  | inr other ↦ rw other (contains-append id ss ts (rw other at h))
]

str_eq-sym : (s t : String) → str_eq s t ≡ false → str_eq t s ≡ false
str_eq-sym s t h = elim (Bool-cases (str_eq t s)) [
  | inl same ↦ let bad : true ≡ false = rw (eq_of-str_eq t s same, str_eq_self s) at h in cc
  | inr differ ↦ differ
]

pub listed_under-category_items :
    (key id : String) (ps : Partitions)
    → contains (tests_at key ps) id ≡ true
    → contains (listed_under key (category_items ps)) id ≡ true
unfolding string_dec
listed_under-category_items key id [] h = cc
listed_under-category_items key id ((k, tests) ∷ ps) h =
    let later = listed_under-category_items key id ps in
    elim (Bool-cases (str_eq key k)) [
      | inl same ↦
          let e : key ≡ k = eq_of-str_eq key k same in
          let here : contains tests id ≡ true = rw same at h in
          elim (Bool-cases (is_empty tests)) [
            | inl none_there ↦
                let bad : false ≡ true = rw (is_empty-eq tests none_there) at here in cc
            | inr filled ↦
                rw (filled, ← e, str_eq_self key, texts_in-texts tests)
                  (contains-append id tests (listed_under key (category_items ps)) here)
          ]
      | inr other ↦
          let differ : str_eq k key ≡ false = str_eq-sym key k other in
          elim (Bool-cases (is_empty tests)) [
            | inl none_there ↦ rw none_there (later (rw other at h))
            | inr filled ↦ rw (filled, differ) (later (rw other at h))
          ]
    ]
