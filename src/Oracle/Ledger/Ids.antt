-- ===== src/Oracle/Ledger/Ids.antt =====
-- The report identifiers of a ledger entry: `existing["report_ids"]` of utils/oracle_validation.py.
use xemu_perf_tests.Base.{
  ℕ, Bool, true, false, ◌||◌, List, [], ◌∷◌, ◌++◌, ◌≡◌, refl, arith, Bool-cases, inl, inr,
}
use xemu_perf_tests.Base.Text.{contains_text}
use xemu_perf_tests.Base.Result.{ok, Result-cases}
use xemu_perf_tests.Json.{Json, str, arr, obj, has, elems, of_elems}
use xemu_perf_tests.Json.Equality.{py_eq}
use xemu_perf_tests.Oracle.Consensus.{is_in, insert_value, sorted_values}
use xemu_perf_tests.Oracle.Ledger.{sorted_with, add_report_id}

-- `id in ids`
abbrev pub lists : Json → Json → Bool
lists id (arr vs) = is_in (elems vs) id
lists (str s) (obj fs) = has s fs
lists (str s) (str ids) = contains_text ids s
lists id _ = false

is_in-insert_value :
    (x v : Json) (ws us : List Json)
    → insert_value v ws ≡ ok us
    → is_in us x ≡ (py_eq x v || is_in ws x)
unfolding insert_value
is_in-insert_value x v [] us h = ground arith
is_in-insert_value x v (w ∷ ws) us h = elim (Result-cases (insert_value v ws)) [
  | inl (rest, r) ↦ ground (arith, is_in-insert_value x v ws rest r)
  | inr (e, r) ↦ ground arith
]

is_in-sorted_values :
    (x : Json) (vs us : List Json) → sorted_values vs ≡ ok us → is_in us x ≡ is_in vs x
unfolding sorted_values
is_in-sorted_values x [] us h = ground arith
is_in-sorted_values x (v ∷ vs) us h = elim (Result-cases (sorted_values vs)) [
  | inl (ws, w) ↦
      ground (arith, is_in-sorted_values x vs ws w, is_in-insert_value x v ws us (rw w at h))
  | inr (e, w) ↦ ground arith
]

is_in-append_self : (x : Json) (vs : List Json) → py_eq x x ≡ true → is_in (vs ++ (x ∷ [])) x ≡ true
is_in-append_self x [] h = ground arith
is_in-append_self x (v ∷ vs) h = ground (arith, is_in-append_self x vs h)

elems-of_elems : (vs : List Json) → elems (of_elems vs) ≡ vs
elems-of_elems [] = refl
elems-of_elems (v ∷ vs) = rw (elems-of_elems vs)

sorted_with-lists :
    (id : Json) (vs : List Json) {ids : Json} {n : ℕ}
    → py_eq id id ≡ true
    → sorted_with vs id ≡ ok (ids, n)
    → lists id ids ≡ true
unfolding sorted_with
sorted_with-lists id vs {ids} p h = elim (Result-cases (sorted_values (vs ++ id ∷ []))) [
  | inl (ws, w) ↦
      let e : arr (of_elems ws) ≡ ids = ground arith in
      rw (← e, elems-of_elems ws, is_in-sorted_values id _ ws w) (is_in-append_self id vs p)
  | inr (e, w) ↦ ground arith
]

-- Where an identifier was added, the list holds it.
pub add_report_id-lists :
    (id v : Json) {ids : Json} {n : ℕ}
    → py_eq id id ≡ true
    → add_report_id id v ≡ ok (ids, n)
    → lists id ids ≡ true
unfolding add_report_id
add_report_id-lists id (arr vs) p h = elim (Bool-cases (is_in (elems vs) id)) [
  | inl old ↦ ground arith
  | inr fresh ↦ sorted_with-lists id (elems vs) p (rw fresh at h)
]
add_report_id-lists (str s) (obj fs) p h = ground arith
add_report_id-lists (str s) (str ids) p h = ground arith
add_report_id-lists id v p h = cc
