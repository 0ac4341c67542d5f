-- ===== src/Reference/X87/Extended.antt =====
-- What an extended reference is, and what `unique_object` keeps: utils/x87_status_reference.py.
use mathlib.Core.List.{append_assoc, append-nil}
use xemu_perf_tests.Base.{
  true, false, not, String, ◌<>◌, str_eq, List, [], ◌∷◌, ◌++◌, ◌≡◌, refl, sym, ap, ◌∙◌, arith, inl,
  inr, Bool-cases,
}
use xemu_perf_tests.Base.Result.{ok, invalid, guard, >>-eq-ok, guard-eq-ok, ok_inj}
use xemu_perf_tests.Json.{Json, Fields, end, field, has, put, pairs}
use xemu_perf_tests.Reference.X87.{
  Row, ids, all_new, ids_of_rows, records_of, stable_records, definitions, expected_rows,
  unique_from, unique_object,
}

-- A key that is not there goes to the end.
pairs-put :
    (key : String) (value : Json) (fs : Fields)
    → has key fs ≡ false
    → pairs (put key value fs) ≡ pairs fs ++ ((key, value) ∷ [])
pairs-put key value end h = refl
pairs-put key value (field k v fs) h = elim (Bool-cases (str_eq key k)) [
  | inl same ↦ let bad : true ≡ false = rw same at h in cc
  | inr other ↦ rw other (ap (λ ps. (k, v) ∷ ps) (pairs-put key value fs (rw other at h)))
]

unique_from-pairs :
    (ps : List (String × Json)) (before fs : Fields)
    → unique_from ps before ≡ ok fs
    → pairs fs ≡ pairs before ++ ps
unfolding unique_from
unique_from-pairs [] before fs h = ap pairs (sym (ok_inj h)) ∙ sym (append-nil (pairs before))
unique_from-pairs ((key, value) ∷ ps) before fs h =
    let (g, h1) =
      >>-eq-ok (guard (not (has key before)) (invalid ("Duplicate JSON field: " <> key))) _ h in
    let new : has key before ≡ false = ground (arith, guard-eq-ok (not (has key before)) _ g) in
    unique_from-pairs ps (put key value before) fs h1
    ∙ ap (λ qs. qs ++ ps) (pairs-put key value before new)
    ∙ append_assoc (pairs before) ((key, value) ∷ []) ps

-- An object that `unique_object` accepts is kept whole: the dict's entries are the pairs of the text,
-- in their order.
pub unique_object-pairs :
    (ps : List (String × Json)) (fs : Fields) → unique_object ps ≡ ok fs → pairs fs ≡ ps
unfolding unique_object
unique_object-pairs ps fs h = unique_from-pairs ps end fs h

-- The old records stand first as they were, the family's expected records follow, and no identifier
-- occurs twice.
pub record Extended (existing : Json) (family : String) (out : List Fields) : Type 0 where
  pub old : List (String × Fields)
  pub rows : List Row
  pub read : stable_records existing ≡ ok old
  pub defined : definitions family ≡ ok rows
  pub result : out ≡ records_of old ++ expected_rows family rows
  pub once : all_new (ids old ++ ids_of_rows rows) ≡ true
