-- ===== src/Oracle/Validate/NoOracle.antt =====
-- Records of utils/oracle_validation.py whose internal oracle is null.
use xemu_perf_tests.Base.{some, List, ◌∷◌, ◌++◌, All, All-middle, ◌≡◌, inl, inr}
use xemu_perf_tests.Base.Result.{Error, ok, err, Result-cases, >>=-eq-ok}
use xemu_perf_tests.Json.{Json, null, obj, arr, Items, nil, cons, Fields, end, get, get_null, elems}
use xemu_perf_tests.Oracle.Canonical.{Platform}
use xemu_perf_tests.Oracle.RecordShape.{dict}
use xemu_perf_tests.Oracle.Manifest.{list_items}
use xemu_perf_tests.Oracle.View.{
  as_dict, get_or, comparison_record, comparison_items, comparison_records,
}
use xemu_perf_tests.Oracle.Validate.{validate_against_oracle}
use xemu_perf_tests.Oracle.Validate.Accepted.{validate_against_oracle-eq-ok_iff}

abbrev HasNoNull : Json → Type 0
HasNoNull v = ¬ (get "internal_oracle" (dict v) ≡ some null)

comparison_record-HasNoNull : (v w : Json) → comparison_record v ≡ ok w → HasNoNull v
unfolding comparison_record
comparison_record-HasNoNull (obj fs) w h n =
    let (internal, i, h1) = >>=-eq-ok (as_dict (get_or (obj end) (get "internal_oracle" fs))) _ h in
    let impossible = rw n at i in cc
comparison_record-HasNoNull v w h n = cc

comparison_items-HasNoNull :
    (vs ws : Items) → comparison_items vs ≡ ok ws → All HasNoNull (elems vs)
unfolding comparison_items
comparison_items-HasNoNull nil ws h = tt
comparison_items-HasNoNull (cons v vs) ws h =
    let (x, e, h1) = >>=-eq-ok (comparison_record v) _ h in
    let (xs, es, h2) = >>=-eq-ok (comparison_items vs) _ h1 in
    (comparison_record-HasNoNull v x e, comparison_items-HasNoNull vs xs es)

comparison_records-HasNoNull :
    (records view : Json)
    → comparison_records records ≡ ok view
    → All HasNoNull (elems (list_items records))
unfolding comparison_records
comparison_records-HasNoNull (arr vs) view h =
    let (ws, e, h1) = >>=-eq-ok (comparison_items vs) _ h in comparison_items-HasNoNull vs ws e
comparison_records-HasNoNull records view h = cc

-- No oracle accepts a report that has a record whose internal oracle is null.
pub null_internal_oracle_is_rejected :
    (p : Platform) (report oracle : Fields) (v : Json) (vs ws : List Json)
    → elems (list_items (get_null "records" report)) ≡ vs ++ v ∷ ws
    → get "internal_oracle" (dict v) ≡ some null
    → (e : Error) × (validate_against_oracle p report oracle ≡ err e)
null_internal_oracle_is_rejected p report oracle v vs ws m n =
    elim (Result-cases (validate_against_oracle p report oracle)) [
      | inr r ↦ r
      | inl (out, r) ↦
          let (provenance, d, same) = (validate_against_oracle-eq-ok_iff p report oracle out).0 r in
          let all = comparison_records-HasNoNull _ d.actual d.report_view in
          absurd (All-middle HasNoNull vs v ws (rw m at all) n)
    ]
