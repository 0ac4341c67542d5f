-- ===== src/Compare/Pass.antt =====
-- What the verdict PASS of utils/hash_compare.py means.
use xemu_perf_tests.Base.{
  ℕ, ◌==◌, Bool, true, false, not, ◌||◌, String, str_eq, eq_of-str_eq, str_eq_self, string_dec,
  Option, none, List, [], ◌∷◌, is_empty, contains, All, if◌then◌else◌, ◌≡◌, ◌↔◌, inl, inr, refl,
  sym, ◌∙◌, arith, Bool-cases,
}
use xemu_perf_tests.Json.{Fields, end, field, keys, has}
use xemu_perf_tests.Json.Keys.{insert_sorted, sorted, sorted_union, text_lt}
use xemu_perf_tests.Json.Keys.Laws.{contains-sorted_union, get-eq-none_of_absent}
use xemu_perf_tests.Compare.{compare_run}
use xemu_perf_tests.Compare.Records.{Python}
use xemu_perf_tests.Compare.Rows.{minus, record_in, Progress, row_of, progress_all}
use xemu_perf_tests.Compare.Counts.{HasSomeHash, counted-HasSomeHash, HasSomeHash-counted}
use xemu_perf_tests.Compare.Checks.{
  row_fine, RowKept, row_of-RowKept, RowKept-row_fine, progress_all_sound, progress_all_complete,
}

All-contains :
    (q : String → Bool) (id : String) (ids : List String)
    → All (λ i. q i ≡ true) ids
    → contains ids id ≡ true
    → q id ≡ true
All-contains q id [] h m = cc
All-contains q id (i ∷ ids) h m = elim (Bool-cases (str_eq id i)) [
  | inl same ↦ rw (eq_of-str_eq id i same) h.0
  | inr other ↦ All-contains q id ids h.1 (rw other at m)
]

contains-keys : (id : String) (fs : Fields) → contains (keys fs) id ≡ has id fs
contains-keys id end = refl
contains-keys id (field k v fs) = ground (arith, contains-keys id fs)

record_in-absent : (id : String) (fs : Fields) → has id fs ≡ false → record_in id fs ≡ none
record_in-absent id fs h =
    rw (record_in, get-eq-none_of_absent id fs (contains-keys id fs ∙ h)) refl

insert_sorted_filled : (k : String) (ks : List String) → is_empty (insert_sorted k ks) ≡ false
unfolding insert_sorted
insert_sorted_filled k [] = refl
insert_sorted_filled k (j ∷ ks) = elim (Bool-cases (text_lt j k)) [
  | inl less ↦ rw less refl
  | inr other ↦ rw other refl
]

is_empty-sorted : (ks : List String) → is_empty (sorted ks) ≡ is_empty ks
unfolding sorted
is_empty-sorted [] = refl
is_empty-sorted (k ∷ ks) = insert_sorted_filled k (sorted ks)

-- Without a difference, each key of the one dict is a key of the other.
minus-empty :
    (fs gs : Fields) (id : String)
    → is_empty (minus fs gs) ≡ true
    → has id fs ≡ true
    → has id gs ≡ true
minus-empty end gs id h m = cc
minus-empty (field k v fs) gs id h m = elim (Bool-cases (has k gs)) [
  | inr missing ↦ let bad : false ≡ true = rw missing at h in cc
  | inl there ↦ elim (Bool-cases (str_eq id k)) [
    | inl same ↦ rw (eq_of-str_eq id k same) there
    | inr other ↦ minus-empty fs gs id (rw there at h) (rw other at m)
  ]
]

empty-minus :
    (fs gs : Fields)
    → ((id : String) → has id fs ≡ true → has id gs ≡ true)
    → is_empty (minus fs gs) ≡ true
empty-minus end gs h = refl
empty-minus (field k v fs) gs h =
    rw (h k (rw (str_eq_self k) refl)) (empty-minus fs gs (λ id m. h id (ground (arith, m))))

abbrev passing : Bool → Bool → Bool → Bool → String
passing none_checked no_missing no_extra no_mismatch =
    if none_checked
    then "UNVERIFIED"
    else if not no_missing || not no_extra || not no_mismatch
    then "FAIL"
    else "PASS"

passing_iff :
    (z a b q : Bool)
    → (str_eq (passing z a b q) "PASS" ≡ true)
      ↔ ((z ≡ false) × (a ≡ true) × (b ≡ true) × (q ≡ true))
unfolding string_dec
passing_iff true a b q = (λ h. cc, λ h. cc)
passing_iff false false b q = (λ h. cc, λ h. cc)
passing_iff false true false q = (λ h. cc, λ h. cc)
passing_iff false true true false = (λ h. cc, λ h. cc)
passing_iff false true true true = (λ h. (refl, refl, refl, refl), λ h. refl)

zero_iff : (m : ℕ) → (m ≡ 0) ↔ ((m == 0) ≡ true)
zero_iff m = (λ h. ground (arith, h), λ h. ground (arith, h))

in_union :
    (id : String) (fs gs : Fields) → has id fs ≡ true → contains (sorted_union fs gs) id ≡ true
in_union id fs gs h = rw (contains-sorted_union id fs gs, contains-keys id fs, h) refl

-- What PASS stands for: the runs have the same records, a record of the baseline has an eligible
-- hash, and every eligible hash of the baseline is an eligible hash of the candidate's record.
pub record Passed (p : Python) (baseline candidate : Fields) : Type 0 where
  pub same_records : (id : String) → has id baseline ≡ has id candidate
  pub id : String
  pub compared : HasSomeHash p (record_in id baseline)
  pub kept : (id : String) → RowKept p (record_in id baseline) (record_in id candidate)

same_has :
    (fs gs : Fields) (id : String)
    → is_empty (minus fs gs) ≡ true
    → is_empty (minus gs fs) ≡ true
    → has id fs ≡ has id gs
same_has fs gs id g h = elim (Bool-cases (has id fs)) [
  | inl in_first ↦ in_first ∙ sym (minus-empty fs gs id g in_first)
  | inr out ↦ elim (Bool-cases (has id gs)) [
    | inl other ↦ let bad : false ≡ true = sym out ∙ minus-empty gs fs id h other in cc
    | inr neither ↦ out ∙ sym neither
  ]
]

-- A row of no record has no hash to compare.
RowKept-none : (p : Python) (run : Option Fields) → RowKept p none run
RowKept-none p run = record { framebuffer = λ e h l. cc; work = λ e h l. cc; result = λ e h l. cc }

not-HasSomeHash : (p : Python) → ¬ HasSomeHash p none
not-HasSomeHash p (inl (e, found, eligible)) = cc
not-HasSomeHash p (inr (inl (e, found, eligible))) = cc
not-HasSomeHash p (inr (inr (e, found, eligible))) = cc

-- A record that has a hash is there.
HasSomeHash-has :
    (p : Python) (id : String) (fs : Fields) → HasSomeHash p (record_in id fs) → has id fs ≡ true
HasSomeHash-has p id fs h = elim (Bool-cases (has id fs)) [
  | inl there ↦ there
  | inr absent ↦ absurd (not-HasSomeHash p (rw (record_in-absent id fs absent) at h))
]

-- The comparison of two indexed runs has the verdict PASS exactly where the runs have the same
-- record identifiers, some record of the baseline has one of the three hashes and it may be
-- compared, and for each record and each of its three hashes, a hash that the baseline has and that
-- may be compared is the candidate's hash, which may be compared too.
pub compare_run-passes_iff :
    (p : Python) (baseline candidate : Fields) (source : String)
    → (str_eq (compare_run p baseline source candidate).verdict "PASS" ≡ true)
      ↔ Passed p baseline candidate
unfolding compare_run
compare_run-passes_iff p baseline candidate source =
    let start : Progress = record { rows = []; checked = 0; mismatched = 0 } in
    let done = progress_all p baseline candidate (sorted_union baseline candidate) start in
    let missing = is_empty-sorted (minus baseline candidate) in
    let extra = is_empty-sorted (minus candidate baseline) in
    let tests =
      passing_iff (done.checked == 0) (is_empty (sorted (minus baseline candidate)))
        (is_empty (sorted (minus candidate baseline))) (done.mismatched == 0) in
    (
      λ h.
          let (z, a, b, q) = tests.0 h in
          let fine =
            (progress_all_sound p baseline candidate (sorted_union baseline candidate) start
              ((zero_iff done.mismatched).1 q)).0 in
          let some_hash =
            counted-HasSomeHash p baseline candidate (sorted_union baseline candidate) start refl
              z in
          record {
            same_records = λ id. same_has baseline candidate id (sym missing ∙ a) (sym extra ∙ b);
            id = some_hash.0;
            compared = some_hash.1;
            kept = λ id. elim (Bool-cases (has id baseline)) [
              | inr absent ↦ rw (record_in-absent id baseline absent) (RowKept-none p _)
              | inl listed ↦ row_of-RowKept p baseline candidate id (
                  All-contains (λ i. row_fine (row_of p baseline candidate i)) id
                    (sorted_union baseline candidate) fine (in_union id baseline candidate listed))
            ];
          },
      λ d. tests.1 (
        HasSomeHash-counted p baseline candidate (sorted_union baseline candidate) start d.id
            (in_union d.id baseline candidate (HasSomeHash-has p d.id baseline d.compared))
            d.compared,
        missing ∙ empty-minus baseline candidate (λ id m. sym (d.same_records id) ∙ m),
        extra ∙ empty-minus candidate baseline (λ id m. d.same_records id ∙ m),
        (zero_iff done.mismatched).0 (
            progress_all_complete p baseline candidate (sorted_union baseline candidate) start
              (λ id. RowKept-row_fine p baseline candidate id (d.kept id)) refl),
      ),
    )
