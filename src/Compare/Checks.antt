-- ===== src/Compare/Checks.antt =====
-- The checks of a row of utils/hash_compare.py, and how the loop counts those that fail.
use xemu_perf_tests.Base.{
  Bool, true, false, not, ◌&&◌, ◌||◌, String, eq_of-str_eq, str_eq_self, Option-cases, Option, none,
  some, List, [], ◌∷◌, All, ◌≡◌, ◌↔◌, inl, inr, refl, ap, arith, Bool-cases,
}
use xemu_perf_tests.Json.{Fields}
use xemu_perf_tests.Compare.Records.{Python, hash_eligible}
use xemu_perf_tests.Compare.Rows.{
  Check, Row, is_match, text_eq, record_in, Progress, count_check, hash_in, check_hash, row_of,
  add_row, progress_all,
}

abbrev is_fine : Check → Bool
is_fine check = not check.checked || is_match check

abbrev pub row_fine : Row → Bool
row_fine row = is_fine row.framebuffer && is_fine row.work && is_fine row.result

text_eq_iff : (a : Option String) (s : String) → text_eq a (some s) ≡ true → a ≡ some s
text_eq_iff none s h = cc
text_eq_iff (some t) s h = ap some (eq_of-str_eq t s h)

text_eq_self : (s : String) → text_eq (some s) (some s) ≡ true
text_eq_self s = str_eq_self s

all_three : (a b c : Bool) → (a && b && c) ≡ true → (a ≡ true) × (b ≡ true) × (c ≡ true)
all_three true true true h = (refl, refl, refl)
all_three true true false h = cc
all_three true false c h = cc
all_three false b c h = cc

count_check_iff :
    (check : Check) (s : Progress)
    → ((count_check check s).mismatched ≡ 0) ↔ ((is_fine check ≡ true) × (s.mismatched ≡ 0))
count_check_iff check s = elim (Bool-cases check.checked) [
  | inr skipped ↦ rw skipped (λ h. (refl, h), λ h. h.1)
  | inl checked ↦ elim (Bool-cases (is_match check)) [
    | inl same ↦ rw (checked, same) (λ h. (refl, h), λ h. h.1)
    | inr other ↦
        rw (checked, other)
          (λ h. absurd (omega (arith, h)), λ h. let bad : false ≡ true = h.0 in cc)
  ]
]

module _ (p : Python) where
  -- Where the first record has an eligible hash, the second has the same one, eligible as well.
  abbrev pub HashKept : Option Fields → Option Fields → String → String → Type 0
  HashKept base run label key =
      (e : String)
      → hash_in p base key ≡ some e
      → hash_eligible p base label ≡ true
      → (hash_in p run key ≡ some e) × (hash_eligible p run label ≡ true)

  check_hash-HashKept :
      (base run : Option Fields) (label key : String)
      → is_fine (check_hash p base run label key) ≡ true
      → HashKept base run label key
  unfolding check_hash
  check_hash-HashKept base run label key h e found eligible =
      elim (Bool-cases (hash_eligible p run label)) [
        | inl both ↦ (text_eq_iff (hash_in p run key) e (rw (found, eligible, both) at h), both)
        | inr only ↦ let bad : false ≡ true = rw (found, eligible, only) at h in cc
      ]

  HashKept-is_fine :
      (base run : Option Fields) (label key : String)
      → HashKept base run label key
      → is_fine (check_hash p base run label key) ≡ true
  unfolding check_hash
  HashKept-is_fine base run label key k = elim (Option-cases (hash_in p base key)) [
    | inl none_there ↦ rw none_there refl
    | inr (e, found) ↦ elim (Bool-cases (hash_eligible p base label)) [
      | inl eligible ↦
          let (same, both) = k e found eligible in rw (found, eligible, both, same) (text_eq_self e)
      | inr other ↦ rw (found, other) refl
    ]
  ]

  -- The hashes that the code compares.
  pub record RowKept (base run : Option Fields) : Type 0 where
    pub framebuffer : HashKept base run "framebuffer" "framebuffer_fnv1a64"
    pub work : HashKept base run "work" "work_checksum"
    pub result : HashKept base run "result" "result_checksum"

  pub row_of-RowKept :
      (baseline candidate : Fields) (id : String)
      → row_fine (row_of p baseline candidate id) ≡ true
      → RowKept (record_in id baseline) (record_in id candidate)
  unfolding row_of
  row_of-RowKept baseline candidate id h =
      let base = record_in id baseline in
      let run = record_in id candidate in
      let (f, w, r) = all_three _ _ _ h in
      record {
        framebuffer = check_hash-HashKept base run _ _ f;
        work = check_hash-HashKept base run _ _ w;
        result = check_hash-HashKept base run _ _ r;
      }

  pub RowKept-row_fine :
      (baseline candidate : Fields) (id : String)
      → RowKept (record_in id baseline) (record_in id candidate)
      → row_fine (row_of p baseline candidate id) ≡ true
  unfolding row_of
  RowKept-row_fine baseline candidate id k =
      rw
        (
          HashKept-is_fine _ _ "framebuffer" "framebuffer_fnv1a64" k.framebuffer,
          HashKept-is_fine _ _ "work" "work_checksum" k.work,
          HashKept-is_fine _ _ "result" "result_checksum" k.result,
        )
        refl

  add_row_iff :
      (row : Row) (s : Progress)
      → ((add_row p row s).mismatched ≡ 0) ↔ ((row_fine row ≡ true) × (s.mismatched ≡ 0))
  add_row_iff row s =
      let one = count_check_iff row.framebuffer s in
      let two = count_check_iff row.work (count_check row.framebuffer s) in
      let three =
        count_check_iff row.result (count_check row.work (count_check row.framebuffer s)) in
      (
        λ h.
            let (r, h1) = three.0 h in
            let (w, h2) = two.0 h1 in let (f, h3) = one.0 h2 in (rw (f, w, r) refl, h3),
        λ h. let (f, w, r) = all_three _ _ _ h.0 in three.1 (r, two.1 (w, one.1 (f, h.1))),
      )

  pub progress_all_sound :
      (baseline candidate : Fields) (ids : List String) (s : Progress)
      → (progress_all p baseline candidate ids s).mismatched ≡ 0
      → All (λ id. row_fine (row_of p baseline candidate id) ≡ true) ids × (s.mismatched ≡ 0)
  unfolding progress_all
  progress_all_sound baseline candidate [] s h = (tt, h)
  progress_all_sound baseline candidate (id ∷ ids) s h =
      let (later, h1) =
        progress_all_sound baseline candidate ids (add_row p (row_of p baseline candidate id) s)
          h in
      let (now, h2) = (add_row_iff (row_of p baseline candidate id) s).0 h1 in ((now, later), h2)

  pub progress_all_complete :
      (baseline candidate : Fields) (ids : List String) (s : Progress)
      → ((id : String) → row_fine (row_of p baseline candidate id) ≡ true)
      → s.mismatched ≡ 0
      → (progress_all p baseline candidate ids s).mismatched ≡ 0
  unfolding progress_all
  progress_all_complete baseline candidate [] s k h = h
  progress_all_complete baseline candidate (id ∷ ids) s k h =
      progress_all_complete baseline candidate ids (add_row p (row_of p baseline candidate id) s) k
        ((add_row_iff (row_of p baseline candidate id) s).1 (k id, h))
