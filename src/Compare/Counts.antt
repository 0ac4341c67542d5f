-- ===== src/Compare/Counts.antt =====
-- Which hashes the loop of utils/hash_compare.py counts as checked.
use xemu_perf_tests.Base.{
  ◌==◌, Bool, true, false, not, ◌&&◌, ◌||◌, String, str_eq, eq_of-str_eq, Option-cases, Option,
  some, List, [], ◌∷◌, contains, ◌≡◌, ◌⊎◌, inl, inr, refl, sym, ◌∙◌, arith, Bool-cases,
}
use xemu_perf_tests.Json.{Fields}
use xemu_perf_tests.Compare.Records.{Python, hash_eligible}
use xemu_perf_tests.Compare.Rows.{
  Check, Row, record_in, Progress, count_check, hash_in, check_hash, row_of, add_row, progress_all,
}

abbrev row_checked : Row → Bool
row_checked row = row.framebuffer.checked || row.work.checked || row.result.checked

count_check-checked :
    (check : Check) (s : Progress)
    → ((count_check check s).checked == 0) ≡ (not check.checked && s.checked == 0)
count_check-checked check s = elim (Bool-cases check.checked) [
  | inr skipped ↦ rw skipped refl
  | inl checked ↦ rw checked (ground arith)
]

nothing_of_three : (a b c d : Bool) → (not a && (not b && (not c && d))) ≡ (not (c || b || a) && d)
nothing_of_three true b true d = refl
nothing_of_three true true false d = refl
nothing_of_three true false false d = refl
nothing_of_three false true true d = refl
nothing_of_three false true false d = refl
nothing_of_three false false true d = refl
nothing_of_three false false false d = refl

any_checked : (String → Bool) → List String → Bool
any_checked q [] = false
any_checked q (id ∷ ids) = q id || any_checked q ids

find_checked :
    (q : String → Bool) (ids : List String)
    → any_checked q ids ≡ true
    → (id : String) × (q id ≡ true)
unfolding any_checked
find_checked q [] h = cc
find_checked q (id ∷ ids) h = elim (Bool-cases (q id)) [
  | inl here ↦ (id, here)
  | inr later ↦ find_checked q ids (rw later at h)
]

any_checked-contains :
    (q : String → Bool) (id : String) (ids : List String)
    → contains ids id ≡ true
    → q id ≡ true
    → any_checked q ids ≡ true
unfolding any_checked
any_checked-contains q id [] m h = cc
any_checked-contains q id (i ∷ ids) m h = elim (Bool-cases (str_eq id i)) [
  | inl same ↦ rw (← eq_of-str_eq id i same, h) refl
  | inr other ↦ elim (Bool-cases (q i)) [
    | inl here ↦ rw here refl
    | inr later ↦ rw later (any_checked-contains q id ids (rw other at m) h)
  ]
]

skip_row : (c q z : Bool) → (not q && (not c && z)) ≡ (not (c || q) && z)
skip_row true true z = refl
skip_row true false z = refl
skip_row false true z = refl
skip_row false false z = refl

true_of-rest : (q : Bool) → (not q && true) ≡ false → q ≡ true
true_of-rest true h = refl
true_of-rest false h = cc

module _ (p : Python) where
  -- A record has a hash that may be compared.
  abbrev pub HasHash : Option Fields → String → String → Type 0
  HasHash base label key =
      (e : String) × (hash_in p base key ≡ some e) × (hash_eligible p base label ≡ true)

  -- One of the three hashes that the code compares.
  abbrev pub HasSomeHash : Option Fields → Type 0
  HasSomeHash base =
      HasHash base "framebuffer" "framebuffer_fnv1a64"
      ⊎ HasHash base "work" "work_checksum"
      ⊎ HasHash base "result" "result_checksum"

  check_hash-HasHash :
      (base run : Option Fields) (label key : String)
      → (check_hash p base run label key).checked ≡ true
      → HasHash base label key
  unfolding check_hash
  check_hash-HasHash base run label key h = elim (Option-cases (hash_in p base key)) [
    | inl none_there ↦ let bad : false ≡ true = rw none_there at h in cc
    | inr (e, found) ↦ (e, found, rw found at h)
  ]

  HasHash-checked :
      (base run : Option Fields) (label key : String)
      → HasHash base label key
      → (check_hash p base run label key).checked ≡ true
  unfolding check_hash
  HasHash-checked base run label key (e, found, eligible) = rw (found, eligible) refl

  row_of-HasSomeHash :
      (baseline candidate : Fields) (id : String)
      → row_checked (row_of p baseline candidate id) ≡ true
      → HasSomeHash (record_in id baseline)
  unfolding row_of
  row_of-HasSomeHash baseline candidate id h =
      let row = row_of p baseline candidate id in
      let base = record_in id baseline in
      let run = record_in id candidate in
      elim (Bool-cases row.framebuffer.checked) [
        | inl f ↦ inl (check_hash-HasHash base run "framebuffer" "framebuffer_fnv1a64" f)
        | inr no_f ↦ elim (Bool-cases row.work.checked) [
          | inl w ↦ inr (inl (check_hash-HasHash base run "work" "work_checksum" w))
          | inr no_w ↦
              inr (
                inr (check_hash-HasHash base run "result" "result_checksum" (rw (no_f, no_w) at h)))
        ]
      ]

  HasSomeHash-row_checked :
      (baseline candidate : Fields) (id : String)
      → HasSomeHash (record_in id baseline)
      → row_checked (row_of p baseline candidate id) ≡ true
  unfolding row_of
  HasSomeHash-row_checked baseline candidate id (inl f) =
      rw (HasHash-checked _ (record_in id candidate) "framebuffer" "framebuffer_fnv1a64" f) refl
  HasSomeHash-row_checked baseline candidate id (inr (inl w)) =
      let row = row_of p baseline candidate id in
      let c : row.work.checked ≡ true =
        HasHash-checked _ (record_in id candidate) "work" "work_checksum" w in
      ground (arith, c)
  HasSomeHash-row_checked baseline candidate id (inr (inr r)) =
      let row = row_of p baseline candidate id in
      let c : row.result.checked ≡ true =
        HasHash-checked _ (record_in id candidate) "result" "result_checksum" r in
      ground (arith, c)

  add_row-checked :
      (row : Row) (s : Progress)
      → ((add_row p row s).checked == 0) ≡ (not (row_checked row) && s.checked == 0)
  add_row-checked row s =
      let one = count_check-checked row.framebuffer s in
      let two = count_check-checked row.work (count_check row.framebuffer s) in
      let three =
        count_check-checked row.result (count_check row.work (count_check row.framebuffer s)) in
      rw (three, two, one)
        (nothing_of_three row.result.checked row.work.checked row.framebuffer.checked
          (s.checked == 0))

  -- Nothing is counted exactly where no row has a checked hash.
  progress_all-checked :
      (baseline candidate : Fields) (ids : List String) (s : Progress)
      → ((progress_all p baseline candidate ids s).checked == 0) ≡ (
          not (any_checked (λ id. row_checked (row_of p baseline candidate id)) ids)
          && s.checked == 0)
  unfolding progress_all any_checked
  progress_all-checked baseline candidate [] s = refl
  progress_all-checked baseline candidate (id ∷ ids) s =
      let row = row_of p baseline candidate id in
      let later = progress_all-checked baseline candidate ids (add_row p row s) in
      rw (later, add_row-checked row s)
        (skip_row (row_checked row)
          (any_checked (λ i. row_checked (row_of p baseline candidate i)) ids) (s.checked == 0))

  -- Where something is counted, there is something to count.
  pub counted-HasSomeHash :
      (baseline candidate : Fields) (ids : List String) (s : Progress)
      → (s.checked == 0) ≡ true
      → ((progress_all p baseline candidate ids s).checked == 0) ≡ false
      → (id : String) × HasSomeHash (record_in id baseline)
  counted-HasSomeHash baseline candidate ids s start h =
      let q : String → Bool = λ id. row_checked (row_of p baseline candidate id) in
      let (id, c) = find_checked q ids (
        true_of-rest (any_checked q ids)
          (sym (rw start at (progress_all-checked baseline candidate ids s)) ∙ h)) in
      (id, row_of-HasSomeHash baseline candidate id c)

  pub HasSomeHash-counted :
      (baseline candidate : Fields) (ids : List String) (s : Progress) (id : String)
      → contains ids id ≡ true
      → HasSomeHash (record_in id baseline)
      → ((progress_all p baseline candidate ids s).checked == 0) ≡ false
  HasSomeHash-counted baseline candidate ids s id m h =
      let q : String → Bool = λ i. row_checked (row_of p baseline candidate i) in
      let there : any_checked q ids ≡ true =
        any_checked-contains q id ids m (HasSomeHash-row_checked baseline candidate id h) in
      progress_all-checked baseline candidate ids s ∙ rw there refl
