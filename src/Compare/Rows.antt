-- ===== src/Compare/Rows.antt =====
-- The rows of a comparison: the loop over the records in `compare_runs` of utils/hash_compare.py.
use xemu_perf_tests.Base.{
  ℕ, ◌+◌, Bool, true, false, not, ◌&&◌, String, str_eq, Option, none, some, List, [], ◌∷◌, ◌++◌,
  if◌then◌else◌,
}
use xemu_perf_tests.Base.Text.{is_some}
use xemu_perf_tests.Json.{obj, Fields, end, field, get, has}
use xemu_perf_tests.Compare.Records.{Python, hash, hash_eligible}

-- `set(a) - set(b)`
abbrev pub minus : Fields → Fields → List String
minus end gs = []
minus (field k v fs) gs = let rest = minus fs gs in if has k gs then rest else k ∷ rest

-- A value of `row["hashes"]`; `agreed` is the key "match".
pub record Check : Type 0 where
  pub checked : Bool
  pub agreed : Option Bool
  pub expected : Option String
  pub actual : Option String

pub record Row : Type 0 where
  pub record_id : String
  pub framebuffer : Check
  pub work : Check
  pub result : Check

abbrev pub checked_of : Check → Bool
checked_of check = check.checked

-- `check["match"] is True`
abbrev pub is_true : Option Bool → Bool
is_true (some b) = b
is_true none = false

abbrev pub is_match : Check → Bool
is_match check = is_true check.agreed

abbrev pub text_eq : Option String → Option String → Bool
text_eq none none = true
text_eq (some s) (some t) = str_eq s t
text_eq _ _ = false

-- An index holds dicts only.
abbrev pub record_in : String → Fields → Option Fields
record_in id indexed = elim (get id indexed) [ some (obj rec) ↦ some rec | _ ↦ none ]

pub record Progress : Type 0 where
  pub rows : List Row
  pub checked : ℕ
  pub mismatched : ℕ

abbrev pub count_check : Check → Progress → Progress
count_check check s =
    if check.checked
    then record s {
      checked = s.checked + 1;
      mismatched = if is_match check then s.mismatched else s.mismatched + 1;
    }
    else s

module _ (p : Python) where
  -- `_hash(record, field) if record else None`: no dict, or one without a key, has no hash.
  abbrev pub hash_in : Option Fields → String → Option String
  hash_in none key = none
  hash_in (some end) key = none
  hash_in (some rec) key = hash p rec key

  unfoldable pub check_hash : Option Fields → Option Fields → String → String → Check
  unfolding hash hash_eligible
  check_hash base run label key =
      let expected = hash_in base key in
      let eligible = is_some expected && hash_eligible p base label in
      let actual = if eligible && not (hash_eligible p run label) then none else hash_in run key in
      record {
        checked = eligible;
        agreed = if eligible then some (text_eq actual expected) else none;
        expected = expected;
        actual = actual;
      }

  unfoldable pub row_of : Fields → Fields → String → Row
  unfolding check_hash
  row_of baseline candidate id =
      let base = record_in id baseline in
      let run = record_in id candidate in
      record {
        record_id = id;
        framebuffer = check_hash base run "framebuffer" "framebuffer_fnv1a64";
        work = check_hash base run "work" "work_checksum";
        result = check_hash base run "result" "result_checksum";
      }

  abbrev pub add_row : Row → Progress → Progress
  add_row row s =
      let counted = count_check row.result (count_check row.work (count_check row.framebuffer s)) in
      record counted { rows = counted.rows ++ (row ∷ []) }

  unfoldable pub progress_all : Fields → Fields → List String → Progress → Progress
  unfolding row_of
  progress_all baseline candidate [] s = s
  progress_all baseline candidate (id ∷ ids) s =
      progress_all baseline candidate ids (add_row (row_of baseline candidate id) s)
