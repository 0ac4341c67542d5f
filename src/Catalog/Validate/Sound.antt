-- ===== src/Catalog/Validate/Sound.antt =====
-- What the catalog of utils/test_catalog.py has when `validate` returns, and when it returns.
use mathlib.Core.Bool.{◌||◌}
use xemu_perf_tests.Base.{
  ◌≡◌, refl, string_dec, String, List, [], ◌∷◌, All, contains, ◌⊎◌, inl, inr, true, false, not,
  ◌&&◌, is_empty, all, all-All, ◌↔◌, arith,
}
use xemu_perf_tests.Base.Distinct.{Distinct, Apart, Apart-nil, Apart-tail, Apart-cons}
use xemu_perf_tests.Base.Text.{is_blank}
use xemu_perf_tests.Base.Result.{ok, guard, guard-eq-ok, ok_inj, >>=-eq-ok, >>-eq-ok}
use xemu_perf_tests.Catalog.Entry.{Entry, legacy_id}
use xemu_perf_tests.Catalog.Entries.{entries}
use xemu_perf_tests.Catalog.Validate.{
  validate, check_entries, check_parents, is_described, valid_tags, duplicate, undescribed, orphan,
}

abbrev pub entry_ids : List Entry → List String
entry_ids [] = []
entry_ids (x ∷ xs) = x.id ∷ entry_ids xs

abbrev pub legacy_ids_of : List Entry → List String
legacy_ids_of [] = []
legacy_ids_of (x ∷ xs) = legacy_id x ∷ legacy_ids_of xs

-- A description, a tag, and known tags only.
abbrev pub IsDescribed : Entry → Type 0
IsDescribed x =
    (is_blank x.description ≡ false)
    × (is_empty x.tags ≡ false)
    × All (λ t. contains valid_tags t ≡ true) x.tags

abbrev pub HasParent : List String → Entry → Type 0
HasParent ids x = (is_blank x.parent_id ≡ true) ⊎ (contains ids x.parent_id ≡ true)

-- No identifier and no legacy identifier twice, every entry described, every parent an entry.
abbrev pub IsCatalog : List Entry → Type 0
IsCatalog items =
    Distinct (entry_ids items)
    × Distinct (legacy_ids_of items)
    × All IsDescribed items
    × All (HasParent (entry_ids items)) items

All-all :
    (p : String → xemu_perf_tests.Base.Bool) (ts : List String)
    → All (λ t. p t ≡ true) ts
    → all p ts ≡ true
All-all p [] h = refl
All-all p (t ∷ ts) h = ground (arith, All-all p ts h.1)

is_described-IsDescribed : (x : Entry) → is_described x ≡ true → IsDescribed x
is_described-IsDescribed x h =
    (ground arith, ground arith, all-All (contains valid_tags) (λ t e. e) x.tags (ground arith))

IsDescribed-is_described : (x : Entry) → IsDescribed x → is_described x ≡ true
IsDescribed-is_described x h = ground (arith, All-all (contains valid_tags) x.tags h.2)

-- What the first loop finds out; the last part says what the set of identifiers has become.
abbrev Checked : List String → List String → List Entry → List String → Type 0
Checked ids legacy xs out =
    Apart ids (entry_ids xs)
    × Distinct (entry_ids xs)
    × Apart legacy (legacy_ids_of xs)
    × Distinct (legacy_ids_of xs)
    × All IsDescribed xs
    × ((k : String) → contains out k ≡ (contains ids k || contains (entry_ids xs) k))

check_entries-Checked :
    (ids legacy : List String) (xs : List Entry) (out : List String)
    → check_entries ids legacy xs ≡ ok out
    → Checked ids legacy xs out
unfolding check_entries
check_entries-Checked ids legacy [] out h = (tt, tt, tt, tt, tt, λ k. ground (arith, ok_inj h))
check_entries-Checked ids legacy (x ∷ xs) out h =
    let (g, h1) =
      >>-eq-ok (guard (not (contains ids x.id || contains legacy (legacy_id x))) (duplicate x)) _
        h in
    let (d, h2) = >>-eq-ok (guard (is_described x) (undescribed x)) _ h1 in
    let fresh = guard-eq-ok _ _ g in
    let (apart, distinct, apart', distinct', described, known) =
      check_entries-Checked (x.id ∷ ids) (legacy_id x ∷ legacy) xs out h2 in
    let a = Apart-tail x.id ids (entry_ids xs) apart in
    let b = Apart-tail (legacy_id x) legacy (legacy_ids_of xs) apart' in
    (
      (ground arith, a.1),
      (a.0, distinct),
      (ground arith, b.1),
      (b.0, distinct'),
      (is_described-IsDescribed x (guard-eq-ok _ _ d), described),
      λ k. ground (arith, known k),
    )

check_entries-ok :
    (ids legacy : List String) (xs : List Entry)
    → Apart ids (entry_ids xs)
    → Distinct (entry_ids xs)
    → Apart legacy (legacy_ids_of xs)
    → Distinct (legacy_ids_of xs)
    → All IsDescribed xs
    → (out : List String) × (check_entries ids legacy xs ≡ ok out)
unfolding check_entries
check_entries-ok ids legacy [] a d a' d' t = (ids, refl)
check_entries-ok ids legacy (x ∷ xs) a d a' d' t =
    let (out, e) =
      check_entries-ok (x.id ∷ ids) (legacy_id x ∷ legacy) xs
        (Apart-cons x.id ids (entry_ids xs) d.0 a.1) d.1
        (Apart-cons (legacy_id x) legacy (legacy_ids_of xs) d'.0 a'.1) d'.1 t.1 in
    (out, rw (a.0, a'.0, IsDescribed-is_described x t.0) e)

check_parents-eq-ok_iff :
    (ids known : List String) (xs : List Entry)
    → ((k : String) → contains known k ≡ contains ids k)
    → (check_parents known xs ≡ ok tt) ↔ All (HasParent ids) xs
unfolding check_parents
check_parents-eq-ok_iff ids known [] same = (λ h. tt, λ h. refl)
check_parents-eq-ok_iff ids known (x ∷ xs) same =
    let rest = check_parents-eq-ok_iff ids known xs same in
    (
      λ h.
          let (g, h1) =
            >>-eq-ok
              (guard (not (not (is_blank x.parent_id) && not (contains known x.parent_id)))
                (orphan x))
              _ h in
          let parent = guard-eq-ok _ _ g in (ground (arith, same x.parent_id), rest.0 h1),
      λ h. ground (arith, rest.1 h.1, same x.parent_id),
    )

-- `validate` returns if and only if the entries are a catalog.
pub validate-eq-ok_iff : (items : List Entry) → (validate items ≡ ok tt) ↔ IsCatalog items
unfolding validate
validate-eq-ok_iff items = (
  λ h.
      let (out, e, h1) = >>=-eq-ok (check_entries [] [] items) _ h in
      let (apart, distinct, apart', distinct', described, known) =
        check_entries-Checked [] [] items out e in
      (
        distinct,
        distinct',
        described,
        (check_parents-eq-ok_iff (entry_ids items) out items known).0 h1,
      ),
  λ c.
      let (out, e) = check_entries-ok [] [] items (Apart-nil _) c.0 (Apart-nil _) c.1 c.2 in
      let known = (check_entries-Checked [] [] items out e).5 in
      rw e ((check_parents-eq-ok_iff (entry_ids items) out items known).1 c.3),
)

pub entries_validate : validate entries ≡ ok tt
unfolding validate entries string_dec xemu_perf_tests.Catalog.Entry.staged
    xemu_perf_tests.Base.Numerals.decimal
entries_validate = refl
