-- ===== src/Catalog/Render/Total.antt =====
-- `render` of utils/test_catalog.py returns: none of its look-ups can fail on the program's catalog.
use xemu_perf_tests.Base.{
  Bool, true, false, String, str_eq, string_dec, Option, none, some, List, [], ◌∷◌, ◌++◌, insert,
  lookup, all, All, ◌≡◌, refl, sym, Option-cases, inl, inr, ◌&&◌, arith, is_empty,
}
use xemu_perf_tests.Base.Distinct.{Distinct, keys_of, insert-Distinct}
use xemu_perf_tests.Base.Text.{is_some}
use xemu_perf_tests.Base.Groups.{group_by-AllValues, AllValues}
use xemu_perf_tests.Base.Result.{Result, ok, ◌>>=◌}
use xemu_perf_tests.Json.{Json, Fields, get, elems}
use xemu_perf_tests.Oracle.Canonical.{Platform}
use xemu_perf_tests.Oracle.View.{item}
use xemu_perf_tests.Package.Catalog.{iterated}
use xemu_perf_tests.Catalog.Entry.{Entry}
use xemu_perf_tests.Catalog.Entries.{entries}
use xemu_perf_tests.Catalog.Validate.{validate}
use xemu_perf_tests.Catalog.Validate.Sound.{entries_validate}
use xemu_perf_tests.Catalog.Document.{Children, identity, catalog, document, documents, children_of}
use xemu_perf_tests.Catalog.Plan.{resolved_plan}
use xemu_perf_tests.Catalog.Text.{
  markdown, markdown_row, markdown_rows, catalog_json, cpp, descriptor, descriptors, groups,
}
use xemu_perf_tests.Catalog.Guide.{
  Row, Suites, row_of, rows_of, suites_of, guide_rows, sections, failure_guide_markdown,
}
use xemu_perf_tests.Catalog.Diagnosis.{failure_diagnosis}
use xemu_perf_tests.Catalog.Diagnosis.Specific.{entries-IsDiagnosed, IsDiagnosed}
use xemu_perf_tests.Catalog.Render.{
  Files, render, insert_all, gathered, plan_texts, voice_ids, later_plans,
}
use xemu_perf_tests.Catalog.Render.Settings.{Planned}
use xemu_perf_tests.Catalog.Render.Plans.{smoke_plan, pfifo_plans, boundary_plan}

abbrev pub Returns {ℓ} : {A : Type ℓ} → Result A → Type ℓ
Returns {A = A} r = (a : A) × (r ≡ ok a)

module _ (p : Platform) where
  plan_texts-Returns :
      (doc : Fields) {catalog_id : Json}
      → get "catalog_id" doc ≡ some catalog_id
      → (plans : List Planned) → Returns (plan_texts p doc plans)
  unfolding plan_texts resolved_plan item
  plan_texts-Returns doc known [] = ([], refl)
  plan_texts-Returns doc known ((path, settings, ids) ∷ plans) =
      let (rest, e) = plan_texts-Returns doc known plans in rw (known, e) (_, refl)

abbrev row_for : Entry → Row
row_for x = record { id = x.id; kind = x.kind; suite_id = x.suite_id }

abbrev rows_for : List Entry → List Row
rows_for [] = []
rows_for (x ∷ xs) = row_for x ∷ rows_for xs

rows_of-documents :
    (c : Children) (xs : List Entry) → rows_of (elems (documents c xs)) ≡ ok (rows_for xs)
unfolding rows_of documents document row_of item string_dec
rows_of-documents c [] = refl
rows_of-documents c (x ∷ xs) = rw (rows_of-documents c xs) refl

voice_ids-Returns : (c : Children) (xs : List Entry) → Returns (voice_ids (elems (documents c xs)))
unfolding voice_ids documents document item string_dec
voice_ids-Returns c [] = ([], refl)
voice_ids-Returns c (x ∷ xs) = let (ids, e) = voice_ids-Returns c xs in rw e (_, refl)

markdown_rows-Returns :
    (repr : Json → String) (c : Children) (xs : List Entry)
    → Returns (markdown_rows repr (elems (documents c xs)))
unfolding markdown_rows markdown_row documents document item string_dec
markdown_rows-Returns repr c [] = ([], refl)
markdown_rows-Returns repr c (x ∷ xs) =
    let (rows, e) = markdown_rows-Returns repr c xs in rw e (_, refl)

descriptors-Returns :
    (xs : List Entry)
    → all (λ x. is_some (lookup x.selection_group groups)) xs ≡ true
    → Returns (descriptors xs)
unfolding descriptors descriptor
descriptors-Returns [] h = ([], refl)
descriptors-Returns (x ∷ xs) h = elim (Option-cases (lookup x.selection_group groups)) [
  | inl e ↦ let bad : false ≡ true = rw (sym h, e) refl in cc
  | inr (number, e) ↦ let (lines, f) = descriptors-Returns xs (ground arith) in rw (e, f) (_, refl)
]

abbrev Diagnosed : Row → Type 0
Diagnosed row = Returns (failure_diagnosis row.id row.kind row.suite_id)

guide_rows-Returns : (rows : List Row) → All Diagnosed rows → Returns (guide_rows rows)
unfolding guide_rows
guide_rows-Returns [] h = ([], refl)
guide_rows-Returns (row ∷ rows) ((text, e), h) =
    let (rest, f) = guide_rows-Returns rows h in rw (e, f) (_, refl)

sections-Returns : (suites : Suites) → AllValues Diagnosed suites → Returns (sections suites)
unfolding sections
sections-Returns [] h = ([], refl)
sections-Returns ((suite_id, rows) ∷ suites) h =
    let (lines, e) = guide_rows-Returns rows h.0 in
    let (rest, f) = sections-Returns suites h.1 in rw (e, f) (_, refl)

rows-Diagnosed : (xs : List Entry) → All IsDiagnosed xs → All Diagnosed (rows_for xs)
rows-Diagnosed [] h = tt
rows-Diagnosed (x ∷ xs) h = ((h.0.0, h.0.1), rows-Diagnosed xs h.1)

suites_of-AllValues :
    (xs : List Entry) → All IsDiagnosed xs → AllValues Diagnosed (suites_of (rows_for xs))
unfolding suites_of
suites_of-AllValues xs h =
    group_by-AllValues (λ row. row.suite_id) (λ row. row) Diagnosed (rows_for xs) []
      (rows-Diagnosed xs h) tt

entries_numbered : all (λ x. is_some (lookup x.selection_group groups)) entries ≡ true
unfolding entries string_dec xemu_perf_tests.Catalog.Entry.staged
    xemu_perf_tests.Base.Numerals.decimal
entries_numbered = refl

cpp-Returns : (catalog_id : String) → Returns (cpp entries catalog_id)
unfolding cpp
cpp-Returns catalog_id =
    let (lines, e) = descriptors-Returns entries entries_numbered in rw e (_, refl)

insert_all-Distinct :
    (more output : Files) → Distinct (keys_of output) → Distinct (keys_of (insert_all more output))
insert_all-Distinct [] output h = h
insert_all-Distinct ((path, text) ∷ more) output h =
    insert_all-Distinct more (insert path text output) (insert-Distinct path text output h)

module _ (p : Platform) (repr : Json → String) where
  texts_return :
      Returns (catalog_json p repr (catalog p entries))
      × Returns (markdown repr (catalog p entries))
      × Returns (failure_guide_markdown repr (catalog p entries))
  unfolding catalog_json markdown failure_guide_markdown catalog item iterated string_dec
  texts_return =
      let c = children_of entries in
      let (rows, e) = markdown_rows-Returns repr c entries in
      let (lines, f) =
        sections-Returns (suites_of (rows_for entries))
          (suites_of-AllValues entries entries-IsDiagnosed) in
      ((_, refl), rw e (_, refl), rw (rows_of-documents c entries, f) (_, refl))

-- A call that returns a value of which something holds.
abbrev pub Gives {ℓ κ} : {A : Type ℓ} → (A → Type κ) → Result A → Type (ℓ ⊔ κ)
Gives {A = A} Q r = (a : A) × (r ≡ ok a) × Q a

then-Gives {ℓ κ μ} :
    {A : Type ℓ} {B : Type κ} {Q : B → Type μ} (r : Result A) (next : A → Result B)
    → Returns r
    → ((a : A) → Gives Q (next a))
    → Gives Q (r >>= next)
then-Gives r next (a, e) h = rw e (h a)

module _ (p : Platform) (repr : Json → String) where
  -- For every SHA-256 and every printing of floats, `render` returns: no look-up in a dict, in a list or in the parts of an identifier fails; and it returns no path twice.
  pub render-Returns : Gives (λ out. Distinct (keys_of out)) (render p repr)
  unfolding render catalog item iterated string_dec
  render-Returns =
      let doc = catalog p entries in
      let c = children_of entries in
      let texts = texts_return p repr in
      then-Gives (validate entries) _ (tt, entries_validate)
        λ u.
          then-Gives (plan_texts p doc (smoke_plan ∷ pfifo_plans ++ (boundary_plan ∷ []))) _
            (plan_texts-Returns p doc refl (smoke_plan ∷ pfifo_plans ++ (boundary_plan ∷ [])))
            λ early. then-Gives (catalog_json p repr doc) _ texts.0 λ json.
              then-Gives (markdown repr doc) _ texts.1 λ table.
                then-Gives (failure_guide_markdown repr doc) _ texts.2 λ guide.
                  then-Gives (cpp entries (identity p (documents c entries))) _ (cpp-Returns _)
                    λ inc.
                      then-Gives (voice_ids (elems (documents c entries))) _
                        (voice_ids-Returns c entries)
                        λ ids.
                          then-Gives (plan_texts p doc (later_plans ids)) _
                            (plan_texts-Returns p doc refl (later_plans ids))
                            λ later.
                              let files = gathered json early table guide inc later in
                              (insert_all files [], refl, insert_all-Distinct files [] tt)
