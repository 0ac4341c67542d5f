-- ===== src/Catalog/Guide.antt =====
-- `failure_guide_markdown` of utils/test_catalog.py.
use xemu_perf_tests.Base.{ℕ, String, List, [], ◌∷◌, ◌++◌, length}
use xemu_perf_tests.Base.Groups.{group_by}
use xemu_perf_tests.Base.Numerals.{decimal}
use xemu_perf_tests.Base.Split.{format, join, replace_char}
use xemu_perf_tests.Base.Result.{Result, ok, err, crash, ◌>>=◌}
use xemu_perf_tests.Json.{Json, arr, elems, Fields, get}
use xemu_perf_tests.Oracle.View.{item}
use xemu_perf_tests.Package.Catalog.{iterated}
use xemu_perf_tests.Catalog.Text.{entry_of, text_of, shown}
use xemu_perf_tests.Catalog.Diagnosis.{failure_diagnosis}

-- A test with the texts that the guide reads from it.
pub record Row : Type 0 where
  pub id : String
  pub kind : String
  pub suite_id : String

-- The reading of `test["id"]`, `test["kind"]` and `test["suite_id"]`; each is a text in the document
-- of `catalog`, and a document with another value there is refused here.
unfoldable pub row_of : Json → Result Row
unfolding item
row_of x = do
  suite ← entry_of "suite_id" x
  suite_id ← text_of suite
  i ← entry_of "id" x
  id ← text_of i
  k ← entry_of "kind" x
  kind ← text_of k
  ok (record { id = id; kind = kind; suite_id = suite_id })

unfoldable pub rows_of : List Json → Result (List Row)
unfolding row_of
rows_of [] = ok []
rows_of (x ∷ xs) = do row ← row_of x; rows ← rows_of xs; ok (row ∷ rows)

abbrev pub Suites : Type 0
Suites = List (String × List Row)

-- `suites`, in the order of the first test of each.
unfoldable pub suites_of : List Row → Suites
unfolding group_by
suites_of rows = group_by (λ row. row.suite_id) (λ row. row) rows []

unfoldable pub guide_rows : List Row → Result (List String)
unfolding failure_diagnosis replace_char
guide_rows [] = ok []
guide_rows (row ∷ rows) = do
  text ← failure_diagnosis row.id row.kind row.suite_id
  rest ← guide_rows rows
  ok (
      format ("| `" ∷ row.id ∷ "` | " ∷ row.kind ∷ " | " ∷ replace_char "|" "\\|" text ∷ " |" ∷ [])
      ∷ rest)

unfoldable pub sections : Suites → Result (List String)
unfolding guide_rows
sections [] = ok []
sections ((suite_id, rows) ∷ suites) = do
  lines ← guide_rows rows
  rest ← sections suites
  ok (
      format ("## `" ∷ suite_id ∷ "`" ∷ [])
        ∷ ""
        ∷ "| Stable ID | Kind | Likely failure cause and first checks |"
        ∷ "| --- | --- | --- |"
        ∷ lines
      ++ ("" ∷ rest))

abbrev len : Json → Result ℕ
len (arr vs) = ok (length (elems vs))
len v = err (crash "TypeError: object has no len()")

module _ (repr : Json → String) where
  abbrev introduction : Json → ℕ → List String
  introduction catalog_id n =
      "# Test failure guide"
      ∷ ""
      ∷ format (
          "Generated from catalog `"
          ∷ shown repr catalog_id
          ∷ "`. It covers all "
          ∷ decimal n
          ∷ " entries; do not edit this file directly."
          ∷ [])
      ∷ ""
      ∷ "## Reading a failure"
      ∷ ""
      ∷ "- `outcome: FAIL` means a guest known-answer, invariant, or semantic check failed. A soft failure continues the suite but still fails the run."
      ∷ "- A framebuffer mismatch with passing internal checks usually points to rendering, readback, undefined pixels, or an unapproved oracle—not automatically to the measured hot path."
      ∷ "- A passing result that is slower is a performance regression, not a functional failure. Compare identical work, completion mode, backend, scale, and warm state."
      ∷ "- If upstream and candidate fail identically, investigate the test/oracle or a shared upstream defect before blaming the patch."
      ∷ "- Group entries summarize children. Diagnose the first failing child; groups intentionally have no timing measurement."
      ∷ "- Never replace a golden because one build disagrees. Retail-hardware evidence or a proven specification establishes correctness."
      ∷ ""
      ∷ []

  unfoldable pub failure_guide_markdown : Fields → Result String
  unfolding item iterated rows_of suites_of sections decimal
  failure_guide_markdown doc = do
    catalog_id ← item "catalog_id" (get "catalog_id" doc)
    tests ← item "tests" (get "tests" doc)
    n ← len tests
    xs ← iterated tests
    rows ← rows_of xs
    lines ← sections (suites_of rows)
    ok (join "\n" (introduction catalog_id n ++ lines))
