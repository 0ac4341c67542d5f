-- ===== src/Catalog/Text.antt =====
-- `cpp`, `markdown`, `failure_guide_markdown` and `catalog_json` of utils/test_catalog.py.
use xemu_perf_tests.Base.{
  ℕ, String, ◌<>◌, Option, none, some, List, [], ◌∷◌, ◌++◌, length, is_empty, lookup, if◌then◌else◌,
}
use xemu_perf_tests.Base.Text.{upper}
use xemu_perf_tests.Base.Numerals.{decimal}
use xemu_perf_tests.Base.Split.{format, join}
use xemu_perf_tests.Base.Result.{Result, ok, err, crash, ◌>>=◌}
use xemu_perf_tests.Json.{Json, int, str, arr, obj, nil, cons, Fields, get, elems}
use xemu_perf_tests.Oracle.Canonical.{Platform, quoted, print_int}
use xemu_perf_tests.Oracle.View.{item}
use xemu_perf_tests.Package.Catalog.{iterated}
use xemu_perf_tests.Catalog.Entry.{Entry}
use xemu_perf_tests.Catalog.Document.{revision}
use xemu_perf_tests.Catalog.Print.{compact}

-- `groups`
abbrev pub groups : List (String × ℕ)
groups =
    ("", 0)
    ∷ ("long_scene", 1)
    ∷ ("cross_title", 2)
    ∷ ("s3tc_sync_factor", 3)
    ∷ ("memory_pressure_representative", 4)
    ∷ ("memory_pressure_stress", 5)
    ∷ []

abbrev found : String → Option ℕ → Result ℕ
found key none = err (crash ("KeyError: " <> key))
found key (some n) = ok n

-- A line of the table in C++.
unfoldable pub descriptor : Entry → Result String
unfolding quoted upper decimal revision
descriptor x = do
  number ← found x.selection_group (lookup x.selection_group groups)
  ok (
      format (
        "  {"
        ∷ quoted x.id
        ∷ ", "
        ∷ decimal (revision x)
        ∷ ", "
        ∷ quoted x.suite_id
        ∷ ", "
        ∷ quoted x.legacy_result
        ∷ ", "
        ∷ quoted x.description
        ∷ ", "
        ∷ quoted x.legacy_suite
        ∷ ", "
        ∷ quoted x.legacy_result
        ∷ ", "
        ∷ quoted x.execution_test
        ∷ ", TestKind::"
        ∷ upper x.kind
        ∷ ", "
        ∷ decimal number
        ∷ ", "
        ∷ decimal x.selection_bit
        ∷ "},"
        ∷ []))

unfoldable pub descriptors : List Entry → Result (List String)
unfolding descriptor
descriptors [] = ok []
descriptors (x ∷ xs) = do line ← descriptor x; lines ← descriptors xs; ok (line ∷ lines)

unfoldable pub cpp : List Entry → String → Result String
unfolding descriptors
cpp items catalog_id = do
  lines ← descriptors items
  ok (
      join "\n" (
        "// Generated by utils/test_catalog.py. Do not edit."
          ∷ "static const TestDescriptor kTestCatalog[] = {" ∷ lines
        ++ ("};"
            ∷ "static constexpr size_t kTestCatalogSize = sizeof(kTestCatalog) / sizeof(kTestCatalog[0]);"
            ∷ format
                ("static constexpr const char *kTestCatalogId = " ∷ quoted catalog_id ∷ ";" ∷ [])
            ∷ ""
            ∷ [])))

-- `x[key]` on a value.
abbrev pub entry_of : String → Json → Result Json
entry_of key (obj fs) = item key (get key fs)
entry_of key v = err (crash "TypeError: indices must be integers")

-- `v[0]`
abbrev first_of : Json → Result Json
first_of (arr nil) = err (crash "IndexError: list index out of range")
first_of (arr (cons v vs)) = ok v
first_of (str (String.◌∷◌ c s)) = ok (str (String.◌∷◌ c String.[]))
first_of (str String.[]) = err (crash "IndexError: string index out of range")
first_of (obj fs) = err (crash "KeyError: 0")
first_of v = err (crash "TypeError: object is not subscriptable")

-- A text that is taken apart by the methods of `str`.
abbrev pub text_of : Json → Result String
text_of (str s) = ok s
text_of v = err (crash "AttributeError: object is no text")

-- `len(v)`
abbrev len : Json → Result ℕ
len (arr vs) = ok (length (elems vs))
len v = err (crash "TypeError: object has no len()")

module _ (repr : Json → String) where
  -- `f"{v}"`; `repr` is Python's text of what is neither a text nor an integer.
  abbrev pub shown : Json → String
  shown (str s) = s
  shown (int n) = print_int n
  shown v = repr v

  unfoldable pub markdown_row : Json → Result String
  unfolding item print_int
  markdown_row x = do
    id ← entry_of "id" x
    kind ← entry_of "kind" x
    legacy_ids ← entry_of "legacy_ids" x
    legacy ← first_of legacy_ids
    ok (format ("| `" ∷ shown id ∷ "` | " ∷ shown kind ∷ " | `" ∷ shown legacy ∷ "` |" ∷ []))

  unfoldable pub markdown_rows : List Json → Result (List String)
  unfolding markdown_row
  markdown_rows [] = ok []
  markdown_rows (x ∷ xs) = do row ← markdown_row x; rows ← markdown_rows xs; ok (row ∷ rows)

  unfoldable pub markdown : Fields → Result String
  unfolding item print_int iterated markdown_rows
  markdown doc = do
    catalog_id ← item "catalog_id" (get "catalog_id" doc)
    leaf_count ← item "leaf_count" (get "leaf_count" doc)
    group_count ← item "group_count" (get "group_count" doc)
    tests ← item "tests" (get "tests" doc)
    xs ← iterated tests
    rows ← markdown_rows xs
    ok (
        join "\n" (
          "# Generated test catalog"
          ∷ ""
          ∷ format (
              "Catalog `"
              ∷ shown catalog_id
              ∷ "` contains "
              ∷ shown leaf_count
              ∷ " leaves and "
              ∷ shown group_count
              ∷ " groups."
              ∷ [])
          ∷ ""
          ∷ "| Stable ID | Kind | Legacy ID |"
          ∷ "| --- | --- | --- |"
          ∷ rows)
        <> "\n")

module _ (p : Platform) where
  -- The lines of the tests; the last has no comma.
  unfoldable pub test_lines : List Json → List String
  unfolding compact
  test_lines [] = []
  test_lines (x ∷ xs) =
      ("    " <> (compact p x <> (if is_empty xs then "" else ","))) ∷ test_lines xs

  unfoldable pub catalog_json : (Json → String) → Fields → Result String
  unfolding item print_int iterated test_lines
  catalog_json repr doc = do
    schema_version ← item "schema_version" (get "schema_version" doc)
    catalog_id ← item "catalog_id" (get "catalog_id" doc)
    leaf_count ← item "leaf_count" (get "leaf_count" doc)
    group_count ← item "group_count" (get "group_count" doc)
    tests ← item "tests" (get "tests" doc)
    xs ← iterated tests
    ok (
        join "\n" (
          "{"
            ∷ format ("  \"schema_version\": " ∷ shown repr schema_version ∷ "," ∷ [])
            ∷ format ("  \"catalog_id\": " ∷ compact p catalog_id ∷ "," ∷ [])
            ∷ format ("  \"leaf_count\": " ∷ shown repr leaf_count ∷ "," ∷ [])
            ∷ format ("  \"group_count\": " ∷ shown repr group_count ∷ "," ∷ [])
            ∷ "  \"tests\": ["
            ∷ test_lines xs
          ++ ("  ]" ∷ "}" ∷ "" ∷ [])))
