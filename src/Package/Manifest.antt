-- ===== src/Package/Manifest.antt =====
-- `manifest` of utils/package_runner_suite.py.
pub mod Listing
pub mod Append
pub mod Partition
pub mod Generated
use Prim.Native.Char.{Char, code}
use Prim.Native.String.{count}
use xemu_perf_tests.Base.{
  ℕ, ◌+◌, ◌==◌, leb, Bool, true, false, not, ◌&&◌, ◌||◌, String, ◌<>◌, str_eq, Option, none, some,
  List, [], ◌∷◌, ◌++◌, length, is_empty, contains, if◌then◌else◌,
}
use xemu_perf_tests.Base.Int.{pos}
use xemu_perf_tests.Base.Text.{lower, contains_text, after_prefix, is_blank}
use xemu_perf_tests.Base.Result.{Result, ok, err, invalid, crash, guard, ◌>>=◌, ◌>>◌}
use xemu_perf_tests.Json.{
  Json, null, bool, int, float, str, arr, obj, Items, nil, cons, Fields, end, field, get, get_null,
  has, keys, elems, of_elems, texts,
}
use xemu_perf_tests.Json.Equality.{py_eq}
use xemu_perf_tests.Oracle.View.{item, as_dict, get_or, is_str}
use xemu_perf_tests.Oracle.Consensus.{once, is_in}
use xemu_perf_tests.Compare.Records.{truthy}
use xemu_perf_tests.Package.Iso.{Bytes}
use xemu_perf_tests.Package.Category.{category, categories}
use xemu_perf_tests.Package.Catalog.{is_hash, is_catalog_id, Test, read_tests, of_kind}

-- What Python gives: SHA-256 and `json.loads` of bytes.
pub record Library : Type 0 where
  pub sha256 : Bytes → String
  pub loads : Bytes → Result Json

abbrev lowered : Json → Result String
lowered (str s) = ok (lower s)
lowered v = err (crash "AttributeError: object has no attribute 'lower'")

unfoldable pub category_of : Test → Result String
unfolding item lower category
category_of t = do
  suite ← item "suite_id" (get "suite_id" t.fields)
  name ← lowered suite
  category name (lower t.id)

-- The dict of partitions, in its order.
abbrev pub Partitions : Type 0
Partitions = List (String × List String)

abbrev pub empty_partitions : List (String × String) → Partitions
empty_partitions [] = []
empty_partitions ((key, name) ∷ cs) = (key, []) ∷ empty_partitions cs

-- `partitions[key].append(id)`
abbrev pub append_to : String → String → Partitions → Result Partitions
append_to key id [] = err (crash "KeyError")
append_to key id ((k, ids) ∷ ps) =
    if str_eq key k
    then ok ((k, ids ++ (id ∷ [])) ∷ ps)
    else append_to key id ps >>= λ rest. ok ((k, ids) ∷ rest)

unfoldable pub place_all : List Test → Partitions → Result Partitions
unfolding category_of
place_all [] ps = ok ps
place_all (t ∷ ts) ps = do key ← category_of t; ps' ← append_to key t.id ps; place_all ts ps'

-- `'vulkan_memory_pressure' in child`
abbrev under_pressure : Json → Result Bool
under_pressure (str s) = ok (contains_text s "vulkan_memory_pressure")
under_pressure (arr vs) = ok (is_in (elems vs) (str "vulkan_memory_pressure"))
under_pressure (obj fs) = ok (has "vulkan_memory_pressure" fs)
under_pressure v = err (crash "TypeError: argument is not iterable")

unfoldable pub all_under_pressure : List Json → Result Bool
unfolding contains_text py_eq
all_under_pressure [] = ok true
all_under_pressure (v ∷ vs) = do
  b ← under_pressure v
  rest ← elim b [ true ↦ all_under_pressure vs | false ↦ ok false ]
  ok rest

-- Iterating `children`: no single character of a text holds the word.
abbrev is_atomic : Json → Result Bool
is_atomic (arr vs) = all_under_pressure (elems vs)
is_atomic (obj fs) = all_under_pressure (elems (texts (keys fs)))
is_atomic (str s) = ok false
is_atomic v = err (crash "TypeError: object is not iterable")

unfoldable pub atomic_groups : List Test → Result (List Json)
unfolding all_under_pressure
atomic_groups [] = ok []
atomic_groups (g ∷ gs) = do
  let children = get_or (arr nil) (get "child_ids" g.fields)
  atomic ← if truthy children then is_atomic children else ok false
  rest ← atomic_groups gs
  ok (if atomic then children ∷ rest else rest)

abbrev pub ids : List Test → List String
ids [] = []
ids (t ∷ ts) = t.id ∷ ids ts

abbrev smoke_tests : List String
smoke_tests =
    "busy_pfifo.pgraph_pattern_polling" ∷ "surface.cpu_read_clean_surface"
    ∷ "game_load.s3tc_sync_factor.dxt1_dirty_once_redraw" ∷ []

abbrev kept : List String → List String → List String
kept known [] = []
kept known (s ∷ ss) = let rest = kept known ss in if contains known s then s ∷ rest else rest

abbrev first_id : List String → List String
first_id [] = []
first_id (s ∷ ss) = s ∷ []

abbrev pub smoke_of : List String → List String
smoke_of known =
    let smoke = kept known smoke_tests in if is_empty smoke then first_id known else smoke

abbrev category_name : String → List (String × String) → String
category_name key [] = ""
category_name key ((k, name) ∷ cs) = if str_eq key k then name else category_name key cs

-- The list under "categories", without the empty ones.
abbrev pub category_items : Partitions → Items
category_items [] = nil
category_items ((key, tests) ∷ ps) =
    let rest = category_items ps in
    if is_empty tests
    then rest
    else cons
        (obj (
          field "id" (str key) (
            field "name" (str (category_name key categories))
              (field "tests" (arr (texts tests)) end))))
        rest

abbrev id_text : Json → Result String
id_text (str s) = ok s
id_text v = err (crash "TypeError: expected string")

module _ (l : Library) where
  -- The dict that `manifest` returns.
  abbrev pub manifest_of :
      Bytes → Bytes → String → String → Partitions → List Json → List Test → Fields
  manifest_of iso catalog_bytes commit catalog_id ps atomic leaves =
      field "schemaVersion" (int (pos 1)) (
        field "sourceCommit" (str commit) (
          field "qualification" (str "candidate") (
            field "isoSha256" (str (l.sha256 iso)) (
              field "catalogSha256" (str (l.sha256 catalog_bytes)) (
                field "catalogId" (str catalog_id) (
                  field "categories" (arr (category_items ps)) (
                    field "atomicGroups" (arr (of_elems atomic))
                      (field "smoke" (arr (texts (smoke_of (ids leaves)))) end))))))))

  -- The first checks, and the catalog with its identifier.
  unfoldable pub read_catalog : Bytes → Bytes → String → Result (Fields × String)
  unfolding after_prefix py_eq
  read_catalog iso catalog_bytes commit = do
    guard (not (is_empty iso || not (leb (length catalog_bytes) 1048576)))
        (invalid "Nonempty ISO and catalog up to 1 MiB required.")
    guard (is_hash 40 commit) (invalid "Supply the exact 40-character source commit.")
    document ← l.loads catalog_bytes
    catalog ← as_dict document
    guard (py_eq (get_null "schema_version" catalog) (int (pos 1)))
        (invalid "Unsupported catalog identity/schema.")
    catalog_id ← id_text (get_or (str "") (get "catalog_id" catalog))
    guard (is_catalog_id catalog_id) (invalid "Unsupported catalog identity/schema.")
    ok (catalog, catalog_id)

-- The leaf tests and the groups, whose numbers the catalog gives.
unfoldable pub read_kinds : Fields → Result (List Test × List Test)
unfolding read_tests of_kind
read_kinds catalog = do
  listing ← item "tests" (get "tests" catalog)
  tests ← read_tests listing
  leaves ← of_kind "leaf" tests
  groups ← of_kind "group" tests
  leaf_count ← item "leaf_count" (get "leaf_count" catalog)
  guard (py_eq (int (pos (length leaves))) leaf_count)
      (invalid "Catalog counts do not match its records.")
  group_count ← item "group_count" (get "group_count" catalog)
  guard (py_eq (int (pos (length groups))) group_count)
      (invalid "Catalog counts do not match its records.")
  guard (length tests == length leaves + length groups)
      (invalid "Catalog counts do not match its records.")
  ok (leaves, groups)

module _ (l : Library) where
  unfoldable pub manifest : Bytes → Bytes → String → Result Fields
  unfolding read_catalog read_kinds place_all atomic_groups
  manifest iso catalog_bytes commit = do
    catalog ← read_catalog l iso catalog_bytes commit
    kinds ← read_kinds catalog.0
    ps ← place_all kinds.0 (empty_partitions categories)
    atomic ← atomic_groups kinds.1
    ok (manifest_of l iso catalog_bytes commit catalog.1 ps atomic kinds.0)
