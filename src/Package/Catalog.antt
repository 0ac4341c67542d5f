-- ===== src/Package/Catalog.antt =====
-- The tests of a catalog: the checks at the start of `manifest` of utils/package_runner_suite.py.
use Prim.Native.Char.{Char, code}
use Prim.Native.String.{count}
use xemu_perf_tests.Base.{
  ℕ, ◌==◌, leb, Bool, true, false, not, ◌&&◌, ◌||◌, String, Option, none, some, List, [], ◌∷◌,
  length, if◌then◌else◌,
}
use xemu_perf_tests.Base.Text.{after_prefix, is_blank}
use xemu_perf_tests.Base.Result.{Result, ok, err, invalid, crash, guard, ◌>>=◌, ◌>>◌}
use xemu_perf_tests.Json.{Json, str, arr, obj, Fields, end, get, elems}
use xemu_perf_tests.Json.Equality.{py_eq}
use xemu_perf_tests.Oracle.View.{item, is_str}
use xemu_perf_tests.Oracle.Consensus.{once}

abbrev is_hash_char : Char → Bool
is_hash_char c = (leb 48 (code c) && leb (code c) 57) || (leb 97 (code c) && leb (code c) 102)

abbrev hash_chars : String → Bool
hash_chars String.[] = true
hash_chars (String.◌∷◌ c s) = is_hash_char c && hash_chars s

-- `[0-9a-f]{n}`
abbrev pub is_hash : ℕ → String → Bool
is_hash n s = count s == n && hash_chars s

abbrev hash_after : Option String → Bool
hash_after none = false
hash_after (some s) = is_hash 64 s

-- `sha256:[0-9a-f]{64}`
abbrev pub is_catalog_id : String → Bool
is_catalog_id s = hash_after (after_prefix "sha256:" s)

-- `[a-z0-9_.-]`
abbrev is_id_char : Char → Bool
is_id_char c =
    (leb 97 (code c) && leb (code c) 122)
    || (leb 48 (code c) && leb (code c) 57)
    || code c == 95
    || code c == 46
    || code c == 45

abbrev id_chars : String → Bool
id_chars String.[] = true
id_chars (String.◌∷◌ c s) = is_id_char c && id_chars s

abbrev pub is_id : String → Bool
is_id s = not (is_blank s) && id_chars s

-- A test with its identifier.
pub record Test : Type 0 where
  pub id : String
  pub fields : Fields

-- `for test in tests`: an empty text or dict has no round.
unfoldable pub iterated : Json → Result (List Json)
iterated (arr vs) = ok (elems vs)
iterated (str s) = if is_blank s then ok [] else err (crash "TypeError: string indices")
iterated (obj end) = ok []
iterated v = err (crash "TypeError: tests cannot be read")

abbrev test_fields : Json → Result Fields
test_fields (obj fs) = ok fs
test_fields v = err (crash "TypeError: a test is no dict")

-- `[test['id'] for test in tests]`
unfoldable pub ids_of : List Json → Result (List Json)
unfolding item
ids_of [] = ok []
ids_of (v ∷ vs) = do
  fs ← test_fields v
  id ← item "id" (get "id" fs)
  ids ← ids_of vs
  ok (id ∷ ids)

abbrev is_hashable : Json → Bool
is_hashable (arr vs) = false
is_hashable (obj fs) = false
is_hashable v = true

abbrev all_hashable : List Json → Bool
all_hashable [] = true
all_hashable (v ∷ vs) = is_hashable v && all_hashable vs

abbrev pub bad_ids : String
bad_ids = "Duplicate or invalid test IDs."

abbrev named : Fields → Json → Result Test
named fs (str s) = do guard (is_id s) (invalid bad_ids); ok (record { id = s; fields = fs })
named fs v = err (crash "TypeError: expected string")

-- `all(re.fullmatch(...) for id in ids)`, which keeps each test with its identifier.
unfoldable pub named_tests : List Json → List Json → Result (List Test)
named_tests (v ∷ vs) (id ∷ ids) = do
  fs ← test_fields v
  t ← named fs id
  ts ← named_tests vs ids
  ok (t ∷ ts)
named_tests vs ids = ok []

unfoldable pub read_tests : Json → Result (List Test)
unfolding iterated ids_of named_tests py_eq
read_tests v = do
  vs ← iterated v
  ids ← ids_of vs
  guard (all_hashable ids) (crash "TypeError: unhashable type")
  guard (length ids == length (once ids)) (invalid bad_ids)
  named_tests vs ids

-- `[test for test in tests if test['kind'] == kind]`
unfoldable pub of_kind : String → List Test → Result (List Test)
unfolding item
of_kind kind [] = ok []
of_kind kind (t ∷ ts) = do
  k ← item "kind" (get "kind" t.fields)
  rest ← of_kind kind ts
  ok (if is_str kind k then t ∷ rest else rest)
