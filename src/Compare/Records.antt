-- ===== src/Compare/Records.antt =====
-- The records of a run file: `_load_metadata`, `_hash`, `_hash_eligible`, `_record_id`, `_records` and
-- `load_run` of utils/hash_compare.py.
use xemu_perf_tests.Base.{
  zero, suc, Bool, true, false, not, String, ◌<>◌, str_eq, Option, none, some, List, [], ◌∷◌,
  if◌then◌else◌,
}
use xemu_perf_tests.Base.Int.{ℤ, pos, negsuc}
use xemu_perf_tests.Base.Numerals.{decimal}
use xemu_perf_tests.Base.Text.{strip, lower, is_blank}
use xemu_perf_tests.Base.Result.{Result, ok, err, invalid, guard, ◌>>=◌, ◌>>◌}
use xemu_perf_tests.Json.{
  Json, null, bool, int, float, str, arr, obj, Items, nil, cons, Fields, end, get, get_null, has,
  put,
}

-- What Python gives: `json.loads`, with `none` for JSONDecodeError, and `str` of a float, a list or a
-- dict.
pub record Python : Type 0 where
  pub loads : String → Option Json
  pub repr : Json → String

abbrev decimal_int : ℤ → String
decimal_int (pos n) = decimal n
decimal_int (negsuc n) = "-" <> decimal (suc n)

-- `bool(v)`
abbrev pub truthy : Json → Bool
truthy null = false
truthy (bool b) = b
truthy (int (pos zero)) = false
truthy (float (pos zero) k) = false
truthy (str s) = not (is_blank s)
truthy (arr nil) = false
truthy (obj end) = false
truthy v = true

-- `v or w`
abbrev pub py_or : Json → Json → Json
py_or v w = if truthy v then v else w

abbrev dict_or_empty : Option Json → Fields
dict_or_empty (some (obj fs)) = fs
dict_or_empty v = end

abbrev or_none : String → Option String
or_none s = if is_blank s then none else some s

-- `record.get(key)`, or the value that the metadata has where it is None.
abbrev or_else : Json → Json → Json
or_else null w = w
or_else v w = v

abbrev pub is_no_false : Option Json → Bool
is_no_false (some (bool false)) = false
is_no_false v = true

module _ (p : Python) where
  -- `str(v)`
  unfoldable pub py_str : Json → String
  unfolding decimal
  py_str null = "None"
  py_str (bool true) = "True"
  py_str (bool false) = "False"
  py_str (int n) = decimal_int n
  py_str (str s) = s
  py_str v = p.repr v

  abbrev metadata_of : Json → Fields
  metadata_of (obj fs) = fs
  metadata_of (str s) = if is_blank (strip s) then end else dict_or_empty (p.loads s)
  metadata_of v = end

  unfoldable pub load_metadata : Fields → Fields
  unfolding strip
  load_metadata rec = metadata_of (get_null "metadata" rec)

  abbrev normalized : Json → Option String
  normalized null = none
  normalized (arr vs) = none
  normalized (obj fs) = none
  normalized v = or_none (lower (strip (py_str v)))

  unfoldable pub hash : Fields → String → Option String
  unfolding py_str load_metadata lower strip
  hash rec key = normalized (or_else (get_null key rec) (get_null key (load_metadata rec)))

  unfoldable pub hash_eligible : Option Fields → String → Bool
  unfolding load_metadata
  hash_eligible none label = false
  hash_eligible (some rec) label =
      if str_eq label "framebuffer"
      then is_no_false (get "framebuffer_comparison_eligible" (load_metadata rec))
      else true

  abbrev id_of : Json → Result String
  id_of null = err (invalid "record has no id, test_id, or name")
  id_of v = do
    guard (not (is_blank (strip (py_str v)))) (invalid "record has no id, test_id, or name")
    ok (strip (py_str v))

  unfoldable pub record_id : Fields → Result String
  unfolding py_str strip
  record_id rec =
      id_of (py_or (py_or (get_null "name" rec) (get_null "id" rec)) (get_null "test_id" rec))

  abbrev dicts_of : Items → Result (List Fields)
  dicts_of nil = ok []
  dicts_of (cons (obj fs) vs) = do rest ← dicts_of vs; ok (fs ∷ rest)
  dicts_of (cons v vs) = err (invalid "every record must be a JSON object")

  abbrev list_of : Json → Result (List Fields)
  list_of (arr vs) = dicts_of vs
  list_of v = err (invalid "expected a JSON array or an object containing records/results")

  unfoldable pub records : Json → Result (List Fields)
  records (arr vs) = dicts_of vs
  records (obj fs) = list_of (or_else (get_null "records" fs) (get_null "results" fs))
  records v = err (invalid "expected a JSON array or an object containing records/results")

  -- The loop of `load_run`: the index is a dict from identifiers to records.
  unfoldable pub index_records : List Fields → Fields → Result Fields
  unfolding record_id
  index_records [] indexed = ok indexed
  index_records (rec ∷ recs) indexed = do
    id ← record_id rec
    guard (not (has id indexed)) (invalid ("duplicate record id: " <> id))
    index_records recs (put id (obj rec) indexed)

  unfoldable pub load_run : Json → Result Fields
  unfolding records index_records
  load_run document = do recs ← records document; index_records recs end
