-- ===== src/Reference/X87.antt =====
-- utils/x87_status_reference.py: the expected records of the x87 tests, and adding them to a
-- reference.
pub mod Extended
use Prim.Native.Nat.{bit_xor, bit_or}
use xemu_perf_tests.Base.{
  ℕ, zero, suc, ◌+◌, ◌*◌, ◌/◌, ◌%◌, ◌^◌, ◌==◌, Bool, true, false, not, ◌&&◌, ◌||◌, String, ◌<>◌,
  str_eq, Option, none, some, List, [], ◌∷◌, ◌++◌, length, any, contains, if◌then◌else◌,
}
use xemu_perf_tests.Base.Int.{pos}
use xemu_perf_tests.Base.Numerals.{hex_padded}
use xemu_perf_tests.Base.Result.{Result, ok, err, invalid, guard, ◌>>=◌, ◌>>◌}
use xemu_perf_tests.Json.{
  Json, null, int, str, arr, obj, Items, nil, cons, Fields, end, field, get, has, put,
}

-- One step of `fnv`: exclusive or with the byte, then times the prime, in 64 bits.
unfoldable pub fnv_step : ℕ → ℕ → ℕ
fnv_step value byte = bit_xor value byte * 0x100000001b3 % 2 ^ 64

-- The loop of `fnv` over the same four bytes again and again.
unfoldable pub fnv_bytes : List ℕ → ℕ → ℕ
unfolding fnv_step
fnv_bytes [] value = value
fnv_bytes (byte ∷ bytes) value = fnv_bytes bytes (fnv_step value byte)

-- `fnv`
unfoldable pub fnv : List ℕ → String
unfolding fnv_bytes hex_padded
fnv bytes = hex_padded 16 (fnv_bytes bytes 0xcbf29ce484222325)

-- `argb.to_bytes(4, 'little')`, for a colour below 2^32
unfoldable pub pixel_bytes : ℕ → List ℕ
pixel_bytes argb = argb % 256 ∷ argb / 256 % 256 ∷ argb / 65536 % 256 ∷ argb / 16777216 % 256 ∷ []

abbrev repeated : ℕ → List ℕ → List ℕ
repeated zero bytes = []
repeated (suc n) bytes = bytes ++ repeated n bytes

unfoldable pub solid_hash : ℕ → String
unfolding fnv pixel_bytes
solid_hash argb = fnv (repeated (640 * 480) (pixel_bytes argb))

-- A row of `definitions`.
pub record Row : Type 0 where
  pub suffix : String
  pub name : String
  pub revision : ℕ
  pub eax : Option ℕ

abbrev pub operations : ℕ
operations = 1048573 * 16

abbrev status_rows : List Row
status_rows =
    record { suffix = "x87_status_vectors"; name = "X87StatusVectors"; revision = 2; eax = none }
    ∷ record { suffix = "x87_status_ax"; name = "X87StatusAX"; revision = 2; eax = some 0xa5a50000 }
    ∷ record {
      suffix = "x87_compare_status_ax";
      name = "X87CompareStatusAX";
      revision = 2;
      eax = some 0xa5a57000;
    }
    ∷ []

abbrev pub one_row : String → String → List Row
one_row suffix name = record { suffix = suffix; name = name; revision = 1; eax = none } ∷ []

unfoldable pub definitions : String → Result (List Row)
definitions family =
    if str_eq family "exception-status"
    then ok (one_row "x87_exception_status" "X87ExceptionStatus")
    else if str_eq family "fault"
    then ok (one_row "x87_fault_checkpoint" "X87FaultCheckpoint")
    else if str_eq family "status"
    then ok status_rows
    else err (invalid ("Unknown reference family: " <> family))

-- The colour and the number of cases of a row without a register value.
abbrev constants : String → ℕ × ℕ
constants family =
    if str_eq family "exception-status"
    then (0xff403020, 384)
    else if str_eq family "fault"
    then (0xff203040, 4)
    else (0xff102030, 6153)

unfoldable pub checksum_of : ℕ → ℕ
checksum_of eax = operations * eax % 2 ^ 32

unfoldable pub color_of : String → Option ℕ → ℕ
unfolding checksum_of
color_of family none = (constants family).0
color_of family (some eax) = bit_or 0xff000000 (checksum_of eax % 16777216)

unfoldable pub metadata_of : String → Option ℕ → Fields
unfolding checksum_of hex_padded
metadata_of family none =
    field "source_kat" (str (hex_padded 8 (constants family).1))
      (field "result_checksum" (str "00000000") (field "oracle_status" (str "PASS") end))
metadata_of family (some eax) =
    field "work_checksum" (str (hex_padded 8 (checksum_of eax)))
      (field "result_checksum" (str (hex_padded 8 eax)) (field "oracle_status" (str "PASS") end))

abbrev number : ℕ → Json
number n = int (pos n)

abbrev pub id_of : Row → String
id_of row = "cpu_floating_point." <> row.suffix

unfoldable pub expected_record : String → Row → Fields
unfolding color_of metadata_of
expected_record family row = field "schema_version" (number 1) (
    field "id" (str (id_of row)) (
      field "revision" (number row.revision) (
        field "kind" (str "leaf") (
          field "name" (str ("CpuFloatingPoint::" <> row.name)) (
            field "outcome" (str "PASS") (
              field "iterations" (number 40) (
                field "sample_count" (number 10) (
                  field "measurement_iterations_multiplier" (number 4) (
                    field "warmup_iterations" (number 3) (
                      field "gpu_completion_mode" (str "per_iteration") (
                        field "unit" (str "us") (
                          field "direction" (str "lower_is_better") (
                            field "framebuffer_fnv1a64" (str (solid_hash (color_of family row.eax)))
                              (field "metadata" (obj (metadata_of family row.eax)) end))))))))))))))

unfoldable pub expected_rows : String → List Row → List Fields
unfolding expected_record
expected_rows family [] = []
expected_rows family (row ∷ rows) = expected_record family row ∷ expected_rows family rows

unfoldable pub expected_records : String → Result (List Fields)
unfolding definitions expected_rows
expected_records family = do rows ← definitions family; ok (expected_rows family rows)

abbrev bad_reference : String
bad_reference = "Reference must contain records with stable IDs"

-- The records of the existing reference, each a dict with a text under "id".
abbrev with_id : Option Json → Fields → Result (String × Fields)
with_id (some (str id)) fs = ok (id, fs)
with_id v fs = err (invalid bad_reference)

unfoldable pub stable_items : Items → Result (List (String × Fields))
stable_items nil = ok []
stable_items (cons (obj fs) vs) = do
  rec ← with_id (get "id" fs) fs
  recs ← stable_items vs
  ok (rec ∷ recs)
stable_items (cons v vs) = err (invalid bad_reference)

unfoldable pub stable_records : Json → Result (List (String × Fields))
unfolding stable_items
stable_records (arr vs) = stable_items vs
stable_records v = err (invalid bad_reference)

abbrev pub ids : List (String × Fields) → List String
ids [] = []
ids ((id, fs) ∷ rs) = id ∷ ids rs

-- `len(set(ids)) == len(ids)`
abbrev pub all_new : List String → Bool
all_new [] = true
all_new (i ∷ rest) = not (contains rest i) && all_new rest

-- `set(a) & set(b)`, and whether it is empty
abbrev pub apart : List String → List String → Bool
apart [] js = true
apart (i ∷ rest) js = not (contains js i) && apart rest js

abbrev pub ids_of_rows : List Row → List String
ids_of_rows [] = []
ids_of_rows (row ∷ rows) = id_of row ∷ ids_of_rows rows

abbrev pub records_of : List (String × Fields) → List Fields
records_of [] = []
records_of ((id, fs) ∷ rs) = fs ∷ records_of rs

unfoldable pub extend_reference : Json → String → Result (List Fields)
unfolding stable_records definitions expected_rows
extend_reference existing family = do
  recs ← stable_records existing
  rows ← definitions family
  guard (all_new (ids recs) && apart (ids recs) (ids_of_rows rows))
      (invalid "Duplicate ID or existing x87 oracle; never replace existing expected output")
  ok (records_of recs ++ expected_rows family rows)

-- The loop of `unique_object` over the pairs of a JSON object.
unfoldable pub unique_from : List (String × Json) → Fields → Result Fields
unique_from [] result = ok result
unique_from ((key, value) ∷ pairs) result = do
  guard (not (has key result)) (invalid ("Duplicate JSON field: " <> key))
  unique_from pairs (put key value result)

unfoldable pub unique_object : List (String × Json) → Result Fields
unfolding unique_from
unique_object pairs = unique_from pairs end
