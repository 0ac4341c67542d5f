-- ===== src/Tests/Reference.antt =====
-- The theorems on the derived references at concrete inputs.
use xemu_perf_tests.Base.{List, String, [], ◌∷◌, ◌≡◌, refl, string_dec}
use xemu_perf_tests.Base.Int.{pos}
use xemu_perf_tests.Base.Result.{ok}
use xemu_perf_tests.Json.{Json, int, str, arr, obj, nil, cons, Fields, end, field, pairs}
use xemu_perf_tests.Reference.X87.{unique_object, expected_rows, one_row}
use xemu_perf_tests.Base.{arith, ◌+◌, ◌*◌}
use xemu_perf_tests.Reference.JumpCache.{code, target_page}
use xemu_perf_tests.Reference.JumpCache.Page.{byte, target_page-code}
use xemu_perf_tests.Reference.X87.Extended.{Extended, unique_object-pairs}

abbrev existing : Json
existing = arr (cons (obj (field "id" (str "surface.fill") end)) nil)

-- The records are left as they are written: their hashes are those of 307200 pixels.
abbrev extended : List Fields
extended =
    field "id" (str "surface.fill") end
    ∷ expected_rows "fault" (one_row "x87_fault_checkpoint" "X87FaultCheckpoint")

abbrev text_pairs : List (String × Json)
text_pairs = ("id", str "a") ∷ ("revision", int (pos 2)) ∷ []

object_read :
    unique_object text_pairs ≡ ok (field "id" (str "a") (field "revision" (int (pos 2)) end))
unfolding unique_object string_dec
object_read = refl

unique_object-pairs_example :
    pairs (field "id" (str "a") (field "revision" (int (pos 2)) end)) ≡ text_pairs
unique_object-pairs_example = unique_object-pairs text_pairs _ object_read

target_page-code_example : byte (target_page 10 65) (9 * 65 + 17) ≡ byte (code 9) 17
target_page-code_example =
    target_page-code 10 65 9 17 (omega arith) (omega arith) (omega arith) (omega arith)
