-- ===== src/Catalog/Validate.antt =====
-- `validate` of utils/test_catalog.py.
pub mod Sound
use xemu_perf_tests.Base.{
  Bool, true, false, not, ◌&&◌, ◌||◌, String, ◌<>◌, List, [], ◌∷◌, all, is_empty, contains,
}
use xemu_perf_tests.Base.Text.{is_blank}
use xemu_perf_tests.Base.Result.{Error, Result, ok, err, invalid, guard, ◌>>=◌, ◌>>◌}
use xemu_perf_tests.Catalog.Entry.{Entry, legacy_id}

abbrev pub valid_tags : List String
valid_tags =
    "allocation" ∷ "audio" ∷ "correctness" ∷ "cpu" ∷ "gpu" ∷ "group" ∷ "hardware-safe"
    ∷ "memory-pressure" ∷ "microbenchmark" ∷ "performance" ∷ "pfifo" ∷ "primitive" ∷ "scenario"
    ∷ "surface" ∷ "texture" ∷ "report" ∷ "shader-lifecycle" ∷ "shader-readiness" ∷ "vertex"
    ∷ "xemu-only" ∷ []

-- What the second test of the first loop asks of an entry.
abbrev pub is_described : Entry → Bool
is_described x =
    not (is_blank x.description || is_empty x.tags || not (all (contains valid_tags) x.tags))

abbrev pub duplicate : Entry → Error
duplicate x = invalid ("duplicate descriptor: " <> (x.id <> (" / " <> legacy_id x)))

abbrev pub undescribed : Entry → Error
undescribed x = invalid ("invalid descriptor: " <> x.id)

abbrev pub orphan : Entry → Error
orphan x = invalid ("missing parent for " <> x.id)

-- The first loop, with the sets of what it has seen; it returns the identifiers.
unfoldable pub check_entries : List String → List String → List Entry → Result (List String)
check_entries ids legacy [] = ok ids
check_entries ids legacy (x ∷ xs) = do
  guard (not (contains ids x.id || contains legacy (legacy_id x))) (duplicate x)
  guard (is_described x) (undescribed x)
  check_entries (x.id ∷ ids) (legacy_id x ∷ legacy) xs

-- The second loop.
unfoldable pub check_parents : List String → List Entry → Result (Unit {0})
check_parents ids [] = ok tt
check_parents ids (x ∷ xs) = do
  guard (not (not (is_blank x.parent_id) && not (contains ids x.parent_id))) (orphan x)
  check_parents ids xs

unfoldable pub validate : List Entry → Result (Unit {0})
unfolding check_entries check_parents
validate items = do ids ← check_entries [] [] items; check_parents ids items
