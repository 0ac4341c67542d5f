-- ===== src/Catalog/Diagnosis/Scenes.antt =====
-- The texts of `failure_diagnosis` of utils/test_catalog.py on memory pressure and game loads.
use xemu_perf_tests.Base.{String, none, some, [], ◌∷◌, lookup, if◌then◌else◌}
use xemu_perf_tests.Base.Text.{starts_with, contains_text}
use xemu_perf_tests.Base.Split.{format, split_char, after_last}
use xemu_perf_tests.Base.Result.{Result, ok, ◌>>=◌}
use xemu_perf_tests.Catalog.Entry.{spaced}
use xemu_perf_tests.Catalog.Diagnosis.Causes.{
  meanings, hotpath_causes, scene_causes, phase_causes, nth, cause, default_text,
}

unfoldable pub pressure_text : String → Result String
unfolding after_last
pressure_text test_id = do
  let checkpoint = after_last "." test_id
  meaning ← cause checkpoint meanings
  ok (
      format (
        "The "
        ∷ spaced checkpoint
        ∷ " checkpoint failed: "
        ∷ meaning
        ∷ ". Check allocation counters, cache keys, fence-complete retirement, eviction policy, and host-memory accounting."
        ∷ []))

abbrev texture_format : String → String
texture_format cell =
    if starts_with cell "dxt1"
    then "DXT1"
    else if starts_with cell "rgba8"
    then "RGBA8"
    else if starts_with cell "bc2"
    then "BC2"
    else "BC3"

-- `behavior` and `checks`
abbrev cell_texts : String → String × String
cell_texts cell =
    if contains_text cell "same_address_wait"
    then (
      "same-address rewrite followed by an explicit GPU wait",
      "dirty-generation detection, synchronized replacement, upload bytes, and fence completion",
    )
    else if contains_text cell "same_address_queued"
    then (
      "same-address rewrite while work remains queued",
      "queued resource generations, staging lifetime, write-after-read hazards, and submission ordering",
    )
    else if contains_text cell "ring_payload_generations"
    then (
      "rotating payload generations in a fixed address ring",
      "generation keys, ring wrap, stale descriptor reuse, and in-flight allocation protection",
    )
    else if contains_text cell "dirty_once_redraw"
    then (
      "one dirty upload followed by unchanged redraws",
      "dirty-bit clearing, unchanged-upload elision, hash/cache reuse, and retained texture validity",
    )
    else if contains_text cell "native_eligible"
    then (
      "a block-compressed texture eligible for native host upload",
      "compressed-format capability, mip/block dimensions, native upload selection, and sampled texel decoding",
    )
    else (
      "a bordered block-compressed texture that must take the fallback path",
      "native-path rejection, CPU decompression, border fixup, expanded format, and fallback upload lifetime",
    )

unfoldable pub s3tc_text : String → String
unfolding after_last starts_with contains_text
s3tc_text test_id =
    let cell = after_last "." test_id in
    let texts = cell_texts cell in
    format (
      "The "
      ∷ texture_format cell
      ∷ " "
      ∷ texts.0
      ∷ " cell produced the wrong KAT/frame. Check "
      ∷ texts.1
      ∷ "."
      ∷ [])

unfoldable pub hotpath_text : String → Result String
unfolding after_last
hotpath_text test_id = do
  let stage = after_last "." test_id
  causes ← cause stage hotpath_causes
  ok (format ("The " ∷ spaced stage ∷ " stage diverged. Check " ∷ causes ∷ "." ∷ []))

unfoldable pub scene_text : String → Result String
unfolding after_last
scene_text test_id = do
  let stage = after_last "." test_id
  causes ← cause stage scene_causes
  ok (
      format (
        "The sustained "
        ∷ spaced stage
        ∷ " phase failed or stopped advancing. Check "
        ∷ causes
        ∷ "."
        ∷ []))

unfoldable pub phase_text : String → Result String
unfolding after_last split_char
phase_text test_id = do
  let phase = after_last "." test_id
  workload ← nth 1 (split_char "." test_id)
  ok (elim (lookup phase phase_causes) [
    | none ↦ default_text
    | some causes ↦ format (
        "The "
        ∷ spaced workload
        ∷ " "
        ∷ spaced phase
        ∷ " phase changed its deterministic result. Check "
        ∷ causes
        ∷ "."
        ∷ [])
  ])
