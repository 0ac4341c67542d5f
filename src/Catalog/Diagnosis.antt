-- ===== src/Catalog/Diagnosis.antt =====
-- `failure_diagnosis` of utils/test_catalog.py.
mod Exact
pub mod Causes
mod Scenes
pub mod Specific
use xemu_perf_tests.Base.{
  ℕ, zero, suc, Bool, true, false, String, ◌<>◌, str_eq, Option, none, some, List, [], ◌∷◌, lookup,
  if◌then◌else◌,
}
use xemu_perf_tests.Base.Text.{starts_with, ends_with, contains_text, is_blank}
use xemu_perf_tests.Base.Split.{format, split_char, after_last, lstrip_char, capitalize, title}
use xemu_perf_tests.Base.Result.{Result, ok, err, crash, ◌>>=◌, ◌>>◌}
use xemu_perf_tests.Catalog.Entry.{spaced}
use Exact.{exact}
use Causes.{nth, cause, default_text}
use Scenes.{pressure_text, s3tc_text, hotpath_text, scene_text, phase_text}

abbrev group_text : String
group_text =
    "At least one child checkpoint failed, a child result is missing, or group completion was recorded incorrectly. Inspect the child records in order; the group has no independent timing oracle."

abbrev jump_cache_text : String
jump_cache_text =
    "The generated indirect-target workload returned the wrong checksum or stalled. Check softmmu jump-cache slot lookup and collision handling, translated-block chaining, and state restoration across indirect exits."

abbrev voice_text : String
voice_text =
    "The MCPX voice setup, sample progress, mix output, or cleanup check failed. Inspect APU ownership guards, scattered SGE input, ADPCM/PCM decode, GP mix-bin routing, and DMA-safe list teardown. Timing is diagnostic only."

abbrev pvideo_text : String
pvideo_text =
    "A generated source known answer failed, a frame batch did not complete, or the host overlay image differs in checker orientation, size, address generation or enable state. Guest framebuffer hashes exclude the composited overlay. Inspect PVIDEO register state, YUY2 conversion, display upload and image layout/resource reuse."

abbrev boundary_text : String
boundary_text =
    "xemu aborted, consumed the wrong word count, partially applied an oversized packet, or failed to resume after controlled rejection. Check preflight capacity arithmetic, scalar/bulk mode selection, PFIFO method-count updates, and destination-state mutation order."

unfoldable pub array_element_text : String → String
unfolding contains_text ends_with capitalize
array_element_text test_id =
    let width = if contains_text test_id "16" then "16-bit" else "32-bit" in
    let shape =
      if ends_with test_id "pgr2"
      then "the PGR2-shaped mixed packet stream"
      else format ("the " ∷ width ∷ " element stream" ∷ []) in
    format (
      capitalize shape
      ∷ " produced wrong indices, vertices, or pixels. Check non-incrementing method packet length, endian unpacking, index expansion, bounds growth, and bulk PFIFO dispatch."
      ∷ [])

abbrev path_of : String → String
path_of part = if str_eq part "fixed_function" then "fixed-function" else "vertex-shader"

unfoldable pub high_vertex_text : String → String
unfolding after_last
high_vertex_text test_id = format (
    "The large "
    ∷ spaced (after_last "." test_id)
    ∷ " submission lost or reordered vertices. Check packet capacity growth, vertex/index conversion, draw splitting, buffer offsets, and allocation rollover."
    ∷ [])

unfoldable pub primitive_text : String → Result String
unfolding split_char title
primitive_text test_id = do
  topology ← nth 1 (split_char "." test_id)
  path ← nth 2 (split_char "." test_id)
  ok (
      format (
        title (spaced topology)
        ∷ " assembly or raster coverage differs on the "
        ∷ path_of path
        ∷ " path. Check topology conversion, closure/restart vertices, provoking vertex, clipping, attribute fetch, and viewport rules."
        ∷ []))

unfoldable pub tiny_text : String → Result String
unfolding split_char
tiny_text test_id = do
  mode ← nth 1 (split_char "." test_id)
  path ← nth 2 (split_char "." test_id)
  ok (
      format (
        "Tiny "
        ∷ spaced mode
        ∷ " draws differ or lose state on the "
        ∷ path_of path
        ∷ " path. Check per-packet dispatch, small-buffer allocation, state carry-over, draw batching, attribute fetch, and pipeline binding."
        ∷ []))

-- `_, size_class, mode = test_id.split(".")`
abbrev three : List String → Result (String × String × String)
three (a ∷ b ∷ c ∷ []) = ok (a, b, c)
three parts = err (crash "ValueError: three values to unpack")

unfoldable pub allocation_text : String → Result String
unfolding split_char
allocation_text test_id = do
  parts ← three (split_char "." test_id)
  ok (
      format (
        "The "
        ∷ parts.1
        ∷ " "
        ∷ spaced parts.2
        ∷ " allocation sequence reused or addressed the wrong vertex data. Check alignment, ring wrap, allocation lifetime, upload offsets, cache invalidation, and fence protection."
        ∷ []))

-- `test_id.rsplit("_", 1)[-1].lstrip("0") or "0"`
unfoldable pub count_of : String → String
unfolding after_last lstrip_char
count_of test_id =
    let count = lstrip_char "0" (after_last "_" test_id) in if is_blank count then "0" else count

-- The tests of the prefixes, after `exact`.
unfoldable pub by_prefix : String → Result String
unfolding starts_with array_element_text high_vertex_text primitive_text tiny_text allocation_text
    count_of pressure_text s3tc_text hotpath_text scene_text phase_text
by_prefix test_id =
    if starts_with test_id "pfifo_array_elements."
    then ok (array_element_text test_id)
    else if starts_with test_id "pfifo_packet_boundary."
    then ok boundary_text
    else if starts_with test_id "high_vertex_count."
    then ok (high_vertex_text test_id)
    else if starts_with test_id "primitive_type."
    then primitive_text test_id
    else if starts_with test_id "tiny_draw."
    then tiny_text test_id
    else if starts_with test_id "vertex_buffer_allocation."
    then allocation_text test_id
    else if starts_with test_id "surface.framebuffer_working_set_"
    then ok (
        format (
          "The "
          ∷ count_of test_id
          ∷ "-surface framebuffer working set changed output or resource lifetime. Check surface-cache capacity, eviction safety, attachment reuse, dirty ownership, and deferred destruction."
          ∷ []))
    else if starts_with test_id "surface.surface_list_lookup_"
    then ok (
        format (
          "Lookup among "
          ∷ count_of test_id
          ∷ " active surfaces selected or skipped the wrong overlap. Check address-range boundaries, interval/list ordering, pitch/extent calculation, and stale-list removal."
          ∷ []))
    else if starts_with test_id "surface.vulkan_memory_pressure."
    then pressure_text test_id
    else if starts_with test_id "game_load.s3tc_sync_factor."
    then ok (s3tc_text test_id)
    else if starts_with test_id "game_load.cross_title_hotpath."
    then hotpath_text test_id
    else if starts_with test_id "game_load.long_unlocked_scene."
    then scene_text test_id
    else if starts_with test_id "game_load."
    then phase_text test_id
    else ok default_text

-- On the texts under "id", "kind" and "suite_id".
unfoldable pub failure_diagnosis : String → String → String → Result String
unfolding starts_with exact by_prefix
failure_diagnosis test_id kind suite_id =
    if str_eq kind "group"
    then ok group_text
    else if starts_with test_id "cpu_translation_blocks.jump_cache_"
    then ok jump_cache_text
    else if starts_with test_id "mcpx_voice."
    then ok voice_text
    else if str_eq suite_id "pvideo"
    then ok pvideo_text
    else elim (lookup test_id exact) [ none ↦ by_prefix test_id | some text ↦ ok text ]
