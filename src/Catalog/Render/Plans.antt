-- ===== src/Catalog/Render/Plans.antt =====
-- The plans that `render` of utils/test_catalog.py writes: path, settings and selected tests.
use xemu_perf_tests.Base.{String, ◌<>◌, List, [], ◌∷◌, ◌++◌, map}
use xemu_perf_tests.Base.Int.{pos}
use xemu_perf_tests.Base.Split.{format, replace_char}
use xemu_perf_tests.Json.{int, str, Fields, of_pairs}
use xemu_perf_tests.Catalog.Render.Settings.{
  Planned, Profile, autorun, xemu_only, skip, output_path, iterations, base_settings,
}

abbrev pub smoke_plan : Planned
smoke_plan = (
  "resources/plans/smoke.json",
  of_pairs (autorun ∷ []),
  "busy_pfifo.pgraph_pattern_polling" ∷ "surface.cpu_read_clean_surface"
      ∷ "game_load.s3tc_sync_factor.dxt1_dirty_once_redraw" ∷ [],
)

abbrev pfifo_ids : List String
pfifo_ids =
    "pfifo_array_elements.array_element16" ∷ "pfifo_array_elements.array_element32"
    ∷ "pfifo_array_elements.array_element_pgr2" ∷ []

abbrev pfifo_plan : Profile → Planned
pfifo_plan (name, warmup, multiplier, completion) = (
  "resources/pfifo-array-elements-" <> (name <> ".json"),
  of_pairs (autorun ∷ iterations warmup multiplier completion ++ (output_path ∷ [])),
  pfifo_ids,
)

abbrev pub pfifo_plans : List Planned
pfifo_plans = map pfifo_plan (
    ("fast-smoke", 1, 1, "enqueue")
    ∷ ("quick", 300, 150, "batch_complete")
    ∷ ("sustained", 750, 375, "batch_complete")
    ∷ [])

abbrev pub boundary_plan : Planned
boundary_plan = (
  "resources/pfifo-packet-boundary.json",
  of_pairs (
      autorun
      ∷ ("warmup_iterations", int (pos 0))
      ∷ xemu_only
      ∷ ("measurement_iterations_multiplier", int (pos 1))
      ∷ ("gpu_completion_mode", str "per_iteration")
      ∷ output_path
      ∷ []),
  "pfifo_packet_boundary.array_element16_overflow"
      ∷ "pfifo_packet_boundary.array_element32_overflow"
      ∷ "pfifo_packet_boundary.inline_array_overflow"
      ∷ "pfifo_packet_boundary.incrementing_inline_fallback" ∷ [],
)

abbrev pvideo_settings : Fields
pvideo_settings =
    of_pairs (autorun ∷ xemu_only ∷ skip ∷ iterations 0 1 "per_iteration" ++ (output_path ∷ []))

abbrev pvideo_plan : String → Planned
pvideo_plan stable = (
  format ("resources/pvideo-" ∷ replace_char "_" "-" stable ∷ ".json" ∷ []),
  pvideo_settings,
  ("pvideo." <> stable) ∷ [],
)

unfoldable pub pvideo_plans : List Planned
unfolding replace_char
pvideo_plans =
    map pvideo_plan ("steady_upload" ∷ "resize_toggle" ∷ [])
    ++ ((
      "resources/pvideo-overlay-quick.json",
      pvideo_settings,
      "pvideo.steady_upload" ∷ "pvideo.resize_toggle" ∷ [],
    )
        ∷ [])

abbrev pub growth_plan : Planned
growth_plan = (
  "resources/transient-buffer-growth.json",
  of_pairs (skip ∷ iterations 0 1 "per_iteration" ++ (output_path ∷ [])),
  "vertex_buffer_allocation.rising_transient_growth" ∷ [],
)

abbrev shader_plan : String × String → Planned
shader_plan (filename, test_id) = (
  "resources/" <> filename,
  of_pairs (skip ∷ autorun ∷ xemu_only ∷ iterations 0 1 "per_iteration" ++ (output_path ∷ [])),
  test_id ∷ [],
)

abbrev pub shader_plans : List Planned
shader_plans = map shader_plan (
    ("shader-lifecycle-readiness-train-visible.json", "shader_lifecycle.readiness_train_visible")
    ∷ (
      "shader-lifecycle-readiness-replay-visible.json", "shader_lifecycle.readiness_replay_visible",
    )
    ∷ (
      "shader-lifecycle-readiness-identical-replay.json",
      "shader_lifecycle.readiness_identical_replay",
    )
    ∷ ("shader-lifecycle-readiness-uniform-only.json", "shader_lifecycle.readiness_uniform_only")
    ∷ ("shader-lifecycle-readiness-early-demand.json", "shader_lifecycle.readiness_early_demand")
    ∷ [])

-- The plan of the voice tests, whose identifiers are read from the document.
abbrev pub voice_plan : List String → Planned
voice_plan ids = (
  "resources/mcpx-voice-correctness.json",
  of_pairs (base_settings ++ (xemu_only ∷ autorun ∷ iterations 0 1 "per_iteration")),
  ids,
)
