-- ===== src/Catalog/Render/Profiles.antt =====
-- The plans that `render` of utils/test_catalog.py writes in three profiles, and those of the x87 tests.
use xemu_perf_tests.Base.{String, List, [], ◌∷◌, ◌++◌, map}
use xemu_perf_tests.Base.Split.{format}
use xemu_perf_tests.Json.{of_pairs}
use xemu_perf_tests.Catalog.Render.Settings.{
  Planned, Profile, autorun, skip, output_path, iterations, base_settings,
}

-- `dict(base_settings, warmup_iterations=..., ...)` under a name of a profile.
abbrev profile_plan : String → List String → Profile → Planned
profile_plan prefix ids (profile, warmup, multiplier, completion) = (
  format ("resources/" ∷ prefix ∷ "-" ∷ profile ∷ ".json" ∷ []),
  of_pairs (base_settings ++ iterations warmup multiplier completion),
  ids,
)

abbrev pub texture_plans : List Planned
texture_plans =
    map
      (profile_plan "pipeline-texture-switch" (
        "pipeline_texture_switch.texture_switch" ∷ "pipeline_texture_switch.shader_negative_control"
        ∷ "pipeline_texture_switch.sampler_only_identity" ∷ []))
      (("fast-smoke", 1, 1, "enqueue")
        ∷ ("quick", 128, 64, "batch_complete")
        ∷ ("sustained", 320, 160, "batch_complete")
        ∷ [])

abbrev specialized_profiles : List Profile
specialized_profiles =
    ("fast-smoke", 1, 1, "enqueue")
    ∷ ("quick", 64, 32, "batch_complete")
    ∷ ("sustained", 160, 80, "batch_complete")
    ∷ []

abbrev pub specialized_plans : List Planned
specialized_plans =
    map
      (profile_plan "pipeline-clear-texture-normal"
        ("pipeline_texture_switch.clear_texture_normal" ∷ []))
      specialized_profiles
    ++ map
        (profile_plan "pipeline-sampler-only-identity"
          ("pipeline_texture_switch.sampler_only_identity" ∷ []))
        specialized_profiles

abbrev pub dirty_plans : List Planned
dirty_plans =
    map
      (profile_plan "pipeline-texture-dirty-revalidation" (
        "pipeline_texture_switch.palette_only_update"
        ∷ "pipeline_texture_switch.shared_page_overlap" ∷ []))
      (("fast-smoke", 0, 1, "per_iteration")
        ∷ ("quick", 1, 2, "per_iteration")
        ∷ ("sustained", 4, 8, "per_iteration")
        ∷ [])

abbrev pub report_plans : List Planned
report_plans =
    map
      (profile_plan "report-query" (
        "report_query.zero_query" ∷ "report_query.single_boundary" ∷ "report_query.clear_boundary"
        ∷ "report_query.multiple_boundaries" ∷ "report_query.dma_target_switch"
        ∷ "report_query.fifo_producer_ordering" ∷ "report_query.dma_descriptor_rewrite"
        ∷ "report_query.dma_range_guard" ∷ []))
      (("fast-smoke", 0, 1, "batch_complete")
        ∷ ("quick", 4, 4, "batch_complete")
        ∷ ("sustained", 16, 16, "batch_complete")
        ∷ [])

abbrev submission_ids : List String
submission_ids =
    "game_load.cross_title_hotpath.queued_vertex_cpu_writes"
    ∷ "game_load.cross_title_hotpath.pgr2_small_draws"
    ∷ "game_load.cross_title_hotpath.surface_reuse"
    ∷ "game_load.cross_title_hotpath.pipeline_state_churn"
    ∷ "game_load.cross_title_hotpath.texture_binding_reuse"
    ∷ "game_load.cross_title_hotpath.s3tc_streaming_fenced_draws"
    ∷ "game_load.cross_title_hotpath.gpu_wait_control" ∷ "surface.cpu_read_after_gpu_write"
    ∷ "surface.surface_download_path" ∷ "vertex_buffer_allocation.disjoint_same_page"
    ∷ "vertex_buffer_allocation.ordered_same_page_overwrite"
    ∷ "vertex_buffer_allocation.three_generation_overwrite"
    ∷ "tiny_draw.inline_buffers.vertex_shader" ∷ []

abbrev submission_plan : Profile → Planned
submission_plan (profile, warmup, multiplier, completion) = (
  format ("resources/vulkan-submission-lifetimes-" ∷ profile ∷ ".json" ∷ []),
  of_pairs (skip ∷ iterations warmup multiplier completion ++ (output_path ∷ [])),
  submission_ids,
)

abbrev pub submission_plans : List Planned
submission_plans = map submission_plan (
    ("fast-smoke", 0, 1, "per_iteration")
    ∷ ("quick", 1, 4, "batch_complete")
    ∷ ("sustained", 2, 16, "batch_complete")
    ∷ [])

abbrev x87_plan : String × List String → Planned
x87_plan (name, ids) = (
  format ("resources/" ∷ name ∷ ".json" ∷ []),
  of_pairs (skip ∷ autorun ∷ iterations 3 4 "per_iteration" ++ (output_path ∷ [])),
  ids,
)

abbrev pub x87_plans : List Planned
x87_plans = map x87_plan (
    (
      "x87-status-qualification",
      "cpu_floating_point.x87_status_vectors" ∷ "cpu_floating_point.x87_status_ax"
          ∷ "cpu_floating_point.x87_compare_status_ax" ∷ "cpu_floating_point.x87_scalar"
          ∷ "cpu_floating_point.sse_scalar" ∷ [],
    )
    ∷ ("x87-exception-status-qualification", "cpu_floating_point.x87_exception_status" ∷ [])
    ∷ (
      "x87-checkpoint-qualification",
      "cpu_floating_point.x87_exception_status" ∷ "cpu_floating_point.x87_fault_checkpoint" ∷ [],
    )
    ∷ [])
