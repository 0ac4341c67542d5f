-- ===== src/Catalog/Entries/Gpu.antt =====
-- The entries of `entries` of utils/test_catalog.py on fills, pipelines, reports and shaders.
use xemu_perf_tests.Base.{List, [], ◌∷◌}
use xemu_perf_tests.Catalog.Entry.{Entry, leaf, simple}

abbrev pub fill_rate : List Entry
fill_rate =
    simple "fill_rate" "FillRate"
      (("solid", "FillRate-Solid") ∷ ("textured", "FillRate-Textured") ∷ [])
      ("gpu" ∷ "performance" ∷ "hardware-safe" ∷ [])

abbrev pub pipeline_texture_switch : List Entry
pipeline_texture_switch =
    simple "pipeline_texture_switch" "PipelineTextureSwitch"
      (("texture_switch", "pipeline.texture-switch")
        ∷ ("shader_negative_control", "pipeline.shader-negative-control")
        ∷ ("clear_texture_normal", "pipeline.clear-texture-normal")
        ∷ ("sampler_only_identity", "pipeline.sampler-only-identity")
        ∷ [])
      ("texture" ∷ "gpu" ∷ "performance" ∷ "hardware-safe" ∷ [])

abbrev pub palette_only_update : List Entry
palette_only_update =
    leaf "pipeline_texture_switch.palette_only_update" "pipeline_texture_switch"
      "PipelineTextureSwitch" "pipeline.palette-only-update"
      "Changes one indexed-texture palette entry without changing image bytes, then verifies the new color and unchanged-draw steady state."
      ("texture" ∷ "gpu" ∷ "correctness" ∷ "hardware-safe" ∷ [])
    ∷ []

abbrev pub shared_page_overlap : List Entry
shared_page_overlap =
    leaf "pipeline_texture_switch.shared_page_overlap" "pipeline_texture_switch"
      "PipelineTextureSwitch" "pipeline.shared-page-overlap"
      "Validates two overlapping cached texture bindings in sequence after one shared-page write, then verifies unchanged-draw steady state."
      ("texture" ∷ "gpu" ∷ "correctness" ∷ "hardware-safe" ∷ [])
    ∷ []

abbrev pub texture_dma_remap : List Entry
texture_dma_remap =
    leaf "pipeline_texture_switch.texture_dma_remap" "pipeline_texture_switch"
      "PipelineTextureSwitch" "pipeline.texture-dma-remap"
      "Remaps clean stage 0's texture DMA source while stage 1 receives an unrelated sampler write; checks both rendered stages."
      ("texture" ∷ "gpu" ∷ "correctness" ∷ "hardware-safe" ∷ [])
    ∷ []

abbrev pub palette_dma_remap : List Entry
palette_dma_remap =
    leaf "pipeline_texture_switch.palette_dma_remap" "pipeline_texture_switch"
      "PipelineTextureSwitch" "pipeline.palette-dma-remap"
      "Remaps clean stage 0's palette DMA source while stage 1 receives an unrelated sampler write; checks both rendered stages."
      ("texture" ∷ "gpu" ∷ "correctness" ∷ "hardware-safe" ∷ [])
    ∷ []

abbrev pub report_query : List Entry
report_query =
    simple "report_query" "ReportQuery"
      (("zero_query", "report.zero-query")
        ∷ ("single_boundary", "report.single-boundary")
        ∷ ("clear_boundary", "report.clear-boundary")
        ∷ ("multiple_boundaries", "report.multiple-boundaries")
        ∷ ("dma_target_switch", "report.dma-target-switch")
        ∷ ("fifo_producer_ordering", "report.fifo-producer-ordering")
        ∷ [])
      ("report" ∷ "gpu" ∷ "correctness" ∷ "performance" ∷ "hardware-safe" ∷ [])

abbrev pub report_dma_guards : List Entry
report_dma_guards =
    simple "report_query" "ReportQuery"
      (("dma_descriptor_rewrite", "report.dma-descriptor-rewrite")
        ∷ ("dma_range_guard", "report.dma-range-guard")
        ∷ [])
      ("report" ∷ "gpu" ∷ "correctness" ∷ "xemu-only" ∷ [])

abbrev pub shader_lifecycle : List Entry
shader_lifecycle =
    simple "shader_lifecycle" "ShaderLifecycle"
      (("readiness_train_visible", "readiness.train-visible")
        ∷ ("readiness_replay_visible", "readiness.replay-visible")
        ∷ ("readiness_identical_replay", "readiness.identical-replay")
        ∷ ("readiness_uniform_only", "readiness.uniform-only")
        ∷ ("readiness_early_demand", "readiness.early-demand")
        ∷ [])
      ("shader-lifecycle" ∷ "shader-readiness" ∷ "gpu" ∷ "correctness" ∷ "xemu-only" ∷ [])
