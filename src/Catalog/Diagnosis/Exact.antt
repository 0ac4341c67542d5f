-- ===== src/Catalog/Diagnosis/Exact.antt =====
-- The texts under `exact` of `failure_diagnosis` of utils/test_catalog.py.
use xemu_perf_tests.Base.{String, List, [], ◌∷◌, ◌++◌}

abbrev exact_processor : List (String × String)
exact_processor =
    (
      "busy_pfifo.pfifo_saturation",
      "PFIFO did not consume the fixed push-buffer stream or produced the wrong final image. Check DMA get/put handling, packet decode, FIFO stalls, and PFIFO/PGRAPH lock handoff.",
    )
    ∷ (
      "busy_pfifo.pgraph_pattern_polling",
      "The guest-observed PGRAPH completion pattern or rendered result changed. Check report/status polling, notification ordering, GPU completion waits, and busy-bit transitions.",
    )
    ∷ (
      "cpu_floating_point.sse_scalar",
      "SSE scalar values or flags differ from the known-answer sequence. Check TCG SSE helpers, MXCSR rounding/FTZ/DAZ state, NaN handling, and native hard-FPU shortcuts.",
    )
    ∷ (
      "cpu_floating_point.x87_scalar",
      "x87 values, classifications, or status differ. Check extended precision, control-word rounding, exceptions, NaN/denormal handling, and hard-FPU conversion boundaries.",
    )
    ∷ (
      "cpu_translation_blocks.direct_loop",
      "A direct-branch loop produced the wrong checksum or stopped making progress. Check TCG block chaining, instruction counting, interrupt exits, and translated-code invalidation.",
    )
    ∷ (
      "cpu_translation_blocks.indirect_dispatch",
      "The fixed indirect jump-table sequence diverged. Check indirect TB lookup, target caching, register state at exits, and branch dispatch.",
    )
    ∷ (
      "cpu_translation_blocks.indirect_dispatch_stress",
      "The larger indirect-target set diverged or timed out. Check TB hash/lookup behavior, eviction, chaining misses, and state restoration across repeated indirect exits.",
    )
    ∷ (
      "cpu_translation_blocks.code_stable",
      "Unchanged generated code returned the wrong checksum or stalled. Check instruction decoding, indirect TB lookup, executable memory, CPUID serialization, and call/return state.",
    )
    ∷ (
      "cpu_translation_blocks.code_rewrite",
      "Rewritten generated code returned a stale value or the checksum diverged. Check code-page write tracking, TB invalidation, indirect-cache entries, and CPUID serialization before executing changed code.",
    )
    ∷ (
      "fill_rate.solid",
      "Solid fragments have wrong coverage/color or the draw does not complete. Check clear/raster state, color masks, viewport/scissor, render-pass setup, and host fill path.",
    )
    ∷ (
      "fill_rate.textured",
      "Textured fragments differ or texture sampling stalls. Check texture upload/layout, sampler state, coordinates, cache invalidation, and fragment-shader translation.",
    )
    ∷ (
      "pipeline_texture_switch.texture_switch",
      "Switching texture bindings preserved stale image/sampler state or rebuilt the wrong pipeline. Check descriptor keys, texture generations, binding dirty flags, and pipeline reuse.",
    )
    ∷ (
      "pipeline_texture_switch.shader_negative_control",
      "A real shader-state change was incorrectly suppressed. Check shader/pipeline key normalization and dirty-bit elision; this control must change output when shader state changes.",
    )
    ∷ (
      "pipeline_texture_switch.clear_texture_normal",
      "State leaked across clear, texture-only, and normal-draw boundaries. Check clear-pipeline lifetime, descriptor dirtiness, render-pass transitions, and post-clear state restoration.",
    )
    ∷ (
      "pipeline_texture_switch.sampler_only_identity",
      "An identical sampler write changed output or caused an invalid reuse decision. Check sampler identity keys, compare-before-dirty logic, descriptor cache lifetime, and texture-stage normalization.",
    )
    ∷ (
      "pipeline_texture_switch.palette_only_update",
      "A palette-only write did not update the indexed texture or caused repeated uploads on unchanged redraws. Check palette dirty-page tracking, combined content hashes, retry state, and dirty-hint retirement.",
    )
    ∷ (
      "pipeline_texture_switch.shared_page_overlap",
      "Validating the first overlapping cached texture lost the second binding's dirty state or unchanged redraws kept revalidating. Check per-binding overlap marking, page dirty-bit clearing, content hashes, and dirty-hint retirement.",
    )
    ∷ (
      "pipeline_texture_switch.texture_dma_remap",
      "Clean stage 0 sampled its old DMA target after stage 1's unrelated sampler write admitted the slow bind. Check DMA-context invalidation, resolved source identity, and stage-local descriptor state.",
    )
    ∷ (
      "pipeline_texture_switch.palette_dma_remap",
      "Clean stage 0 sampled its old palette after stage 1's unrelated sampler write admitted the slow bind. Check palette DMA-context invalidation, palette source identity, and stage-local binding state.",
    )
    ∷ []

abbrev exact_memory : List (String × String)
exact_memory =
    (
      "report_query.zero_query",
      "A disabled-ZPASS report did not publish a complete zero-valued record after ordered GPU and host-report completion. Check explicit ZPASS disable, query initialization, report completion, and timestamp/value/done stores.",
    )
    ∷ (
      "report_query.single_boundary",
      "A single counted draw did not publish a complete nonzero report after ordered GPU and host-report completion. Check query begin/end, GET_REPORT ordering, and timestamp/value/done stores.",
    )
    ∷ (
      "report_query.clear_boundary",
      "Equal counted draws separated by CLEAR_REPORT_VALUE did not produce equal complete records. Check clear ordering, cumulative query state, and report publication.",
    )
    ∷ (
      "report_query.multiple_boundaries",
      "Two equal counted draws did not produce the expected cumulative 1x/2x complete records. Check query boundary ordering and cumulative report state.",
    )
    ∷ (
      "report_query.dma_target_switch",
      "Reports queued around SET_CONTEXT_DMA_REPORT did not reach complete A0/B0 records with equal counts. Check report-context ownership and pending-report ordering.",
    )
    ∷ (
      "report_query.fifo_producer_ordering",
      "Producer methods or the second counted draw overtook the first report boundary. Check PFIFO method order, synchronous report completion, and query publication.",
    )
    ∷ (
      "report_query.dma_descriptor_rewrite",
      "The A0 positive control, pending A1 ownership, untouched B1 sentinel, or post-rewrite B0 control failed. Check queue-time DMA descriptor snapshotting, direct RAMIN mutation, and terminal completion. This is an xemu-only oracle pending hardware characterization.",
    )
    ∷ (
      "report_query.dma_range_guard",
      "The valid offset-0 control failed or invalid offset 16 modified the complete target record/surrounding canaries. Check inclusive DMA extent normalization and subtraction-based 16-byte report bounds. This is an xemu-only oracle pending hardware characterization.",
    )
    ∷ (
      "game_load.repeated_display",
      "Repeated presentation changed the deterministic scene or stopped advancing. Check flip/vblank ordering, scanout ownership, present waits, and retained renderer state.",
    )
    ∷ (
      "game_load.repeated_display_boosted",
      "The sustained presentation variant diverged under heavier work. Check the same flip path plus queue growth, throttling, resource lifetime, and delayed completion.",
    )
    ∷ (
      "surface.basic",
      "Basic render-to-surface output differs. Check surface format/pitch, attachment creation, layout transitions, viewport/scissor, and download conversion.",
    )
    ∷ (
      "surface.cpu_read_after_gpu_write",
      "The CPU did not observe the GPU's newest surface bytes. Check GPU-to-RAM synchronization, dirty ownership, fence waits, download range, and cache invalidation.",
    )
    ∷ (
      "surface.cpu_read_clean_surface",
      "Reading an already synchronized surface changed data or performed the wrong path. Check clean/dirty state, redundant download elision, RAM validity, and surface ownership epochs.",
    )
    ∷ (
      "surface.full_clear_elision_guard",
      "A full clear was incorrectly skipped or applied to the wrong channels. Check clear coverage proof, color/depth masks, attachment extent, and dirty-state propagation.",
    )
    ∷ (
      "surface.partial_channel_clear_guard",
      "A masked clear was treated as a full clear or lost untouched channels. Check channel masks, clear fast-path eligibility, blending/write masks, and surface preservation.",
    )
    ∷ (
      "surface.surface_download_path",
      "Downloaded RAM bytes or the post-download frame differ. Check image-to-buffer usage/layout, scaled blit, depth/stencil conversion, mapping/invalidation, pitch, and swizzle.",
    )
    ∷ (
      "surface.overlapping_surface_churn_representative",
      "Ordinary overlapping views retained stale data or invalidated the wrong resource. Check overlap lookup, alias ownership, format/pitch reinterpretation, and upload/download ordering.",
    )
    ∷ (
      "surface.overlapping_surface_churn_stress",
      "Heavy alias churn exposed stale data, unbounded resources, or a lifetime fault. Check overlap indexing, eviction, deferred destruction, fences, and conservative reconciliation.",
    )
    ∷ (
      "uniform_thrash.uniform_thrash",
      "Rapid constant writes produced stale shader inputs or lost a real update. Check compare-before-dirty logic, dirty-row masks, uniform packing, descriptor staging, and shader constant indexing.",
    )
    ∷ (
      "vertex_buffer_allocation.disjoint_same_page",
      "Two disjoint vertex ranges sharing one guest page interfered. Check byte-range versus page dirty tracking, upload offsets, cache keys, and allocation aliasing.",
    )
    ∷ (
      "vertex_buffer_allocation.rising_transient_growth",
      "A just-below, exact-capacity, repeated-small-growth, or large-growth phase failed. Check required-size arithmetic, paired buffer capacities, mapping restoration, command-buffer completion, and post-growth draw offsets.",
    )
    ∷ (
      "vertex_buffer_allocation.ordered_same_page_overwrite",
      "A later CPU write changed an earlier recorded draw, the later draw read stale vertices, or the intervening FIFO drain completed GPU work. Check read-page tracking, mapped-write eligibility, ordered staging, and submission lifetime.",
    )
    ∷ (
      "vertex_buffer_allocation.three_generation_overwrite",
      "A queued draw consumed a later vertex generation. Check version selection, immutable inline staging, read-page tracking, and command-buffer retirement between rewrites.",
    )
    ∷ (
      "vertex_buffer_allocation.gpu_surface_vertex_attribute_readback",
      "A GPU-authored diffuse value was not visible to CPU vertex-attribute decoding. Check surface overlap detection, readback ordering, dirty ranges, and the stride-zero uniform value.",
    )
    ∷ []

unfoldable pub exact : List (String × String)
exact = exact_processor ++ exact_memory
