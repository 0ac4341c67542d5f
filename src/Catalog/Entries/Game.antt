-- ===== src/Catalog/Entries/Game.antt =====
-- The entries of `entries` of utils/test_catalog.py on the game-load scenarios.
use xemu_perf_tests.Base.{String, ◌<>◌, List, [], ◌∷◌, map}
use xemu_perf_tests.Catalog.Entry.{Entry, simple, staged, each}

abbrev pub long_scene : List Entry
long_scene =
    staged "game_load.long_unlocked_scene" "08-LongUnlockedScene" "long_scene"
      (("cpu", "08-LongUnlockedScene-01-CPU")
        ∷ ("pfifo", "08-LongUnlockedScene-02-PFIFO")
        ∷ ("alpha_overdraw", "08-LongUnlockedScene-03-AlphaOverdraw")
        ∷ ("streaming_surface_reuse", "08-LongUnlockedScene-04-StreamingSurfaceReuse")
        ∷ ("combined", "08-LongUnlockedScene-05-Combined")
        ∷ ("full_system", "08-LongUnlockedScene-06-FullSystem")
        ∷ [])
      ("scenario" ∷ "performance" ∷ "hardware-safe" ∷ []) "Groups the long-scene stages"

abbrev pub cross_title : List Entry
cross_title =
    staged "game_load.cross_title_hotpath" "09-CrossTitleHotpath" "cross_title"
      (("queued_vertex_cpu_writes", "09-CrossTitleHotpath-01-QueuedVertexCpuWrites")
        ∷ ("pgr2_small_draws", "09-CrossTitleHotpath-02-Pgr2SmallDraws")
        ∷ ("texture_update_reuse", "09-CrossTitleHotpath-03-TextureUpdateReuse")
        ∷ ("surface_reuse", "09-CrossTitleHotpath-04-SurfaceReuse")
        ∷ ("pipeline_state_churn", "09-CrossTitleHotpath-05-PipelineStateChurn")
        ∷ ("blend_constant_reuse", "09-CrossTitleHotpath-06-BlendConstantReuse")
        ∷ ("texture_binding_reuse", "09-CrossTitleHotpath-07-TextureBindingReuse")
        ∷ ("pgr2_lagspot_inline_elements", "09-CrossTitleHotpath-08-Pgr2LagspotInlineElements")
        ∷ ("scaled_surface_pressure", "09-CrossTitleHotpath-09-ScaledSurfacePressure")
        ∷ ("s3tc_streaming_fenced_draws", "09-CrossTitleHotpath-10-S3tcStreamingFencedDraws")
        ∷ ("gpu_wait_control", "09-CrossTitleHotpath-11-GpuWaitControl")
        ∷ [])
      ("scenario" ∷ "performance" ∷ "hardware-safe" ∷ []) "Groups the cross-title stages"

abbrev pub s3tc_sync_factor : List Entry
s3tc_sync_factor =
    staged "game_load.s3tc_sync_factor" "10-S3tcSyncFactor" "s3tc_sync_factor"
      (("dxt1_same_address_wait", "10-S3tcSyncFactor-01-Dxt1SameAddressWait")
        ∷ ("dxt1_same_address_queued", "10-S3tcSyncFactor-02-Dxt1SameAddressQueued")
        ∷ ("dxt1_ring_payload_generations", "10-S3tcSyncFactor-03-Dxt1RingPayloadGenerations")
        ∷ ("dxt1_dirty_once_redraw", "10-S3tcSyncFactor-04-Dxt1DirtyOnceRedraw")
        ∷ ("rgba8_same_address_wait", "10-S3tcSyncFactor-05-Rgba8SameAddressWait")
        ∷ ("rgba8_same_address_queued", "10-S3tcSyncFactor-06-Rgba8SameAddressQueued")
        ∷ ("rgba8_ring_payload_generations", "10-S3tcSyncFactor-07-Rgba8RingPayloadGenerations")
        ∷ ("rgba8_dirty_once_redraw", "10-S3tcSyncFactor-08-Rgba8DirtyOnceRedraw")
        ∷ ("bc2_native_eligible", "10-S3tcSyncFactor-09-Bc2NativeEligible")
        ∷ ("bc2_bordered_fallback", "10-S3tcSyncFactor-10-Bc2BorderedFallback")
        ∷ ("bc3_native_eligible", "10-S3tcSyncFactor-11-Bc3NativeEligible")
        ∷ ("bc3_bordered_fallback", "10-S3tcSyncFactor-12-Bc3BorderedFallback")
        ∷ [])
      ("texture" ∷ "correctness" ∷ "performance" ∷ "hardware-safe" ∷ [])
      "Groups the S3TC matrix cells"

abbrev pub repeated_display : List Entry
repeated_display =
    simple "game_load" "GameLoadComposite"
      (("repeated_display", "12-RepeatedDisplay")
        ∷ ("repeated_display_boosted", "12-RepeatedDisplay-Boosted")
        ∷ [])
      ("scenario" ∷ "performance" ∷ "hardware-safe" ∷ [])

abbrev phases : List (String × String)
phases =
    (("cpu_only", "01-CPUOnly")
      ∷ ("pfifo_only", "02-PFIFOOnly")
      ∷ ("gpu_only", "03-GPUOnly")
      ∷ ("streaming_only", "04-StreamingOnly")
      ∷ ("cpu_pfifo_gpu", "05-CPUPFIFOGPU")
      ∷ ("cpu_pfifo_gpu_streaming", "06-CPUPFIFOGPUStreaming")
      ∷ ("full_system", "07-FullSystem")
      ∷ [])

abbrev phase_pair : String → String → String × String → String × String
phase_pair stable legacy (phase, suffix) = (stable <> ("." <> phase), legacy <> ("-" <> suffix))

abbrev phase_leaves : String × String → List Entry
phase_leaves (stable, legacy) =
    simple "game_load" "GameLoadComposite" (map (phase_pair stable legacy) phases)
      ("scenario" ∷ "performance" ∷ "hardware-safe" ∷ [])

abbrev pub phase_entries : List Entry
phase_entries = each phase_leaves (
    ("doax_menu_representative", "DoaxMenuRepresentative")
    ∷ ("doax_menu_stress", "DoaxMenuStress")
    ∷ ("pgr2_ai_backup", "Pgr2AiBackup")
    ∷ [])
