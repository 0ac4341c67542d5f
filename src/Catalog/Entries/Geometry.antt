-- ===== src/Catalog/Entries/Geometry.antt =====
-- The entries of `entries` of utils/test_catalog.py on vertices, surfaces and draws.
use xemu_perf_tests.Base.{String, ◌<>◌, List, [], ◌∷◌, ℕ, suc}
use xemu_perf_tests.Catalog.Entry.{Entry, leaf, leaf_in, group, simple, each}

abbrev pub high_vertex_count : List Entry
high_vertex_count =
    simple "high_vertex_count" "High vertex count"
      (("arrays", "HighVtxCount-arrays")
        ∷ ("inline_arrays", "HighVtxCount-inlinearrays")
        ∷ ("inline_buffers", "HighVtxCount-inlinebuffers")
        ∷ ("inline_elements", "HighVtxCount-inlineelements")
        ∷ [])
      ("vertex" ∷ "performance" ∷ "hardware-safe" ∷ [])

abbrev primitive_leaves : String × String → List Entry
primitive_leaves (stable, legacy) =
    simple "primitive_type" "PrimitiveType"
      ((stable <> ".fixed_function", "PrimitiveType-" <> legacy)
        ∷ (stable <> ".vertex_shader", "PrimitiveType-" <> (legacy <> "-vsh"))
        ∷ [])
      ("gpu" ∷ "primitive" ∷ "performance" ∷ "hardware-safe" ∷ [])

abbrev pub primitive_type : List Entry
primitive_type = each primitive_leaves (
    ("line_loop", "LLoop")
    ∷ ("line_strip", "LStrip")
    ∷ ("lines", "Lines")
    ∷ ("points", "Points")
    ∷ ("polygon", "Poly")
    ∷ ("quad_strip", "QuadStrip")
    ∷ ("quads", "Quads")
    ∷ ("triangle_fan", "TriFan")
    ∷ ("triangle_strip", "TriStrip")
    ∷ ("triangles", "Tris")
    ∷ [])

abbrev pub texture_cubemap_fallback : List Entry
texture_cubemap_fallback =
    simple "texture_cubemap_fallback" "TextureCubemapFallback"
      (("unbordered_subblock_dxt1", "UnborderedSubblockDxt1")
        ∷ ("bordered_rgba8_size1", "BorderedRgba8Size1")
        ∷ ("bordered_rgba8_size2", "BorderedRgba8Size2")
        ∷ ("bordered_rgba8_size4", "BorderedRgba8Size4")
        ∷ ("bordered_rgba8_size8", "BorderedRgba8Size8")
        ∷ ("bordered_palette_size1", "BorderedPaletteSize1")
        ∷ ("bordered_palette_size2", "BorderedPaletteSize2")
        ∷ ("bordered_palette_size4", "BorderedPaletteSize4")
        ∷ ("bordered_palette_size8", "BorderedPaletteSize8")
        ∷ ("bordered_r6g5b5_size1", "BorderedR6G5B5Size1")
        ∷ ("bordered_r6g5b5_size2", "BorderedR6G5B5Size2")
        ∷ ("bordered_r6g5b5_size4", "BorderedR6G5B5Size4")
        ∷ ("bordered_r6g5b5_size8", "BorderedR6G5B5Size8")
        ∷ [])
      ("texture" ∷ "correctness" ∷ "performance" ∷ "xemu-only" ∷ [])

abbrev pub surface : List Entry
surface =
    simple "surface" "SurfaceRendering"
      (("basic", "SurfaceRendering")
        ∷ ("cpu_read_after_gpu_write", "XemuCpuReadAfterGpuWrite")
        ∷ ("cpu_read_clean_surface", "XemuCpuReadCleanSurface")
        ∷ ("framebuffer_working_set_002", "XemuFramebufferWorkingSet002")
        ∷ ("framebuffer_working_set_008", "XemuFramebufferWorkingSet008")
        ∷ ("framebuffer_working_set_032", "XemuFramebufferWorkingSet032")
        ∷ ("framebuffer_working_set_064", "XemuFramebufferWorkingSet064")
        ∷ ("full_clear_elision_guard", "XemuFullClearElisionGuard")
        ∷ ("overlapping_surface_churn_representative", "XemuOverlappingSurfaceChurnRepresentative")
        ∷ ("overlapping_surface_churn_stress", "XemuOverlappingSurfaceChurnStress")
        ∷ ("partial_channel_clear_guard", "XemuPartialChannelClearGuard")
        ∷ ("surface_download_path", "XemuSurfaceDownloadPath")
        ∷ ("surface_list_lookup_002", "XemuSurfaceListLookup002")
        ∷ ("surface_list_lookup_008", "XemuSurfaceListLookup008")
        ∷ ("surface_list_lookup_032", "XemuSurfaceListLookup032")
        ∷ ("surface_list_lookup_128", "XemuSurfaceListLookup128")
        ∷ [])
      ("surface" ∷ "correctness" ∷ "performance" ∷ "hardware-safe" ∷ [])

abbrev checkpoint_leaves : String → String → String → ℕ → List String → List Entry
checkpoint_leaves variant parent legacy_parent bit [] = []
checkpoint_leaves variant parent legacy_parent bit (checkpoint ∷ rest) =
    leaf_in (parent <> ("." <> checkpoint)) "surface" "SurfaceRendering"
      (legacy_parent <> ("-" <> checkpoint)) ("Measures the " <> (checkpoint <> " checkpoint."))
      ("surface" ∷ "memory-pressure" ∷ "performance" ∷ "xemu-only" ∷ []) legacy_parent parent
      ("memory_pressure_" <> variant) bit
    ∷ checkpoint_leaves variant parent legacy_parent (suc bit) rest

abbrev pressure_entries : String × String → List Entry
pressure_entries (variant, title) =
    let parent = "surface.vulkan_memory_pressure." <> variant in
    let legacy_parent = "XemuVulkanMemoryPressure" <> title in
    group parent "surface" "SurfaceRendering" legacy_parent
      ("Groups the " <> (variant <> " memory-pressure checkpoints; the group has no timing value."))
      ("surface" ∷ "memory-pressure" ∷ "group" ∷ "xemu-only" ∷ [])
    ∷ checkpoint_leaves variant parent legacy_parent 0
        ("growth" ∷ "plateau" ∷ "alias_resize" ∷ "reuse" ∷ "idle_retention" ∷ [])

abbrev pub memory_pressure : List Entry
memory_pressure =
    each pressure_entries (("representative", "Representative") ∷ ("stress", "Stress") ∷ [])

abbrev tiny_leaves : String × String → List Entry
tiny_leaves (stable, legacy) =
    simple "tiny_draw" "TinyDraw"
      ((stable <> ".fixed_function", "TinyDraw-" <> legacy)
        ∷ (stable <> ".vertex_shader", "TinyDraw-" <> (legacy <> "-vsh"))
        ∷ [])
      ("gpu" ∷ "microbenchmark" ∷ "performance" ∷ "hardware-safe" ∷ [])

abbrev pub tiny_draw : List Entry
tiny_draw = each tiny_leaves (
    ("arrays", "arrays")
    ∷ ("inline_arrays", "inlinearrays")
    ∷ ("inline_buffers", "inlinebuffers")
    ∷ ("inline_elements", "inlineelements")
    ∷ [])

abbrev pub uniform_thrash : List Entry
uniform_thrash =
    simple "uniform_thrash" "UniformThrash" (("uniform_thrash", "UniformThrash") ∷ [])
      ("gpu" ∷ "performance" ∷ "hardware-safe" ∷ [])

abbrev pub vertex_buffer_allocation : List Entry
vertex_buffer_allocation =
    simple "vertex_buffer_allocation" "Vertex buffer allocation"
      (("mixed.arrays", "MixedVtxAlloc-arrays")
        ∷ ("mixed.inline_arrays", "MixedVtxAlloc-inlinearrays")
        ∷ ("mixed.inline_buffers", "MixedVtxAlloc-inlinebuffers")
        ∷ ("mixed.inline_elements", "MixedVtxAlloc-inlineelements")
        ∷ ("tiny.arrays", "TinyAlloc-arrays")
        ∷ ("tiny.inline_arrays", "TinyAlloc-inlinearrays")
        ∷ ("tiny.inline_buffers", "TinyAlloc-inlinebuffers")
        ∷ ("tiny.inline_elements", "TinyAlloc-inlineelements")
        ∷ ("disjoint_same_page", "XemuVertexRamDisjointSamePage")
        ∷ [])
      ("vertex" ∷ "allocation" ∷ "performance" ∷ "hardware-safe" ∷ [])

abbrev pub rising_transient_growth : List Entry
rising_transient_growth =
    leaf "vertex_buffer_allocation.rising_transient_growth" "vertex_buffer_allocation"
      "Vertex buffer allocation" "XemuRisingTransientBufferGrowth"
      "Crosses exact Vulkan transient-buffer capacities with repeated small increases and one large increase."
      ("vertex" ∷ "allocation" ∷ "correctness" ∷ "xemu-only" ∷ [])
    ∷ []

abbrev pub ordered_same_page_overwrite : List Entry
ordered_same_page_overwrite =
    leaf "vertex_buffer_allocation.ordered_same_page_overwrite" "vertex_buffer_allocation"
      "Vertex buffer allocation" "XemuVertexRamOrderedSamePageOverwrite"
      "Draws, drains the FIFO without GPU completion, overwrites the same vertex page, and checks both ordered colors."
      ("vertex" ∷ "correctness" ∷ "xemu-only" ∷ [])
    ∷ []

abbrev pub three_generation_overwrite : List Entry
three_generation_overwrite =
    leaf "vertex_buffer_allocation.three_generation_overwrite" "vertex_buffer_allocation"
      "Vertex buffer allocation" "XemuVertexRamThreeGenerations"
      "Rewrites one queued vertex allocation twice and checks all three draw generations."
      ("vertex" ∷ "correctness" ∷ "xemu-only" ∷ [])
    ∷ []

abbrev pub gpu_surface_vertex_attribute_readback : List Entry
gpu_surface_vertex_attribute_readback =
    leaf "vertex_buffer_allocation.gpu_surface_vertex_attribute_readback" "vertex_buffer_allocation"
      "Vertex buffer allocation" "XemuGpuSurfaceVertexAttributeReadback"
      "Uses a GPU-authored surface as a stride-zero diffuse vertex attribute and checks readback before CPU decoding."
      ("vertex" ∷ "surface" ∷ "correctness" ∷ "xemu-only" ∷ [])
    ∷ []
