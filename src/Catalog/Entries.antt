-- ===== src/Catalog/Entries.antt =====
-- `entries` of utils/test_catalog.py: the entries in the order in which they are appended.
mod Cpu
mod Gpu
mod Game
mod Geometry
use xemu_perf_tests.Base.{List, [], ◌++◌}
use xemu_perf_tests.Catalog.Entry.{Entry}
use Cpu.{
  busy_pfifo, pfifo_array_elements, pfifo_packet_boundary, pvideo, cpu_floating_point, x87_status,
  cpu_translation_blocks, code_stable, code_rewrite, jump_cache, mcpx_voice,
}
use Gpu.{
  fill_rate, pipeline_texture_switch, palette_only_update, shared_page_overlap, texture_dma_remap,
  palette_dma_remap, report_query, report_dma_guards, shader_lifecycle,
}
use Game.{long_scene, cross_title, s3tc_sync_factor, repeated_display, phase_entries}
use Geometry.{
  high_vertex_count, primitive_type, texture_cubemap_fallback, surface, memory_pressure, tiny_draw,
  uniform_thrash, vertex_buffer_allocation, rising_transient_growth, ordered_same_page_overwrite,
  three_generation_overwrite, gpu_surface_vertex_attribute_readback,
}

unfoldable pub entries : List Entry
entries =
    busy_pfifo ++ pfifo_array_elements ++ pfifo_packet_boundary ++ pvideo ++ cpu_floating_point
    ++ x87_status ++ cpu_translation_blocks ++ code_stable ++ code_rewrite ++ jump_cache
    ++ mcpx_voice ++ fill_rate ++ pipeline_texture_switch ++ palette_only_update
    ++ shared_page_overlap ++ texture_dma_remap ++ palette_dma_remap ++ report_query
    ++ report_dma_guards ++ shader_lifecycle ++ long_scene ++ cross_title ++ s3tc_sync_factor
    ++ repeated_display ++ phase_entries ++ high_vertex_count ++ primitive_type
    ++ texture_cubemap_fallback ++ surface ++ memory_pressure ++ tiny_draw ++ uniform_thrash
    ++ vertex_buffer_allocation ++ rising_transient_growth ++ ordered_same_page_overwrite
    ++ three_generation_overwrite ++ gpu_surface_vertex_attribute_readback
