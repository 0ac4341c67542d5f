-- ===== src/Catalog/Entries/Cpu.antt =====
-- The entries of `entries` of utils/test_catalog.py on PFIFO, the overlay, the processor and audio.
use xemu_perf_tests.Base.{
  String, ◌<>◌, List, [], ◌∷◌, map, Bool, true, false, ℕ, if◌then◌else◌, contains,
}
use xemu_perf_tests.Base.Numerals.{decimal}
use xemu_perf_tests.Catalog.Entry.{Entry, leaf, simple}

abbrev pub busy_pfifo : List Entry
busy_pfifo =
    simple "busy_pfifo" "BusyPfifo"
      (("pfifo_saturation", "PFIFOSaturation")
        ∷ ("pgraph_pattern_polling", "PgraphPatternPolling")
        ∷ [])
      ("pfifo" ∷ "performance" ∷ "hardware-safe" ∷ [])

abbrev pub pfifo_array_elements : List Entry
pfifo_array_elements =
    simple "pfifo_array_elements" "PFIFOArrayElements"
      (("array_element16", "pfifo.array-element16")
        ∷ ("array_element32", "pfifo.array-element32")
        ∷ ("array_element_pgr2", "pfifo.array-element-pgr2")
        ∷ [])
      ("pfifo" ∷ "gpu" ∷ "performance" ∷ "hardware-safe" ∷ [])

abbrev boundary_leaf : String × String → Entry
boundary_leaf (stable, legacy) =
    leaf ("pfifo_packet_boundary." <> stable) "pfifo_packet_boundary" "PFIFOPacketBoundary" legacy
      "Exercises xemu's controlled PFIFO/PGRAPH packet boundary path."
      ("pfifo" ∷ "gpu" ∷ "correctness" ∷ "xemu-only" ∷ [])

abbrev pub pfifo_packet_boundary : List Entry
pfifo_packet_boundary = map boundary_leaf (
    ("array_element16_overflow", "pfifo.boundary-array-element16")
    ∷ ("array_element32_overflow", "pfifo.boundary-array-element32")
    ∷ ("inline_array_overflow", "pfifo.boundary-inline-array")
    ∷ ("incrementing_inline_fallback", "pfifo.incrementing-inline-fallback")
    ∷ [])

abbrev pvideo_leaf : String × String × String → Entry
pvideo_leaf (stable, legacy, operation) =
    leaf ("pvideo." <> stable) "pvideo" "Pvideo" legacy
      ("Exercises PVIDEO display "
        <> (operation
            <> (" over 1,024 vblank-paced guest frame submissions. "
                <> ("Guest source known answers are checked; the guest framebuffer hash excludes "
                    <> "PVIDEO compositing, so independent host-overlay image checks are required."))))
      ("gpu" ∷ "allocation" ∷ "correctness" ∷ "scenario" ∷ "xemu-only" ∷ [])

abbrev pub pvideo : List Entry
pvideo = map pvideo_leaf (
    ("steady_upload", "SteadyUpload", "same-size uploads, source mutation and address switching")
    ∷ ("resize_toggle", "ResizeToggle", "resizing and overlay disable/re-enable")
    ∷ [])

abbrev pub cpu_floating_point : List Entry
cpu_floating_point =
    simple "cpu_floating_point" "CpuFloatingPoint"
      (("sse_scalar", "SSEScalar") ∷ ("x87_scalar", "X87Scalar") ∷ [])
      ("cpu" ∷ "performance" ∷ "hardware-safe" ∷ [])

abbrev x87_leaf : String × String × String → Entry
x87_leaf (stable, legacy, description) =
    leaf ("cpu_floating_point." <> stable) "cpu_floating_point" "CpuFloatingPoint" legacy
      description
      (if contains ("x87_status_vectors" ∷ "x87_status_ax" ∷ "x87_compare_status_ax" ∷ []) stable
        then "cpu" ∷ "correctness" ∷ "performance" ∷ "hardware-safe" ∷ []
        else "cpu" ∷ "correctness" ∷ "hardware-safe" ∷ [])

abbrev pub x87_status : List Entry
x87_status = map x87_leaf (
    (
      "x87_status_vectors", "X87StatusVectors",
      "Checks 6153 x87 status/TOP/condition/exception-bit, upper-EAX and cache-lifetime vectors.",
    )
    ∷ (
      "x87_status_ax", "X87StatusAX",
      "Runs 16777168 status-to-AX reads with an independently fixed EAX/checksum oracle.",
    )
    ∷ (
      "x87_compare_status_ax", "X87CompareStatusAX",
      "Runs 16777168 equal comparisons and status-to-AX reads with populated x87 registers.",
    )
    ∷ (
      "x87_exception_status", "X87ExceptionStatus",
      "Checks 384 masked/pending nonwaiting x87 status vectors, including ES/B, TOP and upper EAX.",
    )
    ∷ (
      "x87_fault_checkpoint", "X87FaultCheckpoint",
      "Checks four owned-page faults immediately after dirty x87 arithmetic and FNSTSW AX, including FP state and resumption.",
    )
    ∷ [])

abbrev pub cpu_translation_blocks : List Entry
cpu_translation_blocks =
    simple "cpu_translation_blocks" "CpuTranslationBlocks"
      (("direct_loop", "DirectLoop")
        ∷ ("indirect_dispatch", "IndirectDispatch")
        ∷ ("indirect_dispatch_stress", "IndirectDispatchStress")
        ∷ [])
      ("cpu" ∷ "performance" ∷ "hardware-safe" ∷ [])

abbrev pub code_stable : List Entry
code_stable =
    leaf "cpu_translation_blocks.code_stable" "cpu_translation_blocks" "CpuTranslationBlocks"
      "CodeStable"
      "Executes fifty million calls to unchanged generated code with CPUID serialization and checks the fixed checksum; controls the code-rewrite workload."
      ("cpu" ∷ "performance" ∷ "correctness" ∷ "hardware-safe" ∷ [])
    ∷ []

abbrev pub code_rewrite : List Entry
code_rewrite =
    leaf "cpu_translation_blocks.code_rewrite" "cpu_translation_blocks" "CpuTranslationBlocks"
      "CodeRewrite"
      "Alternates a generated function's return immediate before one million serialized calls and checks a distinct checksum that detects stale code."
      ("cpu" ∷ "performance" ∷ "correctness" ∷ "hardware-safe" ∷ [])
    ∷ []

abbrev jump_cache_leaf : String × String × ℕ × Bool → Entry
jump_cache_leaf (stable, legacy, count, collide) =
    leaf ("cpu_translation_blocks." <> stable) "cpu_translation_blocks" "CpuTranslationBlocks"
      legacy
      ("Runs eight million generated indirect calls across "
        <> (decimal count
            <> (" "
                <> ((if collide then "colliding" else "noncolliding")
                    <> " softmmu jump-cache targets and checks the fixed checksum."))))
      ("cpu" ∷ "performance" ∷ "correctness" ∷ "hardware-safe" ∷ [])

abbrev pub jump_cache : List Entry
jump_cache = map jump_cache_leaf (
    ("jump_cache_collision2", "JumpCacheCollision2", 2, true)
    ∷ ("jump_cache_collision8", "JumpCacheCollision8", 8, true)
    ∷ ("jump_cache_collision10", "JumpCacheCollision10", 10, true)
    ∷ ("jump_cache_noncollision8", "JumpCacheNoncollision8", 8, false)
    ∷ [])

abbrev voice_leaf : String × String → Entry
voice_leaf (stable, legacy) =
    leaf ("mcpx_voice." <> stable) "mcpx_voice" "McpxVoice" legacy
      "Exercises the guest MCPX nonstreaming voice pipeline and checks constant decoded mix output; completion wait is not comparable throughput."
      ("audio" ∷ "correctness" ∷ "xemu-only" ∷ [])

abbrev pub mcpx_voice : List Entry
mcpx_voice = map voice_leaf (
    ("mono_aligned", "MonoAligned")
    ∷ ("stereo_aligned", "StereoAligned")
    ∷ ("mono_page_crossing", "MonoPageCrossing")
    ∷ ("stereo_page_crossing", "StereoPageCrossing")
    ∷ ("pcm_control", "PcmControl")
    ∷ [])
