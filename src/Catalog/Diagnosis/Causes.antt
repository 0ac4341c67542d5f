-- ===== src/Catalog/Diagnosis/Causes.antt =====
-- The dicts of causes in `failure_diagnosis` of utils/test_catalog.py.
use xemu_perf_tests.Base.{ℕ, zero, suc, String, ◌<>◌, none, some, List, [], ◌∷◌, lookup}
use xemu_perf_tests.Base.Result.{Result, ok, err, crash}

abbrev pub meanings : List (String × String)
meanings =
    ("growth", "live Vulkan memory did not grow only as the fixed working set was created")
    ∷ ("plateau", "memory failed to stabilize after the working set became steady")
    ∷ ("alias_resize", "resized or aliased views retained stale allocations/data")
    ∷ ("reuse", "compatible resources were not safely reused")
    ∷ ("idle_retention", "idle resources were retained or reclaimed outside the declared policy")
    ∷ []

abbrev pub hotpath_causes : List (String × String)
hotpath_causes =
    (
      "queued_vertex_cpu_writes",
      "CPU-written vertex generations, dirty ranges, queued uploads, and host-buffer lifetime",
    )
    ∷ (
      "pgr2_small_draws",
      "tiny-draw dispatch, redundant state suppression, vertex allocation, and pipeline binding",
    )
    ∷ (
      "texture_update_reuse",
      "texture dirty tracking, same-address replacement, cache keys, and upload reuse",
    )
    ∷ (
      "surface_reuse",
      "surface compatibility keys, attachment ownership, dirty transitions, and fence-safe reuse",
    )
    ∷ (
      "pipeline_state_churn",
      "shader/pipeline key normalization, cache invalidation, and redundant bind suppression",
    )
    ∷ (
      "blend_constant_reuse",
      "blend-constant comparison, dynamic-state dirtiness, and command emission",
    )
    ∷ (
      "texture_binding_reuse",
      "descriptor identity, texture-stage dirtiness, and stale binding reuse",
    )
    ∷ (
      "pgr2_lagspot_inline_elements",
      "inline element packet decode, bulk method handling, index expansion, and small-draw submission",
    )
    ∷ (
      "scaled_surface_pressure",
      "scaled extent math, surface copies, aliasing, attachment cache pressure, and readback",
    )
    ∷ (
      "s3tc_streaming_fenced_draws",
      "compressed upload/fallback selection, staging lifetime, fences, and repeated streaming generations",
    )
    ∷ (
      "gpu_wait_control",
      "finish reason, report/fence completion, queue submission, and CPU wait accounting",
    )
    ∷ []

abbrev pub scene_causes : List (String × String)
scene_causes =
    ("cpu", "TCG execution, branches, MMIO callbacks, and guest timing")
    ∷ ("pfifo", "push-buffer decode, method dispatch, FIFO stalls, and PFIFO/PGRAPH locks")
    ∷ (
      "alpha_overdraw",
      "blend state, depth ordering, fragment coverage, and fill/host-GPU execution",
    )
    ∷ (
      "streaming_surface_reuse",
      "surface/texture generations, uploads, alias ownership, and cache reuse",
    )
    ∷ ("combined", "CPU-to-PFIFO overlap, renderer synchronization, and critical-path lock waits")
    ∷ (
      "full_system",
      "combined CPU, PFIFO, renderer, streaming, completion, and lifecycle interactions",
    )
    ∷ []

abbrev pub phase_causes : List (String × String)
phase_causes =
    ("cpu_only", "TCG/TB execution, branches, MMIO, and guest timer behavior")
    ∷ (
      "pfifo_only", "push-buffer parsing, method dispatch, FIFO progress, and PFIFO/PGRAPH locking",
    )
    ∷ ("gpu_only", "draw state, shader/pipeline translation, attachments, and host GPU completion")
    ∷ ("streaming_only", "dirty ranges, texture/surface uploads, cache reuse, and memory ownership")
    ∷ (
      "cpu_pfifo_gpu",
      "CPU/PFIFO/renderer scheduling, synchronization, and critical-path lock handoffs",
    )
    ∷ (
      "cpu_pfifo_gpu_streaming",
      "combined scheduling plus resource generations, transfers, and alias hazards",
    )
    ∷ (
      "full_system",
      "all prior domains plus lifecycle, pacing, and accumulated state between phases",
    )
    ∷ []

-- `parts[n]`
abbrev pub nth : ℕ → List String → Result String
nth n [] = err (crash "IndexError: list index out of range")
nth zero (s ∷ ss) = ok s
nth (suc n) (s ∷ ss) = nth n ss

-- `causes[key]`
abbrev pub cause : String → List (String × String) → Result String
cause key causes = elim (lookup key causes) [
  | none ↦ err (crash ("KeyError: " <> key))
  | some t ↦ ok t
]

abbrev pub default_text : String
default_text =
    "The deterministic output or completion contract changed. Compare the first failed check and framebuffer hash, then inspect the test's tagged subsystem and the first divergence before changing an oracle."
