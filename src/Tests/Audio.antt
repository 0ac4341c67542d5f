-- ===== src/Tests/Audio.antt =====
-- The theorems on utils/audio_torture_cases.py at a matrix with one value on most axes. The families
-- and the backends' paths are those of resources/audio_torture_matrix.json.
use xemu_perf_tests.Base.{ℕ, String, List, [], ◌∷◌, All, any, false, ◌≡◌, refl, string_dec}
use xemu_perf_tests.Base.Int.{pos}
use xemu_perf_tests.Base.Result.{Result, ok, err}
use xemu_perf_tests.Json.{Json, int, str, obj, end, field}
use xemu_perf_tests.Audio.{Family, Matrix, Case}
use xemu_perf_tests.Audio.Build.{build_cases}
use xemu_perf_tests.Audio.Validate.{validate, probes_gap}
use xemu_perf_tests.Audio.Sound.{IsValid, NewIds, validate_sound}

abbrev family : String → String → List String → Family
family id backend paths = record { id = id; backend = backend; required_paths = paths }

abbrev families : List Family
families =
    family "audio.ac97_dma" "ac97_dma" ("ac97.descriptor" ∷ [])
    ∷ family "audio.vp_scaling" "mcpx_apu_raw" ("apu.vp.voice" ∷ "apu.vp.mix" ∷ [])
    ∷ family "audio.format_rate" "mcpx_apu_raw" ("apu.vp.voice" ∷ "apu.vp.resample" ∷ [])
    ∷ family "audio.pitch_resample" "mcpx_apu_raw" ("apu.vp.resample" ∷ [])
    ∷ family "audio.buffer_boundary" "mcpx_apu_raw" ("apu.vp.sge_read" ∷ [])
    ∷ family "audio.streaming_dma" "mcpx_apu_raw" ("apu.vp.sge_read" ∷ "apu.dma" ∷ [])
    ∷ family "audio.mixbin_fanout" "mcpx_apu_raw" ("apu.vp.mix" ∷ [])
    ∷ family "audio.filter_envelope" "mcpx_apu_raw" ("apu.vp.filter" ∷ [])
    ∷ family "audio.hrtf_3d" "mcpx_apu_raw" ("apu.vp.hrtf" ∷ "apu.vp.mix" ∷ [])
    ∷ family "audio.voice_modes" "mcpx_apu_raw" (
        "apu.vp.mode.stream" ∷ "apu.vp.mode.loop" ∷ "apu.vp.mode.linked" ∷ "apu.vp.mode.persist"
        ∷ "apu.vp.mode.clear_mix" ∷ "apu.vp.mode.multipass" ∷ [])
    ∷ family "audio.voice_control" "mcpx_apu_raw" (
        "apu.vp.control.lock" ∷ "apu.vp.control.on_off" ∷ "apu.vp.control.pause"
        ∷ "apu.vp.control.release" ∷ [])
    ∷ family "audio.voice_churn" "mcpx_apu_raw"
        ("apu.vp.voice" ∷ "apu.lock_wait" ∷ "apu.worker_wait" ∷ [])
    ∷ family "audio.memory_locality" "mcpx_apu_raw" ("apu.vp.sge_read" ∷ [])
    ∷ family "audio.gp_ep" "mcpx_apu_raw" ("apu.gp.frame" ∷ "apu.ep.frame" ∷ "apu.dma" ∷ [])
    ∷ family "audio.everything_max" "mcpx_apu_raw" (
        "apu.vp.voice" ∷ "apu.vp.mix" ∷ "apu.vp.sge_read" ∷ "apu.gp.frame" ∷ "apu.ep.frame"
        ∷ "apu.dma" ∷ [])
    ∷ []

abbrev pair : String → ℕ → Json
pair format channels =
    obj (field "sample_format" (str format) (field "channels" (int (pos channels)) end))

abbrev matrix : Matrix
matrix = record {
  ac97_refill_bytes = 32 ∷ [];
  memory_layouts = "shared" ∷ [];
  voice_count_sweep = 0 ∷ 256 ∷ [];
  source_rates_hz = 8000 ∷ [];
  vp_buffer_samples = 31 ∷ [];
  mixbin_fanout = 8 ∷ [];
  format_voice_counts = 1 ∷ [];
  rate_probe_voice_count = 64;
  streaming_cases = record { voice_count = 1; refill_samples = 32 } ∷ [];
  filter_voice_counts = 1 ∷ [];
  hrtf_voice_counts = 64 ∷ [];
  voice_modes = "buffer_linear" ∷ "stream_loop" ∷ [];
  voice_control = "release" ∷ [];
  churn_voice_counts = 32 ∷ [];
  gp_ep_modes = "vp_gp_ep_stereo" ∷ [];
  families = families;
  backends =
      (
        "ac97_dma",
        record {
          legitimate_paths = "ac97.descriptor" ∷ "ac97.irq" ∷ "ac97.underrun" ∷ [];
          supported_formats =
              obj (
                field "sample_format" (str "s16")
                  (field "channels" (int (pos 2)) (field "sample_rate_hz" (int (pos 48000)) end)))
              ∷ [];
        },
      )
      ∷ (
        "mcpx_apu_raw",
        record {
          legitimate_paths =
              "apu.vp.voice" ∷ "apu.vp.decode.pcm8" ∷ "apu.vp.decode.pcm16" ∷ "apu.vp.decode.pcm24"
              ∷ "apu.vp.decode.adpcm" ∷ "apu.vp.resample" ∷ "apu.vp.filter" ∷ "apu.vp.hrtf"
              ∷ "apu.vp.mix" ∷ "apu.vp.sge_read" ∷ "apu.gp.frame" ∷ "apu.ep.frame" ∷ "apu.dma"
              ∷ "apu.lock_wait" ∷ "apu.worker_wait" ∷ "apu.vp.decode.pcm32" ∷ "apu.vp.mode.stream"
              ∷ "apu.vp.mode.loop" ∷ "apu.vp.mode.linked" ∷ "apu.vp.mode.persist"
              ∷ "apu.vp.mode.clear_mix" ∷ "apu.vp.mode.multipass" ∷ "apu.vp.control.lock"
              ∷ "apu.vp.control.on_off" ∷ "apu.vp.control.pause" ∷ "apu.vp.control.release" ∷ [];
          supported_formats =
              pair "u8" 1
              ∷ pair "u8" 2
              ∷ pair "s16" 1
              ∷ pair "s16" 2
              ∷ pair "s24" 1
              ∷ pair "s24" 2
              ∷ pair "s32" 1
              ∷ pair "s32" 2
              ∷ pair "adpcm" 1
              ∷ pair "adpcm" 2
              ∷ [];
        },
      )
      ∷ [];
  max_voices = 256;
  max_3d_voices = 64;
  max_mixbins_per_voice = 8;
  formats = "u8" ∷ "s16" ∷ "s24" ∷ "s32" ∷ "adpcm" ∷ [];
  normal_gate_allowed = false;
}

abbrev cases_of : Result (List Case) → List Case
cases_of (ok cs) = cs
cases_of (err e) = []

cases : List Case
unfolding build_cases string_dec
cases = cases_of (build_cases matrix)

cases_valid : validate matrix cases ≡ ok tt
unfolding cases validate
cases_valid = refl

validate_sound_example :
    All (IsValid matrix) cases × NewIds [] cases × (false ≡ false) × (any probes_gap cases ≡ false)
validate_sound_example = validate_sound matrix cases cases_valid
