-- ===== src/Audio/Build.antt =====
-- `build_cases` of utils/audio_torture_cases.py.
use xemu_perf_tests.Base.{
  ℕ, true, String, ◌<>◌, Option, none, some, List, [], ◌∷◌, ◌++◌, map, lookup,
}
use xemu_perf_tests.Base.Int.{pos}
use xemu_perf_tests.Base.Numerals.{decimal, decimal_padded}
use xemu_perf_tests.Base.Result.{Result, ok, err, crash, ◌>>=◌}
use xemu_perf_tests.Json.{Json, bool, int, str, of_pairs}
use xemu_perf_tests.Audio.{Family, Matrix, Case, intended_paths}

abbrev pub Params : Type 0
Params = List (String × Json)

-- The arguments of a call of `_case`.
pub record Draft : Type 0 where
  pub id : String
  pub family : String
  pub backend : String
  pub params : Params

-- `_case`
abbrev pub planned_case : Draft → Case
planned_case d = record {
  id = d.id;
  family = d.family;
  backend = d.backend;
  implementation_state = "planned";
  params = of_pairs d.params;
  required_paths = none;
}

abbrev draft : String → String → String → Params → Draft
draft id family backend params = record {
  id = id;
  family = family;
  backend = backend;
  params = params;
}

abbrev number : ℕ → Json
number n = int (pos n)

abbrev raw : String → String → Params → Draft
raw id family params = draft id family "mcpx_apu_raw" params

abbrev s16 : ℕ → ℕ → Params → Params
s16 channels rate rest =
    ("sample_format", str "s16")
    ∷ ("channels", number channels)
    ∷ ("sample_rate_hz", number rate)
    ∷ rest

abbrev voices : ℕ → Params → Params
voices n rest = ("voice_count", number n) ∷ rest

abbrev flag : String → String × Json
flag name = (name, bool true)

-- `f".v{n:03d}"`
abbrev v_part : ℕ → String
v_part n = ".v" <> decimal_padded 3 n

abbrev each {ℓ} : {A : Type ℓ} → List A → (A → Draft) → List Draft
each xs f = map f xs

abbrev pub each_of {ℓ} : {A : Type ℓ} → List A → (A → List Draft) → List Draft
each_of [] f = []
each_of (x ∷ xs) f = f x ++ each_of xs f

abbrev labels : List (ℕ × String)
labels = (1, "mono") ∷ (2, "stereo") ∷ []

abbrev pub containers : List (String × String)
containers =
    ("u8", "b8") ∷ ("s16", "b16") ∷ ("s24", "b32") ∷ ("s32", "b32") ∷ ("adpcm", "adpcm") ∷ []

unfoldable pub ac97_cases : Matrix → List Draft
unfolding decimal
ac97_cases m =
    each m.ac97_refill_bytes (λ b.
      draft ("audio.ac97_dma.refill_" <> decimal b <> "b") "audio.ac97_dma" "ac97_dma"
        (s16 2 48000 (("refill_bytes", number b) ∷ [])))
    ++ each m.memory_layouts (λ layout.
      draft ("audio.ac97_dma.layout_" <> layout) "audio.ac97_dma" "ac97_dma"
        (s16 2 48000 (("source_layout", str layout) ∷ [])))

unfoldable pub scaling_cases : Matrix → List Draft
unfolding decimal_padded
scaling_cases m =
    each_of labels (λ l. each m.voice_count_sweep (λ n.
      raw ("audio.vp_scaling.s16_" <> l.1 <> v_part n) "audio.vp_scaling"
        (s16 l.0 48000 (voices n (("source_layout", str "shared") ∷ [])))))
    ++ (raw "audio.vp_scaling.s16_mono.allocation_v257" "audio.vp_scaling" (
          s16 1 48000 (
            voices 256 (
              ("allocation_attempt_count", number 257)
              ∷ flag "expected_allocation_failure"
              ∷ ("source_layout", str "shared")
              ∷ [])))
        ∷ [])

-- The cases of one sample format with its container.
unfoldable pub container_cases : Matrix → String × String → List Draft
unfolding decimal_padded
container_cases m f = each_of labels (λ l. each m.format_voice_counts (λ n.
    raw ("audio.format_rate." <> f.0 <> "_" <> l.1 <> v_part n) "audio.format_rate" (
      ("sample_format", str f.0)
      ∷ ("container_format", str f.1)
      ∷ ("channels", number l.0)
      ∷ ("sample_rate_hz", number 48000)
      ∷ voices n (("source_layout", str "shared") ∷ []))))

unfoldable pub format_cases : Matrix → List Draft
unfolding container_cases decimal decimal_padded
format_cases m =
    each_of containers (container_cases m)
    ++ each m.source_rates_hz (λ rate.
      raw ("audio.format_rate.s16_mono" <> v_part m.rate_probe_voice_count <> ".r" <> decimal rate)
        "audio.format_rate"
        (s16 1 rate (voices m.rate_probe_voice_count (("source_layout", str "shared") ∷ []))))

unfoldable pub signal_cases : Matrix → List Draft
unfolding decimal_padded
signal_cases m =
    each ("near_nyquist_045" ∷ "near_nyquist_049" ∷ []) (λ signal.
      raw ("audio.pitch_resample." <> signal) "audio.pitch_resample"
        (s16 1 48000 (voices 64 (("signal", str signal) ∷ []))))
    ++ each m.vp_buffer_samples (λ n.
      raw ("audio.buffer_boundary.s" <> decimal_padded 3 n) "audio.buffer_boundary" (
        s16 1 48000
          (voices 64 (("buffer_samples", number n) ∷ ("source_layout", str "scattered") ∷ []))))

unfoldable pub stream_cases : Matrix → List Draft
unfolding decimal decimal_padded
stream_cases m =
    each m.streaming_cases (λ e.
      raw
        ("audio.streaming_dma" <> v_part e.voice_count <> ".s" <> decimal_padded 3 e.refill_samples)
        "audio.streaming_dma"
        (s16 1 48000 (
          voices e.voice_count (
            ("refill_samples", number e.refill_samples)
            ∷ ("source_layout", str "scattered")
            ∷ []))))
    ++ each m.mixbin_fanout (λ n.
      raw ("audio.mixbin_fanout.v256.f" <> decimal n) "audio.mixbin_fanout"
        (s16 1 48000 (voices 256 (("mixbin_fanout", number n) ∷ []))))

unfoldable pub filter_cases : Matrix → List Draft
unfolding decimal_padded
filter_cases m =
    each m.filter_voice_counts (λ n.
      raw ("audio.filter_envelope" <> v_part n) "audio.filter_envelope"
        (s16 1 48000 (voices n (flag "enable_filter" ∷ flag "mutate_voice_state" ∷ []))))
    ++ each m.hrtf_voice_counts (λ n. raw ("audio.hrtf_3d" <> v_part n) "audio.hrtf_3d" (
        s16 1 48000
          (voices n (flag "enable_3d" ∷ flag "enable_hrtf" ∷ flag "mutate_voice_state" ∷ []))))

abbrev pub voice_mode_params : List (String × Params)
voice_mode_params =
    ("buffer_linear", [])
    ∷ ("stream_linear", flag "stream" ∷ [])
    ∷ ("buffer_loop", flag "loop" ∷ [])
    ∷ ("stream_loop", flag "stream" ∷ flag "loop" ∷ [])
    ∷ ("linked", flag "linked" ∷ [])
    ∷ ("persist", flag "persist" ∷ [])
    ∷ ("clear_mix", flag "clear_mix" ∷ [])
    ∷ ("multipass", flag "multipass" ∷ [])
    ∷ []

abbrev pub known_mode : Option Params → Result Params
known_mode none = err (crash "KeyError")
known_mode (some params) = ok params

unfoldable pub mode_cases : List String → Result (List Draft)
mode_cases [] = ok []
mode_cases (mode ∷ modes) = do
  params ← known_mode (lookup mode voice_mode_params)
  rest ← mode_cases modes
  ok (
      raw ("audio.voice_modes." <> mode) "audio.voice_modes" (s16 1 48000 (voices 64 params))
      ∷ rest)

unfoldable pub control_cases : Matrix → List Draft
unfolding decimal_padded
control_cases m =
    each m.voice_control (λ control.
      raw ("audio.voice_control." <> control) "audio.voice_control"
        (s16 1 48000 (voices 64 (("control_sequence", str control) ∷ []))))
    ++ each m.churn_voice_counts (λ n.
      raw ("audio.voice_churn" <> v_part n) "audio.voice_churn"
        (s16 1 48000 (voices n (flag "mutate_voice_state" ∷ []))))
    ++ each m.memory_layouts (λ layout.
      raw ("audio.memory_locality.v256." <> layout) "audio.memory_locality"
        (s16 1 48000 (voices 256 (("source_layout", str layout) ∷ []))))
    ++ each m.gp_ep_modes (λ mode.
      raw ("audio.gp_ep." <> mode) "audio.gp_ep"
        (s16 2 48000 (voices 64 (("pipeline_mode", str mode) ∷ []))))

abbrev ceiling : Draft
ceiling = raw "audio.everything_max.ceiling" "audio.everything_max" (
    voices 256 (
      ("three_d_voice_count", number 64)
      ∷ flag "mixed_formats"
      ∷ flag "mixed_rates"
      ∷ ("source_layout", str "scattered")
      ∷ ("mixbin_fanout", number 8)
      ∷ flag "enable_hrtf"
      ∷ flag "enable_filter"
      ∷ flag "mutate_voice_state"
      ∷ ("pipeline_mode", str "vp_gp_ep_surround")
      ∷ []))

-- `case["required_paths"] = _intended_paths(matrix, case)`
unfoldable pub with_paths : List Family → List Case → Result (List Case)
unfolding intended_paths
with_paths families [] = ok []
with_paths families (c ∷ cs) = do
  paths ← intended_paths families c
  rest ← with_paths families cs
  ok (record c { required_paths = some paths } ∷ rest)

abbrev pub all_drafts : Matrix → List Draft → List Draft
all_drafts m modes =
    ac97_cases m
    ++ scaling_cases m
    ++ format_cases m
    ++ signal_cases m
    ++ stream_cases m
    ++ filter_cases m
    ++ modes
    ++ control_cases m
    ++ (ceiling ∷ [])

unfoldable pub build_cases : Matrix → Result (List Case)
unfolding mode_cases with_paths ac97_cases scaling_cases format_cases signal_cases stream_cases
    filter_cases control_cases
build_cases m = do
  modes ← mode_cases m.voice_modes
  with_paths m.families (map planned_case (all_drafts m modes))
