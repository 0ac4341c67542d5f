-- ===== src/Audio.antt =====
-- utils/audio_torture_cases.py: the matrix of resources/audio_torture_matrix.json, the planned cases
-- and the paths that a case is meant to run.
pub mod Build
pub mod Validate
pub mod Count
pub mod Wanted
pub mod Paths
pub mod Sound
use xemu_perf_tests.Base.{
  ℕ, ◌==◌, Bool, true, false, not, ◌&&◌, ◌||◌, String, ◌<>◌, str_eq, Option, none, some, List, [],
  ◌∷◌, ◌++◌, lookup, if◌then◌else◌,
}
use xemu_perf_tests.Base.Int.{pos}
use xemu_perf_tests.Base.Text.{remove_prefix, starts_with}
use xemu_perf_tests.Base.Result.{Result, ok, err, crash, ◌>>=◌}
use xemu_perf_tests.Json.{Json, int, str, Fields, get}
use xemu_perf_tests.Json.Equality.{py_eq}
use xemu_perf_tests.Oracle.View.{item, is_str}

pub record Family : Type 0 where
  pub id : String
  pub backend : String
  pub required_paths : List String

pub record Backend : Type 0 where
  pub legitimate_paths : List String
  pub supported_formats : List Json

pub record Streaming : Type 0 where
  pub voice_count : ℕ
  pub refill_samples : ℕ

-- The values of the matrix that the code reads: "axes", "curated_case_sets", "families", "backends",
-- "ground_truth" and "known_gaps".
pub record Matrix : Type 0 where
  pub ac97_refill_bytes : List ℕ
  pub memory_layouts : List String
  pub voice_count_sweep : List ℕ
  pub source_rates_hz : List ℕ
  pub vp_buffer_samples : List ℕ
  pub mixbin_fanout : List ℕ
  pub format_voice_counts : List ℕ
  pub rate_probe_voice_count : ℕ
  pub streaming_cases : List Streaming
  pub filter_voice_counts : List ℕ
  pub hrtf_voice_counts : List ℕ
  pub voice_modes : List String
  pub voice_control : List String
  pub churn_voice_counts : List ℕ
  pub gp_ep_modes : List String
  pub families : List Family
  pub backends : List (String × Backend)
  pub max_voices : ℕ
  pub max_3d_voices : ℕ
  pub max_mixbins_per_voice : ℕ
  pub formats : List String
  pub normal_gate_allowed : Bool

-- `_case`, and `required_paths` once they are set.
pub record Case : Type 0 where
  pub id : String
  pub family : String
  pub backend : String
  pub implementation_state : String
  pub params : Fields
  pub required_paths : Option (List String)

abbrev path_by_mode : List (String × String)
path_by_mode =
    ("stream_linear", "apu.vp.mode.stream")
    ∷ ("stream_loop", "apu.vp.mode.stream")
    ∷ ("buffer_loop", "apu.vp.mode.loop")
    ∷ ("linked", "apu.vp.mode.linked")
    ∷ ("persist", "apu.vp.mode.persist")
    ∷ ("clear_mix", "apu.vp.mode.clear_mix")
    ∷ ("multipass", "apu.vp.mode.multipass")
    ∷ []

abbrev pub path_by_control : List (String × String)
path_by_control =
    ("lock_reconfigure", "apu.vp.control.lock")
    ∷ ("on_off", "apu.vp.control.on_off")
    ∷ ("pause_resume", "apu.vp.control.pause")
    ∷ ("release", "apu.vp.control.release")
    ∷ []

abbrev optional : Option String → List String
optional none = []
optional (some path) = path ∷ []

abbrev pub only_if : Bool → List String → List String
only_if true paths = paths
only_if false paths = []

unfoldable pub mode_paths : String → List String
mode_paths mode =
    "apu.vp.voice" ∷ optional (lookup mode path_by_mode)
    ++ only_if (str_eq mode "stream_loop") ("apu.vp.mode.loop" ∷ [])

-- `mode != ...` and `mode.startswith(...)`
unfoldable pub pipeline_paths : Json → Result (List String)
unfolding starts_with
pipeline_paths (str mode) = ok (
    "apu.vp.voice"
      ∷ "apu.vp.mix"
      ∷ only_if (not (str_eq mode "vp_only")) ("apu.gp.frame" ∷ "apu.dma" ∷ [])
    ++ only_if (starts_with mode "vp_gp_ep_") ("apu.ep.frame" ∷ []))
pipeline_paths v = err (crash "AttributeError: object has no attribute 'startswith'")

abbrev known_control : Option String → Result (List String)
known_control none = err (crash "KeyError")
known_control (some path) = ok ("apu.vp.voice" ∷ path ∷ [])

unfoldable pub control_paths : Json → Result (List String)
control_paths (str control) = known_control (lookup control path_by_control)
control_paths v = err (crash "KeyError")

-- `next(f["required_paths"] for f in families if f["id"] == family)`
unfoldable pub family_paths : String → List Family → Result (List String)
family_paths family [] = err (crash "StopIteration")
family_paths family (f ∷ fs) =
    let rest = family_paths family fs in if str_eq f.id family then ok f.required_paths else rest

unfoldable pub other_paths : List Family → Case → Result (List String)
unfolding mode_paths pipeline_paths control_paths family_paths item remove_prefix
other_paths families c =
    if str_eq c.family "audio.gp_ep"
    then item "pipeline_mode" (get "pipeline_mode" c.params) >>= pipeline_paths
    else if str_eq c.family "audio.voice_modes"
    then ok (mode_paths (remove_prefix c.id "audio.voice_modes."))
    else if str_eq c.family "audio.voice_control"
    then item "control_sequence" (get "control_sequence" c.params) >>= control_paths
    else family_paths c.family families

-- No voice, no path.
abbrev pub unless_silent : List Family → Case → Json → Result (List String)
unless_silent families c voices =
    if py_eq voices (int (pos 0)) then ok [] else other_paths families c

-- `_intended_paths`
unfoldable pub intended_paths : List Family → Case → Result (List String)
unfolding other_paths py_eq
intended_paths families c =
    if str_eq c.family "audio.vp_scaling"
    then item "voice_count" (get "voice_count" c.params) >>= unless_silent families c
    else other_paths families c
