-- ===== src/Audio/Validate.antt =====
-- `validate` of utils/audio_torture_cases.py.
use Prim.Native.Char.{Char, code}
use xemu_perf_tests.Base.{
  ℕ, ◌+◌, ◌*◌, ◌^◌, ◌==◌, ltb, leb, Bool, true, false, not, ◌&&◌, ◌||◌, String, ◌<>◌, str_eq,
  Option, none, some, List, [], ◌∷◌, contains, all, any, lookup, if◌then◌else◌,
}
use xemu_perf_tests.Base.Int.{pos, negsuc}
use xemu_perf_tests.Base.Text.{is_blank}
use xemu_perf_tests.Base.Result.{Result, ok, err, invalid, crash, guard, ◌>>=◌, ◌>>◌}
use xemu_perf_tests.Json.{Json, null, bool, int, float, str, obj, end, field, get, get_null, has}
use xemu_perf_tests.Json.Equality.{py_eq}
use xemu_perf_tests.Oracle.View.{get_or, is_str}
use xemu_perf_tests.Compare.Records.{truthy}
use xemu_perf_tests.Audio.{Family, Backend, Matrix, Case, intended_paths}

-- `ID_RE`: `[a-z0-9_.]+`
abbrev is_id_char : Char → Bool
is_id_char c =
    (leb 97 (code c) && leb (code c) 122)
    || (leb 48 (code c) && leb (code c) 57)
    || code c == 95
    || code c == 46

abbrev id_chars : String → Bool
id_chars String.[] = true
id_chars (String.◌∷◌ c s) = is_id_char c && id_chars s

abbrev pub is_id : String → Bool
is_id s = not (is_blank s) && id_chars s

-- `v > n`
unfoldable pub exceeds : Json → ℕ → Result Bool
exceeds (bool b) n = ok (ltb n (if b then 1 else 0))
exceeds (int (pos m)) n = ok (ltb n m)
exceeds (int (negsuc m)) n = ok false
exceeds (float (pos m) k) n = ok (ltb (n * 2 ^ k) m)
exceeds (float (negsuc m) k) n = ok false
exceeds v n = err (crash "TypeError: '>' not supported")

-- `v >= n`, for n > 0
unfoldable pub reaches : Json → ℕ → Result Bool
reaches (bool b) n = ok (leb n (if b then 1 else 0))
reaches (int (pos m)) n = ok (leb n m)
reaches (int (negsuc m)) n = ok false
reaches (float (pos m) k) n = ok (leb (n * 2 ^ k) m)
reaches (float (negsuc m) k) n = ok false
reaches v n = err (crash "TypeError: '<=' not supported")

-- The dict `family_by_id`: the last family of an identifier stays.
abbrev later : Option Family → Option Family → Option Family
later none f = f
later (some g) f = some g

abbrev pub family_by_id : String → List Family → Option Family
family_by_id id [] = none
family_by_id id (f ∷ fs) = later (family_by_id id fs) (if str_eq id f.id then some f else none)

abbrev pub found_family : String → Option Family → Result Family
found_family id none = err (invalid ("unknown family for " <> id))
found_family id (some f) = ok f

abbrev pub found_backend : String → Option Backend → Result Backend
found_backend id none = err (invalid ("unknown backend for " <> id))
found_backend id (some b) = ok b

abbrev pub paths_eq : List String → List String → Bool
paths_eq [] [] = true
paths_eq (p ∷ ps) (q ∷ qs) = str_eq p q && paths_eq ps qs
paths_eq _ _ = false

abbrev pub has_paths : Option (List String) → List String → Bool
has_paths none paths = false
has_paths (some ps) paths = paths_eq ps paths

-- The first half of the loop's body: identity, family, backend and paths.
unfoldable pub check_identity : List String → Case → Result (Unit {0})
check_identity ids c = do
  guard (str_eq c.implementation_state "planned")
      (invalid ("planned case claims executable coverage: " <> c.id))
  guard (not (contains ids c.id)) (invalid ("duplicate planned case id: " <> c.id))
  guard (is_id c.id) (invalid ("invalid planned case id: " <> c.id))

unfoldable pub check_paths : Matrix → Case → Result Backend
unfolding intended_paths
check_paths m c = do
  family ← found_family c.id (family_by_id c.family m.families)
  guard (str_eq c.backend family.backend) (invalid ("backend mismatch for " <> c.id))
  backend ← found_backend c.id (lookup c.backend m.backends)
  expected ← intended_paths m.families c
  guard (has_paths c.required_paths expected) (invalid ("incorrect intended paths for " <> c.id))
  guard (all (contains backend.legitimate_paths) expected)
      (invalid ("unsupported intended path for " <> c.id))
  ok backend

abbrev pub voices_of : Case → Json
voices_of c = get_or (int (pos 0)) (get "voice_count" c.params)

abbrev pub three_d_voices_of : Case → Json
three_d_voices_of c =
    get_or
      (if truthy (get_null "enable_3d" c.params) || truthy (get_null "enable_hrtf" c.params)
        then voices_of c
        else int (pos 0))
      (get "three_d_voice_count" c.params)

abbrev pub is_raw : Case → Bool
is_raw c = str_eq c.backend "mcpx_apu_raw"

abbrev pub over_limit : Matrix → Case → Result Bool
over_limit m c = if is_raw c then exceeds (voices_of c) m.max_voices else ok false

unfoldable pub check_voices : Matrix → Case → Result (Unit {0})
unfolding exceeds
check_voices m c = do
  over ← over_limit m c
  guard (not over) (invalid ("voice count exceeds MCPX limit for " <> c.id))
  over_3d ← exceeds (three_d_voices_of c) m.max_3d_voices
  guard (not over_3d) (invalid ("3D/HRTF voice count exceeds MCPX limit for " <> c.id))

abbrev is_null : Json → Bool
is_null null = true
is_null v = false

abbrev pub raw_format : Case → Json
raw_format c = obj (
    field "sample_format" (get_null "sample_format" c.params)
      (field "channels" (get_null "channels" c.params) end))

abbrev one_of : List Json → Json → Bool
one_of vs v = any (λ w. py_eq v w) vs

unfoldable pub check_fanout : Matrix → Case → Result (Unit {0})
unfolding reaches exceeds
check_fanout m c = do
  let fanout = get_null "mixbin_fanout" c.params
  low ← if is_null fanout then ok true else reaches fanout 1
  high ← if is_null fanout || not low then ok false else exceeds fanout m.max_mixbins_per_voice
  guard (low && not high) (invalid ("mixbin fanout exceeds MCPX limit for " <> c.id))

unfoldable pub check_allocation : Matrix → Case → Result (Unit {0})
unfolding py_eq
check_allocation m c = do
  let attempt = get_null "allocation_attempt_count" c.params
  let failure = get_or (bool false) (get "expected_allocation_failure" c.params)
  guard
      ((is_null attempt && not (truthy failure))
        || (str_eq c.family "audio.vp_scaling"
            && truthy failure
            && py_eq attempt (int (pos (m.max_voices + 1)))
            && py_eq (voices_of c) (int (pos m.max_voices))))
      (invalid ("invalid allocation-boundary probe for " <> c.id))

unfoldable pub check_raw : Matrix → Backend → Case → Result (Unit {0})
unfolding check_fanout check_allocation py_eq
check_raw m backend c = do
  let format = get_null "sample_format" c.params
  let channels = get_null "channels" c.params
  guard (not (truthy format) || any (λ f. py_eq format (str f)) m.formats)
      (invalid ("unsupported planned VP sample format for " <> c.id))
  guard ((is_null format && is_null channels) || one_of backend.supported_formats (raw_format c))
      (invalid ("unsupported raw format/channel pair for " <> c.id))
  check_fanout m c
  check_allocation m c

abbrev apu_only : List String
apu_only =
    "voice_count" ∷ "container_format" ∷ "enable_3d" ∷ "enable_hrtf" ∷ "mixbin_fanout"
    ∷ "three_d_voice_count" ∷ "control_sequence" ∷ "pipeline_mode" ∷ "enable_filter"
    ∷ "mutate_voice_state" ∷ []

abbrev ac97_format : Case → Json
ac97_format c = obj (
    field "sample_format" (get_null "sample_format" c.params) (
      field "channels" (get_null "channels" c.params)
        (field "sample_rate_hz" (get_null "sample_rate_hz" c.params) end)))

unfoldable pub check_ac97 : Backend → Case → Result (Unit {0})
unfolding py_eq
check_ac97 backend c = do
  guard (one_of backend.supported_formats (ac97_format c))
      (invalid ("AC97 case overclaims NXDK XAudio format for " <> c.id))
  guard (not (any (λ key. has key c.params) apu_only))
      (invalid ("AC97 case contains APU-only parameters: " <> c.id))

unfoldable pub check_backend : Matrix → Backend → Case → Result (Unit {0})
unfolding check_raw check_ac97
check_backend m backend c =
    if is_raw c
    then check_raw m backend c
    else if str_eq c.backend "ac97_dma"
    then check_ac97 backend c
    else ok tt

unfoldable pub check_case : Matrix → List String → Case → Result (Unit {0})
unfolding check_identity check_paths check_voices check_backend
check_case m ids c = do
  check_identity ids c
  backend ← check_paths m c
  check_voices m c
  check_backend m backend c

-- The loop, with the identifiers seen so far.
unfoldable pub check_cases : Matrix → List String → List Case → Result (Unit {0})
unfolding check_case
check_cases m ids [] = ok tt
check_cases m ids (c ∷ cs) = do check_case m ids c; check_cases m (c.id ∷ ids) cs

abbrev pub probes_gap : Case → Bool
probes_gap c = is_str "get_voice_position" (get_null "control_sequence" c.params)

unfoldable pub validate : Matrix → List Case → Result (Unit {0})
unfolding check_cases
validate m cases = do
  check_cases m [] cases
  guard (not m.normal_gate_allowed)
      (invalid "GET_VOICE_POSITION must remain outside the normal gate while xemu asserts")
  guard (not (any probes_gap cases))
      (invalid "GET_VOICE_POSITION is a known-gap probe, not a normal planned case")
