-- ===== src/Audio/Wanted.antt =====
-- What `_intended_paths` of utils/audio_torture_cases.py gives for the families of cases.
use xemu_perf_tests.Base.{
  Bool, true, false, not, String, str_eq, str_eq_self, eq_of-str_eq, Option-cases, Option, some,
  none, List, [], ◌∷◌, ◌++◌, All, contains, lookup, Bool-cases, ◌≡◌, refl, sym, ap, ◌∙◌, inl, inr,
  string_dec,
}
use xemu_perf_tests.Base.Int.{pos}
use xemu_perf_tests.Base.Text.{starts_with, remove_prefix}
use xemu_perf_tests.Base.Result.{ok, >>=-eq-ok, ok_inj}
use xemu_perf_tests.Json.{Json, null, int, str, get}
use xemu_perf_tests.Json.Equality.{py_eq}
use xemu_perf_tests.Oracle.View.{item}
use xemu_perf_tests.Audio.{
  Family, Case, mode_paths, pipeline_paths, control_paths, family_paths, other_paths,
  intended_paths, path_by_control, only_if, unless_silent,
}

-- The first family with the identifier declares the paths.
pub record IsDeclared (id : String) (families : List Family) (paths : List String) : Type 0 where
  pub before : List Family
  pub family : Family
  pub after : List Family
  pub split : families ≡ before ++ family ∷ after
  pub first : All (λ f. str_eq f.id id ≡ false) before
  pub own : family.id ≡ id
  pub paths_own : family.required_paths ≡ paths

-- The families whose paths depend on the case.
abbrev pub driven_families : List String
driven_families = "audio.voice_modes" ∷ "audio.voice_control" ∷ []

-- A scaling case without voices runs nothing; a case of the pipeline runs a voice, the global
-- processor unless it is for the voices only, and the encoder only in its own modes; a case of the
-- modes or the control runs a voice; every other case runs what its family declares.
pub data Wanted (families : List Family) (c : Case) (paths : List String) : Type 0 where
  silent :
      (v : Json)
      → c.family ≡ "audio.vp_scaling"
      → get "voice_count" c.params ≡ some v
      → py_eq v (int (pos 0)) ≡ true
      → paths ≡ []
      → Wanted families c paths
  piped :
      (mode : String)
      → c.family ≡ "audio.gp_ep"
      → get "pipeline_mode" c.params ≡ some (str mode)
      → contains paths "apu.vp.voice" ≡ true
      → contains paths "apu.gp.frame" ≡ not (str_eq mode "vp_only")
      → contains paths "apu.ep.frame" ≡ starts_with mode "vp_gp_ep_"
      → Wanted families c paths
  driven :
      contains driven_families c.family ≡ true
      → contains paths "apu.vp.voice" ≡ true
      → Wanted families c paths
  declared :
      contains ("audio.gp_ep" ∷ driven_families) c.family ≡ false
      → ((v : Json)
          → c.family ≡ "audio.vp_scaling"
          → get "voice_count" c.params ≡ some v
          → py_eq v (int (pos 0)) ≡ false)
      → IsDeclared c.family families paths
      → Wanted families c paths

family_paths-IsDeclared :
    (id : String) (families : List Family) (paths : List String)
    → family_paths id families ≡ ok paths
    → IsDeclared id families paths
unfolding family_paths
family_paths-IsDeclared id [] paths h = cc
family_paths-IsDeclared id (f ∷ fs) paths h = elim (Bool-cases (str_eq f.id id)) [
  | inl here ↦ record {
    before = [];
    family = f;
    after = fs;
    split = refl;
    first = tt;
    own = eq_of-str_eq f.id id here;
    paths_own = ok_inj (rw here at h);
  }
  | inr other ↦
      let d = family_paths-IsDeclared id fs paths (rw other at h) in
      record {
        before = f ∷ d.before;
        family = d.family;
        after = d.after;
        split = rw d.split refl;
        first = (other, d.first);
        own = d.own;
        paths_own = d.paths_own;
      }
]

mode_paths-voice : (mode : String) → contains (mode_paths mode) "apu.vp.voice" ≡ true
unfolding mode_paths string_dec
mode_paths-voice mode = refl

control_paths-voice :
    (v : Json) (paths : List String)
    → control_paths v ≡ ok paths
    → contains paths "apu.vp.voice" ≡ true
unfolding control_paths string_dec
control_paths-voice (str control) paths h = elim (Option-cases (lookup control path_by_control)) [
  | inl unknown ↦ let bad = rw unknown at h in cc
  | inr (path, known) ↦
      let e : "apu.vp.voice" ∷ path ∷ [] ≡ paths = ok_inj (rw known at h) in rw (← e) refl
]
control_paths-voice v paths h = cc

record IsPiped (v : Json) (paths : List String) : Type 0 where
  mode : String
  text : v ≡ str mode
  voice : contains paths "apu.vp.voice" ≡ true
  frame : contains paths "apu.gp.frame" ≡ not (str_eq mode "vp_only")
  encoder : contains paths "apu.ep.frame" ≡ starts_with mode "vp_gp_ep_"

stages : Bool → Bool → List String
stages processed encoded =
    "apu.vp.voice" ∷ "apu.vp.mix" ∷ only_if processed ("apu.gp.frame" ∷ "apu.dma" ∷ [])
    ++ only_if encoded ("apu.ep.frame" ∷ [])

contains-stages :
    (processed encoded : Bool)
    → (contains (stages processed encoded) "apu.vp.voice" ≡ true)
      × (contains (stages processed encoded) "apu.gp.frame" ≡ processed)
      × (contains (stages processed encoded) "apu.ep.frame" ≡ encoded)
unfolding stages string_dec
contains-stages true true = (refl, refl, refl)
contains-stages true false = (refl, refl, refl)
contains-stages false true = (refl, refl, refl)
contains-stages false false = (refl, refl, refl)

pipeline_paths-IsPiped :
    (v : Json) (paths : List String) → pipeline_paths v ≡ ok paths → IsPiped v paths
unfolding pipeline_paths stages
pipeline_paths-IsPiped (str mode) paths h =
    let e : stages (not (str_eq mode "vp_only")) (starts_with mode "vp_gp_ep_") ≡ paths =
      ok_inj h in
    let (voice, frame, encoder) =
      contains-stages (not (str_eq mode "vp_only")) (starts_with mode "vp_gp_ep_") in
    record {
      mode = mode;
      text = refl;
      voice = rw (← e) voice;
      frame = rw (← e) frame;
      encoder = rw (← e) encoder;
    }
pipeline_paths-IsPiped v paths h = cc

item-eq-ok : (key : String) (o : Option Json) (v : Json) → item key o ≡ ok v → o ≡ some v
unfolding item
item-eq-ok key none v h = cc
item-eq-ok key (some w) v h = ap some (ok_inj h)

value_of : Option Json → Json
value_of none = null
value_of (some v) = v

some_inj : {v w : Json} → some v ≡ some w → v ≡ w
unfolding value_of
some_inj h = ap value_of h

module _ (families : List Family) (c : Case) (paths : List String) where
  other_paths-Wanted :
      ((v : Json)
        → c.family ≡ "audio.vp_scaling"
        → get "voice_count" c.params ≡ some v
        → py_eq v (int (pos 0)) ≡ false)
      → other_paths families c ≡ ok paths
      → Wanted families c paths
  unfolding other_paths
  other_paths-Wanted voiced h = elim (Bool-cases (str_eq c.family "audio.gp_ep")) [
    | inl gp ↦
        let (v, i, h1) =
          >>=-eq-ok (item "pipeline_mode" (get "pipeline_mode" c.params)) pipeline_paths
            (rw gp at h) in
        let p = pipeline_paths-IsPiped v paths h1 in
        piped p.mode (eq_of-str_eq _ _ gp) (rw (← p.text) (item-eq-ok "pipeline_mode" _ v i))
          p.voice p.frame p.encoder
    | inr no_gp ↦ elim (Bool-cases (str_eq c.family "audio.voice_modes")) [
      | inl modes ↦
          let e : mode_paths (remove_prefix c.id "audio.voice_modes.") ≡ paths =
            ok_inj (rw (no_gp, modes) at h) in
          driven (rw modes refl) (rw (← e) (mode_paths-voice _))
      | inr no_modes ↦ elim (Bool-cases (str_eq c.family "audio.voice_control")) [
        | inl control ↦
            let (v, i, h1) =
              >>=-eq-ok (item "control_sequence" (get "control_sequence" c.params)) control_paths
                (rw (no_gp, no_modes, control) at h) in
            driven (rw (no_modes, control) refl) (control_paths-voice v paths h1)
        | inr no_control ↦ declared (rw (no_gp, no_modes, no_control) refl) voiced (
            family_paths-IsDeclared c.family families paths (rw (no_gp, no_modes, no_control) at h))
      ]
    ]
  ]

  -- What `_intended_paths` returns is what is wanted of the case.
  pub intended_paths-Wanted : intended_paths families c ≡ ok paths → Wanted families c paths
  unfolding intended_paths
  intended_paths-Wanted h = elim (Bool-cases (str_eq c.family "audio.vp_scaling")) [
    | inr other ↦
        other_paths-Wanted
          (λ v scaling there. let bad : true ≡ false = rw (scaling, str_eq_self) at other in cc)
          (rw other at h)
    | inl scaling ↦
        let (v, i, h1) =
          >>=-eq-ok (item "voice_count" (get "voice_count" c.params)) (unless_silent families c)
            (rw scaling at h) in
        let there : get "voice_count" c.params ≡ some v = item-eq-ok "voice_count" _ v i in
        elim (Bool-cases (py_eq v (int (pos 0)))) [
          | inl none_run ↦
              silent v (eq_of-str_eq _ _ scaling) there none_run (sym (ok_inj (rw none_run at h1)))
          | inr some_run ↦
              other_paths-Wanted
                (λ w e found.
                  let same : v ≡ w = some_inj (sym there ∙ found) in rw (← same) some_run)
                (rw some_run at h1)
        ]
  ]
