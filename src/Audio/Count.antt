-- ===== src/Audio/Count.antt =====
-- How many cases `build_cases` of utils/audio_torture_cases.py makes.
use xemu_perf_tests.Base.{
  ℕ, ◌+◌, ◌*◌, suc, String, List, [], ◌∷◌, map, length, length-append, lookup, ◌≡◌, refl, sym, ap,
  ◌∙◌, arith,
}
use xemu_perf_tests.Base.Result.{ok, >>=-eq-ok, ok_inj}
use xemu_perf_tests.Audio.{Family, Matrix, Case, intended_paths}
use xemu_perf_tests.Audio.Build.{
  Draft, planned_case, ac97_cases, scaling_cases, container_cases, format_cases, signal_cases,
  stream_cases, filter_cases, mode_cases, control_cases, with_paths, all_drafts, build_cases,
  each_of, containers, known_mode, voice_mode_params,
}

-- One case for each value of an axis, two for each count of voices of the sweep and the boundary
-- probe, one for each of the ten formats with their channels and each of their counts of voices, two
-- signals near the limit, and the ceiling.
abbrev pub case_count : Matrix → ℕ
case_count m =
    length m.ac97_refill_bytes
    + 2 * length m.memory_layouts
    + 2 * length m.voice_count_sweep
    + 10 * length m.format_voice_counts
    + length m.source_rates_hz
    + length m.vp_buffer_samples
    + length m.streaming_cases
    + length m.mixbin_fanout
    + length m.filter_voice_counts
    + length m.hrtf_voice_counts
    + length m.voice_modes
    + length m.voice_control
    + length m.churn_voice_counts
    + length m.gp_ep_modes
    + 4

length-map {ℓ} : {A : Type ℓ} {B : Type 0} (f : A → B) (xs : List A) → length (map f xs) ≡ length xs
length-map f [] = refl
length-map f (x ∷ xs) = ap suc (length-map f xs)

length-mode_cases :
    (modes : List String) (ds : List Draft) → mode_cases modes ≡ ok ds → length ds ≡ length modes
unfolding mode_cases
length-mode_cases [] ds h = rw (← ok_inj h) refl
length-mode_cases (mode ∷ modes) ds h =
    let (params, p, h1) = >>=-eq-ok (known_mode (lookup mode voice_mode_params)) _ h in
    let (rest, r, h2) = >>=-eq-ok (mode_cases modes) _ h1 in
    sym (ap length (ok_inj h2)) ∙ ap suc (length-mode_cases modes rest r)

length-with_paths :
    (families : List Family) (cs ds : List Case)
    → with_paths families cs ≡ ok ds
    → length ds ≡ length cs
unfolding with_paths
length-with_paths families [] ds h = rw (← ok_inj h) refl
length-with_paths families (c ∷ cs) ds h =
    let (paths, p, h1) = >>=-eq-ok (intended_paths families c) _ h in
    let (rest, r, h2) = >>=-eq-ok (with_paths families cs) _ h1 in
    rw (← ok_inj h2) (ap suc (length-with_paths families cs rest r))

length-each_of {ℓ} :
    {A : Type ℓ} (xs : List A) (f : A → List Draft) (n : ℕ)
    → ((x : A) → length (f x) ≡ n)
    → length (each_of xs f) ≡ length xs * n
length-each_of [] f n h = omega arith
length-each_of (x ∷ xs) f n h = rw (length-append, h x, length-each_of xs f n h) (omega arith)

module _ (m : Matrix) where
  length-ac97_cases : length (ac97_cases m) ≡ length m.ac97_refill_bytes + length m.memory_layouts
  unfolding ac97_cases
  length-ac97_cases = rw (length-append, length-map, length-map) refl

  length-scaling_cases : length (scaling_cases m) ≡ 2 * length m.voice_count_sweep + 1
  unfolding scaling_cases
  length-scaling_cases =
      rw (length-append, length-append, length-append, length-map, length-map) (omega arith)

  length-container_cases :
      (f : String × String) → length (container_cases m f) ≡ 2 * length m.format_voice_counts
  unfolding container_cases
  length-container_cases f = rw (length-append, length-map, length-append, length-map) (omega arith)

  length-format_cases :
      length (format_cases m) ≡ 10 * length m.format_voice_counts + length m.source_rates_hz
  unfolding format_cases
  length-format_cases =
      let n = length m.format_voice_counts in
      rw
        (
          length-append,
          length-each_of containers (container_cases m) (2 * n) length-container_cases,
          length-map,
        )
        (omega arith)

  length-signal_cases : length (signal_cases m) ≡ 2 + length m.vp_buffer_samples
  unfolding signal_cases
  length-signal_cases = rw (length-append, length-map, length-map) refl

  length-stream_cases : length (stream_cases m) ≡ length m.streaming_cases + length m.mixbin_fanout
  unfolding stream_cases
  length-stream_cases = rw (length-append, length-map, length-map) refl

  length-filter_cases :
      length (filter_cases m) ≡ length m.filter_voice_counts + length m.hrtf_voice_counts
  unfolding filter_cases
  length-filter_cases = rw (length-append, length-map, length-map) refl

  length-control_cases :
      length (control_cases m)
      ≡ length m.voice_control
        + length m.churn_voice_counts
        + length m.memory_layouts
        + length m.gp_ep_modes
  unfolding control_cases
  length-control_cases =
      rw
        (
          length-append, length-append, length-append, length-map, length-map, length-map,
          length-map,
        )
        refl

  length-all_drafts :
      (modes : List Draft)
      → length modes ≡ length m.voice_modes
      → length (all_drafts m modes) ≡ case_count m
  length-all_drafts modes h =
      rw
        (
          length-append, length-append, length-append, length-append, length-append, length-append,
          length-append, length-append, length-ac97_cases, length-scaling_cases,
          length-format_cases, length-signal_cases, length-stream_cases, length-filter_cases, h,
          length-control_cases,
        )
        (omega arith)

pub length-build_cases :
    (m : Matrix) (cs : List Case) → build_cases m ≡ ok cs → length cs ≡ case_count m
unfolding build_cases
length-build_cases m cs h =
    let (modes, n, h1) = >>=-eq-ok (mode_cases m.voice_modes) _ h in
    let drafts = all_drafts m modes in
    length-with_paths m.families (map planned_case drafts) cs h1
    ∙ length-map planned_case drafts
    ∙ length-all_drafts m modes (length-mode_cases m.voice_modes modes n)
