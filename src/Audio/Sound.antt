-- ===== src/Audio/Sound.antt =====
-- What cases that pass `validate` of utils/audio_torture_cases.py are known to be.
use xemu_perf_tests.Base.{
  Bool, true, false, not, String, ◌<>◌, str_eq, eq_of-str_eq, Option, none, some, List, [], ◌∷◌,
  All, all, any, contains, lookup, ◌≡◌, refl, ap, ◌∙◌, arith,
}
use mathlib.Core.Path.{subst}
use xemu_perf_tests.Base.Result.{ok, invalid, guard, >>=-eq-ok, >>-eq-ok, guard-eq-ok, ok_inj}
use xemu_perf_tests.Audio.{Family, Backend, Matrix, Case, intended_paths}
use xemu_perf_tests.Audio.Validate.{
  is_id, exceeds, family_by_id, paths_eq, has_paths, check_identity, check_paths, voices_of,
  three_d_voices_of, is_raw, check_voices, check_backend, check_case, check_cases, validate,
  found_family, found_backend, over_limit, probes_gap,
}

-- The case is planned and its paths are the ones that it is meant to run, all of which its backend
-- may run; a case of the raw backend has no more voices than the hardware, nor more 3D voices.
pub record IsValid (m : Matrix) (c : Case) : Type 0 where
  pub planned : c.implementation_state ≡ "planned"
  pub named : is_id c.id ≡ true
  pub family : Family
  pub in_family : family_by_id c.family m.families ≡ some family
  pub own_backend : c.backend ≡ family.backend
  pub backend : Backend
  pub on_backend : lookup c.backend m.backends ≡ some backend
  pub paths : List String
  pub intended : intended_paths m.families c ≡ ok paths
  pub required : c.required_paths ≡ some paths
  pub legitimate : all (contains backend.legitimate_paths) paths ≡ true
  pub few_voices : is_raw c ≡ true → exceeds (voices_of c) m.max_voices ≡ ok false
  pub few_3d_voices : exceeds (three_d_voices_of c) m.max_3d_voices ≡ ok false
  pub for_backend : check_backend m backend c ≡ ok tt

eq_of-paths_eq : (ps qs : List String) → paths_eq ps qs ≡ true → ps ≡ qs
eq_of-paths_eq [] [] h = refl
eq_of-paths_eq [] (q ∷ qs) h = cc
eq_of-paths_eq (p ∷ ps) [] h = cc
eq_of-paths_eq (p ∷ ps) (q ∷ qs) h =
    let e : p ≡ q = eq_of-str_eq p q (ground arith) in
    rw (e, eq_of-paths_eq ps qs (ground arith)) refl

has_paths-eq : (o : Option (List String)) (ps : List String) → has_paths o ps ≡ true → o ≡ some ps
has_paths-eq none ps h = cc
has_paths-eq (some qs) ps h = ap some (eq_of-paths_eq qs ps h)

found_family-eq-ok :
    (id : String) (o : Option Family) (f : Family) → found_family id o ≡ ok f → o ≡ some f
found_family-eq-ok id none f h = cc
found_family-eq-ok id (some g) f h = ap some (ok_inj h)

found_backend-eq-ok :
    (id : String) (o : Option Backend) (b : Backend) → found_backend id o ≡ ok b → o ≡ some b
found_backend-eq-ok id none b h = cc
found_backend-eq-ok id (some g) b h = ap some (ok_inj h)

pub record PathsRight (m : Matrix) (c : Case) (backend : Backend) : Type 0 where
  pub family : Family
  pub in_family : family_by_id c.family m.families ≡ some family
  pub own_backend : c.backend ≡ family.backend
  pub on_backend : lookup c.backend m.backends ≡ some backend
  pub paths : List String
  pub intended : intended_paths m.families c ≡ ok paths
  pub required : c.required_paths ≡ some paths
  pub legitimate : all (contains backend.legitimate_paths) paths ≡ true

check_paths_sound :
    (m : Matrix) (c : Case) (b : Backend) → check_paths m c ≡ ok b → PathsRight m c b
unfolding check_paths
check_paths_sound m c b h =
    let (family, f, h1) = >>=-eq-ok (found_family c.id (family_by_id c.family m.families)) _ h in
    let (o, h2) =
      >>-eq-ok (guard (str_eq c.backend family.backend) (invalid ("backend mismatch for " <> c.id)))
        _ h1 in
    let (backend, k, h3) = >>=-eq-ok (found_backend c.id (lookup c.backend m.backends)) _ h2 in
    let (expected, i, h4) = >>=-eq-ok (intended_paths m.families c) _ h3 in
    let (r, h5) =
      >>-eq-ok
        (guard (has_paths c.required_paths expected)
          (invalid ("incorrect intended paths for " <> c.id)))
        _ h4 in
    let (l, h6) =
      >>-eq-ok
        (guard (all (contains backend.legitimate_paths) expected)
          (invalid ("unsupported intended path for " <> c.id)))
        _ h5 in
    subst (PathsRight m c) (ok_inj h6) (record {
      family = family;
      in_family = found_family-eq-ok c.id _ family f;
      own_backend = eq_of-str_eq _ _ (guard-eq-ok _ _ o);
      on_backend = found_backend-eq-ok c.id _ backend k;
      paths = expected;
      intended = i;
      required = has_paths-eq _ _ (guard-eq-ok _ _ r);
      legitimate = guard-eq-ok _ _ l;
    })

false_of-not : (b : Bool) → not b ≡ true → b ≡ false
false_of-not false h = refl
false_of-not true h = cc

check_voices_sound :
    (m : Matrix) (c : Case)
    → check_voices m c ≡ ok tt
    → (is_raw c ≡ true → exceeds (voices_of c) m.max_voices ≡ ok false)
      × (exceeds (three_d_voices_of c) m.max_3d_voices ≡ ok false)
unfolding check_voices
check_voices_sound m c h =
    let (over, o, h1) = >>=-eq-ok (over_limit m c) _ h in
    let (g, h2) =
      >>-eq-ok (guard (not over) (invalid ("voice count exceeds MCPX limit for " <> c.id))) _ h1 in
    let (over_3d, o3, h3) = >>=-eq-ok (exceeds (three_d_voices_of c) m.max_3d_voices) _ h2 in
    let few : over ≡ false = false_of-not over (guard-eq-ok _ _ g) in
    let few_3d : over_3d ≡ false = false_of-not over_3d (
      guard-eq-ok (not over_3d) (invalid ("3D/HRTF voice count exceeds MCPX limit for " <> c.id))
        h3) in
    (λ r. rw few at (rw r at o), o3 ∙ ap ok few_3d)

check_identity_sound :
    (ids : List String) (c : Case)
    → check_identity ids c ≡ ok tt
    → (c.implementation_state ≡ "planned") × (contains ids c.id ≡ false) × (is_id c.id ≡ true)
unfolding check_identity
check_identity_sound ids c h =
    let (p, h1) =
      >>-eq-ok
        (guard (str_eq c.implementation_state "planned")
          (invalid ("planned case claims executable coverage: " <> c.id)))
        _ h in
    let (f, n) =
      >>-eq-ok (guard (not (contains ids c.id)) (invalid ("duplicate planned case id: " <> c.id)))
        (guard (is_id c.id) (invalid ("invalid planned case id: " <> c.id))) h1 in
    (eq_of-str_eq _ _ (guard-eq-ok _ _ p), false_of-not _ (guard-eq-ok _ _ f), guard-eq-ok _ _ n)

check_case_sound :
    (m : Matrix) (ids : List String) (c : Case)
    → check_case m ids c ≡ ok tt
    → IsValid m c × (contains ids c.id ≡ false)
unfolding check_case
check_case_sound m ids c h =
    let (i, h1) = >>-eq-ok (check_identity ids c) _ h in
    let (backend, p, h2) = >>=-eq-ok (check_paths m c) _ h1 in
    let (v, b) = >>-eq-ok (check_voices m c) (check_backend m backend c) h2 in
    let (planned, fresh, named) = check_identity_sound ids c i in
    let d = check_paths_sound m c backend p in
    let (few, few_3d) = check_voices_sound m c v in
    (
      record {
        planned = planned;
        named = named;
        family = d.family;
        in_family = d.in_family;
        own_backend = d.own_backend;
        backend = backend;
        on_backend = d.on_backend;
        paths = d.paths;
        intended = d.intended;
        required = d.required;
        legitimate = d.legitimate;
        few_voices = few;
        few_3d_voices = few_3d;
        for_backend = b;
      },
      fresh,
    )

-- No identifier is among those seen before, nor twice among the cases.
abbrev pub NewIds : List String → List Case → Type 0
NewIds ids [] = Unit
NewIds ids (c ∷ cs) = (contains ids c.id ≡ false) × NewIds (c.id ∷ ids) cs

check_cases_sound :
    (m : Matrix) (ids : List String) (cs : List Case)
    → check_cases m ids cs ≡ ok tt
    → All (IsValid m) cs × NewIds ids cs
unfolding check_cases
check_cases_sound m ids [] h = (tt, tt)
check_cases_sound m ids (c ∷ cs) h =
    let (here, later) = >>-eq-ok (check_case m ids c) _ h in
    let (valid, fresh) = check_case_sound m ids c here in
    let (valids, freshes) = check_cases_sound m (c.id ∷ ids) cs later in
    ((valid, valids), (fresh, freshes))

-- Where `validate` returns, each case is planned, has an identifier of its own, belongs to a family
-- on the family's backend, and requires exactly the paths that it is meant to run, all of which the
-- backend may run; a raw case stays within the hardware's voices, and every case within its 3D
-- voices. The known gap is closed and no case probes it.
pub validate_sound :
    (m : Matrix) (cs : List Case)
    → validate m cs ≡ ok tt
    → All (IsValid m) cs
      × NewIds [] cs
      × (m.normal_gate_allowed ≡ false)
      × (any probes_gap cs ≡ false)
unfolding validate
validate_sound m cs h =
    let (c, h1) = >>-eq-ok (check_cases m [] cs) _ h in
    let (g, h2) =
      >>-eq-ok
        (guard (not m.normal_gate_allowed)
          (invalid "GET_VOICE_POSITION must remain outside the normal gate while xemu asserts"))
        _ h1 in
    let (valid, fresh) = check_cases_sound m [] cs c in
    (
      valid,
      fresh,
      false_of-not m.normal_gate_allowed (guard-eq-ok _ _ g),
      false_of-not (any probes_gap cs) (
          guard-eq-ok (not (any probes_gap cs))
            (invalid "GET_VOICE_POSITION is a known-gap probe, not a normal planned case") h2),
    )
