-- ===== src/Pvideo/Cycle.antt =====
-- The cycle that `resize_coverage` of utils/pvideo_overlay_oracle.py looks for.
use xemu_perf_tests.Base.{
  ℕ, zero, suc, ◌+◌, ◌-◌, ◌≤◌, true, String, str_eq, eq_of-str_eq, str_eq_self, List, [], ◌∷◌, ◌++◌,
  length, take, drop, Option, none, some, Bool-cases, inl, inr, ◌↔◌, ◌≡◌, refl, sym, ap, ◌∙◌, arith,
  length-append,
}
use xemu_perf_tests.Pvideo.{
  differs, Run, states_of, texts_eq, window, search_cycle, resize_sequence, compress,
  resize_coverage,
}

texts_eq_self : (ss : List String) → texts_eq ss ss ≡ true
texts_eq_self [] = refl
texts_eq_self (s ∷ ss) = rw (str_eq_self s, texts_eq_self ss) refl

eq_of-texts_eq : (ss ts : List String) → texts_eq ss ts ≡ true → ss ≡ ts
eq_of-texts_eq [] [] h = refl
eq_of-texts_eq (s ∷ ss) (t ∷ ts) h =
    let e : s ≡ t = eq_of-str_eq s t (ground arith) in
    rw (e, eq_of-texts_eq ss ts (ground arith)) refl
eq_of-texts_eq [] (t ∷ ts) h = cc
eq_of-texts_eq (s ∷ ss) [] h = cc

-- The states `needle` follow one another somewhere in `runs`.
pub record IsPart (needle : List String) (runs : List Run) : Type 0 where
  pub before : List Run
  pub middle : List Run
  pub after : List Run
  pub split : runs ≡ before ++ (middle ++ after)
  pub shown : states_of middle ≡ needle

take-drop : (n : ℕ) (rs : List Run) → rs ≡ take n rs ++ drop n rs
take-drop zero rs = refl
take-drop (suc n) [] = refl
take-drop (suc n) (r ∷ rs) = ap (λ qs. r ∷ qs) (take-drop n rs)

window-IsPart :
    (start : ℕ) (rs : List Run)
    → texts_eq (states_of (window start rs)) resize_sequence ≡ true
    → IsPart resize_sequence rs
window-IsPart start rs h = record {
  before = take start rs;
  middle = take (length resize_sequence) (drop start rs);
  after = drop (length resize_sequence) (drop start rs);
  split =
      take-drop start rs
      ∙ ap (λ q. take start rs ++ q) (take-drop (length resize_sequence) (drop start rs));
  shown = eq_of-texts_eq _ _ h;
}

search_cycle-IsPart :
    (start count : ℕ) (rs : List Run)
    → (search_cycle start count rs).passed ≡ true
    → IsPart resize_sequence rs
unfolding search_cycle
search_cycle-IsPart start zero rs h = cc
search_cycle-IsPart start (suc count) rs h =
    elim (Bool-cases (texts_eq (states_of (window start rs)) resize_sequence)) [
      | inl here ↦ window-IsPart start rs here
      | inr later ↦ search_cycle-IsPart (start + 1) count rs (rw later at h)
    ]

search_cycle-passed :
    (start count k : ℕ) (rs : List Run)
    → suc k ≤ count
    → texts_eq (states_of (window (start + k) rs)) resize_sequence ≡ true
    → (search_cycle start count rs).passed ≡ true
unfolding search_cycle
search_cycle-passed start zero k rs l h = absurd (omega arith)
search_cycle-passed start (suc count) zero rs l h =
    let now : start + 0 ≡ start = omega arith in rw (rw now at h) refl
search_cycle-passed start (suc count) (suc k) rs l h =
    elim (Bool-cases (texts_eq (states_of (window start rs)) resize_sequence)) [
      | inl here ↦ rw here refl
      | inr later ↦
          let next : start + suc k ≡ (start + 1) + k = omega arith in
          rw later (search_cycle-passed (start + 1) count k rs (omega arith) (rw next at h))
    ]

drop-append : (qs rs : List Run) → drop (length qs) (qs ++ rs) ≡ rs
drop-append [] rs = refl
drop-append (q ∷ qs) rs = drop-append qs rs

take-append : (qs rs : List Run) → take (length qs) (qs ++ rs) ≡ qs
take-append [] rs = refl
take-append (q ∷ qs) rs = ap (λ us. q ∷ us) (take-append qs rs)

length-states_of : (rs : List Run) → length (states_of rs) ≡ length rs
length-states_of [] = refl
length-states_of (r ∷ rs) = ap suc (length-states_of rs)

IsPart-passed :
    (rs : List Run)
    → IsPart resize_sequence rs
    → (search_cycle 0 (length rs + 1 - length resize_sequence) rs).passed ≡ true
IsPart-passed rs d =
    let eight : length d.middle ≡ 8 = sym (length-states_of d.middle) ∙ ap length d.shown in
    let long : length rs ≡ length d.before + (8 + length d.after) =
      rw (d.split, length-append, length-append, eight) refl in
    let found : window (length d.before) rs ≡ d.middle =
      rw
        (d.split, drop-append d.before (d.middle ++ d.after), ← eight, take-append d.middle d.after)
        refl in
    let start : 0 + length d.before ≡ length d.before = omega arith in
    search_cycle-passed 0 _ (length d.before) rs (omega (arith, long))
      (rw (start, found, d.shown) (texts_eq_self resize_sequence))

-- `resize_coverage` passes exactly where the eight states of the cycle follow one another somewhere
-- in the captures' states once repeated captures are dropped.
pub resize_coverage-passed_iff :
    (states : List String)
    → ((resize_coverage states).passed ≡ true) ↔ IsPart resize_sequence (compress 0 none states)
unfolding resize_coverage
resize_coverage-passed_iff states = (
  search_cycle-IsPart 0 (length (compress 0 none states) + 1 - length resize_sequence)
      (compress 0 none states),
  IsPart-passed (compress 0 none states),
)

abbrev pub Alternates : Option String → List Run → Type 0
Alternates before [] = Unit
Alternates before (r ∷ rs) = (differs before r.state ≡ true) × Alternates (some r.state) rs

abbrev pub repeat : ℕ → String → List String
repeat zero s = []
repeat (suc n) s = s ∷ repeat n s

-- The captures from an index are cut into stretches of one state, one for each run in order; a run
-- has its stretch's state and the index of its first capture, and no capture is left over.
abbrev pub Covers : ℕ → List String → List Run → Type 0
Covers index states [] = states ≡ []
Covers index states (r ∷ rs) =
    (n : ℕ) × (rest : List String) × (r.first_capture ≡ index)
    × (states ≡ repeat (suc n) r.state ++ rest)
    × Covers (index + suc n) rest rs

compress-Alternates :
    (index : ℕ) (before : Option String) (states : List String)
    → Alternates before (compress index before states)
unfolding compress
compress-Alternates index before [] = tt
compress-Alternates index none (s ∷ ss) = (refl, compress-Alternates (index + 1) (some s) ss)
compress-Alternates index (some t) (s ∷ ss) = elim (Bool-cases (str_eq t s)) [
  | inl same ↦ rw (same, eq_of-str_eq t s same) (compress-Alternates (index + 1) (some s) ss)
  | inr other ↦ rw other (rw other refl, compress-Alternates (index + 1) (some s) ss)
]

-- The captures that repeat the state before them come first.
record Continues (index : ℕ) (before : String) (states : List String) : Type 0 where
  repeated : ℕ
  rest : List String
  split : states ≡ repeat repeated before ++ rest
  covered : Covers (index + repeated) rest (compress index (some before) states)

Covers-start :
    (index : ℕ) (s : String) (ss : List String)
    → Continues (index + 1) s ss
    → Covers index
        (s ∷ ss)
        (record { state = s; first_capture = index } ∷ compress (index + 1) (some s) ss)
Covers-start index s ss c =
    let next : (index + 1) + c.repeated ≡ index + suc c.repeated = omega arith in
    (c.repeated, c.rest, refl, ap (λ qs. s ∷ qs) c.split, rw next at c.covered)

compress-Continues :
    (index : ℕ) (before : String) (states : List String) → Continues index before states
unfolding compress
compress-Continues index before [] = record {
  repeated = 0;
  rest = [];
  split = refl;
  covered = refl;
}
compress-Continues index before (s ∷ ss) =
    let c = compress-Continues (index + 1) s ss in
    elim (Bool-cases (str_eq before s)) [
      | inl same ↦
          let e : before ≡ s = eq_of-str_eq before s same in
          let next : (index + 1) + c.repeated ≡ index + suc c.repeated = omega arith in
          record {
            repeated = suc c.repeated;
            rest = c.rest;
            split = rw e (ap (λ qs. s ∷ qs) c.split);
            covered = rw same (rw next at c.covered);
          }
      | inr other ↦
          let here : index + 0 ≡ index = omega arith in
          record {
            repeated = 0;
            rest = s ∷ ss;
            split = refl;
            covered = rw (here, other) (Covers-start index s ss c);
          }
    ]

compress-Covers :
    (index : ℕ) (states : List String) → Covers index states (compress index none states)
unfolding compress
compress-Covers index [] = refl
compress-Covers index (s ∷ ss) = Covers-start index s ss (compress-Continues (index + 1) s ss)

search_cycle-compressed :
    (start count : ℕ) (rs : List Run) → (search_cycle start count rs).compressed ≡ rs
unfolding search_cycle
search_cycle-compressed start zero rs = refl
search_cycle-compressed start (suc count) rs =
    elim (Bool-cases (texts_eq (states_of (window start rs)) resize_sequence)) [
      | inl here ↦ rw here refl
      | inr later ↦ rw later (search_cycle-compressed (start + 1) count rs)
    ]

-- The runs that `resize_coverage` reports cut the captures, in order and without a rest, into
-- stretches of one state: each run has the state of its stretch and the index of the stretch's first
-- capture, and the states of two runs that follow one another differ.
pub resize_coverage-compressed :
    (states : List String)
    → Alternates none (resize_coverage states).compressed
      × Covers 0 states (resize_coverage states).compressed
unfolding resize_coverage
resize_coverage-compressed states =
    rw (search_cycle-compressed 0 _ (compress 0 none states))
      (compress-Alternates 0 none states, compress-Covers 0 states)
