-- ===== src/Pvideo/States.antt =====
-- The states that `classify` of utils/pvideo_overlay_oracle.py tells apart.
use xemu_perf_tests.Base.{
  ℕ, ◌+◌, leb, Bool, true, not, ◌&&◌, List, [], ◌∷◌, all, Bool-cases, inl, inr, ◌≡◌, ◌⊎◌, refl,
  arith, ltb,
}
use xemu_perf_tests.Base.Int.{pos}
use xemu_perf_tests.Base.Result.{ok}
use xemu_perf_tests.Pvideo.{
  Image, sample, classify, Pixel, Candidate, candidates, probes, want, close, matches, first_match,
}

close_trans : (p q r : Pixel) → close 2 p q ≡ true → close 2 p r ≡ true → close 4 q r ≡ true
close_trans p q r g h = ground arith

-- Two candidates that one image shows ask for colours at most 4 apart at every probe.
all-close :
    (shown : ℕ × ℕ → Pixel) (c d : Candidate) (ps : List (ℕ × ℕ))
    → all (λ probe. close 2 (shown probe) (want c probe)) ps ≡ true
    → all (λ probe. close 2 (shown probe) (want d probe)) ps ≡ true
    → all (λ probe. close 4 (want c probe) (want d probe)) ps ≡ true
all-close shown c d [] g h = refl
all-close shown c d (p ∷ ps) g h =
    ground (arith, close_trans (shown p) (want c p) (want d p), all-close shown c d ps)

abbrev blurred : Candidate → Candidate → Bool
blurred c d = all (λ probe. close 4 (want c probe) (want d probe)) probes

abbrev apart : List Candidate → Bool
apart [] = true
apart (c ∷ cs) = all (λ d. not (blurred c d)) cs && apart cs

candidates-apart : apart candidates ≡ true
unfolding want
candidates-apart = refl

abbrev pub OneOf : Candidate → List Candidate → Type 0
OneOf c [] = ⊥
OneOf c (d ∷ ds) = (c ≡ d) ⊎ OneOf c ds

all-OneOf :
    (q : Candidate → Bool) (c : Candidate) (cs : List Candidate)
    → all q cs ≡ true
    → OneOf c cs
    → q c ≡ true
all-OneOf q c [] h m = absurd m
all-OneOf q c (d ∷ ds) h (inl e) = rw e (ground arith)
all-OneOf q c (d ∷ ds) h (inr m) = all-OneOf q c ds (ground arith) m

matches-blurred :
    (shown : ℕ × ℕ → Pixel) (c d : Candidate)
    → matches shown c ≡ true
    → matches shown d ≡ true
    → blurred c d ≡ true
unfolding matches
matches-blurred shown c d g h = all-close shown c d probes g h

first_match-OneOf :
    (shown : ℕ × ℕ → Pixel) (c : Candidate) (cs : List Candidate)
    → apart cs ≡ true
    → OneOf c cs
    → matches shown c ≡ true
    → first_match shown cs ≡ c.state
unfolding first_match
first_match-OneOf shown c [] a m h = absurd m
first_match-OneOf shown c (d ∷ ds) a (inl e) h = rw (← e, h) refl
first_match-OneOf shown c (d ∷ ds) a (inr m) h = elim (Bool-cases (matches shown d)) [
  | inl first ↦
      let clear = all-OneOf (λ e. not (blurred d e)) c ds (ground arith) m in
      ground (arith, clear, matches-blurred shown d c first h)
  | inr later ↦ rw later (first_match-OneOf shown c ds (ground arith) m h)
]

-- Where the viewport fits and each probe of an image is within 2 of what one of the five candidates
-- asks for, `classify` returns that candidate's state: no other state comes first.
pub classify_complete :
    (image : Image) (vx vy vw vh : ℕ) (c : Candidate)
    → (ltb 0 vw && ltb 0 vh && leb (vx + vw) image.width && leb (vy + vh) image.height) ≡ true
    → OneOf c candidates
    → matches (sample image vx vy vw vh) c ≡ true
    → classify image (pos vx) (pos vy) (pos vw) (pos vh) ≡ ok c.state
unfolding classify
classify_complete image vx vy vw vh c fits m h =
    rw (fits, first_match-OneOf (sample image vx vy vw vh) c candidates candidates-apart m h) refl
