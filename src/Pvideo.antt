-- ===== src/Pvideo.antt =====
-- utils/pvideo_overlay_oracle.py: what a captured image shows, and whether a run of captures went
-- through the whole cycle.
pub mod Cycle
pub mod States
use Prim.Native.Nat.{ℕ, ◌+◌, ◌-◌, ◌*◌, ◌/◌}
use xemu_perf_tests.Base.{
  ltb, leb, ◌==◌, Bool, true, false, not, ◌&&◌, ◌||◌, String, str_eq, List, [], ◌∷◌, ◌++◌, map, all,
  length, take, drop, Option, none, some, if◌then◌else◌,
}
use xemu_perf_tests.Base.Int.{ℤ, pos}
use xemu_perf_tests.Base.Result.{Result, ok, err, invalid, guard, ◌>>◌}

pub record Pixel : Type 0 where
  pub red : ℕ
  pub green : ℕ
  pub blue : ℕ

-- What Pillow gives: the size, and the pixel at a place inside it.
pub record Image : Type 0 where
  pub width : ℕ
  pub height : ℕ
  pub getpixel : ℕ → ℕ → Pixel

pub record Candidate : Type 0 where
  pub state : String
  pub side : ℕ
  pub inverted : Bool

abbrev pub background : Pixel
background = record { red = 51; green = 76; blue = 153 }

abbrev pub candidates : List Candidate
candidates =
    record { state = "normal128"; side = 128; inverted = false }
    ∷ record { state = "inverse128"; side = 128; inverted = true }
    ∷ record { state = "normal64"; side = 64; inverted = false }
    ∷ record { state = "inverse64"; side = 64; inverted = true }
    ∷ record { state = "disabled"; side = 0; inverted = false }
    ∷ []

abbrev pub probe_x : List ℕ
probe_x = 248 ∷ 264 ∷ 280 ∷ 304 ∷ 312 ∷ 328 ∷ 344 ∷ 368 ∷ 376 ∷ 392 ∷ []

abbrev pub probe_y : List ℕ
probe_y = 168 ∷ 184 ∷ 200 ∷ 224 ∷ 232 ∷ 248 ∷ 264 ∷ 288 ∷ 296 ∷ 312 ∷ []

abbrev probe_row : List ℕ → ℕ → List (ℕ × ℕ)
probe_row [] gy = []
probe_row (gx ∷ xs) gy = (gx, gy) ∷ probe_row xs gy

abbrev probe_rows : List ℕ → List ℕ → List (ℕ × ℕ)
probe_rows xs [] = []
probe_rows xs (gy ∷ ys) = probe_row xs gy ++ probe_rows xs ys

-- The probes in the guest's 640 by 480 picture, row by row.
abbrev pub probes : List (ℕ × ℕ)
probes = probe_rows probe_x probe_y

-- `quadrants[low][right]`
abbrev luma : Bool → Bool → Bool → ℕ
luma false false false = 0
luma false false true = 255
luma false true false = 255
luma false true true = 0
luma true false false = 255
luma true false true = 0
luma true true false = 0
luma true true true = 255

abbrev gray : ℕ → Pixel
gray n = record { red = n; green = n; blue = n }

-- The colour that a candidate asks for at a probe.
unfoldable pub want : Candidate → ℕ × ℕ → Pixel
want c (gx, gy) =
    if leb 256 gx && ltb gx (256 + c.side) && leb 176 gy && ltb gy (176 + c.side)
    then gray (luma c.inverted (leb (176 + c.side / 2) gy) (leb (256 + c.side / 2) gx))
    else background

-- `abs(a - b) <= n`
abbrev pub near : ℕ → ℕ → ℕ → Bool
near n a b = leb a (b + n) && leb b (a + n)

abbrev pub close : ℕ → Pixel → Pixel → Bool
close n p q = near n p.red q.red && near n p.green q.green && near n p.blue q.blue

-- Where a probe lies in the image. The sum is an exact fraction with denominator 1280, far coarser
-- than a double for any image that fits in memory, so that `int` cuts it where `/` does.
abbrev place : ℕ → ℕ → ℕ → ℕ → ℕ
place origin extent guest g = origin + (2 * g + 1) * extent / (2 * guest)

abbrev pub sample : Image → ℕ → ℕ → ℕ → ℕ → ℕ × ℕ → Pixel
sample image vx vy vw vh (gx, gy) = image.getpixel (place vx vw 640 gx) (place vy vh 480 gy)

unfoldable pub matches : (ℕ × ℕ → Pixel) → Candidate → Bool
unfolding want
matches shown c = all (λ probe. close 2 (shown probe) (want c probe)) probes

unfoldable pub first_match : (ℕ × ℕ → Pixel) → List Candidate → String
unfolding matches
first_match shown [] = "unknown"
first_match shown (c ∷ cs) =
    let rest = first_match shown cs in if matches shown c then c.state else rest

unfoldable pub classify : Image → ℤ → ℤ → ℤ → ℤ → Result String
unfolding first_match
classify image (pos vx) (pos vy) (pos vw) (pos vh) =
    if ltb 0 vw && ltb 0 vh && leb (vx + vw) image.width && leb (vy + vh) image.height
    then ok (first_match (sample image vx vy vw vh) candidates)
    else err (invalid "viewport must fit the captured image")
classify image _ _ _ _ = err (invalid "viewport must fit the captured image")

abbrev pub resize_sequence : List String
resize_sequence =
    "normal128" ∷ "inverse128" ∷ "normal128" ∷ "inverse64" ∷ "normal128" ∷ "inverse128" ∷ "disabled"
    ∷ "inverse128" ∷ []

-- A run of equal states, with the index of its first capture.
pub record Run : Type 0 where
  pub state : String
  pub first_capture : ℕ

-- The loop of `compressed`, from an index and the state before it.
abbrev pub differs : Option String → String → Bool
differs none state = true
differs (some before) state = not (str_eq before state)

unfoldable pub compress : ℕ → Option String → List String → List Run
compress index before [] = []
compress index before (state ∷ states) =
    let rest = compress (index + 1) (some state) states in
    if differs before state then record { state = state; first_capture = index } ∷ rest else rest

abbrev pub states_of : List Run → List String
states_of [] = []
states_of (r ∷ rs) = r.state ∷ states_of rs

abbrev pub texts_eq : List String → List String → Bool
texts_eq [] [] = true
texts_eq (s ∷ ss) (t ∷ ts) = str_eq s t && texts_eq ss ts
texts_eq _ _ = false

pub record Coverage : Type 0 where
  pub passed : Bool
  pub cycle : List Run
  pub compressed : List Run

-- The window of eight runs at a start.
abbrev pub window : ℕ → List Run → List Run
window start compressed = take (length resize_sequence) (drop start compressed)

-- `for start in range(start, start + count)`
unfoldable pub search_cycle : ℕ → ℕ → List Run → Coverage
search_cycle start ℕ.zero compressed = record {
  passed = false;
  cycle = [];
  compressed = compressed;
}
search_cycle start (ℕ.suc count) compressed =
    let rest = search_cycle (start + 1) count compressed in
    if texts_eq (states_of (window start compressed)) resize_sequence
    then record { passed = true; cycle = window start compressed; compressed = compressed }
    else rest

unfoldable pub resize_coverage : List String → Coverage
unfolding compress search_cycle
resize_coverage states =
    let compressed = compress 0 none states in
    search_cycle 0 (length compressed + 1 - length resize_sequence) compressed
