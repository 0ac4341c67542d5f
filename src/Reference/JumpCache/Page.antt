-- ===== src/Reference/JumpCache/Page.antt =====
-- The page of utils/cpu_jump_cache_reference.py holds the code of every target.
use mathlib.Core.Path.{subst}
use xemu_perf_tests.Base.{
  ℕ, zero, suc, ◌+◌, ◌*◌, ◌≤◌, ◌<◌, List, [], ◌∷◌, ◌++◌, length, drop, ◌≡◌, refl, sym, ap, ◌∙◌,
  arith, length-append,
}
use xemu_perf_tests.Reference.JumpCache.{code, overwrite, write_targets, target_page, filled}

abbrev pub byte : List ℕ → ℕ → ℕ
byte [] i = 0
byte (b ∷ bs) zero = b
byte (b ∷ bs) (suc i) = byte bs i

byte-append : (xs ys : List ℕ) (k : ℕ) → k < length xs → byte (xs ++ ys) k ≡ byte xs k
byte-append [] ys k l = absurd (omega arith)
byte-append (x ∷ xs) ys zero l = refl
byte-append (x ∷ xs) ys (suc k) l = byte-append xs ys k (omega arith)

overwrite-suc :
    (start : ℕ) (bytes : List ℕ) (p : ℕ) (ps : List ℕ)
    → overwrite (suc start) bytes (p ∷ ps) ≡ p ∷ overwrite start bytes ps
overwrite-suc start bytes p ps =
    let e : suc start + length bytes ≡ suc (start + length bytes) = omega arith in rw e refl

byte-overwrite_before :
    (start : ℕ) (bytes page : List ℕ) (i : ℕ)
    → i < start
    → start ≤ length page
    → byte (overwrite start bytes page) i ≡ byte page i
byte-overwrite_before zero bytes page i l m = absurd (omega arith)
byte-overwrite_before (suc start) bytes [] i l m = absurd (omega arith)
byte-overwrite_before (suc start) bytes (p ∷ ps) zero l m = refl
byte-overwrite_before (suc start) bytes (p ∷ ps) (suc i) l m =
    rw (overwrite-suc start bytes p ps)
      (byte-overwrite_before start bytes ps i (omega arith) (omega arith))

byte-overwrite_at :
    (start : ℕ) (bytes page : List ℕ) (k : ℕ)
    → k < length bytes
    → start ≤ length page
    → byte (overwrite start bytes page) (start + k) ≡ byte bytes k
byte-overwrite_at zero bytes page k l m =
    let e : 0 + k ≡ k = omega arith in rw e (byte-append bytes (drop (0 + length bytes) page) k l)
byte-overwrite_at (suc start) bytes [] k l m = absurd (omega arith)
byte-overwrite_at (suc start) bytes (p ∷ ps) k l m =
    let e : suc start + k ≡ suc (start + k) = omega arith in
    rw (overwrite-suc start bytes p ps, e) (byte-overwrite_at start bytes ps k l (omega arith))

length-drop : (n : ℕ) (page : List ℕ) → n ≤ length page → n + length (drop n page) ≡ length page
length-drop zero page l = omega arith
length-drop (suc n) [] l = absurd (omega arith)
length-drop (suc n) (p ∷ ps) l = omega (arith, length-drop n ps (omega arith))

length-overwrite :
    (start : ℕ) (bytes page : List ℕ)
    → start + length bytes ≤ length page
    → length (overwrite start bytes page) ≡ length page
length-overwrite zero bytes page l =
    let drops = length-drop (0 + length bytes) page l in
    length-append bytes (drop (0 + length bytes) page) ∙ omega (arith, drops)
length-overwrite (suc start) bytes [] l = absurd (omega arith)
length-overwrite (suc start) bytes (p ∷ ps) l =
    ap length (overwrite-suc start bytes p ps)
    ∙ ap suc (length-overwrite start bytes ps (omega arith))

length-code : (index : ℕ) → length (code index) ≡ 18
unfolding code
length-code index = refl

next_start : (index stride : ℕ) → (index + 1) * stride ≡ index * stride + stride
next_start index stride = omega arith

-- The targets before one that is written are left alone.
write_targets_before :
    (count index stride : ℕ) (page : List ℕ) (i : ℕ)
    → 18 ≤ stride
    → i < index * stride
    → (index + count) * stride ≤ length page
    → byte (write_targets count index stride page) i ≡ byte page i
unfolding write_targets
write_targets_before zero index stride page i w l m = refl
write_targets_before (suc count) index stride page i w l m =
    let long = length-code index in
    let next = next_start index stride in
    let all : (index + suc count) * stride ≡ (index + 1 + count) * stride = omega arith in
    let room : (index + 1) * stride ≤ length page = omega (arith, m) in
    let same =
      length-overwrite (index * stride) (code index) page (omega (arith, long, next, room)) in
    write_targets_before count (index + 1) stride (overwrite (index * stride) (code index) page) i w
      (omega (arith, next)) (omega (arith, same, all))
    ∙ byte-overwrite_before (index * stride) (code index) page i l (omega (arith, next, room))

-- The code of a target is on the page once the targets from `index` on are written.
write_targets_at :
    (count index stride : ℕ) (page : List ℕ) (d k target : ℕ)
    → target ≡ index + d
    → 18 ≤ stride
    → d < count
    → k < 18
    → (index + count) * stride ≤ length page
    → byte (write_targets count index stride page) (target * stride + k) ≡ byte (code target) k
unfolding write_targets
write_targets_at zero index stride page d k target e w l q m = absurd (omega arith)
write_targets_at (suc count) index stride page zero k target e w l q m =
    let long = length-code index in
    let next = next_start index stride in
    let room : (index + 1) * stride ≤ length page = omega (arith, m) in
    let same =
      length-overwrite (index * stride) (code index) page (omega (arith, long, next, room)) in
    let here : target ≡ index = omega (arith, e) in
    subst
      (λ t. byte (write_targets (suc count) index stride page) (t * stride + k) ≡ byte (code t) k)
      (sym here)
      (write_targets_before count (index + 1) stride (overwrite (index * stride) (code index) page)
          (index * stride + k) w (omega (arith, next)) (omega (arith, same, m))
        ∙ byte-overwrite_at (index * stride) (code index) page k (omega (arith, long))
            (omega (arith, next, room)))
write_targets_at (suc count) index stride page (suc d) k target e w l q m =
    let long = length-code index in
    let next = next_start index stride in
    let room : (index + 1) * stride ≤ length page = omega (arith, m) in
    let same =
      length-overwrite (index * stride) (code index) page (omega (arith, long, next, room)) in
    write_targets_at count (index + 1) stride (overwrite (index * stride) (code index) page) d k
      target (omega (arith, e)) w (omega (arith, l)) q (omega (arith, same, m))

length-filled : (n : ℕ) → length (filled n) ≡ n
length-filled zero = refl
length-filled (suc n) = ap suc (length-filled n)

-- Where the stride is at least the 18 bytes of a target and all targets fit into the page, every
-- target's code stands whole at its place: no target overwrites another.
pub target_page-code :
    (count stride target k : ℕ)
    → 18 ≤ stride
    → count * stride ≤ 4096
    → target < count
    → k < 18
    → byte (target_page count stride) (target * stride + k) ≡ byte (code target) k
unfolding target_page
target_page-code count stride target k w fits l q =
    let z : 0 + count ≡ count = omega arith in
    write_targets_at count 0 stride (filled 4096) target k target (omega arith) w l q
      (rw (z, length-filled 4096) fits)
