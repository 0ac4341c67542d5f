-- ===== src/Base/Text.antt =====
-- Python's methods of `str`. The case maps and `strip` are written for every character that the
-- code's tests can tell from others; see `lower_char`.
use Prim.Native.Nat.{ℕ, ◌-◌}
use Prim.Native.Char.{Char, code}
use Prim.Native.String.append
use native.Mathlib.Omega.{arith}
use Prim.Native.String.{String, [], ◌∷◌, char_at, ◌++◌ as ◌<>◌}
use mathlib.Core.Path.{◌≡◌, ap}
use mathlib.Core.Bool.{Bool, true, false, ◌&&◌, ◌||◌}
use mathlib.Core.Option.{Option, none, some}
use xemu_perf_tests.Base.Tests.{leb, ◌==◌, if◌then◌else◌, str_eq}

-- `not s`
abbrev pub is_blank : String → Bool
is_blank [] = true
is_blank (c ∷ s) = false

abbrev pub AllChars : (Char → Type 0) → String → Type 0
AllChars P [] = Unit
AllChars P (c ∷ s) = P c × AllChars P s

-- `s.startswith(p)` and, where it holds, what follows.
unfoldable pub after_prefix : String → String → Option String
after_prefix [] s = some s
after_prefix (c ∷ p) [] = none
after_prefix (c ∷ p) (d ∷ s) = if code c == code d then after_prefix p s else none

abbrev pub is_some {ℓ} : {A : Type ℓ} → Option A → Bool
is_some none = false
is_some (some a) = true

unfoldable pub starts_with : String → String → Bool
unfolding after_prefix
starts_with s p = is_some (after_prefix p s)

abbrev pub or_whole : String → Option String → String
or_whole s none = s
or_whole s (some r) = r

-- `s.removeprefix(p)`
unfoldable pub remove_prefix : String → String → String
unfolding after_prefix
remove_prefix s p = or_whole s (after_prefix p s)

-- `s.endswith(p)`
unfoldable pub ends_with : String → String → Bool
ends_with [] p = str_eq [] p
ends_with (c ∷ s) p = str_eq (c ∷ s) p || ends_with s p

-- `s.removesuffix(p)`
unfoldable pub remove_suffix : String → String → String
remove_suffix [] p = []
remove_suffix (c ∷ s) p = let rest = c ∷ remove_suffix s p in if str_eq (c ∷ s) p then [] else rest

-- `p in s`
unfoldable pub contains_text : String → String → Bool
unfolding starts_with
contains_text [] p = starts_with [] p
contains_text (c ∷ s) p = starts_with (c ∷ s) p || contains_text s p

abbrev between : ℕ → ℕ → ℕ → Bool
between lo hi n = leb lo n && leb n hi

-- `lower` on a character: the capitals of ASCII, and U+212A, the only other character with an ASCII
-- lower case. Other characters are kept: the code looks for ASCII patterns only, and no other
-- character's lower case brings an ASCII pattern into being or ends one.
unfoldable pub lower_char : Char → Char
lower_char c =
    if between 65 90 (code c)
    then char_at "abcdefghijklmnopqrstuvwxyz" (code c - 65)
    else if code c == 0x212A
    then "k"
    else c

unfoldable pub lower : String → String
unfolding lower_char
lower [] = []
lower (c ∷ s) = lower_char c ∷ lower s

-- Python's white space.
unfoldable pub is_space : Char → Bool
is_space c =
    between 9 13 (code c)
    || between 28 32 (code c)
    || code c == 0x85
    || code c == 0xA0
    || code c == 0x1680
    || between 0x2000 0x200A (code c)
    || between 0x2028 0x2029 (code c)
    || code c == 0x202F
    || code c == 0x205F
    || code c == 0x3000

unfoldable pub lstrip : String → String
unfolding is_space
lstrip [] = []
lstrip (c ∷ s) = let rest = lstrip s in if is_space c then rest else c ∷ s

abbrev keep_unless_blank : Char → String → String
keep_unless_blank c [] = if is_space c then [] else c ∷ []
keep_unless_blank c (d ∷ s) = c ∷ d ∷ s

unfoldable pub rstrip : String → String
unfolding is_space
rstrip [] = []
rstrip (c ∷ s) = keep_unless_blank c (rstrip s)

-- `s.strip()`
unfoldable pub strip : String → String
unfolding lstrip rstrip
strip s = rstrip (lstrip s)

-- `upper` on a character: ASCII, and the three others whose capitals are in the words PASS and FAIL.
unfoldable pub upper_char : Char → String
upper_char c =
    if between 97 122 (code c)
    then char_at "ABCDEFGHIJKLMNOPQRSTUVWXYZ" (code c - 97) ∷ []
    else if code c == 0xDF
    then "SS"
    else if code c == 0x17F
    then "S"
    else if code c == 0x131
    then "I"
    else c ∷ []

unfoldable pub upper : String → String
unfolding upper_char
upper [] = []
upper (c ∷ s) = upper_char c <> upper s

-- What follows a prefix that was put in front.
pub after_prefix-append : (p s : String) → after_prefix p (p <> s) ≡ some s
unfolding after_prefix
after_prefix-append [] s = ap some (append.nil s)
after_prefix-append (c ∷ p) s = rw (append.cons c p s) (ground (arith, after_prefix-append p s))
