-- ===== src/Oracle/Values/Laws.antt =====
-- `_hash` of utils/oracle_validation.py gives one spelling of a hash, which it leaves as it is.
use Prim.Native.Char.{Char, code}
use mathlib.Core.Path.{subst}
use mathlib.Core.Option.{some-injective as some_inj}
use Prim.Native.String.{count, char_at}
use xemu_perf_tests.Base.{
  ℕ, zero, suc, ◌==◌, leb, ◌≤◌, ◌<◌, ◌-◌, Bool, true, false, ◌&&◌, ◌||◌, String, Option, none, some,
  [], ◌∷◌, ◌≡◌, refl, ◌⊎◌, inl, inr, arith,
}
use xemu_perf_tests.Base.{Bool-cases}
use xemu_perf_tests.Base.Int.{pos}
use xemu_perf_tests.Base.Result.{ok, >>-eq-ok, guard-eq-ok, ok_inj}
use xemu_perf_tests.Base.Text.{
  lower, lower_char, strip, lstrip, rstrip, is_space, remove_prefix, after_prefix, or_whole,
  AllChars,
}
use xemu_perf_tests.Base.Numerals.{hex_padded-AllChars}
use xemu_perf_tests.Json.{Json, int, str}
use xemu_perf_tests.Oracle.Values.{all_hex, is_hex, in_widths, check_width, hash}

-- A hexadecimal digit with no capital.
abbrev IsDigit : Char → Type 0
IsDigit c = ((48 ≤ code c) × (code c ≤ 57)) ⊎ ((97 ≤ code c) × (code c ≤ 102))

abbrev AreDigits : String → Type 0
AreDigits = AllChars IsDigit

-- A hash as every report and manifest spells it: that many digits, with no capitals.
pub record IsHash (width : ℕ) (s : String) : Type 0 where
  pub long : count s ≡ width
  pub digits : AreDigits s

lower_char-digit : (c : Char) → IsDigit c → lower_char c ≡ c
unfolding lower_char
lower_char-digit c h = ground arith

lower-digits : (s : String) → AreDigits s → lower s ≡ s
unfolding lower
lower-digits String.[] h = refl
lower-digits (String.◌∷◌ c s) (d, h) = rw (lower_char-digit c d, lower-digits s h)

is_space-digit : (c : Char) → IsDigit c → is_space c ≡ false
unfolding is_space
is_space-digit c h = ground arith

lstrip-digits : (s : String) → AreDigits s → lstrip s ≡ s
unfolding lstrip
lstrip-digits String.[] h = refl
lstrip-digits (String.◌∷◌ c s) (d, h) = rw (is_space-digit c d)

rstrip-digits : (s : String) → AreDigits s → rstrip s ≡ s
unfolding rstrip
rstrip-digits String.[] h = refl
rstrip-digits (String.◌∷◌ c String.[]) (d, h) = rw (is_space-digit c d)
rstrip-digits (String.◌∷◌ c (String.◌∷◌ e s)) (d, h) = rw (rstrip-digits (String.◌∷◌ e s) h)

remove_prefix-digits : (s : String) → AreDigits s → remove_prefix s "0x" ≡ s
unfolding remove_prefix
remove_prefix-digits String.[] h = refl
remove_prefix-digits (String.◌∷◌ c String.[]) h = ground arith
remove_prefix-digits (String.◌∷◌ c (String.◌∷◌ e s)) h = ground arith

all_hex-digits : (s : String) → AreDigits s → all_hex s ≡ true
all_hex-digits String.[] h = refl
all_hex-digits (String.◌∷◌ c s) (d, h) = ground (arith, all_hex-digits s h)

-- A spelled hash is read as it stands.
pub hash_of-IsHash :
    (width : ℕ) (s name : String) → IsHash (suc width) s → hash (str s) name (suc width ∷ []) ≡ ok s
unfolding hash strip
hash_of-IsHash width String.[] name h = absurd (omega (arith, h.long))
hash_of-IsHash width (String.◌∷◌ c s) name h =
    rw
      (
        lstrip-digits (String.◌∷◌ c s) h.digits,
        rstrip-digits (String.◌∷◌ c s) h.digits,
        lower-digits (String.◌∷◌ c s) h.digits,
        remove_prefix-digits (String.◌∷◌ c s) h.digits,
      )
      (ground (arith, h.long, all_hex-digits s h.digits.1))

-- No character is a capital among the hexadecimal digits.
abbrev IsSmall : Char → Type 0
IsSmall c = (code c < 65) ⊎ (70 < code c)

abbrev AreSmall : String → Type 0
AreSmall = AllChars IsSmall

abbrev small : Char → Bool
small c = leb (code c) 64 || leb 71 (code c)

abbrev all_below : ℕ → (ℕ → Bool) → Bool
all_below zero q = true
all_below (suc n) q = q n && all_below n q

all_below_lem : (n : ℕ) (q : ℕ → Bool) (x : ℕ) → all_below n q ≡ true → x < n → q x ≡ true
all_below_lem zero q x h l = absurd (omega arith)
all_below_lem (suc n) q x h l = ground (arith, all_below_lem n q x)

alphabet_is_small : all_below 26 (λ k. small (char_at "abcdefghijklmnopqrstuvwxyz" k)) ≡ true
alphabet_is_small = refl

letter-IsSmall : (k : ℕ) → k < 26 → IsSmall (char_at "abcdefghijklmnopqrstuvwxyz" k)
letter-IsSmall k l = ground (
  arith,
  all_below_lem 26 (λ (i : ℕ). small (char_at "abcdefghijklmnopqrstuvwxyz" i)) k alphabet_is_small
      l,
)

lower_char-IsSmall : (c : Char) → IsSmall (lower_char c)
unfolding lower_char
lower_char-IsSmall c = elim (Bool-cases (leb 65 (code c) && leb (code c) 90)) [
  | inl capital ↦ rw capital (letter-IsSmall (code c - 65) (ground arith))
  | inr other ↦ elim (Bool-cases (code c == 0x212A)) [
    | inl kelvin ↦ rw (other, kelvin) (omega arith)
    | inr plain ↦ rw (other, plain) (ground arith)
  ]
]

lower-AreSmall : (s : String) → AreSmall (lower s)
unfolding lower
lower-AreSmall String.[] = tt
lower-AreSmall (String.◌∷◌ c s) = (lower_char-IsSmall c, lower-AreSmall s)

after_prefix-AreSmall : (q s r : String) → AreSmall s → after_prefix q s ≡ some r → AreSmall r
unfolding after_prefix
after_prefix-AreSmall String.[] s r h e = subst AreSmall (some_inj s r e) h
after_prefix-AreSmall (String.◌∷◌ c q) String.[] r h e = cc
after_prefix-AreSmall (String.◌∷◌ c q) (String.◌∷◌ d s) r h e =
    after_prefix-AreSmall q s r h.1 (ground arith)

or_whole-AreSmall :
    (s : String) (o : Option String)
    → AreSmall s
    → ((r : String) → o ≡ some r → AreSmall r)
    → AreSmall (or_whole s o)
or_whole-AreSmall s none h k = h
or_whole-AreSmall s (some r) h k = k r refl

remove_prefix-AreSmall : (s q : String) → AreSmall s → AreSmall (remove_prefix s q)
unfolding remove_prefix
remove_prefix-AreSmall s q h =
    or_whole-AreSmall s (after_prefix q s) h (λ r e. after_prefix-AreSmall q s r h e)

digits_of_small : (s : String) → AreSmall s → all_hex s ≡ true → AreDigits s
digits_of_small String.[] h e = tt
digits_of_small (String.◌∷◌ c s) h e = (ground arith, digits_of_small s h.1 (ground arith))

in_one_width : (n w : ℕ) → in_widths n (w ∷ []) ≡ true → n ≡ w
in_one_width n w h = ground arith

is_hex→all_hex : (s : String) → is_hex s ≡ true → all_hex s ≡ true
is_hex→all_hex String.[] h = refl
is_hex→all_hex (String.◌∷◌ c s) h = h

check_width-IsHash :
    (s name : String) (w : ℕ) {r : String}
    → AreSmall s
    → check_width s name (w ∷ []) ≡ ok r
    → IsHash w r
unfolding check_width
check_width-IsHash s name w small_s h =
    let (g, e) = >>-eq-ok _ _ h in
    let tests : (in_widths (count s) (w ∷ []) && is_hex s) ≡ true = guard-eq-ok _ _ g in
    subst (IsHash w) (ok_inj e) (record {
      long = in_one_width (count s) w (ground arith);
      digits = digits_of_small s small_s (is_hex→all_hex s (ground arith));
    })

digits_are_small : all_below 16 (λ k. small (char_at "0123456789abcdef" k)) ≡ true
digits_are_small = refl

digit-IsSmall : (k : ℕ) → k < 16 → IsSmall (char_at "0123456789abcdef" k)
digit-IsSmall k l =
    ground (
      arith,
      all_below_lem 16 (λ (i : ℕ). small (char_at "0123456789abcdef" i)) k digits_are_small l,
    )

-- What `_hash` returns is spelled in the one way: the asked number of digits, with no capitals.
pub hash-IsHash :
    (v : Json) (name : String) (w : ℕ) {r : String} → hash v name (w ∷ []) ≡ ok r → IsHash w r
unfolding hash
hash-IsHash (int (pos n)) name w h =
    check_width-IsHash _ name w (hex_padded-AllChars IsSmall digit-IsSmall _ n) h
hash-IsHash (str s) name w h =
    check_width-IsHash _ name w
      (remove_prefix-AreSmall (lower (strip s)) "0x" (lower-AreSmall (strip s))) h
hash-IsHash v name w h = cc

-- Hashing is done once: `_hash` of what it returned is that text again, whatever the value was.
pub hash_idem :
    (v : Json) (name again : String) (w : ℕ) {r : String}
    → hash v name (suc w ∷ []) ≡ ok r
    → hash (str r) again (suc w ∷ []) ≡ ok r
hash_idem v name again w {r} h = hash_of-IsHash w r again (hash-IsHash v name (suc w) h)
