-- ===== src/Oracle/Values.antt =====
-- `_integer` and `_hash` of utils/oracle_validation.py, and the values that they read.
pub mod Laws
use Prim.Native.Nat.{max}
use Prim.Native.Char.{Char, code}
use Prim.Native.String.{count}
use xemu_perf_tests.Base.{ℕ, ◌==◌, leb, Bool, true, false, ◌&&◌, ◌||◌, String, ◌<>◌, List, [], ◌∷◌}
use xemu_perf_tests.Base.Int.{pos, negsuc}
use xemu_perf_tests.Base.Result.{Result, ok, err, invalid, guard, ◌>>=◌, ◌>>◌}
use xemu_perf_tests.Base.Text.{lower, strip, remove_prefix, is_blank}
use xemu_perf_tests.Base.Numerals.{hex_padded, decimal}
use xemu_perf_tests.Json.{Json, null, bool, int, str}

-- A non-negative `int` that is no `bool`.
unfoldable pub integer : Json → String → Result ℕ
integer (int (pos n)) name = ok n
integer _ name = err (invalid (name <> " must be a non-negative integer"))

abbrev pub is_hex_digit : Char → Bool
is_hex_digit c =
    (leb 48 (code c) && leb (code c) 57)
    || (leb 97 (code c) && leb (code c) 102)
    || (leb 65 (code c) && leb (code c) 70)

abbrev pub all_hex : String → Bool
all_hex String.[] = true
all_hex (String.◌∷◌ c s) = is_hex_digit c && all_hex s

-- `_HEX_RE.fullmatch(s)`: one digit or more.
abbrev pub is_hex : String → Bool
is_hex String.[] = false
is_hex (String.◌∷◌ c s) = is_hex_digit c && all_hex s

abbrev pub in_widths : ℕ → List ℕ → Bool
in_widths n [] = false
in_widths n (w ∷ ws) = n == w || in_widths n ws

abbrev largest : List ℕ → ℕ
largest [] = 0
largest (w ∷ ws) = max w (largest ws)

-- The last test of `_hash`. The message's list of widths is left out.
unfoldable pub check_width : String → String → List ℕ → Result String
check_width result name widths = do
  guard (in_widths (count result) widths && is_hex result)
      (invalid (name <> " must contain an exact number of hex digits"))
  ok result

unfoldable pub hash : Json → String → List ℕ → Result String
unfolding check_width
hash (int (pos n)) name widths = check_width (hex_padded (largest widths) n) name widths
hash (int (negsuc n)) name widths = err (invalid (name <> " must not be negative"))
hash (str s) name widths = check_width (remove_prefix (lower (strip s)) "0x") name widths
hash _ name widths = err (invalid (name <> " must be a hexadecimal string or integer"))

-- `isinstance(value, str) and value`
abbrev pub is_text : Json → Bool
is_text (str s) = elim (is_blank s) [ true ↦ false | false ↦ true ]
is_text _ = false

-- A value that must be a text that is not empty.
unfoldable pub text : Json → String → Result String
text (str s) message = do guard (is_text (str s)) (invalid message); ok s
text _ message = err (invalid message)

-- A name inside a message. Every caller has checked that it is a text; numbers, lists and dicts are
-- not spelled out.
abbrev pub shown : Json → String
shown (str s) = s
shown null = "None"
shown (bool true) = "True"
shown (bool false) = "False"
shown _ = ""
