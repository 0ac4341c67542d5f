-- ===== src/Base/Numerals.antt =====
-- Numbers as text: `str(n)` and the hexadecimal formats of f-strings.
use Prim.Native.String.{String, [], ◌∷◌, char_at, count}
use Prim.Native.Nat.{ℕ, zero, suc, ◌/◌, ◌%◌, ◌-◌}
use Prim.Native.Char.{Char}
use Prim.Native.Nat.{◌<◌}
use mathlib.Core.Logic.{inl, inr}
use native.Mathlib.Omega.{arith}
use xemu_perf_tests.Base.Tests.{ltb, ltb→lt, Bool-cases, if◌then◌else◌}
use xemu_perf_tests.Base.Text.{AllChars}

abbrev digit : ℕ → String → String
digit d rest = char_at "0123456789abcdef" d ∷ rest

-- Each round drops a digit, so `n + 1` rounds are enough at a base of two or more.
numeral : ℕ → ℕ → ℕ → String → String
numeral base zero n rest = rest
numeral base (suc fuel) n rest =
    let more = numeral base fuel (n / base) (digit (n % base) rest) in
    if ltb n base then digit n rest else more

-- `str(n)`
unfoldable pub decimal : ℕ → String
unfolding numeral
decimal n = numeral 10 (suc n) n []

-- `f"{n:x}"`
unfoldable pub hex : ℕ → String
unfolding numeral
hex n = numeral 16 (suc n) n []

zeros : ℕ → String → String
zeros zero s = s
zeros (suc n) s = "0" ∷ zeros n s

-- `f"{n:0{width}x}"`
unfoldable pub hex_padded : ℕ → ℕ → String
unfolding hex zeros
hex_padded width n = zeros (width - count (hex n)) (hex n)

-- `f"{n:03d}"` at width 3
unfoldable pub decimal_padded : ℕ → ℕ → String
unfolding decimal zeros
decimal_padded width n = zeros (width - count (decimal n)) (decimal n)

-- What holds of every digit holds of every character of a hexadecimal number.
module _ (P : Char → Type 0) (digits : (k : ℕ) → k < 16 → P (char_at "0123456789abcdef" k)) where
  numeral-AllChars :
      (fuel n : ℕ) (rest : String) → AllChars P rest → AllChars P (numeral 16 fuel n rest)
  unfolding numeral
  numeral-AllChars zero n rest h = h
  numeral-AllChars (suc fuel) n rest h =
      let more =
        numeral-AllChars fuel (n / 16) (digit (n % 16) rest) (digits (n % 16) (omega arith), h) in
      elim (Bool-cases (ltb n 16)) [
        | inl last ↦ rw last (digits n (ltb→lt n 16 last), h)
        | inr further ↦ rw further more
      ]

  zeros-AllChars : (n : ℕ) (s : String) → AllChars P s → AllChars P (zeros n s)
  unfolding zeros
  zeros-AllChars zero s h = h
  zeros-AllChars (suc n) s h = (digits 0 (omega arith), zeros-AllChars n s h)

  pub hex_padded-AllChars : (width n : ℕ) → AllChars P (hex_padded width n)
  unfolding hex_padded
  hex_padded-AllChars width n =
      zeros-AllChars _ (numeral 16 (suc n) n []) (numeral-AllChars (suc n) n [] tt)
