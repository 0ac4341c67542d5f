-- ===== src/Base/Split.antt =====
-- Python's `split`, `rsplit`, `replace`, `lstrip`, `capitalize`, `title` and `join` on `str`, for the
-- separators that the code uses. The case maps are those of Base/Text.
use Prim.Native.Char.{Char, code}
use Prim.Native.String.{String, [], ◌∷◌, ◌++◌ as ◌<>◌}
use mathlib.Core.Bool.{Bool, true, false, ◌&&◌, ◌||◌}
use mathlib.Core.List as L
use xemu_perf_tests.Base.Tests.{leb, ◌==◌, if◌then◌else◌}
use xemu_perf_tests.Base.Text.{lower, lower_char, upper_char}

-- The pieces of an f-string.
abbrev pub format : L.List String → String
format L.[] = []
format (L.◌∷◌ s ss) = s <> format ss

-- `separator.join(lines)`
abbrev pub join : String → L.List String → String
join separator L.[] = []
join separator (L.◌∷◌ s L.[]) = s
join separator (L.◌∷◌ s (L.◌∷◌ t ss)) = s <> (separator <> join separator (L.◌∷◌ t ss))

-- `s.replace(c, t)` for a character `c`.
unfoldable pub replace_char : Char → String → String → String
replace_char c t [] = []
replace_char c t (d ∷ s) =
    let rest = replace_char c t s in if code c == code d then t <> rest else d ∷ rest

abbrev put_first : Char → L.List String → L.List String
put_first c L.[] = L.◌∷◌ (c ∷ []) L.[]
put_first c (L.◌∷◌ s ss) = L.◌∷◌ (c ∷ s) ss

-- `s.split(c)` for a character `c`.
unfoldable pub split_char : Char → String → L.List String
split_char c [] = L.◌∷◌ [] L.[]
split_char c (d ∷ s) =
    let rest = split_char c s in if code c == code d then L.◌∷◌ [] rest else put_first d rest

abbrev last_of : String → L.List String → String
last_of s L.[] = s
last_of s (L.◌∷◌ t ts) = last_of t ts

-- `s.rsplit(c, 1)[-1]` and `s.split(c)[-1]`
unfoldable pub after_last : Char → String → String
unfolding split_char
after_last c s = last_of [] (split_char c s)

-- `s.lstrip(c)`
unfoldable pub lstrip_char : Char → String → String
lstrip_char c [] = []
lstrip_char c (d ∷ s) = let rest = lstrip_char c s in if code c == code d then rest else d ∷ s

-- `s.capitalize()`
unfoldable pub capitalize : String → String
unfolding lower upper_char
capitalize [] = []
capitalize (c ∷ s) = upper_char c <> lower s

abbrev is_letter : Char → Bool
is_letter c = (leb 65 (code c) && leb (code c) 90) || (leb 97 (code c) && leb (code c) 122)

-- `s.title()`, after a letter or not.
unfoldable pub title_after : Bool → String → String
unfolding lower_char upper_char
title_after inside [] = []
title_after true (c ∷ s) = lower_char c ∷ title_after (is_letter c) s
title_after false (c ∷ s) = upper_char c <> title_after (is_letter c) s

unfoldable pub title : String → String
unfolding title_after
title s = title_after false s
