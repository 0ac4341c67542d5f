-- ===== src/Oracle/Canonical.antt =====
-- `canonical_json` and `json_sha256` of utils/oracle_validation.py. What stands outside the
-- repository is a parameter: the SHA-256 of `hashlib` and the shortest decimal that prints a float.
use Prim.Native.Char.{Char, code}
use xemu_perf_tests.Base.{
  ℕ, suc, ◌==◌, leb, ◌-◌, ◌+◌, ◌/◌, ◌%◌, true, false, ◌&&◌, String, ◌<>◌, List, [], ◌∷◌,
  if◌then◌else◌,
}
use xemu_perf_tests.Base.Int.{ℤ, pos, negsuc}
use xemu_perf_tests.Base.Numerals.{decimal, hex_padded}
use xemu_perf_tests.Json.{
  Json, null, bool, int, float, str, arr, obj, Items, nil, cons, Fields, end, field,
}
use xemu_perf_tests.Json.Keys.{sorted_pairs}

pub record Platform : Type 0 where
  pub sha256 : String → String
  pub float_repr : ℤ → ℕ → String

abbrev unicode : ℕ → String
unicode n = "\\u" <> hex_padded 4 n

abbrev one : Char → String
one c = String.◌∷◌ c String.[]

-- A character of a JSON text under `ensure_ascii=True`.
escape_char : Char → String
escape_char c =
    if code c == 34
    then "\\\""
    else if code c == 92
    then "\\\\"
    else if code c == 10
    then "\\n"
    else if code c == 13
    then "\\r"
    else if code c == 9
    then "\\t"
    else if code c == 12
    then "\\f"
    else if code c == 8
    then "\\b"
    else if leb 32 (code c) && leb (code c) 126
    then one c
    else if leb (code c) 0xFFFF
    then unicode (code c)
    else unicode (0xD800 + (code c - 0x10000) / 1024)
      <> unicode (0xDC00 + (code c - 0x10000) % 1024)

escape : String → String
unfolding escape_char
escape String.[] = ""
escape (String.◌∷◌ c s) = escape_char c <> escape s

unfoldable pub quoted : String → String
unfolding escape
quoted s = "\"" <> (escape s <> "\"")

unfoldable pub print_int : ℤ → String
print_int (pos n) = decimal n
print_int (negsuc n) = "-" <> decimal (suc n)

-- `",".join(...)` of the pairs `"key":value`.
join_pairs : List (String × String) → String
join_pairs [] = ""
join_pairs ((k, t) ∷ []) = quoted k <> (":" <> t)
join_pairs ((k, t) ∷ (j, u) ∷ m) = quoted k <> (":" <> (t <> ("," <> join_pairs ((j, u) ∷ m))))

module _ (p : Platform) where
  -- `json.dumps(value, sort_keys=True, separators=(",", ":"), ensure_ascii=True)`
  unfoldable mutual
    unfolding quoted print_int join_pairs sorted_pairs

    pub canonical_json : Json → String
    canonical_json null = "null"
    canonical_json (bool true) = "true"
    canonical_json (bool false) = "false"
    canonical_json (int n) = print_int n
    canonical_json (float m k) = p.float_repr m k
    canonical_json (str s) = quoted s
    canonical_json (arr vs) = "[" <> (canonical_items vs <> "]")
    canonical_json (obj fs) = "{" <> (join_pairs (sorted_pairs (canonical_pairs fs)) <> "}")

    canonical_items : Items → String
    canonical_items nil = ""
    canonical_items (cons v nil) = canonical_json v
    canonical_items (cons v (cons w ws)) = canonical_json v <> ("," <> canonical_items (cons w ws))

    canonical_pairs : Fields → List (String × String)
    canonical_pairs end = []
    canonical_pairs (field k v fs) = (k, canonical_json v) ∷ canonical_pairs fs

  unfoldable pub json_sha256 : Json → String
  json_sha256 v = p.sha256 (canonical_json v)
