-- ===== src/Catalog/Print.antt =====
-- The two forms of `json.dumps` of utils/test_catalog.py that keep the order of a dict: with
-- `separators=(",", ":")`, and with `indent=2`.
use xemu_perf_tests.Base.{ℕ, zero, suc, true, false, String, ◌<>◌}
use xemu_perf_tests.Json.{
  Json, null, bool, int, float, str, arr, obj, Items, nil, cons, Fields, end, field,
}
use xemu_perf_tests.Oracle.Canonical.{Platform, quoted, print_int}

-- A line break with the spaces of a depth.
abbrev spaces : ℕ → String
spaces zero = ""
spaces (suc n) = "  " <> spaces n

abbrev line : ℕ → String
line depth = "\n" <> spaces depth

module _ (p : Platform) where
  abbrev scalar : Json → String
  scalar null = "null"
  scalar (bool true) = "true"
  scalar (bool false) = "false"
  scalar (int n) = print_int n
  scalar (float m k) = p.float_repr m k
  scalar (str s) = quoted s
  scalar v = ""

  unfoldable mutual
    unfolding quoted print_int

    pub compact : Json → String
    compact (arr vs) = "[" <> (compact_items vs <> "]")
    compact (obj fs) = "{" <> (compact_fields fs <> "}")
    compact v = scalar v

    compact_items : Items → String
    compact_items nil = ""
    compact_items (cons v nil) = compact v
    compact_items (cons v (cons w ws)) = compact v <> ("," <> compact_items (cons w ws))

    compact_fields : Fields → String
    compact_fields end = ""
    compact_fields (field k v end) = quoted k <> (":" <> compact v)
    compact_fields (field k v (field j w fs)) =
        quoted k <> (":" <> (compact v <> ("," <> compact_fields (field j w fs))))

  unfoldable mutual
    unfolding quoted print_int

    pub indented : ℕ → Json → String
    indented depth (arr nil) = "[]"
    indented depth (arr (cons v vs)) =
        "[" <> (line (suc depth) <> (indented_items (suc depth) (cons v vs) <> (line depth <> "]")))
    indented depth (obj end) = "{}"
    indented depth (obj (field k v fs)) =
        "{"
        <> (line (suc depth) <> (indented_fields (suc depth) (field k v fs) <> (line depth <> "}")))
    indented depth v = scalar v

    indented_items : ℕ → Items → String
    indented_items depth nil = ""
    indented_items depth (cons v nil) = indented depth v
    indented_items depth (cons v (cons w ws)) =
        indented depth v <> ("," <> (line depth <> indented_items depth (cons w ws)))

    indented_fields : ℕ → Fields → String
    indented_fields depth end = ""
    indented_fields depth (field k v end) = quoted k <> (": " <> indented depth v)
    indented_fields depth (field k v (field j w fs)) =
        quoted k
        <> (": "
            <> (indented depth v <> ("," <> (line depth <> indented_fields depth (field j w fs)))))
