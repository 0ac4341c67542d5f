-- ===== src/Package/Iso/Sound.antt =====
-- The catalog that `embedded_catalog` of utils/package_runner_suite.py returns.
use xemu_perf_tests.Base.{
  List-cases, ℕ, zero, suc, ◌+◌, ◌*◌, ◌≤◌, leb, Option, none, some, length, ◌≡◌, refl, sym, inl,
  inr, arith, Bool-cases,
}
use mathlib.Core.Path.{subst}
use mathlib.Core.Option.{some-injective as some_inj}
use xemu_perf_tests.Base.Result.{
  guard, Result, ok, err, Result-cases, >>-eq-ok, >>=-eq-ok, guard-eq-ok, ok_inj,
}
use xemu_perf_tests.Package.Iso.{
  Bytes, State, Entry, span, slice, catalog_of, take_entry, visit, walk, start, entry_at,
  embedded_catalog, root_directory, walked, outcome, acceptable, ambiguous, bytes_eq, lower_bytes,
  catalog_name,
}
use xemu_perf_tests.Package.Iso.Walk.{visit_lem}

-- A part of the image: it lies inside, and has a catalog's size.
pub record IsInside (iso bytes : Bytes) : Type 0 where
  pub offset : ℕ
  pub size : ℕ
  pub fits : offset + size ≤ length iso
  pub cut : bytes ≡ slice offset size iso
  pub least : 2 ≤ size
  pub most : size ≤ 1048576

span_lem :
    (iso : Bytes) (offset size : ℕ) (bytes : Bytes)
    → span iso offset size ≡ ok bytes
    → (offset + size ≤ length iso) × (bytes ≡ slice offset size iso)
unfolding span
span_lem iso offset size bytes h = elim (Bool-cases (leb (offset + size) (length iso))) [
  | inl fits ↦ (ground arith, sym (ok_inj (rw fits at h)))
  | inr short ↦ let bad = rw short at h in cc
]

abbrev AllInside : Bytes → Option Bytes → Type 0
AllInside iso none = Unit
AllInside iso (some bytes) = IsInside iso bytes

catalog_of-IsInside :
    (iso : Bytes) (e : Entry) (before : Option Bytes) (after : Option Bytes)
    → catalog_of iso e before ≡ ok after
    → AllInside iso after
unfolding catalog_of
catalog_of-IsInside iso e before after h =
    let (g, h1) = >>-eq-ok (guard (acceptable e before) ambiguous) _ h in
    let (bytes, c, h2) = >>=-eq-ok (span iso (e.sector * 2048) e.size) _ h1 in
    let tests = guard-eq-ok (acceptable e before) ambiguous g in
    let (fits, cut) = span_lem iso (e.sector * 2048) e.size bytes c in
    subst (AllInside iso) (ok_inj h2) (record {
      offset = e.sector * 2048;
      size = e.size;
      fits = fits;
      cut = cut;
      least = ground (arith, tests);
      most = ground (arith, tests);
    })

take_entry-IsInside :
    (iso directory : Bytes) (offset : ℕ) (before after : Option Bytes)
    → AllInside iso before
    → take_entry iso directory offset before ≡ ok after
    → AllInside iso after
unfolding take_entry
take_entry-IsInside iso directory offset before after k h =
    elim (Bool-cases (
      bytes_eq (lower_bytes (slice (offset + 14) (entry_at directory offset).name_size directory))
        catalog_name)) [
          | inl named ↦
              catalog_of-IsInside iso (entry_at directory offset) before after (rw named at h)
          | inr other ↦ subst (AllInside iso) (ok_inj (rw other at h)) k
        ]

walk-IsInside :
    (iso directory : Bytes) (rounds : ℕ) (s : State) (after : Option Bytes)
    → AllInside iso s.catalog
    → walk iso directory rounds s ≡ some (ok after)
    → AllInside iso after
unfolding walk
walk-IsInside iso directory zero s after k h = elim (List-cases s.pending) [
  | inl e ↦ subst (AllInside iso) (ok_inj (some_inj _ _ (rw e at h))) k
  | inr (offset, rest, e) ↦ let bad = rw e at h in cc
]
walk-IsInside iso directory (suc rounds) s after k h = elim (List-cases s.pending) [
  | inl e ↦ subst (AllInside iso) (ok_inj (some_inj _ _ (rw e at h))) k
  | inr (offset, rest, e) ↦ elim (Result-cases (visit iso directory offset rest s)) [
    | inr (x, v) ↦ let bad = some_inj _ _ (rw (e, v) at h) in cc
    | inl (t, v) ↦
        let d = visit_lem iso directory offset rest s t v in
        walk-IsInside iso directory rounds t after
          (take_entry-IsInside iso directory offset s.catalog t.catalog k d.taken) (rw (e, v) at h)
  ]
]

walked-IsInside :
    (iso : Bytes) (rounds : ℕ) (d : Result Bytes) (after : Option Bytes)
    → walked iso rounds d ≡ some (ok after)
    → AllInside iso after
walked-IsInside iso rounds (err e) after h = cc
walked-IsInside iso rounds (ok directory) after h =
    walk-IsInside iso directory rounds start after tt h

outcome-IsInside :
    (iso bytes : Bytes) (w : Option (Result (Option Bytes)))
    → ((after : Option Bytes) → w ≡ some (ok after) → AllInside iso after)
    → outcome w ≡ some (ok bytes)
    → IsInside iso bytes
outcome-IsInside iso bytes none k h = cc
outcome-IsInside iso bytes (some (err e)) k h = cc
outcome-IsInside iso bytes (some (ok none)) k h = cc
outcome-IsInside iso bytes (some (ok (some found))) k h =
    subst (IsInside iso) (ok_inj (some_inj _ _ h)) (k (some found) refl)

-- A catalog that `embedded_catalog` returns is a part of the image that lies wholly inside it and
-- has from 2 bytes to 1 MiB.
pub embedded_catalog-IsInside :
    (iso bytes : Bytes) (rounds : ℕ)
    → embedded_catalog rounds iso ≡ some (ok bytes)
    → IsInside iso bytes
unfolding embedded_catalog
embedded_catalog-IsInside iso bytes rounds h =
    outcome-IsInside iso bytes (walked iso rounds (root_directory iso))
      (walked-IsInside iso rounds (root_directory iso)) h
