-- ===== src/Package/Iso/Walk.antt =====
-- The loop of `embedded_catalog` of utils/package_runner_suite.py ends.
use xemu_perf_tests.Base.{
  List-cases, ℕ, zero, suc, ◌+◌, ◌≤◌, ◌<◌, false, Option, some, List, ◌∷◌, length, ◌≡◌, refl, sym,
  ap, ◌∙◌, inl, inr, arith,
}
use xemu_perf_tests.Base.Result.{
  guard, Result, ok, err, Result-cases, >>-eq-ok, >>=-eq-ok, guard-eq-ok, ok_inj,
}
use xemu_perf_tests.Package.Iso.{
  may_visit, is_entry, bad_graph, bad_entry, Bytes, State, visits, visit, take_entry, walk, enough,
  start, entry_at, embedded_catalog, root_directory, walked, returned, outcome,
}

-- What a round that went through has checked and done.
pub record IsRound (iso directory : Bytes) (offset : ℕ) (rest : List ℕ) (s t : State) : Type 0 where
  pub fresh : visits s.visited offset ≡ false
  pub few : length s.visited < 65536
  pub inside : offset + 14 ≤ length directory
  pub named : offset + 14 + (entry_at directory offset).name_size ≤ length directory
  pub taken : take_entry iso directory offset s.catalog ≡ ok t.catalog
  pub seen : t.visited ≡ offset ∷ s.visited

pub visit_lem :
    (iso directory : Bytes) (offset : ℕ) (rest : List ℕ) (s t : State)
    → visit iso directory offset rest s ≡ ok t
    → IsRound iso directory offset rest s t
unfolding visit
visit_lem iso directory offset rest s t h =
    let (g, h1) = >>-eq-ok (guard (may_visit directory offset s) bad_graph) _ h in
    let (n, h2) = >>-eq-ok (guard (is_entry directory offset) bad_entry) _ h1 in
    let (catalog, c, h3) = >>=-eq-ok (take_entry iso directory offset s.catalog) _ h2 in
    let tests = guard-eq-ok (may_visit directory offset s) bad_graph g in
    let named = guard-eq-ok (is_entry directory offset) bad_entry n in
    let after = ok_inj h3 in
    record {
      fresh = ground arith;
      few = ground arith;
      inside = ground arith;
      named = ground arith;
      taken = c ∙ ap (λ (u : State). ok u.catalog) after;
      seen = sym (ap (λ (u : State). u.visited) after);
    }

-- With a round for each entry that may still be visited and one more, the loop ends.
walk_ends :
    (iso directory : Bytes) (rounds : ℕ) (s : State)
    → length s.visited ≤ 65536
    → 65536 < length s.visited + rounds
    → (r : Result (Option Bytes)) × (walk iso directory rounds s ≡ some r)
unfolding walk
walk_ends iso directory zero s few l = absurd (omega (arith, few, l))
walk_ends iso directory (suc rounds) s few l = elim (List-cases s.pending) [
  | inl e ↦ rw e (ok s.catalog, refl)
  | inr (offset, rest, e) ↦ elim (Result-cases (visit iso directory offset rest s)) [
    | inr (x, v) ↦ rw (e, v) (err x, refl)
    | inl (t, v) ↦
        let d = visit_lem iso directory offset rest s t v in
        let longer : length t.visited ≡ suc (length s.visited) = ap length d.seen in
        rw (e, v)
          (walk_ends iso directory rounds t (omega (arith, longer, d.few))
            (omega (arith, longer, l)))
  ]
]

walked_ends :
    (iso : Bytes) (d : Result Bytes) → (r : Result (Option Bytes)) × (walked iso enough d ≡ some r)
walked_ends iso (err e) = (err e, refl)
walked_ends iso (ok directory) = walk_ends iso directory enough start (omega arith) (omega arith)

-- The search for the catalog ends on every image, whatever its directory says: 65537 rounds of the
-- loop are always enough.
pub embedded_catalog_ends :
    (iso : Bytes) → (r : Result Bytes) × (embedded_catalog enough iso ≡ some r)
unfolding embedded_catalog
embedded_catalog_ends iso =
    let (r, w) = walked_ends iso (root_directory iso) in (returned r, ap outcome w)
