-- ===== src/Catalog/Render/Selection.antt =====
-- What the plans of `render` of utils/test_catalog.py select.
use xemu_perf_tests.Base.{
  any, ◌||◌, ◌⊎◌, inl, inr, Option, none, some, Bool, true, false, ◌&&◌, not, String, str_eq, List,
  [], ◌∷◌, ◌++◌, all, All, all-All, contains, ◌≡◌, refl, string_dec, if◌then◌else◌, arith,
}
use xemu_perf_tests.Base.Distinct.{Distinct}
use xemu_perf_tests.Base.Result.{Result, ok, err}
use xemu_perf_tests.Json.{Json, bool, Fields, get, elems}
use xemu_perf_tests.Catalog.Entry.{Entry}
use xemu_perf_tests.Catalog.Entries.{entries}
use xemu_perf_tests.Catalog.Document.{Children, documents}
use xemu_perf_tests.Catalog.Render.{voice_ids, later_plans}
use xemu_perf_tests.Catalog.Render.Settings.{Planned}
use xemu_perf_tests.Catalog.Render.Plans.{smoke_plan, pfifo_plans, boundary_plan}

-- The identifiers of the leaves.
abbrev pub leaf_ids : List Entry → List String
leaf_ids [] = []
leaf_ids (x ∷ xs) = let rest = leaf_ids xs in if str_eq x.kind "leaf" then x.id ∷ rest else rest

-- The identifiers of the suites that the guest runs in a plan only with "enable_xemu_only_tests".
abbrev pub guarded_ids : List Entry → List String
guarded_ids [] = []
guarded_ids (x ∷ xs) =
    let rest = guarded_ids xs in
    if contains ("PFIFOPacketBoundary" ∷ "McpxVoice" ∷ "Pvideo" ∷ []) x.legacy_suite
    then x.id ∷ rest
    else rest

abbrev is_true : Option Json → Bool
is_true (some (bool b)) = b
is_true v = false

abbrev pub opts_in : Fields → Bool
opts_in settings = is_true (get "enable_xemu_only_tests" settings)

-- Known leaves, each once; and the setting is on where the guest asks for it.
abbrev pub IsSelection : Planned → Type 0
IsSelection (path, settings, ids) =
    All (λ id. contains (leaf_ids entries) id ≡ true) ids
    × Distinct ids
    × ((any (contains (guarded_ids entries)) ids ≡ false) ⊎ (opts_in settings ≡ true))

-- Every plan that `render` writes, where the voice tests are those given.
abbrev pub all_plans : List String → List Planned
all_plans ids = (smoke_plan ∷ pfifo_plans ++ (boundary_plan ∷ [])) ++ later_plans ids

abbrev none_twice : List String → Bool
none_twice [] = true
none_twice (x ∷ xs) = not (contains xs x) && none_twice xs

abbrev is_selection : Planned → Bool
is_selection (path, settings, ids) =
    all (contains (leaf_ids entries)) ids
    && none_twice ids
    && (not (any (contains (guarded_ids entries)) ids) || opts_in settings)

opted : (guarded opts : Bool) → (not guarded || opts) ≡ true → (guarded ≡ false) ⊎ (opts ≡ true)
opted true opts h = inr h
opted false opts h = inl refl

none_twice-Distinct : (xs : List String) → none_twice xs ≡ true → Distinct xs
none_twice-Distinct [] h = tt
none_twice-Distinct (x ∷ xs) h = (ground arith, none_twice-Distinct xs (ground arith))

is_selection-IsSelection : (plan : Planned) → is_selection plan ≡ true → IsSelection plan
is_selection-IsSelection (path, settings, ids) h = (
  all-All (contains (leaf_ids entries)) (λ id e. e) ids (ground arith),
  none_twice-Distinct ids (ground arith),
  opted (any (contains (guarded_ids entries)) ids) (opts_in settings) (ground arith),
)

abbrev sound_with : Result (List String) → Bool
sound_with (err e) = true
sound_with (ok ids) = all is_selection (all_plans ids)

plans_checked : (c : Children) → sound_with (voice_ids (elems (documents c entries))) ≡ true
unfolding documents entries voice_ids later_plans string_dec xemu_perf_tests.Catalog.Entry.staged
    xemu_perf_tests.Base.Numerals.decimal
plans_checked c = refl

sound_with-ok :
    (call : Result (List String)) (ids : List String)
    → sound_with call ≡ true
    → call ≡ ok ids
    → All IsSelection (all_plans ids)
sound_with-ok call ids h e =
    all-All is_selection is_selection-IsSelection (all_plans ids) (rw e at h)

-- Whichever children the documents hold, and with the voice tests that `render` reads from them: every plan that `render` writes selects leaves of the catalog only, and none twice, and turns on the tests for xemu only where it selects one of the suites that the guest refuses without.
pub plans-IsSelection :
    (c : Children) (ids : List String)
    → voice_ids (elems (documents c entries)) ≡ ok ids
    → All IsSelection (all_plans ids)
plans-IsSelection c ids e =
    sound_with-ok (voice_ids (elems (documents c entries))) ids (plans_checked c) e
