-- ===== src/Catalog/Diagnosis/Specific.antt =====
-- Which diagnosis the entries of the catalog get.
use xemu_perf_tests.Base.{
  Bool, true, false, not, String, str_eq, ◌≡◌, refl, eq_of-str_eq, all, string_dec, All, List, [],
  ◌∷◌, contains, all-All, ◌↔◌, inl, inr, ◌||◌, ◌&&◌, arith,
}
use xemu_perf_tests.Base.Result.{Result, ok, err, Result-cases}
use xemu_perf_tests.Catalog.Entry.{Entry}
use xemu_perf_tests.Catalog.Entries.{entries}
use xemu_perf_tests.Catalog.Diagnosis.{failure_diagnosis}
use xemu_perf_tests.Catalog.Diagnosis.Causes.{default_text}

-- The entries that get the last text of the function, which names no cause.
abbrev pub is_general : Entry → Bool
is_general x =
    contains ("shader_lifecycle" ∷ "texture_cubemap_fallback" ∷ []) x.suite_id
    || contains
        ("cpu_floating_point.x87_status_vectors" ∷ "cpu_floating_point.x87_status_ax"
          ∷ "cpu_floating_point.x87_compare_status_ax" ∷ "cpu_floating_point.x87_exception_status"
          ∷ "cpu_floating_point.x87_fault_checkpoint" ∷ [])
        x.id

-- The diagnosis returns a text, and it is the last one exactly where the entry is one of those.
abbrev pub IsDiagnosed : Entry → Type 0
IsDiagnosed x =
    (text : String) × (failure_diagnosis x.id x.kind x.suite_id ≡ ok text)
    × ((text ≡ default_text) ↔ (is_general x ≡ true))

abbrev agree : Bool → Bool → Bool
agree true b = b
agree false b = not b

abbrev diagnosis_fits : Bool → Result String → Bool
diagnosis_fits general (err e) = false
diagnosis_fits general (ok text) = agree general (str_eq text default_text)

abbrev pub is_diagnosed : Entry → Bool
is_diagnosed x = diagnosis_fits (is_general x) (failure_diagnosis x.id x.kind x.suite_id)

all_diagnosed : all is_diagnosed entries ≡ true
unfolding failure_diagnosis entries string_dec xemu_perf_tests.Catalog.Entry.staged
    xemu_perf_tests.Base.Numerals.decimal
all_diagnosed = refl

agree_iff :
    (general : Bool) (text : String)
    → agree general (str_eq text default_text) ≡ true
    → (text ≡ default_text) ↔ (general ≡ true)
agree_iff true text h = (λ e. refl, λ e. eq_of-str_eq text default_text h)
agree_iff false text h = (λ e. ground arith, λ e. cc)

is_diagnosed-IsDiagnosed : (x : Entry) → is_diagnosed x ≡ true → IsDiagnosed x
is_diagnosed-IsDiagnosed x h = elim (Result-cases (failure_diagnosis x.id x.kind x.suite_id)) [
  | inl (text, e) ↦ (text, e, agree_iff (is_general x) text (rw e at h))
  | inr (raised, e) ↦ let bad : false ≡ true = rw e at h in cc
]

-- On every entry of the catalog the diagnosis returns a text, raising nothing, and the text is the general one that names no cause exactly for the entries of the shader lifecycle and the cube-map fallback and the five tests of the x87 status.
pub entries-IsDiagnosed : All IsDiagnosed entries
entries-IsDiagnosed = all-All is_diagnosed is_diagnosed-IsDiagnosed entries all_diagnosed
