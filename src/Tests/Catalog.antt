-- ===== src/Tests/Catalog.antt =====
-- The theorems on utils/test_catalog.py at the program's catalog and at small files.
use xemu_perf_tests.Base.{
  ℕ, true, false, String, str_eq, Option, some, none, List, [], ◌∷◌, ◌≡◌, refl, ◌↔◌, length, lookup,
  string_dec, All, is_empty, leb,
}
use xemu_perf_tests.Base.Distinct.{Distinct, keys_of}
use xemu_perf_tests.Base.Result.{ok}
use xemu_perf_tests.Json.{Json, obj, elems, Fields}
use xemu_perf_tests.Oracle.Canonical.{Platform}
use xemu_perf_tests.Package.Manifest.{Library, manifest}
use xemu_perf_tests.Package.Manifest.Partition.{Made}
use xemu_perf_tests.Package.Manifest.Generated.{generated_catalog-manifest}
use xemu_perf_tests.Catalog.Entry.{Entry, staged}
use xemu_perf_tests.Catalog.Entries.{entries}
use xemu_perf_tests.Catalog.Validate.{validate}
use xemu_perf_tests.Catalog.Validate.Sound.{IsCatalog, validate-eq-ok_iff}
use xemu_perf_tests.Catalog.Document.{catalog, child_ids, children_of, documents}
use xemu_perf_tests.Catalog.Document.Children.{
  named_under, child_ids-named_under, bits, count_from, stage_ids, staged-children,
}
use xemu_perf_tests.Catalog.Render.{Files, render, voice_ids}
use xemu_perf_tests.Catalog.Render.Total.{Gives, render-Returns}
use xemu_perf_tests.Catalog.Render.Selection.{IsSelection, all_plans, plans-IsSelection}
use xemu_perf_tests.Catalog.Update.{Run, update, exit_code}
use xemu_perf_tests.Catalog.Update.Current.{IsCurrent, over, check-passes_iff, update-then_check}

validate-eq-ok_iff_example : (validate entries ≡ ok tt) ↔ IsCatalog entries
validate-eq-ok_iff_example = validate-eq-ok_iff entries

child_ids-named_under_example :
    child_ids (children_of entries) "game_load.long_unlocked_scene"
    ≡ named_under "game_load.long_unlocked_scene" entries
child_ids-named_under_example = child_ids-named_under entries "game_load.long_unlocked_scene"

abbrev two_stages : List (String × String)
two_stages = ("cpu", "08-01-CPU") ∷ ("pfifo", "08-02-PFIFO") ∷ []

abbrev scene : List Entry
scene =
    staged "game_load.scene" "08-Scene" "long_scene" two_stages ("scenario" ∷ [])
      "Groups the stages"

named : str_eq "" "game_load.scene" ≡ false
unfolding string_dec
named = refl

staged-children_example :
    (child_ids (children_of scene) "game_load.scene" ≡ stage_ids "game_load.scene" two_stages)
    × (bits scene ≡ 0 ∷ count_from 0 (length two_stages))
staged-children_example =
    staged-children "game_load.scene" "08-Scene" "long_scene" two_stages ("scenario" ∷ [])
      "Groups the stages" named

abbrev zeros : String
zeros = "0000000000000000000000000000000000000000000000000000000000000000"

abbrev platform : Platform
platform = record { sha256 = λ text. zeros; float_repr = λ m k. "0.0" }

abbrev repr : Json → String
repr v = "None"

render-Returns_example : Gives (λ out. Distinct (keys_of out)) (render platform repr)
render-Returns_example = render-Returns platform repr

abbrev voices : List String
voices =
    "mcpx_voice.mono_aligned" ∷ "mcpx_voice.stereo_aligned" ∷ "mcpx_voice.mono_page_crossing"
    ∷ "mcpx_voice.stereo_page_crossing" ∷ "mcpx_voice.pcm_control" ∷ []

voices_read : voice_ids (elems (documents [] entries)) ≡ ok voices
unfolding voice_ids documents entries string_dec xemu_perf_tests.Catalog.Entry.staged
    xemu_perf_tests.Base.Numerals.decimal
voices_read = refl

plans-IsSelection_example : All IsSelection (all_plans voices)
plans-IsSelection_example = plans-IsSelection [] voices voices_read

abbrev rendered : Files
rendered = ("resources/catalog.json", "{}") ∷ ("docs/generated/test-catalog.md", "# Tests") ∷ []

abbrev on_disk : Files
on_disk = ("README.md", "text") ∷ ("resources/catalog.json", "old") ∷ []

check-passes_iff_example :
    ((update true rendered on_disk).files ≡ on_disk)
    × ((exit_code true (update true rendered on_disk) ≡ 0) ↔ IsCurrent on_disk rendered)
check-passes_iff_example = check-passes_iff rendered on_disk

rendered-Distinct : Distinct (keys_of rendered)
unfolding string_dec
rendered-Distinct = (refl, (refl, tt))

abbrev first_run : Run
first_run = update false rendered on_disk

update-then_check_example :
    (exit_code false first_run ≡ 0)
    × (lookup "resources/catalog.json" first_run.files
        ≡ over (lookup "resources/catalog.json" rendered) (lookup "resources/catalog.json" on_disk))
    × (update true rendered first_run.files ≡ record { stale = []; files = first_run.files })
    × (exit_code true (update true rendered first_run.files) ≡ 0)
update-then_check_example =
    update-then_check rendered on_disk "resources/catalog.json" rendered-Distinct

abbrev library : Library
library = record { sha256 = λ bytes. zeros; loads = λ bytes. ok (obj (catalog platform entries)) }

abbrev commit : String
commit = "0123456789012345678901234567890123456789"

generated_catalog-manifest_example :
    (m : Fields) × (manifest library (1 ∷ []) (2 ∷ []) commit ≡ ok m)
    × Made library (1 ∷ []) (2 ∷ []) commit m
generated_catalog-manifest_example =
    generated_catalog-manifest platform library (1 ∷ []) (2 ∷ []) commit (λ text. refl) refl refl
      refl refl
