-- ===== src/Catalog/Update.antt =====
-- `main` of utils/test_catalog.py on the files below the root, which are a dict from paths to texts.
pub mod Current
-- The directories on the way are made by `mkdir` and not modelled; no path is a directory.
use xemu_perf_tests.Base.{
  ℕ, Bool, true, false, not, ◌&&◌, ◌||◌, String, str_eq, Option, none, some, List, [], ◌∷◌, lookup,
  insert, is_empty, if◌then◌else◌,
}
use xemu_perf_tests.Catalog.Render.{Files}

abbrev pub holds : Option String → String → Bool
holds none text = false
holds (some old) text = str_eq old text

-- `path.exists() and path.read_text() == content`
abbrev pub is_current : Files → String → String → Bool
is_current files path text = holds (lookup path files) text

pub record Run : Type 0 where
  pub stale : List String
  pub files : Files

-- The loop over what `render` returned.
unfoldable pub update : Bool → Files → Files → Run
update check [] files = record { stale = []; files = files }
update check ((path, text) ∷ output) files =
    let current = is_current files path text in
    let rest = update check output (if current || check then files else insert path text files) in
    record { stale = if current then rest.stale else path ∷ rest.stale; files = rest.files }

-- The exit code; the stale paths are printed before a 1.
abbrev pub exit_code : Bool → Run → ℕ
exit_code check run = if not (is_empty run.stale) && check then 1 else 0
