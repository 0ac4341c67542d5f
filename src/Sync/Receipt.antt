-- ===== src/Sync/Receipt.antt =====
-- What `perform_sync` of cmake/modules/SyncResourceDirs.py leaves under the path of its receipt.
use xemu_perf_tests.Base.{
  true, false, not, ◌||◌, String, str_eq, some, List, [], ◌∷◌, map, is_empty, lookup, insert,
  lookup-insert, if◌then◌else◌, ◌≡◌, refl, ◌⊎◌, inl, inr, Bool-cases, arith, str_eq_self,
}
use xemu_perf_tests.Base.Text.{contains_text, is_blank, is_some}
use xemu_perf_tests.Base.Result.{ok}
use xemu_perf_tests.Sync.{build_relative_paths, relative_paths}
use xemu_perf_tests.Sync.Files.{File, Files, join}
use xemu_perf_tests.Sync.Copy.{Change}
use xemu_perf_tests.Sync.Perform.{sync_all, perform_sync, write_receipt, with_receipt}

receipt_here :
    (r : File) (path : String) (changes : List Change) (files : Files)
    → is_blank path ≡ false
    → lookup path (with_receipt r path changes files) ≡ (
        if not (is_empty changes) || not (is_some (lookup path files))
        then some r
        else lookup path files)
receipt_here r path changes files h =
    let here : lookup path (insert path r files) ≡ some r =
      rw (lookup-insert path path r files, str_eq_self path) refl in
    elim (Bool-cases (not (is_empty changes) || not (is_some (lookup path files)))) [
      | inl e ↦ rw (h, e) here
      | inr e ↦ rw (h, e) refl
    ]

receipt_elsewhere :
    (r : File) (path : String) (changes : List Change) (files : Files) (p : String)
    → (str_eq p path ≡ true) ⊎ (lookup p (with_receipt r path changes files) ≡ lookup p files)
receipt_elsewhere r path changes files p = elim (Bool-cases (str_eq p path)) [
  | inl e ↦ inl e
  | inr e ↦ inr (ground (arith, lookup-insert p path r files))
]

returned :
    (receipt : List Change → File) (output path : String) (roots directories ignore : List String)
    (files : Files)
    → contains_text path "/" ≡ true
    → let synced =
        sync_all output (map (join output) ignore) (build_relative_paths roots directories) files in
      perform_sync receipt output (some path) (some roots) (some directories) (some ignore) files
      ≡ ok (with_receipt (receipt synced.1) path synced.1 synced.0)
unfolding perform_sync write_receipt build_relative_paths relative_paths
returned receipt output path roots [] ignore files slash = rw slash refl
returned receipt output path roots (d ∷ directories) ignore files slash = rw slash refl

-- With every argument given, and a receipt whose path has a separator, `perform_sync` returns: under the receipt's path stands a new receipt if a directory changed or none was there, and else the old one; every other path is as the directories left it.
pub perform_sync-receipt :
    (receipt : List Change → File) (output path : String) (roots directories ignore : List String)
    (files : Files) (p : String)
    → is_blank path ≡ false
    → contains_text path "/" ≡ true
    → let synced =
        sync_all output (map (join output) ignore) (build_relative_paths roots directories) files in
      (out : Files) × (perform_sync receipt output
          (some path)
          (some roots)
          (some directories)
          (some ignore)
          files
        ≡ ok out)
      × (lookup path out ≡ (
          if not (is_empty synced.1) || not (is_some (lookup path synced.0))
          then some (receipt synced.1)
          else lookup path synced.0))
      × ((str_eq p path ≡ true) ⊎ (lookup p out ≡ lookup p synced.0))
unfolding perform_sync
perform_sync-receipt receipt output path roots directories ignore files p h slash =
    let synced =
      sync_all output (map (join output) ignore) (build_relative_paths roots directories) files in
    (
      with_receipt (receipt synced.1) path synced.1 synced.0,
      returned receipt output path roots directories ignore files slash,
      receipt_here (receipt synced.1) path synced.1 synced.0 h,
      receipt_elsewhere (receipt synced.1) path synced.1 synced.0 p,
    )
