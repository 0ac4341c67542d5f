-- ===== src/Sync.antt =====
-- `_build_relative_paths` of cmake/modules/SyncResourceDirs.py: the root that a resource directory is
-- taken relative to.
pub mod Longest
pub mod Files
pub mod Copy
pub mod Copied
pub mod Synced
pub mod Found
pub mod Twice
pub mod Perform
pub mod Receipt
use Prim.Native.String.{count}
use xemu_perf_tests.Base.{
  ℕ, zero, suc, ◌+◌, ltb, Bool, true, false, ◌&&◌, String, Option, none, some, List, [], ◌∷◌,
  insert, if◌then◌else◌,
}
use xemu_perf_tests.Base.Text.{starts_with}

-- `s[n:]`
abbrev pub drop_chars : ℕ → String → String
drop_chars zero s = s
drop_chars (suc n) String.[] = String.[]
drop_chars (suc n) (String.◌∷◌ c s) = drop_chars n s

-- `longest_match` and `rootless`; no match yet is -1.
pub record Best : Type 0 where
  pub longest : Option ℕ
  pub rootless : String

abbrev pub is_longer : ℕ → Option ℕ → Bool
is_longer n none = true
is_longer n (some m) = ltb m n

-- The loop over the roots.
unfoldable pub best_root : String → List String → Best → Best
unfolding starts_with
best_root directory [] best = best
best_root directory (root ∷ roots) best =
    if starts_with directory root && is_longer (count root) best.longest
    then best_root directory roots
        (record { longest = some (count root); rootless = drop_chars (count root + 1) directory })
    else best_root directory roots best

unfoldable pub rootless : List String → String → String
unfolding best_root
rootless roots directory =
    (best_root directory roots (record { longest = none; rootless = "" })).rootless

-- `_build_relative_paths`: a dict from the directories.
unfoldable pub relative_paths :
    List String → List String → List (String × String) → List (String × String)
unfolding rootless
relative_paths roots [] ret = ret
relative_paths roots (d ∷ ds) ret = relative_paths roots ds (insert d (rootless roots d) ret)

unfoldable pub build_relative_paths : List String → List String → List (String × String)
unfolding relative_paths
build_relative_paths roots directories = relative_paths roots directories []
