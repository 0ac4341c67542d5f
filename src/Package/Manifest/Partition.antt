-- ===== src/Package/Manifest/Partition.antt =====
-- The partition of the leaf tests into categories: `manifest` of utils/package_runner_suite.py.
use mathlib.Core.List.{Perm, append-nil, perm_middle}
use mathlib.Core.List.Perm
use xemu_perf_tests.Base.{
  All, true, false, String, some, List, [], ◌∷◌, ◌++◌, contains, is_empty, ◌≡◌, refl, sym,
  string_dec,
}
use xemu_perf_tests.Base.Result.{ok, ok_inj, >>=-eq-ok}
use xemu_perf_tests.Json.{Json, arr, Items, Fields, get, elems}
use xemu_perf_tests.Package.Category.{categories}
use xemu_perf_tests.Package.Iso.{Bytes}
use xemu_perf_tests.Package.Manifest.{
  read_catalog, read_kinds, atomic_groups, Library, Partitions, append_to, empty_partitions,
  category_of, place_all, ids, category_items, manifest, manifest_of,
}
use xemu_perf_tests.Package.Catalog.{Test}
use xemu_perf_tests.Package.Manifest.Append.{append_to-Perm, append_to-listed, append_to-keeps}
use xemu_perf_tests.Package.Manifest.Listing.{
  placed, tests_at, tests_of, listed, listed_under, listed-category_items, category_items-filled,
  listed_under-category_items,
}

pub place_all-Perm :
    (ts : List Test) (ps ps' : Partitions)
    → place_all ts ps ≡ ok ps'
    → Perm (placed ps') (ids ts ++ placed ps)
unfolding place_all
place_all-Perm [] ps ps' h = rw (← ok_inj h) Perm.rfl
place_all-Perm (t ∷ ts) ps ps' h =
    let (key, c, h1) = >>=-eq-ok (category_of t) _ h in
    let (qs, a, h2) = >>=-eq-ok (append_to key t.id ps) _ h1 in
    Perm.trans (place_all-Perm ts qs ps' h2) (
      Perm.trans (Perm.append_left (ids ts) (append_to-Perm key t.id ps qs a))
        (perm_middle (ids ts) (placed ps)))

-- A test is listed under its category.
pub record Placed (ps : Partitions) (t : Test) : Type 0 where
  pub key : String
  pub given : category_of t ≡ ok key
  pub under : contains (tests_at key ps) t.id ≡ true

place_all-keeps :
    (ts : List Test) (ps ps' : Partitions) (i j : String)
    → place_all ts ps ≡ ok ps'
    → contains (tests_at i ps) j ≡ true
    → contains (tests_at i ps') j ≡ true
unfolding place_all
place_all-keeps [] ps ps' i j h m = rw (← ok_inj h) m
place_all-keeps (t ∷ ts) ps ps' i j h m =
    let (key, c, h1) = >>=-eq-ok (category_of t) _ h in
    let (qs, a, h2) = >>=-eq-ok (append_to key t.id ps) _ h1 in
    place_all-keeps ts qs ps' i j h2 (append_to-keeps key t.id i j ps qs a m)

place_all-Placed :
    (ts : List Test) (ps ps' : Partitions) → place_all ts ps ≡ ok ps' → All (Placed ps') ts
unfolding place_all
place_all-Placed [] ps ps' h = tt
place_all-Placed (t ∷ ts) ps ps' h =
    let (key, c, h1) = >>=-eq-ok (category_of t) _ h in
    let (qs, a, h2) = >>=-eq-ok (append_to key t.id ps) _ h1 in
    (
      record {
        key = key;
        given = c;
        under = place_all-keeps ts qs ps' key t.id h2 (append_to-listed key t.id ps qs a);
      },
      place_all-Placed ts qs ps' h2,
    )

-- Each leaf test is listed once, under its category.
pub record IsPartition (ts : List Test) (ps : Partitions) : Type 0 where
  pub each_once : Perm (placed ps) (ids ts)
  pub in_place : All (Placed ps) ts

-- A test is in the manifest's list of categories, under its own.
pub record Listed (shown : Items) (t : Test) : Type 0 where
  pub key : String
  pub given : category_of t ≡ ok key
  pub under : contains (listed_under key shown) t.id ≡ true

-- The categories of a manifest list each leaf test once, under its category, and none is empty.
pub record IsListing (ts : List Test) (m : Fields) : Type 0 where
  pub shown : Items
  pub in_manifest : get "categories" m ≡ some (arr shown)
  pub each_once : Perm (listed shown) (ids ts)
  pub in_place : All (Listed shown) ts
  pub filled : All (λ v. is_empty (tests_of v) ≡ false) (elems shown)

-- What a manifest was made of, and what it lists.
pub record Made (l : Library) (iso catalog_bytes : Bytes) (commit : String) (m : Fields)
    : Type 0 where
  pub catalog : Fields
  pub catalog_id : String
  pub leaves : List Test
  pub groups : List Test
  pub partition : Partitions
  pub atomic : List Json
  pub read : read_catalog l iso catalog_bytes commit ≡ ok (catalog, catalog_id)
  pub counted : read_kinds catalog ≡ ok (leaves, groups)
  pub parted : IsPartition leaves partition
  pub listing : IsListing leaves m
  pub result : m ≡ manifest_of l iso catalog_bytes commit catalog_id partition atomic leaves

place_all-IsPartition :
    (ts : List Test) (ps : Partitions)
    → place_all ts (empty_partitions categories) ≡ ok ps
    → IsPartition ts ps
place_all-IsPartition ts ps h = record {
  each_once = rw (← append-nil (ids ts)) (place_all-Perm ts (empty_partitions categories) ps h);
  in_place = place_all-Placed ts (empty_partitions categories) ps h;
}

Placed-Listed :
    (ps : Partitions) (ts : List Test) → All (Placed ps) ts → All (Listed (category_items ps)) ts
Placed-Listed ps [] h = tt
Placed-Listed ps (t ∷ ts) (x, xs) = (
  record {
    key = x.key;
    given = x.given;
    under = listed_under-category_items x.key t.id ps x.under;
  },
  Placed-Listed ps ts xs,
)

IsPartition-IsListing :
    (l : Library) (iso catalog_bytes : Bytes) (commit id : String) (ps : Partitions)
    (atomic : List Json) (leaves : List Test)
    → IsPartition leaves ps
    → IsListing leaves (manifest_of l iso catalog_bytes commit id ps atomic leaves)
unfolding string_dec
IsPartition-IsListing l iso catalog_bytes commit id ps atomic leaves h = record {
  shown = category_items ps;
  in_manifest = refl;
  each_once = rw (listed-category_items ps) h.each_once;
  in_place = Placed-Listed ps leaves h.in_place;
  filled = category_items-filled ps;
}

-- In the list under "categories" of a manifest that `manifest` returns, the tests of all categories
-- together are the leaf tests of the catalog, each exactly once, each leaf test stands under the
-- identifier of the category that `category` gives it, and no category is empty.
pub manifest-Made :
    (l : Library) (iso catalog_bytes : Bytes) (commit : String) (m : Fields)
    → manifest l iso catalog_bytes commit ≡ ok m
    → Made l iso catalog_bytes commit m
unfolding manifest
manifest-Made l iso catalog_bytes commit m h =
    let (catalog, c, h1) = >>=-eq-ok (read_catalog l iso catalog_bytes commit) _ h in
    let (kinds, k, h2) = >>=-eq-ok (read_kinds catalog.0) _ h1 in
    let (ps, p, h3) = >>=-eq-ok (place_all kinds.0 (empty_partitions categories)) _ h2 in
    let (atomic, a, h4) = >>=-eq-ok (atomic_groups kinds.1) _ h3 in
    record {
      catalog = catalog.0;
      catalog_id = catalog.1;
      leaves = kinds.0;
      groups = kinds.1;
      partition = ps;
      atomic = atomic;
      read = c;
      counted = k;
      parted = place_all-IsPartition kinds.0 ps p;
      listing = rw (← ok_inj h4) (
          IsPartition-IsListing l iso catalog_bytes commit catalog.1 ps atomic kinds.0
            (place_all-IsPartition kinds.0 ps p));
      result = sym (ok_inj h4);
    }
