-- ===== src/Tests/Package.antt =====
-- The theorems on utils/package_runner_suite.py at a concrete image.
use xemu_perf_tests.Base.{
  ℕ, zero, suc, ◌+◌, [], ◌∷◌, ◌++◌, length, take, drop, some, none, true, leb, ◌∙◌, ◌≡◌, refl, ap,
  arith, length-append,
}
use xemu_perf_tests.Base.Result.{◌>>=◌, Result, ok}
use xemu_perf_tests.Package.Iso.{
  root_directory, read_directory, take_entry, visit, start, after_visit, entry_at, walk, carry_on,
  outcome, walked, span, Bytes, enough, embedded_catalog, magic, slice, catalog_name,
}
use xemu_perf_tests.Package.Iso.Walk.{embedded_catalog_ends}
use xemu_perf_tests.Package.Iso.Sound.{IsInside, embedded_catalog-IsInside}

abbrev zeros : ℕ → Bytes
zeros zero = []
zeros (suc n) = 0 ∷ zeros n

length-zeros : (n : ℕ) → length (zeros n) ≡ n
length-zeros zero = refl
length-zeros (suc n) = ap suc (length-zeros n)

drop-zeros : (n k : ℕ) (bs : Bytes) → drop (n + k) (zeros n ++ bs) ≡ drop k bs
drop-zeros zero k bs = let e : 0 + k ≡ k = omega arith in rw e refl
drop-zeros (suc n) k bs = let e : suc n + k ≡ suc (n + k) = omega arith in rw e (drop-zeros n k bs)

-- The root directory is in sector 33 and has 34 bytes; the catalog is in sector 34.
abbrev volume : Bytes
volume = magic ++ (33 ∷ 0 ∷ 0 ∷ 0 ∷ 34 ∷ 0 ∷ 0 ∷ 0 ∷ []) ++ zeros 2000 ++ magic

abbrev directory : Bytes
directory = 0 ∷ 0 ∷ 0 ∷ 0 ∷ 34 ∷ 0 ∷ 0 ∷ 0 ∷ 2 ∷ 0 ∷ 0 ∷ 0 ∷ 0 ∷ 12 ∷ catalog_name ++ zeros 8

abbrev tail : Bytes
tail = volume ++ directory ++ zeros 2014 ++ (123 ∷ 125 ∷ [])

pub image : Bytes
image = zeros 65536 ++ tail

length-image : length image ≡ 69634
unfolding image
length-image = length-append (zeros 65536) tail ∙ ap (λ n. n + length tail) (length-zeros 65536)

volume_there : slice 65536 2048 image ≡ volume
unfolding image
volume_there = ap (take 2048) (drop-zeros 65536 0 tail)

directory_there : slice 67584 34 image ≡ directory
unfolding image
directory_there = ap (take 34) (drop-zeros 65536 2048 tail)

catalog_there : slice 69632 2 image ≡ 123 ∷ 125 ∷ []
unfolding image
catalog_there = ap (take 2) (drop-zeros 65536 4096 tail)

fits : (n m : ℕ) → length image ≡ m → leb n m ≡ true → leb n (length image) ≡ true
fits n m e h = rw e h

volume_read : span image 65536 2048 ≡ ok volume
unfolding span
volume_read = rw (fits 67584 69634 length-image refl) (ap ok volume_there)

directory_read : span image 67584 34 ≡ ok directory
unfolding span
directory_read = rw (fits 67618 69634 length-image refl) (ap ok directory_there)

catalog_read : span image 69632 2 ≡ ok (123 ∷ 125 ∷ [])
unfolding span
catalog_read = rw (fits 69634 69634 length-image refl) (ap ok catalog_there)

root_found : root_directory image ≡ ok directory
unfolding root_directory
root_found = ap (λ r. r >>= read_directory image) volume_read ∙ directory_read

pub found : Bytes
found = 123 ∷ 125 ∷ []

catalog_taken : take_entry image directory 0 none ≡ ok (some found)
unfolding take_entry found
catalog_taken = ap (λ (r : Result Bytes). r >>= λ bytes. ok (some bytes)) catalog_read

first_visit :
    visit image directory 0 [] start ≡ ok (after_visit (entry_at directory 0) 0 [] [] (some found))
unfolding visit
first_visit =
    ap (λ r. r >>= λ catalog. ok (after_visit (entry_at directory 0) 0 [] [] catalog)) catalog_taken

walk_found : walk image directory enough start ≡ some (ok (some found))
unfolding walk
walk_found = ap (λ r. carry_on r (walk image directory 65536)) first_visit

catalog_found : embedded_catalog enough image ≡ some (ok found)
unfolding embedded_catalog
catalog_found = ap (λ d. outcome (walked image enough d)) root_found ∙ ap outcome walk_found

embedded_catalog_ends_example : (r : Result Bytes) × (embedded_catalog enough image ≡ some r)
embedded_catalog_ends_example = embedded_catalog_ends image

embedded_catalog-IsInside_example : IsInside image found
embedded_catalog-IsInside_example = embedded_catalog-IsInside image found enough catalog_found
