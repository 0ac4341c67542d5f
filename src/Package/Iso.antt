-- ===== src/Package/Iso.antt =====
-- `embedded_catalog` of utils/package_runner_suite.py: the walk through the root directory of the
-- image. Bytes are lists of numbers.
pub mod Walk
pub mod Sound
use xemu_perf_tests.Base.{
  ℕ, zero, suc, ◌+◌, ◌*◌, ◌/◌, ◌%◌, ◌==◌, leb, ltb, Bool, true, false, not, ◌&&◌, ◌||◌, Option,
  none, some, List, [], ◌∷◌, ◌++◌, length, take, drop, if◌then◌else◌,
}
use xemu_perf_tests.Base.Text.{is_some}
use xemu_perf_tests.Base.Result.{Error, Result, ok, err, invalid, guard, ◌>>=◌, ◌>>◌}

abbrev pub Bytes : Type 0
Bytes = List ℕ

abbrev pub byte : Bytes → ℕ → ℕ
byte [] i = 0
byte (b ∷ bs) zero = b
byte (b ∷ bs) (suc i) = byte bs i

-- "<H" and "<I" of `struct.unpack_from`; the callers have checked that the bytes are there.
abbrev pub read_u16 : Bytes → ℕ → ℕ
read_u16 bs i = byte bs i + 256 * byte bs (i + 1)

abbrev pub read_u32 : Bytes → ℕ → ℕ
read_u32 bs i = read_u16 bs i + 65536 * read_u16 bs (i + 2)

abbrev pub bytes_eq : Bytes → Bytes → Bool
bytes_eq [] [] = true
bytes_eq (a ∷ xs) (b ∷ ys) = a == b && bytes_eq xs ys
bytes_eq _ _ = false

-- `bs[i:i + n]`
abbrev pub slice : ℕ → ℕ → Bytes → Bytes
slice i n bs = take n (drop i bs)

-- `span`: the numbers come from unsigned fields, so none is below 0.
unfoldable pub span : Bytes → ℕ → ℕ → Result Bytes
span iso offset size =
    if leb (offset + size) (length iso)
    then ok (slice offset size iso)
    else err (invalid "XISO embedded catalog points outside the image.")

-- b'MICROSOFT*XBOX*MEDIA'
abbrev pub magic : Bytes
magic =
    77 ∷ 73 ∷ 67 ∷ 82 ∷ 79 ∷ 83 ∷ 79 ∷ 70 ∷ 84 ∷ 42 ∷ 88 ∷ 66 ∷ 79 ∷ 88 ∷ 42 ∷ 77 ∷ 69 ∷ 68 ∷ 73
    ∷ 65 ∷ []

-- b'catalog.json'
abbrev pub catalog_name : Bytes
catalog_name = 99 ∷ 97 ∷ 116 ∷ 97 ∷ 108 ∷ 111 ∷ 103 ∷ 46 ∷ 106 ∷ 115 ∷ 111 ∷ 110 ∷ []

-- `lower` of bytes: the capitals of ASCII.
abbrev lower_byte : ℕ → ℕ
lower_byte b = if leb 65 b && leb b 90 then b + 32 else b

abbrev pub lower_bytes : Bytes → Bytes
lower_bytes [] = []
lower_bytes (b ∷ bs) = lower_byte b ∷ lower_bytes bs

-- A directory entry: "<HHIIBB".
pub record Entry : Type 0 where
  pub left : ℕ
  pub right : ℕ
  pub sector : ℕ
  pub size : ℕ
  pub flags : ℕ
  pub name_size : ℕ

abbrev pub entry_at : Bytes → ℕ → Entry
entry_at directory offset = record {
  left = read_u16 directory offset;
  right = read_u16 directory (offset + 2);
  sector = read_u32 directory (offset + 4);
  size = read_u32 directory (offset + 8);
  flags = byte directory (offset + 12);
  name_size = byte directory (offset + 13);
}

abbrev pub visits : List ℕ → ℕ → Bool
visits [] offset = false
visits (v ∷ vs) offset = offset == v || visits vs offset

-- What the loop carries. The end of the list `pending` comes first here.
pub record State : Type 0 where
  pub pending : List ℕ
  pub visited : List ℕ
  pub catalog : Option Bytes

-- `if child: pending.append(child * 4)`
abbrev pub push_child : ℕ → List ℕ → List ℕ
push_child zero pending = pending
push_child (suc n) pending = suc n * 4 ∷ pending

-- `flags & 0x10`
abbrev pub is_directory : Entry → Bool
is_directory e = e.flags / 16 % 2 == 1

abbrev pub acceptable : Entry → Option Bytes → Bool
acceptable e catalog =
    not (is_some catalog || is_directory e || not (leb 2 e.size && leb e.size 1048576))

abbrev pub ambiguous : Error
ambiguous = invalid "Ambiguous or invalid XISO embedded catalog."

unfoldable pub catalog_of : Bytes → Entry → Option Bytes → Result (Option Bytes)
unfolding span
catalog_of iso e catalog = do
  guard (acceptable e catalog) ambiguous
  bytes ← span iso (e.sector * 2048) e.size
  ok (some bytes)

unfoldable pub take_entry : Bytes → Bytes → ℕ → Option Bytes → Result (Option Bytes)
unfolding catalog_of
take_entry iso directory offset catalog =
    if bytes_eq (lower_bytes (slice (offset + 14) (entry_at directory offset).name_size directory))
      catalog_name
    then catalog_of iso (entry_at directory offset) catalog
    else ok catalog

abbrev pub may_visit : Bytes → ℕ → State → Bool
may_visit directory offset s = not (
    visits s.visited offset
    || leb 65536 (length s.visited)
    || not (leb (offset + 14) (length directory)))

abbrev pub is_entry : Bytes → ℕ → Bool
is_entry directory offset = not (
    (entry_at directory offset).name_size == 0
    || not (leb (offset + 14 + (entry_at directory offset).name_size) (length directory)))

abbrev pub bad_graph : Error
bad_graph = invalid "Invalid XISO embedded catalog directory graph."

abbrev pub bad_entry : Error
bad_entry = invalid "Invalid XISO embedded catalog entry."

abbrev pub after_visit : Entry → ℕ → List ℕ → List ℕ → Option Bytes → State
after_visit e offset rest visited catalog = record {
  pending = push_child e.right (push_child e.left rest);
  visited = offset ∷ visited;
  catalog = catalog;
}

-- One round: the entry at `offset`, where `rest` is still pending.
unfoldable pub visit : Bytes → Bytes → ℕ → List ℕ → State → Result State
unfolding take_entry
visit iso directory offset rest s = do
  guard (may_visit directory offset s) bad_graph
  guard (is_entry directory offset) bad_entry
  catalog ← take_entry iso directory offset s.catalog
  ok (after_visit (entry_at directory offset) offset rest s.visited catalog)

abbrev pub carry_on :
    Result State → (State → Option (Result (Option Bytes))) → Option (Result (Option Bytes))
carry_on (err e) next = some (err e)
carry_on (ok s) next = next s

abbrev pub finished : State → Option (Result (Option Bytes))
finished s = elim s.pending [ [] ↦ some (ok s.catalog) | offset ∷ rest ↦ none ]

-- The rounds of the loop; `none` if they are used up before the loop ends.
unfoldable pub walk : Bytes → Bytes → ℕ → State → Option (Result (Option Bytes))
unfolding visit
walk iso directory zero s = finished s
walk iso directory (suc rounds) s = elim s.pending [
  | [] ↦ some (ok s.catalog)
  | offset ∷ rest ↦ carry_on (visit iso directory offset rest s) (walk iso directory rounds)
]

-- At most 65536 entries are visited, and one more round raises.
abbrev pub enough : ℕ
enough = 65537

abbrev pub start : State
start = record { pending = 0 ∷ []; visited = []; catalog = none }

abbrev pub found_catalog : Option Bytes → Result Bytes
found_catalog none = err (invalid "XISO has no embedded root catalog.json.")
found_catalog (some bytes) = ok bytes

unfoldable pub read_directory : Bytes → Bytes → Result Bytes
unfolding span
read_directory iso volume = do
  guard (bytes_eq (take 20 volume) magic && bytes_eq (slice 2028 20 volume) magic)
      (invalid "Expected a self-contained XISO with an embedded catalog.")
  guard (leb 14 (read_u32 volume 24) && leb (read_u32 volume 24) 1048576)
      (invalid "XISO root directory exceeds the embedded catalog reader limit.")
  span iso (read_u32 volume 20 * 2048) (read_u32 volume 24)

-- The volume descriptor, and the root directory that it points to.
unfoldable pub root_directory : Bytes → Result Bytes
unfolding read_directory
root_directory iso = span iso 65536 2048 >>= read_directory iso

abbrev pub walked : Bytes → ℕ → Result Bytes → Option (Result (Option Bytes))
walked iso rounds (err e) = some (err e)
walked iso rounds (ok directory) = walk iso directory rounds start

abbrev pub returned : Result (Option Bytes) → Result Bytes
returned result = result >>= found_catalog

abbrev pub outcome : Option (Result (Option Bytes)) → Option (Result Bytes)
outcome none = none
outcome (some r) = some (returned r)

-- `none` if the rounds do not do.
unfoldable pub embedded_catalog : ℕ → Bytes → Option (Result Bytes)
unfolding root_directory walk
embedded_catalog rounds iso = outcome (walked iso rounds (root_directory iso))
