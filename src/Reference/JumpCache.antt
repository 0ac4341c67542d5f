-- ===== src/Reference/JumpCache.antt =====
-- utils/cpu_jump_cache_reference.py: the work of the generated functions, and the page that holds
-- them.
pub mod Page
use Prim.Native.Nat.{bit_xor, bit_or}
use xemu_perf_tests.Base.{
  ℕ, zero, suc, ◌+◌, ◌*◌, ◌/◌, ◌%◌, ◌^◌, List, [], ◌∷◌, ◌++◌, length, take, drop,
}

-- The mask of the target with this index.
unfoldable pub mask : ℕ → ℕ
mask index = (index + 1) * 0x9E3779B9 % 2 ^ 32

-- One operation of `recurrence`: the target's mask goes in, then a rotation by 7 and an addition.
unfoldable pub operate : ℕ → ℕ → ℕ → ℕ
unfolding mask
operate count operation state =
    let value = bit_xor (bit_xor state operation) (mask (operation % count)) in
    (bit_or (value * 128) (value / 2 ^ 25) % 2 ^ 32 + 0x7F4A7C15) % 2 ^ 32

-- `rounds` operations from the number `operation` on.
unfoldable pub operate_from : ℕ → ℕ → ℕ → ℕ → ℕ
unfolding operate
operate_from count zero operation state = state
operate_from count (suc rounds) operation state =
    operate_from count rounds (operation + 1) (operate count operation state)

-- `recurrence`, for a count above 0
unfoldable pub recurrence : ℕ → ℕ
unfolding operate_from
recurrence count = operate_from count 8000000 0 0x12345678

-- `struct.pack('<I', n)`, for n below 2^32
abbrev pub pack_u32 : ℕ → List ℕ
pack_u32 n = n % 256 ∷ n / 256 % 256 ∷ n / 65536 % 256 ∷ n / 16777216 % 256 ∷ []

-- The code of a target: load, exclusive or, rotate, add, return.
unfoldable pub code : ℕ → List ℕ
unfolding mask
code index =
    (0x8b ∷ 0x44 ∷ 0x24 ∷ 0x04 ∷ 0x35 ∷ [])
    ++ pack_u32 (mask index)
    ++ (0xc1 ∷ 0xc0 ∷ 0x07 ∷ 0x05 ∷ [])
    ++ pack_u32 0x7F4A7C15
    ++ (0xc3 ∷ [])

-- `page[start:start + len(code)] = code`
abbrev pub overwrite : ℕ → List ℕ → List ℕ → List ℕ
overwrite start bytes page = take start page ++ (bytes ++ drop (start + length bytes) page)

-- The loop that writes the targets from `index` on.
unfoldable pub write_targets : ℕ → ℕ → ℕ → List ℕ → List ℕ
unfolding code
write_targets zero index stride page = page
write_targets (suc count) index stride page =
    write_targets count (index + 1) stride (overwrite (index * stride) (code index) page)

abbrev pub filled : ℕ → List ℕ
filled zero = []
filled (suc n) = 0x90 ∷ filled n

-- The page once all targets are written.
unfoldable pub target_page : ℕ → ℕ → List ℕ
unfolding write_targets
target_page count stride = write_targets count 0 stride (filled 4096)

unfoldable pub fnv32 : List ℕ → ℕ → ℕ
fnv32 [] value = value
fnv32 (byte ∷ bytes) value = fnv32 bytes (bit_xor value byte * 16777619 % 2 ^ 32)

unfoldable pub page_hash : ℕ → ℕ → ℕ
unfolding target_page fnv32
page_hash count stride = fnv32 (target_page count stride) 2166136261
