-- ===== src/Bitmap.antt =====
-- Bit maps over bytes: the inline helpers of kernel/src/memory/pmm.c and the identifier maps of
-- kernel/src/defines/helpers.c and helpers.h.
pub mod Laws
use creeper_os_v.Prelude.{
  ℕ, zero, suc, ◌+◌, ◌-◌, ◌*◌, ◌/◌, ◌%◌, ◌^◌, ◌≤◌, ◌<◌, bit_and, bit_or, ◌≡◌, Bool, true, false,
  if◌then◌else◌, ◌==◌,
}

-- The bytes from the map's first on. An index past the map is whatever memory follows it.
abbrev pub Bytes : Type 0
Bytes = ℕ → ℕ

abbrev pub store : Bytes → ℕ → ℕ → Bytes
store m i v j = if j == i then v else m j

-- `b | 1u << k` and `b & ~(1u << k)`, stored back into a byte, and `b >> k & 1`.
unfoldable pub byte_set : ℕ → ℕ → ℕ
byte_set b k = bit_or b (2 ^ k) % 256

unfoldable pub byte_clear : ℕ → ℕ → ℕ
byte_clear b k = bit_and b (2 ^ 32 - 1 - 2 ^ k) % 256

unfoldable pub byte_test : ℕ → ℕ → ℕ
byte_test b k = bit_and (b / 2 ^ k) 1

unfoldable pub bitmap_set : Bytes → ℕ → Bytes
unfolding byte_set
bitmap_set m bit = store m (bit / 8) (byte_set (m (bit / 8)) (bit % 8))

unfoldable pub bitmap_clear : Bytes → ℕ → Bytes
unfolding byte_clear
bitmap_clear m bit = store m (bit / 8) (byte_clear (m (bit / 8)) (bit % 8))

unfoldable pub bitmap_test : Bytes → ℕ → Bool
unfolding byte_test
bitmap_test m bit = byte_test (m (bit / 8)) (bit % 8) == 1
