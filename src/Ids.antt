-- ===== src/Ids.antt =====
-- The identifier maps of kernel/src/defines/helpers.c and helpers.h, in which a set bit is a free
-- identifier.
pub mod Lowest
pub mod Examples
use creeper_os_v.Prelude.{
  ℕ, zero, suc, ◌+◌, ◌-◌, ◌*◌, ◌/◌, ◌%◌, ◌^◌, ◌≤◌, ◌<◌, ◌≡◌, ◌≢◌, refl, ◌⊎◌, inl, inr, Bool, true,
  false, not, ◌&&◌, ◌||◌, if◌then◌else◌, ◌==◌, ltb, leb, arith, holds_to, holds_to_sound,
  Bool-cases, size_max,
}
use creeper_os_v.Bitmap.{Bytes, byte_test, bitmap_set, bitmap_clear, bitmap_test}
use creeper_os_v.Bitmap.Laws.{IsBytes, bitmap_test-clear, clear-IsBytes}

-- bitmap_set of helpers.h, which clears where the state is 0.
unfoldable pub bitmap_put : Bytes → (idx : ℕ) → (state : Bool) → Bytes
unfolding bitmap_set bitmap_clear
bitmap_put m idx state = if state then bitmap_set m idx else bitmap_clear m idx

-- __builtin_ctz: the number of zero bits below the lowest set one, in `rounds` bits.
unfoldable pub trailing_zeros : (rounds b : ℕ) → ℕ
trailing_zeros zero b = 0
trailing_zeros (suc rounds) b =
    let rest = trailing_zeros rounds (b / 2) in if b % 2 == 1 then 0 else rest + 1

unfoldable pub ctz : ℕ → ℕ
unfolding trailing_zeros
ctz b = trailing_zeros 8 b

-- The loop, from byte `i` on, with `rounds` bytes left.
unfoldable pub alloc_from : (rounds i : ℕ) → Bytes → ℕ × Bytes
unfolding ctz bitmap_put
alloc_from zero i m = (size_max, m)
alloc_from (suc rounds) i m =
    let rest = alloc_from rounds (i + 1) m in
    let idx = (i * 8 + ctz (m i)) % 2 ^ 64 in
    if m i == 0 then rest else (idx, bitmap_put m idx false)

unfoldable pub bitmap_alloc_1_first : Bytes → (nbytes : ℕ) → ℕ × Bytes
unfolding alloc_from
bitmap_alloc_1_first m nbytes = alloc_from nbytes 0 m
