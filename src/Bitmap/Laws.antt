-- ===== src/Bitmap/Laws.antt =====
-- What a set, a clear and a test of one bit mean, over all bytes: kernel/src/memory/pmm.c.
use creeper_os_v.Prelude.{
  ℕ, ◌/◌, ◌%◌, ◌<◌, ◌≡◌, refl, arith, Bool, true, false, ◌||◌, ◌&&◌, not, holds_to, holds_to_sound,
  ◌==◌,
}
use creeper_os_v.Bitmap.{
  Bytes, byte_set, byte_clear, byte_test, bitmap_set, bitmap_clear, bitmap_test,
}

beq : Bool → Bool → Bool
beq true b = b
beq false b = not b

beq_sound : (a b : Bool) → beq a b ≡ true → a ≡ b
unfolding beq
beq_sound a b h = ground arith

set_ok : ℕ → ℕ → ℕ → Bool
unfolding byte_set byte_test beq
set_ok b k j = beq (byte_test (byte_set b k) j == 1) ((j == k) || (byte_test b j == 1))

clear_ok : ℕ → ℕ → ℕ → Bool
unfolding byte_clear byte_test beq
clear_ok b k j = beq (byte_test (byte_clear b k) j == 1) (not (j == k) && (byte_test b j == 1))

for_bytes : (ℕ → ℕ → ℕ → Bool) → Bool
for_bytes p = holds_to 256 λ b. holds_to 8 λ k. holds_to 8 λ j. p b k j

for_bytes_sound :
    (p : ℕ → ℕ → ℕ → Bool)
    → for_bytes p ≡ true
    → (b k j : ℕ) → b < 256
    → k < 8
    → j < 8
    → p b k j ≡ true
unfolding for_bytes
for_bytes_sound p h b k j hb hk hj =
    holds_to_sound 8 _ j (holds_to_sound 8 _ k (holds_to_sound 256 _ b h hb) hk) hj

set_table : for_bytes set_ok ≡ true
unfolding for_bytes holds_to set_ok
set_table = refl

clear_table : for_bytes clear_ok ≡ true
unfolding for_bytes holds_to clear_ok
clear_table = refl

byte_test-set :
    (b k j : ℕ)
    → b < 256
    → k < 8
    → j < 8
    → (byte_test (byte_set b k) j == 1) ≡ ((j == k) || (byte_test b j == 1))
unfolding set_ok
byte_test-set b k j hb hk hj = beq_sound _ _ (for_bytes_sound set_ok set_table b k j hb hk hj)

byte_test-clear :
    (b k j : ℕ)
    → b < 256
    → k < 8
    → j < 8
    → (byte_test (byte_clear b k) j == 1) ≡ (not (j == k) && (byte_test b j == 1))
unfolding clear_ok
byte_test-clear b k j hb hk hj = beq_sound _ _ (for_bytes_sound clear_ok clear_table b k j hb hk hj)

-- Every byte of the map is below 256.
abbrev pub IsBytes : Bytes → Type 0
IsBytes m = (i : ℕ) → m i < 256

-- A set bit reads as set, and no other bit of the map changes.
pub bitmap_test-set :
    (m : Bytes) (i j : ℕ)
    → IsBytes m
    → bitmap_test (bitmap_set m i) j ≡ ((j == i) || bitmap_test m j)
unfolding bitmap_test bitmap_set
bitmap_test-set m i j h =
    ground
      (arith, byte_test-set (m (i / 8)) (i % 8) (j % 8) (h (i / 8)) (omega arith) (omega arith))

pub bitmap_test-clear :
    (m : Bytes) (i j : ℕ)
    → IsBytes m
    → bitmap_test (bitmap_clear m i) j ≡ (not (j == i) && bitmap_test m j)
unfolding bitmap_test bitmap_clear
bitmap_test-clear m i j h =
    ground
      (arith, byte_test-clear (m (i / 8)) (i % 8) (j % 8) (h (i / 8)) (omega arith) (omega arith))

pub set-IsBytes : (m : Bytes) (i : ℕ) → IsBytes m → IsBytes (bitmap_set m i)
unfolding bitmap_set byte_set
set-IsBytes m i h j = ground (arith, h j)

pub clear-IsBytes : (m : Bytes) (i : ℕ) → IsBytes m → IsBytes (bitmap_clear m i)
unfolding bitmap_clear byte_clear
clear-IsBytes m i h j = ground (arith, h j)

full_table : holds_to 8 (λ k. byte_test 255 k == 1) ≡ true
unfolding holds_to byte_test
full_table = refl

-- In a byte of ones every bit is set.
pub bitmap_test_full : (m : Bytes) (j : ℕ) → m (j / 8) ≡ 255 → bitmap_test m j ≡ true
unfolding bitmap_test
bitmap_test_full m j e = rw e (holds_to_sound 8 _ (j % 8) full_table (omega arith))
