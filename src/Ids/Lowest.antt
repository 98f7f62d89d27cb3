-- ===== src/Ids/Lowest.antt =====
-- Which identifier the search of kernel/src/defines/helpers.c takes.
use creeper_os_v.Prelude.{
  ℕ, zero, suc, ◌+◌, ◌*◌, ◌/◌, ◌%◌, ◌^◌, ◌≤◌, ◌<◌, ◌≡◌, refl, ◌⊎◌, inl, inr, Bool, true, false, not,
  ◌&&◌, ◌||◌, ◌==◌, ltb, leb, arith, holds_to, holds_to_sound, Bool-cases, size_max,
}
use creeper_os_v.Bitmap.{Bytes, byte_test, bitmap_test}
use creeper_os_v.Bitmap.Laws.{IsBytes, bitmap_test-clear}
use creeper_os_v.Ids.{bitmap_put, ctz, alloc_from, bitmap_alloc_1_first}

first_ok : ℕ → Bool
unfolding ctz byte_test
first_ok b =
    (b == 0)
    || (ltb (ctz b) 8
        && (byte_test b (ctz b) == 1)
        && holds_to 8 (λ k. leb (ctz b) k || not (byte_test b k == 1)))

first_table : holds_to 256 first_ok ≡ true
unfolding holds_to first_ok
first_table = refl

zero_table : holds_to 8 (λ k. not (byte_test 0 k == 1)) ≡ true
unfolding holds_to byte_test
zero_table = refl

-- In a byte that is not 0 the lowest set bit is the one that the count of trailing zeros names.
lowest-set :
    (b : ℕ)
    → b < 256
    → (b == 0) ≡ false
    → (ctz b < 8)
      × ((byte_test b (ctz b) == 1) ≡ true)
      × ((k : ℕ) → k < 8 → k < ctz b → (byte_test b k == 1) ≡ false)
unfolding first_ok
lowest-set b small some_bit =
    let all = holds_to_sound 256 first_ok b first_table small in
    (
      ground arith,
      ground arith,
      λ k lt below.
          ground (arith, holds_to_sound 8 (λ k. leb (ctz b) k || not (byte_test b k == 1)) k),
    )

-- All bits of the map from `lo` on and before `hi` are clear.
abbrev pub AllClear : Bytes → (lo hi : ℕ) → Type 0
AllClear m lo hi = (j : ℕ) → lo ≤ j → j < hi → bitmap_test m j ≡ false

zero_byte : (m : Bytes) (i : ℕ) → (m i == 0) ≡ true → AllClear m (i * 8) (i * 8 + 8)
unfolding bitmap_test
zero_byte m i e j lo hi =
    let at : j / 8 ≡ i = omega arith in
    let nothing : m i ≡ 0 = ground arith in
    rw (at, nothing)
      (ground (arith, holds_to_sound 8 (λ k. not (byte_test 0 k == 1)) (j % 8) zero_table))

-- What the search from bit `lo` to bit `hi` gives: the lowest set bit, which is cleared, and no other;
-- or, where no bit is set, SIZE_MAX and the same map.
abbrev pub TakesLowest : Bytes → (lo hi : ℕ) → ℕ × Bytes → Type 0
TakesLowest m lo hi r =
    ((r ≡ (size_max, m)) × AllClear m lo hi)
    ⊎ ((lo ≤ r.0)
        × (r.0 < hi)
        × (bitmap_test m r.0 ≡ true)
        × AllClear m lo r.0
        × ((j : ℕ) → bitmap_test r.1 j ≡ (not (j == r.0) && bitmap_test m j)))

clear-append : (m : Bytes) (lo at hi : ℕ) → AllClear m lo at → AllClear m at hi → AllClear m lo hi
clear-append m lo at hi below above j from to = elim (Bool-cases (ltb j at)) [
  | inl early ↦ below j from (ground arith)
  | inr late ↦ above j (ground arith) to
]

-- The byte at `i` has a set bit, and the lowest one is taken.
byte-TakesLowest :
    (i hi : ℕ) (m : Bytes)
    → IsBytes m
    → i * 8 + 8 ≤ hi
    → hi < 2 ^ 64
    → (m i == 0) ≡ false
    → TakesLowest m
        (i * 8)
        hi
        ((i * 8 + ctz (m i)) % 2 ^ 64, bitmap_put m ((i * 8 + ctz (m i)) % 2 ^ 64) false)
unfolding bitmap_test bitmap_put
byte-TakesLowest i hi m bytes within small some_bit =
    let (less, set, lower) = lowest-set (m i) (bytes i) some_bit in
    let idx : (i * 8 + ctz (m i)) % 2 ^ 64 ≡ i * 8 + ctz (m i) = omega (arith, less) in
    let byte : (i * 8 + ctz (m i)) / 8 ≡ i = omega (arith, less) in
    let bit : (i * 8 + ctz (m i)) % 8 ≡ ctz (m i) = omega (arith, less) in
    rw idx (
      inr (
        omega arith,
        omega (arith, less),
        rw (byte, bit) set,
        (λ j lo below.
            let at : j / 8 ≡ i = omega (arith, less) in
            rw at (lower (j % 8) (omega arith) (omega (arith, less)))),
        λ j. bitmap_test-clear m (i * 8 + ctz (m i)) j bytes,
      ))

alloc_from-TakesLowest :
    (rounds i : ℕ) (m : Bytes)
    → IsBytes m
    → (i + rounds) * 8 < 2 ^ 64
    → TakesLowest m (i * 8) ((i + rounds) * 8) (alloc_from rounds i m)
unfolding alloc_from bitmap_put
alloc_from-TakesLowest zero i m bytes small = inl (refl, λ j lo hi. absurd (omega arith))
alloc_from-TakesLowest (suc rounds) i m bytes small = elim (Bool-cases (m i == 0)) [
  | inl empty ↦
      let here : AllClear m (i * 8) ((i + 1) * 8) =
        λ j lo hi. zero_byte m i empty j lo (omega arith) in
      rw empty (elim (alloc_from-TakesLowest rounds (i + 1) m bytes (omega arith)) [
        | inl (e, clear) ↦
            inl (
              e,
              λ j lo hi. clear-append m _ _ ((i + 1 + rounds) * 8) here clear j lo (omega arith),
            )
        | inr (above, below, set, clear, after) ↦
            inr (omega arith, omega arith, set, clear-append m _ _ _ here clear, after)
      ])
  | inr some_bit ↦
      rw some_bit (byte-TakesLowest i ((i + suc rounds) * 8) m bytes (omega arith) small some_bit)
]

-- On a map of fewer than 2 ^ 61 bytes `bitmap_alloc_1_first` takes the lowest set bit: that bit was
-- set, all bits below it clear, and it is the one bit that changes. Where no bit of the map is set, the
-- answer is SIZE_MAX and the map is the same.
pub bitmap_alloc_1_first-TakesLowest :
    (m : Bytes) (nbytes : ℕ)
    → IsBytes m
    → nbytes < 2 ^ 61
    → TakesLowest m 0 (nbytes * 8) (bitmap_alloc_1_first m nbytes)
unfolding bitmap_alloc_1_first
bitmap_alloc_1_first-TakesLowest m nbytes bytes small =
    let start : 0 + nbytes ≡ nbytes = omega arith in
    rw start at (alloc_from-TakesLowest nbytes 0 m bytes (omega arith))
