-- ===== src/Pmm/Count.antt =====
-- The number of free pages, and what marking a range of pages does to it: kernel/src/memory/pmm.c.
use creeper_os_v.Prelude.{
  ℕ, zero, suc, ◌+◌, ◌≤◌, ◌<◌, ◌≡◌, refl, false, not, ◌&&◌, ◌||◌, Bool, arith, Bool-cases, inl, inr,
  ap, if◌then◌else◌, ◌==◌, leb, ltb,
}
use creeper_os_v.Bitmap.{Bytes, bitmap_set, bitmap_clear, bitmap_test}
use creeper_os_v.Bitmap.Laws.{
  IsBytes, bitmap_test-set, bitmap_test-clear, set-IsBytes, clear-IsBytes,
}
use creeper_os_v.Pmm.Search.Laws.{AllUsed, AllFree}
use creeper_os_v.Pmm.{set_pages, clear_pages}

-- How many of the pages below `n` are free.
unfoldable pub free_count : Bytes → ℕ → ℕ
free_count m zero = 0
free_count m (suc n) = free_count m n + (if bitmap_test m n then 0 else 1)

-- `j` is one of the `count` pages from `bit` on.
abbrev pub in_range : (bit count j : ℕ) → Bool
in_range bit count j = leb bit j && ltb j (bit + count)

pub free_count-le : (m : Bytes) (n : ℕ) → free_count m n ≤ n
unfolding free_count
free_count-le m zero = omega arith
free_count-le m (suc n) = ground (arith, free_count-le m n)

free_count-same :
    (m m' : Bytes) (n : ℕ)
    → ((j : ℕ) → j < n → bitmap_test m' j ≡ bitmap_test m j)
    → free_count m' n ≡ free_count m n
unfolding free_count
free_count-same m m' zero h = refl
free_count-same m m' (suc n) h =
    ground (arith, free_count-same m m' n (λ j lt. h j (omega arith)), h n)

-- Taking one free page, with the others as they were, costs one.
pub free_count_flip :
    (m m' : Bytes) (i n : ℕ)
    → i < n
    → bitmap_test m i ≡ false
    → ((j : ℕ) → bitmap_test m' j ≡ ((j == i) || bitmap_test m j))
    → free_count m' n + 1 ≡ free_count m n
unfolding free_count
free_count_flip m m' i zero lt free h = absurd (omega arith)
free_count_flip m m' i (suc n) lt free h = elim (Bool-cases (n == i)) [
  | inl last ↦
      let same = free_count-same m m' n (λ j below. ground (arith, h j)) in
      let here : n ≡ i = ground arith in ground (arith, same, h n, ap (bitmap_test m) here)
  | inr other ↦ ground (arith, free_count_flip m m' i n (ground arith) free h, h n)
]

pub bitmap_test-set_pages :
    (count bit : ℕ) (m : Bytes) (j : ℕ)
    → IsBytes m
    → bitmap_test (set_pages count bit m) j ≡ (in_range bit count j || bitmap_test m j)
unfolding set_pages
bitmap_test-set_pages zero bit m j b = ground arith
bitmap_test-set_pages (suc count) bit m j b = ground (
  arith,
  bitmap_test-set_pages count (bit + 1) (bitmap_set m bit) j (set-IsBytes m bit b),
  bitmap_test-set m bit j b,
)

pub bitmap_test-clear_pages :
    (count bit : ℕ) (m : Bytes) (j : ℕ)
    → IsBytes m
    → bitmap_test (clear_pages count bit m) j ≡ (not (in_range bit count j) && bitmap_test m j)
unfolding clear_pages
bitmap_test-clear_pages zero bit m j b = ground arith
bitmap_test-clear_pages (suc count) bit m j b = ground (
  arith,
  bitmap_test-clear_pages count (bit + 1) (bitmap_clear m bit) j (clear-IsBytes m bit b),
  bitmap_test-clear m bit j b,
)

pub set_pages-IsBytes : (count bit : ℕ) (m : Bytes) → IsBytes m → IsBytes (set_pages count bit m)
unfolding set_pages
set_pages-IsBytes zero bit m b = b
set_pages-IsBytes (suc count) bit m b =
    set_pages-IsBytes count (bit + 1) (bitmap_set m bit) (set-IsBytes m bit b)

pub clear_pages-IsBytes :
    (count bit : ℕ) (m : Bytes) → IsBytes m → IsBytes (clear_pages count bit m)
unfolding clear_pages
clear_pages-IsBytes zero bit m b = b
clear_pages-IsBytes (suc count) bit m b =
    clear_pages-IsBytes count (bit + 1) (bitmap_clear m bit) (clear-IsBytes m bit b)

-- Taking `count` free pages costs `count`; giving back `count` used ones gains as many.
pub free_count-set_pages :
    (count bit n : ℕ) (m : Bytes)
    → IsBytes m
    → bit + count ≤ n
    → AllFree m bit (bit + count)
    → free_count (set_pages count bit m) n + count ≡ free_count m n
unfolding set_pages
free_count-set_pages zero bit n m b le free = omega arith
free_count-set_pages (suc count) bit n m b le free =
    let one =
      free_count_flip m (bitmap_set m bit) bit n (omega arith)
        (free bit (omega arith) (omega arith)) (λ j. bitmap_test-set m bit j b) in
    let rest =
      free_count-set_pages count (bit + 1) n (bitmap_set m bit) (set-IsBytes m bit b) (omega arith)
        (λ k lo hi. ground (arith, bitmap_test-set m bit k b, free k)) in
    omega (arith, one, rest)

pub free_count-clear_pages :
    (count bit n : ℕ) (m : Bytes)
    → IsBytes m
    → bit + count ≤ n
    → AllUsed m bit (bit + count)
    → free_count (clear_pages count bit m) n ≡ free_count m n + count
unfolding clear_pages
free_count-clear_pages zero bit n m b le used = omega arith
free_count-clear_pages (suc count) bit n m b le used =
    let here = used bit (omega arith) (omega arith) in
    let one =
      free_count_flip (bitmap_clear m bit) m bit n (omega arith)
        (ground (arith, bitmap_test-clear m bit bit b))
        (λ j. ground (arith, bitmap_test-clear m bit j b, used j)) in
    let rest =
      free_count-clear_pages count (bit + 1) n (bitmap_clear m bit) (clear-IsBytes m bit b)
        (omega arith) (λ k lo hi. ground (arith, bitmap_test-clear m bit k b, used k)) in
    omega (arith, one, rest)

pub free_count-none : (m : Bytes) (n : ℕ) → AllUsed m 0 n → free_count m n ≡ 0
unfolding free_count
free_count-none m zero used = refl
free_count-none m (suc n) used =
    ground (arith, free_count-none m n (λ k lo hi. used k lo (omega arith)), used n)
