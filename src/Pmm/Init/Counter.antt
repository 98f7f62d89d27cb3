-- ===== src/Pmm/Init/Counter.antt =====
-- The counter of free pages after `pmm_init` of kernel/src/memory/pmm.c.
use creeper_os_v.Prelude.{
  ℕ, zero, suc, ◌+◌, ◌-◌, ◌*◌, ◌/◌, ◌%◌, ◌^◌, ◌≤◌, ◌<◌, ◌≡◌, refl, true, List, [], ◌∷◌, arith,
  Bool-cases, inl, inr, ap, some,
}
use creeper_os_v.Bitmap.{Bytes, bitmap_set, bitmap_clear, bitmap_test}
use creeper_os_v.Bitmap.Laws.{IsBytes, bitmap_test-set}
use creeper_os_v.Outcome.{returns}
use creeper_os_v.Pmm.Search.{Pmm}
use creeper_os_v.Pmm.Search.Laws.{AllUsed}
use creeper_os_v.Pmm.Count.{
  free_count, free_count-le, free_count-none, free_count_flip, free_count-clear_pages,
}
use creeper_os_v.Pmm.Init.{
  Entry, Marks, all_used, reserve_null, release_pages, release_usable, reserve_page, reserve_pages,
  bitmap_size, build, pmm_init, count_pages, find_region,
}
use creeper_os_v.Pmm.Init.Laws.{
  all_used-IsBytes, all_used-test, reserve_null-IsBytes, reserve_null-test, release_pages-IsBytes,
  reserve_page-IsBytes,
}
use creeper_os_v.Pmm.{page_size, clear_pages}

-- The counter is one less than the number of free pages below `n`, modulo 2 ^ 64.
abbrev Lags : ℕ → Marks → Type 0
Lags n k = (k.free_pages + 1) % 2 ^ 64 ≡ free_count k.bitmap n

release_pages-counter :
    (count first : ℕ) (k : Marks)
    → k.free_pages < 2 ^ 64
    → (release_pages count first k).free_pages ≡ (k.free_pages + count) % 2 ^ 64
unfolding release_pages
release_pages-counter zero first k h = omega arith
release_pages-counter (suc count) first k h = omega (
  arith,
  release_pages-counter count (first + 1)
      (record { bitmap = bitmap_clear k.bitmap first; free_pages = (k.free_pages + 1) % 2 ^ 64 })
      (omega arith),
)

release_pages-clear_pages :
    (count first : ℕ) (k : Marks)
    → (release_pages count first k).bitmap ≡ clear_pages count first k.bitmap
unfolding release_pages clear_pages
release_pages-clear_pages zero first k = refl
release_pages-clear_pages (suc count) first k = release_pages-clear_pages count (first + 1) _

reserve_page-Lags :
    (page n : ℕ) (k : Marks)
    → IsBytes k.bitmap
    → n < 2 ^ 52
    → page < n
    → Lags n k
    → Lags n (reserve_page page k)
unfolding reserve_page
reserve_page-Lags page n k b small lt h = elim (Bool-cases (bitmap_test k.bitmap page)) [
  | inl used ↦ rw used h
  | inr free ↦ rw free (
      omega (
        arith,
        free_count_flip k.bitmap (bitmap_set k.bitmap page) page n lt free
            (λ j. bitmap_test-set k.bitmap page j b),
        free_count-le k.bitmap n,
      ))
]

reserve_pages-Lags :
    (count first n : ℕ) (k : Marks)
    → IsBytes k.bitmap
    → n < 2 ^ 52
    → first + count ≤ n
    → Lags n k
    → Lags n (reserve_pages count first k)
unfolding reserve_pages
reserve_pages-Lags zero first n k b small le h = h
reserve_pages-Lags (suc count) first n k b small le h =
    reserve_pages-Lags count (first + 1) n (reserve_page first k) (reserve_page-IsBytes first k b)
      small (omega arith) (reserve_page-Lags first n k b small (omega arith) h)

-- The memory map of a machine whose only entry is usable, begins at 0 and has `n` pages.
abbrev pub one_region : ℕ → List Entry
one_region n = record { base = 0; length = n * page_size; usable = true } ∷ []

reserve_null_counter :
    (size : ℕ) (m : Bytes)
    → 0 < size
    → (reserve_null (record { bitmap = all_used size m; free_pages = 0 })).free_pages ≡ 2 ^ 64 - 1
unfolding reserve_null
reserve_null_counter size m pos = ground (arith, all_used-test size m 0 (omega arith))

build-Lags :
    (n : ℕ) (m : Bytes)
    → 0 < n
    → n < 2 ^ 52
    → IsBytes m
    → ((build n 0 (one_region n) m).free_pages + 1) % 2 ^ 64
      ≡ free_count (build n 0 (one_region n) m).bitmap n
unfolding build release_usable bitmap_size
build-Lags n m pos small b =
    let size = bitmap_size n in
    let start : Marks = record { bitmap = all_used size m; free_pages = 0 } in
    let null = reserve_null start in
    let bytes = reserve_null-IsBytes start (all_used-IsBytes size m b) in
    let full : AllUsed null.bitmap 0 n = λ k lo hi. ground (
      arith,
      reserve_null-test start k (all_used-IsBytes size m b),
      all_used-test size m k (omega arith),
    ) in
    let released : Lags n (release_pages n 0 null) = omega (
      arith,
      reserve_null_counter size m (omega arith),
      release_pages-counter n 0 null,
      ap (λ c. free_count c n) (release_pages-clear_pages n 0 null),
      free_count-clear_pages n 0 n null.bitmap bytes (omega arith)
          (λ k lo hi. full k lo (omega arith)),
      free_count-none null.bitmap n full,
    ) in
    let pages : n * page_size / page_size ≡ n = omega arith in
    rw pages (
      reserve_pages-Lags ((size + page_size - 1) / page_size) 0 n _
        (release_pages-IsBytes n 0 null bytes) small (omega arith) released)

build-total_pages : (n phys : ℕ) (es : List Entry) (m : Bytes) → (build n phys es m).total_pages ≡ n
unfolding build
build-total_pages n phys es m = refl

count_pages-one_region : (n : ℕ) → n < 2 ^ 52 → count_pages 0 (one_region n) ≡ n
unfolding count_pages
count_pages-one_region n small = omega arith

find_region-one_region :
    (n : ℕ) → 0 < n → n < 2 ^ 52 → find_region (bitmap_size n) (one_region n) ≡ some 0
unfolding find_region bitmap_size
find_region-one_region n pos small = ground arith

-- On a machine with one usable region, of `n` pages from address 0 on, `pmm_init` succeeds and manages all `n` pages, but the counter that it leaves
-- behind is one less than the number of free pages, modulo 2 ^ 64.
pub pmm_init_counter :
    (n : ℕ) (m : Bytes)
    → 0 < n
    → n < 2 ^ 52
    → IsBytes m
    → (t : Pmm) × (pmm_init (one_region n) m ≡ returns t)
      × (t.total_pages ≡ n)
      × ((t.free_pages + 1) % 2 ^ 64 ≡ free_count t.bitmap n)
unfolding pmm_init
pmm_init_counter n m pos small b = (
  build n 0 (one_region n) m,
  rw (count_pages-one_region n small) (rw (find_region-one_region n pos small) refl),
  build-total_pages n 0 (one_region n) m,
  build-Lags n m pos small b,
)
