-- ===== src/Pmm/Init/Laws.antt =====
-- Which pages are in use after `pmm_init` of kernel/src/memory/pmm.c.
use creeper_os_v.Prelude.{
  ℕ, zero, suc, ◌+◌, ◌-◌, ◌*◌, ◌/◌, ◌%◌, ◌^◌, ◌<◌, ◌≡◌, refl, Bool, true, false, not, ◌||◌, List,
  [], ◌∷◌, ◌==◌, ◌&&◌, arith, Bool-cases, inl, inr,
}
use creeper_os_v.Bitmap.{Bytes, bitmap_clear, bitmap_test}
use creeper_os_v.Bitmap.Laws.{
  IsBytes, bitmap_test-set, bitmap_test-clear, set-IsBytes, clear-IsBytes, bitmap_test_full,
}
use creeper_os_v.Pmm.Count.{in_range}
use creeper_os_v.Pmm.Init.{
  Entry, Marks, all_used, reserve_null, release_pages, release_usable, reserve_page, reserve_pages,
  bitmap_size, build,
}
use creeper_os_v.Pmm.{page_size}

-- Page `j` lies in a usable entry of the memory map.
abbrev pub is_usable : List Entry → ℕ → Bool
is_usable [] j = false
is_usable (e ∷ es) j =
    (e.usable && in_range (e.base / page_size) (e.length / page_size) j) || is_usable es j

pub reserve_null-test :
    (k : Marks) (j : ℕ)
    → IsBytes k.bitmap
    → bitmap_test (reserve_null k).bitmap j ≡ bitmap_test k.bitmap j
unfolding reserve_null
reserve_null-test k j b = ground (arith, bitmap_test-set k.bitmap 0 j b)

release_pages-test :
    (count first : ℕ) (k : Marks) (j : ℕ)
    → IsBytes k.bitmap
    → bitmap_test (release_pages count first k).bitmap j
      ≡ (not (in_range first count j) && bitmap_test k.bitmap j)
unfolding release_pages
release_pages-test zero first k j b = ground arith
release_pages-test (suc count) first k j b = ground (
  arith,
  release_pages-test count (first + 1)
      (record { bitmap = bitmap_clear k.bitmap first; free_pages = (k.free_pages + 1) % 2 ^ 64 }) j
      (clear-IsBytes k.bitmap first b),
  bitmap_test-clear k.bitmap first j b,
)

pub release_pages-IsBytes :
    (count first : ℕ) (k : Marks) → IsBytes k.bitmap → IsBytes (release_pages count first k).bitmap
unfolding release_pages
release_pages-IsBytes zero first k b = b
release_pages-IsBytes (suc count) first k b =
    release_pages-IsBytes count (first + 1) _ (clear-IsBytes k.bitmap first b)

pub reserve_null-IsBytes : (k : Marks) → IsBytes k.bitmap → IsBytes (reserve_null k).bitmap
unfolding reserve_null
reserve_null-IsBytes k b i = ground (arith, b i, set-IsBytes k.bitmap 0 b i)

release_usable-IsBytes :
    (es : List Entry) (k : Marks) → IsBytes k.bitmap → IsBytes (release_usable es k).bitmap
unfolding release_usable
release_usable-IsBytes [] k b = b
release_usable-IsBytes (e ∷ es) k b = release_usable-IsBytes es _ λ i.
    ground (arith, b i, release_pages-IsBytes (e.length / page_size) (e.base / page_size) k b i)

release_usable-test :
    (es : List Entry) (k : Marks) (j : ℕ)
    → IsBytes k.bitmap
    → bitmap_test (release_usable es k).bitmap j ≡ (not (is_usable es j) && bitmap_test k.bitmap j)
unfolding release_usable
release_usable-test [] k j b = refl
release_usable-test (e ∷ es) k j b = elim (Bool-cases e.usable) [
  | inl yes_usable ↦ rw yes_usable (
      ground (
        arith,
        release_usable-test es (release_pages (e.length / page_size) (e.base / page_size) k) j
            (release_pages-IsBytes (e.length / page_size) (e.base / page_size) k b),
        release_pages-test (e.length / page_size) (e.base / page_size) k j b,
      ))
  | inr not_usable ↦ rw not_usable (release_usable-test es k j b)
]

reserve_page-test :
    (page : ℕ) (k : Marks) (j : ℕ)
    → IsBytes k.bitmap
    → bitmap_test (reserve_page page k).bitmap j ≡ ((j == page) || bitmap_test k.bitmap j)
unfolding reserve_page
reserve_page-test page k j b = ground (arith, bitmap_test-set k.bitmap page j b)

pub reserve_page-IsBytes :
    (page : ℕ) (k : Marks) → IsBytes k.bitmap → IsBytes (reserve_page page k).bitmap
unfolding reserve_page
reserve_page-IsBytes page k b i = ground (arith, b i, set-IsBytes k.bitmap page b i)

reserve_pages-test :
    (count first : ℕ) (k : Marks) (j : ℕ)
    → IsBytes k.bitmap
    → bitmap_test (reserve_pages count first k).bitmap j
      ≡ (in_range first count j || bitmap_test k.bitmap j)
unfolding reserve_pages
reserve_pages-test zero first k j b = ground arith
reserve_pages-test (suc count) first k j b = ground (
  arith,
  reserve_pages-test count (first + 1) (reserve_page first k) j (reserve_page-IsBytes first k b),
  reserve_page-test first k j b,
)

pub all_used-IsBytes : (size : ℕ) (m : Bytes) → IsBytes m → IsBytes (all_used size m)
unfolding all_used
all_used-IsBytes size m b i = ground (arith, b i)

pub all_used-test :
    (size : ℕ) (m : Bytes) (j : ℕ) → j < 8 * size → bitmap_test (all_used size m) j ≡ true
unfolding all_used
all_used-test size m j lt = bitmap_test_full _ j (ground arith)

-- After `pmm_init` a page that the map has a bit for is in use exactly if no usable entry of the
-- memory map holds it or if it holds the map itself.
pub build-test :
    (total bitmap_phys : ℕ) (es : List Entry) (m : Bytes) (j : ℕ)
    → IsBytes m
    → j < 8 * bitmap_size total
    → bitmap_test (build total bitmap_phys es m).bitmap j ≡ (
        in_range (bitmap_phys / page_size) ((bitmap_size total + page_size - 1) / page_size) j
        || not (is_usable es j))
unfolding build
build-test total bitmap_phys es m j b lt =
    let size = bitmap_size total in
    let bytes = all_used-IsBytes size m b in
    let k : Marks = record { bitmap = all_used size m; free_pages = 0 } in
    let null = reserve_null-IsBytes k bytes in
    let freed = release_usable-IsBytes es (reserve_null k) null in
    ground (
      arith,
      reserve_pages-test ((size + page_size - 1) / page_size) (bitmap_phys / page_size)
          (release_usable es (reserve_null k)) j freed,
      release_usable-test es (reserve_null k) j null,
      reserve_null-test k j bytes,
      all_used-test size m j lt,
    )
