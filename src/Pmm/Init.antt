-- ===== src/Pmm/Init.antt =====
-- `pmm_init` of kernel/src/memory/pmm.c: the map built from the boot loader's memory map.
pub mod Counter
pub mod Laws
use creeper_os_v.Prelude.{
  ℕ, zero, suc, ◌+◌, ◌-◌, ◌*◌, ◌/◌, ◌%◌, ◌^◌, Bool, true, false, Option, none, some, List, [], ◌∷◌,
  if◌then◌else◌, ltb, leb, ◌==◌, ◌&&◌, add64, sub64,
}
use creeper_os_v.Outcome.{Outcome, returns, panics}
use creeper_os_v.Bitmap.{Bytes, bitmap_set, bitmap_clear, bitmap_test}
use creeper_os_v.Pmm.Search.{Pmm}
use creeper_os_v.Pmm.{page_size}

-- A `limine_memmap_entry`; `usable` stands for the type LIMINE_MEMMAP_USABLE.
pub record Entry : Type 0 where
  pub base : ℕ
  pub length : ℕ
  pub usable : Bool

-- The first loop: total_pages, from `total` on.
pub count_pages : ℕ → List Entry → ℕ
count_pages total [] = total
count_pages total (e ∷ es) =
    count_pages (if e.usable then add64 total (e.length / page_size) else total) es

-- The second: the base of the first usable entry that holds `size` bytes.
pub find_region : ℕ → List Entry → Option ℕ
find_region size [] = none
find_region size (e ∷ es) =
    if e.usable && leb size e.length then some e.base else find_region size es

-- The bit map and the counter of free pages, which the remaining loops change together.
pub record Marks : Type 0 where
  pub bitmap : Bytes
  pub free_pages : ℕ

-- memset(bitmap, 0xFF, bitmap_size)
pub all_used : ℕ → Bytes → Bytes
all_used size m j = if ltb j size then 255 else m j

pub reserve_null : Marks → Marks
reserve_null k =
    if bitmap_test k.bitmap 0
    then record { bitmap = bitmap_set k.bitmap 0; free_pages = sub64 k.free_pages 1 }
    else k

-- for (p = 0; p < count; p++) bitmap_clear(first + p), free_pages++
pub release_pages : (count first : ℕ) → Marks → Marks
release_pages zero first k = k
release_pages (suc count) first k =
    release_pages count (first + 1)
      (record { bitmap = bitmap_clear k.bitmap first; free_pages = add64 k.free_pages 1 })

pub release_usable : List Entry → Marks → Marks
release_usable [] k = k
release_usable (e ∷ es) k =
    release_usable es
      (if e.usable then release_pages (e.length / page_size) (e.base / page_size) k else k)

-- if (!bitmap_test(p)) { bitmap_set(p); free_pages--; }
pub reserve_page : ℕ → Marks → Marks
reserve_page page k =
    if bitmap_test k.bitmap page
    then k
    else record { bitmap = bitmap_set k.bitmap page; free_pages = sub64 k.free_pages 1 }

-- The pages of the map itself are in use.
pub reserve_pages : (count first : ℕ) → Marks → Marks
reserve_pages zero first k = k
reserve_pages (suc count) first k = reserve_pages count (first + 1) (reserve_page first k)

unfoldable pub bitmap_size : ℕ → ℕ
bitmap_size total = (total + 7) / 8

-- `m` is what memory holds at the chosen region before.
pub build : (total bitmap_phys : ℕ) → List Entry → Bytes → Pmm
build total bitmap_phys es m =
    let size = bitmap_size total in
    let start : Marks = record { bitmap = all_used size m; free_pages = 0 } in
    let done =
      reserve_pages ((size + page_size - 1) / page_size) (bitmap_phys / page_size)
        (release_usable es (reserve_null start)) in
    record {
      bitmap = done.bitmap;
      bitmap_bits = total;
      bitmap_next = 0;
      total_pages = total;
      free_pages = done.free_pages;
    }

pub init_at : (total : ℕ) → List Entry → Bytes → Option ℕ → Outcome Pmm
init_at total es m none = panics
init_at total es m (some bitmap_phys) = returns (build total bitmap_phys es m)

pub pmm_init : List Entry → Bytes → Outcome Pmm
unfolding init_at
pmm_init es m =
    let total = count_pages 0 es in init_at total es m (find_region (bitmap_size total) es)
