-- ===== src/Heap/Init.antt =====
-- init_allocator of kernel/src/memory/memory.c, which fills the table with pages before the first call.
pub mod Sound
use creeper_os_v.Prelude.{ℕ, zero, suc, ◌+◌, ◌*◌, Bool, true, false, if◌then◌else◌, ltb, ◌==◌}
use creeper_os_v.Outcome.{Outcome, returns, ◌>>=◌}
use creeper_os_v.Memops.{Mem}
use creeper_os_v.Pmm.Search.{Pmm}
use creeper_os_v.Pmm.{pmm_alloc_zeroed, pmm_free}
use creeper_os_v.Vma.{FreeList, kvma_alloc}
use creeper_os_v.Paging.{Mmu, map_4k}
use creeper_os_v.Heap.Regions.{max_free_regions, RegionMap, set_region}
use creeper_os_v.Heap.{Heap, kernel_page, clear_words}

-- The page in the slot behind the last, if there is one.
unfoldable pub seed_region : (va : ℕ) → RegionMap → RegionMap
unfolding set_region
seed_region va map =
    if ltb map.free_region_count max_free_regions
    then record {
      free_region_count = suc map.free_region_count;
      free_regions =
          set_region map.free_region_count (record { base_addr = va; length = 4096 })
            map.free_regions;
    }
    else map

unfoldable pub seeded : (va : ℕ) → Heap → Mmu → Outcome (Bool × Heap)
unfolding seed_region clear_words
seeded va h mmu = returns (
  true,
  record h {
    region_map = seed_region va h.region_map;
    words = clear_words va 1 h.words;
    mmu = mmu;
  },
)

unfoldable pub seed_at_address : (pa : ℕ) → Heap → ℕ × FreeList → Outcome (Bool × Heap)
unfolding map_4k seeded
seed_at_address pa h (va, vma) =
    let returned = record h { vma = vma; mmu = record (h.mmu) { pmm = pmm_free pa h.mmu.pmm } } in
    if va == 0
    then returns (false, returned)
    else (map_4k h.mmu.kernel_pagedir va pa kernel_page h.mmu
        >>= seeded va (record h { vma = vma }))

unfoldable pub seed_at_frame : Heap → ℕ × Pmm × Mem → Outcome (Bool × Heap)
unfolding seed_at_address
seed_at_frame h (pa, pmm, physical) =
    let taken = record h { mmu = record (h.mmu) { pmm = pmm }; physical = physical } in
    if pa == 0 then returns (false, taken) else (kvma_alloc 1 h.vma >>= seed_at_address pa taken)

-- The loop; a page that fails ends it.
unfoldable pub seed_next : (pages : ℕ) → Bool × Heap → Outcome (Bool × Heap)
unfolding seed_at_frame
seed_next pages (false, h) = returns (false, h)
seed_next zero (true, h) = returns (true, h)
seed_next (suc pages) (true, h) =
    pmm_alloc_zeroed h.mmu.pmm h.physical >>= seed_at_frame h >>= seed_next pages

-- Whether it returned 0, with KERNEL_HEAP_SEED_PAGES pages.
unfoldable pub init_allocator : Heap → Outcome (Bool × Heap)
unfolding seed_next
init_allocator h = seed_next 4 (true, h)
