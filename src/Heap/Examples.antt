-- ===== src/Heap/Examples.antt =====
-- The heap of kernel/src/memory/memory.c at concrete states.
use creeper_os_v.Prelude.{
  ℕ, zero, suc, ◌≡◌, ◌<◌, refl, ◌≤◌, ◌-◌, ◌==◌, size_max, Bool, true, false, if◌then◌else◌, List,
  [], ◌∷◌, get_or, arith,
}
use creeper_os_v.Outcome.{Outcome, returns, panics, Always}
use creeper_os_v.Bitmap.{bitmap_set}
use creeper_os_v.Pmm.Search.{Pmm, bitmap_find_clear}
use creeper_os_v.Pmm.{pmm_alloc, pmm_alloc_zeroed}
use creeper_os_v.Vma.{FreeList, kvma_alloc}
use creeper_os_v.Paging.{no_entry}
use creeper_os_v.Heap.Regions.{
  FreeRegion, no_region, max_free_regions, RegionMap, absorb_pass, area_at,
}
use creeper_os_v.Heap.Search.Rounds.{area_at_settles}
use creeper_os_v.Heap.Cover.{covering, AllSound, no_region-IsSound}
use creeper_os_v.Heap.Search.{area}
use creeper_os_v.Heap.Force.{force_free_nolock}
use creeper_os_v.Heap.Blocks.{IsHeap}
use creeper_os_v.Heap.Locks.{
  LockedHeap, Call, answers, spins, released, kmalloc_impl, kfree_impl, krealloc_impl,
}
use creeper_os_v.Heap.History.{
  Steps, start, then_step, allocates, frees, writes, AtRest, Steps-AtRest,
}
use creeper_os_v.Heap.Enough.{AllHigh, kmalloc_impl-Enough}
use creeper_os_v.Heap.Realloc.{krealloc_impl-NoBlock}
use creeper_os_v.Heap.Init.{init_allocator}
use creeper_os_v.Heap.Init.Sound.{init_allocator-IsHeap}
use creeper_os_v.Heap.{Heap, store_word, kmalloc_locked, kfree_locked}

abbrev slots : ℕ → List FreeRegion
slots zero = []
slots (suc n) = no_region ∷ slots n

slots-AllSound : (n : ℕ) → AllSound (slots n)
slots-AllSound zero = tt
slots-AllSound (suc n) = (no_region-IsSound, slots-AllSound n)

covering-slots : (n a : ℕ) → covering (slots n) a ≡ 0
covering-slots zero a = refl
covering-slots (suc n) a = ground (arith, covering-slots n a)

abbrev no_pages : Pmm
no_pages = record {
  bitmap = λ i. 255;
  bitmap_bits = 8;
  bitmap_next = 0;
  total_pages = 8;
  free_pages = 0;
}

abbrev free_addresses : FreeList
free_addresses = record { base = 0x40000; pages = 16 } ∷ []

-- One region of a page, and nothing else.
abbrev one_region : Heap
one_region = record {
  region_map = record { free_region_count = 1; free_regions = area 0x20000 4096 ∷ slots 101 };
  words = λ w. 0;
  vma = free_addresses;
  mmu = record { tables = λ t i. no_entry; pmm = no_pages; cr3 = 1; kernel_pagedir = 1 };
  physical = λ a. 0;
}

one_region-IsHeap : IsHeap one_region []
one_region-IsHeap = record {
  table = record {
    sound = ((refl, refl, omega arith), slots-AllSound 101);
    slots = refl;
    counted = omega arith;
  };
  blocks = tt;
  headers = tt;
  normal = (omega arith, omega arith, omega arith, tt);
  in_pages = (refl, tt);
  once = λ a. ground (arith, covering-slots 101 a);
}

one_region-AllHigh : AllHigh one_region.region_map
one_region-AllHigh zero h pos = omega arith
one_region-AllHigh (suc i) h pos = absurd (omega (arith, h))

abbrev free_heap : LockedHeap
free_heap = record { heap_lock = false; heap = one_region }

abbrev pointer_of : Call (ℕ × LockedHeap) → ℕ
pointer_of (answers (p, k)) = p
pointer_of c = 1

-- The heap after a call.
abbrev heap_after : Call (ℕ × LockedHeap) → LockedHeap
heap_after (answers (p, k)) = k
heap_after c = free_heap

abbrev heap_after_free : Call LockedHeap → LockedHeap
heap_after_free (answers k) = k
heap_after_free c = free_heap

abbrev one_block : LockedHeap
one_block = heap_after (kmalloc_impl 24 free_heap)

abbrev written : LockedHeap
written = record one_block { heap = store_word 0x20008 7 one_block.heap }

abbrev two_blocks : LockedHeap
two_blocks = heap_after (kmalloc_impl 100 written)

abbrev one_freed : LockedHeap
one_freed = heap_after_free (kfree_impl 0x20008 two_blocks)

allocates_24 : kmalloc_impl 24 free_heap ≡ answers (0x20008, one_block)
unfolding kmalloc_impl kmalloc_locked
allocates_24 = refl

allocates_100 : kmalloc_impl 100 written ≡ answers (0x20028, two_blocks)
unfolding kmalloc_impl kmalloc_locked
allocates_100 = refl

frees_24 : kfree_impl 0x20008 two_blocks ≡ answers one_freed
unfolding kfree_impl kmalloc_impl kmalloc_locked kfree_locked
frees_24 = refl

four_steps : Steps free_heap [] one_freed (record { header = 0x20020; requested = 100 } ∷ [])
four_steps =
    then_step
      (then_step
        (then_step (then_step start (allocates 24 0x20008 (omega arith) allocates_24))
          (writes 0x20008 7 refl (omega arith)))
        (allocates 100 0x20028 (omega arith) allocates_100))
      (frees 1 (omega arith) frees_24)

Steps-AtRest_example : AtRest one_freed (record { header = 0x20020; requested = 100 } ∷ [])
Steps-AtRest_example = Steps-AtRest (refl, one_region-IsHeap) four_steps

kmalloc_example :
    (p : ℕ) × (k' : LockedHeap) × (kmalloc_impl 4000 free_heap ≡ answers (p, k'))
    × (0 < p)
    × (k'.heap_lock ≡ false)
    × (k'.heap.mmu ≡ one_region.mmu)
kmalloc_example =
    kmalloc_impl-Enough 4000 0 free_heap [] (omega arith) (omega arith) refl one_region-IsHeap
      one_region-AllHigh (omega arith) (omega arith)

-- 16 pages of which two are in use: page 0 and the root of the page tables.
abbrev some_pages : Pmm
some_pages = record {
  bitmap = λ i. if i == 0 then 3 else 0;
  bitmap_bits = 16;
  bitmap_next = 2;
  total_pages = 16;
  free_pages = 14;
}

-- The same region, with pages for more.
abbrev growing : Heap
growing = record one_region { mmu = record (one_region.mmu) { pmm = some_pages } }

growing-IsHeap : IsHeap growing []
growing-IsHeap = record {
  table = one_region-IsHeap.table;
  blocks = tt;
  headers = tt;
  normal = one_region-IsHeap.normal;
  in_pages = one_region-IsHeap.in_pages;
  once = one_region-IsHeap.once;
}

-- Whether it returned 0, the regions, the pages of addresses and the pages of memory that are left.
abbrev seeds : Outcome (Bool × Heap) → Bool × ℕ × FreeList × ℕ
seeds (returns (b, h)) = (b, h.region_map.free_region_count, h.vma, h.mmu.pmm.free_pages)
seeds panics = (false, 0, [], 0)

-- Four pages more, which join no other region here, and three page tables on the way.
init_allocator_runs :
    seeds (init_allocator growing) ≡ (true, 5, record { base = 0x44000; pages = 12 } ∷ [], 7)
unfolding init_allocator pmm_alloc_zeroed pmm_alloc bitmap_find_clear bitmap_set kvma_alloc
init_allocator_runs = refl

init_allocator_example :
    Always
      (λ (b, h').
        IsHeap h' [] × (b ≡ true → 5 ≤ max_free_regions → h'.region_map.free_region_count ≡ 5))
      (init_allocator growing)
init_allocator_example = init_allocator-IsHeap growing [] growing-IsHeap

abbrev some_size : ℕ
some_size = 64

abbrev some_pointer : ℕ
some_pointer = 0x20008

krealloc_example :
    (0 < some_size
      → some_size ≤ size_max - 8
      → krealloc_impl some_pointer some_size free_heap ≡ spins)
    × (some_size ≡ 0 → 0 < some_pointer → krealloc_impl some_pointer some_size free_heap ≡ spins)
    × (some_size ≡ 0
        → some_pointer ≡ 0
        → krealloc_impl some_pointer some_size free_heap ≡ answers (0, released free_heap.heap))
    × (size_max - 8 < some_size
        → krealloc_impl some_pointer some_size free_heap
          ≡ answers (0, record { heap_lock = some_pointer == 0; heap = free_heap.heap }))
krealloc_example = krealloc_impl-NoBlock some_pointer some_size free_heap refl

-- Just below 4 GiB the size with the header wraps to 0: the block takes nothing from the region.
wraps :
    kmalloc_impl 0xFFFFFFF8 free_heap
    ≡ answers
        (0x20008, record { heap_lock = false; heap = store_word 0x20000 0xFFFFFFF8 one_region })
unfolding kmalloc_impl kmalloc_locked
wraps = refl

abbrev three_regions : RegionMap
three_regions = record {
  free_region_count = 3;
  free_regions = area 0x30000 4096 ∷ area 0x31000 4096 ∷ area 0x40000 4096 ∷ slots 99;
}

-- The pages behind the second region join it and the first, and the third is lost.
loses_third :
    force_free_nolock 0x32000 4096 three_regions
    ≡ record { free_region_count = 1; free_regions = area 0x30000 0x3000 ∷ slots 101 }
unfolding force_free_nolock
loses_third = refl

area_at_example :
    let r = get_or three_regions.free_regions 0 no_region in
    let (size, merged) = area_at 0 three_regions in
    (absorb_pass three_regions.free_region_count r.base_addr size three_regions.free_regions
      merged).2
    ≡ false
area_at_example = area_at_settles 0 three_regions
