-- ===== src/Heap.antt =====
-- The kernel's heap of kernel/src/memory/memory.c.
--
-- All pointers that the heap hands out are multiples of 8, so its memory is a function from the number
-- of an 8-byte word to its value. The pages that the heap maps are cleared before.
pub mod Regions
pub mod Force
pub mod Cover
pub mod Tidy
pub mod Search
pub mod Blocks
pub mod Free
pub mod Carve
pub mod Alloc
pub mod Locks
pub mod Realloc
pub mod History
pub mod Enough
pub mod Init
mod Examples
pub mod Grow
use creeper_os_v.Prelude.{
  ℕ, zero, suc, ◌+◌, ◌-◌, ◌*◌, ◌/◌, Bool, true, false, ◌&&◌, if◌then◌else◌, ltb, leb, ◌==◌, Option,
  none, some, get_or, List, [], ◌∷◌, add64, sub64, mul64,
}
use creeper_os_v.Outcome.{Outcome, returns, ◌>>=◌}
use creeper_os_v.Memops.{Mem}
use creeper_os_v.Pmm.Search.{Pmm}
use creeper_os_v.Pmm.{pmm_alloc_pages_zeroed, pmm_free_pages}
use creeper_os_v.Vma.{FreeList, page_size, kvma_alloc}
use creeper_os_v.Paging.{Flags, no_flags, Mmu, map_pages, map_4k}
use creeper_os_v.Heap.Regions.{
  FreeRegion, no_region, RegionMap, and_not_7u, with_header, first_region_of_size_or_more, place,
  tidy, set_region,
}
use creeper_os_v.Heap.Force.{force_free_nolock}

-- The table of free regions, the words of the heap's memory, and the allocators below the heap.
pub record Heap : Type 0 where
  pub region_map : RegionMap
  pub words : ℕ → ℕ
  pub vma : FreeList
  pub mmu : Mmu
  pub physical : Mem

-- *(uintptr_t* )address, for a multiple of 8.
abbrev pub load_word : ℕ → Heap → ℕ
load_word address h = h.words (address / 8)

abbrev pub store_word : (address value : ℕ) → Heap → Heap
store_word address value h = record h { words = λ w. if w == address / 8 then value else h.words w }

-- PTE_PRESENT | PTE_WRITABLE
abbrev pub kernel_page : Flags
kernel_page = record no_flags { present = true; writable = true }

-- The words of cleared pages.
unfoldable pub clear_words : (va pages : ℕ) → (ℕ → ℕ) → ℕ → ℕ
clear_words va pages words w = if leb (va / 8) w && ltb w (va / 8 + pages * 512) then 0 else words w

-- The pages that were mapped go into the table.
unfoldable pub pages_added : (va pages : ℕ) → Heap → Mmu → Outcome Heap
unfolding force_free_nolock clear_words
pages_added va pages h mmu = returns (record h {
  region_map = force_free_nolock va (mul64 pages page_size) h.region_map;
  words = clear_words va pages h.words;
  mmu = mmu;
})

unfoldable pub add_pages : (va pa pages : ℕ) → Heap → Outcome Heap
unfolding map_pages map_4k pages_added
add_pages va pa pages h =
    map_pages (λ va pa s. map_4k s.kernel_pagedir va pa kernel_page s) 4096 pages va pa h.mmu
    >>= pages_added va pages h

unfoldable pub grown : Heap → Outcome (Bool × Heap)
grown h = returns (true, h)

-- With the addresses that kvma_alloc gave.
unfoldable pub at_address : (pages pa : ℕ) → Heap → ℕ × FreeList → Outcome (Bool × Heap)
unfolding add_pages grown
at_address pages pa h (va, vma) =
    let returned = record h {
      vma = vma;
      mmu = record (h.mmu) { pmm = pmm_free_pages pa pages h.mmu.pmm };
    } in
    if va == 0
    then returns (false, returned)
    else (add_pages va pa pages (record h { vma = vma }) >>= grown)

-- With the frames that pmm_alloc_pages_zeroed gave.
unfoldable pub at_frames : (pages : ℕ) → Heap → ℕ × Pmm × Mem → Outcome (Bool × Heap)
unfolding at_address
at_frames pages h (pa, pmm, physical) =
    let taken = record h { mmu = record (h.mmu) { pmm = pmm }; physical = physical } in
    if pa == 0
    then returns (false, taken)
    else (kvma_alloc pages h.vma >>= at_address pages pa taken)

-- The part of kmalloc_impl that makes the heap larger, and whether it did.
unfoldable pub expand : (full_size : ℕ) → Heap → Outcome (Bool × Heap)
unfolding at_frames
expand full_size h =
    let pages = add64 full_size 4095 / 4096 in
    pmm_alloc_pages_zeroed pages h.mmu.pmm h.physical >>= at_frames pages h

-- A region that lies too low does not count.
unfoldable pub not_low : Heap → Option (ℕ × RegionMap) → Option ℕ × Heap
not_low h none = (none, h)
not_low h (some (i, map)) = (
  if leb (get_or map.free_regions i no_region).base_addr 0xFFFF then none else some i,
  record h { region_map = map },
)

-- The search, and what it leaves of the table.
unfoldable pub find_region : (full_size : ℕ) → Heap → Option ℕ × Heap
unfolding first_region_of_size_or_more not_low
find_region full_size h = not_low h (first_region_of_size_or_more full_size h.region_map)

-- Slot `i` takes the region of the next, and so on for `moves` slots; the last one stays.
unfoldable pub shift_down : (i moves : ℕ) → List FreeRegion → List FreeRegion
shift_down (suc i) moves (x ∷ xs) = x ∷ shift_down i moves xs
shift_down zero (suc moves) (x ∷ y ∷ ys) = y ∷ shift_down zero moves (y ∷ ys)
shift_down i moves xs = xs

-- The table without the first `full_size` bytes of region `i`; an empty region leaves it.
unfoldable pub shrink : (full_size i : ℕ) → RegionMap → RegionMap
unfolding set_region shift_down
shrink full_size i map =
    let r = get_or map.free_regions i no_region in
    let rest : FreeRegion = record {
      base_addr = add64 r.base_addr full_size;
      length = sub64 r.length full_size;
    } in
    let regions = set_region i rest map.free_regions in
    let count = map.free_region_count in
    if rest.length == 0
    then record {
      free_region_count = count - 1;
      free_regions = shift_down i (count - 1 - i) regions;
    }
    else record map { free_regions = regions }

-- The header is written, and the block leaves the table.
unfoldable pub carve : (size full_size i : ℕ) → Heap → ℕ × Heap
unfolding shrink
carve size full_size i h =
    let base = (get_or h.region_map.free_regions i no_region).base_addr in
    (add64 base 8, store_word base size (record h { region_map = shrink full_size i h.region_map }))

-- The second search.
unfoldable pub finish : (size full_size : ℕ) → Option ℕ × Heap → ℕ × Heap
unfolding carve
finish size full_size (some i, h) = carve size full_size i h
finish size full_size (none, h) = (0, h)

-- After the heap has grown.
unfoldable pub try_again : (size full_size : ℕ) → Bool × Heap → Outcome (ℕ × Heap)
unfolding find_region finish
try_again size full_size (false, h) = returns (0, h)
try_again size full_size (true, h) = returns (finish size full_size (find_region full_size h))

-- After the first search.
unfoldable pub after_search : (size full_size : ℕ) → Option ℕ × Heap → Outcome (ℕ × Heap)
unfolding carve expand try_again
after_search size full_size (some i, h) = returns (carve size full_size i h)
after_search size full_size (none, h) = expand full_size h >>= try_again size full_size

-- kmalloc_impl between heap_lock_acquire and heap_lock_release.
unfoldable pub kmalloc_locked : (size : ℕ) → Heap → Outcome (ℕ × Heap)
unfolding find_region after_search
kmalloc_locked size h = after_search size (with_header size) (find_region (with_header size) h)

-- The table with the slots that `place` gave. With no slot left, the block is lost.
unfoldable pub after_place : Heap → Option (List FreeRegion) → Heap
unfolding tidy
after_place h none = h
after_place h (some regions) = record h { region_map = tidy regions }

unfoldable pub put_back : (base size : ℕ) → Heap → Heap
unfolding place after_place
put_back base size h =
    after_place h (place (record { base_addr = base; length = size }) h.region_map.free_regions)

-- kfree_impl between heap_lock_acquire and heap_lock_release.
unfoldable pub kfree_locked : (address : ℕ) → Heap → Heap
unfolding put_back
kfree_locked address h =
    let start = sub64 address 8 in
    let size = add64 (load_word start h) 8 in
    if size == 0 then h else put_back start (and_not_7u (add64 size 7)) h

-- The loop of page_kalloc.
unfoldable pub map_run : (va pa count : ℕ) → Flags → Heap → Outcome (ℕ × Heap)
unfolding map_pages map_4k
map_run va pa count flags h =
    map_pages (λ va pa s. map_4k s.kernel_pagedir va pa flags s) 4096 count va pa h.mmu >>= λ mmu.
    returns (va, record h { mmu = mmu })

-- Neither an address of 0 nor a frame of 0 stops it.
unfoldable pub page_kalloc : (count : ℕ) → Flags → Heap → Outcome (ℕ × Heap)
unfolding map_run
page_kalloc count flags h =
    pmm_alloc_pages_zeroed count h.mmu.pmm h.physical >>= λ (pa, pmm, physical).
    kvma_alloc count h.vma >>= λ (va, vma).
    map_run va pa count flags
      (record h { vma = vma; mmu = record (h.mmu) { pmm = pmm }; physical = physical })
