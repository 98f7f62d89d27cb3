-- ===== src/Heap/Enough.antt =====
-- kmalloc_impl of kernel/src/memory/memory.c where the table has a region that is large enough.
use creeper_os_v.Prelude.{
  ℕ, zero, suc, ◌+◌, ◌*◌, ◌/◌, ◌≤◌, ◌<◌, ◌≡◌, ◌≢◌, refl, ◌∙◌, sym, subst, ap, Bool, true, false,
  if◌then◌else◌, ltb, leb, ◌==◌, size_max, ◌-◌, Option, none, some, List, get_or, arith,
}
use creeper_os_v.Outcome.{returns}
use creeper_os_v.Heap.Regions.{
  no_region, max_free_regions, RegionMap, mark_only, area_at, take_over, first_region_from,
  first_region_of_size_or_more, with_header,
}
use creeper_os_v.Heap.Cover.{get_or-IsSound}
use creeper_os_v.Heap.Search.{absorb-Absorbed}
use creeper_os_v.Heap.Search.Found.{IsTable, take_over_slot}
use creeper_os_v.Heap.Blocks.{Allocation, max_size, IsHeap}
use creeper_os_v.Heap.Carve.{sizes, carve-IsHeap}
use creeper_os_v.Heap.Alloc.{Room, find_region-Room}
use creeper_os_v.Heap.Locks.{LockedHeap, answers, released, after_kmalloc, kmalloc_impl}
use creeper_os_v.Heap.{Heap, not_low, find_region, carve, after_search, kmalloc_locked}

-- No region with bytes lies in the first 64 KiB, which the code takes for no region.
abbrev pub AllHigh : RegionMap → Type 0
AllHigh map =
    (i : ℕ)
    → i < map.free_region_count
    → 0 < (get_or map.free_regions i no_region).length
    → 0xFFFF < (get_or map.free_regions i no_region).base_addr

-- The search found a region that does not lie too low.
abbrev HighFound : Option (ℕ × RegionMap) → Type 0
HighFound none = ⊥
HighFound (some (i, map)) = 0xFFFF < (get_or map.free_regions i no_region).base_addr

area_at_grows :
    (i : ℕ) (map : RegionMap)
    → IsTable map
    → (get_or map.free_regions i no_region).length ≤ (area_at i map).0
unfolding area_at
area_at_grows i map t =
    let r = get_or map.free_regions i no_region in
    (absorb-Absorbed (suc map.free_region_count) map.free_region_count r.base_addr r.length
      map.free_regions (mark_only i max_free_regions) (get_or-IsSound map.free_regions i t.sound)
      t.sound).grows

high_choice :
    (empty fits : Bool) (i : ℕ) (map' : RegionMap) (later : Option (ℕ × RegionMap))
    → (empty ≡ false → 0xFFFF < (get_or map'.free_regions i no_region).base_addr)
    → (empty ≡ true → HighFound later)
    → (empty ≡ false → fits ≡ false → HighFound later)
    → HighFound (if empty then later else if fits then some (i, map') else later)
high_choice true fits i map' later h e f = e refl
high_choice false true i map' later h e f = h refl
high_choice false false i map' later h e f = f refl refl

first_region_from-High :
    (todo i wanted j : ℕ) (map : RegionMap)
    → IsTable map
    → AllHigh map
    → i + todo ≡ map.free_region_count
    → i ≤ j
    → j < map.free_region_count
    → 0 < wanted
    → wanted ≤ (get_or map.free_regions j no_region).length
    → HighFound (first_region_from todo i wanted map)
unfolding first_region_from
first_region_from-High zero i wanted j map t high n below h pos room =
    absurd (omega (arith, n, below, h))
first_region_from-High (suc todo) i wanted j map t high n below h pos room =
    let found = area_at i map in
    let here = get_or map.free_regions i no_region in
    let room_here : i ≡ j → wanted ≤ here.length =
      λ same. subst (λ k. wanted ≤ (get_or map.free_regions k no_region).length) (sym same) room in
    let later : i ≢ j → HighFound (first_region_from todo (suc i) wanted map) = λ apart.
      first_region_from-High todo (suc i) wanted j map t high (omega (arith, n))
        (omega (arith, apart, below)) h pos room in
    high_choice (here.length == 0) (leb wanted found.0) i (take_over i found.0 found.1 map)
      (first_region_from todo (suc i) wanted map)
      (λ full.
        rw (take_over_slot i found.0 found.1 t (omega (arith, n)))
          (high i (omega (arith, n)) (ground (arith, full))))
      (λ empty. later (λ same. absurd (ground (arith, empty, pos, room_here same))))
      (λ full small.
        later (λ same. absurd (ground (arith, small, room_here same, area_at_grows i map t))))

not_low-some :
    (h : Heap) (o : Option (ℕ × RegionMap))
    → HighFound o
    → (i : ℕ) × (h' : Heap) × (not_low h o ≡ (some i, h')) × (h'.mmu ≡ h.mmu)
unfolding not_low
not_low-some h none f = absurd f
not_low-some h (some (i, map)) f =
    let high : leb (get_or map.free_regions i no_region).base_addr 0xFFFF ≡ false =
      ground (arith, f) in
    rw high (i, record h { region_map = map }, refl, refl)

find_region-some :
    (size j : ℕ) (h : Heap)
    → size ≤ max_size
    → IsTable h.region_map
    → AllHigh h.region_map
    → j < h.region_map.free_region_count
    → (size + 15) / 8 * 8 + 8 ≤ (get_or h.region_map.free_regions j no_region).length
    → (i : ℕ) × (h' : Heap) × (find_region (with_header size) h ≡ (some i, h')) × (h'.mmu ≡ h.mmu)
unfolding find_region first_region_of_size_or_more
find_region-some size j h fits t high in_table room =
    let e = (sizes size fits).1 in
    not_low-some h _ (
      first_region_from-High h.region_map.free_region_count 0 (with_header (with_header size)) j
        h.region_map t high (omega arith) (omega arith) in_table (omega (arith, e))
        (omega (arith, e, room)))

carve_mmu : (size full_size i : ℕ) (h : Heap) → (carve size full_size i h).1.mmu ≡ h.mmu
unfolding carve
carve_mmu size full_size i h = refl

-- The part under the lock, for a region that holds the block, with its header, and 8 bytes more.
kmalloc_locked-Enough :
    (size j : ℕ) (h : Heap) (live : List Allocation)
    → size ≤ max_size
    → IsHeap h live
    → AllHigh h.region_map
    → j < h.region_map.free_region_count
    → (size + 15) / 8 * 8 + 8 ≤ (get_or h.region_map.free_regions j no_region).length
    → (p : ℕ) × (h' : Heap) × (kmalloc_locked size h ≡ returns (p, h')) × (0 < p) × (h'.mmu ≡ h.mmu)
unfolding kmalloc_locked after_search
kmalloc_locked-Enough size j h live fits s high in_table room =
    let (i, h', same, same_mmu) = find_region-some size j h fits s.table high in_table room in
    let (roomy, after) =
      subst (λ o. Room size o × IsHeap o.1 live) same (find_region-Room size h live fits s) in
    let made = carve-IsHeap size i h' live fits after roomy in
    rw same (
      (carve size (with_header size) i h').0,
      (carve size (with_header size) i h').1,
      refl,
      omega (arith, made.0),
      carve_mmu size (with_header size) i h' ∙ same_mmu,
    )

-- In a sound heap with the lock free, where no region with bytes lies in the first 64 KiB and some region
-- holds the block for `size` bytes, with its header, and 8 bytes more: for a `size` above 0 and up to
-- `max_size`, `kmalloc_impl` returns a pointer that is not NULL, with the lock free again, and takes no
-- page from the page allocator and changes no page table.
pub kmalloc_impl-Enough :
    (size j : ℕ) (k : LockedHeap) (live : List Allocation)
    → 0 < size
    → size ≤ max_size
    → k.heap_lock ≡ false
    → IsHeap k.heap live
    → AllHigh k.heap.region_map
    → j < k.heap.region_map.free_region_count
    → (size + 15) / 8 * 8 + 8 ≤ (get_or k.heap.region_map.free_regions j no_region).length
    → (p : ℕ) × (k' : LockedHeap) × (kmalloc_impl size k ≡ answers (p, k'))
      × (0 < p)
      × (k'.heap_lock ≡ false)
      × (k'.heap.mmu ≡ k.heap.mmu)
unfolding kmalloc_impl after_kmalloc
kmalloc_impl-Enough size j k live pos fits free s high in_table room =
    let (p, h', same, some_pointer, same_mmu) =
      kmalloc_locked-Enough size j k.heap live fits s high in_table room in
    let some_wanted : (size == 0) ≡ false = ground (arith, pos) in
    let small : ltb (size_max - 8) size ≡ false = ground (arith, fits) in
    (
      p,
      released h',
      rw some_wanted (rw small (rw free (ap after_kmalloc same))),
      some_pointer,
      refl,
      same_mmu,
    )
