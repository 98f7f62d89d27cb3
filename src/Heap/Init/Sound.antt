-- ===== src/Heap/Init/Sound.antt =====
-- init_allocator of kernel/src/memory/memory.c leaves a sound heap.
use creeper_os_v.Prelude.{
  ℕ, zero, suc, ◌+◌, ◌-◌, ◌%◌, ◌^◌, ◌≤◌, ◌<◌, ◌≡◌, refl, subst, Bool, true, false, ltb, ◌==◌, List,
  sub64, arith, Bool-cases, inl, inr,
}
use creeper_os_v.Outcome.{◌>>=◌, Always, Always->>=, Always-then}
use creeper_os_v.Memops.{Mem}
use creeper_os_v.Pmm.Search.{Pmm}
use creeper_os_v.Pmm.{pmm_alloc_zeroed}
use creeper_os_v.Vma.{FreeList}
use creeper_os_v.Vma.Alloc.{Takes, kvma_alloc-Takes}
use creeper_os_v.Vma.Whole.{InPages, AnyInPages, kvma_alloc-InPages}
use creeper_os_v.Paging.{map_4k}
use creeper_os_v.Heap.Regions.{max_free_regions, RegionMap}
use creeper_os_v.Heap.Search.{area}
use creeper_os_v.Heap.Search.Found.{IsTable}
use creeper_os_v.Heap.Force.{append_region}
use creeper_os_v.Heap.Force.Adding.{Adds, append_region-Adds}
use creeper_os_v.Heap.Blocks.{Allocation, IsHeap}
use creeper_os_v.Heap.Grow.{added-IsHeap, with_frames}
use creeper_os_v.Heap.{Heap, kernel_page}
use creeper_os_v.Heap.Init.{
  seed_region, seeded, seed_at_address, seed_at_frame, seed_next, init_allocator,
}

seed_region-append :
    (va : ℕ) (map : RegionMap) → seed_region va map ≡ append_region va (va + 4096) map
unfolding seed_region append_region
seed_region-append va map = let e : sub64 (va + 4096) va ≡ 4096 = omega arith in rw e refl

seed_region-Adds :
    (va : ℕ) (map : RegionMap)
    → IsTable map
    → va % 4096 ≡ 0
    → va + 4096 < 2 ^ 64
    → Adds (area va 4096) map (seed_region va map)
seed_region-Adds va map t aligned below =
    let e : va + 4096 - va ≡ 4096 = omega arith in
    rw (seed_region-append va map) (
      subst (λ n. Adds (area va n) map (append_region va (va + 4096) map)) e
        (append_region-Adds va (va + 4096) map t
          (omega (arith, aligned), omega (arith, aligned), omega arith, below)))

-- A sound heap with `pages` regions to come until there are `n`, if `n` fit into the table and no page has
-- failed.
abbrev Seeded : (pages n : ℕ) → List Allocation → Bool × Heap → Type 0
Seeded pages n live (b, h) =
    IsHeap h live × (b ≡ true → n ≤ max_free_regions → pages + h.region_map.free_region_count ≡ n)

-- The same with none to come.
abbrev AllSeeded : (n : ℕ) → List Allocation → Bool × Heap → Type 0
AllSeeded n live (b, h) =
    IsHeap h live × (b ≡ true → n ≤ max_free_regions → h.region_map.free_region_count ≡ n)

seed_region-count :
    (va : ℕ) (map : RegionMap)
    → map.free_region_count < max_free_regions
    → (seed_region va map).free_region_count ≡ suc map.free_region_count
unfolding seed_region
seed_region-count va map room =
    let e : ltb map.free_region_count max_free_regions ≡ true = ground (arith, room) in rw e refl

seed_at_address-IsHeap :
    (pages n : ℕ) (h : Heap) (live : List Allocation) (va pa : ℕ) (l : FreeList)
    → Seeded (suc pages) n live (true, h)
    → (va % 4096 ≡ 0) × InPages l
    → Takes 0 1 h.vma va l
    → Always (Seeded pages n live) (seed_at_address pa h (va, l))
unfolding seed_at_address seeded
seed_at_address-IsHeap pages n h live va pa l (s, count) aligned took =
    let nonzero : (va == 0) ≡ false = ground (arith, took.above) in
    rw nonzero (
      Always->>= (Seeded pages n live) (map_4k h.mmu.kernel_pagedir va pa kernel_page h.mmu)
        (seeded va (record h { vma = l }))
        (λ mmu. (
          added-IsHeap h live va 1 l mmu (seed_region va h.region_map) s aligned took
              (seed_region-Adds va h.region_map s.table aligned.0 (omega (arith, took.below))),
          λ e fits.
              let so_far = count refl fits in
              rw (seed_region-count va h.region_map (omega (arith, so_far, fits)))
                (omega (arith, so_far)),
        )))

seed_at_frame-IsHeap :
    (pages n : ℕ) (h : Heap) (live : List Allocation) (got : ℕ × Pmm × Mem)
    → Seeded (suc pages) n live (true, h)
    → Always (Seeded pages n live) (seed_at_frame h got)
unfolding seed_at_frame
seed_at_frame-IsHeap pages n h live (pa, pmm, physical) (s, count) =
    let taken = with_frames h live pmm physical s in
    elim (Bool-cases (pa == 0)) [
      | inl failed ↦ rw failed (taken, λ e. absurd (cc))
      | inr got ↦ rw got (elim (kvma_alloc-Takes 0 1 h.vma (omega arith) s.normal) [
        | inl (e, small) ↦ rw e tt
        | inr (va, l, e, took) ↦
            let aligned = subst AnyInPages e (kvma_alloc-InPages 1 h.vma s.in_pages) in
            rw e (
              seed_at_address-IsHeap pages n
                (record h { mmu = record (h.mmu) { pmm = pmm }; physical = physical }) live va pa l
                (taken, count) aligned took)
      ])
    ]

seed_next-IsHeap :
    (pages n : ℕ) (b : Bool) (h : Heap) (live : List Allocation)
    → Seeded pages n live (b, h)
    → Always (AllSeeded n live) (seed_next pages (b, h))
unfolding seed_next
seed_next-IsHeap pages n false h live s = (s.0, λ e. absurd (cc))
seed_next-IsHeap zero n true h live s = (s.0, λ e fits. omega (arith, s.1 e fits))
seed_next-IsHeap (suc pages) n true h live s =
    Always-then (Seeded pages n live) (AllSeeded n live)
      (pmm_alloc_zeroed h.mmu.pmm h.physical >>= seed_at_frame h) (seed_next pages)
      (Always->>= (Seeded pages n live) (pmm_alloc_zeroed h.mmu.pmm h.physical) (seed_at_frame h)
        (λ got. seed_at_frame-IsHeap pages n h live got s))
      (λ (b', h') s'. seed_next-IsHeap pages n b' h' live s')

-- Where `init_allocator` starts from a sound heap and returns, with or without an error, the heap is
-- sound; without an error, where the table has four free slots, it has four regions more.
pub init_allocator-IsHeap :
    (h : Heap) (live : List Allocation)
    → IsHeap h live
    → Always
        (λ (b, h').
          IsHeap h' live
          × (b ≡ true
              → h.region_map.free_region_count + 4 ≤ max_free_regions
              → h'.region_map.free_region_count ≡ h.region_map.free_region_count + 4))
        (init_allocator h)
unfolding init_allocator
init_allocator-IsHeap h live s =
    seed_next-IsHeap 4 (h.region_map.free_region_count + 4) true h live (s, λ e fits. omega arith)
