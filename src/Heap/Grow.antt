-- ===== src/Heap/Grow.antt =====
-- The part of kmalloc_impl in kernel/src/memory/memory.c that maps more pages.
use creeper_os_v.Prelude.{
  ℕ, ◌+◌, ◌*◌, ◌/◌, ◌%◌, ◌^◌, ◌<◌, ◌≡◌, refl, subst, true, false, ◌&&◌, leb, ltb, ◌==◌, List, add64,
  mul64, arith, Bool-cases, inl, inr,
}
use creeper_os_v.Outcome.{Always, Always->>=, Always-then}
use creeper_os_v.Memops.{Mem}
use creeper_os_v.Pmm.Search.{Pmm}
use creeper_os_v.Pmm.{pmm_alloc_pages_zeroed}
use creeper_os_v.Vma.{FreeList, page_size}
use creeper_os_v.Vma.Cover.{in_pages}
use creeper_os_v.Vma.Whole.{InPages, AnyInPages, kvma_alloc-InPages}
use creeper_os_v.Vma.Alloc.{Takes, kvma_alloc-Takes}
use creeper_os_v.Paging.{Mmu, map_pages, map_4k}
use creeper_os_v.Heap.Regions.{RegionMap}
use creeper_os_v.Heap.Cover.{covering}
use creeper_os_v.Heap.Search.{area}
use creeper_os_v.Heap.Force.Adding.{Adds, force_free_nolock-Adds}
use creeper_os_v.Heap.Blocks.{
  Allocation, regions_of, Headers, unused_by_holders, Headers-kept, IsHeap,
}
use creeper_os_v.Heap.{
  Heap, kernel_page, clear_words, pages_added, add_pages, grown, at_address, at_frames, expand,
}

-- Pages that were free are in no block, and no header is cleared with them.
pages_apart :
    (h : Heap) (live : List Allocation) (va pages : ℕ) (l : FreeList)
    → IsHeap h live
    → Takes 0 pages h.vma va l
    → (a : ℕ) → in_pages va pages a ≡ true
    → (covering (regions_of live) a ≡ 0) × (covering h.region_map.free_regions a ≡ 0)
pages_apart h live va pages l s took a e =
    let free = took.were_free a e in
    (ground (arith, free, s.once a), ground (arith, free, s.once a))

clear_words-Headers :
    (h : Heap) (live : List Allocation) (va pages : ℕ) (l : FreeList)
    → IsHeap h live
    → va % 4096 ≡ 0
    → Takes 0 pages h.vma va l
    → Headers (clear_words va pages h.words) live
unfolding clear_words
clear_words-Headers h live va pages l s aligned took =
    Headers-kept h.words (clear_words va pages h.words) live s.blocks s.headers (λ w.
      elim (Bool-cases (leb (va / 8) w && ltb w (va / 8 + pages * 512))) [
        | inl cleared ↦
            let inside : in_pages va pages (w * 8) ≡ true = ground (arith, cleared, aligned) in
            inr (
              omega (
                arith,
                unused_by_holders h.words live (w * 8) s.headers,
                (pages_apart h live va pages l s took (w * 8) inside).0,
              ))
        | inr other ↦ inl (rw other refl)
      ])

-- New pages in the table, cleared.
pub added-IsHeap :
    (h : Heap) (live : List Allocation) (va pages : ℕ) (l : FreeList) (mmu : Mmu) (map : RegionMap)
    → IsHeap h live
    → (va % 4096 ≡ 0) × InPages l
    → Takes 0 pages h.vma va l
    → Adds (area va (pages * 4096)) h.region_map map
    → IsHeap
        (record h { region_map = map; words = clear_words va pages h.words; vma = l; mmu = mmu })
        live
added-IsHeap h live va pages l mmu map s aligned took added = record {
  table = added.table;
  blocks = s.blocks;
  headers = clear_words-Headers h live va pages l s aligned.0 took;
  normal = took.normal;
  in_pages = aligned.1;
  once = λ a. elim (Bool-cases (in_pages va pages a)) [
    | inl inside ↦
        let apart = pages_apart h live va pages l s took a inside in
        ground (arith, apart.0, apart.1, added.within a, took.left a, inside)
    | inr outside ↦ ground (arith, added.within a, took.left a, outside, s.once a)
  ];
}

pages_added-IsHeap :
    (h : Heap) (live : List Allocation) (va pages : ℕ) (l : FreeList) (mmu : Mmu)
    → IsHeap h live
    → (va % 4096 ≡ 0) × InPages l
    → Takes 0 pages h.vma va l
    → Always (λ h'. IsHeap h' live) (pages_added va pages (record h { vma = l }) mmu)
unfolding pages_added
pages_added-IsHeap h live va pages l mmu s aligned took =
    let bytes : mul64 pages page_size ≡ pages * 4096 = omega (arith, took.below) in
    rw bytes (
      added-IsHeap h live va pages l mmu _ s aligned took (
        force_free_nolock-Adds va (pages * 4096) h.region_map s.table aligned.0 (omega arith)
          (omega (arith, took.below, aligned.0))))

at_address-IsHeap :
    (h : Heap) (live : List Allocation) (va pa pages : ℕ) (l : FreeList)
    → IsHeap h live
    → (va % 4096 ≡ 0) × InPages l
    → Takes 0 pages h.vma va l
    → Always (λ (b, h'). IsHeap h' live) (at_address pages pa h (va, l))
unfolding at_address add_pages grown
at_address-IsHeap h live va pa pages l s aligned took =
    let nonzero : (va == 0) ≡ false = ground (arith, took.above) in
    let m =
      map_pages (λ va pa s. map_4k s.kernel_pagedir va pa kernel_page s) 4096 pages va pa h.mmu in
    rw nonzero (
      Always-then (λ h'. IsHeap h' live) (λ (b, h'). IsHeap h' live)
        (add_pages va pa pages (record h { vma = l })) grown
        (Always->>= (λ h'. IsHeap h' live) m (pages_added va pages (record h { vma = l }))
          (λ mmu. pages_added-IsHeap h live va pages l mmu s aligned took))
        (λ h' s'. s'))

pub with_frames :
    (h : Heap) (live : List Allocation) (pmm : Pmm) (physical : Mem)
    → IsHeap h live
    → IsHeap (record h { mmu = record (h.mmu) { pmm = pmm }; physical = physical }) live
with_frames h live pmm physical s = record {
  table = s.table;
  blocks = s.blocks;
  headers = s.headers;
  normal = s.normal;
  in_pages = s.in_pages;
  once = s.once;
}

at_frames-IsHeap :
    (pages : ℕ) (h : Heap) (live : List Allocation) (got : ℕ × Pmm × Mem)
    → 0 < pages
    → IsHeap h live
    → Always (λ (b, h'). IsHeap h' live) (at_frames pages h got)
unfolding at_frames
at_frames-IsHeap pages h live (pa, pmm, physical) pos s =
    let taken = with_frames h live pmm physical s in
    elim (Bool-cases (pa == 0)) [
      | inl failed ↦ rw failed taken
      | inr got ↦ rw got (elim (kvma_alloc-Takes 0 pages h.vma pos s.normal) [
        | inl (e, small) ↦ rw e tt
        | inr (va, l, e, took) ↦
            let aligned = subst AnyInPages e (kvma_alloc-InPages pages h.vma s.in_pages) in
            rw e (
              at_address-IsHeap
                (record h { mmu = record (h.mmu) { pmm = pmm }; physical = physical }) live va pa
                pages l taken aligned took)
      ])
    ]

-- However the heap grows, it stays sound.
pub expand-IsHeap :
    (full_size : ℕ) (h : Heap) (live : List Allocation)
    → 0 < full_size
    → full_size < 2 ^ 32
    → IsHeap h live
    → Always (λ (b, h'). IsHeap h' live) (expand full_size h)
unfolding expand
expand-IsHeap full_size h live pos small s =
    Always->>= _ (pmm_alloc_pages_zeroed (add64 full_size 4095 / 4096) h.mmu.pmm h.physical)
      (at_frames (add64 full_size 4095 / 4096) h)
      (λ got.
        at_frames-IsHeap (add64 full_size 4095 / 4096) h live got (omega (arith, pos, small)) s)
