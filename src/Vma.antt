-- ===== src/Vma.antt =====
-- The kernel's virtual address allocator of kernel/src/arch/x86_64/mm/vmm.c: a free list of regions
-- in the order of their addresses, whose nodes come from a pool of 512.
pub mod Cover
pub mod Alloc
pub mod Free
pub mod Whole
mod Examples
pub mod RoundTrip
use creeper_os_v.Prelude.{
  ℕ, zero, suc, ◌+◌, ◌-◌, ◌*◌, ◌/◌, ◌%◌, ◌^◌, Bool, true, false, Option, none, some, List, [], ◌∷◌,
  if◌then◌else◌, ltb, leb, ◌==◌, ◌&&◌, add64, mul64, length,
}
use creeper_os_v.Outcome.{Outcome, returns, panics, ◌>>=◌}

abbrev pub page_size : ℕ
page_size = 4096

-- KERNEL_VMA_BASE and KERNEL_VMA_SIZE of kernel/src/arch/vmm.h.
abbrev pub kernel_vma_base : ℕ
kernel_vma_base = 0xFFFF900000000000

abbrev pub kernel_vma_size : ℕ
kernel_vma_size = 512 * 1024 * 1024 * 1024

-- A `vma_region_t` on the free list; the list stands for the `next` pointers.
pub record Region : Type 0 where
  pub base : ℕ
  pub pages : ℕ

abbrev pub FreeList : Type 0
FreeList = List Region

-- base + pages * PMM_PAGE_SIZE, as the code computes it.
abbrev pub region_end : Region → ℕ
region_end r = add64 r.base (mul64 r.pages page_size)

-- The pool has 512 nodes, and a node is taken while its `pages` is not 0.
pub nodes_taken : FreeList → ℕ
nodes_taken [] = 0
nodes_taken (r ∷ rs) = (if r.pages == 0 then 0 else 1) + nodes_taken rs

-- `kvma_node_alloc` in front of a write of all fields of the node.
pub kvma_node_alloc : FreeList → Region → Outcome Region
kvma_node_alloc l r = if ltb (nodes_taken l) 512 then returns r else panics

pub vmm_kvma_init : Outcome FreeList
vmm_kvma_init =
    kvma_node_alloc [] (record { base = kernel_vma_base; pages = kernel_vma_size / page_size })
    >>= λ r. returns (r ∷ [])

-- The walk of `kvma_alloc`: first fit, from the front of the region.
unfoldable pub kvma_alloc : ℕ → FreeList → Outcome (ℕ × FreeList)
kvma_alloc count [] = panics
kvma_alloc count (cur ∷ next) =
    let rest = kvma_alloc count next >>= λ (base, l). returns (base, cur ∷ l) in
    if leb count cur.pages
    then returns (
      cur.base,
      if cur.pages - count == 0
          then next
          else record { base = add64 cur.base (mul64 count page_size); pages = cur.pages - count }
            ∷ next,
    )
    else rest

-- The three ends of `kvma_free`. `taken` counts the pool's nodes in use. Before `cur`, with no region
-- to merge with in front of it:
place_front : (taken base count : ℕ) → FreeList → Outcome FreeList
place_front taken base count [] =
    if ltb taken 512 then returns (record { base = base; pages = count } ∷ []) else panics
place_front taken base count (cur ∷ next) =
    if add64 base (mul64 count page_size) == cur.base
    then returns (record { base = base; pages = add64 cur.pages count } ∷ next)
    else if ltb taken 512
    then returns (record { base = base; pages = count } ∷ cur ∷ next)
    else panics

-- The region `p` has grown: it may now touch the next.
merge_next : Region → FreeList → FreeList
merge_next p [] = p ∷ []
merge_next p (cur ∷ next) =
    if region_end p == cur.base
    then record p { pages = add64 p.pages cur.pages } ∷ next
    else p ∷ cur ∷ next

-- Between the region `p` and the rest.
place_after : (taken base count : ℕ) → Region → FreeList → Outcome FreeList
unfolding place_front merge_next
place_after taken base count p l =
    if region_end p == base
    then returns (merge_next (record p { pages = add64 p.pages count }) l)
    else place_front taken base count l >>= λ rest. returns (p ∷ rest)

-- while (cur && cur->base < base), with `p` the region before.
walk : (taken base count : ℕ) → Region → FreeList → Outcome FreeList
walk taken base count p [] = place_after taken base count p []
walk taken base count p (cur ∷ next) =
    let further = walk taken base count cur next >>= λ rest. returns (p ∷ rest) in
    if ltb cur.base base then further else place_after taken base count p (cur ∷ next)

free_at : (taken base count : ℕ) → FreeList → Outcome FreeList
free_at taken base count [] = place_front taken base count []
free_at taken base count (cur ∷ next) =
    if ltb cur.base base
    then walk taken base count cur next
    else place_front taken base count (cur ∷ next)

pub kvma_free : (base count : ℕ) → FreeList → Outcome FreeList
unfolding free_at walk place_after place_front merge_next
kvma_free base count l = free_at (nodes_taken l) base count l
