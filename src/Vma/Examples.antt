-- ===== src/Vma/Examples.antt =====
-- The virtual address allocator of kernel/src/arch/x86_64/mm/vmm.c at concrete lists.
use creeper_os_v.Prelude.{ℕ, ◌≡◌, ◌<◌, refl, ◌⊎◌, arith, [], ◌∷◌}
use creeper_os_v.Outcome.{returns, panics}
use creeper_os_v.Vma.{
  Region, FreeList, kernel_vma_base, nodes_taken, vmm_kvma_init, kvma_node_alloc, kvma_alloc,
  kvma_free,
}
use creeper_os_v.Vma.Cover.{IsNormal}
use creeper_os_v.Vma.Alloc.{AllSmaller, Takes, kvma_alloc-Takes}
use creeper_os_v.Vma.Free.{IsTaken, Gives, kvma_free-Gives}
use creeper_os_v.Vma.RoundTrip.{kvma_free-kvma_alloc}

abbrev region : ℕ → ℕ → Region
region base pages = record { base = base; pages = pages }

-- Two regions with a gap of two pages.
abbrev two : FreeList
two = region 0x10000 2 ∷ region 0x14000 8 ∷ []

two-IsNormal : IsNormal 0 two
two-IsNormal = (omega arith, omega arith, omega arith, (omega arith, omega arith, omega arith, tt))

kvma_alloc_example :
    ((kvma_alloc 3 two ≡ panics) × AllSmaller 3 two)
    ⊎ ((base : ℕ) × (l' : FreeList) × (kvma_alloc 3 two ≡ returns (base, l'))
        × Takes 0 3 two base l')
kvma_alloc_example = kvma_alloc-Takes 0 3 two (omega arith) two-IsNormal

abbrev left : FreeList
left = region 0x10000 2 ∷ region 0x17000 5 ∷ []

alloc_runs : kvma_alloc 3 two ≡ returns (0x14000, left)
unfolding kvma_alloc
alloc_runs = refl

left_nodes : nodes_taken left < 512
unfolding nodes_taken
left_nodes = omega arith

kvma_free-kvma_alloc_example : kvma_free 0x14000 3 left ≡ returns two
kvma_free-kvma_alloc_example =
    kvma_free-kvma_alloc 0 3 two (omega arith) two-IsNormal left_nodes alloc_runs

two_nodes : nodes_taken two < 512
unfolding nodes_taken
two_nodes = omega arith

gap-IsTaken : IsTaken 0 0x12000 2 two
gap-IsTaken = record {
  above = omega arith;
  some_pages = omega arith;
  below = omega arith;
  taken = λ a h. ground arith;
}

kvma_free_example : Gives 0 0x12000 2 two (kvma_free 0x12000 2 two)
kvma_free_example = kvma_free-Gives 0 0x12000 2 two two_nodes two-IsNormal gap-IsTaken

-- The two pages of the gap join the regions on both sides.
free_runs : kvma_free 0x12000 2 two ≡ returns (region 0x10000 12 ∷ [])
unfolding kvma_free nodes_taken
free_runs = refl

init_runs : vmm_kvma_init ≡ returns (region kernel_vma_base 0x8000000 ∷ [])
unfolding vmm_kvma_init kvma_node_alloc nodes_taken
init_runs = refl
