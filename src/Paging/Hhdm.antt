-- ===== src/Paging/Hhdm.antt =====
-- The higher half map at the start of the kernel: `hhdm_init` of kernel/src/arch/x86_64/mm/vmm.c.
-- The boot loader's memory map, the place of the kernel and the answer of the processor on pages of
-- 1 GiB are arguments.
use creeper_os_v.Prelude.{
  ℕ, zero, suc, ◌+◌, ◌*◌, ◌/◌, ◌^◌, ◌≤◌, ◌≡◌, Bool, true, if◌then◌else◌, ltb, List, [], ◌∷◌, add64,
  inl, inr, arith, Bool-cases,
}
use creeper_os_v.Outcome.{Outcome, returns, panics, ◌>>=◌}
use creeper_os_v.Pmm.{hhdm_vbase}
use creeper_os_v.Pmm.Init.{Entry}
use creeper_os_v.Paging.{Flags, no_flags, Mmu, new_table, map_4k, map_2m, map_1g}

abbrev pub hhdm_size_gb : ℕ
hhdm_size_gb = 4096

-- The end of the last entry of the memory map.
unfoldable pub memory_top : List Entry → (top : ℕ) → ℕ
memory_top [] top = top
memory_top (e ∷ es) top =
    let last = add64 e.base e.length in memory_top es (if ltb top last then last else top)

unfoldable pub hhdm_check_coverage : List Entry → Mmu → Outcome Mmu
unfolding memory_top
hhdm_check_coverage es s =
    if ltb (hhdm_size_gb * 2 ^ 30) (memory_top es 0) then panics else returns s

abbrev pub hhdm_flags : Flags
hhdm_flags = record no_flags { present = true; writable = true; nx = true }

-- One GiB by pages of 2 MiB, from `off` on.
unfoldable pub map_gb_2m : (rounds pml4 va pa off : ℕ) → Mmu → Outcome Mmu
unfolding map_2m
map_gb_2m zero pml4 va pa off s = returns s
map_gb_2m (suc rounds) pml4 va pa off s =
    map_2m pml4 (add64 va off) (add64 pa off) hhdm_flags s >>= λ t.
    map_gb_2m rounds pml4 va pa (off + 2 ^ 21) t

unfoldable pub hhdm_map_gb : (huge1g : Bool) → (pml4 gb : ℕ) → Mmu → Outcome Mmu
unfolding map_gb_2m map_1g
hhdm_map_gb huge1g pml4 gb s =
    let pa = gb * 2 ^ 30 in
    let va = add64 hhdm_vbase pa in
    if huge1g then map_1g pml4 va pa hhdm_flags s else map_gb_2m 512 pml4 va pa 0 s

unfoldable pub map_gbs : (rounds : ℕ) → (huge1g : Bool) → (pml4 gb : ℕ) → Mmu → Outcome Mmu
unfolding hhdm_map_gb
map_gbs zero huge1g pml4 gb s = returns s
map_gbs (suc rounds) huge1g pml4 gb s =
    hhdm_map_gb huge1g pml4 gb s >>= λ t. map_gbs rounds huge1g pml4 (gb + 1) t

unfoldable pub hhdm_map_physical_memory : (huge1g : Bool) → (pml4 : ℕ) → Mmu → Outcome Mmu
unfolding map_gbs
hhdm_map_physical_memory huge1g pml4 s = map_gbs hhdm_size_gb huge1g pml4 0 s

-- The loop over the kernel's pages.
unfoldable pub map_kernel_pages : (rounds pml4 kvirt kphys off : ℕ) → Mmu → Outcome Mmu
unfolding map_4k
map_kernel_pages zero pml4 kvirt kphys off s = returns s
map_kernel_pages (suc rounds) pml4 kvirt kphys off s =
    map_4k pml4 (add64 kvirt off) (add64 kphys off)
      (record no_flags { present = true; writable = true }) s
    >>= λ t. map_kernel_pages rounds pml4 kvirt kphys (off + 4096) t

-- `ksize` is the size of the kernel's image, which the code rounds up to pages.
unfoldable pub hhdm_map_kernel : (kphys kvirt ksize pml4 : ℕ) → Mmu → Outcome Mmu
unfolding map_kernel_pages
hhdm_map_kernel kphys kvirt ksize pml4 s =
    map_kernel_pages (add64 ksize 4095 / 4096) pml4 kvirt kphys 0 s

unfoldable pub hhdm_init :
    (memmap : List Entry) → (huge1g : Bool) → (kphys kvirt ksize : ℕ) → Mmu → Outcome Mmu
unfolding hhdm_check_coverage new_table hhdm_map_physical_memory hhdm_map_kernel
hhdm_init memmap huge1g kphys kvirt ksize s = hhdm_check_coverage memmap s >>= λ s1.
    new_table s1 >>= λ (pml4_phys, s2).
    hhdm_map_physical_memory huge1g (pml4_phys / 4096) s2 >>= λ s3.
    hhdm_map_kernel kphys kvirt ksize (pml4_phys / 4096) s3 >>= λ s4.
    returns (record s4 { kernel_pagedir = pml4_phys / 4096; cr3 = pml4_phys / 4096 })

-- All entries of the memory map end at the limit or before it.
abbrev pub AllEnd : (limit : ℕ) → List Entry → Type 0
AllEnd limit [] = Unit {0}
AllEnd limit (e ∷ es) = (add64 e.base e.length ≤ limit) × AllEnd limit es

memory_top-le :
    (es : List Entry) (top limit : ℕ) → memory_top es top ≤ limit → (top ≤ limit) × AllEnd limit es
unfolding memory_top
memory_top-le [] top limit le = (le, tt)
memory_top-le (e ∷ es) top limit le = elim (Bool-cases (ltb top (add64 e.base e.length))) [
  | inl more ↦
      let (first, rest) = memory_top-le es (add64 e.base e.length) limit (rw more at le) in
      (ground (arith, more, first), (first, rest))
  | inr less ↦
      let (first, rest) = memory_top-le es top limit (rw less at le) in
      (first, (ground (arith, less, first), rest))
]

-- Where `hhdm_check_coverage` comes back, each entry of the memory map ends inside the higher half map.
pub hhdm_check_coverage-AllEnd :
    (es : List Entry) (s t : Mmu)
    → hhdm_check_coverage es s ≡ returns t
    → AllEnd (hhdm_size_gb * 2 ^ 30) es
unfolding hhdm_check_coverage
hhdm_check_coverage-AllEnd es s t e =
    elim (Bool-cases (ltb (hhdm_size_gb * 2 ^ 30) (memory_top es 0))) [
      | inl beyond ↦ absurd (refused (rw beyond at e))
      | inr inside ↦ (memory_top-le es 0 (hhdm_size_gb * 2 ^ 30) (ground (arith, inside))).1
    ]
  where
    refused : panics ≡ returns t → ⊥
    refused q = cc q
