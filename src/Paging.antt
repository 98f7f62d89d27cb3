-- ===== src/Paging.antt =====
-- The page tables of kernel/src/arch/x86_64/mm/vmm.c: mapping, lookup and removal.
--
-- A table is named by the number of its page frame; the higher half map, through which the code reads
-- it, only adds a constant to its address. An entry is split into the frame (PTE_ADDR_MASK) and the
-- flags. The translation buffer of the processor (`invlpg`) is not in the model, and the lock makes an
-- entry point one step. Where table_get_or_create finds no permission bit missing, it stores the value
-- that is there.
pub mod Lookup
pub mod Tree
pub mod Unmap
pub mod User
pub mod Hhdm
pub mod Map
pub mod Write
pub mod Create
mod Examples
use creeper_os_v.Prelude.{
  ℕ, zero, suc, ◌+◌, ◌-◌, ◌*◌, ◌/◌, ◌%◌, ◌^◌, bit_or, Bool, true, false, not, ◌&&◌, ◌||◌,
  if◌then◌else◌, ◌==◌, leb, ltb, size_max, add64,
}
use creeper_os_v.Outcome.{Outcome, returns, ◌>>=◌}
use creeper_os_v.Pmm.Search.{Pmm}
use creeper_os_v.Pmm.{pmm_alloc, pmm_free}

-- The flag bits: PTE_PRESENT, PTE_WRITABLE, PTE_USER, PTE_HUGE, PTE_LOCAL_OWNED and PTE_NX, and whether
-- any of the others is set.
pub record Flags : Type 0 where
  pub present : Bool
  pub writable : Bool
  pub user : Bool
  pub huge : Bool
  pub owned : Bool
  pub nx : Bool
  pub others : Bool

pub record Entry : Type 0 where
  pub frame : ℕ
  pub flags : Flags

abbrev pub no_flags : Flags
no_flags = record {
  present = false;
  writable = false;
  user = false;
  huge = false;
  owned = false;
  nx = false;
  others = false;
}

-- An entry of 0.
abbrev pub no_entry : Entry
no_entry = record { frame = 0; flags = no_flags }

-- The tables in memory, the page allocator, the frame that cr3 holds, and kernel_pagedir_phys.
pub record Mmu : Type 0 where
  pub tables : (table idx : ℕ) → Entry
  pub pmm : Pmm
  pub cr3 : ℕ
  pub kernel_pagedir : ℕ

-- phys & PTE_ADDR_MASK, as a frame.
abbrev pub frame_of : ℕ → ℕ
frame_of phys = phys / 4096 % 2 ^ 40

abbrev pub pml4_index : ℕ → ℕ
pml4_index va = va / 2 ^ 39 % 512

abbrev pub pdpt_index : ℕ → ℕ
pdpt_index va = va / 2 ^ 30 % 512

abbrev pub pd_index : ℕ → ℕ
pd_index va = va / 2 ^ 21 % 512

abbrev pub pt_index : ℕ → ℕ
pt_index va = va / 2 ^ 12 % 512

-- table[idx] = e
abbrev pub store_entry : (table idx : ℕ) → Entry → Mmu → Mmu
store_entry table idx e s = record s {
  tables = λ t i. if t == table && i == idx then e else s.tables t i;
}

-- flags & (PTE_WRITABLE | PTE_USER | PTE_LOCAL_OWNED), set in other flags.
abbrev pub with_permissions : (perm flags : Flags) → Flags
with_permissions perm flags = record flags {
  writable = flags.writable || perm.writable;
  user = flags.user || perm.user;
  owned = flags.owned || perm.owned;
}

-- pmm_alloc_zeroed, seen as a table; `panic` where no page is left. The frame 0 is not cleared.
unfoldable pub new_table : Mmu → Outcome (ℕ × Mmu)
new_table s = pmm_alloc s.pmm >>= λ (phys, pmm). returns (
  phys,
  record s {
    tables = λ t i. if not (phys == 0) && t == phys / 4096 then no_entry else s.tables t i;
    pmm = pmm;
  },
)

-- The entry for a table that was made at `phys`, and the table's frame.
unfoldable pub link_table : (table idx : ℕ) → Flags → ℕ × Mmu → Outcome (ℕ × Mmu)
link_table table idx flags (phys, s) = returns (
  frame_of phys,
  store_entry table idx
      (record {
        frame = frame_of phys;
        flags = with_permissions flags (record no_flags { present = true });
      })
      s,
)

unfoldable pub table_get_or_create : (table idx : ℕ) → Flags → Mmu → Outcome (ℕ × Mmu)
unfolding new_table link_table
table_get_or_create table idx flags s =
    let e = s.tables table idx in
    if e.flags.present
    then returns
        (e.frame, store_entry table idx (record e { flags = with_permissions flags e.flags }) s)
    else (new_table s >>= link_table table idx flags)

-- (pa & PTE_ADDR_MASK) | flags | PTE_PRESENT
abbrev pub leaf : (pa : ℕ) → Flags → Entry
leaf pa flags = record { frame = frame_of pa; flags = record flags { present = true } }

unfoldable pub map_4k : (pml4 va pa : ℕ) → Flags → Mmu → Outcome Mmu
unfolding table_get_or_create
map_4k pml4 va pa flags s = table_get_or_create pml4 (pml4_index va) flags s >>= λ (pdpt, s3).
    table_get_or_create pdpt (pdpt_index va) flags s3 >>= λ (pd, s2).
    table_get_or_create pd (pd_index va) flags s2 >>= λ (pt, s1).
    returns (store_entry pt (pt_index va) (leaf pa flags) s1)

unfoldable pub map_2m : (pml4 va pa : ℕ) → Flags → Mmu → Outcome Mmu
unfolding table_get_or_create
map_2m pml4 va pa flags s = table_get_or_create pml4 (pml4_index va) flags s >>= λ (pdpt, s3).
    table_get_or_create pdpt (pdpt_index va) flags s3 >>= λ (pd, s2).
    returns (store_entry pd (pd_index va) (leaf pa (record flags { huge = true })) s2)

unfoldable pub map_1g : (pml4 va pa : ℕ) → Flags → Mmu → Outcome Mmu
unfolding table_get_or_create
map_1g pml4 va pa flags s = table_get_or_create pml4 (pml4_index va) flags s >>= λ (pdpt, s3).
    returns (store_entry pdpt (pdpt_index va) (leaf pa (record flags { huge = true })) s3)

-- The loops of map_4k_pages, map_2m_pages and map_1g_pages.
unfoldable pub map_pages :
    (map : (va pa : ℕ) → Mmu → Outcome Mmu) → (size rounds va pa : ℕ) → Mmu → Outcome Mmu
map_pages map size zero va pa s = returns s
map_pages map size (suc rounds) va pa s =
    map va pa s >>= λ t. map_pages map size rounds (add64 va size) (add64 pa size) t

unfoldable pub map_4k_pages : (pml4 va pa count : ℕ) → Flags → Mmu → Outcome Mmu
unfolding map_pages map_4k
map_4k_pages pml4 va pa count flags s =
    map_pages (λ va pa s. map_4k pml4 va pa flags s) 4096 count va pa s

unfoldable pub map_2m_pages : (pml4 va pa count : ℕ) → Flags → Mmu → Outcome Mmu
unfolding map_pages map_2m
map_2m_pages pml4 va pa count flags s =
    map_pages (λ va pa s. map_2m pml4 va pa flags s) (2 ^ 21) count va pa s

unfoldable pub map_1g_pages : (pml4 va pa count : ℕ) → Flags → Mmu → Outcome Mmu
unfolding map_pages map_1g
map_1g_pages pml4 va pa count flags s =
    map_pages (λ va pa s. map_1g pml4 va pa flags s) (2 ^ 30) count va pa s

-- Into the tables that cr3 holds.
unfoldable pub vmm_map_page : (va pa : ℕ) → Flags → Mmu → Outcome Mmu
unfolding map_4k
vmm_map_page va pa flags s = map_4k s.cr3 va pa flags s
