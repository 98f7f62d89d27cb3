-- ===== src/Paging/Lookup.antt =====
-- Lookup and removal of mappings in kernel/src/arch/x86_64/mm/vmm.c.
use creeper_os_v.Prelude.{
  ℕ, zero, suc, ◌+◌, ◌*◌, ◌/◌, ◌%◌, ◌^◌, bit_or, Bool, true, not, ◌&&◌, ◌||◌, if◌then◌else◌, ◌==◌,
  ltb, size_max, add64,
}
use creeper_os_v.Pmm.{pmm_free}
use creeper_os_v.Paging.{
  Entry, no_entry, Mmu, pml4_index, pdpt_index, pd_index, pt_index, store_entry,
}

-- (e & PTE_ADDR_MASK) | (vaddr & (size - 1))
abbrev pub in_page : Entry → (va size : ℕ) → ℕ
in_page e va size = bit_or (e.frame * 4096) (va % size)

-- What the walk gives at an entry of a page table, of a page directory, and of the level above.
unfoldable pub phys_at_pt : Mmu → (pt va : ℕ) → ℕ
phys_at_pt s pt va =
    let e = s.tables pt (pt_index va) in if e.flags.present then in_page e va 4096 else size_max

unfoldable pub phys_at_pd : Mmu → (pd va : ℕ) → ℕ
unfolding phys_at_pt
phys_at_pd s pd va =
    let e = s.tables pd (pd_index va) in
    if e.flags.present
    then (if e.flags.huge then in_page e va (2 ^ 21) else phys_at_pt s e.frame va)
    else size_max

unfoldable pub phys_at_pdpt : Mmu → (pdpt va : ℕ) → ℕ
unfolding phys_at_pd
phys_at_pdpt s pdpt va =
    let e = s.tables pdpt (pdpt_index va) in
    if e.flags.present
    then (if e.flags.huge then in_page e va (2 ^ 30) else phys_at_pd s e.frame va)
    else size_max

-- UINTPTR_MAX where nothing is mapped.
unfoldable pub page_dir_virt_to_phys : (pml4 va : ℕ) → Mmu → ℕ
unfolding phys_at_pdpt
page_dir_virt_to_phys pml4 va s =
    let e = s.tables pml4 (pml4_index va) in
    if e.flags.present then phys_at_pdpt s e.frame va else size_max

-- The same walk from the table in cr3.
unfoldable pub vmm_virt_to_phys : (va : ℕ) → Mmu → ℕ
unfolding page_dir_virt_to_phys
vmm_virt_to_phys va s = page_dir_virt_to_phys s.cr3 va s

-- Where the page table of an address is, if all tables on the way are there and no page is huge.
unfoldable pub at_pt : (pml4 va : ℕ) → Mmu → (absent : Mmu) → (pt_found : ℕ → Mmu) → Mmu
at_pt pml4 va s absent pt_found =
    let e4 = s.tables pml4 (pml4_index va) in
    let e3 = s.tables e4.frame (pdpt_index va) in
    let e2 = s.tables e3.frame (pd_index va) in
    if e4.flags.present
    then (if e3.flags.present
        then (if e2.flags.present
            then (if e2.flags.huge then absent else pt_found e2.frame)
            else absent)
        else absent)
    else absent

-- *pte = 0, and the page goes back if the mapping owns it.
unfoldable pub clear_pte : (pt idx : ℕ) → (free_phys : Bool) → Mmu → Mmu
clear_pte pt idx free_phys s =
    let e = s.tables pt idx in
    record s {
      tables = (store_entry pt idx no_entry s).tables;
      pmm = if free_phys && e.flags.owned then pmm_free (e.frame * 4096) s.pmm else s.pmm;
    }

unfoldable pub unmap_4k : (pml4 va : ℕ) → (free_phys : Bool) → Mmu → Mmu
unfolding at_pt clear_pte
unmap_4k pml4 va free_phys s = at_pt pml4 va s s λ pt.
    if (s.tables pt (pt_index va)).flags.present then clear_pte pt (pt_index va) free_phys s else s

unfoldable pub unmap_4k_pages : (pml4 va count : ℕ) → Mmu → Mmu
unfolding unmap_4k
unmap_4k_pages pml4 va zero s = s
unmap_4k_pages pml4 va (suc count) s =
    unmap_4k_pages pml4 (add64 va 4096) count (unmap_4k pml4 va true s)

-- table[i] != 0
unfoldable pub is_set : Entry → Bool
is_set e =
    e.flags.present
    || e.flags.writable
    || e.flags.user
    || e.flags.huge
    || e.flags.owned
    || e.flags.nx
    || e.flags.others
    || not (e.frame == 0)

-- The first `n` entries of a table are all 0.
unfoldable pub table_is_empty : (n : ℕ) → (entries : ℕ → Entry) → Bool
unfolding is_set
table_is_empty zero entries = true
table_is_empty (suc n) entries = not (is_set (entries n)) && table_is_empty n entries

-- An entry that points to a table is cleared, and the table given back.
unfoldable pub drop_table : (table idx frame : ℕ) → Mmu → Mmu
drop_table table idx frame s = record s {
  tables = (store_entry table idx no_entry s).tables;
  pmm = pmm_free (frame * 4096) s.pmm;
}

unfoldable pub empties : ℕ → Mmu → Bool
unfolding table_is_empty
empties table s = table_is_empty 512 (s.tables table)

-- After the entry of the page was cleared, tables that are empty go, from the lowest up.
unfoldable pub drop_empty : (pml4 pdpt pd pt va : ℕ) → Mmu → Mmu
unfolding drop_table empties
drop_empty pml4 pdpt pd pt va s =
    let s2 = drop_table pd (pd_index va) pt s in
    let s3 = drop_table pdpt (pdpt_index va) pd s2 in
    if empties pt s
    then (if empties pd s2
        then (if empties pdpt s3 then drop_table pml4 (pml4_index va) pdpt s3 else s3)
        else s2)
    else s

unfoldable pub vmm_unmap_page : (va : ℕ) → Mmu → Mmu
unfolding drop_empty
vmm_unmap_page va s =
    let e4 = s.tables s.cr3 (pml4_index va) in
    let e3 = s.tables e4.frame (pdpt_index va) in
    let e2 = s.tables e3.frame (pd_index va) in
    if e4.flags.present
      && (e3.flags.present && not e3.flags.huge)
      && (e2.flags.present && not e2.flags.huge)
    then drop_empty s.cr3 e4.frame e3.frame e2.frame va
        (store_entry e2.frame (pt_index va) no_entry s)
    else s

-- One entry of vmm_free_user_tables: `free_below` frees the table below, level by level.
unfoldable pub free_entry : (free_below : ℕ → Mmu → Mmu) → (level table i : ℕ) → Mmu → Mmu
free_entry free_below level table i s =
    let e = s.tables table i in
    let is_leaf = (level == 1) || (ltb level 4 && e.flags.huge) in
    let below = free_below e.frame s in
    if e.flags.present
    then store_entry table i no_entry (
        if is_leaf
        then (if e.flags.owned then record s { pmm = pmm_free (e.frame * 4096) s.pmm } else s)
        else record below { pmm = pmm_free (e.frame * 4096) below.pmm })
    else s

unfoldable pub free_entries : (free_below : ℕ → Mmu → Mmu) → (level table rounds i : ℕ) → Mmu → Mmu
unfolding free_entry
free_entries free_below level table zero i s = s
free_entries free_below level table (suc rounds) i s =
    free_entries free_below level table rounds (i + 1) (free_entry free_below level table i s)

unfoldable pub vmm_free_user_tables : (level table : ℕ) → Mmu → Mmu
unfolding free_entries
vmm_free_user_tables zero table s = s
vmm_free_user_tables (suc level) table s =
    free_entries (vmm_free_user_tables level) (suc level) table
      (if suc level == 4 then 256 else 512) 0 s

unfoldable pub vmm_pagetable_free_owned : (pml4_phys : ℕ) → Mmu → Mmu
unfolding vmm_free_user_tables
vmm_pagetable_free_owned pml4_phys s =
    let freed = vmm_free_user_tables 4 (pml4_phys / 4096) s in
    if (pml4_phys == 0) || (pml4_phys == s.kernel_pagedir * 4096)
    then s
    else if s.cr3 * 4096 == pml4_phys
    then s
    else record freed { pmm = pmm_free pml4_phys freed.pmm }
