-- ===== src/Paging/Unmap.antt =====
-- What `unmap_4k` of kernel/src/arch/x86_64/mm/vmm.c does to the translation of addresses.
use creeper_os_v.Prelude.{
  ℕ, ◌/◌, ◌%◌, ◌^◌, ◌≡◌, ◌≢◌, refl, sym, ap, ◌∙◌, inl, inr, Bool, Option, some, [], ◌∷◌, arith,
  Bool-cases, size_max,
}
use creeper_os_v.Paging.{no_entry, Mmu, pml4_index, pdpt_index, pd_index, pt_index, store_entry}
use creeper_os_v.Paging.Lookup.{page_dir_virt_to_phys, at_pt, clear_pte, unmap_4k}
use creeper_os_v.Paging.Tree.{Place, IsTree, Route, arrived, through, NoHuge, walk-Route}
use creeper_os_v.Paging.Write.{stored-IsTree, walk-stored, Route-stored, walk-miss}
use creeper_os_v.Paging.Map.{upper, indices, phys_of, page_dir_virt_to_phys-walk, same_page}

-- After `s` became `t`, nothing is mapped at `va`, and all other pages of the 48 bits that the tables
-- translate are where they were.
pub record Unmaps (s : Mmu) (root va : ℕ) (t : Mmu) : Type 0 where
  pub gone : page_dir_virt_to_phys root va t ≡ size_max
  pub others :
      (other : ℕ)
      → other / 4096 % 2 ^ 36 ≢ va / 4096 % 2 ^ 36
      → page_dir_virt_to_phys root other t ≡ page_dir_virt_to_phys root other s

-- The translation reads nothing but the tables.
phys-clear_pte :
    (s : Mmu) (root pt idx other : ℕ) (free_phys : Bool)
    → page_dir_virt_to_phys root other (clear_pte pt idx free_phys s)
      ≡ page_dir_virt_to_phys root other (store_entry pt idx no_entry s)
unfolding page_dir_virt_to_phys clear_pte
phys-clear_pte s root pt idx other free_phys = refl

cleared-Unmaps :
    {s : Mmu} {root pt : ℕ} {place : ℕ → Option Place} (va : ℕ) (free_phys : Bool)
    → IsTree s root place
    → place pt ≡ some (pd_index va ∷ pdpt_index va ∷ pml4_index va ∷ [])
    → page_dir_virt_to_phys root va (store_entry pt (pt_index va) no_entry s) ≡ size_max
    → Unmaps s root va (clear_pte pt (pt_index va) free_phys s)
cleared-Unmaps {s} {root} {pt} va free_phys tree here gone =
    let at : Place = pd_index va ∷ pdpt_index va ∷ pml4_index va ∷ [] in
    let tree' = stored-IsTree tree pt (pt_index va) at no_entry here refl in
    record {
      gone = phys-clear_pte s root pt (pt_index va) va free_phys ∙ gone;
      others = λ other apart.
          phys-clear_pte s root pt (pt_index va) other free_phys
          ∙ page_dir_virt_to_phys-walk other tree'
          ∙ ap (phys_of other) (
              walk-stored tree pt (pt_index va) at no_entry here refl (indices other) root []
                tree.root_at refl (λ e. apart (same_page va other e)))
          ∙ sym (page_dir_virt_to_phys-walk other tree);
    }

-- Where the entry of the page is 0, nothing is mapped.
gone-stored :
    {s : Mmu} {root pt : ℕ} {place : ℕ → Option Place} (va : ℕ)
    → IsTree s root place
    → place pt ≡ some (pd_index va ∷ pdpt_index va ∷ pml4_index va ∷ [])
    → Route s root (upper va) pt
    → page_dir_virt_to_phys root va (store_entry pt (pt_index va) no_entry s) ≡ size_max
gone-stored {s} {root} {pt} va tree here path =
    let at : Place = pd_index va ∷ pdpt_index va ∷ pml4_index va ∷ [] in
    let tree' = stored-IsTree tree pt (pt_index va) at no_entry here refl in
    let path' =
      Route-stored tree pt (pt_index va) at no_entry here refl (upper va) [] tree.root_at
        (omega arith) path in
    page_dir_virt_to_phys-walk va tree'
    ∙ ap (phys_of va) (
        walk-Route (upper va) (pt_index va) path'
        ∙ walk-miss tree pt (pt_index va) at no_entry here refl refl)

-- Nothing was mapped, and nothing changes.
unchanged-Unmaps :
    (s : Mmu) (root va : ℕ) → page_dir_virt_to_phys root va s ≡ size_max → Unmaps s root va s
unchanged-Unmaps s root va gone = record { gone = gone; others = λ other apart. refl }

-- In a tree of page tables, where no entry on the way to `va` is huge, nothing is mapped at the page of
-- `va` after `unmap_4k`, and all other pages are where they were.
pub unmap_4k-Unmaps :
    {s : Mmu} {root : ℕ} {place : ℕ → Option Place} (va : ℕ) (free_phys : Bool)
    → IsTree s root place
    → NoHuge s root (upper va)
    → Unmaps s root va (unmap_4k root va free_phys s)
unfolding unmap_4k at_pt page_dir_virt_to_phys
unmap_4k-Unmaps {s} {root} va free_phys tree (plain4, clear3) =
    elim (Bool-cases (s.tables root (pml4_index va)).flags.present) [
      | inr absent ↦ rw absent (unchanged-Unmaps s root va (rw absent refl))
      | inl p4 ↦
          let pdpt = (s.tables root (pml4_index va)).frame in
          let (plain3, clear2) = clear3 p4 in
          let at3 = tree.child root (pml4_index va) [] tree.root_at (omega arith) p4 plain4 in
          elim (Bool-cases
            (s.tables (s.tables root (pml4_index va)).frame (pdpt_index va)).flags.present) [
              | inr absent ↦ rw (p4, absent) (unchanged-Unmaps s root va (rw p4 (rw absent refl)))
              | inl p3 ↦
                  let (plain2, _) = clear2 p3 in
                  let at2 = tree.child _ (pdpt_index va) _ at3 (omega arith) p3 plain3 in
                  elim (Bool-cases
                    (s.tables (s.tables (s.tables root (pml4_index va)).frame (pdpt_index va)).frame
                      (pd_index va)).flags.present) [
                        | inr absent ↦
                            rw (p4, p3, absent)
                              (unchanged-Unmaps s root va
                                (rw p4 (rw (p3, plain3) (rw absent refl))))
                        | inl p2 ↦
                            let at1 = tree.child _ (pd_index va) _ at2 (omega arith) p2 plain2 in
                            let path =
                              through p4 plain4 (through p3 plain3 (through p2 plain2 arrived)) in
                            rw (p4, p3, p2, plain2)
                              (elim (Bool-cases
                                (s.tables
                                  (s.tables
                                    (s.tables (s.tables root (pml4_index va)).frame
                                      (pdpt_index va)).frame
                                    (pd_index va)).frame
                                  (pt_index va)).flags.present) [
                                    | inl there ↦ rw there (
                                        cleared-Unmaps va free_phys tree at1
                                          (gone-stored va tree at1 path))
                                    | inr absent ↦ rw absent (
                                        unchanged-Unmaps s root va (
                                          rw p4
                                            (rw (p3, plain3) (rw (p2, plain2) (rw absent refl)))))
                                  ])
                      ]
            ]
    ]
