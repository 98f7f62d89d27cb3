-- ===== src/Paging/Map.antt =====
-- What `map_4k` of kernel/src/arch/x86_64/mm/vmm.c does to the translation of addresses.
use creeper_os_v.Prelude.{
  ℕ, suc, ◌+◌, ◌/◌, ◌%◌, ◌^◌, ◌≤◌, ◌<◌, ◌≡◌, ◌≢◌, refl, sym, ap, ◌∙◌, subst, ◌⊎◌, inl, inr, Option,
  none, some, List, [], ◌∷◌, length, get_or, arith, size_max,
}
use creeper_os_v.Outcome.{returns, panics}
use creeper_os_v.Paging.{
  Flags, Entry, Mmu, leaf, pml4_index, pdpt_index, pd_index, pt_index, store_entry,
  table_get_or_create, map_4k,
}
use creeper_os_v.Paging.Lookup.{in_page, page_dir_virt_to_phys}
use creeper_os_v.Paging.Tree.{
  Place, walk, IsTree, walk-Same, Route, arrived, then_index, walk-Route, Route-Same, NoHuge,
  NoHuge-Same, Route-then_index, length-then_index,
}
use creeper_os_v.Paging.Create.{table_get_or_create-Created}
use creeper_os_v.Paging.Write.{stored-IsTree, walk-stored, Route-stored, walk-hit}

abbrev pub upper : ℕ → List ℕ
upper va = pml4_index va ∷ pdpt_index va ∷ pd_index va ∷ []

abbrev pub indices : ℕ → List ℕ
indices va = pml4_index va ∷ pdpt_index va ∷ pd_index va ∷ pt_index va ∷ []

-- The physical address that a leaf gives.
abbrev pub phys_of : (va : ℕ) → Option (Entry × List ℕ) → ℕ
phys_of va none = size_max
phys_of va (some (e, [])) = in_page e va 4096
phys_of va (some (e, i ∷ [])) = in_page e va (2 ^ 21)
phys_of va (some (e, i ∷ j ∷ is)) = in_page e va (2 ^ 30)

-- The code's walk is the walk along the indices of the address.
pub page_dir_virt_to_phys-walk :
    {s : Mmu} {root : ℕ} {place : ℕ → Option Place} (va : ℕ)
    → IsTree s root place
    → page_dir_virt_to_phys root va s ≡ phys_of va (walk s root (indices va))
unfolding page_dir_virt_to_phys walk
page_dir_virt_to_phys-walk {s} {root} va tree = ground (arith, tree.plain_root (pml4_index va))

-- After `s` became `t`, the address `va` leads to the entry `e`, and all other addresses of the 48 bits
-- that the tables translate lead where they led before.
pub record Maps (s : Mmu) (root va : ℕ) (e : Entry) (t : Mmu) : Type 0 where
  pub place' : ℕ → Option Place
  pub tree : IsTree t root place'
  pub here : page_dir_virt_to_phys root va t ≡ in_page e va 4096
  pub others :
      (other : ℕ)
      → other / 4096 % 2 ^ 36 ≢ va / 4096 % 2 ^ 36
      → page_dir_virt_to_phys root other t ≡ page_dir_virt_to_phys root other s

-- The place of the entry for an address.
abbrev pub entry_place : ℕ → Place
entry_place va = pt_index va ∷ pd_index va ∷ pdpt_index va ∷ pml4_index va ∷ []

pub same_page :
    (va other : ℕ) → entry_place other ≡ entry_place va → other / 4096 % 2 ^ 36 ≡ va / 4096 % 2 ^ 36
same_page va other e =
    let i1 : pt_index other ≡ pt_index va = ap (λ l. get_or l 0 0) e in
    let i2 : pd_index other ≡ pd_index va = ap (λ l. get_or l 1 0) e in
    let i3 : pdpt_index other ≡ pdpt_index va = ap (λ l. get_or l 2 0) e in
    let i4 : pml4_index other ≡ pml4_index va = ap (λ l. get_or l 3 0) e in
    omega (arith, i1, i2, i3, i4)

-- From `start` on, tables were made or found along the indices, down to `table`; every address leads
-- where it led.
record Reached (start : Mmu) (root : ℕ) (is : List ℕ) (at : Place) (table : ℕ) (s : Mmu)
    : Type 0 where
  place : ℕ → Option Place
  tree : IsTree s root place
  at_table : place table ≡ some at
  path : Route s root is table
  depth : length is ≡ length at
  budget : start.pmm.free_pages ≤ s.pmm.free_pages + length is
  walks : (other : ℕ) → walk s root (indices other) ≡ walk start root (indices other)

descend :
    {start s : Mmu} {root table : ℕ} (is js : List ℕ) (at : Place) (i : ℕ) (flags : Flags)
    → Reached start root is at table s
    → length at + length js ≤ 2
    → NoHuge s table (i ∷ js)
    → ((table_get_or_create table i flags s ≡ panics) × (start.pmm.free_pages ≤ length is))
      ⊎ ((found : ℕ) × (t : Mmu) × (table_get_or_create table i flags s ≡ returns (found, t))
          × Reached start root (then_index is i) (i ∷ at) found t
          × NoHuge t found js)
descend {start} {s} {root} {table} is js at i flags r deep clear =
    elim (table_get_or_create-Created table i at flags r.tree r.at_table (omega (arith, deep))
      clear.0) [
        | inl (stops, none_left) ↦ inl (stops, omega (arith, none_left, r.budget))
        | inr (found, t, runs, c) ↦
            let path =
              Route-Same s t r.tree c.same is [] r.tree.root_at (omega (arith, deep, r.depth))
                r.path in
            let clear' =
              NoHuge-Same s t r.tree c.same (i ∷ js) table at r.at_table (omega (arith, deep))
                clear in
            inr (
              found,
              t,
              runs,
              record {
                place = c.place';
                tree = c.tree;
                at_table = c.at_found;
                path =
                    subst (λ f. Route t root (then_index is i) f) c.frame
                      (Route-then_index is i path c.present c.plain);
                depth = length-then_index is i ∙ ap suc r.depth;
                budget = omega (arith, r.budget, c.spends, length-then_index is i);
                walks = λ other.
                    walk-Same s t r.tree c.same (indices other) root [] r.tree.root_at refl
                    ∙ r.walks other;
              },
              subst (λ f. NoHuge t f js) c.frame (clear'.1 c.present),
            )
      ]

stored-Maps :
    {s s1 : Mmu} {root pt : ℕ} {place : ℕ → Option Place} (va pa : ℕ) (flags : Flags)
    → IsTree s root place
    → Reached s root (upper va) (pd_index va ∷ pdpt_index va ∷ pml4_index va ∷ []) pt s1
    → Maps s root va (leaf pa flags) (store_entry pt (pt_index va) (leaf pa flags) s1)
stored-Maps {s} {s1} {root} {pt} va pa flags tree r =
    let at : Place = pd_index va ∷ pdpt_index va ∷ pml4_index va ∷ [] in
    let tree' = stored-IsTree r.tree pt (pt_index va) at (leaf pa flags) r.at_table refl in
    let path =
      Route-stored r.tree pt (pt_index va) at (leaf pa flags) r.at_table refl (upper va) []
        r.tree.root_at (omega arith) r.path in
    record {
      place' = r.place;
      tree = tree';
      here =
          page_dir_virt_to_phys-walk va tree'
          ∙ ap (phys_of va) (
              walk-Route (upper va) (pt_index va) path
              ∙ walk-hit r.tree pt (pt_index va) at (leaf pa flags) r.at_table refl refl);
      others = λ other apart.
          page_dir_virt_to_phys-walk other tree'
          ∙ ap (phys_of other) (
              walk-stored r.tree pt (pt_index va) at (leaf pa flags) r.at_table refl (indices other)
                root [] r.tree.root_at refl (λ e. apart (same_page va other e))
              ∙ r.walks other)
          ∙ sym (page_dir_virt_to_phys-walk other tree);
    }

-- In a tree of page tables, where no entry on the way to `va` is huge, `map_4k` panics, which it only
-- does with fewer than three free pages, or it maps the page
-- of `va` to the frame of `pa`: `va` is translated to that frame with the offset of `va`, every address
-- of another page to what it was before, and the tables are a tree again.
pub map_4k-Maps :
    {s : Mmu} {root : ℕ} {place : ℕ → Option Place} (va pa : ℕ) (flags : Flags)
    → IsTree s root place
    → NoHuge s root (upper va)
    → ((map_4k root va pa flags s ≡ panics) × (s.pmm.free_pages < 3))
      ⊎ ((t : Mmu) × (map_4k root va pa flags s ≡ returns t) × Maps s root va (leaf pa flags) t)
unfolding map_4k
map_4k-Maps {s} {root} {place} va pa flags tree clear =
    elim (descend [] (pdpt_index va ∷ pd_index va ∷ []) [] (pml4_index va) flags
      (record {
        place = place;
        tree = tree;
        at_table = tree.root_at;
        path = arrived;
        depth = refl;
        budget = omega arith;
        walks = λ other. refl;
      })
      (omega arith) clear) [
        | inl (stops, few) ↦ inl (rw stops refl, omega (arith, few))
        | inr (pdpt, s3, runs3, r3, clear3) ↦
            elim (descend _ (pd_index va ∷ []) _ (pdpt_index va) flags r3 (omega arith) clear3) [
              | inl (stops, few) ↦ inl (rw runs3 (rw stops refl), omega (arith, few))
              | inr (pd, s2, runs2, r2, clear2) ↦
                  elim (descend _ [] _ (pd_index va) flags r2 (omega arith) clear2) [
                    | inl (stops, few) ↦
                        inl (rw runs3 (rw runs2 (rw stops refl)), omega (arith, few))
                    | inr (pt, s1, runs1, r1, clear1) ↦ inr (
                      store_entry pt (pt_index va) (leaf pa flags) s1,
                      rw runs3 (rw runs2 (rw runs1 refl)),
                      stored-Maps va pa flags tree r1,
                    )
                  ]
            ]
      ]
