-- ===== src/Paging/Create.antt =====
-- What `table_get_or_create` of kernel/src/arch/x86_64/mm/vmm.c does to a tree of tables.
use creeper_os_v.Prelude.{
  ℕ, ◌+◌, ◌/◌, ◌%◌, ◌^◌, ◌≤◌, ◌<◌, ◌≡◌, ◌≢◌, refl, ap, ◌∙◌, ◌⊎◌, inl, inr, true, false, ◌&&◌, ◌||◌,
  Option, some, [], ◌∷◌, if◌then◌else◌, ◌==◌, length, arith, Bool-cases,
}
use creeper_os_v.Outcome.{returns, panics}
use creeper_os_v.Bitmap.{bitmap_test}
use creeper_os_v.Pmm.Search.{Pmm}
use creeper_os_v.Pmm.Count.{in_range, free_count-none}
use creeper_os_v.Pmm.Invariant.{Inv}
use creeper_os_v.Pmm.Alloc.{pmm_alloc-Takes}
use creeper_os_v.Paging.{
  Flags, no_flags, no_entry, Mmu, with_permissions, store_entry, new_table, link_table,
  table_get_or_create,
}
use creeper_os_v.Paging.Tree.{Place, IsTree, Same}

-- The entry `i` of the table at the place `at` leads to the table `found` now, and every walk through
-- the tables of before ends where it did.
pub record Created (s : Mmu) (root : ℕ) (place : ℕ → Option Place) (table i : ℕ) (at : Place)
    (found : ℕ) (s' : Mmu) : Type 0 where
  pub place' : ℕ → Option Place
  pub tree : IsTree s' root place'
  pub extends : (t : ℕ) (p : Place) → place t ≡ some p → place' t ≡ some p
  pub at_found : place' found ≡ some (i ∷ at)
  pub present : (s'.tables table i).flags.present ≡ true
  pub plain : (s'.tables table i).flags.huge ≡ false
  pub frame : (s'.tables table i).frame ≡ found
  pub spends : s.pmm.free_pages ≤ s'.pmm.free_pages + 1
  pub same : (t j : ℕ) (p : Place) → place t ≡ some p → Same s s' t j p

-- The entry that is there gets the permissions of the mapping.
abbrev widened : (table i : ℕ) → Flags → Mmu → Mmu
widened table i flags s =
    store_entry table i
      (record (s.tables table i) { flags = with_permissions flags (s.tables table i).flags }) s

widened-Created :
    {s : Mmu} {root : ℕ} {place : ℕ → Option Place} (table i : ℕ) (at : Place) (flags : Flags)
    → IsTree s root place
    → place table ≡ some at
    → length at < 3
    → (s.tables table i).flags.present ≡ true
    → (s.tables table i).flags.huge ≡ false
    → Created s root place table i at (s.tables table i).frame (widened table i flags s)
widened-Created {s} {root} {place} table i at flags tree here high present plain = record {
  place' = place;
  tree = record {
    root_at = tree.root_at;
    child = λ t j p. ground (arith, tree.child t j p);
    plain_root = λ j. ground (arith, tree.plain_root j);
    zero_used = tree.zero_used;
    used = tree.used;
    inv = tree.inv;
    small = tree.small;
  };
  extends = λ t p e. e;
  at_found = tree.child table i at here high present plain;
  present = ground arith;
  plain = ground arith;
  frame = ground arith;
  spends = omega arith;
  same = λ t j p e. elim (Bool-cases (t == table && j == i)) [
    | inl hit ↦
        let t_is : t ≡ table = ground arith in
        let j_is : j ≡ i = ground arith in
        let p_is : p ≡ at = cc (e, here, t_is) in
        inr (
          inl (
            rw p_is high,
            rw (t_is, j_is)
                (record {
                  frame = ground arith;
                  present = ground arith;
                  plain = plain;
                  plain' = ground arith;
                }),
          ))
    | inr other ↦ inl (rw other refl)
  ];
}

-- A page that was free becomes the table: cleared, linked, and with its place.
abbrev linked : (table i page : ℕ) → Flags → Pmm → Mmu → Mmu
linked table i page flags pmm s =
    store_entry table i
      (record { frame = page; flags = with_permissions flags (record no_flags { present = true }) })
      (record s { tables = λ t j. if t == page then no_entry else s.tables t j; pmm = pmm })

abbrev with_place : (page : ℕ) → Place → (ℕ → Option Place) → ℕ → Option Place
with_place page at place t = if t == page then some at else place t

linked-Created :
    {s : Mmu} {root : ℕ} {place : ℕ → Option Place} (table i page : ℕ) (at : Place) (flags : Flags)
    (pmm : Pmm)
    → IsTree s root place
    → place table ≡ some at
    → length at < 3
    → (s.tables table i).flags.present ≡ false
    → (s.tables table i).flags.huge ≡ false
    → bitmap_test s.pmm.bitmap page ≡ false
    → ((k : ℕ) → bitmap_test pmm.bitmap k ≡ (k == page || bitmap_test s.pmm.bitmap k))
    → Inv pmm
    → pmm.total_pages ≡ s.pmm.total_pages
    → pmm.free_pages + 1 ≡ s.pmm.free_pages
    → Created s root place table i at page (linked table i page flags pmm s)
linked-Created {s} {root} {place} table i page at flags pmm tree here high absent plain free marked
      inv total spent =
    let other : (t : ℕ) (p : Place) → place t ≡ some p → (t == page) ≡ false = λ t p e.
      elim (Bool-cases (t == page)) [
        | inl hit ↦
            let t_is : t ≡ page = ground arith in
            absurd (cc (tree.used t p e, ap (bitmap_test s.pmm.bitmap) t_is, free))
        | inr ne ↦ ne
      ] in
    record {
      place' = with_place page (i ∷ at) place;
      tree = record {
        root_at = rw (other root [] tree.root_at) tree.root_at;
        child = λ t j p e high' present plain'. elim (Bool-cases (t == page)) [
          | inl new ↦ absurd (ground (arith, other table at here))
          | inr old ↦
              let e' : place t ≡ some p = rw old at e in
              elim (Bool-cases (t == table && j == i)) [
                | inl hit ↦
                    let t_is : t ≡ table = ground arith in
                    let j_is : j ≡ i = ground arith in
                    let p_is : p ≡ at = cc (e', here, t_is) in ground arith
                | inr ne ↦
                    let below =
                      tree.child t j p e' high' (rw (ne, old) at present)
                        (rw (ne, old) at plain') in
                    rw ne (rw old (rw (other (s.tables t j).frame (j ∷ p) below) below))
              ]
        ];
        plain_root = λ j. ground (arith, other root [] tree.root_at, tree.plain_root j);
        zero_used = ground (arith, marked 0, tree.zero_used);
        used = λ t p e. elim (Bool-cases (t == page)) [
          | inl new ↦ marked t ∙ rw new refl
          | inr old ↦
              let e' : place t ≡ some p = rw old at e in marked t ∙ rw (old, tree.used t p e') refl
        ];
        inv = inv;
        small = rw total tree.small;
      };
      extends = λ t p e. rw (other t p e) e;
      at_found = ground arith;
      present = ground (arith, other table at here);
      plain = ground (arith, other table at here);
      frame = ground (arith, other table at here);
      spends = omega (arith, spent);
      same = λ t j p e. elim (Bool-cases (t == table && j == i)) [
        | inl hit ↦
            let t_is : t ≡ table = ground arith in
            let j_is : j ≡ i = ground arith in
            let p_is : p ≡ at = cc (e, here, t_is) in
            inr (
              inr (
                rw p_is high,
                rw (t_is, j_is) absent,
                rw (t_is, j_is)
                    (record {
                      plain = ground arith;
                      empty = λ k. ground (arith, other table at here);
                    }),
              ))
        | inr ne ↦ inl (rw ne (rw (other t p e) refl))
      ];
    }

one_page : (page k : ℕ) → in_range page 1 k ≡ (k == page)
one_page page k = ground arith

-- `table_get_or_create` panics where no page is left for a table that is missing; else it returns a
-- table with its place in the tree.
pub table_get_or_create-Created :
    {s : Mmu} {root : ℕ} {place : ℕ → Option Place} (table i : ℕ) (at : Place) (flags : Flags)
    → IsTree s root place
    → place table ≡ some at
    → length at < 3
    → (s.tables table i).flags.huge ≡ false
    → ((table_get_or_create table i flags s ≡ panics) × (s.pmm.free_pages ≡ 0))
      ⊎ ((found : ℕ) × (t : Mmu) × (table_get_or_create table i flags s ≡ returns (found, t))
          × Created s root place table i at found t)
unfolding table_get_or_create new_table link_table
table_get_or_create-Created {s} {root} {place} table i at flags tree here high plain =
    elim (Bool-cases (s.tables table i).flags.present) [
      | inl present ↦
          inr (_, _, rw present refl, widened-Created table i at flags tree here high present plain)
      | inr absent ↦ elim (pmm_alloc-Takes s.pmm tree.inv) [
        | inl (full, used) ↦ inl (
          rw absent (rw full refl),
          tree.inv.counted ∙ free_count-none s.pmm.bitmap s.pmm.total_pages used,
        )
        | inr (phys, pmm, runs, took) ↦
            let free = took.were_free took.page (omega arith) (omega arith) in
            let not_zero : took.page ≢ 0 =
              λ e. cc (ap (bitmap_test s.pmm.bitmap) e, free, tree.zero_used) in
            let not_null : (phys == 0) ≡ false = ground (arith, took.address) in
            let page : phys / 4096 ≡ took.page = omega (arith, took.address) in
            let short : took.page % 2 ^ 40 ≡ took.page = omega (arith, took.within, tree.small) in
            inr (
              took.page,
              linked table i took.page flags pmm s,
              rw absent (rw runs (rw (not_null, page) (rw short refl))),
              linked-Created table i took.page at flags pmm tree here high absent plain free
                  (λ k.
                    took.marked k
                    ∙ ap (λ b. b || bitmap_test s.pmm.bitmap k) (one_page took.page k))
                  took.inv took.total took.counted,
            )
      ]
    ]
