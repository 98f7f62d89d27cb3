-- ===== src/Paging/Examples.antt =====
-- The page tables of kernel/src/arch/x86_64/mm/vmm.c at concrete states.
use creeper_os_v.Prelude.{
  ℕ, ◌<◌, ◌≡◌, refl, sym, ap, ◌∙◌, ◌⊎◌, inl, inr, true, ◌&&◌, Option, none, some, [], ◌∷◌,
  if◌then◌else◌, ◌==◌, length, arith,
}
use creeper_os_v.Outcome.{returns, panics}
use creeper_os_v.Bitmap.{bitmap_test}
use creeper_os_v.Pmm.Search.{Pmm}
use creeper_os_v.Pmm.Count.{free_count}
use creeper_os_v.Pmm.Invariant.{Inv}
use creeper_os_v.Paging.{Entry, no_flags, no_entry, Mmu, leaf, map_4k}
use creeper_os_v.Paging.Lookup.{
  page_dir_virt_to_phys, phys_at_pdpt, phys_at_pd, phys_at_pt, unmap_4k,
}
use creeper_os_v.Paging.Tree.{Place, IsTree}
use creeper_os_v.Paging.Map.{Maps, map_4k-Maps}
use creeper_os_v.Paging.Unmap.{Unmaps, unmap_4k-Unmaps}

-- Twelve pages, of which 0, 1, 2, 3, 4 and 7 are in use.
abbrev pages : Pmm
pages = record {
  bitmap = λ i. if i == 0 then 159 else 0;
  bitmap_bits = 12;
  bitmap_next = 0;
  total_pages = 12;
  free_pages = 6;
}

pages-Inv : Inv pages
unfolding free_count bitmap_test
pages-Inv = record {
  bytes = λ i. ground arith;
  bits = refl;
  next = omega arith;
  fits = omega arith;
  counted = refl;
}

abbrev to : ℕ → Entry
to frame = record { frame = frame; flags = record no_flags { present = true } }

-- The page of 0x5000 is mapped to the frame 7 through the tables 1, 2, 3 and 4.
abbrev one_page : Mmu
one_page = record {
  tables = λ t i.
      if (t == 4) && (i == 5)
      then leaf 0x7000 (record no_flags { owned = true })
      else (if i == 0
          then (if t == 1
              then to 2
              else (if t == 2 then to 3 else (if t == 3 then to 4 else no_entry)))
          else no_entry);
  pmm = pages;
  cr3 = 1;
  kernel_pagedir = 11;
}

abbrev places : ℕ → Option Place
places t =
    if t == 1
    then some []
    else (if t == 2
        then some (0 ∷ [])
        else (if t == 3
            then some (0 ∷ 0 ∷ [])
            else (if t == 4 then some (0 ∷ 0 ∷ 0 ∷ []) else none)))

places-used : (t : ℕ) (at : Place) → places t ≡ some at → bitmap_test pages.bitmap t ≡ true
unfolding bitmap_test
places-used t at e = ground arith

abbrev place_length : Option Place → ℕ
place_length none = 0
place_length (some at) = length at

-- The place of the table at index 0.
abbrev below : Option Place → Option Place
below none = none
below (some at) = some (0 ∷ at)

links :
    (t i : ℕ)
    → (one_page.tables t i).flags.present ≡ true
    → (t ≡ 4)
      ⊎ ((i ≡ 0)
          × (((t ≡ 1) × ((one_page.tables t i).frame ≡ 2))
              ⊎ ((t ≡ 2) × ((one_page.tables t i).frame ≡ 3))
              ⊎ ((t ≡ 3) × ((one_page.tables t i).frame ≡ 4))))
links t i present = ground arith

one_page-child :
    (t i : ℕ) (at : Place)
    → places t ≡ some at
    → length at < 3
    → (one_page.tables t i).flags.present ≡ true
    → places (one_page.tables t i).frame ≡ some (i ∷ at)
one_page-child t i at here high present = elim (links t i present) [
  | inl four ↦ absurd (omega (arith, high, ap place_length (sym (ap places four) ∙ here)))
  | inr (i_is, inl (t_is, to_is)) ↦
      ap places to_is ∙ ap below (sym (ap places t_is) ∙ here) ∙ ap (λ j. some (j ∷ at)) (sym i_is)
  | inr (i_is, inr (inl (t_is, to_is))) ↦
      ap places to_is ∙ ap below (sym (ap places t_is) ∙ here) ∙ ap (λ j. some (j ∷ at)) (sym i_is)
  | inr (i_is, inr (inr (t_is, to_is))) ↦
      ap places to_is ∙ ap below (sym (ap places t_is) ∙ here) ∙ ap (λ j. some (j ∷ at)) (sym i_is)
]

one_page-IsTree : IsTree one_page 1 places
unfolding bitmap_test
one_page-IsTree = record {
  root_at = refl;
  child = λ t i at here high present plain. one_page-child t i at here high present;
  plain_root = λ i. ground arith;
  zero_used = refl;
  used = places-used;
  inv = pages-Inv;
  small = omega arith;
}

mapped_before : page_dir_virt_to_phys 1 0x5123 one_page ≡ 0x7123
unfolding page_dir_virt_to_phys phys_at_pdpt phys_at_pd phys_at_pt
mapped_before = refl

map_4k_example :
    ((map_4k 1 0x40000000 0x9000 no_flags one_page ≡ panics) × (6 < 3))
    ⊎ ((t : Mmu) × (map_4k 1 0x40000000 0x9000 no_flags one_page ≡ returns t)
        × Maps one_page 1 0x40000000 (leaf 0x9000 no_flags) t)
map_4k_example =
    map_4k-Maps 0x40000000 0x9000 no_flags one_page-IsTree (refl, λ p. (refl, λ q. (refl, λ r. tt)))

unmap_4k_example : Unmaps one_page 1 0x5000 (unmap_4k 1 0x5000 true one_page)
unmap_4k_example =
    unmap_4k-Unmaps 0x5000 true one_page-IsTree (refl, λ p. (refl, λ q. (refl, λ r. tt)))
