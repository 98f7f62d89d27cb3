-- ===== src/Paging/User.antt =====
-- The mapping of pages at the first free addresses of a process: `uvma_map_pages` of
-- kernel/src/arch/x86_64/mm/vmm.c.
use creeper_os_v.Prelude.{
  ℕ, zero, suc, ◌+◌, ◌*◌, ◌%◌, ◌^◌, ◌≤◌, ◌<◌, ◌≡◌, refl, ap, ◌∙◌, ◌⊎◌, inl, inr, Bool, true, false,
  not, ◌||◌, if◌then◌else◌, ◌==◌, ltb, Option, none, some, add64, size_max, arith, Bool-cases,
}
use creeper_os_v.Outcome.{Outcome, returns, ◌>>=◌}
use creeper_os_v.Paging.{Flags, Mmu, pml4_index, pdpt_index, pd_index, pt_index, map_4k_pages}
use creeper_os_v.Paging.Lookup.{phys_at_pt, phys_at_pd, phys_at_pdpt, page_dir_virt_to_phys}

-- Nothing is mapped at the page: the body of the loop of uvma_is_range_free.
unfoldable pub page_is_free : (pml4 va : ℕ) → Mmu → Bool
page_is_free pml4 va s =
    let e4 = s.tables pml4 (pml4_index va) in
    let e3 = s.tables e4.frame (pdpt_index va) in
    let e2 = s.tables e3.frame (pd_index va) in
    let e1 = s.tables e2.frame (pt_index va) in
    if not e4.flags.present
    then true
    else if not e3.flags.present
    then true
    else if e3.flags.huge
    then false
    else if not e2.flags.present
    then true
    else if e2.flags.huge
    then false
    else not e1.flags.present

unfoldable pub uvma_is_range_free : (pml4 va count : ℕ) → Mmu → Bool
unfolding page_is_free
uvma_is_range_free pml4 va zero s = true
uvma_is_range_free pml4 va (suc count) s =
    let rest = uvma_is_range_free pml4 (add64 va 4096) count s in
    if page_is_free pml4 va s then rest else false

-- The search from `va` on: `none` after the rounds, `some none` where the addresses wrap around.
unfoldable pub uvma_search : (rounds pml4 va count start : ℕ) → Mmu → Option (Option ℕ)
unfolding uvma_is_range_free
uvma_search zero pml4 va count start s = none
uvma_search (suc rounds) pml4 va count start s =
    let next = add64 va 4096 in
    let rest = uvma_search rounds pml4 next count start s in
    if uvma_is_range_free pml4 va count s
    then some (some va)
    else if ltb next start
    then some none
    else rest

-- The mapping at the place that was found. PTE_PRESENT, which the code adds, is in every entry that
-- map_4k writes.
unfoldable pub uvma_map_at :
    (pml4 pa count : ℕ) → Flags → Mmu → Option (Option ℕ) → Outcome (Option (ℕ × Mmu))
unfolding map_4k_pages
uvma_map_at pml4 pa count flags s none = returns none
uvma_map_at pml4 pa count flags s (some none) = returns (some (0, s))
uvma_map_at pml4 pa count flags s (some (some va)) =
    map_4k_pages pml4 va pa count flags s >>= λ t. returns (some (va, t))

-- The address, or 0; `none` where the search needs more rounds. The table is there.
unfoldable pub uvma_map_pages :
    (rounds pml4 pa count : ℕ) → Flags → (search_start_vaddr : ℕ) → Mmu → Outcome (Option (ℕ × Mmu))
unfolding uvma_search uvma_map_at
uvma_map_pages rounds pml4 pa count flags start s =
    if count == 0
    then returns (some (0, s))
    else if not (pa % 4096 == 0) || not (start % 4096 == 0)
    then returns (some (0, s))
    else uvma_map_at pml4 pa count flags s (uvma_search rounds pml4 start count start s)

page_is_free-unmapped :
    (pml4 va : ℕ) (s : Mmu)
    → page_is_free pml4 va s ≡ true
    → page_dir_virt_to_phys pml4 va s ≡ size_max
unfolding page_is_free page_dir_virt_to_phys phys_at_pdpt phys_at_pd phys_at_pt
page_is_free-unmapped pml4 va s free = ground arith

both_free : (b c : Bool) → (if b then c else false) ≡ true → (b ≡ true) × (c ≡ true)
both_free true c e = (refl, e)
both_free false c e = absurd (cc e)

-- In a range that is free, no page is translated.
pub uvma_is_range_free-unmapped :
    (pml4 va count : ℕ) (s : Mmu)
    → va < 2 ^ 64
    → uvma_is_range_free pml4 va count s ≡ true
    → (i : ℕ) → i < count
    → page_dir_virt_to_phys pml4 ((va + i * 4096) % 2 ^ 64) s ≡ size_max
unfolding uvma_is_range_free
uvma_is_range_free-unmapped pml4 va zero s small free i within = absurd (omega (arith, within))
uvma_is_range_free-unmapped pml4 va (suc count) s small free zero within =
    let here : (va + 0 * 4096) % 2 ^ 64 ≡ va = omega (arith, small) in
    ap (λ a. page_dir_virt_to_phys pml4 a s) here
    ∙ page_is_free-unmapped pml4 va s (both_free (page_is_free pml4 va s) _ free).0
uvma_is_range_free-unmapped pml4 va (suc count) s small free (suc i) within =
    let later : (va + suc i * 4096) % 2 ^ 64 ≡ (add64 va 4096 + i * 4096) % 2 ^ 64 = omega arith in
    ap (λ a. page_dir_virt_to_phys pml4 a s) later
    ∙ uvma_is_range_free-unmapped pml4 (add64 va 4096) count s (omega arith)
        (both_free (page_is_free pml4 va s) _ free).1 i (omega (arith, within))

-- The search from a page on ends if it has a round for each page up to the end of the addresses and does
-- not start at address 0; and if it finds an address, the pages from there on are free.
pub uvma_search-ends :
    (rounds pml4 va count start : ℕ) (s : Mmu)
    → 0 < start
    → va < 2 ^ 64
    → va % 4096 ≡ 0
    → 2 ^ 64 ≤ va + rounds * 4096
    → (uvma_search rounds pml4 va count start s ≡ some none)
      ⊎ ((found : ℕ) × (uvma_search rounds pml4 va count start s ≡ some (some found))
          × (uvma_is_range_free pml4 found count s ≡ true))
unfolding uvma_search
uvma_search-ends zero pml4 va count start s some_start small aligned enough =
    absurd (omega (arith, enough, small))
uvma_search-ends (suc rounds) pml4 va count start s some_start small aligned enough =
    elim (Bool-cases (uvma_is_range_free pml4 va count s)) [
      | inl free ↦ inr (va, rw free refl, free)
      | inr used ↦ elim (Bool-cases (ltb (add64 va 4096) start)) [
        | inl wraps ↦ inl (rw (used, wraps) refl)
        | inr goes ↦
            elim (uvma_search-ends rounds pml4 (add64 va 4096) count start s some_start
              (omega arith) (omega (arith, aligned))
              (ground (arith, goes, aligned, enough, small, some_start))) [
                | inl none_free ↦ inl (rw (used, goes) none_free)
                | inr (found, e, free) ↦ inr (found, rw (used, goes) e, free)
              ]
      ]
    ]
