-- ===== src/Vma/Whole.antt =====
-- The addresses of kernel/src/arch/x86_64/mm/vmm.c's allocator are those of whole pages.
use creeper_os_v.Prelude.{ℕ, ◌-◌, ◌%◌, ◌≡◌, [], ◌∷◌, leb, ◌==◌, arith, Bool-cases, inl, inr}
use creeper_os_v.Outcome.{Outcome, returns, panics, ◌>>=◌}
use creeper_os_v.Vma.{Region, FreeList, kvma_alloc}

-- Addresses of whole pages only.
abbrev pub InPages : FreeList → Type 0
InPages [] = Unit {0}
InPages (r ∷ rs) = (r.base % 4096 ≡ 0) × InPages rs

abbrev pub AnyInPages : Outcome (ℕ × FreeList) → Type 0
AnyInPages panics = Unit {0}
AnyInPages (returns (va, l)) = (va % 4096 ≡ 0) × InPages l

later_in_pages :
    (m : Outcome (ℕ × FreeList)) (r : Region)
    → r.base % 4096 ≡ 0
    → AnyInPages m
    → AnyInPages (m >>= λ (va, l). returns (va, r ∷ l))
later_in_pages panics r h k = tt
later_in_pages (returns (va, l)) r h k = (k.0, (h, k.1))

pub kvma_alloc-InPages : (count : ℕ) (l : FreeList) → InPages l → AnyInPages (kvma_alloc count l)
unfolding kvma_alloc
kvma_alloc-InPages count [] h = tt
kvma_alloc-InPages count (r ∷ rs) h = elim (Bool-cases (leb count r.pages)) [
  | inl fits ↦ elim (Bool-cases (r.pages - count == 0)) [
    | inl whole ↦ rw fits (rw whole (h.0, h.1))
    | inr part ↦ rw fits (rw part (h.0, (omega (arith, h.0), h.1)))
  ]
  | inr big ↦ rw big (later_in_pages (kvma_alloc count rs) r h.0 (kvma_alloc-InPages count rs h.1))
]
