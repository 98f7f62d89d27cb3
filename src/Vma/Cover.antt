-- ===== src/Vma/Cover.antt =====
-- The free list of kernel/src/arch/x86_64/mm/vmm.c seen as a set of addresses, and its normal form.
use creeper_os_v.Prelude.{
  ℕ, ◌+◌, ◌*◌, ◌^◌, ◌≤◌, ◌<◌, ◌≡◌, refl, Bool, false, ◌||◌, ◌&&◌, [], ◌∷◌, ltb, leb, arith,
}
use creeper_os_v.Vma.{FreeList, page_size}

-- Address `a` lies in the `pages` pages from `base` on.
abbrev pub in_pages : (base pages a : ℕ) → Bool
in_pages base pages a = leb base a && ltb a (base + pages * page_size)

-- Address `a` is free.
abbrev pub covers : FreeList → ℕ → Bool
covers [] a = false
covers (r ∷ rs) a = in_pages r.base r.pages a || covers rs a

-- The normal form: above `lo` the regions follow one another with a gap before each, none is empty,
-- and none reaches the end of the address space.
abbrev pub IsNormal : ℕ → FreeList → Type 0
IsNormal lo [] = Unit {0}
IsNormal lo (r ∷ rs) =
    (lo < r.base)
    × (0 < r.pages)
    × (r.base + r.pages * page_size < 2 ^ 64)
    × IsNormal (r.base + r.pages * page_size) rs

pub IsNormal-lower : {lo hi : ℕ} (l : FreeList) → lo ≤ hi → IsNormal hi l → IsNormal lo l
IsNormal-lower [] h n = tt
IsNormal-lower (r ∷ rs) h n = (omega (arith, n.0), n.1, n.2, n.3)

-- No address at or below the bound is free.
pub covers-low : (lo : ℕ) (l : FreeList) (a : ℕ) → IsNormal lo l → a ≤ lo → covers l a ≡ false
covers-low lo [] a n h = refl
covers-low lo (r ∷ rs) a n h =
    ground (arith, n.0, covers-low (r.base + r.pages * page_size) rs a n.3)
