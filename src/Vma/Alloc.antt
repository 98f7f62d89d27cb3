-- ===== src/Vma/Alloc.antt =====
-- What `kvma_alloc` of kernel/src/arch/x86_64/mm/vmm.c takes from the free addresses.
use creeper_os_v.Prelude.{
  ℕ, ◌+◌, ◌-◌, ◌*◌, ◌^◌, ◌<◌, ◌≡◌, refl, true, not, ◌&&◌, [], ◌∷◌, leb, ◌==◌, arith, inl, inr, ◌⊎◌,
  Bool-cases, add64, mul64,
}
use creeper_os_v.Outcome.{returns, panics}
use creeper_os_v.Vma.{Region, FreeList, page_size, kvma_alloc}
use creeper_os_v.Vma.Cover.{in_pages, covers, IsNormal, IsNormal-lower, covers-low}

-- No region holds `count` pages.
abbrev pub AllSmaller : ℕ → FreeList → Type 0
AllSmaller count [] = Unit {0}
AllSmaller count (r ∷ rs) = (r.pages < count) × AllSmaller count rs

-- From `l` to `l'` exactly the addresses of the `count` pages at `base` went from free to taken.
pub record Takes (lo count : ℕ) (l : FreeList) (base : ℕ) (l' : FreeList) : Type 0 where
  pub above : lo < base
  pub below : base + count * page_size < 2 ^ 64
  pub were_free : (a : ℕ) → in_pages base count a ≡ true → covers l a ≡ true
  pub left : (a : ℕ) → covers l' a ≡ (not (in_pages base count a) && covers l a)
  pub normal : IsNormal lo l'

Takes-whole :
    (lo count : ℕ) (r : Region) (rs : FreeList)
    → r.pages ≡ count
    → IsNormal lo (r ∷ rs)
    → Takes lo count (r ∷ rs) r.base rs
Takes-whole lo count r rs e n = record {
  above = n.0;
  below = omega (arith, n.2);
  were_free = λ a h. ground arith;
  left = λ a. ground (arith, covers-low (r.base + r.pages * page_size) rs a n.3);
  normal = IsNormal-lower rs (omega (arith, n.0)) n.3;
}

Takes-part :
    (lo count : ℕ) (r : Region) (rs : FreeList)
    → 0 < count
    → count < r.pages
    → IsNormal lo (r ∷ rs)
    → Takes lo count
        (r ∷ rs)
        r.base
        (record { base = add64 r.base (mul64 count page_size); pages = r.pages - count } ∷ rs)
Takes-part lo count r rs pos lt n =
    let front : add64 r.base (mul64 count page_size) ≡ r.base + count * page_size =
      omega (arith, n.2) in
    rw front (record {
      above = n.0;
      below = omega (arith, n.2);
      were_free = λ a h. ground arith;
      left = λ a. ground (arith, covers-low (r.base + r.pages * page_size) rs a n.3);
      normal = (
        omega (arith, n.0),
        omega arith,
        omega (arith, n.2),
        IsNormal-lower rs (omega arith) n.3,
      );
    })

Takes-later :
    (lo count : ℕ) (r : Region) (rs : FreeList) {base : ℕ} {l' : FreeList}
    → IsNormal lo (r ∷ rs)
    → Takes (r.base + r.pages * page_size) count rs base l'
    → Takes lo count (r ∷ rs) base (r ∷ l')
Takes-later lo count r rs n took = record {
  above = omega (arith, n.0, took.above);
  below = took.below;
  were_free = λ a h. ground (arith, took.were_free a h);
  left = λ a. ground (arith, took.left a, took.above);
  normal = (n.0, n.1, n.2, took.normal);
}

-- In a free list in normal form, for `count` above 0, `kvma_alloc` either panics, and then every
-- region is smaller than `count` pages, or it takes `count` pages of free addresses, leaves the others
-- as they were, and the list stays in normal form.
pub kvma_alloc-Takes :
    (lo count : ℕ) (l : FreeList)
    → 0 < count
    → IsNormal lo l
    → ((kvma_alloc count l ≡ panics) × AllSmaller count l)
      ⊎ ((base : ℕ) × (l' : FreeList) × (kvma_alloc count l ≡ returns (base, l'))
          × Takes lo count l base l')
unfolding kvma_alloc
kvma_alloc-Takes lo count [] pos n = inl (refl, tt)
kvma_alloc-Takes lo count (r ∷ rs) pos n = elim (Bool-cases (leb count r.pages)) [
  | inl fits ↦ elim (Bool-cases (r.pages - count == 0)) [
    | inl whole ↦
        rw fits (rw whole (inr (r.base, rs, refl, Takes-whole lo count r rs (ground arith) n)))
    | inr part ↦
        rw fits (rw part (inr (r.base, _, refl, Takes-part lo count r rs pos (ground arith) n)))
  ]
  | inr big ↦ rw big (elim (kvma_alloc-Takes (r.base + r.pages * page_size) count rs pos n.3) [
    | inl (e, small) ↦ rw e (inl (refl, (ground arith, small)))
    | inr (base, l', e, took) ↦ rw e (inr (base, r ∷ l', refl, Takes-later lo count r rs n took))
  ])
]
