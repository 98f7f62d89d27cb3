-- ===== src/Pmm/Alloc.antt =====
-- What `pmm_alloc`, `pmm_alloc_pages`, `pmm_free` and `pmm_free_pages` of kernel/src/memory/pmm.c do.
use creeper_os_v.Prelude.{ℕ, ◌+◌, ◌≤◌, ◌<◌, ◌≡◌, arith, ◌==◌, ◌⊎◌, inl, inr, Bool-cases}
use creeper_os_v.Outcome.{returns, panics}
use creeper_os_v.Pmm.Search.{Pmm, bitmap_find_clear, bitmap_find_clear_range}
use creeper_os_v.Pmm.Search.Laws.{
  AllUsed, AllFree, bitmap_find_clear-Found, bitmap_find_clear_range-FoundRun,
}
use creeper_os_v.Pmm.Invariant.{Inv, Takes, taken-Takes}
use creeper_os_v.Pmm.{set_pages, pmm_alloc, pmm_alloc_pages}

-- From any well-formed state `pmm_alloc` either takes one free page below `total_pages` and returns
-- its address, or it panics, and then every page is in use.
pub pmm_alloc-Takes :
    (s : Pmm)
    → Inv s
    → ((pmm_alloc s ≡ panics) × AllUsed s.bitmap 0 s.total_pages)
      ⊎ ((phys : ℕ) × (t : Pmm) × (pmm_alloc s ≡ returns (phys, t)) × Takes 1 s phys t)
unfolding pmm_alloc set_pages
pmm_alloc-Takes s v = elim (bitmap_find_clear-Found s (omega (arith, v.bits, v.next))) [
  | inl (e, same, used) ↦ inl (ground arith, rw (← v.bits) used)
  | inr (lt, free, next, le, e) ↦ inr (
    _,
    _,
    ground (arith, v.fits, v.bits),
    taken-Takes 1 (bitmap_find_clear s).0 next v (omega (arith, v.bits)) (omega (arith, v.bits))
        (λ k lo hi. let at : k ≡ (bitmap_find_clear s).0 = omega arith in rw at free),
  )
]

-- From a well-formed state, for `count` above 0, `pmm_alloc_pages` either takes `count` free pages in
-- a row and returns the address of the first, or it panics, and then no run of `count` free pages lies
-- before the cursor, nor one from the cursor on.
pub pmm_alloc_pages-Takes :
    (count : ℕ) (s : Pmm)
    → 0 < count
    → Inv s
    → ((pmm_alloc_pages count s ≡ panics)
        × ((at : ℕ)
            → (at + count ≤ s.bitmap_next) ⊎ ((s.bitmap_next ≤ at) × (at + count ≤ s.total_pages))
            → ¬ AllFree s.bitmap at (at + count)))
      ⊎ ((phys : ℕ) × (t : Pmm) × (pmm_alloc_pages count s ≡ returns (phys, t))
          × Takes count s phys t)
unfolding pmm_alloc_pages
pmm_alloc_pages-Takes count s pos v = elim (Bool-cases (count == 1)) [
  | inl one ↦
      let single : count ≡ 1 = ground arith in
      rw single (elim (pmm_alloc-Takes s v) [
        | inl (e, used) ↦ inl (
          e,
          λ at side free.
              cc (used at (omega arith) (omega arith), free at (omega arith) (omega arith)),
        )
        | inr found ↦ inr found
      ])
  | inr more ↦ elim (bitmap_find_clear_range-FoundRun count s pos v.next) [
    | inl (e, same, before, after) ↦ inl (
      ground arith,
      λ at side. elim side [ inl lo ↦ after at lo | inr (lo, hi) ↦ before at lo hi ],
    )
    | inr (within, free, e) ↦ inr (
      _,
      _,
      ground (arith, v.fits),
      taken-Takes count (bitmap_find_clear_range count s).0
          ((bitmap_find_clear_range count s).0 + count) v within within free,
    )
  ]
]

-- What a call that returns has taken.
pub pmm_alloc_pages-returns :
    (count : ℕ) (s : Pmm) {phys : ℕ} {t : Pmm}
    → 0 < count
    → Inv s
    → pmm_alloc_pages count s ≡ returns (phys, t)
    → Takes count s phys t
pmm_alloc_pages-returns count s {phys} {t} pos v e = elim (pmm_alloc_pages-Takes count s pos v) [
  | inl (stops, _) ↦ absurd (cc)
  | inr (phys', t', e', took) ↦
      let p : phys' ≡ phys = cc in let q : t' ≡ t = cc in rw (← p, ← q) took
]
