-- ===== src/Pmm/Zeroed.antt =====
-- `pmm_alloc_zeroed` and `pmm_alloc_pages_zeroed` of kernel/src/memory/pmm.c clear what they take.
use creeper_os_v.Prelude.{
  ℕ, ◌+◌, ◌-◌, ◌*◌, ◌/◌, ◌%◌, ◌^◌, ◌≤◌, ◌<◌, ◌≡◌, refl, inl, inr, true, false, Bool-cases, arith,
  if◌then◌else◌,
}
use creeper_os_v.Bitmap.{bitmap_test}
use creeper_os_v.Outcome.{returns, >>=-returns}
use creeper_os_v.Memops.{Mem, memset}
use creeper_os_v.Memops.Laws.{in_block, memset_lem}
use creeper_os_v.Pmm.Search.{Pmm}
use creeper_os_v.Pmm.Invariant.{Inv, Takes}
use creeper_os_v.Pmm.Alloc.{pmm_alloc_pages-returns}
use creeper_os_v.Pmm.{page_size, hhdm_vbase, phys_2_hhdm, pmm_alloc_pages, pmm_alloc_pages_zeroed}

-- Memory `m` with `n` bytes at `p` cleared.
abbrev pub cleared : (p n : ℕ) → Mem → Mem
cleared p n m q = if in_block p n q then 0 else m q

-- The higher half map with the bit map in it, which lies at `bitmap_phys`; `m` is all other memory.
abbrev pub with_map : (bitmap_phys : ℕ) → Pmm → Mem → Mem
with_map bitmap_phys s m q =
    if in_block (bitmap_phys + hhdm_vbase) ((s.total_pages + 7) / 8) q
    then s.bitmap (q - (bitmap_phys + hhdm_vbase))
    else m q

-- The pages that hold the bit map are in use.
abbrev pub MapInUse : (bitmap_phys : ℕ) → Pmm → Type 0
MapInUse bitmap_phys s =
    (i : ℕ)
    → i < (s.total_pages + 7) / 8
    → bitmap_test s.bitmap ((bitmap_phys + i) / page_size) ≡ true

-- Pages that were free hold nothing of the bit map.
not_the_map :
    (bitmap_phys count phys q : ℕ) {s t : Pmm}
    → MapInUse bitmap_phys s
    → Takes count s phys t
    → in_block (bitmap_phys + hhdm_vbase) ((s.total_pages + 7) / 8) q ≡ true
    → in_block (phys + hhdm_vbase) (count * page_size) q ≡ false
not_the_map bitmap_phys count phys q {s} used took inside =
    elim (Bool-cases (in_block (phys + hhdm_vbase) (count * page_size) q)) [
      | inl both ↦
          let i = q - (bitmap_phys + hhdm_vbase) in
          let page = (bitmap_phys + i) / page_size in
          let here : i < (s.total_pages + 7) / 8 = ground (arith, inside) in
          let from : took.page ≤ page = ground (arith, inside, both, took.address) in
          let below : page < took.page + count = ground (arith, inside, both, took.address) in
          let free = took.were_free page from below in absurd (ground (arith, free, used i here))
      | inr apart ↦ apart
    ]

pages_cleared :
    (count : ℕ) (s : Pmm) (m : Mem) {phys : ℕ} {t : Pmm} {m' : Mem}
    → 0 < count
    → Inv s
    → s.total_pages ≤ 2 ^ 34
    → pmm_alloc_pages_zeroed count s m ≡ returns (phys, t, m')
    → Takes count s phys t × ((q : ℕ) → m' q ≡ cleared (phys + hhdm_vbase) (count * page_size) m q)
unfolding pmm_alloc_pages_zeroed
pages_cleared count s m {phys} {t} {m'} pos v small e =
    let (r, e1, e2) = >>=-returns (pmm_alloc_pages count s) _ e in
    let p : r.0 ≡ phys = cc in
    let u : r.1 ≡ t = cc in
    let took = pmm_alloc_pages-returns count s {phys = r.0} {t = r.1} pos v e1 in
    (
      rw (← p, ← u) took,
      λ q.
          let zeroed : memset (phys_2_hhdm r.0) 0 ((count * page_size) % 2 ^ 64) m ≡ m' = cc in
          rw (← zeroed, ← p)
            (ground (
              arith,
              memset_lem (phys_2_hhdm r.0) 0 ((count * page_size) % 2 ^ 64) m q,
              took.address,
              took.within,
            )),
    )

-- From a well-formed state of at most 2 ^ 34 pages, where the pages that hold the allocator's bit map are
-- in use: for `count` above 0, the pages that `pmm_alloc_pages_zeroed` returns are taken from the free
-- ones. In the higher half map, which holds the bit map too, the pages read as zero, and no other byte
-- changes but those of the bit map.
pub pmm_alloc_pages_zeroed-cleared :
    (bitmap_phys count : ℕ) (s : Pmm) (m : Mem) {phys : ℕ} {t : Pmm} {m' : Mem}
    → 0 < count
    → Inv s
    → s.total_pages ≤ 2 ^ 34
    → MapInUse bitmap_phys s
    → pmm_alloc_pages_zeroed count s m ≡ returns (phys, t, m')
    → Takes count s phys t
      × ((q : ℕ)
          → with_map bitmap_phys t m' q
            ≡ cleared (phys + hhdm_vbase) (count * page_size) (with_map bitmap_phys t m) q)
pmm_alloc_pages_zeroed-cleared bitmap_phys count s m {phys} {t} {m'} pos v small used e =
    let (took, zeroed) = pages_cleared count s m {phys = phys} {t = t} {m' = m'} pos v small e in
    (
      took,
      λ q. elim (Bool-cases (in_block (bitmap_phys + hhdm_vbase) ((s.total_pages + 7) / 8) q)) [
        | inl inside ↦
            rw took.total
              (rw inside (rw (not_the_map bitmap_phys count phys q used took inside) refl))
        | inr outside ↦ rw took.total (rw outside (zeroed q))
      ],
    )
