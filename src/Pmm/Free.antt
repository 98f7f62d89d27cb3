-- ===== src/Pmm/Free.antt =====
-- What `pmm_free` and `pmm_free_pages` of kernel/src/memory/pmm.c do, alone and after an allocation.
use creeper_os_v.Prelude.{
  ℕ, ◌+◌, ◌/◌, ◌≤◌, ◌<◌, ◌≡◌, refl, ◌&&◌, not, true, false, arith, ◌⊎◌, inl, inr, Bool-cases,
}
use creeper_os_v.Bitmap.{bitmap_test}
use creeper_os_v.Pmm.Search.{Pmm}
use creeper_os_v.Pmm.Search.Laws.{AllUsed}
use creeper_os_v.Pmm.Count.{
  in_range, bitmap_test-clear_pages, clear_pages-IsBytes, free_count-clear_pages, free_count-le,
}
use creeper_os_v.Pmm.Invariant.{Inv, Takes}
use creeper_os_v.Pmm.{page_size, clear_pages, pmm_free, pmm_free_pages}

-- From `s` to `t` exactly the `count` pages from `page` on went from in use to free.
pub record GivesBack (count : ℕ) (s : Pmm) (page : ℕ) (t : Pmm) : Type 0 where
  pub marked :
      (j : ℕ) → bitmap_test t.bitmap j ≡ (not (in_range page count j) && bitmap_test s.bitmap j)
  pub counted : t.free_pages ≡ s.free_pages + count
  pub cursor : t.bitmap_next ≡ s.bitmap_next
  pub total : t.total_pages ≡ s.total_pages
  pub inv : Inv t

-- In a well-formed state, given back while all in use, the `count` pages from the one that holds `phys` on become free, no
-- other page changes, the count of free pages grows by `count`, and the state stays well formed.
pub pmm_free_pages-GivesBack :
    (phys count : ℕ) (s : Pmm)
    → Inv s
    → phys / page_size + count ≤ s.total_pages
    → AllUsed s.bitmap (phys / page_size) (phys / page_size + count)
    → GivesBack count s (phys / page_size) (pmm_free_pages phys count s)
unfolding pmm_free_pages
pmm_free_pages-GivesBack phys count s v within used =
    let gain =
      free_count-clear_pages count (phys / page_size) s.total_pages s.bitmap v.bytes within used in
    let bound = free_count-le (clear_pages count (phys / page_size) s.bitmap) s.total_pages in
    record {
      marked = λ j. bitmap_test-clear_pages count (phys / page_size) s.bitmap j v.bytes;
      counted = omega (arith, gain, bound, v.fits, v.counted);
      cursor = refl;
      total = refl;
      inv = record {
        bytes = clear_pages-IsBytes count (phys / page_size) s.bitmap v.bytes;
        bits = v.bits;
        next = v.next;
        fits = v.fits;
        counted = omega (arith, gain, bound, v.fits, v.counted);
      };
    }

-- In a well-formed state `pmm_free` of a page in use frees that page alone; of a free page below
-- `total_pages` it changes nothing.
pub pmm_free_lem :
    (phys : ℕ) (s : Pmm)
    → Inv s
    → phys / page_size < s.total_pages
    → ((bitmap_test s.bitmap (phys / page_size) ≡ true)
        × GivesBack 1 s (phys / page_size) (pmm_free phys s))
      ⊎ ((bitmap_test s.bitmap (phys / page_size) ≡ false) × (pmm_free phys s ≡ s))
unfolding pmm_free clear_pages pmm_free_pages
pmm_free_lem phys s v within = elim (Bool-cases (bitmap_test s.bitmap (phys / page_size))) [
  | inl used ↦ inl (
    used,
    rw used (
        pmm_free_pages-GivesBack phys 1 s v (omega arith)
          (λ k lo hi. let at : k ≡ phys / page_size = omega arith in rw at used)),
  )
  | inr free ↦ inr (free, rw free refl)
]

-- Giving back what was taken restores the map, page by page, and the count, in a well-formed state.
pub record Restores (s t : Pmm) : Type 0 where
  pub pages : (j : ℕ) → bitmap_test t.bitmap j ≡ bitmap_test s.bitmap j
  pub counted : t.free_pages ≡ s.free_pages
  pub total : t.total_pages ≡ s.total_pages
  pub inv : Inv t

-- After an allocation took `count` pages at `phys`, `pmm_free_pages` of them restores the state of
-- every page and the counter, and the state is well formed.
pub pmm_free_pages-Takes :
    (count : ℕ) {s t : Pmm} {phys : ℕ}
    → Takes count s phys t
    → Restores s (pmm_free_pages phys count t)
pmm_free_pages-Takes count {s} {t} {phys} took =
    let page : phys / page_size ≡ took.page = omega (arith, took.address) in
    let back =
      pmm_free_pages-GivesBack phys count t took.inv (omega (arith, page, took.within, took.total))
        (λ k lo hi. ground (arith, took.marked k, page)) in
    record {
      pages = λ j. ground (arith, page, back.marked j, took.marked j, took.were_free j);
      counted = omega (arith, back.counted, took.counted);
      total = omega (arith, back.total, took.total);
      inv = back.inv;
    }
