-- ===== src/Pmm/Invariant.antt =====
-- The allocator's well-formedness, and that taking and giving back pages preserves it:
-- kernel/src/memory/pmm.c.
use creeper_os_v.Prelude.{ℕ, ◌+◌, ◌-◌, ◌*◌, ◌%◌, ◌^◌, ◌≤◌, ◌<◌, ◌≡◌, refl, ◌||◌, arith}
use creeper_os_v.Bitmap.{bitmap_test}
use creeper_os_v.Bitmap.Laws.{IsBytes}
use creeper_os_v.Pmm.Search.{Pmm}
use creeper_os_v.Pmm.Search.Laws.{AllFree}
use creeper_os_v.Pmm.Count.{
  free_count, in_range, free_count-le, bitmap_test-set_pages, set_pages-IsBytes,
  free_count-set_pages,
}
use creeper_os_v.Pmm.{page_size, set_pages}

-- Page numbers are below 2 ^ 52, so that an address fits into 64 bits.
pub record Inv (s : Pmm) : Type 0 where
  pub bytes : IsBytes s.bitmap
  pub bits : s.bitmap_bits ≡ s.total_pages
  pub next : s.bitmap_next ≤ s.total_pages
  pub fits : s.total_pages < 2 ^ 52
  pub counted : s.free_pages ≡ free_count s.bitmap s.total_pages

-- From `s` to `t` exactly the `count` pages from `page` on went from free to in use; `phys` is the
-- address of the first.
pub record Takes (count : ℕ) (s : Pmm) (phys : ℕ) (t : Pmm) : Type 0 where
  pub page : ℕ
  pub address : phys ≡ page * page_size
  pub within : page + count ≤ s.total_pages
  pub were_free : AllFree s.bitmap page (page + count)
  pub marked : (j : ℕ) → bitmap_test t.bitmap j ≡ (in_range page count j || bitmap_test s.bitmap j)
  pub counted : t.free_pages + count ≡ s.free_pages
  pub total : t.total_pages ≡ s.total_pages
  pub inv : Inv t

abbrev pub taken : ℕ → ℕ → ℕ → Pmm → Pmm
taken count page next s = record s {
  bitmap = set_pages count page s.bitmap;
  bitmap_next = next;
  free_pages = (s.free_pages + 2 ^ 64 - count) % 2 ^ 64;
}

pub taken-Takes :
    (count page next : ℕ) {s : Pmm}
    → Inv s
    → page + count ≤ s.total_pages
    → next ≤ s.total_pages
    → AllFree s.bitmap page (page + count)
    → Takes count s (page * page_size % 2 ^ 64) (taken count page next s)
taken-Takes count page next {s} v within le free =
    let spent = free_count-set_pages count page s.total_pages s.bitmap v.bytes within free in
    let bound = free_count-le s.bitmap s.total_pages in
    record {
      page = page;
      address = omega (arith, v.fits);
      within = within;
      were_free = free;
      marked = λ j. bitmap_test-set_pages count page s.bitmap j v.bytes;
      counted = omega (arith, spent, bound, v.fits, v.counted);
      total = refl;
      inv = record {
        bytes = set_pages-IsBytes count page s.bitmap v.bytes;
        bits = v.bits;
        next = le;
        fits = v.fits;
        counted = omega (arith, spent, bound, v.fits, v.counted);
      };
    }
