-- ===== src/Pmm.antt =====
-- kernel/src/memory/pmm.c: the physical page allocator, a bit map with a next-fit cursor. Each entry
-- point holds the lock from its first to its last access, so it is one step.
pub mod Search
pub mod Count
mod Examples
pub mod Init
pub mod Zeroed
pub mod History
pub mod Free
pub mod Alloc
pub mod Invariant
use creeper_os_v.Prelude.{
  ℕ, zero, suc, ◌+◌, ◌-◌, ◌*◌, ◌/◌, ◌%◌, ◌^◌, Bool, true, false, Option, none, some, List, [], ◌∷◌,
  if◌then◌else◌, ltb, leb, ◌==◌, ◌&&◌, word, size_max, add64, sub64, mul64,
}
use creeper_os_v.Outcome.{Outcome, returns, panics, ◌>>=◌}
use creeper_os_v.Bitmap.{Bytes, bitmap_set, bitmap_clear, bitmap_test}
use creeper_os_v.Memops.{Mem, memset}
use Search.{Pmm, bitmap_find_clear, bitmap_find_clear_range}

abbrev pub page_size : ℕ
page_size = 4096

-- `phys_to_virt` of the higher half map, PHYS_2_HHDM.
abbrev pub hhdm_vbase : ℕ
hhdm_vbase = 0xFFFF800000000000

abbrev pub phys_2_hhdm : ℕ → ℕ
phys_2_hhdm phys = add64 phys hhdm_vbase

take_page : ℕ × Pmm → Outcome (ℕ × Pmm)
take_page (bit, s) =
    if bit == size_max
    then panics
    else returns (
      mul64 bit page_size,
      record s { bitmap = bitmap_set s.bitmap bit; free_pages = sub64 s.free_pages 1 },
    )

unfoldable pub pmm_alloc : Pmm → Outcome (ℕ × Pmm)
unfolding take_page
pmm_alloc s = take_page (bitmap_find_clear s)

pub pmm_free : ℕ → Pmm → Pmm
pmm_free phys s =
    if bitmap_test s.bitmap (phys / page_size)
    then record s {
      bitmap = bitmap_clear s.bitmap (phys / page_size);
      free_pages = add64 s.free_pages 1;
    }
    else s

-- for (i = 0; i < count; i++) bitmap_set(bit + i), from `bit` on.
pub set_pages : ℕ → ℕ → Bytes → Bytes
set_pages zero bit m = m
set_pages (suc count) bit m = set_pages count (bit + 1) (bitmap_set m bit)

pub clear_pages : ℕ → ℕ → Bytes → Bytes
clear_pages zero bit m = m
clear_pages (suc count) bit m = clear_pages count (bit + 1) (bitmap_clear m bit)

take_pages : ℕ → ℕ × Pmm → Outcome (ℕ × Pmm)
unfolding set_pages
take_pages count (bit, s) =
    if bit == size_max
    then panics
    else returns (
      mul64 bit page_size,
      record s { bitmap = set_pages count bit s.bitmap; free_pages = sub64 s.free_pages count },
    )

pub pmm_alloc_pages : ℕ → Pmm → Outcome (ℕ × Pmm)
unfolding take_pages
pmm_alloc_pages count s =
    if count == 0
    then returns (0, s)
    else if count == 1
    then pmm_alloc s
    else take_pages count (bitmap_find_clear_range count s)

pub pmm_free_pages : ℕ → ℕ → Pmm → Pmm
unfolding clear_pages
pmm_free_pages phys count s = record s {
  bitmap = clear_pages count (phys / page_size) s.bitmap;
  free_pages = add64 s.free_pages count;
}

-- `m` is the higher half map without the bit map of the allocator, which is in `s`.
unfoldable pub pmm_alloc_zeroed : Pmm → Mem → Outcome (ℕ × Pmm × Mem)
pmm_alloc_zeroed s m = pmm_alloc s >>= λ (phys, t).
    if phys == 0
    then returns (0, t, m)
    else returns (phys, t, memset (phys_2_hhdm phys) 0 page_size m)

pub pmm_alloc_pages_zeroed : ℕ → Pmm → Mem → Outcome (ℕ × Pmm × Mem)
pmm_alloc_pages_zeroed count s m = pmm_alloc_pages count s >>= λ (phys, t).
    returns (phys, t, memset (phys_2_hhdm phys) 0 (mul64 count page_size) m)
