-- ===== src/Pmm/Examples.antt =====
-- The physical page allocator of kernel/src/memory/pmm.c at concrete states.
use creeper_os_v.Prelude.{
  ℕ, zero, suc, ◌+◌, ◌-◌, ◌*◌, ◌/◌, ◌≤◌, ◌<◌, ◌≡◌, refl, ◌⊎◌, true, false, not, ◌||◌, List, [], ◌∷◌,
  if◌then◌else◌, ◌==◌, arith,
}
use creeper_os_v.Outcome.{Outcome, returns, panics}
use creeper_os_v.Bitmap.{bitmap_test, bitmap_set}
use creeper_os_v.Pmm.Search.{Pmm, bitmap_find_clear, bitmap_find_clear_range}
use creeper_os_v.Pmm.Search.Laws.{AllUsed, AllFree}
use creeper_os_v.Pmm.Count.{free_count}
use creeper_os_v.Pmm.Invariant.{Inv, Takes}
use creeper_os_v.Pmm.Alloc.{pmm_alloc-Takes, pmm_alloc_pages-Takes, pmm_alloc_pages-returns}
use creeper_os_v.Pmm.Free.{GivesBack, pmm_free_pages-GivesBack, Restores, pmm_free_pages-Takes}
use creeper_os_v.Pmm.History.{
  History, Reach, here, next, allocs, frees, first, later, IsSound, Reach-IsSound,
}
use creeper_os_v.Pmm.Count.{in_range}
use creeper_os_v.Pmm.Zeroed.{cleared, with_map, MapInUse, pmm_alloc_pages_zeroed-cleared}
use creeper_os_v.Pmm.Init.{Entry, build, bitmap_size}
use creeper_os_v.Pmm.Init.Laws.{is_usable, build-test}
use creeper_os_v.Memops.{Mem, memset}
use creeper_os_v.Pmm.{hhdm_vbase, pmm_alloc_pages_zeroed}
use creeper_os_v.Pmm.{pmm_alloc, pmm_alloc_pages, pmm_free_pages}

-- Twelve pages, of which 0, 1 and 5 are in use, with the cursor at 4.
abbrev small : Pmm
small = record {
  bitmap = λ i. if i == 0 then 35 else 0;
  bitmap_bits = 12;
  bitmap_next = 4;
  total_pages = 12;
  free_pages = 9;
}

small-Inv : Inv small
unfolding free_count bitmap_test
small-Inv = record {
  bytes = λ i. ground arith;
  bits = refl;
  next = omega arith;
  fits = omega arith;
  counted = refl;
}

pmm_alloc-small :
    pmm_alloc small
    ≡ returns (
      0x4000,
      record small { bitmap = bitmap_set small.bitmap 4; bitmap_next = 5; free_pages = 8 },
    )
unfolding pmm_alloc bitmap_find_clear
pmm_alloc-small = refl

pmm_alloc_example :
    ((pmm_alloc small ≡ panics) × AllUsed small.bitmap 0 12)
    ⊎ ((phys : ℕ) × (t : Pmm) × (pmm_alloc small ≡ returns (phys, t)) × Takes 1 small phys t)
pmm_alloc_example = pmm_alloc-Takes small small-Inv

pmm_alloc_pages_example :
    ((pmm_alloc_pages 3 small ≡ panics)
      × ((at : ℕ) → (at + 3 ≤ 4) ⊎ ((4 ≤ at) × (at + 3 ≤ 12)) → ¬ AllFree small.bitmap at (at + 3)))
    ⊎ ((phys : ℕ) × (t : Pmm) × (pmm_alloc_pages 3 small ≡ returns (phys, t))
        × Takes 3 small phys t)
pmm_alloc_pages_example = pmm_alloc_pages-Takes 3 small (omega arith) small-Inv

-- The pages that a call has left.
abbrev after : Pmm → Outcome (ℕ × Pmm) → Pmm
after s (returns r) = r.1
after s panics = s

-- Three pages in a row, found behind page 5.
abbrev taken_three : Pmm
taken_three = after small (pmm_alloc_pages 3 small)

three_runs : pmm_alloc_pages 3 small ≡ returns (0x6000, taken_three)
unfolding pmm_alloc_pages bitmap_find_clear_range
three_runs = refl

three_Takes : Takes 3 small 0x6000 taken_three
three_Takes = pmm_alloc_pages-returns 3 small (omega arith) small-Inv three_runs

pmm_free_pages-Takes_example : Restores small (pmm_free_pages 0x6000 3 taken_three)
pmm_free_pages-Takes_example = pmm_free_pages-Takes 3 three_Takes

pages_0_1-used : AllUsed small.bitmap 0 2
unfolding bitmap_test
pages_0_1-used zero lo hi = refl
pages_0_1-used (suc zero) lo hi = refl
pages_0_1-used (suc (suc k)) lo hi = absurd (omega arith)

pmm_free_pages_example : GivesBack 2 small 0 (pmm_free_pages 0 2 small)
pmm_free_pages_example = pmm_free_pages-GivesBack 0 2 small small-Inv (omega arith) pages_0_1-used

-- One caller takes three pages, another two, and the first gives its pages back.
abbrev start : History
start = record { pmm = small; live = [] }

abbrev taken_five : Pmm
taken_five = after taken_three (pmm_alloc_pages 2 taken_three)

five_runs : pmm_alloc_pages 2 taken_three ≡ returns (0x9000, taken_five)
unfolding pmm_alloc_pages bitmap_find_clear_range bitmap_set
five_runs = refl

abbrev finish : History
finish = record {
  pmm = pmm_free_pages 0x6000 3 taken_five;
  live = record { phys = 0x9000; count = 2 } ∷ [];
}

story : Reach start finish
story =
    next (next (next here (allocs 3 (omega arith) three_runs)) (allocs 2 (omega arith) five_runs))
      (frees (record { phys = 0x6000; count = 3 }) (later first))

start-IsSound : IsSound start
start-IsSound = record { inv = small-Inv; uses = tt; apart = tt }

Reach-IsSound_example : IsSound finish
Reach-IsSound_example = Reach-IsSound story start-IsSound

-- `pmm_alloc_pages_zeroed` of the same three pages, in a memory of ones.
abbrev ones : Mem
ones a = 1

abbrev zeroed : Mem
zeroed = memset (0x6000 + hhdm_vbase) 0 0x3000 ones

zeroed_runs : pmm_alloc_pages_zeroed 3 small ones ≡ returns (0x6000, taken_three, zeroed)
unfolding pmm_alloc_pages_zeroed
zeroed_runs = rw three_runs refl

-- The bit map of two bytes at the start of page 1.
small-MapInUse : MapInUse 0x1000 small
unfolding bitmap_test
small-MapInUse i lt = let one : (0x1000 + i) / 4096 ≡ 1 = omega (arith, lt) in rw one refl

pmm_alloc_pages_zeroed_example :
    Takes 3 small 0x6000 taken_three
    × ((q : ℕ)
        → with_map 0x1000 taken_three zeroed q
          ≡ cleared (0x6000 + hhdm_vbase) (3 * 4096) (with_map 0x1000 taken_three ones) q)
pmm_alloc_pages_zeroed_example =
    pmm_alloc_pages_zeroed-cleared 0x1000 3 small ones (omega arith) small-Inv (omega arith)
      small-MapInUse zeroed_runs

-- A usable region of 64 pages from page 16 on, behind a reserved one.
abbrev memory_map : List Entry
memory_map =
    record { base = 0; length = 0x10000; usable = false }
    ∷ record { base = 0x10000; length = 0x40000; usable = true }
    ∷ []

build-test_example :
    bitmap_test (build 64 0x10000 memory_map (λ i. 0)).bitmap 20
    ≡ (in_range 16 ((bitmap_size 64 + 4096 - 1) / 4096) 20 || not (is_usable memory_map 20))
build-test_example = build-test 64 0x10000 memory_map (λ i. 0) 20 (λ i. omega arith) small_page
  where
    small_page : 20 < 8 * bitmap_size 64
    small_page = unfold bitmap_size in omega arith
