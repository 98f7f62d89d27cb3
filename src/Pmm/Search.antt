-- ===== src/Pmm/Search.antt =====
-- kernel/src/memory/pmm.c: the allocator's variables and its two searches.
pub mod Laws
use creeper_os_v.Prelude.{
  ℕ, zero, suc, ◌+◌, ◌-◌, Option, none, some, if◌then◌else◌, leb, ◌==◌, size_max, true, false,
}
use creeper_os_v.Bitmap.{Bytes, bitmap_test}

-- In the bit map 1 stands for a page in use.
pub record Pmm : Type 0 where
  pub bitmap : Bytes
  pub bitmap_bits : ℕ
  pub bitmap_next : ℕ
  pub total_pages : ℕ
  pub free_pages : ℕ

-- for (i = start; i < end; i++): the first clear bit, with `rounds` rounds left.
unfoldable pub find_clear_from : Bytes → (rounds i : ℕ) → Option ℕ
find_clear_from m zero i = none
find_clear_from m (suc rounds) i =
    let rest = find_clear_from m rounds (i + 1) in if bitmap_test m i then rest else some i

-- bitmap_next = i + 1, or 0 at the end of the map.
unfoldable pub advance : Pmm → ℕ → ℕ × Pmm
advance s i = (i, record s { bitmap_next = if leb s.bitmap_bits (i + 1) then 0 else i + 1 })

second_pass : Pmm → Option ℕ → ℕ × Pmm
unfolding advance
second_pass s (some i) = advance s i
second_pass s none = (size_max, s)

first_pass : Pmm → Option ℕ → ℕ × Pmm
unfolding advance second_pass
first_pass s (some i) = advance s i
first_pass s none = second_pass s (find_clear_from s.bitmap s.bitmap_next 0)

unfoldable pub bitmap_find_clear : Pmm → ℕ × Pmm
unfolding first_pass find_clear_from bitmap_test
bitmap_find_clear s =
    first_pass s (find_clear_from s.bitmap (s.bitmap_bits - s.bitmap_next) s.bitmap_next)

-- The loop over `i` that counts a run of clear bits: where it stops, and the run's start.
unfoldable pub find_run_from : Bytes → (count rounds i run start : ℕ) → Option (ℕ × ℕ)
find_run_from m count zero i run start = none
find_run_from m count (suc rounds) i run start = elim (bitmap_test m i) [
  | true ↦ find_run_from m count rounds (i + 1) 0 start
  | false ↦
      let start' = if run == 0 then i else start in
      let rest = find_run_from m count rounds (i + 1) (run + 1) start' in
      if run + 1 == count then some (i, start') else rest
]

second_run : Pmm → Option (ℕ × ℕ) → ℕ × Pmm
second_run s (some (i, start)) = (start, record s { bitmap_next = i + 1 })
second_run s none = (size_max, s)

first_run : ℕ → Pmm → Option (ℕ × ℕ) → ℕ × Pmm
unfolding second_run
first_run count s (some (i, start)) = (start, record s { bitmap_next = i + 1 })
first_run count s none = second_run s (find_run_from s.bitmap count s.bitmap_next 0 0 0)

unfoldable pub bitmap_find_clear_range : ℕ → Pmm → ℕ × Pmm
unfolding first_run find_run_from bitmap_test
bitmap_find_clear_range count s =
    first_run count s
      (find_run_from s.bitmap count (s.total_pages - s.bitmap_next) s.bitmap_next 0 0)
