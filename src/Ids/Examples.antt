-- ===== src/Ids/Examples.antt =====
-- The identifier maps of kernel/src/defines/helpers.c at concrete bytes.
use creeper_os_v.Prelude.{◌*◌, ◌≡◌, refl, arith, if◌then◌else◌, ◌==◌, size_max}
use creeper_os_v.Bitmap.{Bytes}
use creeper_os_v.Ids.{bitmap_alloc_1_first}
use creeper_os_v.Ids.Lowest.{TakesLowest, bitmap_alloc_1_first-TakesLowest}

-- The first byte is used up, and of the second one two identifiers.
abbrev ids : Bytes
ids i = if i == 0 then 0 else 0xFC

bitmap_alloc_1_first_example : TakesLowest ids 0 (16 * 8) (bitmap_alloc_1_first ids 16)
bitmap_alloc_1_first_example =
    bitmap_alloc_1_first-TakesLowest ids 16 (λ i. ground arith) (omega arith)

ids_runs : (bitmap_alloc_1_first ids 16).0 ≡ 10
unfolding bitmap_alloc_1_first
ids_runs = refl

none_left : (bitmap_alloc_1_first (λ i. 0) 16).0 ≡ size_max
unfolding bitmap_alloc_1_first
none_left = refl
