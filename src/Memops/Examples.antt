-- ===== src/Memops/Examples.antt =====
-- kernel/src/memops.c at concrete blocks.
use creeper_os_v.Prelude.{◌≡◌, refl}
use creeper_os_v.Memops.{Mem, memcpy, memmove, memcmp, minus_one}
use creeper_os_v.Memops.Laws.{copied, memmove-copied}

-- The byte at an address is the address.
abbrev rising : Mem
rising a = a

memmove_example : memmove 12 10 4 rising 13 ≡ copied 12 10 4 rising 13
memmove_example = memmove-copied 12 10 4 rising 13

memmove_overlap : memmove 12 10 4 rising 15 ≡ 13
unfolding memmove
memmove_overlap = refl

-- Upwards into an overlapping block `memcpy` repeats the first bytes.
memcpy_overlap : memcpy 12 10 4 rising 15 ≡ 11
unfolding memcpy
memcpy_overlap = refl

memcmp_less : memcmp 3 7 4 rising ≡ minus_one
unfolding memcmp
memcmp_less = refl
