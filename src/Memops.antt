-- ===== src/Memops.antt =====
-- kernel/src/memops.c over a byte-addressed memory. Addresses do not wrap inside a block.
pub mod Laws
mod Examples
use creeper_os_v.Prelude.{ℕ, zero, suc, ◌+◌, ◌-◌, ◌%◌, Bool, true, false, if◌then◌else◌, ltb, ◌==◌}

abbrev pub Mem : Type 0
Mem = ℕ → ℕ

abbrev pub write : Mem → ℕ → ℕ → Mem
write m p v q = if q == p then v else m q

-- The rounds of a loop `for (i = 0; i < n; i++) pdest[i] = psrc[i]` from `i` on, `k` of them left.
copy_up : ℕ → ℕ → ℕ → ℕ → Mem → Mem
copy_up zero i dest src m = m
copy_up (suc k) i dest src m = copy_up k (i + 1) dest src (write m (dest + i) (m (src + i)))

-- `for (i = n; i > 0; i--) pdest[i - 1] = psrc[i - 1]`.
copy_down : ℕ → ℕ → ℕ → Mem → Mem
copy_down zero dest src m = m
copy_down (suc i) dest src m = copy_down i dest src (write m (dest + i) (m (src + i)))

pub memcpy : ℕ → ℕ → ℕ → Mem → Mem
unfolding copy_up
memcpy dest src n m = copy_up n 0 dest src m

pub memmove : ℕ → ℕ → ℕ → Mem → Mem
unfolding copy_up copy_down
memmove dest src n m =
    if ltb dest src
    then copy_up n 0 dest src m
    else if ltb src dest
    then copy_down n dest src m
    else m

fill : ℕ → ℕ → ℕ → ℕ → Mem → Mem
fill zero i s c m = m
fill (suc k) i s c m = fill k (i + 1) s c (write m (s + i) (c % 256))

pub memset : ℕ → ℕ → ℕ → Mem → Mem
unfolding fill
memset s c n m = fill n 0 s c m

-- The sign of the result of `memcmp`.
pub data Sign : Type 0 where
  minus_one nought one : Sign

compare_from : ℕ → ℕ → ℕ → ℕ → Mem → Sign
compare_from zero i p q m = nought
compare_from (suc k) i p q m =
    let rest = compare_from k (i + 1) p q m in
    if m (p + i) == m (q + i) then rest else if ltb (m (p + i)) (m (q + i)) then minus_one else one

pub memcmp : ℕ → ℕ → ℕ → Mem → Sign
unfolding compare_from
memcmp p q n m = compare_from n 0 p q m
