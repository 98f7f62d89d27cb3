-- ===== src/Memops/Laws.antt =====
-- What the block operations of kernel/src/memops.c leave in memory, and how `memcmp` compares.
use creeper_os_v.Prelude.{
  ℕ, zero, suc, ◌+◌, ◌-◌, ◌%◌, ◌≤◌, ◌<◌, ◌≡◌, refl, ◌⊎◌, inl, inr, Bool, ◌&&◌, arith, if◌then◌else◌,
  ltb, leb, ◌==◌, Bool-cases,
}
use creeper_os_v.Memops.{
  Mem, write, copy_up, copy_down, memcpy, memmove, fill, memset, Sign, minus_one, nought, one,
  compare_from, memcmp,
}

-- Address `q` lies in the block of `n` bytes at `p`.
abbrev pub in_block : (p n q : ℕ) → Bool
in_block p n q = leb p q && ltb q (p + n)

-- Memory `m` with the block of `n` bytes at `src` of `m` copied to `dest`.
abbrev pub copied : (dest src n : ℕ) → Mem → Mem
copied dest src n m q = if in_block dest n q then m (src + (q - dest)) else m q

copy_up-copied :
    (k i dest src q : ℕ) (m : Mem)
    → (dest ≤ src) ⊎ (src + (i + k) ≤ dest)
    → copy_up k i dest src m q ≡ (if in_block (dest + i) k q then m (src + (q - dest)) else m q)
unfolding copy_up
copy_up-copied zero i dest src q m h = ground arith
copy_up-copied (suc k) i dest src q m h =
    ground (arith, copy_up-copied k (i + 1) dest src q (write m (dest + i) (m (src + i))))

copy_down-copied :
    (n dest src q : ℕ) (m : Mem) → src < dest → copy_down n dest src m q ≡ copied dest src n m q
unfolding copy_down
copy_down-copied zero dest src q m h = ground arith
copy_down-copied (suc n) dest src q m h =
    ground (arith, copy_down-copied n dest src q (write m (dest + n) (m (src + n))) h)

-- `memcpy` copies the block, and changes no byte outside the destination, where the destination
-- starts no later than the source, or behind its end.
pub memcpy-copied :
    (dest src n : ℕ) (m : Mem) (q : ℕ)
    → (dest ≤ src) ⊎ (src + n ≤ dest)
    → memcpy dest src n m q ≡ copied dest src n m q
unfolding memcpy
memcpy-copied dest src n m q h = ground (arith, copy_up-copied n 0 dest src q m)

-- `memmove` copies the block however the two overlap, and changes no byte outside the destination.
pub memmove-copied :
    (dest src n : ℕ) (m : Mem) (q : ℕ) → memmove dest src n m q ≡ copied dest src n m q
unfolding memmove
memmove-copied dest src n m q =
    ground (arith, copy_up-copied n 0 dest src q m, copy_down-copied n dest src q m)

fill_lem :
    (k i s c q : ℕ) (m : Mem) → fill k i s c m q ≡ (if in_block (s + i) k q then c % 256 else m q)
unfolding fill
fill_lem zero i s c q m = ground arith
fill_lem (suc k) i s c q m = ground (arith, fill_lem k (i + 1) s c q (write m (s + i) (c % 256)))

-- `memset` stores the low byte of `c` in the block, and nowhere else.
pub memset_lem :
    (s c n : ℕ) (m : Mem) (q : ℕ) → memset s c n m q ≡ (if in_block s n q then c % 256 else m q)
unfolding memset
memset_lem s c n m q = ground (arith, fill_lem n 0 s c q m)

-- The blocks agree on their first `j` bytes.
abbrev pub Agree : Mem → (p q j : ℕ) → Type 0
Agree m p q j = (i : ℕ) → i < j → m (p + i) ≡ m (q + i)

-- `memcmp` tells the order at the first difference of two blocks of `n` bytes, if there is one.
abbrev pub Compares : Mem → (p q n : ℕ) → Sign → Type 0
Compares m p q n r =
    ((r ≡ nought) × Agree m p q n)
    ⊎ ((j : ℕ) × (j < n)
        × Agree m p q j
        × (((r ≡ minus_one) × (m (p + j) < m (q + j))) ⊎ ((r ≡ one) × (m (q + j) < m (p + j)))))

compare_from-Compares :
    (k i p q n : ℕ) (m : Mem)
    → i + k ≡ n
    → Agree m p q i
    → Compares m p q n (compare_from k i p q m)
unfolding compare_from
compare_from-Compares zero i p q n m e same = inl (refl, λ j lt. same j (omega arith))
compare_from-Compares (suc k) i p q n m e same = elim (Bool-cases (m (p + i) == m (q + i))) [
  | inl eq ↦ rw eq (
      compare_from-Compares k (i + 1) p q n m (omega arith) λ j lt. elim (Bool-cases (j == i)) [
        | inl last ↦ let at : j ≡ i = ground arith in rw at (ground arith)
        | inr other ↦ same j (ground arith)
      ])
  | inr ne ↦ rw ne (inr (i, omega arith, same, ground arith))
]

-- `memcmp` of two blocks of `n` bytes is 0 where they agree, and else tells the order of the first
-- bytes that differ.
pub memcmp-Compares : (p q n : ℕ) (m : Mem) → Compares m p q n (memcmp p q n m)
unfolding memcmp
memcmp-Compares p q n m = compare_from-Compares n 0 p q n m (omega arith) (λ i lt. elim lt [ ])
