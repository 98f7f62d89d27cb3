-- ===== src/Initrd/Archive.antt =====
-- What kernel/src/initrd_parse/initrd.c finds in a tar archive.
use creeper_os_v.Prelude.{
  ℕ, zero, suc, ◌+◌, ◌-◌, ◌*◌, ◌/◌, ◌%◌, ◌^◌, ◌<◌, ◌≡◌, ◌≢◌, refl, ap, Bool, true, false,
  if◌then◌else◌, ltb, ◌==◌, some, List, [], ◌∷◌, length, add64, arith,
}
use creeper_os_v.Memops.{Mem}
use creeper_os_v.Initrd.{
  size_offset, next_header, count_tar_entries, fill_headers, headers, no_memory, fill_table,
  parse_tar,
}
use creeper_os_v.Initrd.Size.{OctalField, get_tar_size-Octal}

-- The header behind a file of the size, in an archive at `address`.
abbrev pub behind : (address size : ℕ) → ℕ
behind address size = address + 512 + (size + 511) / 512 * 512

-- An archive of files of these sizes: each header has a name and the size in octal digits, and lies
-- behind the file before; the last one is followed by a byte 0.
abbrev pub IsArchive : Mem → (address : ℕ) → List ℕ → Type 0
IsArchive m address [] = m address ≡ 0
IsArchive m address (size ∷ sizes) =
    (m address ≢ 0)
    × OctalField m (address + size_offset) size 11
    × (size < 2 ^ 32 - 511)
    × (behind address size < 2 ^ 64)
    × IsArchive m (behind address size) sizes

-- Where the headers are.
abbrev pub header_addresses : (address : ℕ) → List ℕ → List ℕ
header_addresses address [] = []
header_addresses address (size ∷ sizes) = address ∷ header_addresses (behind address size) sizes

next_header-behind :
    (address size : ℕ) (m : Mem)
    → OctalField m (address + size_offset) size 11
    → size < 2 ^ 32 - 511
    → behind address size < 2 ^ 64
    → next_header address m ≡ behind address size
unfolding next_header
next_header-behind address size m f small below =
    let at : add64 address size_offset ≡ address + size_offset = omega arith in
    rw at (rw (get_tar_size-Octal (address + size_offset) size m f (omega arith)) (omega arith))

count_tar_entries-length :
    (rounds address : ℕ) (sizes : List ℕ) (m : Mem)
    → IsArchive m address sizes
    → length sizes < rounds
    → count_tar_entries rounds address m ≡ some (length sizes)
unfolding count_tar_entries
count_tar_entries-length zero address sizes m h k = absurd (omega arith)
count_tar_entries-length (suc rounds) address [] m h k = rw h refl
count_tar_entries-length (suc rounds) address (size ∷ sizes) m h k =
    let named : (m address == 0) ≡ false = ground (arith, h.0) in
    rw named (
      rw (next_header-behind address size m h.1 h.2 h.3) (
        rw (count_tar_entries-length rounds (behind address size) sizes m h.4 (omega (arith, k)))
          refl))

fill_headers-addresses :
    (address : ℕ) (sizes : List ℕ) (m : Mem)
    → IsArchive m address sizes
    → fill_headers (length sizes) address m ≡ header_addresses address sizes
unfolding fill_headers
fill_headers-addresses address [] m h = refl
fill_headers-addresses address (size ∷ sizes) m h =
    let named : (m address == 0) ≡ false = ground (arith, h.0) in
    rw named (
      rw (next_header-behind address size m h.1 h.2 h.3)
        (ap (◌∷◌ address) (fill_headers-addresses (behind address size) sizes m h.4)))

fill_table_lem :
    (granted : Bool) (address : ℕ) (sizes : List ℕ) (m : Mem)
    → IsArchive m address sizes
    → length sizes < 2 ^ 31
    → fill_table granted address (length sizes % 2 ^ 32) m ≡ (
        if granted
        then headers (header_addresses address sizes)
        else if length sizes == 0
        then headers []
        else no_memory)
unfolding fill_table
fill_table_lem true address [] m h few = refl
fill_table_lem false address [] m h few = refl
fill_table_lem granted address (size ∷ sizes) m h few =
    let whole : length (size ∷ sizes) % 2 ^ 32 ≡ length (size ∷ sizes) = omega (arith, few) in
    let some_files : (length (size ∷ sizes) == 0) ≡ false = ground arith in
    let not_negative : ltb (2 ^ 31 - 1) (length (size ∷ sizes)) ≡ false = ground (arith, few) in
    rw whole (
      rw some_files (
        rw not_negative (
          ap (λ l. if granted then headers l else no_memory)
            (fill_headers-addresses address (size ∷ sizes) m h))))

-- For an archive of fewer than 2 ^ 31 files in memory, each smaller than 2 ^ 32 - 511 bytes, with more
-- rounds than files, `parse_tar` returns the addresses of all the headers in order, or, where there is
-- a file and `kmalloc` fails, -E_NOMEM.
pub parse_tar-addresses :
    (rounds : ℕ) (granted : Bool) (address : ℕ) (sizes : List ℕ) (m : Mem)
    → IsArchive m address sizes
    → length sizes < rounds
    → length sizes < 2 ^ 31
    → parse_tar rounds granted address m
      ≡ some (
          if granted
          then headers (header_addresses address sizes)
          else if length sizes == 0
          then headers []
          else no_memory)
unfolding parse_tar
parse_tar-addresses rounds granted address sizes m h k few =
    rw (parse_tar, count_tar_entries-length rounds address sizes m h k)
      (ap (λ p. some p) (fill_table_lem granted address sizes m h few))
