-- ===== src/Initrd.antt =====
-- The tar archive of the initial ramdisk, as kernel/src/initrd_parse/initrd.c reads it.
--
-- The archive lies in memory; a header is 512 bytes, with the name at offset 0 and the size at 124.
pub mod Size
pub mod Archive
mod Examples
use creeper_os_v.Prelude.{
  ℕ, zero, suc, ◌+◌, ◌-◌, ◌*◌, ◌/◌, ◌%◌, ◌^◌, Bool, true, false, if◌then◌else◌, ltb, ◌==◌, Option,
  none, some, List, [], ◌∷◌, add64,
}
use creeper_os_v.Memops.{Mem}
use creeper_os_v.Vfs.Text.{slash, dot, skip_slashes}

-- `header->size`
abbrev pub size_offset : ℕ
size_offset = 124

-- A char as an int, modulo 2 ^ 32.
abbrev pub char_value : ℕ → ℕ
char_value b = if ltb b 128 then b else b + 2 ^ 32 - 256

-- The loop of get_tar_size, with the characters before `j` left.
unfoldable pub tar_digits : (j count size field : ℕ) → Mem → ℕ
tar_digits zero count size field m = size
tar_digits (suc j) count size field m =
    tar_digits j (count * 8 % 2 ^ 32)
      ((size + (char_value (m (field + j)) + 2 ^ 32 - 48) * count) % 2 ^ 32) field m

unfoldable pub get_tar_size : (field : ℕ) → Mem → ℕ
unfolding tar_digits
get_tar_size field m = tar_digits 11 1 0 field m

-- The header and the blocks of the file; the number of blocks is found in 32 bits.
unfoldable pub next_header : (address : ℕ) → Mem → ℕ
unfolding get_tar_size
next_header address m =
    let size = get_tar_size (add64 address size_offset) m in
    add64 (add64 address 512) ((size + 511) % 2 ^ 32 / 512 * 512)

-- count_tar_entries, which goes on until a header without a name; `none` where it goes on after the
-- rounds.
unfoldable pub count_tar_entries : (rounds address : ℕ) → Mem → Option ℕ
unfolding next_header
count_tar_entries zero address m = none
count_tar_entries (suc rounds) address m =
    let rest = count_tar_entries rounds (next_header address m) m in
    if m address == 0 then some 0 else elim rest [ some count ↦ some (suc count) | none ↦ none ]

-- The table of headers that the loop of parse_tar fills.
unfoldable pub fill_headers : (todo address : ℕ) → Mem → List ℕ
unfolding next_header
fill_headers zero address m = []
fill_headers (suc todo) address m =
    let rest = fill_headers todo (next_header address m) m in
    if m address == 0 then [] else address ∷ rest

-- The table and its length, or -E_NOMEM.
pub data Parsed : Type 0 where
  headers : List ℕ → Parsed
  no_memory : Parsed

-- With what kmalloc answers. A count of 2 ^ 31 or more is negative.
unfoldable pub fill_table : (granted : Bool) → (address total : ℕ) → Mem → Parsed
unfolding fill_headers
fill_table granted address total m =
    if total == 0
    then headers []
    else if ltb (2 ^ 31 - 1) total
    then headers []
    else if granted
    then headers (fill_headers total address m)
    else no_memory

unfoldable pub parse_tar : (rounds : ℕ) → (granted : Bool) → (address : ℕ) → Mem → Option Parsed
unfolding count_tar_entries fill_table
parse_tar rounds granted address m = elim (count_tar_entries rounds address m) [
  | none ↦ none
  | some total ↦ some (fill_table granted address (total % 2 ^ 32) m)
]

-- normalize_tar_path, on the text of the name.
unfoldable pub normalize_tar_path : List ℕ → List ℕ
unfolding skip_slashes
normalize_tar_path [] = []
normalize_tar_path (a ∷ []) = skip_slashes (a ∷ [])
normalize_tar_path (a ∷ b ∷ cs) =
    if a == dot
    then (if b == slash then skip_slashes cs else a ∷ b ∷ cs)
    else skip_slashes (a ∷ b ∷ cs)
