-- ===== src/Ramfile/Contents.antt =====
-- What read and write of kernel/src/vfs/ramfile.c do to a file's contents.
use creeper_os_v.Prelude.{
  ℕ, ◌+◌, ◌-◌, ◌^◌, ◌≤◌, ◌<◌, ◌≡◌, ◌≢◌, refl, ap, ◌∙◌, Bool-cases, ◌⊎◌, inl, inr, true, false, ◌==◌,
  ltb, leb, add64, sub64, arith,
}
use creeper_os_v.Memops.{Mem, memcpy}
use creeper_os_v.Memops.Laws.{copied, memcpy-copied}
use creeper_os_v.Ramfile.{
  Opened, bytes, Realloc, at_most, read_bytes, ramfile_read, write_bytes, write_fixed,
  ramfile_write, seek_set, ramfile_lseek,
}

-- The blocks of `n` bytes at `p` and of `k` bytes at `q` have no byte in common.
abbrev pub Apart : (p n q k : ℕ) → Type 0
Apart p n q k = (p + n ≤ q) ⊎ (q + k ≤ p)

-- `ramfile_read` with the offset past the end of a file that has contents: the count of bytes that
-- are left wraps, so that, for an offset and a `count` below 2 ^ 63, all of `count` is delivered,
-- from the memory behind the contents.
pub ramfile_read_past_end :
    (buf count : ℕ) (f : Opened)
    → f.info.start ≢ 0
    → 0 < f.info.size
    → f.info.size < f.f_pos
    → f.f_pos < 2 ^ 63
    → count < 2 ^ 63
    → ((ramfile_read buf count f).0 ≡ bytes count)
      × ((ramfile_read buf count f).1.mem ≡ memcpy buf (add64 f.info.start f.f_pos) count f.mem)
unfolding ramfile_read read_bytes
ramfile_read_past_end buf count f present some_size past offset small =
    let a : (f.info.start == 0) ≡ false = ground arith in
    let b : (f.info.size == 0) ≡ false = ground arith in
    let c : ltb count (sub64 f.info.size f.f_pos) ≡ true = ground arith in
    (rw a (rw b (rw c refl)), rw a (rw b (rw c refl)))

copied_at :
    (dest src n : ℕ) (m : Mem) (k : ℕ) → k < n → copied dest src n m (dest + k) ≡ m (src + k)
copied_at dest src n m k lt =
    let offset : dest + k - dest ≡ k = omega arith in rw offset (ground arith)

module _ (count : ℕ) (f : Opened) (present : f.info.start ≢ 0) (some_bytes : 0 < count)
    (within : f.f_pos + count ≤ f.info.size) (small : f.info.start + f.info.size < 2 ^ 63) where
  all_of_it : at_most count (sub64 f.info.size f.f_pos) ≡ count
  all_of_it = ground arith

  ramfile_read-within : (dest : ℕ) → ramfile_read dest count f ≡ read_bytes dest count f
  unfolding ramfile_read
  ramfile_read-within dest =
      let a : (f.info.start == 0) ≡ false = ground arith in
      let b : (f.info.size == 0) ≡ false = ground arith in rw a (rw b (rw all_of_it refl))

  ramfile_write-within :
      (krealloc_impl : Realloc) (src : ℕ)
      → src ≢ 0
      → ramfile_write krealloc_impl src count f ≡ write_bytes src count f
  unfolding ramfile_write write_fixed write_bytes
  ramfile_write-within krealloc_impl src given =
      let g : (src == 0) ≡ false = ground (arith, given) in
      elim (Bool-cases f.info.fixed_size) [
        | inl fixed ↦
            let a : (f.info.start == 0) ≡ false = ground arith in
            let b : ltb f.info.size f.f_pos ≡ false = ground arith in
            rw g (rw fixed (rw a (rw b (rw all_of_it refl))))
        | inr grows ↦
            let a : (count == 0) ≡ false = ground arith in
            let b : ltb (add64 f.f_pos count) f.f_pos ≡ false = ground arith in
            let c : leb (add64 f.f_pos count) f.info.size ≡ true = ground arith in
            rw g (rw grows (rw a (rw b (rw c refl))))
      ]

-- The file after `n` bytes were written, with the offset set back.
abbrev written_at : Opened → (src n : ℕ) → Opened
written_at f src n = record f { mem = memcpy (add64 f.info.start f.f_pos) src n f.mem }

-- In a file that has contents below address 2 ^ 63, what `ramfile_write` stored at an offset,
-- from a buffer that is not NULL, at least one byte and within the size, comes back from `ramfile_read` after a seek to that offset:
-- both report `count` bytes, and the bytes of the second buffer are those that were in the first
-- one. The two buffers must not overlap the contents.
pub ramfile_read-ramfile_write :
    (krealloc_impl : Realloc) (src dest count : ℕ) (f : Opened)
    → f.info.start ≢ 0
    → src ≢ 0
    → 0 < count
    → f.f_pos + count ≤ f.info.size
    → f.info.start + f.info.size < 2 ^ 63
    → Apart src count f.info.start f.info.size
    → Apart dest count f.info.start f.info.size
    → let written = ramfile_write krealloc_impl src count f in
      let again = ramfile_read dest count (ramfile_lseek f.f_pos seek_set written.1).1 in
      (written.0 ≡ bytes count)
      × (again.0 ≡ bytes count)
      × ((k : ℕ) → k < count → again.1.mem (dest + k) ≡ f.mem (src + k))
unfolding write_bytes ramfile_lseek read_bytes
ramfile_read-ramfile_write krealloc_impl src dest count f present given some_bytes within small from
      to =
    let address : add64 f.info.start f.f_pos ≡ f.info.start + f.f_pos =
      omega (arith, within, small) in
    let apart : (dest ≤ f.info.start + f.f_pos) ⊎ (f.info.start + f.f_pos + count ≤ dest) =
      ground arith in
    let apart' : (f.info.start + f.f_pos ≤ src) ⊎ (src + count ≤ f.info.start + f.f_pos) =
      ground arith in
    let writes =
      ramfile_write-within count f present some_bytes within small krealloc_impl src given in
    rw writes (
      refl,
      ap (λ r. r.0)
          (ramfile_read-within count (written_at f src count) present some_bytes within small dest),
      λ k lt.
          rw
            (ramfile_read-within count (written_at f src count) present some_bytes within small
              dest)
            (rw address (
              memcpy-copied dest (f.info.start + f.f_pos) count _ (dest + k) apart
              ∙ copied_at dest (f.info.start + f.f_pos) count
                  (memcpy (f.info.start + f.f_pos) src count f.mem) k lt
              ∙ memcpy-copied (f.info.start + f.f_pos) src count f.mem (f.info.start + f.f_pos + k)
                  apart'
              ∙ copied_at (f.info.start + f.f_pos) src count f.mem k lt)),
    )
