-- ===== src/Ramfile.antt =====
-- The contents of files in kernel/src/vfs/ramfile.c: read, write and seek of one open file, over the
-- memory of Memops. Sizes, offsets and addresses are 64-bit words.
pub mod Contents
pub mod Examples
use creeper_os_v.Prelude.{
  ℕ, ◌+◌, ◌-◌, ◌*◌, ◌%◌, ◌^◌, Bool, true, false, Option, none, some, if◌then◌else◌, ◌==◌, ltb, leb,
  add64, sub64,
}
use creeper_os_v.Memops.{Mem, memcpy, memset}
use creeper_os_v.Vfs.Store.{RamfileInfo}

-- What a call sees of the file: the info block of its inode, `i_size`, `f_pos`, and the memory.
pub record Opened : Type 0 where
  pub info : RamfileInfo
  pub i_size : ℕ
  pub f_pos : ℕ
  pub mem : Mem

-- A count of bytes or an offset, or a negated error code.
pub data Result : Type 0 where
  bytes : ℕ → Result
  fails : ℕ → Result

-- `krealloc_impl`, which may fail: the new address, and the memory with the contents moved.
abbrev pub Realloc : Type 0
Realloc = (address size : ℕ) → Mem → Option (ℕ × Mem)

-- (count < available) ? count : available
abbrev pub at_most : (count available : ℕ) → ℕ
at_most count available = if ltb count available then count else available

-- The copy out of the file, and the new offset. `offset` points at the file's `f_pos`.
unfoldable pub read_bytes : (buf n : ℕ) → Opened → Result × Opened
read_bytes buf n f = (
  bytes n,
  record f { mem = memcpy buf (add64 f.info.start f.f_pos) n f.mem; f_pos = add64 f.f_pos n },
)

unfoldable pub ramfile_read : (buf count : ℕ) → Opened → Result × Opened
unfolding read_bytes
ramfile_read buf count f =
    if f.info.start == 0
    then (fails 22, f)
    else if f.info.size == 0
    then (bytes 0, f)
    else read_bytes buf (at_most count (sub64 f.info.size f.f_pos)) f

-- The copy into the file at its offset, and the new offset.
unfoldable pub write_bytes : (buf n : ℕ) → Opened → Result × Opened
write_bytes buf n f = (
  bytes n,
  record f { mem = memcpy (add64 f.info.start f.f_pos) buf n f.mem; f_pos = add64 f.f_pos n },
)

-- `if (info->fixed_size)`
unfoldable pub write_fixed : (buf count : ℕ) → Opened → Result × Opened
unfolding write_bytes
write_fixed buf count f =
    if f.info.start == 0
    then (fails 22, f)
    else if ltb f.info.size f.f_pos
    then (fails 22, f)
    else write_bytes buf (at_most count (sub64 f.info.size f.f_pos)) f

-- The contents moved to `address`, the gap before the offset zeroed, and the sizes set.
unfoldable pub grow : (buf count new_end address : ℕ) → Mem → Opened → Result × Opened
grow buf count new_end address moved f =
    let gap =
      if ltb f.info.size f.f_pos
      then memset (add64 address f.info.size) 0 (sub64 f.f_pos f.info.size) moved
      else moved in
    (
      bytes count,
      record f {
        info = record f.info { start = address; size = new_end };
        i_size = new_end;
        mem = memcpy (add64 address f.f_pos) buf count gap;
        f_pos = add64 f.f_pos count;
      },
    )

unfoldable pub grow_by : (buf count new_end : ℕ) → Option (ℕ × Mem) → Opened → Result × Opened
unfolding grow
grow_by buf count new_end none f = (fails 12, f)
grow_by buf count new_end (some (address, moved)) f = grow buf count new_end address moved f

-- The record stands for a file, an offset and an info block that are not NULL.
unfoldable pub ramfile_write : Realloc → (buf count : ℕ) → Opened → Result × Opened
unfolding write_fixed write_bytes grow_by
ramfile_write krealloc_impl buf count f =
    if buf == 0
    then (fails 22, f)
    else if f.info.fixed_size
    then write_fixed buf count f
    else if count == 0
    then (bytes 0, f)
    else if ltb (add64 f.f_pos count) f.f_pos
    then (fails 22, f)
    else if leb (add64 f.f_pos count) f.info.size
    then write_bytes buf count f
    else grow_by buf count (add64 f.f_pos count)
        (krealloc_impl f.info.start (add64 f.f_pos count) f.mem) f

pub data Origin : Type 0 where
  seek_set seek_cur seek_end : Origin
  other_origin : Origin

unfoldable pub ramfile_lseek : (offset : ℕ) → Origin → Opened → Result × Opened
ramfile_lseek offset seek_set f = (bytes offset, record f { f_pos = offset })
ramfile_lseek offset seek_cur f =
    (bytes (add64 f.f_pos offset), record f { f_pos = add64 f.f_pos offset })
ramfile_lseek offset seek_end f =
    (bytes (add64 f.i_size offset), record f { f_pos = add64 f.i_size offset })
ramfile_lseek offset other_origin f = (fails 22, f)
