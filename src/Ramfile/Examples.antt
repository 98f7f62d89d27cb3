-- ===== src/Ramfile/Examples.antt =====
-- The contents of a file of kernel/src/vfs/ramfile.c at concrete addresses.
use creeper_os_v.Prelude.{ℕ, ◌+◌, ◌≡◌, ◌<◌, refl, inr, false, none, arith, add64}
use creeper_os_v.Memops.{memcpy}
use creeper_os_v.Ramfile.{
  Opened, bytes, ramfile_read, ramfile_write, ramfile_lseek, seek_set, Realloc,
}
use creeper_os_v.Ramfile.Contents.{ramfile_read_past_end, ramfile_read-ramfile_write}

-- A file of 16 bytes at 0x1000, with the offset at `at`. Every address holds itself.
abbrev file : (at : ℕ) → Opened
file at = record {
  info = record { start = 0x1000; size = 16; fixed_size = false };
  i_size = 16;
  f_pos = at;
  mem = λ a. a;
}

abbrev no_memory : Realloc
no_memory address size m = none

ramfile_read_past_end_example :
    ((ramfile_read 0x2000 4 (file 20)).0 ≡ bytes 4)
    × ((ramfile_read 0x2000 4 (file 20)).1.mem ≡ memcpy 0x2000 (add64 0x1000 20) 4 (λ a. a))
ramfile_read_past_end_example =
    ramfile_read_past_end 0x2000 4 (file 20) (omega arith) (omega arith) (omega arith) (omega arith)
      (omega arith)

ramfile_read-ramfile_write_example :
    let written = ramfile_write no_memory 0x3000 4 (file 8) in
    let again = ramfile_read 0x2000 4 (ramfile_lseek 8 seek_set written.1).1 in
    (written.0 ≡ bytes 4)
    × (again.0 ≡ bytes 4)
    × ((k : ℕ) → k < 4 → again.1.mem (0x2000 + k) ≡ 0x3000 + k)
ramfile_read-ramfile_write_example =
    ramfile_read-ramfile_write no_memory 0x3000 0x2000 4 (file 8) (omega arith) (omega arith)
      (omega arith) (omega arith) (omega arith) (inr (omega arith)) (inr (omega arith))

read_runs : (ramfile_read 0x2000 40 (file 8)).0 ≡ bytes 8
unfolding ramfile_read
read_runs = refl
