-- ===== src/Vfs/Store.antt =====
-- The objects of kernel/src/vfs/vfs.h in a store by address, and commands that read and write them.
use creeper_os_v.Prelude.{ℕ, ◌+◌, ◌-◌, Bool, Option, none, some, List, if◌then◌else◌, ◌==◌}
use creeper_os_v.Outcome.{Outcome, returns, panics}

abbrev pub Name : Type 0
Name = List ℕ

-- The tables that `i_op` points to: def_vfs_i_ops of vfs.c, ram_dir_iops of ramfile.c, or NULL.
pub data InodeOperations : Type 0 where
  def_vfs_i_ops ram_dir_iops null_i_ops : InodeOperations

-- The tables that `i_fop` points to.
pub data FileOperations : Type 0 where
  ram_file_fops null_fops : FileOperations
  device_fops : ℕ → FileOperations

-- `struct ramfile_info`.
pub record RamfileInfo : Type 0 where
  pub start : ℕ
  pub size : ℕ
  pub fixed_size : Bool

-- `struct inode`, without the times and device numbers, which nothing here reads. `i_size` is `none`
-- while no code has stored to it. `i_count` is counted from 0 upwards.
pub record Inode : Type 0 where
  pub i_dentry : ℕ
  pub i_mode : ℕ
  pub i_uid : ℕ
  pub i_gid : ℕ
  pub i_size : Option ℕ
  pub i_count : ℕ
  pub i_op : InodeOperations
  pub i_fop : FileOperations
  pub i_private : Option RamfileInfo

-- `struct dentry`. The list holds the children in the order of the hash list, the latest first.
pub record Dentry : Type 0 where
  pub name : Name
  pub parent : Option ℕ
  pub inode : Option ℕ
  pub d_children : List ℕ

-- `fresh` and all addresses above it are unused. `blocks` more allocations succeed: `kmalloc` takes
-- one and `kfree` gives one back. `uid` and `gid` are those of the current process, or 0.
pub record Fs : Type 0 where
  pub dentries : ℕ → Option Dentry
  pub inodes : ℕ → Option Inode
  pub fresh : ℕ
  pub blocks : ℕ
  pub uid : ℕ
  pub gid : ℕ
  pub root_dentry : ℕ

-- A status: 0 or more, or a negated code of kernel/src/defines/err_codes.h.
pub data Status : Type 0 where
  ok : Status
  err : ℕ → Status

abbrev pub e_noent : ℕ
e_noent = 2

abbrev pub e_nomem : ℕ
e_nomem = 12

abbrev pub e_exist : ℕ
e_exist = 17

abbrev pub e_notdir : ℕ
e_notdir = 20

abbrev pub e_isdir : ℕ
e_isdir = 21

abbrev pub e_inval : ℕ
e_inval = 22

abbrev pub e_notempty : ℕ
e_notempty = 66

-- A command runs in a store; `panics` is a fault, such as a call through a null pointer.
abbrev pub Cmd : Type 0 → Type 0
Cmd A = Fs → Outcome (A × Fs)

abbrev pub pure : {A : Type 0} → A → Cmd A
pure a s = returns (a, s)

abbrev pub fault : {A : Type 0} → Cmd A
fault s = panics

abbrev pub and_then : {A B : Type 0} → Outcome (A × Fs) → (A → Cmd B) → Outcome (B × Fs)
and_then (returns r) k = k r.0 r.1
and_then panics k = panics

infixl 5 ◌>>=◌ ◌>>◌
abbrev pub ◌>>=◌ : {A B : Type 0} → Cmd A → (A → Cmd B) → Cmd B
◌>>=◌ m k s = and_then (m s) k

abbrev pub ◌>>◌ : {B : Type 0} → Cmd (Unit {0}) → Cmd B → Cmd B
m >> k = m >>= λ _. k

abbrev pub or_fault : {A : Type 0} → Option A → Cmd A
or_fault none s = panics
or_fault (some a) s = returns (a, s)

abbrev pub get : Cmd Fs
get s = returns (s, s)

abbrev pub update {ℓ} : {A : Type ℓ} → (ℕ → Option A) → ℕ → Option A → ℕ → Option A
update f p v q = if q == p then v else f q

abbrev pub load_dentry : ℕ → Cmd Dentry
load_dentry p s = or_fault (s.dentries p) s

abbrev pub load_inode : ℕ → Cmd Inode
load_inode p s = or_fault (s.inodes p) s

abbrev pub store_dentry : ℕ → Option Dentry → Cmd (Unit {0})
store_dentry p d s = returns (tt, record s { dentries = update s.dentries p d })

abbrev pub store_inode : ℕ → Option Inode → Cmd (Unit {0})
store_inode p i s = returns (tt, record s { inodes = update s.inodes p i })

-- kmalloc: an address, or NULL.
unfoldable pub kmalloc : Cmd (Option ℕ)
kmalloc s =
    if s.blocks == 0
    then returns (none, s)
    else returns (some s.fresh, record s { fresh = s.fresh + 1; blocks = s.blocks - 1 })

-- kfree gives the block back; what stood there is removed by the caller.
abbrev pub kfree : Cmd (Unit {0})
kfree s = returns (tt, record s { blocks = s.blocks + 1 })
