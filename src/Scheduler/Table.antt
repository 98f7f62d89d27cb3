-- ===== src/Scheduler/Table.antt =====
-- The table of identifiers in kernel/src/arch/x86_64/scheduler/scheduler.c and scheduler.h.
use creeper_os_v.Prelude.{ℕ, ◌+◌, ◌%◌, ◌^◌, ◌<◌, ◌≡◌, ◌≢◌, if◌then◌else◌, ◌==◌, leb, arith}
use creeper_os_v.Scheduler.Tids.{max_tid}

pub data IdKind : Type 0 where
  id_none : IdKind
  id_proc : IdKind
  id_thread : IdKind

-- A pointer without ID_TAG_MASK, bit 63.
unfoldable pub id_table_set_proc : (pid proc : ℕ) → (ℕ → ℕ) → ℕ → ℕ
id_table_set_proc pid proc table id = if id == pid then proc % 2 ^ 63 else table id

unfoldable pub id_table_set_thread : (tid t : ℕ) → (ℕ → ℕ) → ℕ → ℕ
id_table_set_thread tid t table id = if id == tid then t else table id

unfoldable pub id_table_clear : (id : ℕ) → (ℕ → ℕ) → ℕ → ℕ
id_table_clear cleared table id = if id == cleared then 0 else table id

-- The pointer, with bit 63 set, and the kind.
unfoldable pub id_lookup : (id : ℕ) → (ℕ → ℕ) → ℕ × IdKind
id_lookup id table =
    let raw = table id in
    if leb max_tid id
    then (0, id_none)
    else if raw == 0
    then (0, id_none)
    else (raw % 2 ^ 63 + 2 ^ 63, if leb (2 ^ 63) raw then id_thread else id_proc)

-- For an identifier below MAX_TID and a pointer into the upper half of the address space, other than its
-- first byte: after id_table_set_proc a lookup gives the pointer as a process, after id_table_set_thread
-- as a thread, and after id_table_clear nothing; and all three leave the lookups of other identifiers as
-- they were.
pub id_lookup-set :
    (id p : ℕ) (table : ℕ → ℕ)
    → id < max_tid
    → 2 ^ 63 < p
    → p < 2 ^ 64
    → (id_lookup id (id_table_set_proc id p table) ≡ (p, id_proc))
      × (id_lookup id (id_table_set_thread id p table) ≡ (p, id_thread))
      × (id_lookup id (id_table_clear id table) ≡ (0, id_none))
      × ((other : ℕ)
          → other ≢ id
          → (id_lookup other (id_table_set_proc id p table) ≡ id_lookup other table)
            × (id_lookup other (id_table_set_thread id p table) ≡ id_lookup other table)
            × (id_lookup other (id_table_clear id table) ≡ id_lookup other table))
unfolding id_lookup id_table_set_proc id_table_set_thread id_table_clear
id_lookup-set id p table small lower upper = (
  ground (arith, small, lower, upper),
  ground (arith, small, lower, upper),
  ground (arith, small),
  λ other apart. (ground (arith, apart), ground (arith, apart), ground (arith, apart)),
)
