-- ===== src/Scheduler.antt =====
-- The state of kernel/src/arch/x86_64/scheduler/scheduler.c: threads, processes, identifiers.
--
-- A `tcb_t*` and a `pcb_t*` are addresses, 0 is NULL. A list of the kernel (defines/lists.h) is the list
-- of its members in the order of the next pointers. What the heap takes back is recorded. Messages to
-- the log are left out, and the lock makes what is done under it one step.
pub mod Tids
pub mod Table
pub mod Pick
pub mod Switch
pub mod Exit
pub mod Resume
pub mod Sound
pub mod Keeps
pub mod History
pub mod Reap
pub mod Lifecycle
mod Examples
use creeper_os_v.Prelude.{
  ℕ, zero, suc, ◌+◌, ◌-◌, ◌*◌, ◌/◌, ◌%◌, ◌^◌, Bool, true, false, not, ◌&&◌, ◌||◌, if◌then◌else◌,
  ◌==◌, List, [], ◌∷◌,
}
use creeper_os_v.Vma.{FreeList}
use creeper_os_v.Paging.{Mmu}

-- TCB_STATE_ and PCB_STATE_: the bits of a state.
abbrev pub state_runnable : ℕ
state_runnable = 1

abbrev pub state_starting_up : ℕ
state_starting_up = 2

abbrev pub state_zombie : ℕ
state_zombie = 4

-- state & STATE_RUNNABLE, and state & STATE_ZOMBIE.
abbrev pub is_runnable : ℕ → Bool
is_runnable state = state % 2 == 1

abbrev pub is_zombie : ℕ → Bool
is_zombie state = state / 4 % 2 == 1

pub record Stack : Type 0 where
  pub top : ℕ
  pub bottom : ℕ
  pub size : ℕ

abbrev pub no_stack : Stack
no_stack = record { top = 0; bottom = 0; size = 0 }

-- `tcb_t`, without the signals. `fp_state` stands for the 512 bytes.
pub record Tcb : Type 0 where
  pub tid : ℕ
  pub state : ℕ
  pub exit_code : ℕ
  pub process : ℕ
  pub k_rsp : ℕ
  pub kernel_stack : Stack
  pub user_stack : Stack
  pub fs_base : ℕ
  pub gs_base : ℕ
  pub fp_state : ℕ

-- `pcb_t`, as far as the ends of processes use it.
pub record Pcb : Type 0 where
  pub pid : ℕ
  pub name : ℕ
  pub state : ℕ
  pub exit_code : ℕ
  pub cr3 : ℕ
  pub heap_lower : ℕ
  pub opened_file_table : ℕ
  pub opened_file_table_phys : ℕ
  pub threads : List ℕ
  pub parent : ℕ
  pub childs : List ℕ

-- The identifiers: the words of `tid_bitmap` by bits, where a set bit is a free identifier.
pub record TidMap : Type 0 where
  pub tid_bitmap : (word bit : ℕ) → Bool
  pub tid_bitmap_curr : ℕ
  pub tid0_used : Bool

-- The registers of the processor that belong to a thread, and the stack in the task state segment.
pub record Cpu : Type 0 where
  pub fs_base : ℕ
  pub gs_base : ℕ
  pub fp_state : ℕ
  pub tss_sp : ℕ

pub record Scheduler : Type 0 where
  pub tids : TidMap
  pub id_table : ℕ → ℕ
  pub tcbs : ℕ → Tcb
  pub pcbs : ℕ → Pcb
  pub threads : List ℕ
  pub processes : List ℕ
  pub process_list_depth : ℕ
  pub current_thread : ℕ
  pub current_process : ℕ
  pub kernel_proc : ℕ
  pub scheduler_lock : Bool
  pub fpu_enabled : Bool
  pub cpu : Cpu
  pub mmu : Mmu
  pub vma : FreeList
  pub freed : List ℕ

abbrev pub write_tcb : ℕ → Tcb → Scheduler → Scheduler
write_tcb t new s = record s { tcbs = λ a. if a == t then new else s.tcbs a }

abbrev pub write_pcb : ℕ → Pcb → Scheduler → Scheduler
write_pcb p new s = record s { pcbs = λ a. if a == p then new else s.pcbs a }

-- hlist_del of defines/lists.h, of a member.
unfoldable pub hlist_del : ℕ → List ℕ → List ℕ
hlist_del n [] = []
hlist_del n (x ∷ xs) = if x == n then xs else x ∷ hlist_del n xs
