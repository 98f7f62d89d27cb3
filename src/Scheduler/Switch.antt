-- ===== src/Scheduler/Switch.antt =====
-- `sched_next_process_core` of kernel/src/arch/x86_64/scheduler/scheduler.c: the switch to another
-- thread.
use creeper_os_v.Prelude.{ℕ, ◌/◌, Bool, if◌then◌else◌, Option, none, some}
use creeper_os_v.Scheduler.{Scheduler, write_tcb, is_runnable}
use creeper_os_v.Scheduler.Pick.{pick}

-- What is saved of the current thread.
unfoldable pub save_current : (saved_rsp : ℕ) → Scheduler → Scheduler
save_current saved_rsp s =
    let current = s.tcbs s.current_thread in
    write_tcb s.current_thread
      (record current {
        k_rsp = saved_rsp;
        fs_base = s.cpu.fs_base;
        gs_base = s.cpu.gs_base;
        fp_state = if s.fpu_enabled then s.cpu.fp_state else current.fp_state;
      })
      s

-- The registers of the next thread.
unfoldable pub switch_to : (next : ℕ) → Scheduler → Scheduler
switch_to next s =
    let t = s.tcbs next in
    record s {
      current_thread = next;
      current_process = t.process;
      mmu = record (s.mmu) { cr3 = (s.pcbs t.process).cr3 / 4096 };
      cpu = record {
        fs_base = t.fs_base;
        gs_base = t.gs_base;
        fp_state = if s.fpu_enabled then t.fp_state else s.cpu.fp_state;
        tss_sp = t.kernel_stack.bottom;
      };
    }

abbrev pub runs_in : Scheduler → ℕ → Bool
runs_in s t = is_runnable (s.tcbs t).state

-- With the thread that the loop found.
unfoldable pub go_on : Option ℕ → Scheduler → Option (ℕ × Scheduler)
unfolding switch_to
go_on none s = none
go_on (some next) s = some ((s.tcbs next).k_rsp, switch_to next s)

-- The stack pointer to go on with, and the state; `none` is a loop that does not end.
unfoldable pub sched_next_process_core : (saved_rsp : ℕ) → Scheduler → Option (ℕ × Scheduler)
unfolding save_current go_on pick
sched_next_process_core saved_rsp s =
    let saved = save_current saved_rsp s in
    if s.scheduler_lock
    then some (saved_rsp, s)
    else go_on (pick (runs_in saved) s.current_thread s.threads) saved
