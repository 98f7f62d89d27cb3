-- ===== src/Scheduler/Exit.antt =====
-- The ends of threads and processes in kernel/src/arch/x86_64/scheduler/scheduler.c.
use creeper_os_v.Prelude.{
  ℕ, zero, suc, ◌+◌, ◌-◌, ◌/◌, ◌%◌, ◌^◌, not, ◌||◌, if◌then◌else◌, ◌==◌, Option, none, some, List,
  [], ◌∷◌, add64,
}
use creeper_os_v.Outcome.{Outcome, returns, ◌>>=◌}
use creeper_os_v.Vma.{FreeList, kvma_free}
use creeper_os_v.Pmm.{pmm_free_pages}
use creeper_os_v.Paging.{Mmu}
use creeper_os_v.Paging.Lookup.{vmm_virt_to_phys, vmm_unmap_page, vmm_pagetable_free_owned}
use creeper_os_v.Scheduler.{
  Scheduler, no_stack, state_zombie, is_zombie, write_tcb, write_pcb, hlist_del,
}
use creeper_os_v.Scheduler.Tids.{_free_tid}
use creeper_os_v.Scheduler.Table.{id_table_clear, id_table_set_thread}

-- 0 and -1.
pub data Status : Type 0 where
  ok : Status
  failed : Status

-- The part of `new_thread` under the lock: the thread goes into both lists and the table.
unfoldable pub list_thread : (t : ℕ) → Scheduler → Scheduler
unfolding id_table_set_thread
list_thread t s =
    let proc = (s.tcbs t).process in
    let p = s.pcbs proc in
    let listed = write_pcb proc (record p { threads = t ∷ p.threads }) s in
    record listed {
      threads = t ∷ s.threads;
      id_table = id_table_set_thread (s.tcbs t).tid t s.id_table;
    }

unfoldable pub _usthread_exit_locked : (t exit_code : ℕ) → Scheduler → Scheduler
unfolding hlist_del
_usthread_exit_locked t exit_code s =
    let ended = write_tcb t (record (s.tcbs t) { exit_code = exit_code; state = state_zombie }) s in
    record ended { threads = hlist_del t s.threads }

-- The stack of a user thread goes back. The page number is passed where pmm_free_pages takes an address.
unfoldable pub free_user_stack : (t : ℕ) → Scheduler → Scheduler
free_user_stack t s =
    let stack = (s.tcbs t).user_stack in
    let cleared = write_tcb t (record (s.tcbs t) { user_stack = no_stack }) s in
    if stack.top == 0 then s else record cleared {
      mmu = record (s.mmu) {
        pmm = pmm_free_pages (stack.top / 4096) (stack.size / 4096) s.mmu.pmm;
      };
    }

unfoldable pub usthread_exit : (t exit_code : ℕ) → Scheduler → Scheduler
unfolding _usthread_exit_locked free_user_stack
usthread_exit t exit_code s =
    if (t == 0) || ((s.tcbs t).process == s.kernel_proc)
    then s
    else if is_zombie (s.tcbs t).state
    then s
    else free_user_stack t (_usthread_exit_locked t exit_code s)

-- The loop over the threads of a process. A thread other than the current one gets -1.
unfoldable pub exit_threads : (ts : List ℕ) → (exit_code : ℕ) → Scheduler → Scheduler
unfolding _usthread_exit_locked
exit_threads [] exit_code s = s
exit_threads (t ∷ ts) exit_code s = exit_threads ts exit_code (
    if is_zombie (s.tcbs t).state
    then s
    else _usthread_exit_locked t (if t == s.current_thread then exit_code else 2 ^ 32 - 1) s)

-- user_stack = (stack_t){0}, for each thread.
unfoldable pub forget_stacks : List ℕ → Scheduler → Scheduler
forget_stacks [] s = s
forget_stacks (t ∷ ts) s =
    forget_stacks ts (write_tcb t (record (s.tcbs t) { user_stack = no_stack }) s)

unfoldable pub mark_ended : (proc exit_code : ℕ) → Scheduler → Scheduler
mark_ended proc exit_code s =
    write_pcb proc (record (s.pcbs proc) { exit_code = exit_code; state = state_zombie }) s

unfoldable pub strip_process : (proc : ℕ) → Scheduler → Scheduler
strip_process proc s =
    write_pcb proc
      (record (s.pcbs proc) { heap_lower = 0; opened_file_table = 0; opened_file_table_phys = 0 }) s

unfoldable pub usproc_exit : (proc exit_code : ℕ) → Scheduler → Scheduler
unfolding exit_threads forget_stacks mark_ended strip_process
usproc_exit proc exit_code s =
    let ts = (s.pcbs proc).threads in
    if (proc == 0) || (proc == s.kernel_proc)
    then s
    else if is_zombie (s.pcbs proc).state
    then s
    else strip_process proc
        (forget_stacks ts (mark_ended proc exit_code (exit_threads ts exit_code s)))

-- The loop of page_kfree in kernel/src/memory/memory.c.
unfoldable pub unmap_pages : (va count : ℕ) → Mmu → Mmu
unfolding vmm_unmap_page
unmap_pages va zero s = s
unmap_pages va (suc count) s = unmap_pages (add64 va 4096) count (vmm_unmap_page va s)

-- With the addresses back in the list of kvma_free.
unfoldable pub pages_freed : (va count : ℕ) → Scheduler → FreeList → Scheduler
unfolding unmap_pages vmm_virt_to_phys
pages_freed va count s vma =
    let pa = vmm_virt_to_phys va s.mmu in
    let unmapped = unmap_pages va count s.mmu in
    record s { mmu = record unmapped { pmm = pmm_free_pages pa count unmapped.pmm }; vma = vma }

unfoldable pub page_kfree : (va count : ℕ) → Scheduler → Outcome Scheduler
unfolding pages_freed
page_kfree va count s = kvma_free va count s.vma >>= λ vma. returns (pages_freed va count s vma)

-- Out of the lists and the table, and back with what the process owns.
unfoldable pub drop_process : (proc : ℕ) → Scheduler → Scheduler
unfolding hlist_del id_table_clear _free_tid vmm_pagetable_free_owned
drop_process proc s =
    let p = s.pcbs proc in
    let q = s.pcbs p.parent in
    let orphaned =
      if p.parent == 0
      then s
      else write_pcb p.parent (record q { childs = hlist_del proc q.childs }) s in
    record orphaned {
      processes = hlist_del proc s.processes;
      process_list_depth = (s.process_list_depth + 65535) % 65536;
      id_table = id_table_clear p.pid s.id_table;
      mmu = vmm_pagetable_free_owned p.cr3 s.mmu;
      tids = _free_tid p.pid s.tids;
      freed = proc ∷ p.name ∷ s.freed;
    }

unfoldable pub reap_us_proc : (proc : ℕ) → Scheduler → Status × Scheduler
reap_us_proc proc s =
    if (proc == 0) || (proc == s.kernel_proc)
    then (failed, s)
    else if not (is_zombie (s.pcbs proc).state)
    then (failed, s)
    else elim (s.pcbs proc).threads [ t ∷ ts ↦ (failed, s) | [] ↦ (ok, drop_process proc s) ]

-- The thread out of its process' list and the table.
unfoldable pub unlist_thread : (t : ℕ) → Scheduler → Scheduler
unfolding hlist_del id_table_clear _free_tid
unlist_thread t s =
    let proc = (s.tcbs t).process in
    let p = s.pcbs proc in
    let unlisted = write_pcb proc (record p { threads = hlist_del t p.threads }) s in
    record unlisted {
      id_table = id_table_clear (s.tcbs t).tid s.id_table;
      tids = _free_tid (s.tcbs t).tid s.tids;
    }

-- The process goes with its last thread.
unfoldable pub reap_if_empty : (proc : ℕ) → Scheduler → Scheduler
reap_if_empty proc s = elim (s.pcbs proc).threads [
  | t ∷ ts ↦ s
  | [] ↦ if is_zombie (s.pcbs proc).state then (reap_us_proc proc s).1 else s
]

-- The block of the thread goes back, and maybe the process.
unfoldable pub thread_freed : (t proc : ℕ) → Scheduler → Outcome (Status × Scheduler)
thread_freed t proc s = returns (ok, reap_if_empty proc (record s { freed = t ∷ s.freed }))

unfoldable pub reap_us_thread : (t : ℕ) → Scheduler → Outcome (Status × Scheduler)
unfolding unlist_thread page_kfree thread_freed
reap_us_thread t s =
    let tcb = s.tcbs t in
    if (t == 0) || ((tcb.process == 0) || (tcb.process == s.kernel_proc))
    then returns (failed, s)
    else if not (is_zombie tcb.state)
    then returns (failed, s)
    else (page_kfree tcb.kernel_stack.top (tcb.kernel_stack.size / 4096) (unlist_thread t s)
        >>= thread_freed t tcb.process)

-- The loop; `none` where it goes on after the rounds.
unfoldable pub reap_us_proc_threads : (rounds proc : ℕ) → Scheduler → Outcome (Option Scheduler)
unfolding reap_us_thread
reap_us_proc_threads zero proc s = returns none
reap_us_proc_threads (suc rounds) proc s = elim (s.pcbs proc).threads [
  | [] ↦ returns (some s)
  | t ∷ ts ↦ reap_us_thread t s >>= λ (status, u). reap_us_proc_threads rounds proc u
]

-- The kernel's own threads.
unfoldable pub kill_ktask : (t : ℕ) → Scheduler → Outcome (Status × Scheduler)
unfolding unlist_thread page_kfree
kill_ktask t s =
    let tcb = s.tcbs t in
    let unlisted = unlist_thread t s in
    if t == 0
    then returns (failed, s)
    else if not (tcb.process == s.kernel_proc)
    then returns (failed, s)
    else (page_kfree tcb.kernel_stack.top (tcb.kernel_stack.size / 4096)
          (record unlisted { threads = hlist_del t s.threads })
        >>= λ u. returns (ok, record u { freed = t ∷ u.freed }))
