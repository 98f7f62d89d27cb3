-- ===== src/Scheduler/Examples.antt =====
-- The scheduler of kernel/src/arch/x86_64/scheduler/scheduler.c at concrete states.
use creeper_os_v.Prelude.{
  ℕ, ◌+◌, ◌<◌, ◌≡◌, ◌≢◌, refl, ◌⊎◌, inl, inr, Bool, true, false, not, none, some, List, [], ◌∷◌,
  if◌then◌else◌, ◌==◌, arith,
}
use creeper_os_v.Outcome.{returns, panics}
use creeper_os_v.Pmm.Search.{Pmm}
use creeper_os_v.Paging.{no_entry}
use creeper_os_v.Scheduler.{Tcb, Pcb, Scheduler, TidMap, no_stack}
use creeper_os_v.Scheduler.Tids.{
  tids_at_boot, max_tid, _get_unused_tid, scan_words, scan_row, scan_word, row_is_zero,
  word_is_zero, put_tid,
}
use creeper_os_v.Scheduler.Tids.First.{usable}
use creeper_os_v.Scheduler.Tids.Laws.{TakesTid, get_unused_tid-Takes}
use creeper_os_v.Scheduler.Pick.{pick, pick_loop, next_nodes}
use creeper_os_v.Scheduler.Pick.Rotation.{In, NoDup}
use creeper_os_v.Scheduler.Pick.Laws.{first_runnable, pick-Ring}
use creeper_os_v.Scheduler.Pick.Turns.{turn, turn-fair, NoneRuns, pick-unlisted}
use creeper_os_v.Scheduler.Switch.{save_current, switch_to, go_on, sched_next_process_core}
use creeper_os_v.Scheduler.Resume.{Away, starts, switch-resumes}
use creeper_os_v.Scheduler.Sound.{IsSound}
use creeper_os_v.Scheduler.History.{begins, then_event, exits, GoesOn, Events-IsSound}
use creeper_os_v.Scheduler.Exit.{usthread_exit, usproc_exit, reap_us_proc_threads}
use creeper_os_v.Scheduler.Lifecycle.{Lives, reap-usproc_exit}

first_tid : _get_unused_tid tids_at_boot ≡ (some 0, put_tid 0 false tids_at_boot)
unfolding _get_unused_tid scan_words scan_row scan_word row_is_zero word_is_zero
first_tid = refl

get_unused_tid_example :
    ((_get_unused_tid tids_at_boot ≡ (none, tids_at_boot))
      × ((n : ℕ) → n < max_tid → usable tids_at_boot n ≡ false))
    ⊎ ((tid : ℕ) × (t : TidMap) × (_get_unused_tid tids_at_boot ≡ (some tid, t))
        × TakesTid tids_at_boot tid t)
get_unused_tid_example = get_unused_tid-Takes tids_at_boot refl

abbrev no_ids : ℕ → ℕ
no_ids id = 0

abbrev block : ℕ
block = 0xFFFF900000001000

-- Three threads, of which 10 and 30 are runnable.
abbrev runnable : ℕ → Bool
runnable t = not (t == 20)

abbrev three : List ℕ
three = 10 ∷ 20 ∷ 30 ∷ []

three-NoDup : NoDup three
three-NoDup =
    ((λ e. omega (arith, e), (λ e. omega (arith, e), tt)), ((λ e. omega (arith, e), tt), (tt, tt)))

pick_example : pick runnable 30 three ≡ some (first_runnable runnable 30 (10 ∷ 20 ∷ []))
pick_example = pick-Ring runnable 30 three (10 ∷ 20 ∷ []) (record {
  rotates = record { front = 10 ∷ 20 ∷ []; back = 30 ∷ []; whole = refl; turned = refl };
  once = (
    (λ e. omega (arith, e), (λ e. omega (arith, e), tt)),
    ((λ e. omega (arith, e), tt), (tt, tt)),
  );
})

turn_example : (n : ℕ) × (n < 3) × (turn n runnable 10 three ≡ some 30)
turn_example = turn-fair runnable 10 30 three three-NoDup (inl refl) (inr (inr (inl refl))) refl

pick-unlisted_example :
    ((t : ℕ)
      → In t three
      → runnable t ≡ true
      → (x : ℕ) × (pick runnable 99 three ≡ some x) × (runnable x ≡ true))
    × (three ≢ []
        → NoneRuns runnable three
        → (rounds : ℕ) → pick_loop rounds runnable 99 three (next_nodes 99 three) ≡ none)
pick-unlisted_example =
    pick-unlisted runnable 99 three
      (λ e. omega (arith, e), (λ e. omega (arith, e), (λ e. omega (arith, e), tt)))

abbrev thread : (tid state process : ℕ) → Tcb
thread tid state process = record {
  tid = tid;
  state = state;
  exit_code = 0;
  process = process;
  k_rsp = 0x7000 + tid;
  kernel_stack = no_stack;
  user_stack = no_stack;
  fs_base = tid;
  gs_base = tid;
  fp_state = tid;
}

abbrev process : (pid state : ℕ) (threads : List ℕ) → Pcb
process pid state threads = record {
  pid = pid;
  name = 0x900;
  state = state;
  exit_code = 0;
  cr3 = 0x2000;
  heap_lower = 0;
  opened_file_table = 0;
  opened_file_table_phys = 0;
  threads = threads;
  parent = 0;
  childs = [];
}

abbrev no_pages : Pmm
no_pages = record {
  bitmap = λ i. 255;
  bitmap_bits = 0;
  bitmap_next = 0;
  total_pages = 0;
  free_pages = 0;
}

-- The process 500 has the threads 10 and 20, both runnable; 10 is the current one.
abbrev running : Scheduler
running = record {
  tids = tids_at_boot;
  id_table = no_ids;
  tcbs = λ t. if t == 10 then thread 1 1 500 else thread 2 1 500;
  pcbs = λ p. process 3 1 (10 ∷ 20 ∷ []);
  threads = 10 ∷ 20 ∷ [];
  processes = 500 ∷ [];
  process_list_depth = 1;
  current_thread = 10;
  current_process = 500;
  kernel_proc = 400;
  scheduler_lock = false;
  fpu_enabled = true;
  cpu = record { fs_base = 11; gs_base = 12; fp_state = 13; tss_sp = 0 };
  mmu = record { tables = λ t i. no_entry; pmm = no_pages; cr3 = 2; kernel_pagedir = 1 };
  vma = [];
  freed = [];
}

abbrev stopped_at : ℕ
stopped_at = 0x1234

abbrev switched : Scheduler
switched = switch_to 20 (save_current stopped_at running)

abbrev back_again : Scheduler
back_again = switch_to 10 (save_current 0x5678 switched)

to_second : sched_next_process_core stopped_at running ≡ some (0x7002, switched)
unfolding sched_next_process_core save_current go_on pick pick_loop next_nodes switch_to
to_second = refl

to_first : sched_next_process_core 0x5678 switched ≡ some (stopped_at, back_again)
unfolding sched_next_process_core save_current go_on pick pick_loop next_nodes switch_to
to_first = refl

second_runs : Away 10 switched switched
unfolding switch_to
second_runs = starts (λ e. omega (arith, e))

back_current : back_again.current_thread ≡ 10
unfolding switch_to
back_current = refl

switch-resumes_example :
    (stopped_at ≡ stopped_at)
    × (back_again.cpu.fs_base ≡ 11)
    × (back_again.cpu.gs_base ≡ 12)
    × (true ≡ true → back_again.cpu.fp_state ≡ 13)
    × (back_again.cpu.tss_sp ≡ 0)
switch-resumes_example =
    switch-resumes stopped_at 0x7002 0x5678 stopped_at running switched switched back_again
      to_second second_runs to_first back_current

running-IsSound : IsSound running
running-IsSound = record {
  once = ((λ e. omega (arith, e), tt), (tt, tt));
  live = λ t i. ground arith;
}

Events-IsSound_example :
    IsSound (usthread_exit 10 3 running)
    × ((saved_rsp rsp : ℕ) (u : Scheduler)
        → sched_next_process_core saved_rsp (usthread_exit 10 3 running) ≡ some (rsp, u)
        → GoesOn (usthread_exit 10 3 running) u)
Events-IsSound_example = Events-IsSound running-IsSound (then_event begins (exits 10 3))

abbrev two : List ℕ
two = 10 ∷ 20 ∷ []

two-In : (t : ℕ) → In t two → t ≢ 0
two-In t (inl e) = λ z. omega (arith, e, z)
two-In t (inr (inl e)) = λ z. omega (arith, e, z)
two-In t (inr (inr i)) = elim i [ ]

running-Lives : Lives 500 two running
running-Lives = record {
  user = refl;
  running = refl;
  listed = refl;
  block = λ t i. two-In t i;
  owner = λ t i. ground arith;
}

reap-usproc_exit_example :
    (reap_us_proc_threads 3 500 (usproc_exit 500 9 running) ≡ panics)
    ⊎ ((u : Scheduler) × (reap_us_proc_threads 3 500 (usproc_exit 500 9 running) ≡ returns (some u))
        × ((u.pcbs 500).threads ≡ [])
        × (two ≢ [] → In 500 u.freed))
reap-usproc_exit_example = reap-usproc_exit 3 500 9 two running running-Lives (omega arith)
