-- ===== src/Scheduler/Resume.antt =====
-- A thread goes on where it stopped: `sched_next_process_core` of
-- kernel/src/arch/x86_64/scheduler/scheduler.c over many switches.
use creeper_os_v.Prelude.{
  ℕ, ◌≡◌, ◌≢◌, refl, sym, ap, ◌∙◌, ◌⊎◌, inl, inr, Bool, true, false, if◌then◌else◌, ◌==◌, Option,
  none, some, arith,
}
use creeper_os_v.Scheduler.{Cpu, Scheduler}
use creeper_os_v.Scheduler.Pick.{pick}
use creeper_os_v.Scheduler.Switch.{save_current, switch_to, go_on, runs_in, sched_next_process_core}

-- A step while other threads may run: the current thread changes the registers, or another is chosen.
pub data Step (s : Scheduler) : Scheduler → Type 0 where
  computes : (cpu : Cpu) → Step s (record s { cpu = cpu })
  switches :
      (saved_rsp rsp : ℕ) {t : Scheduler}
      → sched_next_process_core saved_rsp s ≡ some (rsp, t)
      → Step s t

-- Steps in which the thread is never the current one.
pub data Away (a : ℕ) (s : Scheduler) : Scheduler → Type 0 where
  starts : s.current_thread ≢ a → Away a s s
  goes_on : {t u : Scheduler} → Away a s t → Step t u → u.current_thread ≢ a → Away a s u

-- The two ends of a switch.
abbrev pub Ends :
    (saved_rsp rsp : ℕ) (locked : Bool) (picked : Option ℕ) (s saved t : Scheduler) → Type 0
Ends saved_rsp rsp locked picked s saved t =
    ((locked ≡ true) × (rsp ≡ saved_rsp) × (t ≡ s))
    ⊎ ((next : ℕ) × (picked ≡ some next)
        × (rsp ≡ (saved.tcbs next).k_rsp)
        × (t ≡ switch_to next saved))

go_on-Ends :
    (saved_rsp rsp : ℕ) (locked : Bool) (picked : Option ℕ) (s saved t : Scheduler)
    → (if locked then some (saved_rsp, s) else go_on picked saved) ≡ some (rsp, t)
    → Ends saved_rsp rsp locked picked s saved t
unfolding go_on
go_on-Ends saved_rsp rsp true picked s saved t e = inl (refl, cc e, cc e)
go_on-Ends saved_rsp rsp false none s saved t e = absurd (cc e)
go_on-Ends saved_rsp rsp false (some next) s saved t e = inr (next, refl, cc e, cc e)

pub switch-Ends :
    (saved_rsp rsp : ℕ) (s t : Scheduler)
    → sched_next_process_core saved_rsp s ≡ some (rsp, t)
    → Ends saved_rsp rsp s.scheduler_lock
        (pick (runs_in (save_current saved_rsp s)) s.current_thread s.threads)
        s
        (save_current saved_rsp s)
        t
unfolding sched_next_process_core
switch-Ends saved_rsp rsp s t e =
    go_on-Ends saved_rsp rsp s.scheduler_lock
      (pick (runs_in (save_current saved_rsp s)) s.current_thread s.threads) s
      (save_current saved_rsp s) t e

-- What the record of a thread has to say for it to go on.
record Waits (a rsp : ℕ) (cpu : Cpu) (fpu : Bool) (stack : ℕ) (s : Scheduler) : Type 0 where
  away : s.current_thread ≢ a
  rsp_kept : (s.tcbs a).k_rsp ≡ rsp
  fs_kept : (s.tcbs a).fs_base ≡ cpu.fs_base
  gs_kept : (s.tcbs a).gs_base ≡ cpu.gs_base
  fp_kept : fpu ≡ true → (s.tcbs a).fp_state ≡ cpu.fp_state
  fpu_kept : s.fpu_enabled ≡ fpu
  stack_kept : (s.tcbs a).kernel_stack.bottom ≡ stack

-- Saving the current thread leaves the records of the others.
save_current-others :
    (saved_rsp a : ℕ) (s : Scheduler)
    → s.current_thread ≢ a
    → (save_current saved_rsp s).tcbs a ≡ s.tcbs a
unfolding save_current
save_current-others saved_rsp a s ne =
    let miss : (a == s.current_thread) ≡ false = ground (arith, ne) in rw miss refl

pub switch_to-current : (next : ℕ) (s : Scheduler) → (switch_to next s).current_thread ≡ next
unfolding switch_to
switch_to-current next s = refl

switch-Waits :
    (a rsp : ℕ) (cpu : Cpu) (fpu : Bool) (stack next saved_rsp : ℕ) (s : Scheduler)
    → Waits a rsp cpu fpu stack s
    → next ≢ a
    → Waits a rsp cpu fpu stack (switch_to next (save_current saved_rsp s))
unfolding switch_to save_current
switch-Waits a rsp cpu fpu stack next saved_rsp s w ne =
    let same = save_current-others saved_rsp a s w.away in
    record {
      away = ne;
      rsp_kept = ap (λ t. t.k_rsp) same ∙ w.rsp_kept;
      fs_kept = ap (λ t. t.fs_base) same ∙ w.fs_kept;
      gs_kept = ap (λ t. t.gs_base) same ∙ w.gs_kept;
      fp_kept = λ on. ap (λ t. t.fp_state) same ∙ w.fp_kept on;
      fpu_kept = w.fpu_kept;
      stack_kept = ap (λ t. t.kernel_stack.bottom) same ∙ w.stack_kept;
    }

Step-Waits :
    (a rsp : ℕ) (cpu : Cpu) (fpu : Bool) (stack : ℕ) {s t : Scheduler}
    → Step s t
    → t.current_thread ≢ a
    → Waits a rsp cpu fpu stack s
    → Waits a rsp cpu fpu stack t
Step-Waits a rsp cpu fpu stack (computes new) ne w = record {
  away = w.away;
  rsp_kept = w.rsp_kept;
  fs_kept = w.fs_kept;
  gs_kept = w.gs_kept;
  fp_kept = w.fp_kept;
  fpu_kept = w.fpu_kept;
  stack_kept = w.stack_kept;
}
Step-Waits a rsp cpu fpu stack {s} (switches saved_rsp out {t} e) ne w =
    elim (switch-Ends saved_rsp out s t e) [
      | inl (locked, same_rsp, same) ↦ rw same w
      | inr (next, picks, gives, goes) ↦ rw goes (
          switch-Waits a rsp cpu fpu stack next saved_rsp s w (λ q. ne (
            ap (λ r. r.current_thread) goes
            ∙ switch_to-current next (save_current saved_rsp s)
            ∙ q)))
    ]

Away-Waits :
    (a rsp : ℕ) (cpu : Cpu) (fpu : Bool) (stack : ℕ) {s t : Scheduler}
    → Away a s t
    → Waits a rsp cpu fpu stack s
    → Waits a rsp cpu fpu stack t
Away-Waits a rsp cpu fpu stack (starts ne) w = w
Away-Waits a rsp cpu fpu stack (goes_on before step ne) w =
    Step-Waits a rsp cpu fpu stack step ne (Away-Waits a rsp cpu fpu stack before w)

Away-start : {a : ℕ} {s t : Scheduler} → Away a s t → s.current_thread ≢ a
Away-start (starts ne) = ne
Away-start (goes_on before step ne) = Away-start before

-- The thread that was current waits after the switch.
saved-Waits :
    (saved_rsp next : ℕ) (s : Scheduler)
    → next ≢ s.current_thread
    → Waits s.current_thread saved_rsp s.cpu s.fpu_enabled
        (s.tcbs s.current_thread).kernel_stack.bottom
        (switch_to next (save_current saved_rsp s))
unfolding switch_to save_current
saved-Waits saved_rsp next s ne =
    let hit : (s.current_thread == s.current_thread) ≡ true = ground arith in
    record {
      away = ne;
      rsp_kept = rw hit refl;
      fs_kept = rw hit refl;
      gs_kept = rw hit refl;
      fp_kept = λ on. rw hit (rw on refl);
      fpu_kept = refl;
      stack_kept = rw hit refl;
    }

save_current-fpu : (rsp : ℕ) (s : Scheduler) → (save_current rsp s).fpu_enabled ≡ s.fpu_enabled
unfolding save_current
save_current-fpu rsp s = refl

fpu_on : (b : Bool) (x y : ℕ) → b ≡ true → (if b then x else y) ≡ x
fpu_on b x y e = rw e refl

-- What a switch to a waiting thread loads.
resumed-Waits :
    (a rsp : ℕ) (cpu : Cpu) (fpu : Bool) (stack next last_rsp : ℕ) (u : Scheduler)
    → Waits a rsp cpu fpu stack u
    → next ≡ a
    → (((save_current last_rsp u).tcbs next).k_rsp ≡ rsp)
      × ((switch_to next (save_current last_rsp u)).cpu.fs_base ≡ cpu.fs_base)
      × ((switch_to next (save_current last_rsp u)).cpu.gs_base ≡ cpu.gs_base)
      × (fpu ≡ true → (switch_to next (save_current last_rsp u)).cpu.fp_state ≡ cpu.fp_state)
      × ((switch_to next (save_current last_rsp u)).cpu.tss_sp ≡ stack)
unfolding switch_to
resumed-Waits a rsp cpu fpu stack next last_rsp u w next_is =
    let same =
      ap (save_current last_rsp u).tcbs next_is ∙ save_current-others last_rsp a u w.away in
    (
      ap (λ r. r.k_rsp) same ∙ w.rsp_kept,
      ap (λ r. r.fs_base) same ∙ w.fs_kept,
      ap (λ r. r.gs_base) same ∙ w.gs_kept,
      λ on.
          fpu_on _ _ _ (save_current-fpu last_rsp u ∙ w.fpu_kept ∙ on)
          ∙ ap (λ r. r.fp_state) same
          ∙ w.fp_kept on,
      ap (λ r. r.kernel_stack.bottom) same ∙ w.stack_kept,
    )

-- A thread that a switch stopped, with `saved_rsp`, and that was not current in all steps since, goes on,
-- when a switch chooses it again, with that stack pointer, with the bases and, where the coprocessor is
-- enabled, the contents of its registers at the switch that stopped it, and on its own kernel stack.
pub switch-resumes :
    (saved_rsp rsp last_rsp back_rsp : ℕ) (s t u v : Scheduler)
    → sched_next_process_core saved_rsp s ≡ some (rsp, t)
    → Away s.current_thread t u
    → sched_next_process_core last_rsp u ≡ some (back_rsp, v)
    → v.current_thread ≡ s.current_thread
    → (back_rsp ≡ saved_rsp)
      × (v.cpu.fs_base ≡ s.cpu.fs_base)
      × (v.cpu.gs_base ≡ s.cpu.gs_base)
      × (s.fpu_enabled ≡ true → v.cpu.fp_state ≡ s.cpu.fp_state)
      × (v.cpu.tss_sp ≡ (s.tcbs s.current_thread).kernel_stack.bottom)
switch-resumes saved_rsp rsp last_rsp back_rsp s t u v first between last back =
    let a = s.current_thread in
    let waits_t : Waits a saved_rsp s.cpu s.fpu_enabled (s.tcbs a).kernel_stack.bottom t =
      elim (switch-Ends saved_rsp rsp s t first) [
        | inl (locked, same_rsp, same) ↦
            absurd (Away-start between (ap (λ r. r.current_thread) same))
        | inr (next, picks, gives, goes) ↦ rw goes (
            saved-Waits saved_rsp next s (λ q. Away-start between (
              ap (λ r. r.current_thread) goes
              ∙ switch_to-current next (save_current saved_rsp s)
              ∙ q)))
      ] in
    let w =
      Away-Waits a saved_rsp s.cpu s.fpu_enabled (s.tcbs a).kernel_stack.bottom between waits_t in
    elim (switch-Ends last_rsp back_rsp u v last) [
      | inl (locked, same_rsp, same) ↦
          absurd (w.away (ap (λ r. r.current_thread) (sym same) ∙ back))
      | inr (next, picks, gives, goes) ↦
          let next_is : next ≡ a =
            sym (switch_to-current next (save_current last_rsp u))
            ∙ ap (λ r. r.current_thread) (sym goes)
            ∙ back in
          let (rsp_is, fs_is, gs_is, fp_is, tss_is) =
            resumed-Waits a saved_rsp s.cpu s.fpu_enabled (s.tcbs a).kernel_stack.bottom next
              last_rsp u w next_is in
          (gives ∙ rsp_is, rw goes fs_is, rw goes gs_is, rw goes fp_is, rw goes tss_is)
    ]
