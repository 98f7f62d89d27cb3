-- ===== src/Scheduler/Lifecycle.antt =====
-- The end of a process, from `usproc_exit` to its reaping:
-- kernel/src/arch/x86_64/scheduler/scheduler.c.
use creeper_os_v.Prelude.{
  ℕ, ◌-◌, ◌^◌, ◌<◌, ◌≡◌, ◌≢◌, refl, sym, ap, ◌∙◌, subst, ◌⊎◌, inl, inr, true, false, if◌then◌else◌,
  ◌==◌, ◌||◌, some, List, [], ◌∷◌, arith, Bool-cases, length,
}
use creeper_os_v.Outcome.{returns, panics}
use creeper_os_v.Scheduler.{Tcb, Scheduler, write_tcb, is_zombie, no_stack, state_zombie}
use creeper_os_v.Scheduler.Pick.Rotation.{In}
use creeper_os_v.Scheduler.Exit.{
  _usthread_exit_locked, exit_threads, forget_stacks, mark_ended, strip_process, usproc_exit,
  reap_us_proc_threads,
}
use creeper_os_v.Scheduler.Reap.{reap_us_proc_threads-ends}
use creeper_os_v.Scheduler.Reap.One.{Ended}

-- Threads keep their process, and stay ended once they are; processes are as they were.
record Exited (s t : Scheduler) : Type 0 where
  owner : (a : ℕ) → (t.tcbs a).process ≡ (s.tcbs a).process
  stays : (a : ℕ) → is_zombie (s.tcbs a).state ≡ true → is_zombie (t.tcbs a).state ≡ true
  processes : (p : ℕ) → t.pcbs p ≡ s.pcbs p
  kernel : t.kernel_proc ≡ s.kernel_proc

Exited-refl : (s : Scheduler) → Exited s s
Exited-refl s = record { owner = λ a. refl; stays = λ a z. z; processes = λ p. refl; kernel = refl }

Exited-trans : {s t u : Scheduler} → Exited s t → Exited t u → Exited s u
Exited-trans k l = record {
  owner = λ a. l.owner a ∙ k.owner a;
  stays = λ a z. l.stays a (k.stays a z);
  processes = λ p. l.processes p ∙ k.processes p;
  kernel = l.kernel ∙ k.kernel;
}

write_tcb-Exited :
    (t : ℕ) (new : Tcb) (s : Scheduler)
    → new.process ≡ (s.tcbs t).process
    → (is_zombie (s.tcbs t).state ≡ true → is_zombie new.state ≡ true)
    → Exited s (write_tcb t new s)
write_tcb-Exited t new s own stay = record {
  owner = λ a. elim (Bool-cases (a == t)) [
    | inl hit ↦
        let a_is : a ≡ t = ground arith in rw hit (own ∙ ap (λ b. (s.tcbs b).process) (sym a_is))
    | inr miss ↦ rw miss refl
  ];
  stays = λ a z. elim (Bool-cases (a == t)) [
    | inl hit ↦
        let a_is : a ≡ t = ground arith in
        rw hit (stay (ap (λ b. is_zombie (s.tcbs b).state) (sym a_is) ∙ z))
    | inr miss ↦ rw miss z
  ];
  processes = λ p. refl;
  kernel = refl;
}

exit_locked-Exited :
    (t code : ℕ) (s : Scheduler)
    → Exited s (_usthread_exit_locked t code s)
      × (is_zombie ((_usthread_exit_locked t code s).tcbs t).state ≡ true)
unfolding _usthread_exit_locked
exit_locked-Exited t code s =
    let w =
      write_tcb-Exited t (record (s.tcbs t) { exit_code = code; state = state_zombie }) s refl
        (λ z. refl) in
    let hit : (t == t) ≡ true = ground arith in
    (
      record { owner = w.owner; stays = w.stays; processes = w.processes; kernel = w.kernel },
      rw hit refl,
    )

-- One thread of the loop.
exit_one :
    (t code : ℕ) (s u : Scheduler)
    → u ≡ (if is_zombie (s.tcbs t).state then s else _usthread_exit_locked t code s)
    → Exited s u × (is_zombie (u.tcbs t).state ≡ true)
exit_one t code s u e = elim (Bool-cases (is_zombie (s.tcbs t).state)) [
  | inl ended ↦
      let same : u ≡ s = rw ended at e in
      subst (λ v. Exited s v × (is_zombie (v.tcbs t).state ≡ true)) (sym same)
        (Exited-refl s, ended)
  | inr runs ↦
      let same : u ≡ _usthread_exit_locked t code s = rw runs at e in
      subst (λ v. Exited s v × (is_zombie (v.tcbs t).state ≡ true)) (sym same)
        (exit_locked-Exited t code s)
]

exit_threads-Exited :
    (ts : List ℕ) (code : ℕ) (s : Scheduler)
    → Exited s (exit_threads ts code s)
      × ((t : ℕ) → In t ts → is_zombie ((exit_threads ts code s).tcbs t).state ≡ true)
unfolding exit_threads
exit_threads-Exited [] code s = (Exited-refl s, λ t i. elim i [ ])
exit_threads-Exited (x ∷ ts) code s =
    let one : Scheduler =
      if is_zombie (s.tcbs x).state
      then s
      else _usthread_exit_locked x (if x == s.current_thread then code else 2 ^ 32 - 1) s in
    let (first, gone) =
      exit_one x (if x == s.current_thread then code else 2 ^ 32 - 1) s one refl in
    let (later, all) = exit_threads-Exited ts code one in
    (
      Exited-trans first later,
      λ t i. elim i [
        | inl e ↦
            subst (λ b. is_zombie ((exit_threads ts code one).tcbs b).state ≡ true) e
              (later.stays x gone)
        | inr j ↦ all t j
      ],
    )

forget_stacks-Exited : (ts : List ℕ) (s : Scheduler) → Exited s (forget_stacks ts s)
unfolding forget_stacks
forget_stacks-Exited [] s = Exited-refl s
forget_stacks-Exited (t ∷ ts) s =
    Exited-trans (write_tcb-Exited t (record (s.tcbs t) { user_stack = no_stack }) s refl (λ z. z))
      (forget_stacks-Exited ts _)

-- A process of the user that has not exited: its listed threads, which belong to it.
pub record Lives (proc : ℕ) (ts : List ℕ) (s : Scheduler) : Type 0 where
  pub user : ((proc == 0) || (proc == s.kernel_proc)) ≡ false
  pub running : is_zombie (s.pcbs proc).state ≡ false
  pub listed : (s.pcbs proc).threads ≡ ts
  pub block : (t : ℕ) → In t ts → t ≢ 0
  pub owner : (t : ℕ) → In t ts → (s.tcbs t).process ≡ proc

mark_ended-pcb :
    (proc code : ℕ) (s : Scheduler)
    → (((mark_ended proc code s).pcbs proc).threads ≡ (s.pcbs proc).threads)
      × (((mark_ended proc code s).pcbs proc).state ≡ state_zombie)
      × ((mark_ended proc code s).tcbs ≡ s.tcbs)
      × ((mark_ended proc code s).kernel_proc ≡ s.kernel_proc)
unfolding mark_ended
mark_ended-pcb proc code s =
    let hit : (proc == proc) ≡ true = ground arith in (rw hit refl, rw hit refl, refl, refl)

strip_process-pcb :
    (proc : ℕ) (s : Scheduler)
    → (((strip_process proc s).pcbs proc).threads ≡ (s.pcbs proc).threads)
      × (((strip_process proc s).pcbs proc).state ≡ (s.pcbs proc).state)
      × ((strip_process proc s).tcbs ≡ s.tcbs)
      × ((strip_process proc s).kernel_proc ≡ s.kernel_proc)
unfolding strip_process
strip_process-pcb proc s =
    let hit : (proc == proc) ≡ true = ground arith in (rw hit refl, rw hit refl, refl, refl)

-- The stages of `usproc_exit`, one after the other.
stages-Ended :
    (proc code : ℕ) (ts : List ℕ) (s : Scheduler)
    → Lives proc ts s
    → Ended proc ts
        (strip_process proc (forget_stacks ts (mark_ended proc code (exit_threads ts code s))))
      × (((strip_process proc
              (forget_stacks ts (mark_ended proc code (exit_threads ts code s)))).pcbs
            proc).state
          ≡ state_zombie)
stages-Ended proc code ts s l =
    let s1 = exit_threads ts code s in
    let s2 = mark_ended proc code s1 in
    let s3 = forget_stacks ts s2 in
    let (x, gone) = exit_threads-Exited ts code s in
    let (m_threads, m_state, m_tcbs, m_kernel) = mark_ended-pcb proc code s1 in
    let f = forget_stacks-Exited ts s2 in
    let (p_threads, p_state, p_tcbs, p_kernel) = strip_process-pcb proc s3 in
    (
      record {
        user = rw (p_kernel ∙ f.kernel ∙ m_kernel ∙ x.kernel) l.user;
        listed =
            p_threads
            ∙ ap (λ p. p.threads) (f.processes proc)
            ∙ m_threads
            ∙ ap (λ p. p.threads) (x.processes proc)
            ∙ l.listed;
        block = l.block;
        owner = λ t i.
            ap (λ m. (m t).process) p_tcbs
            ∙ f.owner t
            ∙ ap (λ m. (m t).process) m_tcbs
            ∙ x.owner t
            ∙ l.owner t i;
        ended = λ t i.
            ap (λ m. is_zombie (m t).state) p_tcbs
            ∙ f.stays t (ap (λ m. is_zombie (m t).state) m_tcbs ∙ gone t i);
      },
      p_state ∙ ap (λ p. p.state) (f.processes proc) ∙ m_state,
    )

usproc_exit-Ended :
    (proc code : ℕ) (ts : List ℕ) (s : Scheduler)
    → Lives proc ts s
    → Ended proc ts (usproc_exit proc code s)
      × (is_zombie ((usproc_exit proc code s).pcbs proc).state ≡ true)
unfolding usproc_exit
usproc_exit-Ended proc code ts s l =
    let (e, zombie) = stages-Ended proc code ts s l in
    rw (l.user, l.running) (rw l.listed (e, ap is_zombie zombie))

-- For a process of the user that has not exited, after `usproc_exit` the loop of `reap_us_proc_threads`,
-- with more rounds than the process has threads, ends, unless kvma_free panics, and then the process has
-- no thread left, and if it had one, its block went back to the heap.
pub reap-usproc_exit :
    (rounds proc code : ℕ) (ts : List ℕ) (s : Scheduler)
    → Lives proc ts s
    → length ts < rounds
    → (reap_us_proc_threads rounds proc (usproc_exit proc code s) ≡ panics)
      ⊎ ((u : Scheduler) × (reap_us_proc_threads rounds proc (usproc_exit proc code s)
            ≡ returns (some u))
          × ((u.pcbs proc).threads ≡ [])
          × (ts ≢ [] → In proc u.freed))
reap-usproc_exit rounds proc code ts s l enough =
    let (e, gone) = usproc_exit-Ended proc code ts s l in
    elim (reap_us_proc_threads-ends rounds proc ts (usproc_exit proc code s) e enough) [
      | inl stops ↦ inl stops
      | inr (u, over, empty, freed) ↦ inr (u, over, empty, λ some_thread. freed some_thread gone)
    ]
