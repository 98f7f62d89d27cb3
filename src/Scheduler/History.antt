-- ===== src/Scheduler/History.antt =====
-- Histories of threads that start, switch, exit and are reaped, in
-- kernel/src/arch/x86_64/scheduler/scheduler.c.
use creeper_os_v.Prelude.{
  ℕ, ◌≡◌, refl, sym, ap, ◌∙◌, subst, ◌⊎◌, inl, inr, true, false, ◌==◌, ◌||◌, some, ◌∷◌, Bool-cases,
}
use creeper_os_v.Outcome.{returns}
use creeper_os_v.Scheduler.{Scheduler, is_zombie, is_runnable}
use creeper_os_v.Scheduler.Pick.Rotation.{NotIn, In}
use creeper_os_v.Scheduler.Switch.{save_current, switch_to, sched_next_process_core}
use creeper_os_v.Scheduler.Resume.{switch-Ends, switch_to-current}
use creeper_os_v.Scheduler.Exit.{
  Status, list_thread, _usthread_exit_locked, usthread_exit, exit_threads, mark_ended,
  strip_process, forget_stacks, usproc_exit, reap_us_proc, reap_us_thread,
}
use creeper_os_v.Scheduler.Sound.{
  IsSound, Keeps, Keeps-IsSound, Keeps-trans, write_tcb-Keeps, forget_stacks-Keeps,
  exit_locked-IsSound, exit_threads-IsSound,
}
use creeper_os_v.Scheduler.Keeps.{free_user_stack-Keeps, reap_us_proc-Keeps, reap_us_thread-Keeps}
use creeper_os_v.Scheduler.Pick.Chosen.{pick-Chosen}

-- What can happen. A thread is listed once, and before it has exited.
pub data Event (s : Scheduler) : Scheduler → Type 0 where
  lists :
      (t : ℕ) → NotIn t s.threads → is_zombie (s.tcbs t).state ≡ false → Event s (list_thread t s)
  exits : (t exit_code : ℕ) → Event s (usthread_exit t exit_code s)
  ends_process : (proc exit_code : ℕ) → Event s (usproc_exit proc exit_code s)
  reaps :
      (t : ℕ) (status : Status) {u : Scheduler}
      → reap_us_thread t s ≡ returns (status, u)
      → Event s u
  drops : (proc : ℕ) → Event s (reap_us_proc proc s).1
  switches :
      (saved_rsp rsp : ℕ) {u : Scheduler}
      → sched_next_process_core saved_rsp s ≡ some (rsp, u)
      → Event s u

pub data Events (s : Scheduler) : Scheduler → Type 0 where
  begins : Events s s
  then_event : {t u : Scheduler} → Events s t → Event t u → Events s u

list_thread-IsSound :
    (t : ℕ) (s : Scheduler)
    → NotIn t s.threads
    → is_zombie (s.tcbs t).state ≡ false
    → IsSound s
    → IsSound (list_thread t s)
unfolding list_thread
list_thread-IsSound t s new lives v = record { once = (new, v.once); live = live_in }
  where
    live_in : (a : ℕ) → In a (t ∷ s.threads) → is_zombie (s.tcbs a).state ≡ false
    live_in a (inl e) = ap (λ b. is_zombie (s.tcbs b).state) (sym e) ∙ lives
    live_in a (inr i) = v.live a i

usthread_exit-IsSound : (t code : ℕ) (s : Scheduler) → IsSound s → IsSound (usthread_exit t code s)
unfolding usthread_exit
usthread_exit-IsSound t code s v =
    elim (Bool-cases ((t == 0) || ((s.tcbs t).process == s.kernel_proc))) [
      | inl refused ↦ rw refused v
      | inr user ↦ elim (Bool-cases (is_zombie (s.tcbs t).state)) [
        | inl ended ↦ rw (user, ended) v
        | inr runs ↦
            rw (user, runs)
              (Keeps-IsSound (free_user_stack-Keeps t (_usthread_exit_locked t code s))
                (exit_locked-IsSound t code s v))
      ]
    ]

mark_ended-Keeps : (proc code : ℕ) (s : Scheduler) → Keeps s (mark_ended proc code s)
unfolding mark_ended
mark_ended-Keeps proc code s = record { list = refl; states = λ a. refl }

strip_process-Keeps : (proc : ℕ) (s : Scheduler) → Keeps s (strip_process proc s)
unfolding strip_process
strip_process-Keeps proc s = record { list = refl; states = λ a. refl }

usproc_exit-IsSound :
    (proc code : ℕ) (s : Scheduler) → IsSound s → IsSound (usproc_exit proc code s)
unfolding usproc_exit
usproc_exit-IsSound proc code s v = elim (Bool-cases ((proc == 0) || (proc == s.kernel_proc))) [
  | inl refused ↦ rw refused v
  | inr user ↦ elim (Bool-cases (is_zombie (s.pcbs proc).state)) [
    | inl ended ↦ rw (user, ended) v
    | inr runs ↦
        let ts = (s.pcbs proc).threads in
        let marked = mark_ended proc code (exit_threads ts code s) in
        rw (user, runs)
          (Keeps-IsSound
            (Keeps-trans (mark_ended-Keeps proc code (exit_threads ts code s)) (
              Keeps-trans (forget_stacks-Keeps ts marked)
                (strip_process-Keeps proc (forget_stacks ts marked))))
            (exit_threads-IsSound ts code s v))
  ]
]

save_current-Keeps : (saved_rsp : ℕ) (s : Scheduler) → Keeps s (save_current saved_rsp s)
unfolding save_current
save_current-Keeps saved_rsp s = write_tcb-Keeps s.current_thread _ s refl

switch_to-Keeps : (next : ℕ) (s : Scheduler) → Keeps s (switch_to next s)
unfolding switch_to
switch_to-Keeps next s = record { list = refl; states = λ a. refl }

-- The next thread is the one that was current, or a listed one, which is runnable and has not exited.
abbrev pub GoesOn : (s u : Scheduler) → Type 0
GoesOn s u =
    (u.current_thread ≡ s.current_thread)
    ⊎ (In u.current_thread s.threads
        × (is_runnable (s.tcbs u.current_thread).state ≡ true)
        × (is_zombie (s.tcbs u.current_thread).state ≡ false))

switch-IsSound :
    (saved_rsp rsp : ℕ) (s u : Scheduler)
    → sched_next_process_core saved_rsp s ≡ some (rsp, u)
    → IsSound s
    → IsSound u × GoesOn s u
switch-IsSound saved_rsp rsp s u e v = elim (switch-Ends saved_rsp rsp s u e) [
  | inl (locked, same_rsp, same) ↦
      (subst IsSound (sym same) v, inl (ap (λ r. r.current_thread) same))
  | inr (next, picks, gives, goes) ↦
      let saved = save_current-Keeps saved_rsp s in
      let k = Keeps-trans saved (switch_to-Keeps next (save_current saved_rsp s)) in
      (
        subst IsSound (sym goes) (Keeps-IsSound k v),
        subst (GoesOn s) (sym goes) (elim (pick-Chosen _ _ next s.threads picks) [
          | inl stays ↦ inl (switch_to-current next (save_current saved_rsp s) ∙ stays)
          | inr (listed, runs) ↦ inr (
              subst
                (λ n.
                  In n s.threads
                  × (is_runnable (s.tcbs n).state ≡ true)
                  × (is_zombie (s.tcbs n).state ≡ false))
                (sym (switch_to-current next (save_current saved_rsp s)))
                (listed, ap is_runnable (sym (saved.states next)) ∙ runs, v.live next listed))
        ]),
      )
]

Event-IsSound : {s t : Scheduler} → Event s t → IsSound s → IsSound t
Event-IsSound {s} (lists t new live) v = list_thread-IsSound t s new live v
Event-IsSound {s} (exits t exit_code) v = usthread_exit-IsSound t exit_code s v
Event-IsSound {s} (ends_process proc exit_code) v = usproc_exit-IsSound proc exit_code s v
Event-IsSound {s} (reaps t status {u} e) v = Keeps-IsSound (reap_us_thread-Keeps t status s e) v
Event-IsSound {s} (drops proc) v = Keeps-IsSound (reap_us_proc-Keeps proc s) v
Event-IsSound {s} (switches saved_rsp rsp {u} e) v = (switch-IsSound saved_rsp rsp s u e v).0

reached-IsSound : {s t : Scheduler} → Events s t → IsSound s → IsSound t
reached-IsSound begins v = v
reached-IsSound (then_event before event) v = Event-IsSound event (reached-IsSound before v)

-- From a state in which no thread is listed twice and none that has exited is listed, and through all
-- events, in each of which a thread is listed only if it is not and has not exited, this stays so; and a
-- switch then goes on with the thread that was current, or with a listed one, which is runnable and has
-- not exited.
pub Events-IsSound :
    {s t : Scheduler}
    → IsSound s
    → Events s t
    → IsSound t
      × ((saved_rsp rsp : ℕ) (u : Scheduler)
          → sched_next_process_core saved_rsp t ≡ some (rsp, u)
          → GoesOn t u)
Events-IsSound {s} {t} v r =
    let w = reached-IsSound r v in
    (w, λ saved_rsp rsp u e. (switch-IsSound saved_rsp rsp t u e w).1)
