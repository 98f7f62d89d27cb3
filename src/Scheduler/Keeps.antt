-- ===== src/Scheduler/Keeps.antt =====
-- What reaping leaves as it was: kernel/src/arch/x86_64/scheduler/scheduler.c.
use creeper_os_v.Prelude.{
  ℕ, ◌/◌, ◌≡◌, refl, sym, subst, ◌⊎◌, inl, inr, Bool, true, false, if◌then◌else◌, ◌==◌, ◌||◌, List,
  [], ◌∷◌, Bool-cases,
}
use creeper_os_v.Outcome.{Outcome, returns, ◌>>=◌, >>=-returns}
use creeper_os_v.Scheduler.{Scheduler, is_zombie, no_stack}
use creeper_os_v.Vma.{FreeList, kvma_free}
use creeper_os_v.Scheduler.Exit.{
  Status, ok, failed, free_user_stack, page_kfree, pages_freed, thread_freed, drop_process,
  reap_us_proc, unlist_thread, reap_if_empty, reap_us_thread,
}
use creeper_os_v.Scheduler.Sound.{Keeps, Keeps-trans, Keeps-refl, write_tcb-Keeps}

pub free_user_stack-Keeps : (t : ℕ) (s : Scheduler) → Keeps s (free_user_stack t s)
unfolding free_user_stack
free_user_stack-Keeps t s = elim (Bool-cases ((s.tcbs t).user_stack.top == 0)) [
  | inl bare ↦ rw bare (Keeps-refl s)
  | inr some_stack ↦
      let k = write_tcb-Keeps t (record (s.tcbs t) { user_stack = no_stack }) s refl in
      rw some_stack (record { list = refl; states = k.states })
]

drop_process-Keeps : (proc : ℕ) (s : Scheduler) → Keeps s (drop_process proc s)
unfolding drop_process
drop_process-Keeps proc s = elim (Bool-cases ((s.pcbs proc).parent == 0)) [
  | inl root ↦ record { list = rw root refl; states = λ a. rw root refl }
  | inr has_parent ↦ record { list = rw has_parent refl; states = λ a. rw has_parent refl }
]

pub reap_us_proc-Keeps : (proc : ℕ) (s : Scheduler) → Keeps s (reap_us_proc proc s).1
unfolding reap_us_proc
reap_us_proc-Keeps proc s = elim (Bool-cases ((proc == 0) || (proc == s.kernel_proc))) [
  | inl refused ↦ rw refused (Keeps-refl s)
  | inr user ↦ elim (Bool-cases (is_zombie (s.pcbs proc).state)) [
    | inr runs ↦ rw (user, runs) (Keeps-refl s)
    | inl ended ↦ rw (user, ended) (by_threads (s.pcbs proc).threads)
  ]
]
  where
    by_threads :
        (ts : List ℕ)
        → Keeps s
            (elim ts as (λ x. Status × Scheduler) [
              | t ∷ ts ↦ (failed, s)
              | [] ↦ (ok, drop_process proc s)
            ]).1
    by_threads [] = drop_process-Keeps proc s
    by_threads (t ∷ ts) = Keeps-refl s

Keeps-if : {s t : Scheduler} (b : Bool) → Keeps s t → Keeps s (if b then t else s)
Keeps-if {s} true k = k
Keeps-if {s} false k = Keeps-refl s

reap_if_empty-Keeps : (proc : ℕ) (s : Scheduler) → Keeps s (reap_if_empty proc s)
unfolding reap_if_empty
reap_if_empty-Keeps proc s = by_threads (s.pcbs proc).threads
  where
    by_threads :
        (ts : List ℕ)
        → Keeps s (elim ts as (λ x. Scheduler) [
          | t ∷ ts ↦ s
          | [] ↦ if is_zombie (s.pcbs proc).state then (reap_us_proc proc s).1 else s
        ])
    by_threads (t ∷ ts) = Keeps-refl s
    by_threads [] = Keeps-if (is_zombie (s.pcbs proc).state) (reap_us_proc-Keeps proc s)

pages_freed-Keeps :
    (va count : ℕ) (s : Scheduler) (vma : FreeList) → Keeps s (pages_freed va count s vma)
unfolding pages_freed
pages_freed-Keeps va count s vma = record { list = refl; states = λ a. refl }

page_kfree-Keeps :
    (va count : ℕ) (s : Scheduler) {u : Scheduler} → page_kfree va count s ≡ returns u → Keeps s u
unfolding page_kfree
page_kfree-Keeps va count s {u} e =
    let (vma, ran, ends) =
      >>=-returns (kvma_free va count s.vma) (λ vma. returns (pages_freed va count s vma)) e in
    let u_is : pages_freed va count s vma ≡ u = cc ends in
    subst (Keeps s) u_is (pages_freed-Keeps va count s vma)

unlist_thread-Keeps : (t : ℕ) (s : Scheduler) → Keeps s (unlist_thread t s)
unfolding unlist_thread
unlist_thread-Keeps t s = record { list = refl; states = λ a. refl }

thread_freed-Keeps :
    (t proc : ℕ) (s : Scheduler) {status : Status} {u : Scheduler}
    → thread_freed t proc s ≡ returns (status, u)
    → Keeps s u
unfolding thread_freed
thread_freed-Keeps t proc s {status} {u} e =
    let freed : Scheduler = record s { freed = t ∷ s.freed } in
    let u_is : reap_if_empty proc freed ≡ u = cc e in
    subst (Keeps s) u_is
      (Keeps-trans (record { list = refl; states = λ a. refl }) (reap_if_empty-Keeps proc freed))

-- The ways a reaping ends that comes back.
reap_cases :
    (refused alive : Bool) (m : Outcome Scheduler) (f : Scheduler → Outcome (Status × Scheduler))
    (s u : Scheduler) (status : Status)
    → (if refused then returns (failed, s) else if alive then returns (failed, s) else (m >>= f))
      ≡ returns (status, u)
    → (u ≡ s) ⊎ ((w : Scheduler) × (m ≡ returns w) × (f w ≡ returns (status, u)))
reap_cases true alive m f s u status e = inl (cc e)
reap_cases false true m f s u status e = inl (cc e)
reap_cases false false m f s u status e = inr (>>=-returns m f e)

pub reap_us_thread-Keeps :
    (t : ℕ) (status : Status) (s : Scheduler) {u : Scheduler}
    → reap_us_thread t s ≡ returns (status, u)
    → Keeps s u
unfolding reap_us_thread
reap_us_thread-Keeps t status s {u} e =
    elim (reap_cases _ _
      (page_kfree (s.tcbs t).kernel_stack.top ((s.tcbs t).kernel_stack.size / 4096)
        (unlist_thread t s))
      (thread_freed t (s.tcbs t).process) s u status e) [
        | inl same ↦ subst (Keeps s) (sym same) (Keeps-refl s)
        | inr (w, pages, ends) ↦ Keeps-trans (unlist_thread-Keeps t s) (
            Keeps-trans (page_kfree-Keeps _ _ (unlist_thread t s) pages)
              (thread_freed-Keeps t (s.tcbs t).process w ends))
      ]
