-- ===== src/Scheduler/Reap/One.antt =====
-- Reaping one thread of a process: `reap_us_thread` of kernel/src/arch/x86_64/scheduler/scheduler.c.
use creeper_os_v.Prelude.{
  ℕ, ◌/◌, ◌≡◌, ◌≢◌, refl, sym, ap, ◌∙◌, subst, ◌⊎◌, inl, inr, true, false, ◌==◌, ◌||◌, List, [],
  ◌∷◌, arith, Bool-cases,
}
use creeper_os_v.Outcome.{Outcome, returns, panics, ◌>>=◌}
use creeper_os_v.Vma.{FreeList, kvma_free}
use creeper_os_v.Scheduler.{Scheduler, hlist_del, is_zombie}
use creeper_os_v.Scheduler.Pick.Rotation.{In}
use creeper_os_v.Scheduler.Exit.{
  ok, page_kfree, pages_freed, thread_freed, drop_process, reap_us_proc, unlist_thread,
  reap_if_empty, reap_us_thread,
}

-- Every listed thread of the process has exited, and belongs to it.
pub record Ended (proc : ℕ) (ts : List ℕ) (s : Scheduler) : Type 0 where
  pub user : ((proc == 0) || (proc == s.kernel_proc)) ≡ false
  pub listed : (s.pcbs proc).threads ≡ ts
  pub block : (t : ℕ) → In t ts → t ≢ 0
  pub owner : (t : ℕ) → In t ts → (s.tcbs t).process ≡ proc
  pub ended : (t : ℕ) → In t ts → is_zombie (s.tcbs t).state ≡ true

-- What reaping the first thread leaves.
pub record Reaped (proc : ℕ) (ts : List ℕ) (s u : Scheduler) : Type 0 where
  pub ended : Ended proc ts u
  pub state : (u.pcbs proc).state ≡ (s.pcbs proc).state
  pub last : ts ≡ [] → is_zombie (s.pcbs proc).state ≡ true → In proc u.freed

Outcome-cases : {A : Type 0} (m : Outcome A) → (m ≡ panics) ⊎ ((a : A) × (m ≡ returns a))
Outcome-cases panics = inl refl
Outcome-cases (returns a) = inr (a, refl)

hlist_del-first : (t : ℕ) (ts : List ℕ) → hlist_del t (t ∷ ts) ≡ ts
unfolding hlist_del
hlist_del-first t ts = let first : (t == t) ≡ true = ground arith in rw first refl

-- Without its first thread.
unlisted-Ended :
    (proc t : ℕ) (ts : List ℕ) (s : Scheduler)
    → Ended proc (t ∷ ts) s
    → Ended proc ts (unlist_thread t s)
      × (((unlist_thread t s).pcbs proc).state ≡ (s.pcbs proc).state)
unfolding unlist_thread hlist_del
unlisted-Ended proc t ts s e =
    let own = e.owner t (inl refl) in
    let here : (proc == (s.tcbs t).process) ≡ true = ground (arith, own) in
    let list : (s.pcbs (s.tcbs t).process).threads ≡ t ∷ ts =
      ap (λ p. (s.pcbs p).threads) own ∙ e.listed in
    (
      record {
        user = e.user;
        listed = rw here (ap (hlist_del t) list ∙ hlist_del-first t ts);
        block = λ a i. e.block a (inr i);
        owner = λ a i. e.owner a (inr i);
        ended = λ a i. e.ended a (inr i);
      },
      rw here (ap (λ p. (s.pcbs p).state) own),
    )

-- The three ends of `reap_if_empty`.
reap_if_empty-some :
    (proc t : ℕ) (ts : List ℕ) (s : Scheduler)
    → (s.pcbs proc).threads ≡ t ∷ ts
    → reap_if_empty proc s ≡ s
unfolding reap_if_empty
reap_if_empty-some proc t ts s e = rw (reap_if_empty, e) refl

reap_us_proc-drops :
    (proc : ℕ) (s : Scheduler)
    → (s.pcbs proc).threads ≡ []
    → ((proc == 0) || (proc == s.kernel_proc)) ≡ false
    → is_zombie (s.pcbs proc).state ≡ true
    → (reap_us_proc proc s).1 ≡ drop_process proc s
unfolding reap_us_proc
reap_us_proc-drops proc s none_left user gone = rw (reap_us_proc, user, gone, none_left) refl

reap_if_empty-none :
    (proc : ℕ) (s : Scheduler)
    → (s.pcbs proc).threads ≡ []
    → ((proc == 0) || (proc == s.kernel_proc)) ≡ false
    → (is_zombie (s.pcbs proc).state ≡ false × (reap_if_empty proc s ≡ s))
      ⊎ (reap_if_empty proc s ≡ drop_process proc s)
unfolding reap_if_empty
reap_if_empty-none proc s none_left user = elim (Bool-cases (is_zombie (s.pcbs proc).state)) [
  | inl gone ↦
      inr rw (reap_if_empty, none_left, gone) (reap_us_proc-drops proc s none_left user gone)
  | inr lives ↦ inl (lives, rw (reap_if_empty, none_left, lives) refl)
]

-- Dropping a process leaves all lists of threads, and the states.
drop_process-pcbs :
    (proc p : ℕ) (s : Scheduler)
    → (((drop_process proc s).pcbs p).threads ≡ (s.pcbs p).threads)
      × (((drop_process proc s).pcbs p).state ≡ (s.pcbs p).state)
unfolding drop_process
drop_process-pcbs proc p s = elim (Bool-cases ((s.pcbs proc).parent == 0)) [
  | inl root ↦ (rw root refl, rw root refl)
  | inr has_parent ↦ elim (Bool-cases (p == (s.pcbs proc).parent)) [
    | inl hit ↦
        let p_is : (s.pcbs proc).parent ≡ p = ground arith in
        (
          rw (has_parent, hit) (ap (λ q. (s.pcbs q).threads) p_is),
          rw (has_parent, hit) (ap (λ q. (s.pcbs q).state) p_is),
        )
    | inr miss ↦ (rw (has_parent, miss) refl, rw (has_parent, miss) refl)
  ]
]

drop_process-freed :
    (proc : ℕ) (s : Scheduler)
    → In proc (drop_process proc s).freed × ((drop_process proc s).kernel_proc ≡ s.kernel_proc)
unfolding drop_process
drop_process-freed proc s = elim (Bool-cases ((s.pcbs proc).parent == 0)) [
  | inl root ↦ (inl refl, rw root refl)
  | inr has_parent ↦ (inl refl, rw has_parent refl)
]

-- The process goes with its last thread, if it has exited.
freed-Reaped :
    (proc : ℕ) (ts : List ℕ) (s w : Scheduler)
    → Ended proc ts w
    → (w.pcbs proc).state ≡ (s.pcbs proc).state
    → Reaped proc ts s (reap_if_empty proc w)
freed-Reaped proc (t ∷ ts) s w e same =
    rw (reap_if_empty-some proc t ts w e.listed)
      (record { ended = e; state = same; last = λ none_left gone. absurd (cc none_left) })
freed-Reaped proc [] s w e same = elim (reap_if_empty-none proc w e.listed e.user) [
  | inl (lives, stays) ↦
      rw stays (record {
        ended = e;
        state = same;
        last = λ none_left gone. absurd (cc (lives, same, gone));
      })
  | inr drops ↦
      let (list, state) = drop_process-pcbs proc proc w in
      let (freed, kernel) = drop_process-freed proc w in
      rw drops (record {
        ended = record {
          user = rw kernel e.user;
          listed = list ∙ e.listed;
          block = λ a i. elim i [ ];
          owner = λ a i. elim i [ ];
          ended = λ a i. elim i [ ];
        };
        state = state ∙ same;
        last = λ none_left gone. freed;
      })
]

pages_freed-Ended :
    (proc : ℕ) (ts : List ℕ) (va count : ℕ) (s : Scheduler) (vma : FreeList) (t : ℕ)
    → Ended proc ts s
    → Ended proc ts
        (record (pages_freed va count s vma) { freed = t ∷ (pages_freed va count s vma).freed })
      × ((pages_freed va count s vma).pcbs ≡ s.pcbs)
unfolding pages_freed
pages_freed-Ended proc ts va count s vma t e = (
  record { user = e.user; listed = e.listed; block = e.block; owner = e.owner; ended = e.ended },
  refl,
)

reap_accepted :
    (t : ℕ) (s : Scheduler)
    → ((t == 0) || (((s.tcbs t).process == 0) || ((s.tcbs t).process == s.kernel_proc))) ≡ false
    → is_zombie (s.tcbs t).state ≡ true
    → reap_us_thread t s ≡ (
        page_kfree
          (s.tcbs t).kernel_stack.top
          ((s.tcbs t).kernel_stack.size / 4096)
          (unlist_thread t s)
        >>= thread_freed t (s.tcbs t).process)
unfolding reap_us_thread
reap_accepted t s accepted gone = rw (reap_us_thread, accepted, gone) refl

page_kfree-ends :
    (va count : ℕ) (s : Scheduler) (m : Outcome FreeList)
    → kvma_free va count s.vma ≡ m
    → page_kfree va count s ≡ (m >>= λ vma. returns (pages_freed va count s vma))
unfolding page_kfree
page_kfree-ends va count s m e = ap (λ n. n >>= λ vma. returns (pages_freed va count s vma)) e

-- Reaping the first thread, unless kvma_free stops.
pub reap_first :
    (proc t : ℕ) (ts : List ℕ) (s : Scheduler)
    → Ended proc (t ∷ ts) s
    → (reap_us_thread t s ≡ panics)
      ⊎ ((u : Scheduler) × (reap_us_thread t s ≡ returns (ok, u)) × Reaped proc ts s u)
unfolding thread_freed
reap_first proc t ts s e =
    let own = e.owner t (inl refl) in
    let top = (s.tcbs t).kernel_stack.top in
    let count = (s.tcbs t).kernel_stack.size / 4096 in
    let accepted : ((t == 0)
          || (((s.tcbs t).process == 0) || ((s.tcbs t).process == s.kernel_proc)))
        ≡ false =
      ground (arith, own, e.user, e.block t (inl refl)) in
    let starts = reap_accepted t s accepted (e.ended t (inl refl)) in
    let (e', same) = unlisted-Ended proc t ts s e in
    elim (Outcome-cases (kvma_free top count (unlist_thread t s).vma)) [
      | inl stops ↦ inl (
          starts
          ∙ ap (λ m. m >>= thread_freed t (s.tcbs t).process)
              (page_kfree-ends top count (unlist_thread t s) panics stops))
      | inr (vma, ran) ↦
          let (e'', pcbs) = pages_freed-Ended proc ts top count (unlist_thread t s) vma t e' in
          let w : Scheduler = record (pages_freed top count (unlist_thread t s) vma) {
            freed = t ∷ (pages_freed top count (unlist_thread t s) vma).freed;
          } in
          inr (
            reap_if_empty (s.tcbs t).process w,
            starts
                ∙ ap (λ m. m >>= thread_freed t (s.tcbs t).process)
                    (page_kfree-ends top count (unlist_thread t s) (returns vma) ran),
            subst (λ p. Reaped proc ts s (reap_if_empty p w)) (sym own)
                (freed-Reaped proc ts s w e'' (ap (λ f. (f proc).state) pcbs ∙ same)),
          )
    ]
