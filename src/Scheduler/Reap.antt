-- ===== src/Scheduler/Reap.antt =====
-- Reaping all threads of a process: `reap_us_proc_threads` of
-- kernel/src/arch/x86_64/scheduler/scheduler.c.
pub mod One
use creeper_os_v.Prelude.{
  ℕ, zero, suc, ◌/◌, ◌<◌, ◌≡◌, ◌≢◌, refl, sym, ap, ◌∙◌, subst, ◌⊎◌, inl, inr, true, false, ◌==◌,
  ◌||◌, some, List, [], ◌∷◌, arith, Bool-cases, length,
}
use creeper_os_v.Outcome.{Outcome, returns, panics, ◌>>=◌}
use creeper_os_v.Vma.{FreeList, kvma_free}
use creeper_os_v.Scheduler.{Scheduler, hlist_del, is_zombie}
use creeper_os_v.Scheduler.Pick.Rotation.{In}
use creeper_os_v.Scheduler.Exit.{
  ok, page_kfree, pages_freed, thread_freed, drop_process, reap_us_proc, unlist_thread,
  reap_if_empty, reap_us_thread, reap_us_proc_threads,
}
use creeper_os_v.Scheduler.Reap.One.{Ended, Reaped, reap_first}

-- One more round.
round_panics :
    (rounds proc t : ℕ) (ts : List ℕ) (s : Scheduler)
    → (s.pcbs proc).threads ≡ t ∷ ts
    → reap_us_thread t s ≡ panics
    → reap_us_proc_threads (suc rounds) proc s ≡ panics
unfolding reap_us_proc_threads
round_panics rounds proc t ts s listed stops = rw (reap_us_proc_threads, listed, stops) refl

round_returns :
    (rounds proc t : ℕ) (ts : List ℕ) (s : Scheduler) {u : Scheduler}
    → (s.pcbs proc).threads ≡ t ∷ ts
    → reap_us_thread t s ≡ returns (ok, u)
    → reap_us_proc_threads (suc rounds) proc s ≡ reap_us_proc_threads rounds proc u
unfolding reap_us_proc_threads
round_returns rounds proc t ts s listed ran = rw (reap_us_proc_threads, listed, ran) refl

none_left :
    (rounds proc : ℕ) (s : Scheduler)
    → (s.pcbs proc).threads ≡ []
    → reap_us_proc_threads (suc rounds) proc s ≡ returns (some s)
unfolding reap_us_proc_threads
none_left rounds proc s listed = rw (reap_us_proc_threads, listed) refl

-- For a process of the user whose listed threads all belong to it and have exited, with more rounds than
-- threads, the loop of `reap_us_proc_threads` ends, unless kvma_free panics, and then the process has no
-- thread left; and if it had one and has exited itself, its block went back to the heap.
pub reap_us_proc_threads-ends :
    (rounds proc : ℕ) (ts : List ℕ) (s : Scheduler)
    → Ended proc ts s
    → length ts < rounds
    → (reap_us_proc_threads rounds proc s ≡ panics)
      ⊎ ((u : Scheduler) × (reap_us_proc_threads rounds proc s ≡ returns (some u))
          × ((u.pcbs proc).threads ≡ [])
          × (ts ≢ [] → is_zombie (s.pcbs proc).state ≡ true → In proc u.freed))
reap_us_proc_threads-ends zero proc ts s e enough = absurd (omega (arith, enough))
reap_us_proc_threads-ends (suc rounds) proc [] s e enough =
    inr
      (s, none_left rounds proc s e.listed, e.listed, λ some_thread gone. absurd (some_thread refl))
reap_us_proc_threads-ends (suc zero) proc (t ∷ ts) s e enough = absurd (omega (arith, enough))
reap_us_proc_threads-ends (suc (suc rounds)) proc (t ∷ []) s e enough =
    elim (reap_first proc t [] s e) [
      | inl stops ↦ inl (round_panics (suc rounds) proc t [] s e.listed stops)
      | inr (u, ran, r) ↦ inr (
        u,
        round_returns (suc rounds) proc t [] s e.listed ran
            ∙ none_left rounds proc u r.ended.listed,
        r.ended.listed,
        λ some_thread gone. r.last refl gone,
      )
    ]
reap_us_proc_threads-ends (suc (suc rounds)) proc (t ∷ t2 ∷ ts) s e enough =
    elim (reap_first proc t (t2 ∷ ts) s e) [
      | inl stops ↦ inl (round_panics (suc rounds) proc t (t2 ∷ ts) s e.listed stops)
      | inr (u, ran, r) ↦
          let again = round_returns (suc rounds) proc t (t2 ∷ ts) s e.listed ran in
          elim (reap_us_proc_threads-ends (suc rounds) proc (t2 ∷ ts) u r.ended
            (omega (arith, enough))) [
              | inl stops ↦ inl (again ∙ stops)
              | inr (v, over, empty, freed) ↦ inr (
                v,
                again ∙ over,
                empty,
                λ some_thread gone. freed (λ q. absurd (cc q)) (ap is_zombie r.state ∙ gone),
              )
            ]
    ]
