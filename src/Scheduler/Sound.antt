-- ===== src/Scheduler/Sound.antt =====
-- The list of threads over all operations of kernel/src/arch/x86_64/scheduler/scheduler.c.
use creeper_os_v.Prelude.{
  ℕ, ◌-◌, ◌^◌, ◌≡◌, ◌≢◌, refl, sym, ap, ◌∙◌, subst, inl, inr, false, if◌then◌else◌, ◌==◌, List, [],
  ◌∷◌, arith, Bool-cases,
}
use creeper_os_v.Scheduler.{Tcb, Scheduler, write_tcb, hlist_del, is_zombie, no_stack}
use creeper_os_v.Scheduler.Pick.Rotation.{NotIn, In, NoDup}
use creeper_os_v.Scheduler.Exit.{_usthread_exit_locked, exit_threads, forget_stacks}

-- No thread is listed twice, and no listed thread has exited.
pub record IsSound (s : Scheduler) : Type 0 where
  pub once : NoDup s.threads
  pub live : (t : ℕ) → In t s.threads → is_zombie (s.tcbs t).state ≡ false

In-later : (a x : ℕ) (xs ys : List ℕ) → (In a xs → In a ys) → In a (x ∷ xs) → In a (x ∷ ys)
In-later a x xs ys f (inl e) = inl e
In-later a x xs ys f (inr i) = inr (f i)

hlist_del-In : (t a : ℕ) (xs : List ℕ) → In a (hlist_del t xs) → In a xs
unfolding hlist_del
hlist_del-In t a [] i = i
hlist_del-In t a (x ∷ xs) i = elim (Bool-cases (x == t)) [
  | inl hit ↦ inr (rw hit at i)
  | inr miss ↦ In-later a x _ _ (hlist_del-In t a xs) (rw miss at i)
]

NotIn-In : (a : ℕ) (xs : List ℕ) → NotIn a xs → In a xs → ⊥
NotIn-In a [] n i = i
NotIn-In a (x ∷ xs) (ne, n) (inl e) = ne e
NotIn-In a (x ∷ xs) (ne, n) (inr i) = NotIn-In a xs n i

hlist_del-NotIn : (t a : ℕ) (xs : List ℕ) → NotIn a xs → NotIn a (hlist_del t xs)
unfolding hlist_del
hlist_del-NotIn t a [] n = n
hlist_del-NotIn t a (x ∷ xs) (ne, n) = elim (Bool-cases (x == t)) [
  | inl hit ↦ rw hit n
  | inr miss ↦ rw miss (ne, hlist_del-NotIn t a xs n)
]

hlist_del-NoDup :
    (t : ℕ) (xs : List ℕ) → NoDup xs → NoDup (hlist_del t xs) × NotIn t (hlist_del t xs)
unfolding hlist_del
hlist_del-NoDup t [] d = (tt, tt)
hlist_del-NoDup t (x ∷ xs) (n, d) =
    let rest = hlist_del-NoDup t xs d in
    elim (Bool-cases (x == t)) [
      | inl hit ↦
          let x_is : x ≡ t = ground arith in (rw hit d, rw hit (subst (λ y. NotIn y xs) x_is n))
      | inr miss ↦
          let ne : x ≢ t = λ e. ground arith in
          (rw miss (hlist_del-NotIn t x xs n, rest.0), rw miss (ne, rest.1))
    ]

-- The list and the states are as they were.
pub record Keeps (s t : Scheduler) : Type 0 where
  pub list : t.threads ≡ s.threads
  pub states : (a : ℕ) → (t.tcbs a).state ≡ (s.tcbs a).state

pub Keeps-IsSound : {s t : Scheduler} → Keeps s t → IsSound s → IsSound t
Keeps-IsSound {s} {t} k v = record {
  once = rw k.list v.once;
  live = λ a i. ap is_zombie (k.states a) ∙ v.live a (rw k.list at i);
}

pub Keeps-trans : {s t u : Scheduler} → Keeps s t → Keeps t u → Keeps s u
Keeps-trans k l = record { list = l.list ∙ k.list; states = λ a. l.states a ∙ k.states a }

pub Keeps-refl : (s : Scheduler) → Keeps s s
Keeps-refl s = record { list = refl; states = λ a. refl }

pub write_tcb-Keeps :
    (t : ℕ) (new : Tcb) (s : Scheduler) → new.state ≡ (s.tcbs t).state → Keeps s (write_tcb t new s)
write_tcb-Keeps t new s e = record {
  list = refl;
  states = λ a. elim (Bool-cases (a == t)) [
    | inl hit ↦
        let a_is : a ≡ t = ground arith in rw hit (e ∙ ap (λ b. (s.tcbs b).state) (sym a_is))
    | inr miss ↦ rw miss refl
  ];
}

pub forget_stacks-Keeps : (ts : List ℕ) (s : Scheduler) → Keeps s (forget_stacks ts s)
unfolding forget_stacks
forget_stacks-Keeps [] s = Keeps-refl s
forget_stacks-Keeps (t ∷ ts) s =
    Keeps-trans (write_tcb-Keeps t (record (s.tcbs t) { user_stack = no_stack }) s refl)
      (forget_stacks-Keeps ts _)

pub exit_locked-IsSound :
    (t code : ℕ) (s : Scheduler) → IsSound s → IsSound (_usthread_exit_locked t code s)
unfolding _usthread_exit_locked
exit_locked-IsSound t code s v =
    let gone = hlist_del-NoDup t s.threads v.once in
    record {
      once = gone.0;
      live = λ a i. elim (Bool-cases (a == t)) [
        | inl hit ↦
            let a_is : a ≡ t = ground arith in
            absurd (
              NotIn-In t (hlist_del t s.threads) gone.1
                (subst (λ b. In b (hlist_del t s.threads)) a_is i))
        | inr miss ↦ rw miss (v.live a (hlist_del-In t a s.threads i))
      ];
    }

pub exit_threads-IsSound :
    (ts : List ℕ) (code : ℕ) (s : Scheduler) → IsSound s → IsSound (exit_threads ts code s)
unfolding exit_threads
exit_threads-IsSound [] code s v = v
exit_threads-IsSound (t ∷ ts) code s v =
    exit_threads-IsSound ts code _ (elim (Bool-cases (is_zombie (s.tcbs t).state)) [
      | inl ended ↦ rw ended v
      | inr runs ↦
          rw runs (exit_locked-IsSound t (if t == s.current_thread then code else 2 ^ 32 - 1) s v)
    ])
