-- ===== src/Scheduler/Pick/Chosen.antt =====
-- What `sched_next_process_core` of kernel/src/arch/x86_64/scheduler/scheduler.c can choose.
use creeper_os_v.Prelude.{
  ℕ, zero, suc, ◌+◌, ◌*◌, ◌≡◌, refl, sym, ap, ◌∙◌, subst, ◌⊎◌, inl, inr, Bool, true, if◌then◌else◌,
  ◌==◌, Option, some, List, [], ◌∷◌, Bool-cases, length,
}
use creeper_os_v.Scheduler.Pick.{pick, pick_loop, next_nodes}
use creeper_os_v.Scheduler.Pick.Rotation.{In}

-- What a choice can be.
abbrev pub Chosen : (ℕ → Bool) → (c x : ℕ) → List ℕ → Type 0
Chosen runnable c x threads = (x ≡ c) ⊎ (In x threads × (runnable x ≡ true))

candidate-Chosen :
    (runnable : ℕ → Bool) (c x cand : ℕ) (threads : List ℕ) (later : Option ℕ)
    → In cand threads
    → (later ≡ some x → Chosen runnable c x threads)
    → (if runnable cand then some cand else if cand == c then some c else later) ≡ some x
    → Chosen runnable c x threads
candidate-Chosen runnable c x cand threads later listed rest e = elim (Bool-cases (runnable cand)) [
  | inl it_is ↦
      let this : some cand ≡ some x = rw it_is at e in
      let x_is : cand ≡ x = cc this in
      inr (subst (λ y. In y threads) x_is listed, ap runnable (sym x_is) ∙ it_is)
  | inr waits ↦ elim (Bool-cases (cand == c)) [
    | inl round ↦ let this : some c ≡ some x = rw (waits, round) at e in inl (cc this)
    | inr other ↦ rest (rw (waits, other) at e)
  ]
]

-- The loop gives the current thread, or a listed one that is runnable.
pick_loop-Chosen :
    (rounds : ℕ) (runnable : ℕ → Bool) (c x : ℕ) (threads node : List ℕ)
    → ((a : ℕ) → In a node → In a threads)
    → pick_loop rounds runnable c threads node ≡ some x
    → Chosen runnable c x threads
unfolding pick_loop
pick_loop-Chosen zero runnable c x threads node part e = absurd (cc e)
pick_loop-Chosen (suc rounds) runnable c x [] [] part e = inl (cc e)
pick_loop-Chosen (suc rounds) runnable c x (t ∷ ts) [] part e =
    candidate-Chosen runnable c x t (t ∷ ts) (pick_loop rounds runnable c (t ∷ ts) ts) (inl refl)
      (pick_loop-Chosen rounds runnable c x (t ∷ ts) ts (λ a i. inr i)) e
pick_loop-Chosen (suc rounds) runnable c x threads (y ∷ node) part e =
    candidate-Chosen runnable c x y threads (pick_loop rounds runnable c threads node)
      (part y (inl refl))
      (pick_loop-Chosen rounds runnable c x threads node (λ a i. part a (inr i))) e

next_nodes-In : (c a : ℕ) (threads : List ℕ) → In a (next_nodes c threads) → In a threads
unfolding next_nodes
next_nodes-In c a [] i = i
next_nodes-In c a (t ∷ ts) i = elim (Bool-cases (t == c)) [
  | inl hit ↦ inr (rw hit at i)
  | inr miss ↦ inr (next_nodes-In c a ts (rw miss at i))
]

pub pick-Chosen :
    (runnable : ℕ → Bool) (c x : ℕ) (threads : List ℕ)
    → pick runnable c threads ≡ some x
    → Chosen runnable c x threads
unfolding pick
pick-Chosen runnable c x threads e =
    pick_loop-Chosen (2 * length threads + 2) runnable c x threads (next_nodes c threads)
      (λ a i. next_nodes-In c a threads i) e
