-- ===== src/Scheduler/Pick/Turns.antt =====
-- Every runnable thread gets its turn, and when the choice of `sched_next_process_core` in
-- kernel/src/arch/x86_64/scheduler/scheduler.c does not end.
use creeper_os_v.Prelude.{
  ℕ, zero, suc, ◌+◌, ◌*◌, ◌≤◌, ◌<◌, ◌≡◌, ◌≢◌, refl, sym, ap, ◌∙◌, subst, ◌⊎◌, inl, inr, Bool, true,
  false, Option, none, some, List, [], ◌∷◌, ◌++◌, append-nil, append_assoc, length, length-append,
  arith, Bool-cases,
}
use creeper_os_v.Scheduler.Pick.{next_nodes, pick_loop, pick}
use creeper_os_v.Scheduler.Pick.Rotation.{
  NotIn, In, In-swap, NotIn-++, NoDup, In-split, Ring, Ring-turn,
}
use creeper_os_v.Scheduler.Pick.Laws.{first_runnable, not_equal, pick_loop-wrap, pick-Ring}

-- The current thread after `n` choices, with the list and the states as they are.
unfoldable pub turn : (n : ℕ) → (runnable : ℕ → Bool) → (current : ℕ) → List ℕ → Option ℕ
turn zero runnable current threads = some current
turn (suc n) runnable current threads = elim (pick runnable current threads) [
  | none ↦ none
  | some next ↦ turn n runnable next threads
]

-- Either nothing in front of a runnable thread is runnable, or the choice falls on one in front of it.
first_runnable-split :
    (runnable : ℕ → Bool) (d t : ℕ) (us vs : List ℕ)
    → runnable t ≡ true
    → (first_runnable runnable d (us ++ (t ∷ vs)) ≡ t)
      ⊎ ((x : ℕ) × (us1 : List ℕ) × (us2 : List ℕ) × (us ≡ us1 ++ (x ∷ us2))
          × (first_runnable runnable d (us ++ (t ∷ vs)) ≡ x))
unfolding first_runnable
first_runnable-split runnable d t [] vs it_is = inl (rw it_is refl)
first_runnable-split runnable d t (u ∷ us) vs it_is = elim (Bool-cases (runnable u)) [
  | inl hit ↦ inr (u, [], us, refl, rw hit refl)
  | inr miss ↦ elim (first_runnable-split runnable d t us vs it_is) [
    | inl e ↦ inl (rw miss e)
    | inr (x, us1, us2, e, f) ↦ inr (x, u ∷ us1, us2, ap (λ l. u ∷ l) e, rw miss f)
  ]
]

turn-suc :
    (n : ℕ) (runnable : ℕ → Bool) (c d : ℕ) (threads : List ℕ)
    → pick runnable c threads ≡ some d
    → turn (suc n) runnable c threads ≡ turn n runnable d threads
unfolding turn
turn-suc n runnable c d threads e = rw (turn, e) refl

-- With fewer than `k` threads in front of it, a runnable thread is current after at most `k` choices.
turn-reaches :
    (k : ℕ) (runnable : ℕ → Bool) (c t : ℕ) (threads us vs : List ℕ)
    → runnable t ≡ true
    → Ring threads (c ∷ (us ++ (t ∷ vs)))
    → length us < k
    → (n : ℕ) × (n ≤ k) × (turn n runnable c threads ≡ some t)
unfolding turn
turn-reaches zero runnable c t threads us vs it_is r near = absurd (omega (arith, near))
turn-reaches (suc k) runnable c t threads us vs it_is r near =
    let picks = pick-Ring runnable c threads (us ++ (t ∷ vs)) r in
    elim (first_runnable-split runnable c t us vs it_is) [
      | inl e ↦ (1, omega arith, turn-suc 0 runnable c t threads (picks ∙ ap some e))
      | inr (x, us1, us2, split, e) ↦
          let shape : c ∷ (us ++ (t ∷ vs)) ≡ (c ∷ us1) ++ (x ∷ (us2 ++ (t ∷ vs))) =
            ap (λ l. c ∷ (l ++ (t ∷ vs))) split
            ∙ ap (λ l. c ∷ l) (append_assoc us1 (x ∷ us2) (t ∷ vs)) in
          let turned =
            Ring-turn threads (c ∷ us1) (x ∷ (us2 ++ (t ∷ vs))) (subst (Ring threads) shape r) in
          let again =
            subst (Ring threads) (ap (λ l. x ∷ l) (append_assoc us2 (t ∷ vs) (c ∷ us1))) turned in
          let count : length us ≡ length us1 + suc (length us2) =
            ap length split ∙ length-append us1 (x ∷ us2) in
          let (n, bound, later) =
            turn-reaches k runnable x t threads us2 (vs ++ (c ∷ us1)) it_is again
              (omega (arith, near, count)) in
          (suc n, omega (arith, bound), turn-suc n runnable c x threads (picks ∙ ap some e) ∙ later)
    ]

Ring-start : (threads : List ℕ) → NoDup threads → Ring threads threads
Ring-start threads once = record {
  rotates = record { front = []; back = threads; whole = refl; turned = sym (append-nil threads) };
  once = once;
}

turn-Ring :
    (runnable : ℕ → Bool) (c t : ℕ) (threads queue : List ℕ)
    → Ring threads (c ∷ queue)
    → In t (c ∷ queue)
    → runnable t ≡ true
    → (n : ℕ) × (n ≤ length queue) × (turn n runnable c threads ≡ some t)
unfolding turn
turn-Ring runnable c t threads queue r (inl e) it_is = (0, omega arith, ap some e)
turn-Ring runnable c t threads queue r (inr later) it_is =
    let (us, vs, parts) = In-split t queue later in
    let r' = subst (λ q. Ring threads (c ∷ q)) parts r in
    let (n, bound, reached) =
      turn-reaches (length us + 1) runnable c t threads us vs it_is r' (omega arith) in
    let count : length queue ≡ length us + suc (length vs) =
      ap length parts ∙ length-append us (t ∷ vs) in
    (n, omega (arith, bound, count), reached)

-- In a list without repetition that has the current thread and a runnable one, the runnable thread is the
-- current one after fewer choices than the list has threads, with the list and the states unchanged.
pub turn-fair :
    (runnable : ℕ → Bool) (c t : ℕ) (threads : List ℕ)
    → NoDup threads
    → In c threads
    → In t threads
    → runnable t ≡ true
    → (n : ℕ) × (n < length threads) × (turn n runnable c threads ≡ some t)
turn-fair runnable c t threads once c_in t_in it_is =
    let (before, behind, split) = In-split c threads c_in in
    let ring =
      Ring-turn threads before (c ∷ behind)
        (subst (Ring threads) split (Ring-start threads once)) in
    let t_in' = In-swap t before (c ∷ behind) (subst (In t) split t_in) in
    let (n, bound, reached) = turn-Ring runnable c t threads (behind ++ before) ring t_in' it_is in
    let count : length threads ≡ length before + suc (length behind) =
      ap length split ∙ length-append before (c ∷ behind) in
    (n, omega (arith, bound, count, length-append behind before), reached)

next_nodes-absent : (c : ℕ) (threads : List ℕ) → NotIn c threads → next_nodes c threads ≡ []
unfolding next_nodes
next_nodes-absent c [] away = refl
next_nodes-absent c (t ∷ ts) (ne, away) = rw (not_equal t c ne) (next_nodes-absent c ts away)

-- No thread of the list is runnable.
abbrev pub NoneRuns : (ℕ → Bool) → List ℕ → Type 0
NoneRuns runnable threads = (t : ℕ) → In t threads → runnable t ≡ false

pick_loop-hangs :
    (rounds : ℕ) (runnable : ℕ → Bool) (c t : ℕ) (ts node : List ℕ)
    → NotIn c (t ∷ ts)
    → NoneRuns runnable (t ∷ ts)
    → ((a : ℕ) → In a node → In a (t ∷ ts))
    → NotIn c node
    → pick_loop rounds runnable c (t ∷ ts) node ≡ none
unfolding pick_loop
pick_loop-hangs zero runnable c t ts node away idle part apart = refl
pick_loop-hangs (suc rounds) runnable c t ts [] away idle part apart =
    rw (idle t (inl refl), not_equal t c away.0)
      (pick_loop-hangs rounds runnable c t ts ts away idle (λ a i. inr i) away.1)
pick_loop-hangs (suc rounds) runnable c t ts (x ∷ node) away idle part (ne, apart) =
    rw (idle x (part x (inl refl)), not_equal x c ne)
      (pick_loop-hangs rounds runnable c t ts node away idle (λ a i. part a (inr i)) apart)

pick_loop-absent :
    (runnable : ℕ → Bool) (c t : ℕ) (rounds : ℕ) (threads before behind : List ℕ)
    → NotIn c before
    → runnable t ≡ true
    → length before < rounds
    → (x : ℕ) × (pick_loop rounds runnable c threads (before ++ (t ∷ behind)) ≡ some x)
      × (runnable x ≡ true)
unfolding pick_loop
pick_loop-absent runnable c t zero threads before behind away it_is enough =
    absurd (omega (arith, enough))
pick_loop-absent runnable c t (suc rounds) threads [] behind away it_is enough =
    (t, rw it_is refl, it_is)
pick_loop-absent runnable c t (suc rounds) threads (x ∷ before) behind (ne, away) it_is enough =
    elim (Bool-cases (runnable x)) [
      | inl hit ↦ (x, rw hit refl, hit)
      | inr miss ↦
          let (y, e, runs) =
            pick_loop-absent runnable c t rounds threads before behind away it_is
              (omega (arith, enough)) in
          (y, rw (miss, not_equal x c ne) e, runs)
    ]

pick-absent :
    (runnable : ℕ → Bool) (c t : ℕ) (threads : List ℕ)
    → NotIn c threads
    → In t threads
    → runnable t ≡ true
    → (x : ℕ) × (pick runnable c threads ≡ some x) × (runnable x ≡ true)
unfolding pick
pick-absent runnable c t threads away t_in it_is =
    let (before, behind, split) = In-split t threads t_in in
    let away' = NotIn-++ c before (t ∷ behind) (subst (NotIn c) split away) in
    let count : length threads ≡ length before + suc (length behind) =
      ap length split ∙ length-append before (t ∷ behind) in
    let (x, ends, runs) =
      pick_loop-absent runnable c t (2 * length threads + 2) threads before behind away'.0 it_is
        (omega (arith, count)) in
    let rounds : 2 * length threads + 2 ≡ suc (2 * length threads + 1) = omega arith in
    let wraps : pick_loop (2 * length threads + 2) runnable c threads []
        ≡ pick_loop (2 * length threads + 2) runnable c threads threads =
      subst (λ k. pick_loop k runnable c threads [] ≡ pick_loop k runnable c threads threads)
        (sym rounds) (pick_loop-wrap (2 * length threads + 1) runnable c threads) in
    (
      x,
      ap (pick_loop (2 * length threads + 2) runnable c threads) (next_nodes-absent c threads away)
          ∙ wraps
          ∙ ap (pick_loop (2 * length threads + 2) runnable c threads) split
          ∙ ends,
      runs,
    )

pick-hangs :
    (rounds : ℕ) (runnable : ℕ → Bool) (c : ℕ) (threads : List ℕ)
    → threads ≢ []
    → NotIn c threads
    → NoneRuns runnable threads
    → pick_loop rounds runnable c threads [] ≡ none
pick-hangs rounds runnable c [] some_thread away idle = absurd (some_thread refl)
pick-hangs rounds runnable c (t ∷ ts) some_thread away idle =
    pick_loop-hangs rounds runnable c t ts [] away idle (λ a i. elim i [ ]) tt

-- A current thread that is not listed, as one that has exited: if a listed thread is runnable, the choice
-- ends with a runnable thread; if none is and the list is not empty, the loop never ends, however many
-- rounds it is given.
pub pick-unlisted :
    (runnable : ℕ → Bool) (c : ℕ) (threads : List ℕ)
    → NotIn c threads
    → ((t : ℕ)
        → In t threads
        → runnable t ≡ true
        → (x : ℕ) × (pick runnable c threads ≡ some x) × (runnable x ≡ true))
      × (threads ≢ []
          → NoneRuns runnable threads
          → (rounds : ℕ) → pick_loop rounds runnable c threads (next_nodes c threads) ≡ none)
unfolding pick
pick-unlisted runnable c threads away = (
  λ t t_in it_is. pick-absent runnable c t threads away t_in it_is,
  λ some_thread idle rounds.
      ap (pick_loop rounds runnable c threads) (next_nodes-absent c threads away)
      ∙ pick-hangs rounds runnable c threads some_thread away idle,
)
