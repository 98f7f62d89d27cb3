-- ===== src/Scheduler/Pick/Laws.antt =====
-- The threads take turns: the choice of `sched_next_process_core` in
-- kernel/src/arch/x86_64/scheduler/scheduler.c.
use creeper_os_v.Prelude.{
  ℕ, zero, suc, ◌+◌, ◌*◌, ◌≡◌, ◌≢◌, refl, sym, ap, ◌∙◌, subst, inl, inr, Bool, true, false,
  if◌then◌else◌, ◌==◌, some, List, [], ◌∷◌, ◌++◌, append-nil, length, length-append, arith,
  Bool-cases,
}
use creeper_os_v.Scheduler.Pick.{next_nodes, pick_loop, pick}
use creeper_os_v.Scheduler.Pick.Rotation.{NotIn, NoDup, NotIn-++, Ring}

-- The first thread of a queue that is runnable.
unfoldable pub first_runnable : (runnable : ℕ → Bool) → (otherwise : ℕ) → List ℕ → ℕ
first_runnable runnable otherwise [] = otherwise
first_runnable runnable otherwise (t ∷ ts) =
    if runnable t then t else first_runnable runnable otherwise ts

first_runnable-++ :
    (runnable : ℕ → Bool) (d : ℕ) (xs ys : List ℕ)
    → first_runnable runnable (first_runnable runnable d ys) xs
      ≡ first_runnable runnable d (xs ++ ys)
unfolding first_runnable
first_runnable-++ runnable d [] ys = refl
first_runnable-++ runnable d (x ∷ xs) ys = rw (first_runnable-++ runnable d xs ys) refl

pub not_equal : (a b : ℕ) → a ≢ b → (a == b) ≡ false
not_equal a b ne = ground (arith, ne)

next_nodes-++ :
    (c : ℕ) (before behind : List ℕ)
    → NotIn c before
    → next_nodes c (before ++ (c ∷ behind)) ≡ behind
unfolding next_nodes
next_nodes-++ c [] behind n = ground arith
next_nodes-++ c (x ∷ before) behind (ne, n) =
    rw (not_equal x c ne) (next_nodes-++ c before behind n)

-- The loop passes nodes that are neither runnable nor the current one.
pick_loop-pass :
    (m n : ℕ) (runnable : ℕ → Bool) (c v : ℕ) (threads xs rest : List ℕ)
    → m ≡ length xs + n
    → NotIn c xs
    → pick_loop n runnable c threads rest ≡ some v
    → pick_loop m runnable c threads (xs ++ rest) ≡ some (first_runnable runnable v xs)
unfolding pick_loop first_runnable
pick_loop-pass m n runnable c v threads [] rest sum away ends =
    let same : n ≡ m = omega (arith, sum) in
    subst (λ k. pick_loop k runnable c threads rest ≡ some v) same ends
pick_loop-pass zero n runnable c v threads (x ∷ xs) rest sum away ends = absurd (omega (arith, sum))
pick_loop-pass (suc m) n runnable c v threads (x ∷ xs) rest sum (ne, away) ends =
    let later = pick_loop-pass m n runnable c v threads xs rest (omega (arith, sum)) away ends in
    elim (Bool-cases (runnable x)) [
      | inl it_is ↦ rw it_is refl
      | inr waits ↦ rw (waits, not_equal x c ne) later
    ]

pub pick_loop-wrap :
    (m : ℕ) (runnable : ℕ → Bool) (c : ℕ) (threads : List ℕ)
    → pick_loop (suc m) runnable c threads [] ≡ pick_loop (suc m) runnable c threads threads
unfolding pick_loop
pick_loop-wrap m runnable c [] = refl
pick_loop-wrap m runnable c (t ∷ ts) = refl

pick_loop-current :
    (m : ℕ) (runnable : ℕ → Bool) (c : ℕ) (threads rest : List ℕ)
    → pick_loop (suc m) runnable c threads (c ∷ rest) ≡ some c
unfolding pick_loop
pick_loop-current m runnable c threads rest =
    let same : (c == c) ≡ true = ground arith in
    elim (Bool-cases (runnable c)) [ inl it_is ↦ rw it_is refl | inr waits ↦ rw (waits, same) refl ]

pick-++ :
    (runnable : ℕ → Bool) (c : ℕ) (before behind : List ℕ)
    → NotIn c before
    → NotIn c behind
    → pick runnable c (before ++ (c ∷ behind)) ≡ some (first_runnable runnable c (behind ++ before))
unfolding pick
pick-++ runnable c before behind n m =
    let threads = before ++ (c ∷ behind) in
    let count : length threads ≡ length before + suc (length behind) =
      length-append before (c ∷ behind) in
    let at_current = pick_loop-current (length threads + 2) runnable c threads behind in
    let from_first =
      pick_loop-pass (suc (length threads + 2 + length before)) (suc (length threads + 2)) runnable
        c c threads before (c ∷ behind) (omega arith) n at_current in
    let wrapped =
      pick_loop-wrap (length threads + 2 + length before) runnable c threads ∙ from_first in
    let all_round =
      pick_loop-pass (2 * length threads + 2) (suc (length threads + 2 + length before)) runnable c
        (first_runnable runnable c before) threads behind [] (omega (arith, count)) m wrapped in
    ap (pick_loop (2 * length threads + 2) runnable c threads)
      (next_nodes-++ c before behind n ∙ sym (append-nil behind))
    ∙ all_round
    ∙ ap some (first_runnable-++ runnable c behind before)

-- Where the current thread is listed once, the loop ends with the first runnable thread of the list that
-- starts behind the current one and goes on from the front, or with the current thread if none is runnable.
pub pick-Ring :
    (runnable : ℕ → Bool) (c : ℕ) (threads queue : List ℕ)
    → Ring threads (c ∷ queue)
    → pick runnable c threads ≡ some (first_runnable runnable c queue)
pick-Ring runnable c threads queue r =
    turned (r.rotates.front) (r.rotates.back) r.rotates.whole r.rotates.turned r.once
  where
    turned :
        (front back : List ℕ)
        → threads ≡ front ++ back
        → c ∷ queue ≡ back ++ front
        → NoDup (c ∷ queue)
        → pick runnable c threads ≡ some (first_runnable runnable c queue)
    turned front [] whole e (away, once) =
        let away' = NotIn-++ c queue [] (rw (append-nil queue) away) in
        let same : threads ≡ c ∷ queue = whole ∙ append-nil front ∙ sym e in
        rw same (
          pick-++ runnable c [] queue tt away
          ∙ ap (λ q. some (first_runnable runnable c q)) (append-nil queue))
    turned front (d ∷ back) whole e (away, once) =
        let d_is : d ≡ c = cc e in
        let q_is : queue ≡ back ++ front = cc e in
        let (n, m) = NotIn-++ c back front (subst (NotIn c) q_is away) in
        rw whole (rw d_is (rw q_is (pick-++ runnable c front back m n)))
