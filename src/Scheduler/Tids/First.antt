-- ===== src/Scheduler/Tids/First.antt =====
-- The search for the lowest free identifier: kernel/src/arch/x86_64/scheduler/scheduler.c.
use creeper_os_v.Prelude.{
  ℕ, zero, suc, ◌+◌, ◌-◌, ◌*◌, ◌/◌, ◌%◌, ◌≤◌, ◌<◌, ◌≡◌, refl, sym, ap, ◌∙◌, subst, inl, inr, Bool,
  true, false, not, ◌&&◌, ◌==◌, ltb, arith, Option, none, some, Bool-cases, Option-cases,
}
use creeper_os_v.Scheduler.{TidMap}
use creeper_os_v.Scheduler.Tids.{scan_word, word_is_zero, scan_row, row_is_zero, scan_words}

-- The identifier may be given out.
abbrev pub usable : TidMap → ℕ → Bool
usable s n = s.tid_bitmap (n / 64) (n % 64) && not (s.tid0_used && (n == 0))

-- The lowest identifier of a range that may be given out.
abbrev pub First : TidMap → (lo hi : ℕ) → Option ℕ → Type 0
First s lo hi none = (n : ℕ) → lo ≤ n → n < hi → usable s n ≡ false
First s lo hi (some tid) =
    (lo ≤ tid)
    × (tid < hi)
    × (usable s tid ≡ true)
    × ((n : ℕ) → lo ≤ n → n < tid → usable s n ≡ false)

First-later :
    (s : TidMap) (lo mid hi : ℕ) (r : Option ℕ)
    → lo ≤ mid
    → ((n : ℕ) → lo ≤ n → n < mid → usable s n ≡ false)
    → First s mid hi r
    → First s lo hi r
First-later s lo mid hi none le before f = λ n low high. elim (Bool-cases (ltb n mid)) [
  | inl lt ↦ before n low (ground arith)
  | inr ge ↦ f n (ground arith) high
]
First-later s lo mid hi (some tid) le before (low_tid, high_tid, free, lower) = (
  omega (arith, le, low_tid),
  high_tid,
  free,
  λ n low high. elim (Bool-cases (ltb n mid)) [
    | inl lt ↦ before n low (ground arith)
    | inr ge ↦ lower n (ground arith) high
  ],
)

First-wider :
    (s : TidMap) (lo mid hi tid : ℕ)
    → mid ≤ hi
    → First s lo mid (some tid)
    → First s lo hi (some tid)
First-wider s lo mid hi tid le (low, high, free, lower) =
    (low, omega (arith, high, le), free, lower)

usable-at :
    (s : TidMap) (i j : ℕ)
    → j < 64
    → usable s (i * 64 + j) ≡ (s.tid_bitmap i j && not (s.tid0_used && ((i == 0) && (j == 0))))
usable-at s i j small =
    let row : (i * 64 + j) / 64 ≡ i = omega (arith, small) in
    let column : (i * 64 + j) % 64 ≡ j = omega (arith, small) in
    let origin : (i * 64 + j == 0) ≡ ((i == 0) && (j == 0)) = ground (arith, small) in
    rw (row, column, origin) refl

and_not : (b : Bool) {c : Bool} → c ≡ true → (b && not c) ≡ false
and_not true e = ap not e
and_not false e = refl

pub and_first : (b c : Bool) → (b && c) ≡ true → b ≡ true
and_first true c e = refl
and_first false c e = e

scan_word-First :
    (rounds i j : ℕ) (s : TidMap)
    → j + rounds ≤ 64
    → First s (i * 64 + j) (i * 64 + j + rounds) (scan_word rounds i j s)
unfolding scan_word
scan_word-First zero i j s fits = λ n low high. absurd (omega (arith, low, high))
scan_word-First (suc rounds) i j s fits =
    let rest = scan_word-First rounds i (j + 1) s (omega (arith, fits)) in
    let here = usable-at s i j (omega (arith, fits)) in
    let from_next : i * 64 + (j + 1) ≡ i * 64 + j + 1 = omega arith in
    let to_end : i * 64 + (j + 1) + rounds ≡ i * 64 + j + suc rounds = omega arith in
    let rest' : First s (i * 64 + j + 1) (i * 64 + j + suc rounds) (scan_word rounds i (j + 1) s) =
      rw (sym from_next) (rw (sym to_end) rest) in
    let only : usable s (i * 64 + j) ≡ false
        → (n : ℕ) → i * 64 + j ≤ n
        → n < i * 64 + j + 1
        → usable s n ≡ false =
      λ used n low high. let at : n ≡ i * 64 + j = omega (arith, low, high) in rw at used in
    elim (Bool-cases (s.tid0_used && ((i == 0) && (j == 0)))) [
      | inl taken ↦ rw taken (
          First-later s (i * 64 + j) (i * 64 + j + 1) _ _ (omega arith)
            (only (here ∙ and_not (s.tid_bitmap i j) taken)) rest')
      | inr other ↦ elim (Bool-cases (s.tid_bitmap i j)) [
        | inl free ↦
            rw (other, free)
              (
                omega arith,
                omega arith,
                here ∙ rw (other, free) refl,
                λ n low high. absurd (omega (arith, low, high)),
              )
        | inr used ↦
            rw (other, used)
              (First-later s (i * 64 + j) (i * 64 + j + 1) _ _ (omega arith)
                (only (here ∙ rw (other, used) refl)) rest')
      ]
    ]

word_is_zero-none :
    (rounds i : ℕ) (s : TidMap)
    → word_is_zero rounds i s ≡ true
    → (j : ℕ) → j < rounds
    → s.tid_bitmap i j ≡ false
unfolding word_is_zero
word_is_zero-none zero i s all_zero j small = absurd (omega (arith, small))
word_is_zero-none (suc rounds) i s all_zero j small = elim (Bool-cases (j == rounds)) [
  | inl last ↦ let at : j ≡ rounds = ground arith in rw at (ground (arith, all_zero))
  | inr before ↦
      word_is_zero-none rounds i s (ground (arith, all_zero)) j (ground (arith, small, before))
]

row_is_zero-none :
    (i n : ℕ) (s : TidMap)
    → row_is_zero i s ≡ true
    → i * 64 ≤ n
    → n < (i + 1) * 64
    → usable s n ≡ false
unfolding row_is_zero
row_is_zero-none i n s all_zero low high =
    let row : n / 64 ≡ i = omega (arith, low, high) in
    let none_here : s.tid_bitmap i (n % 64) ≡ false =
      word_is_zero-none 64 i s all_zero (n % 64) (omega arith) in
    rw (row, none_here) refl

scan_row-First :
    (i : ℕ) (s : TidMap) → s.tid_bitmap_curr ≡ 0 → First s (i * 64) ((i + 1) * 64) (scan_row i s)
unfolding scan_row
scan_row-First i s at_zero =
    let lo : i * 64 + 0 ≡ i * 64 = omega arith in
    let hi : i * 64 + 0 + 64 ≡ (i + 1) * 64 = omega arith in
    let base =
      subst (λ b. First s (i * 64) b (scan_word 64 i 0 s)) hi
        (subst (λ a. First s a (i * 64 + 0 + 64) (scan_word 64 i 0 s)) lo
          (scan_word-First 64 i 0 s (omega arith))) in
    let start : 0 ≡ s.tid_bitmap_curr % 64 = omega (arith, at_zero) in
    subst (λ c. First s (i * 64) ((i + 1) * 64) (scan_word (64 - c) i c s)) start base

pub scan_words-First :
    (rounds i : ℕ) (s : TidMap)
    → s.tid_bitmap_curr ≡ 0
    → First s (i * 64) ((i + rounds) * 64) (scan_words rounds i s)
unfolding scan_words
scan_words-First zero i s at_zero = λ n low high. absurd (omega (arith, low, high))
scan_words-First (suc rounds) i s at_zero =
    let ends : (i + 1 + rounds) * 64 ≡ (i + suc rounds) * 64 = omega arith in
    let rest =
      subst (λ b. First s ((i + 1) * 64) b (scan_words rounds (i + 1) s)) ends
        (scan_words-First rounds (i + 1) s at_zero) in
    let row = scan_row-First i s at_zero in
    let later = λ (before : (n : ℕ) → i * 64 ≤ n → n < (i + 1) * 64 → usable s n ≡ false).
      First-later s (i * 64) ((i + 1) * 64) ((i + suc rounds) * 64) (scan_words rounds (i + 1) s)
        (omega arith) before rest in
    elim (Bool-cases (row_is_zero i s)) [
      | inl clear ↦ rw clear (later (λ n low high. row_is_zero-none i n s clear low high))
      | inr some_bit ↦ elim (Option-cases (scan_row i s)) [
        | inl misses ↦ rw some_bit (rw misses (later (rw misses at row)))
        | inr (tid, hit) ↦ rw some_bit (
            rw hit (
              First-wider s (i * 64) ((i + 1) * 64) ((i + suc rounds) * 64) tid (omega arith)
                (rw hit at row)))
      ]
    ]
