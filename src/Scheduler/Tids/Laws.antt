-- ===== src/Scheduler/Tids/Laws.antt =====
-- What giving out and taking back an identifier does: kernel/src/arch/x86_64/scheduler/scheduler.c.
use creeper_os_v.Prelude.{
  ℕ, ◌-◌, ◌/◌, ◌%◌, ◌<◌, ◌≡◌, ◌≢◌, refl, sym, subst, ◌⊎◌, inl, inr, true, false, ◌&&◌, ◌==◌, leb,
  arith, none, some, Bool-cases, Option-cases,
}
use creeper_os_v.Scheduler.{TidMap}
use creeper_os_v.Scheduler.Tids.{
  max_tid, tid_bitmap_size, scan_words, put_tid, _get_unused_tid, _free_tid,
}
use creeper_os_v.Scheduler.Tids.First.{usable, First, scan_words-First, and_first}

-- From `s` to `t` the identifier `tid`, the lowest that may be given out, was given out; giving it back
-- makes the map what it was.
pub record TakesTid (s : TidMap) (tid : ℕ) (t : TidMap) : Type 0 where
  pub small : tid < max_tid
  pub was_free : usable s tid ≡ true
  pub lowest : (n : ℕ) → n < tid → usable s n ≡ false
  pub now_taken : usable t tid ≡ false
  pub others : (n : ℕ) → n ≢ tid → usable t n ≡ usable s n
  pub given_back : (i j : ℕ) → (_free_tid tid t).tid_bitmap i j ≡ s.tid_bitmap i j

put_tid-usable : (tid n : ℕ) (s : TidMap) → n ≢ tid → usable (put_tid tid false s) n ≡ usable s n
put_tid-usable tid n s apart =
    let miss : ((n / 64 == tid / 64) && (n % 64 == tid % 64)) ≡ false = ground (arith, apart) in
    rw miss refl

put_back :
    (tid i j : ℕ) (s : TidMap)
    → tid < max_tid
    → s.tid_bitmap (tid / 64) (tid % 64) ≡ true
    → (_free_tid tid (put_tid tid false s)).tid_bitmap i j ≡ s.tid_bitmap i j
unfolding _free_tid
put_back tid i j s small free =
    let within : leb tid_bitmap_size (tid / 64) ≡ false = ground (arith, small) in
    elim (Bool-cases ((i == tid / 64) && (j == tid % 64))) [
      | inl here ↦
          let row : i ≡ tid / 64 = ground arith in
          let column : j ≡ tid % 64 = ground arith in
          rw within (rw here (sym (rw (row, column) free)))
      | inr other ↦ rw within (rw other refl)
    ]

taken-TakesTid :
    (tid : ℕ) (s : TidMap) → First s 0 max_tid (some tid) → TakesTid s tid (put_tid tid false s)
unfolding _free_tid
taken-TakesTid tid s (low, small, free, lower) = record {
  small = small;
  was_free = free;
  lowest = λ n before. lower n (omega arith) before;
  now_taken = ground arith;
  others = λ n apart. put_tid-usable tid n s apart;
  given_back = λ i j. put_back tid i j s small (and_first _ _ free);
}

-- While `tid_bitmap_curr` is 0, as the code leaves it, `_get_unused_tid` gives no identifier only where
-- none of the 16384 may be given out, and else it gives the lowest that may be, marks it taken and no
-- other, and `_free_tid` of it makes the map what it was.
pub get_unused_tid-Takes :
    (s : TidMap)
    → s.tid_bitmap_curr ≡ 0
    → ((_get_unused_tid s ≡ (none, s)) × ((n : ℕ) → n < max_tid → usable s n ≡ false))
      ⊎ ((tid : ℕ) × (t : TidMap) × (_get_unused_tid s ≡ (some tid, t)) × TakesTid s tid t)
unfolding _get_unused_tid _free_tid
get_unused_tid-Takes s at_zero =
    let start : 0 ≡ s.tid_bitmap_curr - s.tid_bitmap_curr % 64 = omega (arith, at_zero) in
    let first =
      subst (λ c. First s 0 max_tid (scan_words (tid_bitmap_size - c) c s)) start
        (scan_words-First tid_bitmap_size 0 s at_zero) in
    elim (Option-cases (
      scan_words (tid_bitmap_size - (s.tid_bitmap_curr - s.tid_bitmap_curr % 64))
        (s.tid_bitmap_curr - s.tid_bitmap_curr % 64) s)) [
          | inl misses ↦ inl (
            rw (_get_unused_tid, misses) refl,
            λ n high. (rw misses at first) n (omega arith) high,
          )
          | inr (tid, hit) ↦ inr (
            tid,
            put_tid tid false s,
            rw (_get_unused_tid, hit) refl,
            taken-TakesTid tid s (rw hit at first),
          )
        ]
