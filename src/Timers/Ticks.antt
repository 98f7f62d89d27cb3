-- ===== src/Timers/Ticks.antt =====
-- The time that the interrupts of kernel/src/timer/timers.c keep.
use creeper_os_v.Prelude.{
  ℕ, zero, suc, ◌+◌, ◌*◌, ◌/◌, ◌%◌, ◌^◌, ◌<◌, ◌≡◌, refl, ap, sym, ◌∙◌, true, ◌&&◌, not, some, ◌==◌,
  arith,
}
use creeper_os_v.Timers.{
  Timers, firing, fire, keeps_time, next_us, advance_ticks, reset_device, switch_task,
  common_timer_dispatcher,
}

-- The state after `n` interrupts with the identifier.
unfoldable pub interrupts : (n id sp : ℕ) → Timers → Timers
unfolding common_timer_dispatcher
interrupts zero id sp s = s
interrupts (suc n) id sp s = interrupts n id sp (common_timer_dispatcher id sp s).1

-- The device of the identifier is the one that keeps the time, with frequency `freq`.
pub record KeepsTime (id freq : ℕ) (s : Timers) : Type 0 where
  pub dev : ℕ
  pub fires : firing s id ≡ some dev
  pub slot : s.slot_sleep.dev ≡ some dev
  pub rate : (s.memory dev).freq ≡ freq
  pub runs : 0 < freq

firing-kept :
    (dev id sp : ℕ) (s : Timers)
    → firing (switch_task dev sp (advance_ticks dev (reset_device dev s))) id ≡ firing s id
unfolding firing switch_task advance_ticks reset_device
firing-kept dev id sp s = refl

one_more : (us step x : ℕ) → ((us + step) % 2 ^ 64 + x) % 2 ^ 64 ≡ (us + (step + x)) % 2 ^ 64
one_more us step x = omega arith

step_out : (m step : ℕ) → suc m * step ≡ step + m * step
step_out m step = omega arith

dispatch-ticks :
    (id sp freq : ℕ) (s : Timers)
    → KeepsTime id freq s
    → ((common_timer_dispatcher id sp s).1.ticks_us ≡ (s.ticks_us + 1000000 / freq) % 2 ^ 64)
      × ((common_timer_dispatcher id sp s).1.ticks_ms
          ≡ (s.ticks_us + 1000000 / freq) % 2 ^ 64 / 1000)
      × KeepsTime id freq (common_timer_dispatcher id sp s).1
unfolding common_timer_dispatcher fire reset_device advance_ticks switch_task keeps_time next_us
dispatch-ticks id sp freq s k =
    let ticking : ((k.dev == k.dev) && not (freq == 0)) ≡ true = ground (arith, k.runs) in
    (
      rw (k.fires) (rw (k.slot, k.rate) (rw ticking refl)),
      rw (k.fires) (rw (k.slot, k.rate) (rw ticking refl)),
      rw (k.fires) (record {
        dev = k.dev;
        fires = firing-kept k.dev id sp s ∙ k.fires;
        slot = k.slot;
        rate = k.rate;
        runs = k.runs;
      }),
    )

-- After `n` interrupts, at least one, of the device that keeps the time, with a frequency above 0, the
-- microseconds are `n` times 1000000 / frequency more, modulo 2 ^ 64, and the milliseconds are the
-- microseconds divided by 1000.
pub interrupts-ticks :
    (n id sp freq : ℕ) (s : Timers)
    → 0 < n
    → KeepsTime id freq s
    → ((interrupts n id sp s).ticks_us ≡ (s.ticks_us + n * (1000000 / freq)) % 2 ^ 64)
      × ((interrupts n id sp s).ticks_ms ≡ (interrupts n id sp s).ticks_us / 1000)
unfolding interrupts
interrupts-ticks zero id sp freq s some_time k = absurd (omega arith)
interrupts-ticks (suc zero) id sp freq s some_time k =
    let (us, ms, _) = dispatch-ticks id sp freq s k in
    (rw us (ap (λ x. (s.ticks_us + x) % 2 ^ 64) (omega arith)), rw (us, ms) refl)
interrupts-ticks (suc (suc n)) id sp freq s some_time k =
    let (us, _, kept) = dispatch-ticks id sp freq s k in
    let (later, ms) = interrupts-ticks (suc n) id sp freq _ (omega arith) kept in
    (
      later
          ∙ rw us (one_more s.ticks_us (1000000 / freq) (suc n * (1000000 / freq)))
          ∙ ap (λ x. (s.ticks_us + x) % 2 ^ 64) (sym (step_out (suc n) (1000000 / freq))),
      ms,
    )
