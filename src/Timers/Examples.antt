-- ===== src/Timers/Examples.antt =====
-- The timers of kernel/src/timer/timers.c at concrete states.
use creeper_os_v.Prelude.{
  ℕ, ◌+◌, ◌*◌, ◌/◌, ◌%◌, ◌^◌, ◌<◌, ◌≡◌, refl, ◌⊎◌, true, false, none, some, [], ◌==◌, arith,
}
use creeper_os_v.Timers.{
  Timers, no_slot, no_space, timer_register, firing, common_timer_dispatcher,
  timer_get_system_time_dev,
}
use creeper_os_v.Timers.Registry.{IsBounded, timer_register_lem}
use creeper_os_v.Timers.Ticks.{interrupts, KeepsTime, interrupts-ticks}

-- Every address holds a periodic device of 1000 Hz.
abbrev boot : Timers
boot = record {
  slot_system_time = no_slot;
  slot_sleep = no_slot;
  slot_sched = no_slot;
  devices_by_type = λ k i. none;
  devices_by_type_count = λ k. 0;
  ticks_ms = 0;
  ticks_us = 0;
  memory = λ a. record { freq = 1000; dev_type = 1; has_enable = true; has_reset_interrupt = true };
  task_switching_flag = true;
  calls = [];
}

timer_register_example :
    (timer_register (some 0x9000) 7 (2 ^ 31 + 10) boot ≡ (no_space, boot))
    ⊎ ((id : ℕ) × (t : Timers) × (timer_register (some 0x9000) 7 (2 ^ 31 + 10) boot ≡ (id, t))
        × (id < 128)
        × (firing boot id ≡ none)
        × (firing t id ≡ some 0x9000)
        × ((other : ℕ) → (other == id) ≡ false → firing t other ≡ firing boot other)
        × IsBounded t)
timer_register_example = timer_register_lem 0x9000 7 (2 ^ 31 + 10) boot (λ kind. omega arith)

abbrev booted : Timers
booted = (timer_register (some 0x9000) 7 (2 ^ 31 + 10) boot).1

register_runs : (timer_register (some 0x9000) 7 (2 ^ 31 + 10) boot).0 ≡ 32
unfolding timer_register
register_runs = refl

system_time_runs : timer_get_system_time_dev booted ≡ some 0x9000
unfolding timer_register timer_get_system_time_dev
system_time_runs = refl

booted-KeepsTime : KeepsTime 32 1000 booted
unfolding timer_register firing
booted-KeepsTime = record {
  dev = 0x9000;
  fires = refl;
  slot = refl;
  rate = refl;
  runs = omega arith;
}

interrupts_example :
    ((interrupts 5 32 0 booted).ticks_us ≡ (booted.ticks_us + 5 * (1000000 / 1000)) % 2 ^ 64)
    × ((interrupts 5 32 0 booted).ticks_ms ≡ (interrupts 5 32 0 booted).ticks_us / 1000)
interrupts_example = interrupts-ticks 5 32 0 1000 booted (omega arith) booted-KeepsTime

time_runs : (interrupts 5 32 0 booted).ticks_ms ≡ 5
unfolding interrupts timer_register common_timer_dispatcher
time_runs = refl
