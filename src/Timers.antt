-- ===== src/Timers.antt =====
-- The timer registry and the dispatcher of kernel/src/timer/timers.c. A device is the address of its
-- timer_dev. An `int` priority is held with 2 ^ 31 added, which keeps the order, and an int8_t
-- identifier as its byte, so that the negative ones are 128 and above. The code that this file calls
-- (the devices' functions, and yield_core) is recorded in `calls`, the latest first.
use creeper_os_v.Prelude.{
  ℕ, ◌+◌, ◌-◌, ◌*◌, ◌/◌, ◌%◌, ◌^◌, Bool, true, false, ◌&&◌, not, Option, none, some, List, [], ◌∷◌,
  if◌then◌else◌, ◌==◌, ltb, leb,
}
mod Registry
mod Ticks
mod Examples

-- `timer_dev`: the fields that the registry reads, and whether the functions are there.
pub record TimerDev : Type 0 where
  pub freq : ℕ
  pub dev_type : ℕ
  pub has_enable : Bool
  pub has_reset_interrupt : Bool

pub record TimerSlot : Type 0 where
  pub dev : Option ℕ
  pub priority : ℕ

pub data Call : Type 0 where
  enable : ℕ → Call
  reset_interrupt : ℕ → Call
  yield_core : ℕ → Call

-- The file's static variables, the memory of the devices, and task_switching_flag of the scheduler.
pub record Timers : Type 0 where
  pub slot_system_time : TimerSlot
  pub slot_sleep : TimerSlot
  pub slot_sched : TimerSlot
  pub devices_by_type : ℕ → ℕ → Option ℕ
  pub devices_by_type_count : ℕ → ℕ
  pub ticks_ms : ℕ
  pub ticks_us : ℕ
  pub memory : ℕ → TimerDev
  pub task_switching_flag : Bool
  pub calls : List Call

-- { NULL, -1 }
abbrev pub no_slot : TimerSlot
no_slot = record { dev = none; priority = 2 ^ 31 - 1 }

-- (int8_t)-E_NOSPC and (int8_t)-E_INVAL.
abbrev pub no_space : ℕ
no_space = 256 - 28

abbrev pub invalid : ℕ
invalid = 256 - 22

-- roles & TIMER_ROLE_SYSTEM_TIME, and so on.
abbrev pub system_time_role : ℕ → Bool
system_time_role roles = roles % 2 == 1

abbrev pub sleep_role : ℕ → Bool
sleep_role roles = roles / 2 % 2 == 1

abbrev pub sched_role : ℕ → Bool
sched_role roles = roles / 4 % 2 == 1

unfoldable pub try_promote : TimerSlot → (dev priority : ℕ) → TimerSlot
try_promote slot dev priority =
    if ltb slot.priority priority then record { dev = some dev; priority = priority } else slot

-- devices_by_type[type][idx] = dev, with the count raised.
unfoldable pub append_device : (kind dev : ℕ) → Timers → Timers
append_device kind dev s = record s {
  devices_by_type = λ k i.
      if k == kind && i == s.devices_by_type_count kind then some dev else s.devices_by_type k i;
  devices_by_type_count = λ k.
      if k == kind then (s.devices_by_type_count kind + 1) % 256 else s.devices_by_type_count k;
}

unfoldable pub set_slots : (dev roles priority : ℕ) → Timers → Timers
unfolding try_promote
set_slots dev roles priority s = record s {
  slot_system_time =
      if system_time_role roles
      then try_promote s.slot_system_time dev priority
      else s.slot_system_time;
  slot_sleep = if sleep_role roles then try_promote s.slot_sleep dev priority else s.slot_sleep;
  slot_sched = if sched_role roles then try_promote s.slot_sched dev priority else s.slot_sched;
}

-- if (dev->enable) dev->enable(dev);
unfoldable pub enable_device : ℕ → Timers → Timers
enable_device dev s = record s {
  calls = if (s.memory dev).has_enable then enable dev ∷ s.calls else s.calls;
}

-- The identifier: (type & TIMER_TYPE_MASK) << TIMER_TYPE_SHIFT | (idx & TIMER_IDX_MASK).
unfoldable pub encoded : (kind idx : ℕ) → ℕ
encoded kind idx = kind % 4 * 32 + idx % 32

unfoldable pub timer_register : (dev : Option ℕ) → (roles priority : ℕ) → Timers → ℕ × Timers
unfolding append_device set_slots enable_device encoded
timer_register none roles priority s = (invalid, s)
timer_register (some dev) roles priority s =
    let kind = (s.memory dev).dev_type % 4 in
    let idx = s.devices_by_type_count kind in
    if leb 32 idx then (no_space, s) else (
      encoded kind idx,
      enable_device dev (set_slots dev roles priority (append_device kind dev s)),
    )

unfoldable pub timer_get_system_time_dev : Timers → Option ℕ
timer_get_system_time_dev s = s.slot_system_time.dev

-- The device that an identifier stands for; none where the dispatcher returns false.
unfoldable pub firing : Timers → (id : ℕ) → Option ℕ
firing s id =
    if leb 128 id
    then none
    else if leb (s.devices_by_type_count (id / 32 % 4)) (id % 32)
    then none
    else s.devices_by_type (id / 32 % 4) (id % 32)

abbrev pub is_dev : Option ℕ → ℕ → Bool
is_dev none a = false
is_dev (some b) a = a == b

unfoldable pub reset_device : ℕ → Timers → Timers
reset_device dev s = record s {
  calls = if (s.memory dev).has_reset_interrupt then reset_interrupt dev ∷ s.calls else s.calls;
}

-- firing == slot_sleep.dev && firing->freq
unfoldable pub keeps_time : Timers → (dev : ℕ) → Bool
keeps_time s dev = is_dev s.slot_sleep.dev dev && not ((s.memory dev).freq == 0)

-- ticks_us + 1000000ULL / firing->freq
unfoldable pub next_us : Timers → (dev : ℕ) → ℕ
next_us s dev = (s.ticks_us + 1000000 / (s.memory dev).freq) % 2 ^ 64

unfoldable pub advance_ticks : ℕ → Timers → Timers
unfolding keeps_time next_us
advance_ticks dev s = record s {
  ticks_us = if keeps_time s dev then next_us s dev else s.ticks_us;
  ticks_ms = if keeps_time s dev then next_us s dev / 1000 else s.ticks_ms;
}

unfoldable pub switch_task : (dev sp : ℕ) → Timers → Timers
switch_task dev sp s = record s {
  calls =
      if is_dev s.slot_sched.dev dev && s.task_switching_flag
      then yield_core sp ∷ s.calls
      else s.calls;
}

unfoldable pub fire : Option ℕ → (sp : ℕ) → Timers → Bool × Timers
unfolding reset_device advance_ticks switch_task
fire none sp s = (false, s)
fire (some dev) sp s = (true, switch_task dev sp (advance_ticks dev (reset_device dev s)))

unfoldable pub common_timer_dispatcher : (id sp : ℕ) → Timers → Bool × Timers
unfolding firing fire
common_timer_dispatcher id sp s = fire (firing s id) sp s
