-- ===== src/Timers/Registry.antt =====
-- What registrations in kernel/src/timer/timers.c do to the identifiers and the role slots.
use creeper_os_v.Prelude.{
  ℕ, ◌/◌, ◌%◌, ◌≤◌, ◌<◌, ◌≡◌, refl, ◌⊎◌, inl, inr, false, none, some, ◌==◌, leb, arith, Bool-cases,
}
use creeper_os_v.Timers.{
  Timers, no_space, append_device, set_slots, enable_device, encoded, timer_register, firing,
}

-- Every list has room for at most 32 devices.
abbrev pub IsBounded : Timers → Type 0
IsBounded s = (kind : ℕ) → s.devices_by_type_count kind ≤ 32

encoded-kind : (kind idx : ℕ) → kind < 4 → idx < 32 → encoded kind idx / 32 % 4 ≡ kind
unfolding encoded
encoded-kind kind idx k i = omega arith

encoded-idx : (kind idx : ℕ) → kind < 4 → idx < 32 → encoded kind idx % 32 ≡ idx
unfolding encoded
encoded-idx kind idx k i = omega arith

encoded-positive : (kind idx : ℕ) → encoded kind idx < 128
unfolding encoded
encoded-positive kind idx = omega arith

encoded-onto : (id : ℕ) → id < 128 → encoded (id / 32 % 4) (id % 32) ≡ id
unfolding encoded
encoded-onto id small = omega arith

module _ (kind dev : ℕ) (s : Timers) (k : kind < 4) (room : s.devices_by_type_count kind < 32) where
  firing-unused : firing s (encoded kind (s.devices_by_type_count kind)) ≡ none
  unfolding firing
  firing-unused =
      rw (encoded-kind kind _ k room, encoded-idx kind _ k room)
        (ground (arith, encoded-positive kind (s.devices_by_type_count kind)))

  firing-new :
      firing (append_device kind dev s) (encoded kind (s.devices_by_type_count kind)) ≡ some dev
  unfolding firing append_device
  firing-new =
      rw (encoded-kind kind _ k room, encoded-idx kind _ k room)
        (ground (arith, encoded-positive kind (s.devices_by_type_count kind)))

  firing-others :
      (other : ℕ)
      → (other == encoded kind (s.devices_by_type_count kind)) ≡ false
      → firing (append_device kind dev s) other ≡ firing s other
  unfolding firing append_device encoded
  firing-others other differs = ground arith

-- In a state where no list is longer than 32, `timer_register` of a device either finds the list of
-- its type full, answers -E_NOSPC and changes nothing; or it answers an identifier that is not
-- negative and that was not in use, which stands for the device from then on, while all other
-- identifiers stand for what they stood for before, and the lists stay within 32.
pub timer_register_lem :
    (dev roles priority : ℕ) (s : Timers)
    → IsBounded s
    → (timer_register (some dev) roles priority s ≡ (no_space, s))
      ⊎ ((id : ℕ) × (t : Timers) × (timer_register (some dev) roles priority s ≡ (id, t))
          × (id < 128)
          × (firing s id ≡ none)
          × (firing t id ≡ some dev)
          × ((other : ℕ) → (other == id) ≡ false → firing t other ≡ firing s other)
          × IsBounded t)
unfolding timer_register append_device set_slots enable_device encoded firing
timer_register_lem dev roles priority s bounded =
    let kind = (s.memory dev).dev_type % 4 in
    elim (Bool-cases (leb 32 (s.devices_by_type_count ((s.memory dev).dev_type % 4)))) [
      | inl full ↦ inl (rw full refl)
      | inr room ↦
          let k : (s.memory dev).dev_type % 4 < 4 = omega arith in
          let less : s.devices_by_type_count ((s.memory dev).dev_type % 4) < 32 = ground arith in
          inr (
            encoded ((s.memory dev).dev_type % 4)
                (s.devices_by_type_count ((s.memory dev).dev_type % 4)),
            enable_device dev
                (set_slots dev roles priority (append_device ((s.memory dev).dev_type % 4) dev s)),
            rw room refl,
            encoded-positive _ _,
            firing-unused _ dev s k less,
            firing-new _ dev s k less,
            firing-others _ dev s k less,
            (λ kind. ground (arith, bounded kind)),
          )
    ]
