-- ===== src/Devices/Examples.antt =====
-- The registries of devices at concrete states.
use creeper_os_v.Prelude.{ℕ, ◌^◌, ◌-◌, ◌/◌, ◌≡◌, refl, true, ltb, if◌then◌else◌, [], ◌∷◌, arith}
use creeper_os_v.Devices.{Devices, register_block_device, unregister_block_device, get_block_device}
use creeper_os_v.Devices.Chain.{IsRegistry}
use creeper_os_v.Devices.Search.{
  Changes, unchanged, then_change, joins_blocks, Changes-IsRegistry, first_with,
  get_block_device-first_with,
}

-- No device, and the map as blkdev.c starts it.
abbrev no_devices : Devices
no_devices = record {
  devices = record { next = λ n. 0; prev = λ n. 0; list_start = 0; amount = 0 };
  ids = λ n. 0;
  id_map = λ i. 0;
}

abbrev one_device : Devices
one_device = (register_block_device 0x100 true no_devices).1

abbrev two_devices : Devices
two_devices = (register_block_device 0x200 true one_device).1

abbrev one_left : Devices
one_left = (unregister_block_device 0x100 two_devices).1

-- Every block device gets the identifier -1.
all_minus_one : two_devices.ids 0x200 ≡ 2 ^ 32 - 1
unfolding register_block_device
all_minus_one = refl

-- The number of devices is not lowered.
stays_two : one_left.devices.amount ≡ 2
unfolding register_block_device unregister_block_device
stays_two = refl

abbrev named : Devices
named = record two_devices { ids = λ n. n / 0x100 }

two-Changes : Changes no_devices [] two_devices (0x100 ∷ 0x200 ∷ [])
two-Changes =
    then_change (then_change unchanged (joins_blocks 0x100 true (λ e. omega (arith, e)) tt))
      (joins_blocks 0x200 true (λ e. omega (arith, e)) ((λ e. omega (arith, e)), tt))

two-IsRegistry : IsRegistry two_devices.devices (0x100 ∷ 0x200 ∷ [])
two-IsRegistry = Changes-IsRegistry {ns = []} (refl, tt, tt) two-Changes

abbrev second : ℕ
second = 2

get_block_device_example :
    get_block_device 3 second named
    ≡ (if ltb second (2 ^ 31) then first_with second named.ids (0x100 ∷ 0x200 ∷ []) else 0)
get_block_device_example =
    get_block_device-first_with 3 second (0x100 ∷ 0x200 ∷ []) named two-IsRegistry (omega arith)
