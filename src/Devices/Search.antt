-- ===== src/Devices/Search.antt =====
-- The search for a block device and sequences of registrations (kernel/src/block/blkdev.c,
-- kernel/src/input/input.c).
use creeper_os_v.Prelude.{
  ℕ, zero, suc, ◌^◌, ◌<◌, ◌≡◌, ◌≢◌, refl, sym, subst, Bool, false, if◌then◌else◌, ◌==◌, ltb, List,
  [], ◌∷◌, ◌++◌, length, arith,
}
use creeper_os_v.Scheduler.Pick.Rotation.{NotIn}
use creeper_os_v.Devices.{
  Devices, device_from, get_block_device, register_block_device, register_input_device,
  unregister_block_device, unregister_input_device,
}
use creeper_os_v.Devices.Chain.{Linked, IsRegistry, append_node-Holds}
use creeper_os_v.Devices.Removal.{remove_node-Holds}

-- The first device with the identifier, or 0.
abbrev pub first_with : (id : ℕ) → (ids : ℕ → ℕ) → List ℕ → ℕ
first_with id ids [] = 0
first_with id ids (x ∷ xs) = if ids x == id then x else first_with id ids xs

none_behind : (rounds id : ℕ) (s : Devices) → device_from rounds 0 id s ≡ 0
unfolding device_from
none_behind zero id s = refl
none_behind (suc rounds) id s = refl

device_from-first_with :
    (rounds id x : ℕ) (xs : List ℕ) (s : Devices)
    → length (x ∷ xs) < rounds
    → Linked s.devices x xs
    → NotIn 0 (x ∷ xs)
    → device_from rounds x id s ≡ first_with id s.ids (x ∷ xs)
unfolding device_from
device_from-first_with zero id x xs s h l z = absurd (omega arith)
device_from-first_with (suc zero) id x xs s h l z = absurd (omega arith)
device_from-first_with (suc (suc rounds)) id x [] s h l z =
    let some_device : (x == 0) ≡ false = ground (arith, z.0) in rw some_device (rw l refl)
device_from-first_with (suc (suc rounds)) id x (y ∷ ys) s h l z =
    let some_device : (x == 0) ≡ false = ground (arith, z.0) in
    rw some_device
      (rw l.0 (rw (device_from-first_with (suc rounds) id y ys s (omega arith) l.2 z.1) refl))

-- From the start of the list on.
all-first_with :
    (rounds id : ℕ) (ns : List ℕ) (s : Devices)
    → IsRegistry s.devices ns
    → length ns < rounds
    → device_from rounds s.devices.list_start id s ≡ first_with id s.ids ns
all-first_with rounds id [] s h k =
    subst (λ x. device_from rounds x id s ≡ 0) (sym h.0) (none_behind rounds id s)
all-first_with rounds id (x ∷ xs) s h k =
    subst (λ y. device_from rounds y id s ≡ first_with id s.ids (x ∷ xs)) (sym h.0.0)
      (device_from-first_with rounds id x xs s k h.0.2 h.2)

-- In a registry, with more rounds than devices, `get_block_device` returns the first device with the
-- identifier in the order of registration, NULL where there is none, and NULL for a negative one.
pub get_block_device-first_with :
    (rounds id : ℕ) (ns : List ℕ) (s : Devices)
    → IsRegistry s.devices ns
    → length ns < rounds
    → get_block_device rounds id s ≡ (if ltb id (2 ^ 31) then first_with id s.ids ns else 0)
unfolding get_block_device
get_block_device-first_with rounds id ns s h k = rw (all-first_with rounds id ns s h k) refl

-- A registration of a device that is not in the list, whatever the file systems and the
-- allocation of a buffer answer, or the end of
-- one.
pub data Change (s : Devices) (ns : List ℕ) : Devices → List ℕ → Type 0 where
  joins_blocks :
      (b : ℕ) (granted : Bool)
      → b ≢ 0
      → NotIn b ns
      → Change s ns (register_block_device b granted s).1 (ns ++ b ∷ [])
  joins_inputs :
      (b sysfs devfs : ℕ)
      → b ≢ 0
      → NotIn b ns
      → Change s ns (register_input_device b sysfs devfs s).1 (ns ++ b ∷ [])
  leaves_blocks :
      (n : ℕ) (pre post : List ℕ)
      → ns ≡ pre ++ n ∷ post
      → n ≢ 0
      → Change s ns (unregister_block_device n s).1 (pre ++ post)
  leaves_inputs :
      (n : ℕ) (pre post : List ℕ)
      → ns ≡ pre ++ n ∷ post
      → n ≢ 0
      → Change s ns (unregister_input_device n s).1 (pre ++ post)

pub data Changes (s : Devices) (ns : List ℕ) : Devices → List ℕ → Type 0 where
  unchanged : Changes s ns s ns
  then_change :
      {t u : Devices} {ms ls : List ℕ} → Changes s ns t ms → Change t ms u ls → Changes s ns u ls

Change-IsRegistry :
    {s t : Devices} {ns ms : List ℕ}
    → IsRegistry s.devices ns
    → Change s ns t ms
    → IsRegistry t.devices ms
unfolding register_block_device register_input_device unregister_block_device
    unregister_input_device
Change-IsRegistry {s} {ns = ns} h (joins_blocks b granted nz fresh) =
    let some_device : (b == 0) ≡ false = ground (arith, nz) in
    rw some_device (append_node-Holds b s.devices ns h nz fresh).1
Change-IsRegistry {s} {ns = ns} h (joins_inputs b sysfs devfs nz fresh) =
    let some_device : (b == 0) ≡ false = ground (arith, nz) in
    rw some_device (append_node-Holds b s.devices ns h nz fresh).1
Change-IsRegistry {s} h (leaves_blocks n pre post e nz) =
    let some_device : (n == 0) ≡ false = ground (arith, nz) in
    rw some_device
      (remove_node-Holds n s.devices pre post (subst (λ l. IsRegistry s.devices l) e h))
Change-IsRegistry {s} h (leaves_inputs n pre post e nz) =
    let some_device : (n == 0) ≡ false = ground (arith, nz) in
    rw some_device
      (remove_node-Holds n s.devices pre post (subst (λ l. IsRegistry s.devices l) e h))

pub Changes-IsRegistry :
    {s : Devices} {ns : List ℕ} {t : Devices} {ms : List ℕ}
    → IsRegistry s.devices ns
    → Changes s ns t ms
    → IsRegistry t.devices ms
Changes-IsRegistry h unchanged = h
Changes-IsRegistry h (then_change before last) =
    Change-IsRegistry (Changes-IsRegistry h before) last
