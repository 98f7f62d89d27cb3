-- ===== src/Devices.antt =====
-- The registries of block devices (kernel/src/block/blkdev.c) and input devices
-- (kernel/src/input/input.c): a doubly linked list each, whose first node points back to the last, and a
-- map of free identifiers.
--
-- The address of a device stands for that of its list node. Where the allocation of a device fails, its
-- address is 0. What the registration in sysfs and devfs answers is an argument.
pub mod Chain
pub mod Removal
pub mod Search
mod Examples
use creeper_os_v.Prelude.{
  ℕ, zero, suc, ◌+◌, ◌*◌, ◌%◌, ◌^◌, Bool, true, false, ◌&&◌, not, ◌||◌, if◌then◌else◌, ◌==◌, ltb,
  size_max,
}
use creeper_os_v.Bitmap.{Bytes}
use creeper_os_v.Ids.{bitmap_put, trailing_zeros, bitmap_alloc_1_first}

-- The `list` fields of the devices, the start of the list, and the number of devices (a short).
pub record DeviceList : Type 0 where
  pub next : ℕ → ℕ
  pub prev : ℕ → ℕ
  pub list_start : ℕ
  pub amount : ℕ

abbrev pub set_next : (node to : ℕ) → DeviceList → DeviceList
set_next node to s = record s { next = λ n. if n == node then to else s.next n }

abbrev pub set_prev : (node to : ℕ) → DeviceList → DeviceList
set_prev node to s = record s { prev = λ n. if n == node then to else s.prev n }

abbrev pub one_more : DeviceList → DeviceList
one_more s = record s { amount = (s.amount + 1) % 2 ^ 16 }

-- The node behind the last; whether the list took it.
unfoldable pub append_node : (node : ℕ) → DeviceList → Bool × DeviceList
append_node node s =
    let first = record s { list_start = node } in
    let end = s.prev s.list_start in
    if s.list_start == 0
    then (true, one_more (set_prev node node (set_next node 0 first)))
    else if end == 0
    then (false, s)
    else (
      true,
      one_more
          (set_prev s.list_start node (set_next node 0 (set_prev node end (set_next end node s)))),
    )

-- The node out of the list.
unfoldable pub remove_node : (node : ℕ) → DeviceList → DeviceList
remove_node node s =
    let next = s.next node in
    let before = s.prev node in
    let started = record s { list_start = next } in
    let bridged = set_next before next s in
    if node == s.list_start
    then (if next == 0 then started else set_prev next before started)
    else if next == 0
    then set_prev bridged.list_start before bridged
    else set_prev next before bridged

-- The devices, with their identifiers, and the map of free identifiers.
pub record Devices : Type 0 where
  pub devices : DeviceList
  pub ids : ℕ → ℕ
  pub id_map : Bytes

-- An int: the low 32 bits of a size_t.
abbrev pub int_of : ℕ → ℕ
int_of x = x % 2 ^ 32

-- Word `i` of the map, in the order of the bytes in memory.
unfoldable pub word_at : (i : ℕ) → Bytes → ℕ
word_at i m =
    m (8 * i)
    + 2 ^ 8 * m (8 * i + 1)
    + 2 ^ 16 * m (8 * i + 2)
    + 2 ^ 24 * m (8 * i + 3)
    + 2 ^ 32 * m (8 * i + 4)
    + 2 ^ 40 * m (8 * i + 5)
    + 2 ^ 48 * m (8 * i + 6)
    + 2 ^ 56 * m (8 * i + 7)

-- wbitmap_alloc_1_first of kernel/src/defines/helpers.c, from word `i` on.
unfoldable pub wbitmap_from : (rounds i : ℕ) → Bytes → ℕ × Bytes
unfolding word_at trailing_zeros bitmap_put
wbitmap_from zero i m = (size_max, m)
wbitmap_from (suc rounds) i m =
    let rest = wbitmap_from rounds (i + 1) m in
    let idx = i * 64 + trailing_zeros 64 (word_at i m) in
    if word_at i m == 0 then rest else (idx, bitmap_put m idx false)

unfoldable pub wbitmap_alloc_1_first : Bytes → (nwords : ℕ) → ℕ × Bytes
unfolding wbitmap_from
wbitmap_alloc_1_first m nwords = wbitmap_from nwords 0 m

-- register_block_device, where the allocation of the path's buffer was granted or not. What the file
-- systems answer is not looked at.
unfoldable pub register_block_device : (blkdev : ℕ) → (granted : Bool) → Devices → ℕ × Devices
unfolding append_node wbitmap_alloc_1_first
register_block_device blkdev granted s =
    let (id, id_map) = wbitmap_alloc_1_first s.id_map 2 in
    let (took, devices) = append_node blkdev s.devices in
    let named = record s {
      ids = λ d. if d == blkdev then int_of id else s.ids d;
      id_map = id_map;
      devices = devices;
    } in
    if blkdev == 0 then (0, s) else (if took && granted then blkdev else 0, named)

-- register_input_device, where sysfs and devfs answered as told.
unfoldable pub register_input_device : (idev sysfs devfs : ℕ) → Devices → ℕ × Devices
unfolding append_node bitmap_alloc_1_first
register_input_device idev sysfs devfs s =
    let (id, id_map) = bitmap_alloc_1_first s.id_map 16 in
    let (took, devices) = append_node idev s.devices in
    let named = record s {
      ids = λ d. if d == idev then int_of id else s.ids d;
      id_map = id_map;
      devices = devices;
    } in
    if idev == 0
    then (0, s)
    else (if took && ((sysfs == 0) && (devfs == 0)) then idev else 0, named)

-- The end of both unregister functions: the list, and the bit of the identifier.
unfoldable pub drop_device : (device : ℕ) → Devices → Devices
unfolding remove_node bitmap_put
drop_device device s = record s {
  devices = remove_node device s.devices;
  id_map = bitmap_put s.id_map (s.ids device) false;
}

-- Whether it returned 0; otherwise -1 for a block device and -E_INVAL for an input device.
unfoldable pub unregister_block_device : (blkdev : ℕ) → Devices → Bool × Devices
unfolding drop_device
unregister_block_device blkdev s = if blkdev == 0 then (false, s) else (true, drop_device blkdev s)

unfoldable pub unregister_input_device : (idev : ℕ) → Devices → Bool × Devices
unfolding drop_device
unregister_input_device idev s = if idev == 0 then (false, s) else (true, drop_device idev s)

-- The walk of get_block_device, with `rounds` nodes at most.
unfoldable pub device_from : (rounds current id : ℕ) → Devices → ℕ
device_from zero current id s = 0
device_from (suc rounds) current id s =
    let later = device_from rounds (s.devices.next current) id s in
    if current == 0 then 0 else if s.ids current == id then current else later

-- An id of 2 ^ 31 or more stands for a negative one.
unfoldable pub get_block_device : (rounds id : ℕ) → Devices → ℕ
unfolding device_from
get_block_device rounds id s =
    if ltb id (2 ^ 31) then device_from rounds s.devices.list_start id s else 0
