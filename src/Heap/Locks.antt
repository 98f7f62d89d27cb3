-- ===== src/Heap/Locks.antt =====
-- The entry points of kernel/src/memory/memory.c, under the lock of the heap.
--
-- A processor that takes a lock it already holds waits without end: spin_lock_irqsave
-- (kernel/src/arch/locks.h) has interrupts off and leaves its loop only when the lock is free.
use creeper_os_v.Prelude.{
  ℕ, ◌+◌, ◌-◌, ◌*◌, ◌/◌, ◌%◌, ◌^◌, bit_and, Bool, true, false, not, ◌&&◌, if◌then◌else◌, ltb, leb,
  ◌==◌, size_max, add64, sub64,
}
use creeper_os_v.Outcome.{Outcome, returns, panics}
use creeper_os_v.Heap.{Heap, load_word, store_word, kmalloc_locked, kfree_locked}

pub record LockedHeap : Type 0 where
  pub heap_lock : Bool
  pub heap : Heap

-- A call returns, panics, or waits for the lock without end.
pub data Call (A : Type 0) : Type 0 where
  answers : A → Call A
  stops : Call A
  spins : Call A

infixl 5 ◌>>>◌
abbrev pub ◌>>>◌ : {A : Type 0} {B : Type 0} → Call A → (A → Call B) → Call B
answers a >>> f = f a
stops >>> f = stops
spins >>> f = spins

abbrev pub released : Heap → LockedHeap
released h = record { heap_lock = false; heap = h }

unfoldable pub after_kmalloc : Outcome (ℕ × Heap) → Call (ℕ × LockedHeap)
after_kmalloc (returns (p, h)) = answers (p, released h)
after_kmalloc panics = stops

unfoldable pub kmalloc_impl : (size : ℕ) → LockedHeap → Call (ℕ × LockedHeap)
unfolding after_kmalloc
kmalloc_impl size k =
    if size == 0
    then answers (0, k)
    else if ltb (size_max - 8) size
    then answers (0, k)
    else if k.heap_lock
    then spins
    else after_kmalloc (kmalloc_locked size k.heap)

unfoldable pub kfree_impl : (address : ℕ) → LockedHeap → Call LockedHeap
kfree_impl address k =
    if address == 0
    then answers k
    else if k.heap_lock
    then spins
    else answers (released (kfree_locked address k.heap))

-- memcpy between blocks, on the words: whole words, and the low bytes of the last.
unfoldable pub copy_bytes : (to from count : ℕ) → Heap → Heap
copy_bytes to from count h = record h {
  words = λ w.
      if leb (to / 8) w && ltb w (to / 8 + count / 8)
      then h.words (from / 8 + (w - to / 8))
      else if w == to / 8 + count / 8
      then h.words w / 2 ^ (8 * (count % 8)) * 2 ^ (8 * (count % 8))
        + h.words (from / 8 + count / 8) % 2 ^ (8 * (count % 8))
      else h.words w;
}

abbrev pub get_pter_size : ℕ → Heap → ℕ
get_pter_size pter h = load_word (sub64 pter 8) h

-- krealloc_impl from its second kmalloc on. The lock is released only where that gave NULL.
unfoldable pub moved : (ptr size : ℕ) → ℕ × LockedHeap → Call (ℕ × LockedHeap)
unfolding copy_bytes kfree_impl
moved ptr size (new_ptr, k) =
    let old_len = get_pter_size ptr k.heap in
    let copied = record k {
      heap = copy_bytes new_ptr ptr (if ltb size old_len then size else old_len) k.heap;
    } in
    if new_ptr == 0
    then answers (0, released k.heap)
    else (kfree_impl ptr copied >>> λ k'. answers (new_ptr, k'))

unfoldable pub krealloc_impl : (ptr size : ℕ) → LockedHeap → Call (ℕ × LockedHeap)
unfolding kmalloc_impl kfree_impl moved
krealloc_impl ptr size k =
    let acquired = record k { heap_lock = true } in
    if k.heap_lock
    then spins
    else if size == 0
    then (kfree_impl ptr acquired >>> λ k'. answers (0, released k'.heap))
    else if ptr == 0
    then kmalloc_impl size acquired
    else (kmalloc_impl size acquired >>> moved ptr size)

-- The aligned address, with the pointer to the block in the word before it.
unfoldable pub align : (alignment : ℕ) → ℕ × LockedHeap → Call (ℕ × LockedHeap)
align alignment (raw, k) =
    let unaligned = sub64 (add64 (add64 raw 8) alignment) 1 in
    let aligned = unaligned - bit_and unaligned (sub64 alignment 1) in
    if raw == 0
    then answers (0, k)
    else answers (aligned, record k { heap = store_word (sub64 aligned 8) raw k.heap })

unfoldable pub aligned_malloc : (size alignment : ℕ) → LockedHeap → Call (ℕ × LockedHeap)
unfolding kmalloc_impl align
aligned_malloc size alignment k =
    let extra = add64 (sub64 alignment 1) 8 in
    if not (bit_and alignment (sub64 alignment 1) == 0)
    then answers (0, k)
    else (kmalloc_impl (add64 size extra) k >>> align alignment)

unfoldable pub aligned_free : (ptr : ℕ) → LockedHeap → Call LockedHeap
unfolding kfree_impl
aligned_free ptr k = kfree_impl (load_word (sub64 ptr 8) k.heap) k
