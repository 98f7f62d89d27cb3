-- ===== src/Heap/History.antt =====
-- Calls of the heap of kernel/src/memory/memory.c one after the other, and the writes of those who hold
-- its blocks.
use creeper_os_v.Prelude.{
  ℕ, ◌+◌, ◌-◌, ◌%◌, ◌≤◌, ◌<◌, ◌≡◌, refl, false, if◌then◌else◌, ltb, ◌==◌, List, ◌∷◌, get_or, length,
  size_max, add64, arith, Bool-cases, inl, inr, subst, ap,
}
use creeper_os_v.Outcome.{Outcome, returns, panics, Always}
use creeper_os_v.Heap.Cover.{covering}
use creeper_os_v.Heap.Blocks.{
  Allocation, no_allocation, get_or-block, max_size, usable, unused_by_holders, get_or-HasHeader,
  IsHeap, without,
}
use creeper_os_v.Heap.Carve.{store-Headers}
use creeper_os_v.Heap.Alloc.{Served, refused, served, kmalloc_locked-Served}
use creeper_os_v.Heap.Free.{kfree_locked-IsHeap}
use creeper_os_v.Heap.Locks.{
  LockedHeap, Call, answers, stops, spins, released, after_kmalloc, kmalloc_impl, kfree_impl,
}
use creeper_os_v.Heap.{Heap, store_word, kmalloc_locked}

-- The blocks after a call of kmalloc_impl that returned `p`.
abbrev pub with_block : (p size : ℕ) → List Allocation → List Allocation
with_block p size live = if p == 0 then live else record { header = p - 8; requested = size } ∷ live

-- A step: a call that returns, or the write of a word in a block behind its header.
pub data Step (k : LockedHeap) (live : List Allocation)
    : LockedHeap → List Allocation → Type 0 where
  allocates :
      {k' : LockedHeap} (size p : ℕ)
      → size ≤ max_size
      → kmalloc_impl size k ≡ answers (p, k')
      → Step k live k' (with_block p size live)
  frees :
      {k' : LockedHeap} (i : ℕ)
      → i < length live
      → kfree_impl (add64 (get_or live i no_allocation).header 8) k ≡ answers k'
      → Step k live k' (without i live)
  writes :
      (address value : ℕ)
      → address % 8 ≡ 0
      → 0 < covering (usable live) address
      → Step k live (record k { heap = store_word address value k.heap }) live

pub data Steps (k : LockedHeap) (live : List Allocation)
    : LockedHeap → List Allocation → Type 0 where
  start : Steps k live k live
  then_step :
      {k' k'' : LockedHeap} {live' live'' : List Allocation}
      → Steps k live k' live'
      → Step k' live' k'' live''
      → Steps k live k'' live''

-- The lock is free, and the heap is sound.
abbrev pub AtRest : LockedHeap → List Allocation → Type 0
AtRest k live = (k.heap_lock ≡ false) × IsHeap k.heap live

write-AtRest :
    (k : LockedHeap) (live : List Allocation) (address value : ℕ)
    → AtRest k live
    → address % 8 ≡ 0
    → 0 < covering (usable live) address
    → AtRest (record k { heap = store_word address value k.heap }) live
write-AtRest k live address value s aligned inside = (
  s.0,
  record {
    table = s.1.table;
    blocks = s.1.blocks;
    headers = store-Headers k.heap live address value aligned s.1.blocks s.1.headers (
        omega (
          arith,
          inside,
          s.1.once address,
          unused_by_holders k.heap.words live address s.1.headers,
        ));
    normal = s.1.normal;
    in_pages = s.1.in_pages;
    once = s.1.once;
  },
)

-- What comes back from the allocation under the lock.
with_block-IsHeap :
    (size : ℕ) (live : List Allocation) (o : ℕ × Heap)
    → Served size live o
    → IsHeap o.1 (with_block o.0 size live)
with_block-IsHeap size live o (refused s) = s
with_block-IsHeap size live o (served base high s) =
    let some_pointer : (base + 8 == 0) ≡ false = ground arith in
    let e : base + 8 - 8 ≡ base = omega arith in rw some_pointer (rw e s)

-- What a call answers, and otherwise the values it was given.
answer : {A : Type 0} → A → Call A → A
answer a (answers b) = b
answer a stops = a
answer a spins = a

returned :
    (size p : ℕ) (live : List Allocation) (o : Outcome (ℕ × Heap)) {k' : LockedHeap}
    → Always (Served size live) o
    → after_kmalloc o ≡ answers (p, k')
    → AtRest k' (with_block p size live)
unfolding after_kmalloc answer
returned size p live (returns (q, h)) s e =
    subst (λ r. AtRest r.1 (with_block r.0 size live)) (ap (answer (q, released h)) e)
      (refl, with_block-IsHeap size live (q, h) s)
returned size p live panics s e = cc

kmalloc_impl-AtRest :
    {k' : LockedHeap} (size p : ℕ) (k : LockedHeap) (live : List Allocation)
    → size ≤ max_size
    → AtRest k live
    → kmalloc_impl size k ≡ answers (p, k')
    → AtRest k' (with_block p size live)
unfolding kmalloc_impl answer
kmalloc_impl-AtRest size p k live fits s e = elim (Bool-cases (size == 0)) [
  | inl none_wanted ↦
      subst (λ r. AtRest r.1 (with_block r.0 size live)) (ap (answer (0, k)) (rw none_wanted at e))
        s
  | inr some_wanted ↦
      let small : ltb (size_max - 8) size ≡ false = ground (arith, fits) in
      returned size p live (kmalloc_locked size k.heap)
        (kmalloc_locked-Served size k.heap live fits s.1)
        (rw s.0 at (rw small at (rw some_wanted at e)))
]

kfree_impl-AtRest :
    {k' : LockedHeap} (i : ℕ) (k : LockedHeap) (live : List Allocation)
    → i < length live
    → AtRest k live
    → kfree_impl (add64 (get_or live i no_allocation).header 8) k ≡ answers k'
    → AtRest k' (without i live)
unfolding kfree_impl answer
kfree_impl-AtRest i k live h s e =
    let p = add64 (get_or live i no_allocation).header 8 in
    let some_pointer : (p == 0) ≡ false = ground (
      arith,
      (get_or-HasHeader k.heap.words i live h s.1.headers).1,
      get_or-block i live h s.1.blocks,
    ) in
    subst (λ k. AtRest k (without i live)) (ap (answer k) (rw s.0 at (rw some_pointer at e)))
      (refl, kfree_locked-IsHeap k.heap live i s.1 h)

Step-AtRest :
    {k k' : LockedHeap} {live live' : List Allocation}
    → AtRest k live
    → Step k live k' live'
    → AtRest k' live'
Step-AtRest {k} {k'} {live} s (allocates size p fits e) = kmalloc_impl-AtRest size p k live fits s e
Step-AtRest {k} {k'} {live} s (frees i h e) = kfree_impl-AtRest i k live h s e
Step-AtRest {k} {k'} {live} s (writes address value aligned inside) =
    write-AtRest k live address value s aligned inside

-- From a sound heap with the lock free, after any calls of `kmalloc_impl` for at most `max_size` bytes
-- that return, calls of `kfree_impl` on blocks in use, and writes of words into blocks behind their
-- headers: the lock is free, every address is in at most one free region, block in use or free page of
-- addresses, and the header of each block in use holds the size
-- that was asked for.
pub Steps-AtRest :
    {k : LockedHeap} {live : List Allocation} {k' : LockedHeap} {live' : List Allocation}
    → AtRest k live
    → Steps k live k' live'
    → AtRest k' live'
Steps-AtRest s start = s
Steps-AtRest s (then_step before last) = Step-AtRest (Steps-AtRest s before) last
