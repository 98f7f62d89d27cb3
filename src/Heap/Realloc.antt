-- ===== src/Heap/Realloc.antt =====
-- krealloc_impl of kernel/src/memory/memory.c never gives memory.
use creeper_os_v.Prelude.{
  ℕ, ◌-◌, ◌≤◌, ◌<◌, ◌≡◌, refl, true, false, ltb, ◌==◌, size_max, arith, Bool-cases, inl, inr,
}
use creeper_os_v.Heap.Locks.{LockedHeap, answers, spins, released, kfree_impl, moved, krealloc_impl}

-- With the lock free, `krealloc_impl` never returns a block. For a size that `kmalloc_impl` serves, and
-- for the size 0 with a pointer, it waits for the lock that it holds itself, without end. For the size
-- 0 and NULL it returns NULL, and nothing changed. For a size that is too large it returns NULL, and
-- the lock stays taken exactly where the pointer was NULL.
pub krealloc_impl-NoBlock :
    (ptr size : ℕ) (k : LockedHeap)
    → k.heap_lock ≡ false
    → (0 < size → size ≤ size_max - 8 → krealloc_impl ptr size k ≡ spins)
      × (size ≡ 0 → 0 < ptr → krealloc_impl ptr size k ≡ spins)
      × (size ≡ 0 → ptr ≡ 0 → krealloc_impl ptr size k ≡ answers (0, released k.heap))
      × (size_max - 8 < size
          → krealloc_impl ptr size k ≡ answers (0, record { heap_lock = ptr == 0; heap = k.heap }))
unfolding krealloc_impl moved kfree_impl
krealloc_impl-NoBlock ptr size k free = (
  λ pos fits.
      let some_size : (size == 0) ≡ false = ground arith in
      let small : ltb (size_max - 8) size ≡ false = ground (arith, fits) in
      rw free (
        rw some_size (
          rw small (elim (Bool-cases (ptr == 0)) [
            | inl null ↦ rw null refl
            | inr pointer ↦ rw pointer refl
          ]))),
  λ none_wanted pos.
      let pointer : (ptr == 0) ≡ false = ground arith in rw free (rw none_wanted (rw pointer refl)),
  λ none_wanted null. rw free (rw none_wanted (rw null refl)),
  λ large.
      let some_size : (size == 0) ≡ false = ground (arith, large) in
      let big : ltb (size_max - 8) size ≡ true = ground (arith, large) in
      rw free (
        rw some_size (
          rw big (elim (Bool-cases (ptr == 0)) [
            | inl null ↦ rw null refl
            | inr pointer ↦ rw pointer refl
          ]))),
)
