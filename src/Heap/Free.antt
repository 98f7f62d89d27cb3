-- ===== src/Heap/Free.antt =====
-- kfree_impl of kernel/src/memory/memory.c.
use creeper_os_v.Prelude.{
  ℕ, suc, ◌+◌, ◌/◌, ◌≤◌, ◌<◌, ◌≡◌, ◌⊎◌, refl, subst, ap, ◌∙◌, false, ◌==◌, none, some, List, [],
  ◌∷◌, get_or, length, add64, sub64, arith, Bool-cases, inl, inr,
}
use creeper_os_v.Heap.Regions.{FreeRegion, max_free_regions, and_not_7u, place, tidy, count_regions}
use creeper_os_v.Heap.Cover.{hits, covering, IsSound, AllSound}
use creeper_os_v.Heap.Search.Found.{IsTable}
use creeper_os_v.Heap.Tidy.{tidy-Kept}
use creeper_os_v.Heap.Blocks.{
  Allocation, no_allocation, region_of, get_or-block, HasHeader, IsHeap, without, covering-without,
  without-AllSound, without-Headers, get_or-HasHeader,
}
use creeper_os_v.Heap.{Heap, after_place, put_back, kfree_locked}

-- The region went into an empty slot.
pub record Placed (r : FreeRegion) (l l' : List FreeRegion) : Type 0 where
  pub sound : AllSound l'
  pub adds : (a : ℕ) → covering l' a ≡ covering l a + hits r a
  pub slots : length l' ≡ length l

place-cases :
    (r : FreeRegion) (l : List FreeRegion)
    → IsSound r
    → AllSound l
    → (place r l ≡ none) ⊎ ((l' : List FreeRegion) × (place r l ≡ some l') × Placed r l l')
unfolding place
place-cases r [] s h = inl refl
place-cases r (x ∷ xs) s h = elim (Bool-cases (x.length == 0)) [
  | inl empty ↦ rw empty (
      inr (
        r ∷ xs,
        refl,
        record { sound = (s, h.1); adds = λ a. ground (arith, empty); slots = refl },
      ))
  | inr full ↦ rw full (elim (place-cases r xs s h.1) [
    | inl e ↦ rw e (inl refl)
    | inr (ys, e, p) ↦ rw e (
        inr (
          x ∷ ys,
          refl,
          record {
            sound = (h.0, p.sound);
            adds = λ a. omega (arith, p.adds a);
            slots = ap suc p.slots;
          },
        ))
  ])
]

count_regions_le : (l : List FreeRegion) → count_regions l ≤ length l
unfolding count_regions
count_regions_le [] = omega arith
count_regions_le (r ∷ rs) = ground (arith, count_regions_le rs)

tidy-IsTable : (l : List FreeRegion) → AllSound l → length l ≡ max_free_regions → IsTable (tidy l)
unfolding tidy
tidy-IsTable l h n =
    let p = tidy-Kept l h in
    let slots = p.slots ∙ n in
    record {
      sound = p.sound;
      slots = slots;
      counted =
          subst (λ k. count_regions (tidy l).free_regions ≤ k) slots
            (count_regions_le (tidy l).free_regions);
    }

-- What kfree_impl reads from the header is the block.
freed_block :
    (h : Heap) (b : Allocation)
    → IsSound (region_of b)
    → HasHeader h.words b
    → (sub64 (add64 b.header 8) 8 ≡ b.header)
      × (and_not_7u (add64 (add64 (h.words (b.header / 8)) 8) 7) ≡ (region_of b).length)
      × ((add64 (h.words (b.header / 8)) 8 == 0) ≡ false)
freed_block h b s k = (omega (arith, s), omega (arith, k.0, k.1), ground (arith, k.0, k.1))

kfree_locked-put_back :
    (h : Heap) (b : Allocation)
    → IsSound (region_of b)
    → HasHeader h.words b
    → kfree_locked (add64 b.header 8) h ≡ put_back b.header (region_of b).length h
unfolding kfree_locked
kfree_locked-put_back h b s k =
    let (start, size, some_size) = freed_block h b s k in
    rw start (rw some_size (ap (λ n. put_back b.header n h) size))

-- A block that goes back is free, or it is lost where no slot is left.
pub put_back-IsHeap :
    (h : Heap) (live : List Allocation) (i : ℕ)
    → IsHeap h live
    → i < length live
    → IsHeap
        (put_back
          (get_or live i no_allocation).header
          (region_of (get_or live i no_allocation)).length
          h)
        (without i live)
unfolding put_back after_place
put_back-IsHeap h live i k n =
    let b = region_of (get_or live i no_allocation) in
    let blocks = without-AllSound i live k.blocks in
    let headers = without-Headers h.words i live k.headers in
    elim (place-cases b h.region_map.free_regions (get_or-block i live n k.blocks) k.table.sound) [
      | inl full ↦ rw full (record {
        table = k.table;
        blocks = blocks;
        headers = headers;
        normal = k.normal;
        in_pages = k.in_pages;
        once = λ a. omega (arith, k.once a, covering-without i live a n);
      })
      | inr (regions, e, p) ↦
          let t = tidy-Kept regions p.sound in
          rw e (record {
            table = tidy-IsTable regions p.sound (p.slots ∙ k.table.slots);
            blocks = blocks;
            headers = headers;
            normal = k.normal;
            in_pages = k.in_pages;
            once = λ a. omega (arith, k.once a, covering-without i live a n, p.adds a, t.same a);
          })
    ]

pub kfree_locked-IsHeap :
    (h : Heap) (live : List Allocation) (i : ℕ)
    → IsHeap h live
    → i < length live
    → IsHeap (kfree_locked (add64 (get_or live i no_allocation).header 8) h) (without i live)
kfree_locked-IsHeap h live i k n =
    rw
      (kfree_locked-put_back h (get_or live i no_allocation) (get_or-block i live n k.blocks)
        (get_or-HasHeader h.words i live n k.headers))
      (put_back-IsHeap h live i k n)
