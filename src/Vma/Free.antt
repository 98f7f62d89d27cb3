-- ===== src/Vma/Free.antt =====
-- What `kvma_free` of kernel/src/arch/x86_64/mm/vmm.c gives back to the free addresses.
use creeper_os_v.Prelude.{
  ℕ, ◌+◌, ◌*◌, ◌^◌, ◌≤◌, ◌<◌, ◌≡◌, refl, true, false, ◌||◌, [], ◌∷◌, ltb, ◌==◌, arith, inl, inr,
  Bool-cases, add64, mul64,
}
use creeper_os_v.Outcome.{Outcome, returns}
use creeper_os_v.Vma.{
  Region, FreeList, page_size, region_end, nodes_taken, place_front, merge_next, place_after, walk,
  free_at, kvma_free,
}
use creeper_os_v.Vma.Cover.{in_pages, covers, IsNormal, IsNormal-lower}

-- The `count` pages at `base` are some pages above `lo`, none of them free, that end below the end of
-- the address space.
pub record IsTaken (lo base count : ℕ) (l : FreeList) : Type 0 where
  pub above : lo < base
  pub some_pages : 0 < count
  pub below : base + count * page_size < 2 ^ 64
  pub taken : (a : ℕ) → in_pages base count a ≡ true → covers l a ≡ false

-- The call returns a list in normal form with those pages free as well, and no other.
abbrev pub Gives : (lo base count : ℕ) → FreeList → Outcome FreeList → Type 0
Gives lo base count l r =
    (l' : FreeList) × (r ≡ returns l')
    × IsNormal lo l'
    × ((a : ℕ) → covers l' a ≡ (in_pages base count a || covers l a))

-- The walk stops in front of a region at or above `base`.
abbrev Starts : ℕ → FreeList → Type 0
Starts base [] = Unit {0}
Starts base (cur ∷ next) = base ≤ cur.base

-- The block then ends before that region.
clear_of :
    (lo base count : ℕ) (cur : Region) (next : FreeList)
    → IsNormal lo (cur ∷ next)
    → IsTaken lo base count (cur ∷ next)
    → base ≤ cur.base
    → base + count * page_size ≤ cur.base
clear_of lo base count cur next n b at = ground (arith, n.1, b.taken cur.base)

place_front-Gives :
    (lo taken base count : ℕ) (l : FreeList)
    → taken < 512
    → IsNormal lo l
    → IsTaken lo base count l
    → Starts base l
    → Gives lo base count l (place_front taken base count l)
unfolding place_front
place_front-Gives lo taken base count [] room n b at = (
  record { base = base; pages = count } ∷ [],
  ground arith,
  (b.above, b.some_pages, b.below, tt),
  λ a. ground arith,
)
place_front-Gives lo taken base count (cur ∷ next) room n b at =
    let apart = clear_of lo base count cur next n b at in
    let top : add64 base (mul64 count page_size) ≡ base + count * page_size =
      omega (arith, b.below) in
    let sum : add64 cur.pages count ≡ cur.pages + count = omega (arith, n.2, b.below) in
    elim (Bool-cases (base + count * page_size == cur.base)) [
      | inl touch ↦
          let meets : base + count * page_size ≡ cur.base = ground arith in
          (
            record { base = base; pages = add64 cur.pages count } ∷ next,
            rw top (rw touch refl),
            rw sum (
              b.above,
              omega (arith, n.1),
              omega (arith, n.2),
              IsNormal-lower next (omega arith) n.3,
            ),
            λ a. rw sum (ground arith),
          )
      | inr gap ↦ (
        record { base = base; pages = count } ∷ cur ∷ next,
        rw top (rw gap (ground arith)),
        (b.above, b.some_pages, b.below, (ground arith, n.1, n.2, n.3)),
        λ a. ground arith,
      )
    ]

IsTaken-tail :
    (lo base count : ℕ) (p : Region) (l : FreeList) {hi : ℕ}
    → hi < base
    → IsTaken lo base count (p ∷ l)
    → IsTaken hi base count l
IsTaken-tail lo base count p l above b = record {
  above = above;
  some_pages = b.some_pages;
  below = b.below;
  taken = λ a h. ground (arith, b.taken a h);
}

-- The region before the block ends at it or below it.
behind :
    (lo base count : ℕ) (p : Region) (l : FreeList)
    → IsTaken lo base count (p ∷ l)
    → p.base < base
    → p.base + p.pages * page_size ≤ base
behind lo base count p l b lt = ground (arith, b.some_pages, b.taken base)

-- Both neighbours, or the one in front, are merged with the block.
merge_next-Gives :
    (lo base count : ℕ) (p : Region) (l : FreeList)
    → IsNormal lo (p ∷ l)
    → IsTaken lo base count (p ∷ l)
    → Starts base l
    → p.base + p.pages * page_size ≡ base
    → Gives lo base count
        (p ∷ l)
        (returns (merge_next (record p { pages = add64 p.pages count }) l))
unfolding merge_next
merge_next-Gives lo base count p [] n b at meets =
    let sum : add64 p.pages count ≡ p.pages + count = omega (arith, n.2, b.below) in
    (
      _,
      refl,
      rw sum (n.0, omega (arith, n.1), omega (arith, b.below), tt),
      λ a. rw sum (ground arith),
    )
merge_next-Gives lo base count p (cur ∷ next) n b at meets =
    let sum : add64 p.pages count ≡ p.pages + count = omega (arith, n.2, b.below) in
    let top : add64 p.base (mul64 (p.pages + count) page_size) ≡ base + count * page_size =
      omega (arith, b.below) in
    let rest = IsTaken-tail lo base count p (cur ∷ next) {hi = p.base} (omega (arith, n.1)) b in
    let apart =
      clear_of p.base base count cur next (omega (arith, n.1, n.3.0), n.3.1, n.3.2, n.3.3) rest
        at in
    rw (sum, top)
      (elim (Bool-cases (base + count * page_size == cur.base)) [
        | inl touch ↦
            let join : base + count * page_size ≡ cur.base = ground arith in
            let all : add64 (p.pages + count) cur.pages ≡ p.pages + count + cur.pages =
              omega (arith, n.3.2) in
            (
              record p { pages = p.pages + count + cur.pages } ∷ next,
              rw touch (rw all refl),
              (
                n.0,
                omega (arith, n.1),
                omega (arith, n.3.2),
                IsNormal-lower next (omega arith) n.3.3,
              ),
              λ a. ground arith,
            )
        | inr gap ↦ (
          record p { pages = p.pages + count } ∷ cur ∷ next,
          rw gap refl,
          (n.0, omega (arith, n.1), omega (arith, b.below), (ground arith, n.3.1, n.3.2, n.3.3)),
          λ a. ground arith,
        )
      ])

place_after-Gives :
    (lo taken base count : ℕ) (p : Region) (l : FreeList)
    → taken < 512
    → IsNormal lo (p ∷ l)
    → IsTaken lo base count (p ∷ l)
    → p.base < base
    → Starts base l
    → Gives lo base count (p ∷ l) (place_after taken base count p l)
unfolding place_after
place_after-Gives lo taken base count p l room n b lt at =
    let ends : region_end p ≡ p.base + p.pages * page_size = omega (arith, n.2) in
    let before = behind lo base count p l b lt in
    rw ends (elim (Bool-cases (p.base + p.pages * page_size == base)) [
      | inl touch ↦ rw touch (merge_next-Gives lo base count p l n b at (ground arith))
      | inr gap ↦
          let apart : p.base + p.pages * page_size < base = ground arith in
          let (l', e, n', c) =
            place_front-Gives (p.base + p.pages * page_size) taken base count l room n.3
              (IsTaken-tail lo base count p l apart b) at in
          rw gap (rw e (p ∷ l', refl, (n.0, n.1, n.2, n'), λ a. ground (arith, c a)))
    ])

walk-Gives :
    (lo taken base count : ℕ) (p : Region) (l : FreeList)
    → taken < 512
    → IsNormal lo (p ∷ l)
    → IsTaken lo base count (p ∷ l)
    → p.base < base
    → Gives lo base count (p ∷ l) (walk taken base count p l)
unfolding walk
walk-Gives lo taken base count p [] room n b lt =
    place_after-Gives lo taken base count p [] room n b lt tt
walk-Gives lo taken base count p (cur ∷ next) room n b lt = elim (Bool-cases (ltb cur.base base)) [
  | inl further ↦
      let here : cur.base < base = ground arith in
      let (l', e, n', c) =
        walk-Gives (p.base + p.pages * page_size) taken base count cur next room n.3
          (IsTaken-tail lo base count p (cur ∷ next) (omega (arith, n.3.0)) b) here in
      rw further (rw e (p ∷ l', refl, (n.0, n.1, n.2, n'), λ a. ground (arith, c a)))
  | inr stop ↦
      rw stop (place_after-Gives lo taken base count p (cur ∷ next) room n b lt (ground arith))
]

-- In a free list in normal form with a node left in the pool, `kvma_free` of a block none of whose
-- addresses is free makes the block's addresses free, and no other, and the list comes back in normal
-- form: sorted, and merged wherever two regions touch.
pub kvma_free-Gives :
    (lo base count : ℕ) (l : FreeList)
    → nodes_taken l < 512
    → IsNormal lo l
    → IsTaken lo base count l
    → Gives lo base count l (kvma_free base count l)
unfolding kvma_free free_at
kvma_free-Gives lo base count [] room n b =
    place_front-Gives lo (nodes_taken []) base count [] room n b tt
kvma_free-Gives lo base count (cur ∷ next) room n b = elim (Bool-cases (ltb cur.base base)) [
  | inl further ↦
      rw further
        (walk-Gives lo (nodes_taken (cur ∷ next)) base count cur next room n b (ground arith))
  | inr stop ↦ rw stop (
      place_front-Gives lo (nodes_taken (cur ∷ next)) base count (cur ∷ next) room n b
        (ground arith))
]
