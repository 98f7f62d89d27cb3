-- ===== src/Vma/RoundTrip.antt =====
-- The free list of kernel/src/arch/x86_64/mm/vmm.c is determined by its addresses, so that
-- `kvma_free` undoes `kvma_alloc`.
use creeper_os_v.Prelude.{ℕ, ◌+◌, ◌*◌, ◌≤◌, ◌<◌, ◌≡◌, refl, [], ◌∷◌, arith, inl, inr, sym}
use creeper_os_v.Outcome.{returns}
use creeper_os_v.Vma.{Region, FreeList, page_size, nodes_taken, kvma_alloc, kvma_free}
use creeper_os_v.Vma.Cover.{covers, IsNormal, covers-low}
use creeper_os_v.Vma.Alloc.{kvma_alloc-Takes}
use creeper_os_v.Vma.Free.{IsTaken, kvma_free-Gives}

same_base :
    (lo : ℕ) (r q : Region) (rs qs : FreeList)
    → IsNormal lo (r ∷ rs)
    → IsNormal lo (q ∷ qs)
    → covers (r ∷ rs) r.base ≡ covers (q ∷ qs) r.base
    → q.base ≤ r.base
same_base lo r q rs qs n n' h =
    ground (arith, n.1, covers-low (q.base + q.pages * page_size) qs r.base n'.3)

same_end :
    (lo : ℕ) (r q : Region) (rs qs : FreeList)
    → IsNormal lo (r ∷ rs)
    → IsNormal lo (q ∷ qs)
    → r.base ≡ q.base
    → covers (r ∷ rs) (r.base + r.pages * page_size)
      ≡ covers (q ∷ qs) (r.base + r.pages * page_size)
    → q.pages ≤ r.pages
same_end lo r q rs qs n n' e h =
    ground (arith, covers-low (r.base + r.pages * page_size) rs (r.base + r.pages * page_size) n.3)

-- Two lists in normal form with the same free addresses are the same list.
pub normal_ext :
    (lo : ℕ) (l l' : FreeList)
    → IsNormal lo l
    → IsNormal lo l'
    → ((a : ℕ) → covers l a ≡ covers l' a)
    → l ≡ l'
normal_ext lo [] [] n n' h = refl
normal_ext lo [] (q ∷ qs) n n' h = absurd (ground (arith, h q.base, n'.1))
normal_ext lo (r ∷ rs) [] n n' h = absurd (ground (arith, h r.base, n.1))
normal_ext lo (r ∷ rs) (q ∷ qs) n n' h =
    let base : r.base ≡ q.base = omega (
      arith,
      same_base lo r q rs qs n n' (h r.base),
      same_base lo q r qs rs n' n (sym (h q.base)),
    ) in
    let pages : r.pages ≡ q.pages = omega (
      arith,
      same_end lo r q rs qs n n' base (h (r.base + r.pages * page_size)),
      same_end lo q r qs rs n' n (sym base) (sym (h (q.base + q.pages * page_size))),
    ) in
    let end = r.base + r.pages * page_size in
    let ends : q.base + q.pages * page_size ≡ end = omega (arith, base, pages) in
    let n'' = rw ends at n'.3 in
    let rest : rs ≡ qs =
      normal_ext end rs qs n.3 n''
        λ a. ground (arith, h a, base, pages, covers-low end rs a n.3, covers-low end qs a n'') in
    let head : r ≡ q = ground arith in rw (rest, head)

-- From a free list in normal form, for `count` above 0, freeing what `kvma_alloc` has just returned
-- restores the very list, if the pool has a node left.
pub kvma_free-kvma_alloc :
    (lo count : ℕ) (l : FreeList) {base : ℕ} {l' : FreeList}
    → 0 < count
    → IsNormal lo l
    → nodes_taken l' < 512
    → kvma_alloc count l ≡ returns (base, l')
    → kvma_free base count l' ≡ returns l
kvma_free-kvma_alloc lo count l {base} {l'} pos n room e =
    elim (kvma_alloc-Takes lo count l pos n) [
      | inl (stops, _) ↦ absurd (cc)
      | inr (base', left, e', took) ↦
          let p : base' ≡ base = cc in
          let q : left ≡ l' = cc in
          let back : IsTaken lo base' count left = record {
            above = took.above;
            some_pages = pos;
            below = took.below;
            taken = λ a h. ground (arith, took.left a);
          } in
          let (l'', e'', n'', c) =
            kvma_free-Gives lo base' count left (rw q room) took.normal back in
          let same : l'' ≡ l =
            normal_ext lo l'' l n'' n λ a. ground (arith, c a, took.left a, took.were_free a) in
          rw (← p, ← q, e'', same) refl
    ]
