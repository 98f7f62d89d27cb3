-- ===== src/Heap/Tidy.antt =====
-- The sort and the merge of kfree_impl in kernel/src/memory/memory.c keep the free addresses.
use creeper_os_v.Prelude.{
  ℕ, zero, suc, ◌≡◌, refl, ap, Bool, true, false, not, ◌&&◌, ◌||◌, if◌then◌else◌, ltb, ◌==◌, List,
  [], ◌∷◌, ◌++◌, length-append, add64, arith,
}
use creeper_os_v.Heap.Regions.{
  FreeRegion, no_region, sort_pass, sort_regions, merge_pass, merge_regions, tidy,
}
use creeper_os_v.Heap.Cover.{
  IsSound, AllSound, Kept, Kept-trans, Kept-cons, Kept-swap, covering-append, AllSound-append,
}

Kept-refl : (l : List FreeRegion) → AllSound l → Kept l l
Kept-refl l h = record { sound = h; same = λ a. refl; slots = refl }

-- A pass that leaves the second slot where it is.
Kept-under :
    {x f : FreeRegion} {ys r : List FreeRegion} (w : FreeRegion)
    → IsSound w
    → Kept (x ∷ ys) (f ∷ r)
    → Kept (x ∷ w ∷ ys) (f ∷ w ∷ r)
Kept-under w h p = record {
  sound = (p.sound.0, (h, p.sound.1));
  same = λ a. omega (arith, p.same a);
  slots = ap suc p.slots;
}

sort_step :
    (swaps : Bool) (x y : FreeRegion) (ys : List FreeRegion)
    → AllSound (x ∷ y ∷ ys)
    → ((z : FreeRegion) → IsSound z → Kept (z ∷ ys) ((sort_pass z ys).0 ∷ (sort_pass z ys).1))
    → Kept (x ∷ y ∷ ys) (
        (sort_pass (if swaps then y else x) ys).0
        ∷ (if swaps then x else y)
        ∷ (sort_pass (if swaps then y else x) ys).1)
sort_step true x y ys h rest = Kept-swap (Kept-under x h.0 (rest y h.1.0))
sort_step false x y ys h rest = Kept-under y h.1.0 (rest x h.0)

sort_pass-Kept :
    (x : FreeRegion) (ys : List FreeRegion)
    → AllSound (x ∷ ys)
    → Kept (x ∷ ys) ((sort_pass x ys).0 ∷ (sort_pass x ys).1)
unfolding sort_pass
sort_pass-Kept x [] h = Kept-refl (x ∷ []) h
sort_pass-Kept x (y ∷ ys) h =
    sort_step (not (y.length == 0) && ((x.length == 0) || ltb y.base_addr x.base_addr)) x y ys h
      (λ z s. sort_pass-Kept z ys (s, h.1.1))

pub sort_regions-Kept :
    (rounds : ℕ) (l : List FreeRegion) → AllSound l → Kept l (sort_regions rounds l)
unfolding sort_regions
sort_regions-Kept zero l h = Kept-refl l h
sort_regions-Kept (suc rounds) [] h = Kept-refl [] h
sort_regions-Kept (suc rounds) (x ∷ xs) h =
    let p = sort_pass-Kept x xs h in
    Kept-trans p (Kept-cons _ p.sound.0 (sort_regions-Kept rounds _ p.sound.1))

-- Two regions that touch as one, and the empty slot at the end.
merged-Kept :
    (x y : FreeRegion) {f : FreeRegion} {ys r : List FreeRegion}
    → add64 x.base_addr x.length ≡ y.base_addr
    → IsSound x
    → IsSound y
    → Kept (record x { length = add64 x.length y.length } ∷ ys) (f ∷ r)
    → Kept (x ∷ y ∷ ys) (f ∷ r ++ no_region ∷ [])
merged-Kept x y {f} {ys} {r} e sx sy p = record {
  sound = (p.sound.0, AllSound-append r p.sound.1);
  same = λ a. ground (arith, e, sx, sy, p.same a, covering-append r a);
  slots = omega (arith, p.slots, length-append r (no_region ∷ []));
}

grown-IsSound :
    (x y : FreeRegion)
    → add64 x.base_addr x.length ≡ y.base_addr
    → IsSound x
    → IsSound y
    → IsSound (record x { length = add64 x.length y.length })
grown-IsSound x y e sx sy = (sx.0, omega (arith, e, sx, sy), omega (arith, e, sx, sy))

merge_step :
    (joins : Bool) (x y : FreeRegion) (ys : List FreeRegion)
    → (joins ≡ true → add64 x.base_addr x.length ≡ y.base_addr)
    → AllSound (x ∷ y ∷ ys)
    → ((z : FreeRegion) → IsSound z → Kept (z ∷ ys) ((merge_pass z ys).0 ∷ (merge_pass z ys).1))
    → Kept (x ∷ y ∷ ys) (
        (merge_pass (if joins then record x { length = add64 x.length y.length } else x) ys).0
        ∷ (if joins
            then (merge_pass
                (if joins then record x { length = add64 x.length y.length } else x)
                ys).1
              ++ no_region ∷ []
            else y
              ∷ (merge_pass
                  (if joins then record x { length = add64 x.length y.length } else x)
                  ys).1))
merge_step true x y ys e h rest =
    merged-Kept x y (e refl) h.0 h.1.0 (rest _ (grown-IsSound x y (e refl) h.0 h.1.0))
merge_step false x y ys e h rest = Kept-under y h.1.0 (rest x h.0)

merge_pass-Kept :
    (x : FreeRegion) (ys : List FreeRegion)
    → AllSound (x ∷ ys)
    → Kept (x ∷ ys) ((merge_pass x ys).0 ∷ (merge_pass x ys).1)
unfolding merge_pass
merge_pass-Kept x [] h = Kept-refl (x ∷ []) h
merge_pass-Kept x (y ∷ ys) h =
    merge_step (not (y.length == 0) && (add64 x.base_addr x.length == y.base_addr)) x y ys
      (λ j. ground arith) h (λ z s. merge_pass-Kept z ys (s, h.1.1))

merge_here :
    (empty : Bool) (x : FreeRegion) (xs : List FreeRegion)
    → AllSound (x ∷ xs)
    → Kept (x ∷ xs) (
        (if empty then (x, xs) else merge_pass x xs).0
        ∷ (if empty then (x, xs) else merge_pass x xs).1)
merge_here true x xs h = Kept-refl (x ∷ xs) h
merge_here false x xs h = merge_pass-Kept x xs h

pub merge_regions-Kept :
    (rounds : ℕ) (l : List FreeRegion) → AllSound l → Kept l (merge_regions rounds l)
unfolding merge_regions
merge_regions-Kept zero l h = Kept-refl l h
merge_regions-Kept (suc rounds) [] h = Kept-refl [] h
merge_regions-Kept (suc rounds) (x ∷ xs) h =
    let p = merge_here (x.length == 0) x xs h in
    Kept-trans p (Kept-cons _ p.sound.0 (merge_regions-Kept rounds _ p.sound.1))

-- The table after a block went into it.
pub tidy-Kept : (l : List FreeRegion) → AllSound l → Kept l (tidy l).free_regions
unfolding tidy
tidy-Kept l h = let p = sort_regions-Kept 101 l h in Kept-trans p (merge_regions-Kept 101 _ p.sound)
