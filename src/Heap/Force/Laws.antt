-- ===== src/Heap/Force/Laws.antt =====
-- The merge of touching regions in force_free_nolock of kernel/src/memory/memory.c.
use creeper_os_v.Prelude.{
  ℕ, zero, suc, ◌+◌, ◌-◌, ◌%◌, ◌^◌, ◌≤◌, ◌<◌, ◌≡◌, ◌≢◌, refl, ap, ◌∙◌, subst, Bool, true, false,
  ◌&&◌, if◌then◌else◌, leb, ◌==◌, List, [], ◌∷◌, get_or, length, sub64, arith, Bool-cases, inl, inr,
}
use creeper_os_v.Heap.Regions.{FreeRegion, no_region, max_free_regions, set_region}
use creeper_os_v.Heap.Force.{
  close_gap, remove_region, area_end, hull, Merging, merge_other, merge_others,
}
use creeper_os_v.Heap.Cover.{
  hits, covering, IsSound, AllSound, no_region-IsSound, get_or-IsSound, set_region-AllSound,
  length-set_region, covering-set_region,
}
use creeper_os_v.Heap.Search.Found.{get_or-set_region}

-- The table, and a bound on how many regions hold an address.
pub record Below (bound : ℕ → ℕ) (l : List FreeRegion) : Type 0 where
  pub sound : AllSound l
  pub slots : length l ≡ max_free_regions
  pub within : (a : ℕ) → covering l a ≤ bound a

close_gap-AllSound : (moves : ℕ) (l : List FreeRegion) → AllSound l → AllSound (close_gap moves l)
unfolding close_gap
close_gap-AllSound zero l h = (no_region-IsSound, h)
close_gap-AllSound (suc moves) [] h = (no_region-IsSound, tt)
close_gap-AllSound (suc moves) (x ∷ xs) h = (h.0, close_gap-AllSound moves xs h.1)

length-close_gap : (moves : ℕ) (l : List FreeRegion) → length (close_gap moves l) ≡ suc (length l)
unfolding close_gap
length-close_gap zero l = refl
length-close_gap (suc moves) [] = refl
length-close_gap (suc moves) (x ∷ xs) = ap suc (length-close_gap moves xs)

covering-close_gap :
    (moves : ℕ) (l : List FreeRegion) (a : ℕ) → covering (close_gap moves l) a ≡ covering l a
unfolding close_gap
covering-close_gap zero l a = ground arith
covering-close_gap (suc moves) [] a = ground arith
covering-close_gap (suc moves) (x ∷ xs) a = ap (λ n. hits x a + n) (covering-close_gap moves xs a)

remove_region-AllSound :
    (j moves : ℕ) (l : List FreeRegion) → AllSound l → AllSound (remove_region j moves l)
unfolding remove_region
remove_region-AllSound j moves [] h = tt
remove_region-AllSound zero moves (x ∷ xs) h = close_gap-AllSound moves xs h.1
remove_region-AllSound (suc j) moves (x ∷ xs) h = (h.0, remove_region-AllSound j moves xs h.1)

length-remove_region :
    (j moves : ℕ) (l : List FreeRegion) → length (remove_region j moves l) ≡ length l
unfolding remove_region
length-remove_region j moves [] = refl
length-remove_region zero moves (x ∷ xs) = length-close_gap moves xs
length-remove_region (suc j) moves (x ∷ xs) = ap suc (length-remove_region j moves xs)

covering-remove_region :
    (j moves : ℕ) (l : List FreeRegion) (a : ℕ)
    → covering (remove_region j moves l) a + hits (get_or l j no_region) a ≡ covering l a
unfolding remove_region
covering-remove_region j moves [] a = ground arith
covering-remove_region zero moves (x ∷ xs) a = omega (arith, covering-close_gap moves xs a)
covering-remove_region (suc j) moves (x ∷ xs) a = omega (arith, covering-remove_region j moves xs a)

other_slot :
    (i j : ℕ) (r : FreeRegion) (l : List FreeRegion)
    → i ≢ j
    → get_or (set_region i r l) j no_region ≡ get_or l j no_region
unfolding set_region
other_slot i j r [] h = refl
other_slot zero zero r (x ∷ xs) h = absurd (h refl)
other_slot zero (suc j) r (x ∷ xs) h = refl
other_slot (suc i) zero r (x ∷ xs) h = refl
other_slot (suc i) (suc j) r (x ∷ xs) h = other_slot i j r xs (λ e. h (ap suc e))

-- Two regions that touch.
abbrev pub Touch : FreeRegion → FreeRegion → Type 0
Touch r s = (r.base_addr ≤ s.base_addr + s.length) × (s.base_addr ≤ r.base_addr + r.length)

abbrev pub hull_of : FreeRegion → FreeRegion → FreeRegion
hull_of r s = hull r.base_addr (area_end r) s.base_addr (area_end s)

multiple-sub64 :
    (low high : ℕ)
    → low % 8 ≡ 0
    → high % 8 ≡ 0
    → low ≤ high
    → high < 2 ^ 64
    → sub64 high low % 8 ≡ 0
multiple-sub64 low high l h le lt = omega arith

pub hull-IsSound : (r s : FreeRegion) → IsSound r → IsSound s → Touch r s → IsSound (hull_of r s)
hull-IsSound r s hr hs t = (
  ground (arith, hr, hs),
  multiple-sub64 _ _ (ground (arith, hr, hs)) (ground (arith, hr, hs)) (ground (arith, hr, hs, t))
      (ground (arith, hr, hs)),
  ground (arith, hr, hs, t),
)

pub hits-hull :
    (r s : FreeRegion) (a : ℕ)
    → IsSound r
    → IsSound s
    → Touch r s
    → hits (hull_of r s) a ≤ hits r a + hits s a
hits-hull r s a hr hs t = ground (arith, hr, hs, t)

merge_other-Below :
    {bound : ℕ → ℕ} (j : ℕ) (m : Merging)
    → Below bound m.regions
    → m.region < max_free_regions
    → Touch (get_or m.regions m.region no_region) (get_or m.regions j no_region)
    → Below bound (merge_other j m).regions
unfolding merge_other
merge_other-Below {bound} j m b h t =
    let r = get_or m.regions m.region no_region in
    let other = get_or m.regions j no_region in
    let hr = get_or-IsSound m.regions m.region b.sound in
    let ho = get_or-IsSound m.regions j b.sound in
    let set = set_region m.region (hull_of r other) m.regions in
    record {
      sound = remove_region-AllSound j (m.count - 1 - j) set (
          set_region-AllSound m.region (hull_of r other) m.regions (hull-IsSound r other hr ho t)
            b.sound);
      slots =
          length-remove_region j (m.count - 1 - j) set
          ∙ length-set_region m.region (hull_of r other) m.regions
          ∙ b.slots;
      within = λ a.
          let gone = covering-remove_region j (m.count - 1 - j) set a in
          let put =
            covering-set_region m.region (hull_of r other) m.regions a
              (omega (arith, h, b.slots)) in
          elim (Bool-cases (m.region == j)) [
            | inl same ↦
                let here : get_or set j no_region ≡ hull_of r other =
                  subst (λ k. get_or set k no_region ≡ hull_of r other) (ground (arith, same))
                    (get_or-set_region m.region (hull_of r other) m.regions
                      (omega (arith, h, b.slots))) in
                omega (arith, rw here at gone, put, b.within a)
            | inr apart ↦
                let there : get_or set j no_region ≡ other =
                  other_slot m.region j (hull_of r other) m.regions (ground (arith, apart)) in
                omega (arith, rw there at gone, put, b.within a, hits-hull r other a hr ho t)
          ];
    }

-- What the loop over j keeps.
abbrev pub MergingBelow : (ℕ → ℕ) → Merging → Type 0
MergingBelow bound m =
    Below bound m.regions × (m.region < max_free_regions) × (m.count ≤ max_free_regions)

merge_if-Below :
    {bound : ℕ → ℕ} (touches : Bool) (j : ℕ) (m : Merging)
    → MergingBelow bound m
    → (touches ≡ true → Touch (get_or m.regions m.region no_region) (get_or m.regions j no_region))
    → MergingBelow bound (if touches then merge_other j m else m)
unfolding merge_other
merge_if-Below true j m b t = (merge_other-Below j m b.0 b.1 (t refl), b.1, omega (arith, b.2))
merge_if-Below false j m b t = b

pub merge_others-Below :
    {bound : ℕ → ℕ} (todo j : ℕ) (m : Merging)
    → MergingBelow bound m
    → MergingBelow bound (merge_others todo j m)
unfolding merge_others
merge_others-Below zero j m b = b
merge_others-Below (suc todo) j m b =
    let r = get_or m.regions m.region no_region in
    let other = get_or m.regions j no_region in
    let hr = get_or-IsSound m.regions m.region b.0.sound in
    let ho = get_or-IsSound m.regions j b.0.sound in
    let touches =
      ((if j == m.i then 0 else 1) == 1)
      && (leb r.base_addr (area_end other) && leb other.base_addr (area_end r)) in
    merge_others-Below todo (if touches then j else suc j) (if touches then merge_other j m else m)
      (merge_if-Below touches j m b (λ e. (ground (arith, e, hr, ho), ground (arith, e, hr, ho))))
