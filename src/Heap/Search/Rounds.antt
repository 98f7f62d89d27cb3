-- ===== src/Heap/Search/Rounds.antt =====
-- The rounds of the do-while of first_region_of_size_or_more in kernel/src/memory/memory.c.
use creeper_os_v.Prelude.{
  ℕ, zero, suc, ◌≤◌, ◌<◌, ◌≡◌, refl, ap, Bool, true, false, not, ◌&&◌, ◌||◌, if◌then◌else◌, ◌==◌,
  List, [], ◌∷◌, get_or, add64, arith,
}
use creeper_os_v.Heap.Regions.{
  FreeRegion, no_region, mark_only, max_free_regions, absorb_pass, absorb, RegionMap, area_at,
}

-- How many of the first `count` regions have no mark.
abbrev pub pending : (count : ℕ) → List Bool → ℕ
pending zero ms = 0
pending (suc count) [] = 0
pending (suc count) (m ∷ ms) = if m then pending count ms else suc (pending count ms)

-- A pass that changed something marked a region, and any other left the marks and the size.
abbrev Progress : (count base size : ℕ) → List FreeRegion → List Bool → Type 0
Progress count base size rs ms =
    let (size', ms', changed) = absorb_pass count base size rs ms in
    (pending count ms' ≤ pending count ms)
    × (changed ≡ true → pending count ms' < pending count ms)
    × (changed ≡ false → (size' ≡ size) × (ms' ≡ ms))

joining_step :
    (m joins : Bool) (count base size : ℕ) (r : FreeRegion) (rs : List FreeRegion) (ms : List Bool)
    → ((size : ℕ) → Progress count base size rs ms)
    → let (size', ms', changed) =
        absorb_pass count base (if not m && joins then add64 size r.length else size) rs ms in
      (pending (suc count) ((m || (not m && joins)) ∷ ms') ≤ pending (suc count) (m ∷ ms))
      × ((not m && joins) || changed ≡ true
          → pending (suc count) ((m || (not m && joins)) ∷ ms') < pending (suc count) (m ∷ ms))
      × ((not m && joins) || changed ≡ false
          → (size' ≡ size) × ((m || (not m && joins)) ∷ ms' ≡ m ∷ ms))
joining_step true joins count base size r rs ms p =
    ((p size).0, (p size).1, λ e. (((p size).2 e).0, ap (◌∷◌ true) ((p size).2 e).1))
joining_step false false count base size r rs ms p = (
  omega (arith, (p size).0),
  λ e. omega (arith, (p size).1 e),
  λ e. (((p size).2 e).0, ap (◌∷◌ false) ((p size).2 e).1),
)
joining_step false true count base size r rs ms p = (
  omega (arith, (p (add64 size r.length)).0),
  λ e. omega (arith, (p (add64 size r.length)).0),
  λ e. cc,
)

marks_more :
    (count base size : ℕ) (rs : List FreeRegion) (ms : List Bool) → Progress count base size rs ms
unfolding absorb_pass
marks_more zero base size rs ms = (omega arith, λ e. cc, λ e. (refl, refl))
marks_more (suc count) base size [] ms = (omega arith, λ e. cc, λ e. (refl, refl))
marks_more (suc count) base size (r ∷ rs) [] = (omega arith, λ e. cc, λ e. (refl, refl))
marks_more (suc count) base size (r ∷ rs) (m ∷ ms) =
    joining_step m (not (r.length == 0) && (r.base_addr == add64 base size)) count base size r rs ms
      (λ size'. marks_more count base size' rs ms)

settled_step :
    (rounds count base size : ℕ) (rs : List FreeRegion) (ms : List Bool) (changed : Bool)
    → (absorb_pass count base size rs ms).2 ≡ changed
    → pending count ms < suc rounds
    → (pending count (absorb_pass count base size rs ms).1 < rounds
        → let (size', ms') =
            absorb rounds count base
              (absorb_pass count base size rs ms).0
              rs
              (absorb_pass count base size rs ms).1 in
          (absorb_pass count base size' rs ms').2 ≡ false)
    → let (size', ms') =
        if changed
        then absorb rounds count base
            (absorb_pass count base size rs ms).0
            rs
            (absorb_pass count base size rs ms).1
        else ((absorb_pass count base size rs ms).0, (absorb_pass count base size rs ms).1) in
      (absorb_pass count base size' rs ms').2 ≡ false
settled_step rounds count base size rs ms true e h rest =
    rest (omega (arith, h, (marks_more count base size rs ms).1 e))
settled_step rounds count base size rs ms false e h rest =
    let same = (marks_more count base size rs ms).2 e in rw same.0 (rw same.1 e)

-- With more rounds than regions without a mark, the loop ends on its own: another pass changes nothing.
pub absorb_settles :
    (rounds count base size : ℕ) (rs : List FreeRegion) (ms : List Bool)
    → pending count ms < rounds
    → let (size', ms') = absorb rounds count base size rs ms in
      (absorb_pass count base size' rs ms').2 ≡ false
unfolding absorb
absorb_settles zero count base size rs ms h = absurd (omega arith)
absorb_settles (suc rounds) count base size rs ms h =
    settled_step rounds count base size rs ms (absorb_pass count base size rs ms).2 refl h
      (λ k. absorb_settles rounds count base _ rs _ k)

pending_le : (count : ℕ) (ms : List Bool) → pending count ms ≤ count
pending_le zero ms = omega arith
pending_le (suc count) [] = omega arith
pending_le (suc count) (true ∷ ms) = omega (arith, pending_le count ms)
pending_le (suc count) (false ∷ ms) = omega (arith, pending_le count ms)

-- The rounds that the model gives the loop are enough for every table.
pub area_at_settles :
    (i : ℕ) (map : RegionMap)
    → let r = get_or map.free_regions i no_region in
      let (size, merged) = area_at i map in
      (absorb_pass map.free_region_count r.base_addr size map.free_regions merged).2 ≡ false
unfolding area_at
area_at_settles i map =
    absorb_settles (suc map.free_region_count) map.free_region_count _ _ map.free_regions
      (mark_only i max_free_regions)
      (omega (arith, pending_le map.free_region_count (mark_only i max_free_regions)))
