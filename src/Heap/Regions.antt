-- ===== src/Heap/Regions.antt =====
-- The table of free regions of kernel/src/memory/memory.c: the search of first_region_of_size_or_more,
-- and the sort and the merge of kfree_impl.
use creeper_os_v.Prelude.{
  ℕ, zero, suc, ◌+◌, ◌*◌, ◌/◌, ◌%◌, ◌^◌, Bool, true, false, not, ◌&&◌, ◌||◌, if◌then◌else◌, ltb,
  leb, ◌==◌, Option, none, some, List, [], ◌∷◌, ◌++◌, get_or, add64,
}

-- A `free_region_t`.
pub record FreeRegion : Type 0 where
  pub base_addr : ℕ
  pub length : ℕ

abbrev pub no_region : FreeRegion
no_region = record { base_addr = 0; length = 0 }

abbrev pub max_free_regions : ℕ
max_free_regions = 102

-- A `free_region_map_t`; the list has MAX_FREE_REGIONS elements.
pub record RegionMap : Type 0 where
  pub free_region_count : ℕ
  pub free_regions : List FreeRegion

-- x & ~7U: the mask is an unsigned int of 32 bits, which is extended with zeros.
abbrev pub and_not_7u : ℕ → ℕ
and_not_7u x = x % 2 ^ 32 / 8 * 8

-- (size + sizeof(uintptr_t) + 7) & ~7U
abbrev pub with_header : ℕ → ℕ
with_header size = and_not_7u (add64 size 15)

-- free_regions[i] = r
unfoldable pub set_region : ℕ → FreeRegion → List FreeRegion → List FreeRegion
set_region i r [] = []
set_region zero r (x ∷ xs) = r ∷ xs
set_region (suc i) r (x ∷ xs) = x ∷ set_region i r xs

-- The `for` over j of first_region_of_size_or_more: the regions that start where the area ends join it.
unfoldable pub absorb_pass :
    (count base size : ℕ) → List FreeRegion → (merged : List Bool) → ℕ × List Bool × Bool
absorb_pass zero base size rs merged = (size, merged, false)
absorb_pass (suc count) base size [] merged = (size, merged, false)
absorb_pass (suc count) base size (r ∷ rs) [] = (size, [], false)
absorb_pass (suc count) base size (r ∷ rs) (m ∷ ms) =
    let joins = not m && (not (r.length == 0) && (r.base_addr == add64 base size)) in
    let (size', ms', changed) =
      absorb_pass count base (if joins then add64 size r.length else size) rs ms in
    (size', (m || joins) ∷ ms', joins || changed)

-- do { ... } while (changed), for a number of rounds at most.
unfoldable pub absorb :
    (rounds count base size : ℕ) → List FreeRegion → (merged : List Bool) → ℕ × List Bool
unfolding absorb_pass
absorb zero count base size rs merged = (size, merged)
absorb (suc rounds) count base size rs merged =
    let (size', merged', changed) = absorb_pass count base size rs merged in
    let further = absorb rounds count base size' rs merged' in
    if changed then further else (size', merged')

-- bool merged[] = {false}; merged[i] = true
unfoldable pub mark_only : (i slots : ℕ) → List Bool
mark_only i zero = []
mark_only zero (suc slots) = true ∷ mark_only slots slots
mark_only (suc i) (suc slots) = false ∷ mark_only i slots

-- memset(&free_regions[j], 0, sizeof(free_region_t)), for each j that is marked.
unfoldable pub clear_merged : List FreeRegion → (merged : List Bool) → List FreeRegion
clear_merged [] ms = []
clear_merged (r ∷ rs) [] = r ∷ rs
clear_merged (r ∷ rs) (m ∷ ms) = (if m then no_region else r) ∷ clear_merged rs ms

-- The area around region `i`, and its marks.
unfoldable pub area_at : (i : ℕ) → RegionMap → ℕ × List Bool
unfolding absorb mark_only
area_at i map =
    let r = get_or map.free_regions i no_region in
    absorb (suc map.free_region_count) map.free_region_count r.base_addr r.length map.free_regions
      (mark_only i max_free_regions)

-- Region `i` takes over the regions of its area.
unfoldable pub take_over : (i size : ℕ) → (merged : List Bool) → RegionMap → RegionMap
unfolding set_region clear_merged
take_over i size merged map = record map {
  free_regions =
      set_region i
        (record { base_addr = (get_or map.free_regions i no_region).base_addr; length = size })
        (clear_merged map.free_regions merged);
}

-- The `for` over i, with `todo` regions left.
unfoldable pub first_region_from : (todo i requested_size : ℕ) → RegionMap → Option (ℕ × RegionMap)
unfolding area_at take_over
first_region_from zero i requested_size map = none
first_region_from (suc todo) i requested_size map =
    let later = first_region_from todo (suc i) requested_size map in
    let (size, merged) = area_at i map in
    if (get_or map.free_regions i no_region).length == 0
    then later
    else if leb requested_size size
    then some (i, take_over i size merged map)
    else later

unfoldable pub first_region_of_size_or_more : (size : ℕ) → RegionMap → Option (ℕ × RegionMap)
unfolding first_region_from
first_region_of_size_or_more size map =
    first_region_from map.free_region_count 0 (with_header size) map

-- The first slot of kfree_impl whose length is 0.
unfoldable pub place : FreeRegion → List FreeRegion → Option (List FreeRegion)
place r [] = none
place r (x ∷ xs) =
    let rest = place r xs in
    if x.length == 0 then some (r ∷ xs) else elim rest [ some ys ↦ some (x ∷ ys) | none ↦ none ]

-- The `for` over j of the sort, with `x` in slot i.
unfoldable pub sort_pass : FreeRegion → List FreeRegion → FreeRegion × List FreeRegion
sort_pass x [] = (x, [])
sort_pass x (y ∷ ys) =
    let swaps = not (y.length == 0) && ((x.length == 0) || ltb y.base_addr x.base_addr) in
    let (first, rest) = sort_pass (if swaps then y else x) ys in
    (first, (if swaps then x else y) ∷ rest)

unfoldable pub sort_regions : (rounds : ℕ) → List FreeRegion → List FreeRegion
unfolding sort_pass
sort_regions zero rs = rs
sort_regions (suc rounds) [] = []
sort_regions (suc rounds) (x ∷ xs) =
    let (first, rest) = sort_pass x xs in first ∷ sort_regions rounds rest

-- The `for` over j of the merge, with `x` in slot i.
unfoldable pub merge_pass : FreeRegion → List FreeRegion → FreeRegion × List FreeRegion
merge_pass x [] = (x, [])
merge_pass x (y ∷ ys) =
    let joins = not (y.length == 0) && (add64 x.base_addr x.length == y.base_addr) in
    let (first, rest) =
      merge_pass (if joins then record x { length = add64 x.length y.length } else x) ys in
    (first, if joins then rest ++ no_region ∷ [] else y ∷ rest)

unfoldable pub merge_regions : (rounds : ℕ) → List FreeRegion → List FreeRegion
unfolding merge_pass
merge_regions zero rs = rs
merge_regions (suc rounds) [] = []
merge_regions (suc rounds) (x ∷ xs) =
    let (first, rest) = if x.length == 0 then (x, xs) else merge_pass x xs in
    first ∷ merge_regions rounds rest

unfoldable pub count_regions : List FreeRegion → ℕ
count_regions [] = 0
count_regions (r ∷ rs) = (if r.length == 0 then 0 else 1) + count_regions rs

-- What kfree_impl does once the region is in its slot.
unfoldable pub tidy : List FreeRegion → RegionMap
unfolding sort_regions merge_regions count_regions
tidy rs =
    let merged = merge_regions 101 (sort_regions 101 rs) in
    record { free_region_count = count_regions merged; free_regions = merged }
