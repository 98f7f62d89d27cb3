-- ===== src/Heap/Force.antt =====
-- force_free_nolock of kernel/src/memory/memory.c: whole pages go into the table of free regions, merged
-- with what they touch.
pub mod Laws
pub mod Adding
use creeper_os_v.Prelude.{
  ℕ, zero, suc, ◌-◌, ◌*◌, ◌/◌, ◌&&◌, if◌then◌else◌, ltb, leb, ◌==◌, List, [], ◌∷◌, get_or, add64,
  sub64,
}
use creeper_os_v.Heap.Regions.{FreeRegion, no_region, max_free_regions, RegionMap, set_region}

-- page_size - 1 out of an address.
abbrev pub page_down : ℕ → ℕ
page_down address = address / 4096 * 4096

-- The slots behind the first move down by one, `moves` of them, and the slot after them becomes empty.
unfoldable pub close_gap : (moves : ℕ) → List FreeRegion → List FreeRegion
close_gap zero xs = no_region ∷ xs
close_gap (suc moves) [] = no_region ∷ []
close_gap (suc moves) (x ∷ xs) = x ∷ close_gap moves xs

-- The `for` over k: slot `j` goes, where `moves` regions follow it.
unfoldable pub remove_region : (j moves : ℕ) → List FreeRegion → List FreeRegion
unfolding close_gap
remove_region j moves [] = []
remove_region zero moves (x ∷ xs) = close_gap moves xs
remove_region (suc j) moves (x ∷ xs) = x ∷ remove_region j moves xs

abbrev pub area_end : FreeRegion → ℕ
area_end r = add64 r.base_addr r.length

-- From the lower of two starts to the higher of two ends.
abbrev pub hull : (start end start' end' : ℕ) → FreeRegion
hull start end start' end' =
    let low = if ltb start start' then start else start' in
    record { base_addr = low; length = sub64 (if ltb end' end then end else end') low }

-- What the loop over j keeps: `region`, a pointer to a slot, stays, while `i` and the slots may move.
pub record Merging : Type 0 where
  pub region : ℕ
  pub i : ℕ
  pub count : ℕ
  pub regions : List FreeRegion

-- Region `j` is merged into `region`, and slot `j` goes.
unfoldable pub merge_other : (j : ℕ) → Merging → Merging
unfolding set_region remove_region
merge_other j m =
    let r = get_or m.regions m.region no_region in
    let other = get_or m.regions j no_region in
    let merged = hull r.base_addr (area_end r) other.base_addr (area_end other) in
    record m {
      i = if ltb j m.i then m.i - 1 else m.i;
      count = m.count - 1;
      regions = remove_region j (m.count - 1 - j) (set_region m.region merged m.regions);
    }

-- The `for` over j, where `todo` slots are left.
unfoldable pub merge_others : (todo j : ℕ) → Merging → Merging
unfolding merge_other
merge_others zero j m = m
merge_others (suc todo) j m =
    let r = get_or m.regions m.region no_region in
    let other = get_or m.regions j no_region in
    let touches = leb r.base_addr (area_end other) && leb other.base_addr (area_end r) in
    let skips = if j == m.i then 0 else 1 in
    merge_others todo (if (skips == 1) && touches then j else suc j)
      (if (skips == 1) && touches then merge_other j m else m)

-- The pages join region `i`, and then what the region touches joins.
unfoldable pub join_at : (i start end : ℕ) → RegionMap → RegionMap
unfolding set_region merge_others
join_at i start end map =
    let r = get_or map.free_regions i no_region in
    let merging = merge_others map.free_region_count 0 (record {
      region = i;
      i = i;
      count = map.free_region_count;
      regions = set_region i (hull start end r.base_addr (area_end r)) map.free_regions;
    }) in
    record { free_region_count = merging.count; free_regions = merging.regions }

-- A new slot behind the others, if one is left.
unfoldable pub append_region : (start end : ℕ) → RegionMap → RegionMap
unfolding set_region
append_region start end map =
    if ltb map.free_region_count max_free_regions
    then record {
      free_region_count = suc map.free_region_count;
      free_regions =
          set_region map.free_region_count (record { base_addr = start; length = sub64 end start })
            map.free_regions;
    }
    else map

-- The `for` over i.
unfoldable pub force_from : (todo i start end : ℕ) → RegionMap → RegionMap
unfolding join_at append_region
force_from zero i start end map = append_region start end map
force_from (suc todo) i start end map =
    let later = force_from todo (suc i) start end map in
    let r = get_or map.free_regions i no_region in
    if leb r.base_addr end && leb start (area_end r) then join_at i start end map else later

unfoldable pub force_free_nolock : (address size : ℕ) → RegionMap → RegionMap
unfolding force_from
force_free_nolock address size map =
    let start = page_down address in
    let end = page_down (add64 (add64 address size) 4095) in
    if leb end 0x10000
    then map
    else force_from map.free_region_count 0 (if ltb start 0x10000 then 0x10000 else start) end map
