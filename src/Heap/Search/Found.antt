-- ===== src/Heap/Search/Found.antt =====
-- What first_region_of_size_or_more of kernel/src/memory/memory.c finds.
use creeper_os_v.Prelude.{
  ℕ, zero, suc, ◌+◌, ◌≤◌, ◌<◌, ◌≡◌, refl, ◌∙◌, Bool, true, false, if◌then◌else◌, leb, ◌==◌, Option,
  none, some, List, [], ◌∷◌, get_or, length, arith,
}
use creeper_os_v.Heap.Regions.{
  FreeRegion, no_region, max_free_regions, RegionMap, set_region, mark_only, clear_merged, area_at,
  take_over, first_region_from, first_region_of_size_or_more, with_header,
}
use creeper_os_v.Heap.Cover.{
  AllSound, Kept, get_or-IsSound, set_region-AllSound, length-set_region, covering-set_region,
}
use creeper_os_v.Heap.Search.{
  area, Absorbed, absorb-Absorbed, marked_itself, unmarked_others, covering-clear_merged,
  clear_merged-AllSound, length-clear_merged, cleared_slot,
}

-- The table has all its slots, its regions are sound, and the count lies within it.
pub record IsTable (map : RegionMap) : Type 0 where
  pub sound : AllSound map.free_regions
  pub slots : length map.free_regions ≡ max_free_regions
  pub counted : map.free_region_count ≤ max_free_regions

pub get_or-set_region :
    (i : ℕ) (r : FreeRegion) (l : List FreeRegion)
    → i < length l
    → get_or (set_region i r l) i no_region ≡ r
unfolding set_region
get_or-set_region i r [] h = absurd (omega arith)
get_or-set_region zero r (x ∷ xs) h = refl
get_or-set_region (suc i) r (x ∷ xs) h = get_or-set_region i r xs (omega arith)

-- Region `i` of `map'` is large enough, and the table holds the addresses that `map` held.
pub record Found (wanted : ℕ) (map : RegionMap) (i : ℕ) (map' : RegionMap) : Type 0 where
  pub kept : Kept map.free_regions map'.free_regions
  pub count : map'.free_region_count ≡ map.free_region_count
  pub within : i < map.free_region_count
  pub enough : wanted ≤ (get_or map'.free_regions i no_region).length

pub take_over-Kept :
    {map : RegionMap} (i size : ℕ) (merged : List Bool)
    → IsTable map
    → i < map.free_region_count
    → Absorbed
        (get_or map.free_regions i no_region).base_addr
        map.free_regions
        (get_or map.free_regions i no_region).length
        (mark_only i max_free_regions)
        (size, merged)
    → Kept map.free_regions (take_over i size merged map).free_regions
unfolding take_over
take_over-Kept {map} i size merged t h p =
    let rs = map.free_regions in
    let r = get_or rs i no_region in
    let i_in : i < length rs = omega (arith, h, t.counted, t.slots) in
    let marked = p.stays i (marked_itself i max_free_regions (omega (arith, h, t.counted))) in
    record {
      sound =
          set_region-AllSound i (area r.base_addr size) (clear_merged rs merged) p.sound
            (clear_merged-AllSound rs merged t.sound);
      same = λ a.
          let changed =
            covering-set_region i (area r.base_addr size) (clear_merged rs merged) a
              (rw (length-clear_merged rs merged) i_in) in
          let empty = rw (cleared_slot rs merged i i_in marked) at changed in
          let others = unmarked_others i max_free_regions rs a (omega (arith, h, t.counted)) i_in in
          ground (arith, empty, others, p.same a, covering-clear_merged rs merged a);
      slots =
          length-set_region i (area r.base_addr size) (clear_merged rs merged)
          ∙ length-clear_merged rs merged;
    }

take_over_count :
    (i size : ℕ) (merged : List Bool) (map : RegionMap)
    → (take_over i size merged map).free_region_count ≡ map.free_region_count
unfolding take_over
take_over_count i size merged map = refl

pub take_over_slot :
    {map : RegionMap} (i size : ℕ) (merged : List Bool)
    → IsTable map
    → i < map.free_region_count
    → get_or (take_over i size merged map).free_regions i no_region
      ≡ area (get_or map.free_regions i no_region).base_addr size
unfolding take_over
take_over_slot {map} i size merged t h =
    get_or-set_region i _ _
      (rw (length-clear_merged map.free_regions merged) (omega (arith, h, t.counted, t.slots)))

-- Where the search finds a region, it is one as above.
abbrev pub AnyFound : (wanted : ℕ) → RegionMap → Option (ℕ × RegionMap) → Type 0
AnyFound wanted map none = Unit {0}
AnyFound wanted map (some (i, map')) = Found wanted map i map'

choice :
    {wanted : ℕ} {map : RegionMap} (later : Option (ℕ × RegionMap)) (empty fits : Bool) (i : ℕ)
    (map' : RegionMap)
    → AnyFound wanted map later
    → (fits ≡ true → Found wanted map i map')
    → AnyFound wanted map (if empty then later else if fits then some (i, map') else later)
choice later true fits i map' l f = l
choice later false true i map' l f = f refl
choice later false false i map' l f = l

pub first_region_from-Found :
    (todo i wanted : ℕ) (map : RegionMap)
    → IsTable map
    → i + todo ≤ map.free_region_count
    → AnyFound wanted map (first_region_from todo i wanted map)
unfolding first_region_from area_at
first_region_from-Found zero i wanted map t h = tt
first_region_from-Found (suc todo) i wanted map t h =
    let rs = map.free_regions in
    let r = get_or rs i no_region in
    let found = area_at i map in
    let p =
      absorb-Absorbed (suc map.free_region_count) map.free_region_count r.base_addr r.length rs
        (mark_only i max_free_regions) (get_or-IsSound rs i t.sound) t.sound in
    choice (first_region_from todo (suc i) wanted map) (r.length == 0) (leb wanted found.0) i
      (take_over i found.0 found.1 map)
      (first_region_from-Found todo (suc i) wanted map t (omega (arith, h)))
      (λ fits. record {
        kept = take_over-Kept i found.0 found.1 t (omega (arith, h)) p;
        count = take_over_count i found.0 found.1 map;
        within = omega (arith, h);
        enough = rw (take_over_slot i found.0 found.1 t (omega (arith, h))) (ground (arith, fits));
      })

pub first_region-Found :
    (size : ℕ) (map : RegionMap)
    → IsTable map
    → AnyFound (with_header size) map (first_region_of_size_or_more size map)
unfolding first_region_of_size_or_more
first_region-Found size map t =
    first_region_from-Found map.free_region_count 0 (with_header size) map t (omega arith)
