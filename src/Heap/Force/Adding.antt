-- ===== src/Heap/Force/Adding.antt =====
-- What force_free_nolock of kernel/src/memory/memory.c adds to the free addresses: no more than the
-- pages it is given.
use creeper_os_v.Prelude.{
  ℕ, zero, suc, ◌+◌, ◌-◌, ◌%◌, ◌^◌, ◌≤◌, ◌<◌, ◌≡◌, refl, sym, subst, ap, ◌∙◌, Bool, true, false,
  ◌&&◌, if◌then◌else◌, ltb, leb, get_or, add64, sub64, arith, Bool-cases, inl, inr,
}
use creeper_os_v.Heap.Regions.{FreeRegion, no_region, max_free_regions, RegionMap, set_region}
use creeper_os_v.Heap.Force.{
  page_down, area_end, hull, join_at, append_region, force_from, force_free_nolock,
}
use creeper_os_v.Heap.Force.Laws.{
  Touch, hull_of, MergingBelow, hull-IsSound, hits-hull, merge_others-Below,
}
use creeper_os_v.Heap.Cover.{
  hits, covering, IsSound, get_or-IsSound, set_region-AllSound, length-set_region,
  covering-set_region,
}
use creeper_os_v.Heap.Search.{area}
use creeper_os_v.Heap.Search.Found.{IsTable}

-- The pages are whole words, and they do not wrap.
abbrev pub IsSpan : (start end : ℕ) → Type 0
IsSpan start end = (start % 8 ≡ 0) × (end % 8 ≡ 0) × (start ≤ end) × (end < 2 ^ 64)

-- After the call the table is one, and it holds no more than it held and the pages.
pub record Adds (r : FreeRegion) (map map' : RegionMap) : Type 0 where
  pub table : IsTable map'
  pub within : (a : ℕ) → covering map'.free_regions a ≤ covering map.free_regions a + hits r a

abbrev pub span : (start end : ℕ) → FreeRegion
span start end = area start (end - start)

span-IsSound : (start end : ℕ) → IsSpan start end → IsSound (span start end)
span-IsSound start end h = (h.0, omega (arith, h), omega (arith, h))

join_at-Adds :
    (i start end : ℕ) (map : RegionMap)
    → IsTable map
    → i < map.free_region_count
    → IsSpan start end
    → Touch (span start end) (get_or map.free_regions i no_region)
    → Adds (span start end) map (join_at i start end map)
unfolding join_at
join_at-Adds i start end map t h s touch =
    let rs = map.free_regions in
    let r = get_or rs i no_region in
    let hr = get_or-IsSound rs i t.sound in
    let hs = span-IsSound start end s in
    let e : hull start end r.base_addr (area_end r) ≡ hull_of (span start end) r =
      ap (λ x. hull start x r.base_addr (area_end r)) (omega (arith, s)) in
    let put : MergingBelow (λ a. covering rs a + hits (span start end) a)
        (record {
          region = i;
          i = i;
          count = map.free_region_count;
          regions = set_region i (hull start end r.base_addr (area_end r)) rs;
        }) =
      (
        record {
          sound =
              set_region-AllSound i _ rs
                (subst IsSound (sym e) (hull-IsSound (span start end) r hs hr touch)) t.sound;
          slots = length-set_region i _ rs ∙ t.slots;
          within = λ a.
              let put =
                covering-set_region i (hull start end r.base_addr (area_end r)) rs a
                  (omega (arith, h, t.counted, t.slots)) in
              omega (arith, put, ap (λ x. hits x a) e, hits-hull (span start end) r a hs hr touch);
        },
        omega (arith, h, t.counted),
        t.counted,
      ) in
    let m = merge_others-Below map.free_region_count 0 _ put in
    record {
      table = record { sound = m.0.sound; slots = m.0.slots; counted = m.2 };
      within = m.0.within;
    }

pub append_region-Adds :
    (start end : ℕ) (map : RegionMap)
    → IsTable map
    → IsSpan start end
    → Adds (span start end) map (append_region start end map)
unfolding append_region
append_region-Adds start end map t s =
    elim (Bool-cases (ltb map.free_region_count max_free_regions)) [
      | inl fits ↦
          let new : FreeRegion = record { base_addr = start; length = sub64 end start } in
          let e : sub64 end start ≡ end - start = omega (arith, s) in
          let new_sound : IsSound new = rw e (span-IsSound start end s) in
          rw fits (record {
            table = record {
              sound =
                  set_region-AllSound map.free_region_count new map.free_regions new_sound t.sound;
              slots = length-set_region map.free_region_count new map.free_regions ∙ t.slots;
              counted = ground (arith, fits);
            };
            within = λ a.
                let put =
                  covering-set_region map.free_region_count new map.free_regions a
                    (ground (arith, fits, t.slots)) in
                ground (arith, put, e);
          })
      | inr full ↦ rw full (record { table = t; within = λ a. omega arith })
    ]

choose :
    {r : FreeRegion} {map : RegionMap} (touches : Bool) (here later : RegionMap)
    → (touches ≡ true → Adds r map here)
    → Adds r map later
    → Adds r map (if touches then here else later)
choose true here later h l = h refl
choose false here later h l = l

force_from-Adds :
    (todo i start end : ℕ) (map : RegionMap)
    → IsTable map
    → i + todo ≤ map.free_region_count
    → IsSpan start end
    → Adds (span start end) map (force_from todo i start end map)
unfolding force_from
force_from-Adds zero i start end map t h s = append_region-Adds start end map t s
force_from-Adds (suc todo) i start end map t h s =
    let r = get_or map.free_regions i no_region in
    let hr = get_or-IsSound map.free_regions i t.sound in
    choose (leb r.base_addr end && leb start (area_end r)) (join_at i start end map)
      (force_from todo (suc i) start end map)
      (λ e.
        join_at-Adds i start end map t (omega (arith, h)) s
          (ground (arith, e, hr, s), ground (arith, e, hr, s)))
      (force_from-Adds todo (suc i) start end map t (omega (arith, h)) s)

unmoved : (address : ℕ) → address % 4096 ≡ 0 → page_down address ≡ address
unmoved address h = omega (arith, h)

rounded_end :
    (address size : ℕ)
    → address % 4096 ≡ 0
    → size % 4096 ≡ 0
    → address + size + 4096 ≤ 2 ^ 64
    → page_down (add64 (add64 address size) 4095) ≡ address + size
rounded_end address size h k fits = omega arith

choose_low :
    {r : FreeRegion} {map added : RegionMap} (low : Bool)
    → IsTable map
    → (low ≡ false → Adds r map added)
    → Adds r map (if low then map else added)
choose_low true t f = record { table = t; within = λ a. omega arith }
choose_low false t f = f refl

-- Whole pages that do not end in the last page of the address space.
pub force_free_nolock-Adds :
    (address size : ℕ) (map : RegionMap)
    → IsTable map
    → address % 4096 ≡ 0
    → size % 4096 ≡ 0
    → address + size + 4096 ≤ 2 ^ 64
    → Adds (area address size) map (force_free_nolock address size map)
unfolding force_free_nolock
force_free_nolock-Adds address size map t h k fits =
    let start = if ltb address 0x10000 then 0x10000 else address in
    rw (unmoved address h) (
      rw (rounded_end address size h k fits) (
        choose_low (leb (address + size) 0x10000) t (λ high.
          let s : IsSpan start (address + size) = ground (arith, high, h, k, fits) in
          let p =
            force_from-Adds map.free_region_count 0 start (address + size) map t (omega arith) s in
          record { table = p.table; within = λ a. ground (arith, p.within a, high) })))
