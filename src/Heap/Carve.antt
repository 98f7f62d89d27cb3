-- ===== src/Heap/Carve.antt =====
-- The block that kmalloc_impl of kernel/src/memory/memory.c takes from a region.
use creeper_os_v.Prelude.{
  ℕ, ◌+◌, ◌*◌, ◌/◌, ◌%◌, ◌≤◌, ◌<◌, ◌≡◌, refl, ◌∙◌, true, false, ◌==◌, List, ◌∷◌, get_or, add64,
  sub64, arith, Bool-cases, inl, inr,
}
use creeper_os_v.Heap.Regions.{FreeRegion, no_region, RegionMap, with_header, set_region}
use creeper_os_v.Heap.Cover.{
  hits, covering, IsSound, AllSound, hits-get_or, get_or-IsSound, set_region-AllSound,
  length-set_region, covering-set_region,
}
use creeper_os_v.Heap.Search.Found.{IsTable}
use creeper_os_v.Heap.Blocks.{
  Allocation, regions_of, block, max_size, HasHeader, Headers, headers_at, unused_by_holders,
  Headers-kept, IsHeap,
}
use creeper_os_v.Heap.{Heap, store_word, shrink, carve}

-- The sizes of the code are those of the block, and the search looks for 8 bytes more.
pub sizes :
    (size : ℕ)
    → size ≤ max_size
    → (with_header size ≡ (size + 15) / 8 * 8)
      × (with_header (with_header size) ≡ (size + 15) / 8 * 8 + 8)
sizes size h = (omega (arith, h), omega (arith, h))

-- Region `i` is large enough for the block and 8 bytes.
pub record Roomy (size i : ℕ) (h : Heap) : Type 0 where
  pub within : i < h.region_map.free_region_count
  pub room : (size + 15) / 8 * 8 + 8 ≤ (get_or h.region_map.free_regions i no_region).length
  pub high : 0xFFFF < (get_or h.region_map.free_regions i no_region).base_addr

-- The region without the block.
rest_of : (size : ℕ) → FreeRegion → FreeRegion
rest_of size r = record {
  base_addr = add64 r.base_addr ((size + 15) / 8 * 8);
  length = sub64 r.length ((size + 15) / 8 * 8);
}

rest-IsSound :
    (size : ℕ) (r : FreeRegion)
    → IsSound r
    → (size + 15) / 8 * 8 + 8 ≤ r.length
    → IsSound (rest_of size r) × ((rest_of size r).length == 0 ≡ false)
unfolding rest_of
rest-IsSound size r h k =
    ((omega (arith, h, k), omega (arith, h, k), omega (arith, h, k)), ground (arith, h, k))

rest-hits :
    (size : ℕ) (r : FreeRegion) (a : ℕ)
    → IsSound r
    → (size + 15) / 8 * 8 + 8 ≤ r.length
    → hits (rest_of size r) a + hits (block r.base_addr size) a ≡ hits r a
unfolding rest_of
rest-hits size r a h k = ground (arith, h, k)

shrink_opened :
    (size i : ℕ) (map : RegionMap)
    → (rest_of size (get_or map.free_regions i no_region)).length == 0 ≡ false
    → shrink ((size + 15) / 8 * 8) i map ≡ record map {
      free_regions =
          set_region i (rest_of size (get_or map.free_regions i no_region)) map.free_regions;
    }
unfolding shrink rest_of
shrink_opened size i map e = rw e refl

-- The table without the block.
shrink-IsTable :
    (size i : ℕ) (h : Heap)
    → IsTable h.region_map
    → Roomy size i h
    → IsTable (shrink ((size + 15) / 8 * 8) i h.region_map)
shrink-IsTable size i h t r =
    let map = h.region_map in
    let region = get_or map.free_regions i no_region in
    let rest = rest-IsSound size region (get_or-IsSound map.free_regions i t.sound) r.room in
    rw (shrink_opened size i map rest.1) (record {
      sound = set_region-AllSound i (rest_of size region) map.free_regions rest.0 t.sound;
      slots = length-set_region i (rest_of size region) map.free_regions ∙ t.slots;
      counted = t.counted;
    })

shrink-covering :
    (size i : ℕ) (h : Heap)
    → IsTable h.region_map
    → Roomy size i h
    → (a : ℕ)
    → covering (shrink ((size + 15) / 8 * 8) i h.region_map).free_regions a
        + hits (block (get_or h.region_map.free_regions i no_region).base_addr size) a
      ≡ covering h.region_map.free_regions a
shrink-covering size i h t r a =
    let map = h.region_map in
    let region = get_or map.free_regions i no_region in
    let s = get_or-IsSound map.free_regions i t.sound in
    let rest = rest-IsSound size region s r.room in
    let put =
      covering-set_region i (rest_of size region) map.free_regions a
        (omega (arith, r.within, t.counted, t.slots)) in
    rw (shrink_opened size i map rest.1) (omega (arith, put, rest-hits size region a s r.room))

pub store-Headers :
    (h : Heap) (live : List Allocation) (address value : ℕ)
    → address % 8 ≡ 0
    → AllSound (regions_of live)
    → Headers h.words live
    → headers_at live address ≡ 0
    → Headers (store_word address value h).words live
store-Headers h live address value aligned s k none_there =
    Headers-kept h.words (store_word address value h).words live s k (λ w.
      elim (Bool-cases (w == address / 8)) [
        | inl same ↦
            let e : w * 8 ≡ address = ground (arith, same, aligned) in inr (rw e none_there)
        | inr other ↦ inl (rw other refl)
      ])

block-HasHeader :
    (base size : ℕ) (h : Heap)
    → size ≤ max_size
    → HasHeader (store_word base size h).words (record { header = base; requested = size })
block-HasHeader base size h k =
    let e : (base / 8 == base / 8) ≡ true = ground arith in rw e (k, refl)

-- The first word of a free region is no header.
free_word :
    (i : ℕ) (h : Heap) (live : List Allocation)
    → IsHeap h live
    → 0 < (get_or h.region_map.free_regions i no_region).length
    → headers_at live (get_or h.region_map.free_regions i no_region).base_addr ≡ 0
free_word i h live s pos =
    let region = get_or h.region_map.free_regions i no_region in
    let base = region.base_addr in
    let hit : hits region base ≡ 1 = ground (arith, pos) in
    omega (
      arith,
      hit,
      hits-get_or i h.region_map.free_regions base,
      s.once base,
      unused_by_holders h.words live base s.headers,
    )

-- The pointer to the block, and the heap without it.
pub carve-IsHeap :
    (size i : ℕ) (h : Heap) (live : List Allocation)
    → size ≤ max_size
    → IsHeap h live
    → Roomy size i h
    → let (p, h') = carve size (with_header size) i h in
      let base = (get_or h.region_map.free_regions i no_region).base_addr in
      (p ≡ base + 8) × IsHeap h' (record { header = base; requested = size } ∷ live)
unfolding carve
carve-IsHeap size i h live k s r =
    let region = get_or h.region_map.free_regions i no_region in
    let region_sound = get_or-IsSound h.region_map.free_regions i s.table.sound in
    let e = (sizes size k).0 in
    rw e (
      omega (arith, region_sound, r.room),
      record {
        table = shrink-IsTable size i h s.table r;
        blocks = ((region_sound.0, omega arith, omega (arith, region_sound, r.room)), s.blocks);
        headers = (
          block-HasHeader region.base_addr size h k,
          store-Headers h live region.base_addr size region_sound.0 s.blocks s.headers
              (free_word i h live s (omega (arith, r.room))),
        );
        normal = s.normal;
        in_pages = s.in_pages;
        once = λ a. omega (arith, s.once a, shrink-covering size i h s.table r a);
      },
    )
