-- ===== src/Heap/Alloc.antt =====
-- What kmalloc_impl of kernel/src/memory/memory.c serves.
use creeper_os_v.Prelude.{
  ℕ, ◌+◌, ◌≤◌, ◌<◌, sym, subst, ◌∙◌, Bool, true, false, leb, Option, none, some, List, ◌∷◌, get_or,
  arith, Bool-cases, inl, inr,
}
use creeper_os_v.Outcome.{Always, Always-then}
use creeper_os_v.Heap.Regions.{no_region, RegionMap, with_header}
use creeper_os_v.Heap.Search.Found.{Found, AnyFound, first_region-Found}
use creeper_os_v.Heap.Blocks.{Allocation, max_size, IsHeap}
use creeper_os_v.Heap.Carve.{sizes, Roomy, carve-IsHeap}
use creeper_os_v.Heap.Grow.{expand-IsHeap}
use creeper_os_v.Heap.{
  Heap, not_low, find_region, carve, expand, finish, try_again, after_search, kmalloc_locked,
}

-- What the search gives.
abbrev pub Room : (size : ℕ) → Option ℕ × Heap → Type 0
Room size (none, h) = Unit {0}
Room size (some i, h) = Roomy size i h

pub after-IsHeap :
    (h : Heap) (live : List Allocation) (map : RegionMap) (wanted i : ℕ)
    → IsHeap h live
    → Found wanted h.region_map i map
    → IsHeap (record h { region_map = map }) live
after-IsHeap h live map wanted i s f = record {
  table = record {
    sound = f.kept.sound;
    slots = f.kept.slots ∙ s.table.slots;
    counted = rw f.count s.table.counted;
  };
  blocks = s.blocks;
  headers = s.headers;
  normal = s.normal;
  in_pages = s.in_pages;
  once = λ a. omega (arith, f.kept.same a, s.once a);
}

pub not_low-Room :
    (size : ℕ) (h : Heap) (live : List Allocation) (o : Option (ℕ × RegionMap))
    → size ≤ max_size
    → IsHeap h live
    → AnyFound (with_header (with_header size)) h.region_map o
    → Room size (not_low h o) × IsHeap (not_low h o).1 live
unfolding not_low
not_low-Room size h live none k s f = (tt, s)
not_low-Room size h live (some (i, map)) k s f =
    let after = after-IsHeap h live map (with_header (with_header size)) i s f in
    elim (Bool-cases (leb (get_or map.free_regions i no_region).base_addr 0xFFFF)) [
      | inl low ↦ rw low (tt, after)
      | inr high ↦ rw high (
        record {
          within = omega (arith, f.within, f.count);
          room = omega (arith, f.enough, (sizes size k).1);
          high = ground (arith, high);
        },
        after,
      )
    ]

pub find_region-Room :
    (size : ℕ) (h : Heap) (live : List Allocation)
    → size ≤ max_size
    → IsHeap h live
    → Room size (find_region (with_header size) h)
      × IsHeap (find_region (with_header size) h).1 live
unfolding find_region
find_region-Room size h live k s =
    not_low-Room size h live _ k s (first_region-Found (with_header size) h.region_map s.table)

-- What kmalloc_impl returns, with the blocks after it.
pub data Served (size : ℕ) (live : List Allocation) : ℕ × Heap → Type 0 where
  refused : {h : Heap} → IsHeap h live → Served size live (0, h)
  served :
      {h : Heap} (base : ℕ)
      → 0xFFFF < base
      → IsHeap h (record { header = base; requested = size } ∷ live)
      → Served size live (base + 8, h)

pub carve-Served :
    (size i : ℕ) (h : Heap) (live : List Allocation)
    → size ≤ max_size
    → IsHeap h live
    → Roomy size i h
    → Served size live (carve size (with_header size) i h)
carve-Served size i h live k s r =
    let (e, after) = carve-IsHeap size i h live k s r in
    subst (λ p. Served size live (p, (carve size (with_header size) i h).1)) (sym e)
      (served _ r.high after)

finish-Served :
    (size : ℕ) (h : Heap) (live : List Allocation) (o : Option ℕ × Heap)
    → size ≤ max_size
    → Room size o × IsHeap o.1 live
    → Served size live (finish size (with_header size) o)
unfolding finish
finish-Served size h live (some i, h') k s = carve-Served size i h' live k s.1 s.0
finish-Served size h live (none, h') k s = refused s.1

try_again-Served :
    (size : ℕ) (live : List Allocation) (grew : Bool × Heap)
    → size ≤ max_size
    → IsHeap grew.1 live
    → Always (Served size live) (try_again size (with_header size) grew)
unfolding try_again
try_again-Served size live (false, h) k s = refused s
try_again-Served size live (true, h) k s =
    finish-Served size h live _ k (find_region-Room size h live k s)

after_search-Served :
    (size : ℕ) (live : List Allocation) (o : Option ℕ × Heap)
    → size ≤ max_size
    → Room size o × IsHeap o.1 live
    → Always (Served size live) (after_search size (with_header size) o)
unfolding after_search
after_search-Served size live (some i, h) k s = carve-Served size i h live k s.1 s.0
after_search-Served size live (none, h) k s =
    let e = (sizes size k).0 in
    Always-then (λ (b, h'). IsHeap h' live) (Served size live) (expand (with_header size) h)
      (try_again size (with_header size))
      (expand-IsHeap (with_header size) h live (omega (arith, e)) (omega (arith, e, k)) s.1)
      (λ grew s'. try_again-Served size live grew k s')

pub kmalloc_locked-Served :
    (size : ℕ) (h : Heap) (live : List Allocation)
    → size ≤ max_size
    → IsHeap h live
    → Always (Served size live) (kmalloc_locked size h)
unfolding kmalloc_locked
kmalloc_locked-Served size h live k s =
    after_search-Served size live _ k (find_region-Room size h live k s)
