-- ===== src/Heap/Blocks.antt =====
-- The blocks that kernel/src/memory/memory.c has handed out, each with its header, and what the heap
-- keeps about them.
use creeper_os_v.Prelude.{
  ℕ, zero, suc, ◌+◌, ◌-◌, ◌*◌, ◌/◌, ◌^◌, ◌≤◌, ◌<◌, ◌≡◌, ◌⊎◌, inl, inr, Bool, if◌then◌else◌, ◌==◌,
  List, [], ◌∷◌, get_or, length, arith,
}
use creeper_os_v.Vma.Cover.{covers, IsNormal}
use creeper_os_v.Vma.Whole.{InPages}
use creeper_os_v.Heap.Regions.{FreeRegion}
use creeper_os_v.Heap.Cover.{hits, covering, IsSound, AllSound}
use creeper_os_v.Heap.Search.Found.{IsTable}
use creeper_os_v.Heap.{Heap}

-- The block for `size` bytes whose header is at `base`.
abbrev pub block : (base size : ℕ) → FreeRegion
block base size = record { base_addr = base; length = (size + 15) / 8 * 8 }

-- A block in use: where its header is, and the size that was asked for.
pub record Allocation : Type 0 where
  pub header : ℕ
  pub requested : ℕ

abbrev pub no_allocation : Allocation
no_allocation = record { header = 0; requested = 0 }

abbrev pub region_of : Allocation → FreeRegion
region_of b = block b.header b.requested

abbrev pub regions_of : List Allocation → List FreeRegion
regions_of [] = []
regions_of (b ∷ bs) = region_of b ∷ regions_of bs

-- The sizes for which the 32-bit mask of the code loses nothing.
abbrev pub max_size : ℕ
max_size = 2 ^ 32 - 31

-- The header holds the size that was asked for.
abbrev pub HasHeader : (ℕ → ℕ) → Allocation → Type 0
HasHeader words b = (b.requested ≤ max_size) × (words (b.header / 8) ≡ b.requested)

abbrev pub Headers : (ℕ → ℕ) → List Allocation → Type 0
Headers words [] = Unit {0}
Headers words (b ∷ bs) = HasHeader words b × Headers words bs

-- What the holders of the blocks may use.
abbrev pub usable : List Allocation → List FreeRegion
usable [] = []
usable (b ∷ bs) = record { base_addr = b.header + 8; length = (region_of b).length - 8 } ∷ usable bs

-- How many headers are at the address.
abbrev pub headers_at : List Allocation → ℕ → ℕ
headers_at [] a = 0
headers_at (b ∷ bs) a = (if b.header == a then 1 else 0) + headers_at bs a

-- A header is not in the part of a block that its holder uses.
pub unused_by_holders :
    (words : ℕ → ℕ) (bs : List Allocation) (a : ℕ)
    → Headers words bs
    → headers_at bs a + covering (usable bs) a ≤ covering (regions_of bs) a
unused_by_holders words [] a h = omega arith
unused_by_holders words (b ∷ bs) a h = ground (arith, unused_by_holders words bs a h.1, h.0)

-- The headers stay where no word with a header changes.
pub Headers-kept :
    (words words' : ℕ → ℕ) (bs : List Allocation)
    → AllSound (regions_of bs)
    → Headers words bs
    → ((w : ℕ) → (words' w ≡ words w) ⊎ (headers_at bs (w * 8) ≡ 0))
    → Headers words' bs
Headers-kept words words' [] s h same = tt
Headers-kept words words' (b ∷ bs) s h same = (
  elim (same (b.header / 8)) [
    | inl e ↦ rw e h.0
    | inr none_there ↦ absurd (ground (arith, none_there, s.0))
  ],
  Headers-kept words words' bs s.1 h.1
      (λ w. elim (same w) [ inl e ↦ inl e | inr none_there ↦ inr (omega (arith, none_there)) ]),
)

abbrev pub held : Bool → ℕ
held b = if b then 1 else 0

-- Each address is in at most one free region, block or free page of addresses; all headers are as they
-- were written.
pub record IsHeap (h : Heap) (live : List Allocation) : Type 0 where
  pub table : IsTable h.region_map
  pub blocks : AllSound (regions_of live)
  pub headers : Headers h.words live
  pub normal : IsNormal 0 h.vma
  pub in_pages : InPages h.vma
  pub once :
      (a : ℕ)
      → covering h.region_map.free_regions a + covering (regions_of live) a + held (covers h.vma a)
        ≤ 1

-- The blocks without the block in slot `i`.
abbrev pub without : ℕ → List Allocation → List Allocation
without i [] = []
without zero (b ∷ bs) = bs
without (suc i) (b ∷ bs) = b ∷ without i bs

pub covering-without :
    (i : ℕ) (bs : List Allocation) (a : ℕ)
    → i < length bs
    → covering (regions_of (without i bs)) a + hits (region_of (get_or bs i no_allocation)) a
      ≡ covering (regions_of bs) a
covering-without i [] a h = absurd (omega arith)
covering-without zero (b ∷ bs) a h = omega arith
covering-without (suc i) (b ∷ bs) a h = omega (arith, covering-without i bs a (omega arith))

pub without-AllSound :
    (i : ℕ) (bs : List Allocation) → AllSound (regions_of bs) → AllSound (regions_of (without i bs))
without-AllSound i [] h = tt
without-AllSound zero (b ∷ bs) h = h.1
without-AllSound (suc i) (b ∷ bs) h = (h.0, without-AllSound i bs h.1)

pub without-Headers :
    (words : ℕ → ℕ) (i : ℕ) (bs : List Allocation) → Headers words bs → Headers words (without i bs)
without-Headers words i [] h = tt
without-Headers words zero (b ∷ bs) h = h.1
without-Headers words (suc i) (b ∷ bs) h = (h.0, without-Headers words i bs h.1)

pub get_or-HasHeader :
    (words : ℕ → ℕ) (i : ℕ) (bs : List Allocation)
    → i < length bs
    → Headers words bs
    → HasHeader words (get_or bs i no_allocation)
get_or-HasHeader words i [] h k = absurd (omega arith)
get_or-HasHeader words zero (b ∷ bs) h k = k.0
get_or-HasHeader words (suc i) (b ∷ bs) h k = get_or-HasHeader words i bs (omega arith) k.1

pub get_or-block :
    (i : ℕ) (bs : List Allocation)
    → i < length bs
    → AllSound (regions_of bs)
    → IsSound (region_of (get_or bs i no_allocation))
get_or-block i [] h k = absurd (omega arith)
get_or-block zero (b ∷ bs) h k = k.0
get_or-block (suc i) (b ∷ bs) h k = get_or-block i bs (omega arith) k.1
