-- ===== src/Heap/Cover.antt =====
-- The free regions of kernel/src/memory/memory.c as a count, for each address, of the regions that
-- hold it.
use creeper_os_v.Prelude.{
  ℕ, zero, suc, ◌+◌, ◌%◌, ◌^◌, ◌≤◌, ◌<◌, ◌≡◌, refl, ap, ◌∙◌, ◌&&◌, if◌then◌else◌, ltb, leb, List,
  [], ◌∷◌, ◌++◌, get_or, length, arith,
}
use creeper_os_v.Heap.Regions.{FreeRegion, no_region, set_region}

-- 1 for the addresses of the region, and 0 for the others.
abbrev pub hits : FreeRegion → ℕ → ℕ
hits r a = if leb r.base_addr a && ltb a (r.base_addr + r.length) then 1 else 0

-- How many regions hold the address.
abbrev pub covering : List FreeRegion → ℕ → ℕ
covering [] a = 0
covering (r ∷ rs) a = hits r a + covering rs a

-- Whole words, and no wrap at the end of the address space.
abbrev pub IsSound : FreeRegion → Type 0
IsSound r = (r.base_addr % 8 ≡ 0) × (r.length % 8 ≡ 0) × (r.base_addr + r.length < 2 ^ 64)

abbrev pub AllSound : List FreeRegion → Type 0
AllSound [] = Unit {0}
AllSound (r ∷ rs) = IsSound r × AllSound rs

-- The slots of `l'` hold the addresses that those of `l` hold.
pub record Kept (l l' : List FreeRegion) : Type 0 where
  pub sound : AllSound l'
  pub same : (a : ℕ) → covering l' a ≡ covering l a
  pub slots : length l' ≡ length l

pub Kept-trans : {l m n : List FreeRegion} → Kept l m → Kept m n → Kept l n
Kept-trans p q = record {
  sound = q.sound;
  same = λ a. q.same a ∙ p.same a;
  slots = q.slots ∙ p.slots;
}

pub Kept-cons :
    {l m : List FreeRegion} (x : FreeRegion) → IsSound x → Kept l m → Kept (x ∷ l) (x ∷ m)
Kept-cons x h p = record {
  sound = (h, p.sound);
  same = λ a. ap (λ n. hits x a + n) (p.same a);
  slots = ap suc p.slots;
}

pub Kept-swap : {x y : FreeRegion} {l m : List FreeRegion} → Kept (x ∷ y ∷ l) m → Kept (y ∷ x ∷ l) m
Kept-swap p = record { sound = p.sound; same = λ a. omega (arith, p.same a); slots = p.slots }

pub no_region-IsSound : IsSound no_region
no_region-IsSound = (refl, refl, omega arith)

-- An empty slot behind the last.
pub covering-append :
    (l : List FreeRegion) (a : ℕ) → covering (l ++ no_region ∷ []) a ≡ covering l a
covering-append [] a = ground arith
covering-append (r ∷ rs) a = ap (λ n. hits r a + n) (covering-append rs a)

pub AllSound-append : (l : List FreeRegion) → AllSound l → AllSound (l ++ no_region ∷ [])
AllSound-append [] h = (no_region-IsSound, tt)
AllSound-append (r ∷ rs) h = (h.0, AllSound-append rs h.1)

pub get_or-IsSound : (l : List FreeRegion) (i : ℕ) → AllSound l → IsSound (get_or l i no_region)
get_or-IsSound [] i h = no_region-IsSound
get_or-IsSound (r ∷ rs) zero h = h.0
get_or-IsSound (r ∷ rs) (suc i) h = get_or-IsSound rs i h.1

pub set_region-AllSound :
    (i : ℕ) (r : FreeRegion) (l : List FreeRegion)
    → IsSound r
    → AllSound l
    → AllSound (set_region i r l)
unfolding set_region
set_region-AllSound i r [] s h = tt
set_region-AllSound zero r (x ∷ xs) s h = (s, h.1)
set_region-AllSound (suc i) r (x ∷ xs) s h = (h.0, set_region-AllSound i r xs s h.1)

pub length-set_region :
    (i : ℕ) (r : FreeRegion) (l : List FreeRegion) → length (set_region i r l) ≡ length l
unfolding set_region
length-set_region i r [] = refl
length-set_region zero r (x ∷ xs) = refl
length-set_region (suc i) r (x ∷ xs) = ap suc (length-set_region i r xs)

-- A slot is counted once.
pub covering-set_region :
    (i : ℕ) (r : FreeRegion) (l : List FreeRegion) (a : ℕ)
    → i < length l
    → covering (set_region i r l) a + hits (get_or l i no_region) a ≡ covering l a + hits r a
unfolding set_region
covering-set_region i r [] a h = absurd (omega arith)
covering-set_region zero r (x ∷ xs) a h = omega arith
covering-set_region (suc i) r (x ∷ xs) a h =
    omega (arith, covering-set_region i r xs a (omega arith))

pub hits-get_or :
    (i : ℕ) (l : List FreeRegion) (a : ℕ) → hits (get_or l i no_region) a ≤ covering l a
hits-get_or i [] a = ground arith
hits-get_or zero (r ∷ rs) a = omega arith
hits-get_or (suc i) (r ∷ rs) a = omega (arith, hits-get_or i rs a)
