-- ===== src/Heap/Search.antt =====
-- The search of first_region_of_size_or_more in kernel/src/memory/memory.c keeps the free addresses.
pub mod Found
pub mod Rounds
use creeper_os_v.Prelude.{
  ℕ, zero, suc, ◌+◌, ◌≤◌, ◌<◌, ◌≡◌, refl, sym, ap, ◌∙◌, Bool, true, false, not, ◌&&◌, ◌||◌,
  if◌then◌else◌, leb, ◌==◌, Option, none, some, List, [], ◌∷◌, get_or, length, add64, arith,
  Bool-cases, inl, inr,
}
use creeper_os_v.Heap.Regions.{
  FreeRegion, no_region, max_free_regions, RegionMap, set_region, absorb_pass, absorb, mark_only,
  clear_merged, area_at, take_over, first_region_from, first_region_of_size_or_more, with_header,
}
use creeper_os_v.Heap.Cover.{
  hits, covering, IsSound, AllSound, Kept, no_region-IsSound, get_or-IsSound, set_region-AllSound,
  length-set_region, covering-set_region,
}

abbrev pub area : (base size : ℕ) → FreeRegion
area base size = record { base_addr = base; length = size }

-- How many regions without a mark hold the address.
abbrev pub unmarked : List FreeRegion → List Bool → ℕ → ℕ
unmarked [] ms a = 0
unmarked (r ∷ rs) [] a = hits r a + covering rs a
unmarked (r ∷ rs) (m ∷ ms) a = (if m then 0 else hits r a) + unmarked rs ms a

-- The area grew by regions that got a mark.
pub record Absorbed (base : ℕ) (rs : List FreeRegion) (size : ℕ) (ms : List Bool)
    (to : ℕ × List Bool) : Type 0 where
  pub sound : IsSound (area base to.0)
  pub same :
      (a : ℕ)
      → hits (area base to.0) a + unmarked rs to.1 a ≡ hits (area base size) a + unmarked rs ms a
  pub grows : size ≤ to.0
  pub stays : (i : ℕ) → get_or ms i false ≡ true → get_or to.1 i false ≡ true

Absorbed-refl :
    {base : ℕ} {rs : List FreeRegion} {size : ℕ} {ms : List Bool}
    → IsSound (area base size)
    → Absorbed base rs size ms (size, ms)
Absorbed-refl s = record { sound = s; same = λ a. refl; grows = omega arith; stays = λ i h. h }

Absorbed-trans :
    {base : ℕ} {rs : List FreeRegion} {size size' : ℕ} {ms ms' : List Bool} {to : ℕ × List Bool}
    → Absorbed base rs size ms (size', ms')
    → Absorbed base rs size' ms' to
    → Absorbed base rs size ms to
Absorbed-trans p q = record {
  sound = q.sound;
  same = λ a. q.same a ∙ p.same a;
  grows = omega (arith, p.grows, q.grows);
  stays = λ i h. q.stays i (p.stays i h);
}

-- A region behind a mark of its own, or one that does not join.
passed :
    {base size : ℕ} {rs : List FreeRegion} {ms : List Bool} {to : ℕ × List Bool} (r : FreeRegion)
    (m : Bool)
    → Absorbed base rs size ms to
    → Absorbed base (r ∷ rs) size (m ∷ ms) (to.0, (m || false) ∷ to.1)
passed r true p = record {
  sound = p.sound;
  same = λ a. omega (arith, p.same a);
  grows = p.grows;
  stays = elim [ zero ↦ λ h. refl | suc i ↦ λ h. p.stays i h ];
}
passed r false p = record {
  sound = p.sound;
  same = λ a. omega (arith, p.same a);
  grows = p.grows;
  stays = elim [ zero ↦ λ h. h | suc i ↦ λ h. p.stays i h ];
}

joined :
    {base size : ℕ} {rs : List FreeRegion} {ms : List Bool} {to : ℕ × List Bool} (r : FreeRegion)
    → IsSound (area base size)
    → IsSound r
    → r.base_addr ≡ add64 base size
    → Absorbed base rs (add64 size r.length) ms to
    → Absorbed base (r ∷ rs) size (false ∷ ms) (to.0, true ∷ to.1)
joined r s h e p = record {
  sound = p.sound;
  same = λ a. ground (arith, e, s, h, p.same a);
  grows = omega (arith, e, s, h, p.grows);
  stays = elim [ zero ↦ λ h. refl | suc i ↦ λ h. p.stays i h ];
}

absorb_step :
    (m starts : Bool) (r : FreeRegion) (base size : ℕ) (rs : List FreeRegion) (ms : List Bool)
    → (starts ≡ true → r.base_addr ≡ add64 base size)
    → IsSound (area base size)
    → IsSound r
    → (to : (size : ℕ) → ℕ × List Bool)
    → ((size : ℕ) → IsSound (area base size) → Absorbed base rs size ms (to size))
    → Absorbed base (r ∷ rs) size (m ∷ ms) (
      (to (if not m && starts then add64 size r.length else size)).0,
      (m || (not m && starts)) ∷ (to (if not m && starts then add64 size r.length else size)).1,
    )
absorb_step true starts r base size rs ms e s h to rest = passed r true (rest size s)
absorb_step false false r base size rs ms e s h to rest = passed r false (rest size s)
absorb_step false true r base size rs ms e s h to rest =
    joined r s h (e refl) (rest _ (ground (arith, e refl, s, h)))

-- The size and the marks after the pass.
abbrev pub pass : (count base size : ℕ) → List FreeRegion → List Bool → ℕ × List Bool
pass count base size rs ms =
    let (size', ms', changed) = absorb_pass count base size rs ms in (size', ms')

pass-Absorbed :
    (count base size : ℕ) (rs : List FreeRegion) (ms : List Bool)
    → IsSound (area base size)
    → AllSound rs
    → Absorbed base rs size ms (pass count base size rs ms)
unfolding absorb_pass
pass-Absorbed zero base size rs ms s h = Absorbed-refl s
pass-Absorbed (suc count) base size [] ms s h = Absorbed-refl s
pass-Absorbed (suc count) base size (r ∷ rs) [] s h = Absorbed-refl s
pass-Absorbed (suc count) base size (r ∷ rs) (m ∷ ms) s h =
    absorb_step m (not (r.length == 0) && (r.base_addr == add64 base size)) r base size rs ms
      (λ e. ground arith) s h.0 (λ size'. pass count base size' rs ms)
      (λ size' s'. pass-Absorbed count base size' rs ms s' h.1)

round :
    {base size : ℕ} {rs : List FreeRegion} {ms : List Bool} {to further : ℕ × List Bool}
    (changed : Bool)
    → Absorbed base rs size ms to
    → Absorbed base rs to.0 to.1 further
    → Absorbed base rs size ms (if changed then further else to)
round true p q = Absorbed-trans p q
round false p q = p

pub absorb-Absorbed :
    (rounds count base size : ℕ) (rs : List FreeRegion) (ms : List Bool)
    → IsSound (area base size)
    → AllSound rs
    → Absorbed base rs size ms (absorb rounds count base size rs ms)
unfolding absorb
absorb-Absorbed zero count base size rs ms s h = Absorbed-refl s
absorb-Absorbed (suc rounds) count base size rs ms s h =
    let p = pass-Absorbed count base size rs ms s h in
    round ((absorb_pass count base size rs ms).2) p
      (absorb-Absorbed rounds count base _ rs _ p.sound h)

pub marked_itself : (i slots : ℕ) → i < slots → get_or (mark_only i slots) i false ≡ true
unfolding mark_only
marked_itself i zero h = absurd (omega arith)
marked_itself zero (suc slots) h = refl
marked_itself (suc i) (suc slots) h = marked_itself i slots (omega arith)

unmarked_past :
    (n slots : ℕ) (rs : List FreeRegion) (a : ℕ)
    → slots ≤ n
    → unmarked rs (mark_only n slots) a ≡ covering rs a
unfolding mark_only
unmarked_past n slots [] a h = refl
unmarked_past n zero (r ∷ rs) a h = refl
unmarked_past zero (suc slots) (r ∷ rs) a h = absurd (omega arith)
unmarked_past (suc n) (suc slots) (r ∷ rs) a h =
    ap (λ k. hits r a + k) (unmarked_past n slots rs a (omega arith))

-- All but region `i`.
pub unmarked_others :
    (i slots : ℕ) (rs : List FreeRegion) (a : ℕ)
    → i < slots
    → i < length rs
    → hits (get_or rs i no_region) a + unmarked rs (mark_only i slots) a ≡ covering rs a
unfolding mark_only
unmarked_others i slots [] a h k = absurd (omega arith)
unmarked_others i zero (r ∷ rs) a h k = absurd (omega arith)
unmarked_others zero (suc slots) (r ∷ rs) a h k =
    omega (arith, unmarked_past slots slots rs a (omega arith))
unmarked_others (suc i) (suc slots) (r ∷ rs) a h k =
    omega (arith, unmarked_others i slots rs a (omega arith) (omega arith))

pub covering-clear_merged :
    (rs : List FreeRegion) (ms : List Bool) (a : ℕ)
    → covering (clear_merged rs ms) a ≡ unmarked rs ms a
unfolding clear_merged
covering-clear_merged [] ms a = refl
covering-clear_merged (r ∷ rs) [] a = refl
covering-clear_merged (r ∷ rs) (true ∷ ms) a = ground (arith, covering-clear_merged rs ms a)
covering-clear_merged (r ∷ rs) (false ∷ ms) a = omega (arith, covering-clear_merged rs ms a)

pub clear_merged-AllSound :
    (rs : List FreeRegion) (ms : List Bool) → AllSound rs → AllSound (clear_merged rs ms)
unfolding clear_merged
clear_merged-AllSound [] ms h = tt
clear_merged-AllSound (r ∷ rs) [] h = h
clear_merged-AllSound (r ∷ rs) (true ∷ ms) h = (no_region-IsSound, clear_merged-AllSound rs ms h.1)
clear_merged-AllSound (r ∷ rs) (false ∷ ms) h = (h.0, clear_merged-AllSound rs ms h.1)

pub length-clear_merged :
    (rs : List FreeRegion) (ms : List Bool) → length (clear_merged rs ms) ≡ length rs
unfolding clear_merged
length-clear_merged [] ms = refl
length-clear_merged (r ∷ rs) [] = refl
length-clear_merged (r ∷ rs) (m ∷ ms) = ap suc (length-clear_merged rs ms)

pub cleared_slot :
    (rs : List FreeRegion) (ms : List Bool) (i : ℕ)
    → i < length rs
    → get_or ms i false ≡ true
    → get_or (clear_merged rs ms) i no_region ≡ no_region
unfolding clear_merged
cleared_slot [] ms i h k = refl
cleared_slot (r ∷ rs) [] i h k = cc
cleared_slot (r ∷ rs) (m ∷ ms) zero h k = rw k refl
cleared_slot (r ∷ rs) (m ∷ ms) (suc i) h k = cleared_slot rs ms i (omega arith) k
