-- ===== src/Pmm/Search/Laws.antt =====
-- What the two searches of kernel/src/memory/pmm.c find.
use creeper_os_v.Prelude.{
  ℕ, zero, suc, ◌+◌, ◌-◌, ◌≤◌, ◌<◌, ◌≡◌, refl, ◌⊎◌, inl, inr, none, some, true, false, arith,
  size_max, Option-cases, Bool-cases, if◌then◌else◌, ◌==◌,
}
use creeper_os_v.Bitmap.{Bytes, bitmap_test}
use creeper_os_v.Pmm.Search.{
  Pmm, find_clear_from, bitmap_find_clear, find_run_from, bitmap_find_clear_range,
}

-- All of the pages lo, lo + 1, ..., hi - 1 are in use; are free.
abbrev pub AllUsed : Bytes → ℕ → ℕ → Type 0
AllUsed m lo hi = (k : ℕ) → lo ≤ k → k < hi → bitmap_test m k ≡ true

abbrev pub AllFree : Bytes → ℕ → ℕ → Type 0
AllFree m lo hi = (k : ℕ) → lo ≤ k → k < hi → bitmap_test m k ≡ false

pub find_clear_from-some :
    (m : Bytes) (rounds i j : ℕ)
    → find_clear_from m rounds i ≡ some j
    → (i ≤ j) × (j < i + rounds) × (bitmap_test m j ≡ false)
unfolding find_clear_from
find_clear_from-some m zero i j e = cc
find_clear_from-some m (suc rounds) i j e = ground (arith, find_clear_from-some m rounds (i + 1) j)

pub find_clear_from-none :
    (m : Bytes) (rounds i k : ℕ)
    → find_clear_from m rounds i ≡ none
    → i ≤ k
    → k < i + rounds
    → bitmap_test m k ≡ true
unfolding find_clear_from
find_clear_from-none m zero i k e lo hi = absurd (omega arith)
find_clear_from-none m (suc rounds) i k e lo hi = elim (Bool-cases (bitmap_test m i)) [
  | inl used ↦ ground (arith, find_clear_from-none m rounds (i + 1) k)
  | inr free ↦ ground arith
]

-- The search for one page ends at a free page of the map, or at SIZE_MAX with every page in use.
abbrev pub Found : Pmm → ℕ × Pmm → Type 0
Found s r =
    ((r.0 ≡ size_max) × (r.1 ≡ s) × AllUsed s.bitmap 0 s.bitmap_bits)
    ⊎ ((r.0 < s.bitmap_bits)
        × (bitmap_test s.bitmap r.0 ≡ false)
        × (next : ℕ) × (next < s.bitmap_bits)
        × (r.1 ≡ record s { bitmap_next = next }))

pub bitmap_find_clear-Found :
    (s : Pmm) → s.bitmap_next ≤ s.bitmap_bits → Found s (bitmap_find_clear s)
unfolding bitmap_find_clear
bitmap_find_clear-Found s h =
    elim (Option-cases (find_clear_from s.bitmap (s.bitmap_bits - s.bitmap_next) s.bitmap_next)) [
      | inr (j, e) ↦
          let at = find_clear_from-some s.bitmap _ s.bitmap_next j e in
          rw e (inr (omega arith, at.2, _, ground arith, refl))
      | inl e ↦ rw e (elim (Option-cases (find_clear_from s.bitmap s.bitmap_next 0)) [
        | inr (j, d) ↦
            let at = find_clear_from-some s.bitmap _ 0 j d in
            rw d (inr (omega arith, at.2, _, ground arith, refl))
        | inl d ↦ rw d (
            inl (
              refl,
              refl,
              λ k lo hi. ground (
                arith,
                find_clear_from-none s.bitmap _ s.bitmap_next k e,
                find_clear_from-none s.bitmap _ 0 k d,
              ),
            ))
      ])
    ]

-- The run that ends with a free page `i`: it begins there, or goes on.
abbrev IsRun : Bytes → (run start i : ℕ) → Type 0
IsRun m run start i = (run ≡ 0) ⊎ ((start + run ≡ i) × AllFree m start i)

IsRun-extend :
    (m : Bytes) (run start i : ℕ)
    → IsRun m run start i
    → bitmap_test m i ≡ false
    → let start' = if run == 0 then i else start in
      (start' + (run + 1) ≡ i + 1) × AllFree m start' (i + 1)
IsRun-extend m zero start i inv free =
    (omega arith, λ k lo hi. let e : k ≡ i = omega arith in rw e free)
IsRun-extend m (suc run) start i (inl e) free = absurd (omega arith)
IsRun-extend m (suc run) start i (inr (e, all)) free =
    let going : (suc run == 0) ≡ false = ground arith in
    rw going (
      omega arith,
      λ k lo hi. elim (Bool-cases (k == i)) [
        | inl same ↦ let at : k ≡ i = ground arith in rw at free
        | inr other ↦ all k lo (ground arith)
      ],
    )

-- A run of `count` free pages from `start` on, ending before `hi`.
pub find_run_from-some :
    (m : Bytes) (count rounds i run start : ℕ) {j at : ℕ}
    → find_run_from m count rounds i run start ≡ some (j, at)
    → run < count
    → IsRun m run start i
    → (j < i + rounds) × (at + count ≡ j + 1) × AllFree m at (j + 1)
unfolding find_run_from
find_run_from-some m count zero i run start e small inv = absurd (cc)
find_run_from-some m count (suc rounds) i run start {j} {at} e small inv =
    elim (Bool-cases (bitmap_test m i)) [
      | inl used ↦
          let rest =
            find_run_from-some m count rounds (i + 1) 0 start {j = j} {at = at}
              (rw (used, find_run_from) at e) (omega arith) (inl refl) in
          (omega (arith, rest.0), rest.1, rest.2)
      | inr free ↦
          let grown = IsRun-extend m run start i inv free in
          elim (Bool-cases (run + 1 == count)) [
            | inl done ↦
                let found = rw (free, done, find_run_from) at e in
                let ends : i ≡ j = cc found in
                let starts : (if run == 0 then i else start) ≡ at = cc found in
                rw (← ends, ← starts) (omega arith, ground arith, grown.1)
            | inr more ↦
                let rest =
                  find_run_from-some m count rounds (i + 1) (run + 1)
                    (if run == 0 then i else start) {j = j} {at = at}
                    (rw (free, more, find_run_from) at e) (ground arith) (inr grown) in
                (omega (arith, rest.0), rest.1, rest.2)
          ]
    ]

-- Completeness: where the loop finds nothing, no run of `count` free pages lies in its range.
pub find_run_from-none :
    (m : Bytes) (count rounds i run start at : ℕ)
    → find_run_from m count rounds i run start ≡ none
    → run < count
    → i ≤ at + run
    → at + count ≤ i + rounds
    → ¬ (AllFree m at (at + count))
unfolding find_run_from
find_run_from-none m count zero i run start at e small lo hi free = absurd (omega arith)
find_run_from-none m count (suc rounds) i run start at e small lo hi free =
    elim (Bool-cases (bitmap_test m i)) [
      | inl used ↦
          let after : i < at = ground (arith, free i) in
          find_run_from-none m count rounds (i + 1) 0 start at (rw (used, find_run_from) at e)
            (omega arith) (omega arith) (omega arith) free
      | inr open_page ↦ elim (Bool-cases (run + 1 == count)) [
        | inl done ↦ cc (rw (open_page, done, find_run_from) at e)
        | inr more ↦
            find_run_from-none m count rounds (i + 1) (run + 1) (if run == 0 then i else start) at
              (rw (open_page, more, find_run_from) at e) (ground arith) (omega arith) (omega arith)
              free
      ]
    ]

-- The search for `count` pages: a run of free pages within the map and the cursor behind it, or
-- SIZE_MAX, and then no such run lies on one side of the cursor.
abbrev pub FoundRun : ℕ → Pmm → ℕ × Pmm → Type 0
FoundRun count s r =
    ((r.0 ≡ size_max)
      × (r.1 ≡ s)
      × ((at : ℕ)
          → s.bitmap_next ≤ at
          → at + count ≤ s.total_pages
          → ¬ AllFree s.bitmap at (at + count))
      × ((at : ℕ) → at + count ≤ s.bitmap_next → ¬ AllFree s.bitmap at (at + count)))
    ⊎ ((r.0 + count ≤ s.total_pages)
        × AllFree s.bitmap r.0 (r.0 + count)
        × (r.1 ≡ record s { bitmap_next = r.0 + count }))

pub bitmap_find_clear_range-FoundRun :
    (count : ℕ) (s : Pmm)
    → 0 < count
    → s.bitmap_next ≤ s.total_pages
    → FoundRun count s (bitmap_find_clear_range count s)
unfolding bitmap_find_clear_range
bitmap_find_clear_range-FoundRun count s pos h =
    elim (Option-cases
      (find_run_from s.bitmap count (s.total_pages - s.bitmap_next) s.bitmap_next 0 0)) [
        | inr ((j, at), e) ↦
            let run = find_run_from-some s.bitmap count _ s.bitmap_next 0 0 e pos (inl refl) in
            rw e (inr (omega (arith, run.0, run.1), rw run.1 run.2, rw run.1 refl))
        | inl e ↦ rw e (elim (Option-cases (find_run_from s.bitmap count s.bitmap_next 0 0 0)) [
          | inr ((j, at), d) ↦
              let run = find_run_from-some s.bitmap count _ 0 0 0 d pos (inl refl) in
              rw d (inr (omega (arith, run.0, run.1), rw run.1 run.2, rw run.1 refl))
          | inl d ↦ rw d (
              inl (
                refl,
                refl,
                λ at lo hi.
                    find_run_from-none s.bitmap count _ s.bitmap_next 0 0 at e pos (omega arith)
                      (omega arith),
                λ at hi.
                    find_run_from-none s.bitmap count _ 0 0 0 at d pos (omega arith) (omega arith),
              ))
        ])
      ]
