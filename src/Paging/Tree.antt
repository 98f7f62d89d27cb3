-- ===== src/Paging/Tree.antt =====
-- Page tables as a tree: where a table stands, and the walk along a list of indices.
use creeper_os_v.Prelude.{
  ℕ, suc, ◌+◌, ◌^◌, ◌≤◌, ◌<◌, ◌≡◌, refl, sym, ap, ◌∙◌, ◌⊎◌, inl, inr, true, false, Option, none,
  some, List, [], ◌∷◌, if◌then◌else◌, length, arith, Bool-cases,
}
use creeper_os_v.Bitmap.{bitmap_test}
use creeper_os_v.Pmm.Invariant.{Inv}
use creeper_os_v.Paging.{Entry, no_entry, Mmu}

-- The place of a table: the indices that lead to it from the top, the last one first.
abbrev pub Place : Type 0
Place = List ℕ

-- The leaf that a list of indices leads to from a table, with the indices that are left there.
unfoldable pub walk : Mmu → (table : ℕ) → List ℕ → Option (Entry × List ℕ)
walk s table [] = none
walk s table (i ∷ []) = let e = s.tables table i in if e.flags.present then some (e, []) else none
walk s table (i ∷ j ∷ is) =
    let e = s.tables table i in
    let rest = walk s e.frame (j ∷ is) in
    if e.flags.present then (if e.flags.huge then some (e, j ∷ is) else rest) else none

-- Every table has one place, every entry above the lowest level that is present and not huge leads to
-- the table of its place, the tables are pages in use, as page 0 is, and the top table has no huge entry.
pub record IsTree (s : Mmu) (root : ℕ) (place : ℕ → Option Place) : Type 0 where
  pub root_at : place root ≡ some []
  pub child :
      (table i : ℕ) (at : Place)
      → place table ≡ some at
      → length at < 3
      → (s.tables table i).flags.present ≡ true
      → (s.tables table i).flags.huge ≡ false
      → place (s.tables table i).frame ≡ some (i ∷ at)
  pub plain_root : (i : ℕ) → (s.tables root i).flags.huge ≡ false
  pub zero_used : bitmap_test s.pmm.bitmap 0 ≡ true
  pub used :
      (table : ℕ) (at : Place) → place table ≡ some at → bitmap_test s.pmm.bitmap table ≡ true
  pub inv : Inv s.pmm
  pub small : s.pmm.total_pages ≤ 2 ^ 40

-- Both entries lead to the same table, if they are present.
pub record Through (e e' : Entry) : Type 0 where
  pub frame : e'.frame ≡ e.frame
  pub present : e'.flags.present ≡ e.flags.present
  pub plain : e.flags.huge ≡ false
  pub plain' : e'.flags.huge ≡ false

-- An entry that leads to an empty table.
pub record Dead (s : Mmu) (e : Entry) : Type 0 where
  pub plain : e.flags.huge ≡ false
  pub empty : (k : ℕ) → s.tables e.frame k ≡ no_entry

-- What a change may do to an entry so that no walk ends elsewhere.
abbrev pub Same : Mmu → Mmu → (table i : ℕ) → Place → Type 0
Same s s' table i at =
    (s'.tables table i ≡ s.tables table i)
    ⊎ ((length at < 3) × Through (s.tables table i) (s'.tables table i))
    ⊎ ((length at < 3) × ((s.tables table i).flags.present ≡ false) × Dead s' (s'.tables table i))

walk-Dead : (s : Mmu) (e : Entry) (j : ℕ) (is : List ℕ) → Dead s e → walk s e.frame (j ∷ is) ≡ none
unfolding walk
walk-Dead s e j [] d = rw (d.empty j) refl
walk-Dead s e j (k ∷ is) d = rw (d.empty j) refl

pub walk-Same :
    {root : ℕ} {place : ℕ → Option Place} (s s' : Mmu)
    → IsTree s root place
    → ((table i : ℕ) (at : Place) → place table ≡ some at → Same s s' table i at)
    → (is : List ℕ) (table : ℕ) (at : Place) → place table ≡ some at
    → length at + length is ≡ 4
    → walk s' table is ≡ walk s table is
unfolding walk
walk-Same s s' tree same [] table at here depth = refl
walk-Same s s' tree same (i ∷ []) table at here depth = elim (same table i at here) [
  | inl e ↦ rw e refl
  | inr (inl (high, t)) ↦ absurd (omega (arith, high, depth))
  | inr (inr (high, absent, d)) ↦ absurd (omega (arith, high, depth))
]
walk-Same s s' tree same (i ∷ j ∷ is) table at here depth =
    elim (Bool-cases (s.tables table i).flags.present) [
      | inl p ↦ elim (Bool-cases (s.tables table i).flags.huge) [
        | inl h ↦ elim (same table i at here) [
          | inl e ↦ rw e (rw (p, h) refl)
          | inr (inl (high, t)) ↦ absurd (cc (h, t.plain))
          | inr (inr d) ↦ absurd (cc (p, d.1))
        ]
        | inr h ↦
            let deep : length at < 3 = omega (arith, depth) in
            let below =
              walk-Same s s' tree same (j ∷ is) (s.tables table i).frame (i ∷ at)
                (tree.child table i at here deep p h) (omega (arith, depth)) in
            elim (same table i at here) [
              | inl e ↦ rw e (rw (p, h) below)
              | inr (inl (high, t)) ↦ rw (t.present, p) (rw (t.plain', h, t.frame) below)
              | inr (inr (high, absent, d)) ↦ absurd (cc (p, absent))
            ]
      ]
      | inr a ↦ elim (same table i at here) [
        | inl e ↦ rw e (rw a refl)
        | inr (inl (high, t)) ↦ rw (t.present, a) refl
        | inr (inr (high, absent, d)) ↦ elim (Bool-cases (s'.tables table i).flags.present) [
          | inl p ↦ rw (p, a) (rw d.plain (walk-Dead s' (s'.tables table i) j is d))
          | inr a' ↦ rw (a', a) refl
        ]
      ]
    ]

-- The indices lead from one table to another, over entries that are present and not huge.
pub data Route (s : Mmu) : (table : ℕ) → List ℕ → (goal : ℕ) → Type 0 where
  arrived : {table : ℕ} → Route s table [] table
  through :
      {table i goal : ℕ} {is : List ℕ}
      → (s.tables table i).flags.present ≡ true
      → (s.tables table i).flags.huge ≡ false
      → Route s (s.tables table i).frame is goal
      → Route s table (i ∷ is) goal

abbrev pub then_index : List ℕ → ℕ → List ℕ
then_index [] j = j ∷ []
then_index (i ∷ is) j = i ∷ then_index is j

-- A walk along a path goes on at its goal.
pub walk-Route :
    {s : Mmu} {table goal : ℕ} (is : List ℕ) (j : ℕ)
    → Route s table is goal
    → walk s table (then_index is j) ≡ walk s goal (j ∷ [])
unfolding walk
walk-Route [] j arrived = refl
walk-Route (i ∷ []) j (through p h rest) = rw (p, h) (walk-Route [] j rest)
walk-Route (i ∷ k ∷ is) j (through p h rest) = rw (p, h) (walk-Route (k ∷ is) j rest)

pub Route-Same :
    {root : ℕ} {place : ℕ → Option Place} (s s' : Mmu)
    → IsTree s root place
    → ((table i : ℕ) (at : Place) → place table ≡ some at → Same s s' table i at)
    → (is : List ℕ) {table goal : ℕ} (at : Place) → place table ≡ some at
    → length at + length is ≤ 3
    → Route s table is goal
    → Route s' table is goal
Route-Same s s' tree same [] at here deep arrived = arrived
Route-Same s s' tree same (i ∷ is) {table} {goal} at here deep (through p h rest) =
    let below =
      Route-Same s s' tree same is (i ∷ at) (tree.child table i at here (omega (arith, deep)) p h)
        (omega (arith, deep)) rest in
    elim (same table i at here) [
      | inl e ↦ through (rw e p) (rw e h) (rw e below)
      | inr (inl (high, t)) ↦ through (t.present ∙ p) t.plain' (rw t.frame below)
      | inr (inr (high, absent, d)) ↦ absurd (cc (p, absent))
    ]

-- No entry on the way along the indices is huge.
abbrev pub NoHuge : Mmu → (table : ℕ) → List ℕ → Type 0
NoHuge s table [] = Unit {0}
NoHuge s table (i ∷ is) =
    ((s.tables table i).flags.huge ≡ false)
    × ((s.tables table i).flags.present ≡ true → NoHuge s (s.tables table i).frame is)

NoHuge-empty :
    (s : Mmu) (table : ℕ) (is : List ℕ)
    → ((k : ℕ) → s.tables table k ≡ no_entry)
    → NoHuge s table is
NoHuge-empty s table [] empty = tt
NoHuge-empty s table (i ∷ is) empty = rw (empty i) (refl, λ p. absurd (cc p))

pub NoHuge-Same :
    {root : ℕ} {place : ℕ → Option Place} (s s' : Mmu)
    → IsTree s root place
    → ((table i : ℕ) (at : Place) → place table ≡ some at → Same s s' table i at)
    → (is : List ℕ) (table : ℕ) (at : Place) → place table ≡ some at
    → length at + length is ≤ 3
    → NoHuge s table is
    → NoHuge s' table is
NoHuge-Same s s' tree same [] table at here deep clear = tt
NoHuge-Same s s' tree same (i ∷ is) table at here deep (plain, clear) =
    let below : (s.tables table i).flags.present ≡ true → NoHuge s' (s.tables table i).frame is =
      λ p.
        NoHuge-Same s s' tree same is (s.tables table i).frame (i ∷ at)
          (tree.child table i at here (omega (arith, deep)) p plain) (omega (arith, deep))
          (clear p) in
    elim (same table i at here) [
      | inl e ↦ rw e (plain, below)
      | inr (inl (high, t)) ↦ (t.plain', λ p. rw t.frame (below (sym t.present ∙ p)))
      | inr (inr (high, absent, d)) ↦
          (d.plain, λ p. NoHuge-empty s' (s'.tables table i).frame is d.empty)
    ]

pub Route-then_index :
    {s : Mmu} {table goal : ℕ} (is : List ℕ) (j : ℕ)
    → Route s table is goal
    → (s.tables goal j).flags.present ≡ true
    → (s.tables goal j).flags.huge ≡ false
    → Route s table (then_index is j) (s.tables goal j).frame
Route-then_index [] j arrived present plain = through present plain arrived
Route-then_index (i ∷ is) j (through p h rest) present plain =
    through p h (Route-then_index is j rest present plain)

pub length-then_index : (is : List ℕ) (j : ℕ) → length (then_index is j) ≡ suc (length is)
length-then_index [] j = refl
length-then_index (i ∷ is) j = ap suc (length-then_index is j)
