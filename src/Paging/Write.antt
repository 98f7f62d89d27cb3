-- ===== src/Paging/Write.antt =====
-- A store to an entry of the lowest level of a tree of page tables.
use creeper_os_v.Prelude.{
  ℕ, ◌+◌, ◌≤◌, ◌<◌, ◌≡◌, ◌≢◌, refl, ap, inl, inr, true, false, ◌&&◌, Option, none, some, List, [],
  ◌∷◌, ◌==◌, length, arith, Bool-cases,
}
use creeper_os_v.Paging.{Entry, Mmu, store_entry}
use creeper_os_v.Paging.Tree.{Place, walk, IsTree, Route, arrived, through}

-- The place of an entry: the indices before a place.
abbrev pub onto : List ℕ → Place → Place
onto [] at = at
onto (i ∷ is) at = onto is (i ∷ at)

module _ {s : Mmu} {root : ℕ} {place : ℕ → Option Place} (tree : IsTree s root place) (pt i : ℕ)
    (at : Place) (e : Entry) (here : place pt ≡ some at) (low : length at ≡ 3) where
  above :
      (t j : ℕ) (p : Place)
      → place t ≡ some p
      → length p < 3
      → (store_entry pt i e s).tables t j ≡ s.tables t j
  above t j p there high = elim (Bool-cases (t == pt)) [
    | inl hit ↦
        let t_is : t ≡ pt = ground arith in
        let p_is : p ≡ at = cc (there, here, t_is) in
        absurd (omega (arith, low, high, ap length p_is))
    | inr ne ↦ rw ne refl
  ]

  pub stored-IsTree : IsTree (store_entry pt i e s) root place
  stored-IsTree = record {
    root_at = tree.root_at;
    child = λ t j p there high. rw (above t j p there high) (tree.child t j p there high);
    plain_root = λ j. rw (above root j [] tree.root_at (omega arith)) (tree.plain_root j);
    zero_used = tree.zero_used;
    used = tree.used;
    inv = tree.inv;
    small = tree.small;
  }

  -- A walk that does not end at the entry ends where it did.
  pub walk-stored :
      (is : List ℕ) (t : ℕ) (p : Place)
      → place t ≡ some p
      → length p + length is ≡ 4
      → onto is p ≢ i ∷ at
      → walk (store_entry pt i e s) t is ≡ walk s t is
  unfolding walk
  walk-stored [] t p there depth apart = refl
  walk-stored (j ∷ []) t p there depth apart = elim (Bool-cases (t == pt && j == i)) [
    | inl hit ↦
        let t_is : t ≡ pt = ground arith in
        let j_is : j ≡ i = ground arith in
        let p_is : p ≡ at = cc (there, here, t_is) in absurd (apart (rw (j_is, p_is) refl))
    | inr ne ↦ rw ne refl
  ]
  walk-stored (j ∷ k ∷ is) t p there depth apart =
      let high : length p < 3 = omega (arith, depth) in
      elim (Bool-cases (s.tables t j).flags.present) [
        | inl present ↦ elim (Bool-cases (s.tables t j).flags.huge) [
          | inl huge ↦ rw (above t j p there high) (rw (present, huge) refl)
          | inr plain ↦ rw (above t j p there high) (
              rw (present, plain)
                (walk-stored (k ∷ is) (s.tables t j).frame (j ∷ p)
                  (tree.child t j p there high present plain) (omega (arith, depth)) apart))
        ]
        | inr absent ↦ rw (above t j p there high) (rw absent refl)
      ]

  pub Route-stored :
      (is : List ℕ) {t goal : ℕ} (p : Place)
      → place t ≡ some p
      → length p + length is ≤ 3
      → Route s t is goal
      → Route (store_entry pt i e s) t is goal
  Route-stored [] p there deep arrived = arrived
  Route-stored (j ∷ is) {t} p there deep (through present plain rest) =
      let same = above t j p there (omega (arith, deep)) in
      let below =
        Route-stored is (j ∷ p) (tree.child t j p there (omega (arith, deep)) present plain)
          (omega (arith, deep)) rest in
      through (rw same present) (rw same plain) (rw same below)

  -- At the entry itself the walk ends with what was stored.
  pub walk-hit : e.flags.present ≡ true → walk (store_entry pt i e s) pt (i ∷ []) ≡ some (e, [])
  unfolding walk
  walk-hit present = ground arith

  pub walk-miss : e.flags.present ≡ false → walk (store_entry pt i e s) pt (i ∷ []) ≡ none
  unfolding walk
  walk-miss absent = ground arith
