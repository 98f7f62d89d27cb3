-- ===== src/Vfs/Reverse.antt =====
-- `kpath_reverse` of kernel/src/vfs/fs.c: the path of a dentry, and its components.
use creeper_os_v.Prelude.{
  ℕ, zero, suc, ◌+◌, ◌-◌, ◌<◌, ◌≡◌, ◌≢◌, refl, ap, ◌∙◌, false, Option, none, some, List, [], ◌∷◌,
  ◌++◌, ◌==◌, length, arith,
}
use creeper_os_v.Outcome.{returns}
use creeper_os_v.Vfs.Store.{Name, Dentry, Fs, Cmd, pure, fault, ◌>>=◌, load_dentry, kmalloc}
use creeper_os_v.Vfs.Text.{slash}
use creeper_os_v.Vfs.Walk.{pieces, keep, non_empty, components}

-- The second loop: each name with a slash goes in front, up to the root; out of fuel it faults.
unfoldable pub path_upwards : (fuel cur : ℕ) → (path : List ℕ) → Cmd (List ℕ)
path_upwards zero cur path = fault
path_upwards (suc fuel) cur path = do
  d ← load_dentry cur
  elim d.parent [
    | none ↦ pure path
    | some parent ↦ path_upwards fuel parent (slash ∷ (d.name ++ path))
  ]

unfoldable pub path_of : (fuel d : ℕ) → Option ℕ → Cmd (Option (List ℕ))
unfolding path_upwards
path_of fuel d none = pure none
path_of fuel d (some block) = path_upwards fuel d [] >>= λ path. pure (some path)

unfoldable pub kpath_reverse : (fuel d : ℕ) → Cmd (Option (List ℕ))
unfolding path_of kmalloc
kpath_reverse fuel d = do
  e ← load_dentry d
  block ← kmalloc
  elim e.parent [
    | none ↦ elim block [ none ↦ pure none | some b ↦ pure (some (slash ∷ [])) ]
    | some parent ↦ path_of fuel d block
  ]

-- The names from the dentry `d` up to below the root.
pub data Chain (s : Fs) : ℕ → List Name → Type 0 where
  at_root : {d : ℕ} {e : Dentry} → s.dentries d ≡ some e → e.parent ≡ none → Chain s d []
  below :
      {d p : ℕ} {e : Dentry} {names : List Name}
      → s.dentries d ≡ some e
      → e.parent ≡ some p
      → Chain s p names
      → Chain s d (e.name ∷ names)

abbrev pub NoSlash : Name → Type 0
NoSlash [] = Unit {0}
NoSlash (c ∷ cs) = ((c == slash) ≡ false) × NoSlash cs

abbrev pub AllNames : List Name → Type 0
AllNames [] = Unit {0}
AllNames (name ∷ names) = (name ≢ []) × NoSlash name × AllNames names

-- The names in reverse order, before the others.
abbrev pub reversed_onto : List Name → List Name → List Name
reversed_onto [] others = others
reversed_onto (name ∷ names) others = reversed_onto names (name ∷ others)

-- A text that is empty or begins with a slash.
IsStart : List ℕ → Type 0
IsStart cs = (pieces cs).0 ≡ []

pieces-name :
    (name cs : List ℕ)
    → NoSlash name
    → IsStart cs
    → ((pieces (name ++ cs)).0 ≡ name) × ((pieces (name ++ cs)).1 ≡ (pieces cs).1)
unfolding pieces IsStart
pieces-name [] cs h start = (start, refl)
pieces-name (c ∷ name) cs (other, h) start =
    let (first, others) = pieces-name name cs h start in rw other (ap (λ n. c ∷ n) first, others)

components-start : (cs : List ℕ) → IsStart cs → components cs ≡ non_empty (pieces cs).1
unfolding components IsStart keep
components-start cs start = rw start refl

components-name :
    (name cs : List ℕ)
    → name ≢ []
    → NoSlash name
    → IsStart cs
    → components (slash ∷ (name ++ cs)) ≡ name ∷ components cs
unfolding components pieces keep non_empty IsStart
components-name [] cs some_name h start = absurd (some_name refl)
components-name (c ∷ name) cs some_name (other, h) start =
    let (first, others) = pieces-name name cs h start in rw other (rw (first, others, start) refl)

slash-IsStart : (cs : List ℕ) → IsStart (slash ∷ cs)
unfolding IsStart pieces
slash-IsStart cs = refl

nothing-IsStart : IsStart []
unfolding IsStart pieces
nothing-IsStart = refl

path_upwards-Chain :
    (fuel : ℕ) {d : ℕ} {names : List Name} (path : List ℕ) (s : Fs)
    → Chain s d names
    → length names < fuel
    → AllNames names
    → IsStart path
    → (cs : List ℕ) × (path_upwards fuel d path s ≡ returns (cs, s))
      × (components cs ≡ reversed_onto names (components path))
unfolding path_upwards
path_upwards-Chain zero path s chain enough h start = absurd (omega arith)
path_upwards-Chain (suc fuel) path s (at_root at root) enough h start =
    (path, rw at (rw root refl), refl)
path_upwards-Chain (suc fuel) path s (below {e = e} {names = names} at up chain) enough
      (some_name, no_slash, h) start =
    let (cs, runs, parts) =
      path_upwards-Chain fuel (slash ∷ (e.name ++ path)) s chain (omega arith) h
        (slash-IsStart (e.name ++ path)) in
    (
      cs,
      rw at (rw up runs),
      parts ∙ ap (reversed_onto names) (components-name e.name path some_name no_slash start),
    )

components-slash : components (slash ∷ []) ≡ []
unfolding components
components-slash = refl

-- The store with one block more in use.
abbrev one_taken : Fs → Fs
one_taken s = record s { fresh = s.fresh + 1; blocks = s.blocks - 1 }

Chain-one_taken :
    (s : Fs) {d : ℕ} {names : List Name} → Chain s d names → Chain (one_taken s) d names
Chain-one_taken s (at_root at root) = at_root at root
Chain-one_taken s (below at up chain) = below at up (Chain-one_taken s chain)

-- For a dentry whose chain of parents ends at a root, with names that are not empty and hold no slash,
-- and a block left on the heap: with more rounds than there are names, `kpath_reverse` gives a path,
-- and its components are the names from the root down to the dentry.
pub kpath_reverse-components :
    (fuel : ℕ) {d : ℕ} {names : List Name} (s : Fs)
    → Chain s d names
    → length names < fuel
    → AllNames names
    → 0 < s.blocks
    → (cs : List ℕ) × (t : Fs) × (kpath_reverse fuel d s ≡ returns (some cs, t))
      × (components cs ≡ reversed_onto names [])
unfolding kpath_reverse path_of kmalloc components
kpath_reverse-components fuel s (at_root at root) enough h room =
    let left : (s.blocks == 0) ≡ false = ground arith in
    (slash ∷ [], one_taken s, rw at (rw (left, root) refl), components-slash)
kpath_reverse-components fuel {d} s (below {e = e} {names = names} at up chain) enough h room =
    let left : (s.blocks == 0) ≡ false = ground arith in
    let (cs, runs, parts) =
      path_upwards-Chain fuel [] (one_taken s) (Chain-one_taken s (below at up chain)) enough h
        nothing-IsStart in
    (cs, one_taken s, rw at (rw (left, up) (rw runs refl)), parts)
