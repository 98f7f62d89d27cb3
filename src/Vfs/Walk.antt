-- ===== src/Vfs/Walk.antt =====
-- The walk along a path of kernel/src/vfs/fs.c, against the path's list of components.
use creeper_os_v.Prelude.{
  ℕ, zero, suc, ◌≤◌, ◌<◌, ◌≡◌, refl, sym, ap, ◌∙◌, ◌⊎◌, inl, inr, false, Option, none, some, List,
  [], ◌∷◌, if◌then◌else◌, ◌==◌, length, arith, Bool-cases,
}
use creeper_os_v.Outcome.{Outcome, returns, panics}
use creeper_os_v.Vfs.Store.{Name, Fs, Cmd, pure, ◌>>=◌, and_then}
use creeper_os_v.Vfs.Text.{slash, skip_slashes, token_end, strtok_r}
use creeper_os_v.Vfs.Paths.{walk_token, where_found, walk_path}

-- A path split at every slash.
unfoldable pub pieces : List ℕ → Name × List Name
pieces [] = ([], [])
pieces (c ∷ cs) =
    if c == slash then ([], (pieces cs).0 ∷ (pieces cs).1) else (c ∷ (pieces cs).0, (pieces cs).1)

unfoldable pub keep : Name → List Name → List Name
keep [] names = names
keep (c ∷ cs) names = (c ∷ cs) ∷ names

unfoldable pub non_empty : List Name → List Name
unfolding keep
non_empty [] = []
non_empty (name ∷ names) = keep name (non_empty names)

-- The pieces that are not empty.
unfoldable pub components : List ℕ → List Name
unfolding pieces keep non_empty
components cs = keep (pieces cs).0 (non_empty (pieces cs).1)

-- One step for each name, as long as every name is found.
unfoldable pub walk_all : (curr : ℕ) → List Name → Cmd (Option ℕ)
walk_all curr [] = pure (some curr)
walk_all curr (name ∷ names) = walk_token curr name >>= where_found (λ found. walk_all found names)

pub components_skip : (cs : List ℕ) → components (skip_slashes cs) ≡ components cs
unfolding components pieces keep non_empty skip_slashes
components_skip [] = refl
components_skip (c ∷ cs) = elim (Bool-cases (c == slash)) [
  | inl at ↦ rw at (components_skip cs)
  | inr other ↦ rw other (rw other refl)
]

skip_slashes-length : (cs : List ℕ) → length (skip_slashes cs) ≤ length cs
unfolding skip_slashes
skip_slashes-length [] = omega arith
skip_slashes-length (c ∷ cs) = elim (Bool-cases (c == slash)) [
  | inl at ↦ rw at (omega (arith, skip_slashes-length cs))
  | inr other ↦ rw other (omega arith)
]

pub skip_slashes-cases :
    (cs : List ℕ)
    → (skip_slashes cs ≡ [])
      ⊎ ((c : ℕ) × (rest : List ℕ) × (skip_slashes cs ≡ c ∷ rest) × ((c == slash) ≡ false))
unfolding skip_slashes
skip_slashes-cases [] = inl refl
skip_slashes-cases (c ∷ cs) = elim (Bool-cases (c == slash)) [
  | inl at ↦ rw at (skip_slashes-cases cs)
  | inr other ↦ rw other (inr (c, cs, refl, other))
]

token_end-length : (cs : List ℕ) → length (token_end cs).1 ≤ length cs
unfolding token_end
token_end-length [] = omega arith
token_end-length (c ∷ cs) = elim (Bool-cases (c == slash)) [
  | inl at ↦ rw at (omega arith)
  | inr other ↦ rw other (omega (arith, token_end-length cs))
]

-- What `token_end` cuts off is the first piece; the rest has the other pieces.
token_end-pieces :
    (cs : List ℕ)
    → ((pieces cs).0 ≡ (token_end cs).0) × (non_empty (pieces cs).1 ≡ components (token_end cs).1)
unfolding token_end pieces non_empty components
token_end-pieces [] = (refl, refl)
token_end-pieces (c ∷ cs) = elim (Bool-cases (c == slash)) [
  | inl at ↦ rw at (refl, refl)
  | inr other ↦
      let (first, others) = token_end-pieces cs in rw other (ap (λ name. c ∷ name) first, others)
]

pub components-first :
    (c : ℕ) (rest : List ℕ)
    → (c == slash) ≡ false
    → components (c ∷ rest) ≡ (token_end (c ∷ rest)).0 ∷ components (token_end (c ∷ rest)).1
unfolding components pieces token_end keep
components-first c rest other =
    let (first, others) = token_end-pieces rest in rw other (rw (first, others) refl)

pub components-none : (cs : List ℕ) → skip_slashes cs ≡ [] → components cs ≡ []
unfolding components
components-none cs e = sym (components_skip cs) ∙ ap components e

pub strtok_r-done : (cs : List ℕ) → skip_slashes cs ≡ [] → strtok_r cs ≡ none
unfolding strtok_r
strtok_r-done cs e = rw (e, strtok_r) refl

pub strtok_r-token :
    (cs : List ℕ) {c : ℕ} {rest : List ℕ}
    → skip_slashes cs ≡ c ∷ rest
    → strtok_r cs ≡ some (token_end (c ∷ rest))
unfolding strtok_r
strtok_r-token cs e = rw (e, strtok_r) refl

pub rest-shorter :
    (cs : List ℕ) {c : ℕ} {rest : List ℕ}
    → skip_slashes cs ≡ c ∷ rest
    → (c == slash) ≡ false
    → length (token_end (c ∷ rest)).1 < length cs
unfolding token_end
rest-shorter cs {c} {rest} e other =
    rw other (omega (arith, skip_slashes-length cs, ap length e, token_end-length rest))

-- What comes after a result may be replaced by what does the same.
pub and_then-cong :
    {A B : Type 0} (r : Outcome (A × Fs)) (k k' : A → Cmd B)
    → ((a : A) (t : Fs) → k a t ≡ k' a t)
    → and_then r k ≡ and_then r k'
and_then-cong (returns r) k k' same = same r.0 r.1
and_then-cong panics k k' same = refl

where_found-cong :
    (k k' : ℕ → Cmd (Option ℕ))
    → ((a : ℕ) (t : Fs) → k a t ≡ k' a t)
    → (o : Option ℕ) (t : Fs) → where_found k o t ≡ where_found k' o t
unfolding where_found
where_found-cong k k' same none t = refl
where_found-cong k k' same (some a) t = same a t

-- The walk in rounds of `strtok_r`, as the source has it, is the walk along the components of the
-- path, in any store and from any start: with more rounds than the path has characters it never runs
-- out of them.
pub walk_path-components :
    (fuel curr : ℕ) (text : List ℕ) (s : Fs)
    → length text < fuel
    → walk_path fuel curr text s ≡ walk_all curr (components text) s
unfolding walk_path walk_all
walk_path-components zero curr text s enough = absurd (omega arith)
walk_path-components (suc fuel) curr text s enough = elim (skip_slashes-cases text) [
  | inl empty ↦ rw (strtok_r-done text empty, walk_path) (rw (components-none text empty) refl)
  | inr (c, rest, first, other) ↦
      let split : components text ≡ (token_end (c ∷ rest)).0 ∷ components (token_end (c ∷ rest)).1 =
        sym (components_skip text) ∙ ap components first ∙ components-first c rest other in
      let shorter = rest-shorter text first other in
      rw (strtok_r-token text first, walk_path)
        (rw split (
          and_then-cong (walk_token curr (token_end (c ∷ rest)).0 s) _ _ (
            where_found-cong _ _ λ next t.
              walk_path-components fuel next (token_end (c ∷ rest)).1 t (omega (arith, shorter)))))
]
