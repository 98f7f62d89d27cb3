-- ===== src/Vfs/ForceSteps.antt =====
-- The walk of `kpath_create_force` of kernel/src/vfs/fs.c as one step for each name, stated without the
-- helpers of Vfs/Force.antt, and that a round of the code is such a step.
use creeper_os_v.Prelude.{
  ℕ, ◌+◌, ◌≡◌, refl, ◌∙◌, inl, inr, Bool, true, false, ◌&&◌, Option, none, some, List, [], ◌∷◌,
  if◌then◌else◌, ◌==◌, Bool-cases, arith,
}
use creeper_os_v.Outcome.{Outcome, returns, panics}
use creeper_os_v.Vfs.Store.{
  Name, Dentry, Fs, Status, ok, err, Cmd, pure, and_then, ◌>>=◌, or_fault, update, load_dentry,
}
use creeper_os_v.Vfs.Text.{dot, same_text}
use creeper_os_v.Vfs.Ram.{op_lookup, op_create, op_mkdir}
use creeper_os_v.Vfs.Paths.{new_dentry, keep_or_free}
use creeper_os_v.Vfs.Walk.{and_then-cong}
use creeper_os_v.Vfs.Force.{make_node, make_missing, find_or_make, force_token, unless_error}

abbrev pub no_names : List Name → Bool
no_names [] = true
no_names (name ∷ names) = false

-- The names "." and "..".
abbrev pub is_dot : Name → Bool
is_dot [] = false
is_dot (c ∷ []) = c == dot
is_dot (c ∷ d ∷ ds) = false

abbrev pub is_dots : Name → Bool
is_dots [] = false
is_dots (c ∷ []) = false
is_dots (c ∷ d ∷ []) = c == dot && d == dot
is_dots (c ∷ d ∷ e ∷ es) = false

-- The node that was made is the next; one that was refused is gone, and its two blocks are free.
unfoldable pub made_to : (go : ℕ → Cmd Status) → (node : ℕ) → Status → Cmd Status
made_to go node ok s = go node s
made_to go node (err e) s =
    returns (err e, record s { dentries = update s.dentries node none; blocks = s.blocks + 1 + 1 })

-- The last name is a new file, one before it a new directory of mode 0755; without memory for it,
-- -E_NOMEM.
unfoldable pub missing_to :
    (go : ℕ → Cmd Status)
    → (inode : ℕ) → (is_last : Bool) → (mode : ℕ) → Bool
    → Option ℕ
    → Cmd Status
missing_to go inode is_last mode excl none = pure (err 12)
missing_to go inode true mode excl (some node) = op_create inode node mode excl >>= made_to go node
missing_to go inode false mode excl (some node) = op_mkdir inode node 0x41ED >>= made_to go node

unfoldable pub found_to :
    (go : ℕ → Cmd Status)
    → (curr inode : ℕ) → Name
    → (is_last : Bool) → (mode : ℕ) → Bool
    → Option ℕ
    → Cmd Status
found_to go curr inode name is_last mode excl (some next) = go next
found_to go curr inode name is_last mode excl none =
    new_dentry name curr >>= missing_to go inode is_last mode excl

-- One name: "." stays, ".." climbs and stays at the root, another is looked up. `go` goes on.
unfoldable pub step_to :
    (go : ℕ → Cmd Status) → (curr : ℕ) → Name → (is_last : Bool) → (mode : ℕ) → Bool → Cmd Status
step_to go curr name is_last mode excl = load_dentry curr >>= λ c.
    if is_dot name
    then go curr
    else if is_dots name
    then go (elim c.parent [ none ↦ curr | some parent ↦ parent ])
    else (or_fault c.inode >>= λ inode.
        op_lookup inode name >>= found_to go curr inode name is_last mode excl)

-- One step for each name; the last name is told apart.
unfoldable pub force_all : (curr : ℕ) → List Name → (mode : ℕ) → Bool → Cmd Status
unfolding step_to
force_all curr [] mode excl = pure ok
force_all curr (name ∷ names) mode excl =
    step_to (λ next. force_all next names mode excl) curr name (no_names names) mode excl

-- The commands of three in a row.
and_then_assoc :
    {A B C : Type 0} (r : Outcome (A × Fs)) (k : A → Cmd B) (l : B → Cmd C)
    → and_then (and_then r k) l ≡ and_then r (λ a. k a >>= l)
and_then_assoc (returns r) k l = refl
and_then_assoc panics k l = refl

same_text-dot : (name : Name) → same_text name (dot ∷ []) ≡ is_dot name
unfolding same_text
same_text-dot [] = refl
same_text-dot (c ∷ []) = ground arith
same_text-dot (c ∷ d ∷ ds) = ground arith

same_text-dots : (name : Name) → same_text name (dot ∷ dot ∷ []) ≡ is_dots name
unfolding same_text
same_text-dots [] = refl
same_text-dots (c ∷ []) = ground arith
same_text-dots (c ∷ d ∷ []) = ground arith
same_text-dots (c ∷ d ∷ e ∷ es) = ground arith

module _ (go : ℕ → Cmd Status) where
  keep_or_free_lem :
      (node : ℕ) (status : Status) (s : Fs)
      → ((keep_or_free node status >>= λ answer. pure (answer, node)) >>= unless_error go) s
        ≡ made_to go node status s
  unfolding keep_or_free unless_error made_to
  keep_or_free_lem node ok s = refl
  keep_or_free_lem node (err e) s = refl

  make_missing_lem :
      (curr inode : ℕ) (name : Name) (is_last : Bool) (mode : ℕ) (excl : Bool) (made : Option ℕ)
      (s : Fs)
      → (make_missing curr inode name is_last mode excl made >>= unless_error go) s
        ≡ missing_to go inode is_last mode excl made s
  unfolding make_missing make_node missing_to unless_error
  make_missing_lem curr inode name is_last mode excl none s = refl
  make_missing_lem curr inode name true mode excl (some node) s =
      and_then_assoc (op_create inode node mode excl s) _ _
      ∙ and_then-cong (op_create inode node mode excl s) _ _ (keep_or_free_lem node)
  make_missing_lem curr inode name false mode excl (some node) s =
      and_then_assoc (op_mkdir inode node 0x41ED s) _ _
      ∙ and_then-cong (op_mkdir inode node 0x41ED s) _ _ (keep_or_free_lem node)

  found_lem :
      (curr inode : ℕ) (name : Name) (is_last : Bool) (mode : ℕ) (excl : Bool) (found : Option ℕ)
      (s : Fs)
      → (elim found [
        | some next ↦ pure (ok, next)
        | none ↦ new_dentry name curr >>= make_missing curr inode name is_last mode excl
      ]
            >>= unless_error go)
          s
        ≡ found_to go curr inode name is_last mode excl found s
  unfolding unless_error found_to
  found_lem curr inode name is_last mode excl none s =
      and_then_assoc (new_dentry name curr s) _ _
      ∙ and_then-cong (new_dentry name curr s) _ _
          (make_missing_lem curr inode name is_last mode excl)
  found_lem curr inode name is_last mode excl (some next) s = refl

  find_or_make_lem :
      (curr : ℕ) (c : Dentry) (name : Name) (is_last : Bool) (mode : ℕ) (excl : Bool) (s : Fs)
      → s.dentries curr ≡ some c
      → (find_or_make curr name is_last mode excl >>= unless_error go) s
        ≡ (or_fault c.inode >>= λ inode.
              op_lookup inode name >>= found_to go curr inode name is_last mode excl)
            s
  unfolding find_or_make
  find_or_make_lem curr c name is_last mode excl s e = rw e (
      and_then_assoc (or_fault c.inode s) _ _
      ∙ and_then-cong (or_fault c.inode s) _ _ λ inode t.
        and_then_assoc (op_lookup inode name t) _ _
        ∙ and_then-cong (op_lookup inode name t) _ _ (found_lem curr inode name is_last mode excl))

  up_lem :
      (curr : ℕ) (parent : Option ℕ) (s : Fs)
      → (elim parent [ none ↦ pure (ok, curr) | some p ↦ pure (ok, p) ] >>= unless_error go) s
        ≡ go (elim parent [ none ↦ curr | some p ↦ p ]) s
  unfolding unless_error
  up_lem curr none s = refl
  up_lem curr (some p) s = refl

  at_dentry :
      (o : Option Dentry) (curr : ℕ) (name : Name) (is_last : Bool) (mode : ℕ) (excl : Bool)
      (s : Fs)
      → s.dentries curr ≡ o
      → (force_token curr name is_last mode excl >>= unless_error go) s
        ≡ step_to go curr name is_last mode excl s
  unfolding force_token step_to unless_error
  at_dentry none curr name is_last mode excl s e = rw e refl
  at_dentry (some c) curr name is_last mode excl s e = rw e (
      rw (same_text-dot name, same_text-dots name)
        (elim (Bool-cases (is_dot name)) [
          | inl here ↦ rw here refl
          | inr other ↦ rw other (elim (Bool-cases (is_dots name)) [
            | inl above ↦ rw above (up_lem curr c.parent s)
            | inr below ↦ rw below (find_or_make_lem curr c name is_last mode excl s e)
          ])
        ]))

  -- The step of the code, with what comes after it.
  pub force_token_lem :
      (curr : ℕ) (name : Name) (is_last : Bool) (mode : ℕ) (excl : Bool) (s : Fs)
      → (force_token curr name is_last mode excl >>= unless_error go) s
        ≡ step_to go curr name is_last mode excl s
  force_token_lem curr name is_last mode excl s =
      at_dentry (s.dentries curr) curr name is_last mode excl s refl
