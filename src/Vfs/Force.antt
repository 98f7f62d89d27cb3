-- ===== src/Vfs/Force.antt =====
-- `kpath_create_force` and `kpath_mkdir_force` of kernel/src/vfs/fs.c, which make the directories on
-- the way where they are missing.
use creeper_os_v.Prelude.{
  ℕ, zero, suc, Bool, true, Option, none, some, List, [], ◌∷◌, if◌then◌else◌, ◌==◌, length, bit_or,
  not,
}
use creeper_os_v.Vfs.Store.{
  Name, Status, ok, err, e_nomem, Cmd, pure, fault, ◌>>=◌, ◌>>◌, or_fault, get, load_dentry,
  load_inode, kmalloc, kfree,
}
use creeper_os_v.Vfs.Text.{slash, dot, same_text, strtok_r}
use creeper_os_v.Vfs.Nodes.{s_ifdir}
use creeper_os_v.Vfs.Ram.{is_some, op_lookup, op_create, op_mkdir}
use creeper_os_v.Vfs.Paths.{new_dentry, keep_or_free}

-- The call of `create` for the last name of the path, and of `mkdir` with S_IFDIR | 0755 before it.
unfoldable pub make_node : (inode node : ℕ) → (is_last : Bool) → (mode : ℕ) → Bool → Cmd Status
unfolding op_create op_mkdir
make_node inode node is_last mode excl =
    if is_last then op_create inode node mode excl else op_mkdir inode node (bit_or s_ifdir 0x1ED)

-- `if (!next)`: a new dentry of the name, with an inode; the status, and where the walk goes on.
unfoldable pub make_missing :
    (curr inode : ℕ) → Name → (is_last : Bool) → (mode : ℕ) → Bool → Option ℕ → Cmd (Status × ℕ)
unfolding make_node keep_or_free
make_missing curr inode token is_last mode excl none = pure (err e_nomem, curr)
make_missing curr inode token is_last mode excl (some node) =
    make_node inode node is_last mode excl >>= λ status.
    keep_or_free node status >>= λ answer. pure (answer, node)

unfoldable pub find_or_make :
    (curr : ℕ) → Name → (is_last : Bool) → (mode : ℕ) → Bool → Cmd (Status × ℕ)
unfolding op_lookup new_dentry make_missing
find_or_make curr token is_last mode excl = do
  c ← load_dentry curr
  inode ← or_fault c.inode
  found ← op_lookup inode token
  elim found [
    | some next ↦ pure (ok, next)
    | none ↦ new_dentry token curr >>= make_missing curr inode token is_last mode excl
  ]

-- One component: "." and ".." move as in `kpath_lookup`.
unfoldable pub force_token :
    (curr : ℕ) → Name → (is_last : Bool) → (mode : ℕ) → Bool → Cmd (Status × ℕ)
unfolding same_text find_or_make
force_token curr token is_last mode excl = do
  c ← load_dentry curr
  if same_text token (dot ∷ [])
      then pure (ok, curr)
      else if same_text token (dot ∷ dot ∷ [])
      then elim c.parent [ none ↦ pure (ok, curr) | some parent ↦ pure (ok, parent) ]
      else find_or_make curr token is_last mode excl

-- An error ends the walk.
unfoldable pub unless_error : (ℕ → Cmd Status) → Status × ℕ → Cmd Status
unless_error walk (ok, next) = walk next
unless_error walk (err e, next) = pure (err e)

-- next_token == NULL, where `rest` is what the tokenizer has left.
unfoldable pub is_last_token : (rest : List ℕ) → Bool
unfolding strtok_r
is_last_token rest = not (is_some (strtok_r rest))

-- while (token), with `fuel` rounds left; out of fuel it faults.
unfoldable pub force_path : (fuel curr : ℕ) → (text : List ℕ) → (mode : ℕ) → Bool → Cmd Status
unfolding strtok_r is_last_token force_token unless_error
force_path zero curr text mode excl = fault
force_path (suc fuel) curr text mode excl = elim (strtok_r text) [
  | none ↦ pure ok
  | some (token, rest) ↦
      force_token curr token (is_last_token rest) mode excl
      >>= unless_error (λ next. force_path fuel next rest mode excl)
]

-- path[0] == '/' ? root_dentry : start->i_dentry
unfoldable pub force_start : (start : ℕ) → (path : List ℕ) → Cmd ℕ
force_start start [] = load_inode start >>= λ i. pure i.i_dentry
force_start start (c ∷ cs) =
    load_inode start >>= λ i. get >>= λ s. pure (if c == slash then s.root_dentry else i.i_dentry)

unfoldable pub kpath_create_force :
    (start : ℕ) → (path : List ℕ) → (mode : ℕ) → (excl : Bool) → Cmd Status
unfolding force_start kmalloc force_path
kpath_create_force start path mode excl = do
  curr ← force_start start path
  copy ← kmalloc
  elim copy [
    | none ↦ pure (err e_nomem)
    | some block ↦ (do
      status ← force_path (suc (length path)) curr path mode excl
      kfree
      pure status)
  ]

-- `kpath_mkdir_force` drops the status.
unfoldable pub kpath_mkdir_force : (start : ℕ) → (path : List ℕ) → (mode : ℕ) → Cmd Status
unfolding kpath_create_force
kpath_mkdir_force start path mode =
    kpath_create_force start path (bit_or s_ifdir mode) true >>= λ status. pure ok
