-- ===== src/Vfs/Paths.antt =====
-- The walks along paths of kernel/src/vfs/fs.c.
use creeper_os_v.Prelude.{
  ℕ, zero, suc, ◌+◌, Bool, Option, none, some, List, [], ◌∷◌, if◌then◌else◌, ◌==◌, length,
}
use creeper_os_v.Vfs.Store.{
  Name, Status, ok, err, e_noent, e_nomem, Cmd, pure, fault, ◌>>=◌, ◌>>◌, or_fault, get,
  load_dentry, load_inode, store_dentry, store_inode, kmalloc, kfree,
}
use creeper_os_v.Vfs.Text.{slash, dot, same_text, strtok_r, strrchr_slash}
use creeper_os_v.Vfs.Ram.{op_lookup, op_create, op_mkdir, op_rmdir, op_unlink}

-- One component of a path: "." stays, ".." goes to the parent, or stays where there is none, and any
-- other name goes to the child that the directory's `lookup` finds.
unfoldable pub walk_token : (curr : ℕ) → Name → Cmd (Option ℕ)
unfolding same_text op_lookup
walk_token curr token = do
  c ← load_dentry curr
  if same_text token (dot ∷ [])
      then pure (some curr)
      else if same_text token (dot ∷ dot ∷ [])
      then elim c.parent [ none ↦ pure (some curr) | some parent ↦ pure (some parent) ]
      else (or_fault c.inode >>= λ inode. op_lookup inode token)

-- if (!result) return NULL; else the walk goes on from the result.
unfoldable pub where_found : (ℕ → Cmd (Option ℕ)) → Option ℕ → Cmd (Option ℕ)
where_found walk none = pure none
where_found walk (some found) = walk found

-- while (token), with `fuel` rounds left; out of fuel it faults. `text` is what strtok_r has left.
unfoldable pub walk_path : (fuel curr : ℕ) → (text : List ℕ) → Cmd (Option ℕ)
unfolding walk_token strtok_r where_found
walk_path zero curr text = fault
walk_path (suc fuel) curr text = elim (strtok_r text) [
  | none ↦ pure (some curr)
  | some (token, rest) ↦ walk_token curr token >>= where_found (λ found. walk_path fuel found rest)
]

-- curr->inode->i_count++
unfoldable pub count_reference : Option ℕ → Cmd (Option ℕ)
count_reference none = pure none
count_reference (some curr) = do
  d ← load_dentry curr
  inode ← or_fault d.inode
  i ← load_inode inode
  store_inode inode (some (record i { i_count = i.i_count + 1 }))
  pure (some curr)

-- The copy of the path takes a block for the time of the walk.
unfoldable pub kpath_lookup : (start : ℕ) → (path : List ℕ) → Cmd (Option ℕ)
unfolding kmalloc walk_path count_reference
kpath_lookup start path = do
  copy ← kmalloc
  elim copy [
    | none ↦ pure none
    | some block ↦ (do
      i ← load_inode start
      found ← walk_path (suc (length path)) i.i_dentry path
      kfree
      count_reference found)
  ]

-- The parent path and the name of the last component.
unfoldable pub parent_and_name : List ℕ → List ℕ × Name
unfolding strrchr_slash
parent_and_name path = elim (strrchr_slash path) [
  | none ↦ (dot ∷ [], path)
  | some (front, back) ↦ elim front [ [] ↦ (slash ∷ [], back) | c ∷ cs ↦ (c ∷ cs, back) ]
]

-- A dentry with the name and the parent, or nothing where its two blocks are not to be had.
unfoldable pub new_dentry : Name → (parent : ℕ) → Cmd (Option ℕ)
unfolding kmalloc
new_dentry name parent = do
  node ← kmalloc
  elim node [
    | none ↦ pure none
    | some p ↦ (do
      copied ← kmalloc
      elim copied [
        | none ↦ (kfree >> pure none)
        | some block ↦ (do
          store_dentry p
              (some (record { name = name; parent = some parent; inode = none; d_children = [] }))
          pure (some p))
      ])
  ]

-- What `create` or `mkdir` answered: a dentry that was refused is freed.
unfoldable pub keep_or_free : ℕ → Status → Cmd Status
keep_or_free node ok = pure ok
keep_or_free node (err e) = kfree >> store_dentry node none >> kfree >> pure (err e)

-- kpath_create and kpath_mkdir, which differ in the operation that they call.
unfoldable pub make_in_parent : (ℕ → ℕ → Cmd Status) → (start : ℕ) → (path : List ℕ) → Cmd Status
unfolding kmalloc parent_and_name kpath_lookup new_dentry keep_or_free
make_in_parent make start path = do
  copy ← kmalloc
  elim copy [
    | none ↦ pure (err e_nomem)
    | some block ↦ (do
      found ← kpath_lookup start (parent_and_name path).0
      elim found [
        | none ↦ (kfree >> pure (err e_noent))
        | some dir ↦ (do
          made ← new_dentry (parent_and_name path).1 dir
          elim made [
            | none ↦ (kfree >> pure (err e_nomem))
            | some node ↦ (do
              d ← load_dentry dir
              inode ← or_fault d.inode
              status ← make inode node
              result ← keep_or_free node status
              kfree
              pure result)
          ])
      ])
  ]

unfoldable pub kpath_create : (start : ℕ) → (path : List ℕ) → (mode : ℕ) → Bool → Cmd Status
unfolding make_in_parent op_create
kpath_create start path mode excl =
    make_in_parent (λ inode node. op_create inode node mode excl) start path

unfoldable pub kpath_mkdir : (start : ℕ) → (path : List ℕ) → (mode : ℕ) → Cmd Status
unfolding make_in_parent op_mkdir
kpath_mkdir start path mode = make_in_parent (λ inode node. op_mkdir inode node mode) start path

-- A dentry on the heap, filled in only with the name and the parent, that stands for the name.
unfoldable pub removing :
    (ℕ → ℕ → Cmd Status) → (start : ℕ) → (path : List ℕ) → Name → Cmd (Option ℕ × Status)
unfolding kpath_lookup kmalloc
removing remove start path name = do
  found ← kpath_lookup start path
  elim found [
    | none ↦ pure (none, err e_noent)
    | some dir ↦ (do
      target ← kmalloc
      elim target [
        | none ↦ pure (none, err e_nomem)
        | some p ↦ (do
          store_dentry p
              (some (record { name = name; parent = some dir; inode = none; d_children = [] }))
          d ← load_dentry dir
          inode ← or_fault d.inode
          status ← remove inode p
          pure (some p, status))
      ])
  ]

unfoldable pub kpath_rmdir : (start : ℕ) → (path : List ℕ) → Name → Cmd Status
unfolding removing op_rmdir
kpath_rmdir start path name = do
  (target, status) ← removing op_rmdir start path name
  elim target [ none ↦ pure status | some p ↦ (store_dentry p none >> kfree >> pure status) ]

-- `path_unlink` does not free the dentry that stood for the name.
unfoldable pub path_unlink : (start : ℕ) → (path : List ℕ) → Name → Cmd Status
unfolding removing op_unlink
path_unlink start path name = removing op_unlink start path name >>= λ r. pure r.1

-- path_resolve_start: the root for a path that begins with a slash, else the working directory.
unfoldable pub path_resolve_start : (cwd : ℕ) → (path : List ℕ) → Cmd ℕ
path_resolve_start cwd [] = pure cwd
path_resolve_start cwd (c ∷ cs) = do
  s ← get
  r ← load_dentry s.root_dentry
  inode ← or_fault r.inode
  pure (if c == slash then inode else cwd)
