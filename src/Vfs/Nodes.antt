-- ===== src/Vfs/Nodes.antt =====
-- The operations of kernel/src/vfs/vfs.c on one directory.
use creeper_os_v.Prelude.{
  ℕ, ◌-◌, Bool, true, false, not, Option, none, some, List, [], ◌∷◌, if◌then◌else◌, ◌==◌, leb,
  bit_and, bit_or,
}
use creeper_os_v.Vfs.Store.{
  Name, Inode, Status, ok, err, e_noent, e_nomem, e_exist, e_notdir, e_isdir, e_notempty, Cmd, pure,
  ◌>>=◌, ◌>>◌, or_fault, get, load_dentry, load_inode, store_dentry, store_inode, kmalloc, kfree,
}
use creeper_os_v.Vfs.Text.{same_text}

-- S_IFMT, S_IFDIR and S_IFREG of kernel/src/defines/types.h.
abbrev pub s_ifmt : ℕ
s_ifmt = 0xF000

abbrev pub s_ifdir : ℕ
s_ifdir = 0x4000

abbrev pub s_ifreg : ℕ
s_ifreg = 0x8000

unfoldable pub s_isdir : ℕ → Bool
s_isdir mode = bit_and mode s_ifmt == s_ifdir

-- mode & ~S_IFMT, for a 16-bit umode_t.
abbrev pub permissions : ℕ → ℕ
permissions mode = bit_and mode 0x0FFF

-- hlist_for_each: the first child with the name.
unfoldable pub find_child : Name → List ℕ → Cmd (Option ℕ)
unfolding same_text
find_child name [] = pure none
find_child name (child ∷ rest) = do
  d ← load_dentry child
  if same_text name d.name then pure (some child) else find_child name rest

unfoldable pub vfs_lookup : (dir : ℕ) → Name → Cmd (Option ℕ)
unfolding find_child
vfs_lookup dir name = do
  i ← load_inode dir
  d ← load_dentry i.i_dentry
  find_child name d.d_children

-- hlist_add_head(&dentry->d_sib, &dir->i_dentry->d_children)
unfoldable pub add_child : (parent child : ℕ) → Cmd (Unit {0})
add_child parent child = do
  p ← load_dentry parent
  store_dentry parent (some (record p { d_children = child ∷ p.d_children }))

-- vfs_create once no child of the name is there: the inode is filled in and the dentry linked.
unfoldable pub link_new : (dir dentry mode : ℕ) → Option ℕ → Cmd Status
unfolding add_child
link_new dir dentry mode none = pure (err e_nomem)
link_new dir dentry mode (some new_inode) = do
  s ← get
  i ← load_inode dir
  store_inode new_inode (
      some (record {
        i_dentry = dentry;
        i_mode = mode;
        i_uid = s.uid;
        i_gid = s.gid;
        i_size = none;
        i_count = 0;
        i_op = i.i_op;
        i_fop = i.i_fop;
        i_private = none;
      }))
  d ← load_dentry dentry
  store_dentry dentry (some (record d { inode = some new_inode; d_children = [] }))
  add_child i.i_dentry dentry
  pure ok

unfoldable pub vfs_create : (dir dentry mode : ℕ) (excl : Bool) → Cmd Status
unfolding vfs_lookup link_new kmalloc
vfs_create dir dentry mode excl = do
  d ← load_dentry dentry
  found ← vfs_lookup dir d.name
  elim found [ some child ↦ pure (err e_exist) | none ↦ kmalloc >>= link_new dir dentry mode ]

unfoldable pub vfs_mkdir : (dir dentry mode : ℕ) → Cmd Status
unfolding vfs_create
vfs_mkdir dir dentry mode = vfs_create dir dentry (bit_or s_ifdir (permissions mode)) false

-- hlist_del(&target->d_sib), where the target stands in the list of the dentry `parent`.
unfoldable pub without : ℕ → List ℕ → List ℕ
without target [] = []
without target (c ∷ cs) = if c == target then cs else c ∷ without target cs

unfoldable pub unlink_child : (parent target : ℕ) → Cmd (Unit {0})
unfolding without
unlink_child parent target = do
  p ← load_dentry parent
  store_dentry parent (some (record p { d_children = without target p.d_children }))

-- kfree(target->inode); kfree(target->name); kfree(target)
unfoldable pub free_node : (target inode : ℕ) → Cmd (Unit {0})
free_node target inode = do store_inode inode none; kfree; kfree; store_dentry target none; kfree

unfoldable pub is_empty : List ℕ → Bool
is_empty [] = true
is_empty (c ∷ cs) = false

unfoldable pub rmdir_target : (dir target : ℕ) → Cmd Status
unfolding unlink_child free_node s_isdir is_empty
rmdir_target dir target = do
  t ← load_dentry target
  inode ← or_fault t.inode
  i ← load_inode inode
  at ← load_inode dir
  if not (s_isdir i.i_mode)
      then pure (err e_notdir)
      else if is_empty t.d_children
      then pure (err e_notempty)
      else (unlink_child at.i_dentry target >> free_node target inode >> pure ok)

unfoldable pub vfs_rmdir : (dir dentry : ℕ) → Cmd Status
unfolding vfs_lookup rmdir_target
vfs_rmdir dir dentry = do
  d ← load_dentry dentry
  found ← vfs_lookup dir d.name
  elim found [ none ↦ pure (err e_noent) | some target ↦ rmdir_target dir target ]

-- `if (--target->inode->i_count <= 0) kfree(target->inode)`, with the name and the dentry freed.
unfoldable pub release_node : (target inode : ℕ) → Inode → Cmd (Unit {0})
unfolding free_node
release_node target inode i = if leb i.i_count 1 then free_node target inode else (do
  store_inode inode (some (record i { i_count = i.i_count - 1 }))
  kfree
  store_dentry target none
  kfree)

unfoldable pub unlink_target : (dir target : ℕ) → Cmd Status
unfolding unlink_child release_node s_isdir
unlink_target dir target = do
  t ← load_dentry target
  inode ← or_fault t.inode
  i ← load_inode inode
  at ← load_inode dir
  if s_isdir i.i_mode
      then pure (err e_isdir)
      else (unlink_child at.i_dentry target >> release_node target inode i >> pure ok)

unfoldable pub vfs_unlink : (dir dentry : ℕ) → Cmd Status
unfolding vfs_lookup unlink_target
vfs_unlink dir dentry = do
  d ← load_dentry dentry
  found ← vfs_lookup dir d.name
  elim found [ none ↦ pure (err e_noent) | some target ↦ unlink_target dir target ]
