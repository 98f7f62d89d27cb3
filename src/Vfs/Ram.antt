-- ===== src/Vfs/Ram.antt =====
-- The directory operations of kernel/src/vfs/ramfile.c, and the calls through `i_op`.
use creeper_os_v.Prelude.{
  ℕ, Bool, true, false, not, ◌&&◌, Option, none, some, if◌then◌else◌, ◌==◌, bit_or,
}
use creeper_os_v.Vfs.Store.{
  Name, InodeOperations, def_vfs_i_ops, ram_dir_iops, null_i_ops, ram_file_fops, null_fops,
  RamfileInfo, Status, ok, err, e_noent, e_nomem, e_exist, e_notdir, e_isdir, e_notempty, Cmd, pure,
  fault, ◌>>=◌, ◌>>◌, or_fault, load_dentry, load_inode, store_dentry, store_inode, kmalloc, kfree,
}
use creeper_os_v.Vfs.Nodes.{
  s_ifdir, s_ifreg, s_isdir, permissions, vfs_lookup, vfs_create, vfs_mkdir, unlink_child,
  free_node, release_node, is_empty,
}

abbrev pub is_some {ℓ} : {A : Type ℓ} → Option A → Bool
is_some none = false
is_some (some _) = true

-- The info block of a new file, or, where there is none left, the inode taken back.
unfoldable pub attach_info : (dentry inode : ℕ) → Option ℕ → Cmd Status
attach_info dentry inode none = do
  store_inode inode none
  kfree
  d ← load_dentry dentry
  store_dentry dentry (some (record d { inode = none }))
  pure (err e_nomem)
attach_info dentry inode (some block) = do
  i ← load_inode inode
  store_inode inode (
      some (record i {
        i_private = some (record { start = 0; size = 0; fixed_size = false });
        i_fop = ram_file_fops;
        i_op = ram_dir_iops;
      }))
  pure ok

unfoldable pub after_create : ℕ → Status → Cmd Status
unfolding attach_info kmalloc
after_create dentry (err e) = pure (err e)
after_create dentry ok = do
  d ← load_dentry dentry
  inode ← or_fault d.inode
  kmalloc >>= attach_info dentry inode

unfoldable pub ramfile_inode_create : (dir dentry mode : ℕ) (excl : Bool) → Cmd Status
unfolding vfs_create after_create
ramfile_inode_create dir dentry mode excl = do
  d ← load_dentry dentry
  if excl && is_some d.inode
      then pure (err e_exist)
      else (vfs_create dir dentry (bit_or s_ifreg (permissions mode)) excl >>= after_create dentry)

unfoldable pub after_mkdir : ℕ → Status → Cmd Status
after_mkdir dentry (err e) = pure (err e)
after_mkdir dentry ok = do
  d ← load_dentry dentry
  inode ← or_fault d.inode
  i ← load_inode inode
  store_inode inode (some (record i { i_op = ram_dir_iops; i_fop = null_fops; i_private = none }))
  pure ok

unfoldable pub ramfile_inode_mkdir : (dir dentry mode : ℕ) → Cmd Status
unfolding vfs_create after_mkdir
ramfile_inode_mkdir dir dentry mode =
    vfs_create dir dentry (bit_or s_ifdir (permissions mode)) false >>= after_mkdir dentry

-- kfree(target->inode->i_private), which is NULL for a directory of ramfile_inode_mkdir.
unfoldable pub free_info : Option RamfileInfo → Cmd (Unit {0})
free_info none = pure tt
free_info (some info) = kfree

unfoldable pub ram_rmdir_target : (dir target : ℕ) → Cmd Status
unfolding unlink_child free_node free_info s_isdir is_empty
ram_rmdir_target dir target = do
  t ← load_dentry target
  inode ← or_fault t.inode
  i ← load_inode inode
  at ← load_inode dir
  if not (s_isdir i.i_mode)
      then pure (err e_notdir)
      else if not (is_empty t.d_children)
      then pure (err e_notempty)
      else (do
        unlink_child at.i_dentry target
        free_info i.i_private
        free_node target inode
        pure ok)

unfoldable pub ramfile_inode_rmdir : (dir dentry : ℕ) → Cmd Status
unfolding vfs_lookup ram_rmdir_target
ramfile_inode_rmdir dir dentry = do
  d ← load_dentry dentry
  found ← vfs_lookup dir d.name
  elim found [ none ↦ pure (err e_noent) | some target ↦ ram_rmdir_target dir target ]

-- The contents of a file that owns them, and the info block.
unfoldable pub free_contents : Option RamfileInfo → Cmd (Unit {0})
free_contents none = pure tt
free_contents (some info) =
    if not info.fixed_size && not (info.start == 0) then kfree >> kfree else kfree

unfoldable pub ram_unlink_target : (dir target : ℕ) → Cmd Status
unfolding unlink_child free_contents release_node s_isdir
ram_unlink_target dir target = do
  t ← load_dentry target
  inode ← or_fault t.inode
  i ← load_inode inode
  at ← load_inode dir
  if s_isdir i.i_mode then pure (err e_isdir) else (do
    unlink_child at.i_dentry target
    free_contents i.i_private
    release_node target inode i
    pure ok)

unfoldable pub ramfile_inode_unlink : (dir dentry : ℕ) → Cmd Status
unfolding vfs_lookup ram_unlink_target
ramfile_inode_unlink dir dentry = do
  d ← load_dentry dentry
  found ← vfs_lookup dir d.name
  elim found [ none ↦ pure (err e_noent) | some target ↦ ram_unlink_target dir target ]

-- dir->i_op->lookup(dir, dentry, 0), and so on. An operation that a table lacks is a null pointer.
lookup_by : InodeOperations → ℕ → Name → Cmd (Option ℕ)
lookup_by def_vfs_i_ops dir name = vfs_lookup dir name
lookup_by ram_dir_iops dir name = vfs_lookup dir name
lookup_by null_i_ops dir name = fault

create_by : InodeOperations → (dir dentry mode : ℕ) → Bool → Cmd Status
create_by def_vfs_i_ops dir dentry mode excl = vfs_create dir dentry mode excl
create_by ram_dir_iops dir dentry mode excl = ramfile_inode_create dir dentry mode excl
create_by null_i_ops dir dentry mode excl = fault

mkdir_by : InodeOperations → (dir dentry mode : ℕ) → Cmd Status
mkdir_by def_vfs_i_ops dir dentry mode = vfs_mkdir dir dentry mode
mkdir_by ram_dir_iops dir dentry mode = ramfile_inode_mkdir dir dentry mode
mkdir_by null_i_ops dir dentry mode = fault

rmdir_by : InodeOperations → (dir dentry : ℕ) → Cmd Status
rmdir_by def_vfs_i_ops dir dentry = fault
rmdir_by ram_dir_iops dir dentry = ramfile_inode_rmdir dir dentry
rmdir_by null_i_ops dir dentry = fault

unlink_by : InodeOperations → (dir dentry : ℕ) → Cmd Status
unlink_by def_vfs_i_ops dir dentry = fault
unlink_by ram_dir_iops dir dentry = ramfile_inode_unlink dir dentry
unlink_by null_i_ops dir dentry = fault

unfoldable pub op_lookup : (dir : ℕ) → Name → Cmd (Option ℕ)
unfolding lookup_by
op_lookup dir name = load_inode dir >>= λ i. lookup_by i.i_op dir name

unfoldable pub op_create : (dir dentry mode : ℕ) → Bool → Cmd Status
unfolding create_by
op_create dir dentry mode excl = load_inode dir >>= λ i. create_by i.i_op dir dentry mode excl

unfoldable pub op_mkdir : (dir dentry mode : ℕ) → Cmd Status
unfolding mkdir_by
op_mkdir dir dentry mode = load_inode dir >>= λ i. mkdir_by i.i_op dir dentry mode

unfoldable pub op_rmdir : (dir dentry : ℕ) → Cmd Status
unfolding rmdir_by
op_rmdir dir dentry = load_inode dir >>= λ i. rmdir_by i.i_op dir dentry

unfoldable pub op_unlink : (dir dentry : ℕ) → Cmd Status
unfolding unlink_by
op_unlink dir dentry = load_inode dir >>= λ i. unlink_by i.i_op dir dentry
