-- ===== src/Vfs/Removal.antt =====
-- What the removal of directories in kernel/src/vfs/vfs.c and kernel/src/vfs/ramfile.c does.
use creeper_os_v.Prelude.{
  ℕ, ◌+◌, ◌≡◌, ◌≢◌, refl, ◌∙◌, ◌⊎◌, inl, inr, true, none, some, List, [], ◌∷◌,
}
use creeper_os_v.Outcome.{returns}
use creeper_os_v.Vfs.Store.{Inode, Dentry, Fs, ok, err, e_notempty, update}
use creeper_os_v.Vfs.Nodes.{
  s_isdir, is_empty, without, unlink_child, free_node, rmdir_target, vfs_rmdir,
}
use creeper_os_v.Vfs.Ram.{ram_rmdir_target, ramfile_inode_rmdir, free_info}
use creeper_os_v.Vfs.Lookup.{IsDir, first_named, vfs_lookup-first_named}

-- In the directory inode `dir` the name of `dentry` finds the directory `target`.
pub record Finds (s : Fs) (dir dentry target : ℕ) : Type 0 where
  pub i : Inode
  pub p : Dentry
  pub d : Dentry
  pub t : Dentry
  pub inode : ℕ
  pub ti : Inode
  pub is_dir : IsDir s dir i p
  pub named : s.dentries dentry ≡ some d
  pub first : first_named s d.name p.d_children ≡ some target
  pub at : s.dentries target ≡ some t
  pub holds : t.inode ≡ some inode
  pub inode_at : s.inodes inode ≡ some ti
  pub mode : s_isdir ti.i_mode ≡ true

vfs_rmdir-target :
    {s : Fs} {dir dentry target : ℕ}
    → Finds s dir dentry target
    → vfs_rmdir dir dentry s ≡ rmdir_target dir target s
unfolding vfs_rmdir
vfs_rmdir-target f = rw (f.named, vfs_lookup-first_named f.d.name f.is_dir, f.first) refl

ramfile_inode_rmdir-target :
    {s : Fs} {dir dentry target : ℕ}
    → Finds s dir dentry target
    → ramfile_inode_rmdir dir dentry s ≡ ram_rmdir_target dir target s
unfolding ramfile_inode_rmdir
ramfile_inode_rmdir-target f = rw (f.named, vfs_lookup-first_named f.d.name f.is_dir, f.first) refl

-- `vfs_rmdir` refuses to remove a directory that is empty, with -E_NOTEMPTY, and changes nothing.
vfs_rmdir_empty :
    {s : Fs} {dir dentry target : ℕ} (f : Finds s dir dentry target)
    → f.t.d_children ≡ []
    → vfs_rmdir dir dentry s ≡ returns (err e_notempty, s)
unfolding rmdir_target is_empty
vfs_rmdir_empty f empty =
    vfs_rmdir-target f ∙ rw (f.at, f.holds, f.inode_at, f.is_dir.inode, f.mode) (rw empty refl)

-- The store after the directory `target` was removed from `parent`, with three blocks given back.
abbrev pub removed : Fs → (parent target inode : ℕ) → Dentry → Fs
removed s parent target inode p = record s {
  inodes = update s.inodes inode none;
  dentries =
      update
        (update s.dentries parent (some (record p { d_children = without target p.d_children })))
        target none;
  blocks = s.blocks + 1 + 1 + 1;
}

-- `vfs_rmdir` removes a directory that still has children: it leaves the list, and its dentry, name
-- and inode are freed, while its children are not.
vfs_rmdir_full :
    {s : Fs} {dir dentry target c : ℕ} {cs : List ℕ} (f : Finds s dir dentry target)
    → f.t.d_children ≡ c ∷ cs
    → vfs_rmdir dir dentry s ≡ returns (ok, removed s f.i.i_dentry target f.inode f.p)
unfolding rmdir_target is_empty unlink_child free_node
vfs_rmdir_full f full =
    vfs_rmdir-target f
    ∙ rw (f.at, f.holds, f.inode_at, f.is_dir.inode, f.mode) (rw full (rw f.is_dir.dentry refl))

-- `vfs_rmdir` of a name that finds a directory refuses with -E_NOTEMPTY, and changes nothing, where
-- that directory is empty; where it has children, it is removed from its parent, and its dentry, name
-- and inode are freed.
pub vfs_rmdir_lem :
    {s : Fs} {dir dentry target : ℕ} (f : Finds s dir dentry target)
    → ((f.t.d_children ≡ []) × (vfs_rmdir dir dentry s ≡ returns (err e_notempty, s)))
      ⊎ ((f.t.d_children ≢ [])
          × (vfs_rmdir dir dentry s ≡ returns (ok, removed s f.i.i_dentry target f.inode f.p)))
vfs_rmdir_lem {s} {dir} {dentry} {target} f = by_children f.t.d_children refl
  where
    by_children :
        (cs : List ℕ)
        → f.t.d_children ≡ cs
        → ((f.t.d_children ≡ []) × (vfs_rmdir dir dentry s ≡ returns (err e_notempty, s)))
          ⊎ ((f.t.d_children ≢ [])
              × (vfs_rmdir dir dentry s ≡ returns (ok, removed s f.i.i_dentry target f.inode f.p)))
    by_children [] empty = inl (empty, vfs_rmdir_empty f empty)
    by_children (c ∷ cs) full = inr ((λ empty. absurd (cc)), vfs_rmdir_full f full)

-- `ramfile_inode_rmdir` of a name that finds a directory without info block refuses with
-- -E_NOTEMPTY and changes nothing while that directory has children; it removes an empty one from
-- its parent, and frees its dentry, name and inode.
pub ramfile_inode_rmdir_lem :
    {s : Fs} {dir dentry target : ℕ} (f : Finds s dir dentry target)
    → f.ti.i_private ≡ none
    → ((f.t.d_children ≡ [])
        × (ramfile_inode_rmdir dir dentry s
            ≡ returns (ok, removed s f.i.i_dentry target f.inode f.p)))
      ⊎ ((f.t.d_children ≢ []) × (ramfile_inode_rmdir dir dentry s ≡ returns (err e_notempty, s)))
unfolding ram_rmdir_target is_empty unlink_child free_info free_node
ramfile_inode_rmdir_lem {s} {dir} {dentry} {target} f private = by_children f.t.d_children refl
  where
    by_children :
        (cs : List ℕ)
        → f.t.d_children ≡ cs
        → ((f.t.d_children ≡ [])
            × (ramfile_inode_rmdir dir dentry s
                ≡ returns (ok, removed s f.i.i_dentry target f.inode f.p)))
          ⊎ ((f.t.d_children ≢ [])
              × (ramfile_inode_rmdir dir dentry s ≡ returns (err e_notempty, s)))
    by_children [] empty = inl (
      empty,
      ramfile_inode_rmdir-target f
          ∙ rw (f.at, f.holds, f.inode_at, f.is_dir.inode, f.mode)
              (rw empty (rw (f.is_dir.dentry, private) refl)),
    )
    by_children (c ∷ cs) full = inr (
      (λ empty. absurd (cc)),
      ramfile_inode_rmdir-target f
          ∙ rw (f.at, f.holds, f.inode_at, f.is_dir.inode, f.mode) (rw full refl),
    )
