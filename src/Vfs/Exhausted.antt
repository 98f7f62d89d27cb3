-- ===== src/Vfs/Exhausted.antt =====
-- What `ramfile_inode_create` of kernel/src/vfs/ramfile.c leaves behind when the heap runs out.
use creeper_os_v.Prelude.{
  ℕ, ◌+◌, ◌-◌, ◌≡◌, ◌≢◌, refl, true, false, none, some, [], ◌∷◌, ◌==◌, arith, bit_or,
}
use creeper_os_v.Outcome.{returns, panics}
use creeper_os_v.Vfs.Store.{Name, Inode, Dentry, Fs, err, e_nomem, ◌>>=◌, update, kmalloc}
use creeper_os_v.Vfs.Nodes.{s_ifreg, permissions, vfs_lookup, find_child}
use creeper_os_v.Vfs.Ram.{ramfile_inode_create, after_create, attach_info}
use creeper_os_v.Vfs.Paths.{keep_or_free}
use creeper_os_v.Vfs.Lookup.{IsDir, first_named, created, vfs_create-created}

-- The store after the new inode of `dentry` was taken back and the dentry freed.
abbrev dangling : Fs → (dentry mode : ℕ) → Inode → Dentry → Dentry → Fs
dangling s dentry mode i d p = record (created s dentry mode i d p) {
  inodes = update (created s dentry mode i d p).inodes s.fresh none;
  dentries =
      update
        (update (created s dentry mode i d p).dentries dentry
          (some (record d { inode = none; d_children = [] })))
        dentry none;
  blocks = s.blocks - 1 + 1 + 1 + 1;
}

-- Where the heap has one block left, creating a file of a new name in a directory, for a dentry
-- without inode that is not the directory's own, fails with -E_NOMEM; the caller frees the new
-- dentry, but the directory still lists it, and every lookup in the directory then reads the freed
-- dentry.
pub create-dangling :
    {s : Fs} {dir dentry : ℕ} {i : Inode} {p d : Dentry} (mode : ℕ)
    → IsDir s dir i p
    → s.dentries dentry ≡ some d
    → d.inode ≡ none
    → dentry ≢ i.i_dentry
    → s.fresh ≢ dir
    → first_named s d.name p.d_children ≡ none
    → s.blocks ≡ 1
    → (t : Fs) × ((ramfile_inode_create dir dentry mode false >>= keep_or_free dentry) s
        ≡ returns (err e_nomem, t))
      × (t.dentries i.i_dentry ≡ some (record p { d_children = dentry ∷ p.d_children }))
      × ((name : Name) → vfs_lookup dir name t ≡ panics)
unfolding ramfile_inode_create after_create attach_info keep_or_free vfs_lookup find_child kmalloc
create-dangling {s} {dir} {dentry} {i} {p} {d} mode h new bare apart old fresh one =
    let elsewhere : (dir == s.fresh) ≡ false = ground arith in
    let self : (i.i_dentry == i.i_dentry) ≡ true = ground arith in
    let other : (dentry == i.i_dentry) ≡ false = ground arith in
    let other' : (i.i_dentry == dentry) ≡ false = ground arith in
    let same : (dentry == dentry) ≡ true = ground arith in
    let regular = bit_or s_ifreg (permissions mode) in
    (
      dangling s dentry regular i d p,
      rw (new, vfs_create-created dentry regular false h new apart fresh (omega arith))
          (rw (other, same, one) (rw (other, same) refl)),
      rw other' (rw self refl),
      λ name. rw (elsewhere, h.inode) ((rw (other', self) (rw same refl))),
    )
