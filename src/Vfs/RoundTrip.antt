-- ===== src/Vfs/RoundTrip.antt =====
-- Creation followed by lookup or removal in one directory of kernel/src/vfs/vfs.c.
use creeper_os_v.Prelude.{
  ℕ, ◌+◌, ◌-◌, ◌<◌, ◌≡◌, ◌≢◌, refl, ◌∙◌, Bool, true, false, none, some, List, [], ◌∷◌, ◌==◌, arith,
  leb, if◌then◌else◌,
}
use creeper_os_v.Outcome.{returns}
use creeper_os_v.Vfs.Store.{Name, Inode, Dentry, Fs, ok, ◌>>=◌, update}
use creeper_os_v.Vfs.Text.{same_text}
use creeper_os_v.Vfs.Nodes.{
  s_isdir, vfs_lookup, vfs_create, vfs_unlink, unlink_target, unlink_child, without, release_node,
  free_node,
}
use creeper_os_v.Vfs.Lookup.{IsDir, first_named, created, vfs_create-created, vfs_lookup-created}

same_text_refl : (cs : List ℕ) → same_text cs cs ≡ true
unfolding same_text
same_text_refl [] = refl
same_text_refl (c ∷ cs) = ground (arith, same_text_refl cs)

-- Where the directory has no child of the dentry's name, the dentry is not the directory's own and
-- the heap has a block left, `vfs_create` succeeds, and a lookup afterwards finds the new dentry by
-- its name, and by any other name what it found before.
pub vfs_lookup-vfs_create :
    {s : Fs} {dir dentry : ℕ} {i : Inode} {p d : Dentry} (mode : ℕ) (excl : Bool) (name : Name)
    → IsDir s dir i p
    → s.dentries dentry ≡ some d
    → dentry ≢ i.i_dentry
    → s.fresh ≢ dir
    → first_named s d.name p.d_children ≡ none
    → 0 < s.blocks
    → (vfs_create dir dentry mode excl >>= λ status. vfs_lookup dir name) s
      ≡ returns (
        if same_text name d.name then some dentry else first_named s name p.d_children,
        created s dentry mode i d p,
      )
vfs_lookup-vfs_create {dentry = dentry} mode excl name h new apart old unused room =
    rw (vfs_create-created dentry mode excl h new apart unused room)
      (vfs_lookup-created dentry mode excl h new apart name old)

-- A file whose inode is not referred to is taken out of its parent and freed.
unlink_target-file :
    (s : Fs) (dir target inode : ℕ) (i ti : Inode) (p t : Dentry)
    → s.dentries target ≡ some t
    → t.inode ≡ some inode
    → s.inodes inode ≡ some ti
    → s.inodes dir ≡ some i
    → s.dentries i.i_dentry ≡ some p
    → s_isdir ti.i_mode ≡ false
    → leb ti.i_count 1 ≡ true
    → unlink_target dir target s
      ≡ returns (
        ok,
        record s {
          inodes = update s.inodes inode none;
          dentries =
              update
                (update s.dentries i.i_dentry
                  (some (record p { d_children = without target p.d_children })))
                target
                none;
          blocks = s.blocks + 1 + 1 + 1;
        },
      )
unfolding unlink_target unlink_child release_node free_node
unlink_target-file s dir target inode i ti p t at holds inode_at dir_at parent_at file unused =
    rw (at, holds, inode_at, dir_at) (rw (file, parent_at) (rw unused refl))

-- The store after the file that was made of `dentry` was removed again.
abbrev gone : Fs → (dentry mode : ℕ) → Inode → Dentry → Dentry → Fs
gone s dentry mode i d p = record (created s dentry mode i d p) {
  inodes = update (created s dentry mode i d p).inodes s.fresh none;
  dentries = update (update (created s dentry mode i d p).dentries i.i_dentry (some p)) dentry none;
  blocks = s.blocks - 1 + 1 + 1 + 1;
}

-- Where the directory has no child of the dentry's name, the dentry is not the directory's own, the
-- heap has a block left and the mode is no directory's: the file that `vfs_create` makes can be
-- removed by `vfs_unlink` through a third dentry of that name. The directory's children are those
-- of before, the file's dentry and inode are freed, and no other dentry or inode has changed.
pub vfs_unlink-vfs_create :
    {s : Fs} {dir dentry other : ℕ} {i : Inode} {p d o : Dentry} (mode : ℕ) (excl : Bool)
    → IsDir s dir i p
    → s.dentries dentry ≡ some d
    → dentry ≢ i.i_dentry
    → s.fresh ≢ dir
    → first_named s d.name p.d_children ≡ none
    → 0 < s.blocks
    → s_isdir mode ≡ false
    → s.dentries other ≡ some o
    → o.name ≡ d.name
    → other ≢ dentry
    → other ≢ i.i_dentry
    → (t : Fs) × ((vfs_create dir dentry mode excl >>= λ status. vfs_unlink dir other) s
        ≡ returns (ok, t))
      × ((a : ℕ) → t.dentries a ≡ update s.dentries dentry none a)
      × ((a : ℕ) → t.inodes a ≡ update s.inodes s.fresh none a)
unfolding vfs_unlink without
vfs_unlink-vfs_create {s} {dir} {dentry} {other} {i} {p} {d} {o} mode excl h new apart old unused
      room file there named third fourth =
    let elsewhere : (dir == s.fresh) ≡ false = ground arith in
    let self : (i.i_dentry == i.i_dentry) ≡ true = ground arith in
    let not_at : (dentry == i.i_dentry) ≡ false = ground arith in
    let same : (dentry == dentry) ≡ true = ground arith in
    let same' : (s.fresh == s.fresh) ≡ true = ground arith in
    let not_d : (other == dentry) ≡ false = ground arith in
    let not_p : (other == i.i_dentry) ≡ false = ground arith in
    (
      gone s dentry mode i d p,
      rw (vfs_create-created dentry mode excl h new apart unused room) (
          rw (not_p, not_d, there)
            (rw
              (
                named,
                vfs_lookup-created dentry mode excl h new apart d.name old,
                same_text_refl d.name,
              )
              (unlink_target-file (created s dentry mode i d p) dir dentry s.fresh i
                  (record {
                    i_dentry = dentry;
                    i_mode = mode;
                    i_uid = s.uid;
                    i_gid = s.gid;
                    i_size = none;
                    i_count = 0;
                    i_op = i.i_op;
                    i_fop = i.i_fop;
                    i_private = none;
                  })
                  (record p { d_children = dentry ∷ p.d_children })
                  (record d { inode = some s.fresh; d_children = [] }) (rw not_at (rw same refl))
                  refl (rw same' refl) (rw elsewhere h.inode) (rw self refl) file refl
                ∙ rw same refl))),
      (λ a. ground (arith, h.dentry)),
      (λ a. ground arith),
    )
