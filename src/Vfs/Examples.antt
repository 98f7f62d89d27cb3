-- ===== src/Vfs/Examples.antt =====
-- The file system of kernel/src/vfs at a concrete store.
use creeper_os_v.Prelude.{
  ℕ, ◌≡◌, ◌≢◌, refl, ◌⊎◌, true, false, Option, none, some, List, [], ◌∷◌, arith, if◌then◌else◌,
  ◌==◌,
}
use creeper_os_v.Outcome.{returns, panics}
use creeper_os_v.Vfs.Store.{
  Name, Inode, Dentry, Fs, ok, err, e_notempty, e_nomem, ram_dir_iops, null_fops, update, ◌>>=◌,
}
use creeper_os_v.Vfs.Text.{slash, dot, same_text}
use creeper_os_v.Vfs.Nodes.{s_isdir, vfs_lookup, vfs_create, vfs_rmdir, vfs_unlink}
use creeper_os_v.Vfs.Ram.{ramfile_inode_create}
use creeper_os_v.Vfs.Paths.{walk_path, keep_or_free}
use creeper_os_v.Vfs.Lookup.{IsDir, first_named}
use creeper_os_v.Vfs.Walk.{components, walk_all, walk_path-components}
use creeper_os_v.Vfs.Removal.{Finds, removed, vfs_rmdir_lem}
use creeper_os_v.Vfs.Reverse.{
  kpath_reverse, Chain, at_root, below, reversed_onto, kpath_reverse-components,
}
use creeper_os_v.Vfs.Force.{force_path}
use creeper_os_v.Vfs.ForceSteps.{force_all}
use creeper_os_v.Vfs.ForceWalk.{force_path-components}
use creeper_os_v.Vfs.Exhausted.{create-dangling}
use creeper_os_v.Vfs.RoundTrip.{vfs_unlink-vfs_create}

abbrev name_a : Name
name_a = 97 ∷ []

abbrev name_b : Name
name_b = 98 ∷ []

abbrev dir_inode : ℕ → Inode
dir_inode at = record {
  i_dentry = at;
  i_mode = 0x41ED;
  i_uid = 0;
  i_gid = 0;
  i_size = none;
  i_count = 0;
  i_op = ram_dir_iops;
  i_fop = null_fops;
  i_private = none;
}

abbrev entry : Name → Option ℕ → Option ℕ → List ℕ → Dentry
entry name parent inode children = record {
  name = name;
  parent = parent;
  inode = inode;
  d_children = children;
}

-- The root 1 holds the directory 3, called "a", which holds `inside`. The dentries 5 and 6, called
-- "b", and 7, called "a", are not linked.
abbrev tree : (inside : List ℕ) (blocks : ℕ) → Fs
tree inside blocks = record {
  dentries = λ q.
      if q == 1
      then some (entry [] none (some 2) (3 ∷ []))
      else if q == 3
      then some (entry name_a (some 1) (some 4) inside)
      else if q == 7
      then some (entry name_a (some 1) none [])
      else if q == 5
      then some (entry name_b (some 1) none [])
      else if q == 6
      then some (entry name_b (some 1) none [])
      else none;
  inodes = λ q. if q == 2 then some (dir_inode 1) else if q == 4 then some (dir_inode 3) else none;
  fresh = 10;
  blocks = blocks;
  uid = 0;
  gid = 0;
  root_dentry = 1;
}

root-IsDir :
    (inside : List ℕ) (blocks : ℕ)
    → IsDir (tree inside blocks) 2 (dir_inode 1) (entry [] none (some 2) (3 ∷ []))
root-IsDir inside blocks = record {
  inode = refl;
  dentry = refl;
  children = ((entry name_a (some 1) (some 4) inside, refl), tt);
}

-- The path "a/..//./a".
abbrev path : List ℕ
path = 97 ∷ slash ∷ dot ∷ dot ∷ slash ∷ slash ∷ dot ∷ slash ∷ 97 ∷ []

walk_path_example : walk_path 10 1 path (tree [] 8) ≡ walk_all 1 (components path) (tree [] 8)
walk_path_example = walk_path-components 10 1 path (tree [] 8) (omega arith)

walk_path_runs : walk_path 10 1 path (tree [] 8) ≡ returns (some 3, tree [] 8)
unfolding walk_path vfs_lookup
walk_path_runs = refl

components_runs : components path ≡ name_a ∷ (dot ∷ dot ∷ []) ∷ (dot ∷ []) ∷ name_a ∷ []
unfolding components
components_runs = refl

no_b : (inside : List ℕ) (blocks : ℕ) → first_named (tree inside blocks) name_b (3 ∷ []) ≡ none
unfolding first_named same_text
no_b inside blocks = refl

vfs_unlink-vfs_create_example :
    (t : Fs) × ((vfs_create 2 5 0x81A4 true >>= λ status. vfs_unlink 2 6) (tree [] 8)
      ≡ returns (ok, t))
    × ((a : ℕ) → t.dentries a ≡ update (tree [] 8).dentries 5 none a)
    × ((a : ℕ) → t.inodes a ≡ update (tree [] 8).inodes 10 none a)
vfs_unlink-vfs_create_example =
    vfs_unlink-vfs_create {s = tree [] 8} {dir = 2} {dentry = 5} {other = 6} 0x81A4 true
      (root-IsDir [] 8) refl (omega arith) (omega arith) (no_b [] 8) (omega arith) file refl refl
      (omega arith) (omega arith)
  where
    file : s_isdir 0x81A4 ≡ false
    file = unfold s_isdir in refl

finds_a : (inside : List ℕ) (blocks : ℕ) → Finds (tree inside blocks) 2 7 3
unfolding first_named same_text s_isdir
finds_a inside blocks = record {
  i = dir_inode 1;
  p = entry [] none (some 2) (3 ∷ []);
  d = entry name_a (some 1) none [];
  t = entry name_a (some 1) (some 4) inside;
  inode = 4;
  ti = dir_inode 3;
  is_dir = root-IsDir inside blocks;
  named = refl;
  first = refl;
  at = refl;
  holds = refl;
  inode_at = refl;
  mode = refl;
}

vfs_rmdir_example :
    (((finds_a [] 8).t.d_children ≡ [])
      × (vfs_rmdir 2 7 (tree [] 8) ≡ returns (err e_notempty, tree [] 8)))
    ⊎ (((finds_a [] 8).t.d_children ≢ [])
        × (vfs_rmdir 2 7 (tree [] 8)
            ≡ returns (
              ok,
              removed (tree [] 8) (finds_a [] 8).i.i_dentry 3 (finds_a [] 8).inode (finds_a [] 8).p,
            )))
vfs_rmdir_example = vfs_rmdir_lem (finds_a [] 8)

-- With a child 5 inside, the directory goes.
rmdir_runs :
    vfs_rmdir 2 7 (tree (5 ∷ []) 8)
    ≡ returns (ok, removed (tree (5 ∷ []) 8) 1 3 4 (entry [] none (some 2) (3 ∷ [])))
unfolding vfs_rmdir vfs_lookup
rmdir_runs = refl

create-dangling_example :
    (t : Fs) × ((ramfile_inode_create 2 5 0x81A4 false >>= keep_or_free 5) (tree [] 1)
      ≡ returns (err e_nomem, t))
    × (t.dentries 1 ≡ some (entry [] none (some 2) (5 ∷ 3 ∷ [])))
    × ((name : Name) → vfs_lookup 2 name t ≡ panics)
create-dangling_example =
    create-dangling {s = tree [] 1} {dir = 2} {dentry = 5} 0x81A4 (root-IsDir [] 1) refl refl
      (omega arith) (omega arith) (no_b [] 1) refl

a-Chain : Chain (tree [] 8) 3 (name_a ∷ [])
a-Chain =
    below {e = entry name_a (some 1) (some 4) []} refl refl
      (at_root {e = entry [] none (some 2) (3 ∷ [])} refl refl)

kpath_reverse_example :
    (cs : List ℕ) × (t : Fs) × (kpath_reverse 2 3 (tree [] 8) ≡ returns (some cs, t))
    × (components cs ≡ reversed_onto (name_a ∷ []) [])
kpath_reverse_example =
    kpath_reverse-components 2 (tree [] 8) a-Chain (omega arith)
      ((λ e. absurd (cc)), (refl, tt), tt) (omega arith)

-- The path "a/b", of which only "a" is there.
abbrev new_path : List ℕ
new_path = 97 ∷ slash ∷ 98 ∷ []

force_path_example :
    force_path 4 1 new_path 0x81A4 false (tree [] 8)
    ≡ force_all 1 (components new_path) 0x81A4 false (tree [] 8)
force_path_example = force_path-components 4 1 new_path 0x81A4 false (tree [] 8) (omega arith)
