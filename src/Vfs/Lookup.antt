-- ===== src/Vfs/Lookup.antt =====
-- What `vfs_lookup` and `vfs_create` of kernel/src/vfs/vfs.c do to a directory's names.
use creeper_os_v.Prelude.{
  ℕ, ◌+◌, ◌-◌, ◌<◌, ◌≡◌, ◌≢◌, refl, ap, ◌∙◌, inl, inr, Bool, true, false, Option, none, some, List,
  [], ◌∷◌, if◌then◌else◌, ◌==◌, arith, Bool-cases,
}
use creeper_os_v.Outcome.{returns}
use creeper_os_v.Vfs.Store.{Name, Inode, Dentry, Fs, ok, err, e_nomem, e_exist, update}
use creeper_os_v.Vfs.Text.{same_text}
use creeper_os_v.Vfs.Nodes.{find_child, vfs_lookup, vfs_create}

-- Every child is a dentry of the store.
abbrev pub AllPresent : Fs → List ℕ → Type 0
AllPresent s [] = Unit {0}
AllPresent s (c ∷ cs) = ((d : Dentry) × (s.dentries c ≡ some d)) × AllPresent s cs

name_of : Option Dentry → Name
name_of none = []
name_of (some d) = d.name

-- The first child with the name, as a function of the store.
unfoldable pub first_named : Fs → Name → List ℕ → Option ℕ
unfolding name_of
first_named s name [] = none
first_named s name (c ∷ cs) =
    if same_text name (name_of (s.dentries c)) then some c else first_named s name cs

pub find_child-first_named :
    (s : Fs) (name : Name) (cs : List ℕ)
    → AllPresent s cs
    → find_child name cs s ≡ returns (first_named s name cs, s)
unfolding find_child first_named
find_child-first_named s name [] h = refl
find_child-first_named s name (c ∷ cs) ((d, e), h) =
    rw e (elim (Bool-cases (same_text name d.name)) [
      | inl same ↦ rw same refl
      | inr other ↦ rw other (find_child-first_named s name cs h)
    ])

-- The inode `dir` is a directory whose dentry `at` is `p` and whose children are in the store.
pub record IsDir (s : Fs) (dir : ℕ) (i : Inode) (p : Dentry) : Type 0 where
  pub inode : s.inodes dir ≡ some i
  pub dentry : s.dentries i.i_dentry ≡ some p
  pub children : AllPresent s p.d_children

pub vfs_lookup-first_named :
    {s : Fs} {dir : ℕ} {i : Inode} {p : Dentry} (name : Name)
    → IsDir s dir i p
    → vfs_lookup dir name s ≡ returns (first_named s name p.d_children, s)
unfolding vfs_lookup
vfs_lookup-first_named {s} {p = p} name h =
    rw (h.inode, h.dentry) (find_child-first_named s name p.d_children h.children)

-- The store after `vfs_create` has made an inode for the dentry `d` and linked it.
abbrev pub created : Fs → (dentry mode : ℕ) → Inode → Dentry → Dentry → Fs
created s dentry mode i d p = record s {
  inodes = update s.inodes s.fresh (
      some (record {
        i_dentry = dentry;
        i_mode = mode;
        i_uid = s.uid;
        i_gid = s.gid;
        i_size = none;
        i_count = 0;
        i_op = i.i_op;
        i_fop = i.i_fop;
        i_private = none;
      }));
  dentries =
      update (update s.dentries dentry (some (record d { inode = some s.fresh; d_children = [] })))
        i.i_dentry (some (record p { d_children = dentry ∷ p.d_children }));
  fresh = s.fresh + 1;
  blocks = s.blocks - 1;
}

created-names :
    (s : Fs) (i : Inode) (p d : Dentry) (dentry mode : ℕ)
    → s.dentries dentry ≡ some d
    → s.dentries i.i_dentry ≡ some p
    → (c : ℕ) → name_of ((created s dentry mode i d p).dentries c) ≡ name_of (s.dentries c)
unfolding name_of
created-names s i p d dentry mode new at c = elim (Bool-cases (c == i.i_dentry)) [
  | inl same ↦ let e : c ≡ i.i_dentry = ground arith in rw same (rw e (rw at refl))
  | inr other ↦ elim (Bool-cases (c == dentry)) [
    | inl same ↦ let e : c ≡ dentry = ground arith in rw other (rw same (rw e (rw new refl)))
    | inr not_it ↦ rw other (rw not_it refl)
  ]
]

first_named-created :
    (s : Fs) (i : Inode) (p d : Dentry) (dentry mode : ℕ) (name : Name) (cs : List ℕ)
    → s.dentries dentry ≡ some d
    → s.dentries i.i_dentry ≡ some p
    → first_named (created s dentry mode i d p) name cs ≡ first_named s name cs
unfolding first_named
first_named-created s i p d dentry mode name [] new at = refl
first_named-created s i p d dentry mode name (c ∷ cs) new at =
    rw
      (
        created-names s i p d dentry mode new at c,
        first_named-created s i p d dentry mode name cs new at,
      )
      refl

AllPresent-created :
    (s : Fs) (i : Inode) (p d : Dentry) (dentry mode : ℕ) (cs : List ℕ)
    → AllPresent s cs
    → AllPresent (created s dentry mode i d p) cs
AllPresent-created s i p d dentry mode [] h = tt
AllPresent-created s i p d dentry mode (c ∷ cs) ((e, at), h) = (
  elim (Bool-cases (c == i.i_dentry)) [
    | inl same ↦ (record p { d_children = dentry ∷ p.d_children }, rw same refl)
    | inr other ↦ elim (Bool-cases (c == dentry)) [
      | inl same ↦ (record d { inode = some s.fresh; d_children = [] }, rw other (rw same refl))
      | inr not_it ↦ (e, rw other (rw not_it at))
    ]
  ],
  AllPresent-created s i p d dentry mode cs h,
)

first_named-new :
    (s : Fs) (i : Inode) (p d : Dentry) (dentry mode : ℕ) (name : Name) (cs : List ℕ)
    → s.dentries dentry ≡ some d
    → s.dentries i.i_dentry ≡ some p
    → first_named (created s dentry mode i d p) name (dentry ∷ cs)
      ≡ (if same_text name d.name then some dentry else first_named s name cs)
unfolding first_named name_of
first_named-new s i p d dentry mode name cs new at =
    rw
      (
        created-names s i p d dentry mode new at dentry,
        new,
        first_named-created s i p d dentry mode name cs new at,
      )
      refl

module _ {s : Fs} {dir : ℕ} {i : Inode} {p d : Dentry} (dentry mode : ℕ) (excl : Bool)
    (h : IsDir s dir i p) (new : s.dentries dentry ≡ some d) (apart : dentry ≢ i.i_dentry) where
  -- Where a child has the name, `vfs_create` refuses and changes nothing.
  pub vfs_create_exists :
      (child : ℕ)
      → first_named s d.name p.d_children ≡ some child
      → vfs_create dir dentry mode excl s ≡ returns (err e_exist, s)
  unfolding vfs_create
  vfs_create_exists child e = rw (new, vfs_lookup-first_named d.name h, e) refl

  -- So it does where the heap is exhausted.
  pub vfs_create_nomem :
      first_named s d.name p.d_children ≡ none
      → s.blocks ≡ 0
      → vfs_create dir dentry mode excl s ≡ returns (err e_nomem, s)
  unfolding vfs_create
  vfs_create_nomem e full = rw (new, vfs_lookup-first_named d.name h, e) (rw full refl)

  pub vfs_create-created :
      first_named s d.name p.d_children ≡ none
      → 0 < s.blocks
      → vfs_create dir dentry mode excl s ≡ returns (ok, created s dentry mode i d p)
  unfolding vfs_create
  vfs_create-created e room =
      let some_left : (s.blocks == 0) ≡ false = ground arith in
      let other : (i.i_dentry == dentry) ≡ false = ground arith in
      rw (new, vfs_lookup-first_named d.name h, e)
        (rw some_left (rw (h.inode, new, other, h.dentry) refl))

  -- Lookups in the directory afterwards: the new name finds the new dentry, every other name what it
  -- found before.
  pub vfs_lookup-created :
      (name : Name)
      → s.fresh ≢ dir
      → vfs_lookup dir name (created s dentry mode i d p)
        ≡ returns (
          if same_text name d.name then some dentry else first_named s name p.d_children,
          created s dentry mode i d p,
        )
  vfs_lookup-created name old =
      let elsewhere : (dir == s.fresh) ≡ false = ground arith in
      let self : (i.i_dentry == i.i_dentry) ≡ true = ground arith in
      let other : (dentry == i.i_dentry) ≡ false = ground arith in
      let same : (dentry == dentry) ≡ true = ground arith in
      let after : IsDir (created s dentry mode i d p) dir i
          (record p { d_children = dentry ∷ p.d_children }) =
        record {
          inode = rw elsewhere h.inode;
          dentry = rw self refl;
          children = (
            (record d { inode = some s.fresh; d_children = [] }, rw other (rw same refl)),
            AllPresent-created s i p d dentry mode p.d_children h.children,
          );
        } in
      vfs_lookup-first_named name after
      ∙ ap (λ r. returns (r, created s dentry mode i d p))
          (first_named-new s i p d dentry mode name p.d_children new h.dentry)
