-- ===== src/Tree/Made.antt =====
-- fs.go, `createInode` and `Mkdir`: what they make of the tree.
use pdwfs.Base.{
  ℕ, ◌≡◌, ◌≢◌, refl, sym, ap, ◌∙◌, subst, Bool, true, false, ◌&&◌, Option, none, some, [], Bytes,
  if◌then◌else◌, bytes_eq, bytes_eq_iff, Bool-cases, inl, inr,
}
use pdwfs.Store.Redis.{Redis}
use pdwfs.Store.DataStore.{Instances}
use pdwfs.Tree.Paths.{abs, dir}
use pdwfs.Tree.MetaRedis.{Metadata}
use pdwfs.Tree.{
  Inode, RedisFs, World, Found, at_root, no_parent, below, FsError, file_not_managed, exist,
  parent_dir_not_exist, stored_inode, stored_dir, create_inode, init_meta, set_child, file_info,
  validate_path, made, mkdir,
}
use pdwfs.Tree.View.{Contents, found_in, tree, lists, contents, Agrees, Saw, set_inode-Agrees}
use pdwfs.Tree.Lookup.{file_info-Saw}
use pdwfs.Tree.Parents.{below-entries}
use pdwfs.Tree.Placed.{
  not_equal, stored_inode-set_child, stored_dir-set_child, stored_inode-init_meta,
  stored_inode-init_meta_self, stored_dir-init_meta, stored_dir-init_meta_self,
}
use pdwfs.Tree.Listed.{lists-set_child, lists-init_meta}

-- A tree with one more file or directory, which its parent lists.
abbrev pub with_entry : Bytes → Bytes → Bool → Contents → Contents
with_entry path parent d (t, l) = (
  λ q. if bytes_eq path q then some d else t q,
  λ q child.
      if bytes_eq parent q && bytes_eq path child
      then true
      else if d && bytes_eq path q && bytes_eq [] child
      then true
      else l q child,
)

-- What `Mkdir` is to answer and to leave.
abbrev pub made_in : Bytes → Contents → Found → Option FsError × Contents
made_in path t at_root = (none, t)
made_in path t no_parent = (some parent_dir_not_exist, t)
made_in path t (below true) = (some exist, t)
made_in path t (below false) = (none, with_entry path (dir path) true t)

module _ ⦃rs : Redis⦄ ⦃md : Metadata⦄ (fs : RedisFs) where
  -- Nothing is listed below a path without an inode.
  abbrev pub IsWhole : Instances → Type 0
  IsWhole st = (p : Bytes) → stored_inode fs p st ≡ false → stored_dir fs p st ≡ false

  -- An operation follows what is to happen to the tree.
  pub record Follows {A : Type 0} (r : A × World) (s : A × Contents) : Type 0 where
    pub answer : r.0 ≡ s.0
    pub entries : (q : Bytes) → tree fs r.1.st q ≡ s.1.0 q
    pub listings : (q child : Bytes) → lists fs r.1.st q child ≡ s.1.1 q child
    pub agrees : Agrees fs r.1
    pub whole : IsWhole r.1.st

  module _ (path parent : Bytes) (d : Bool) (mode : ℕ) (w : World) (a : Agrees fs w)
      (whole : IsWhole w.st) (fresh : stored_inode fs path w.st ≡ false)
      (up : stored_dir fs parent w.st ≡ true) where
    abbrev begun : Instances
    begun = init_meta fs path d mode w.st

    abbrev created : Instances
    created = set_child fs parent path begun

    path-ne-parent : path ≢ parent
    path-ne-parent e =
        let up' = subst (λ p. stored_dir fs p w.st ≡ true) (sym e) up in
        let gone = whole path fresh in absurd (differ gone up')
      where
        differ : {b : Bool} → b ≡ false → b ≡ true → ⊥
        differ e f = cc

    parent_ready : stored_dir fs parent begun ≡ true
    parent_ready = stored_dir-init_meta fs path parent d mode w.st path-ne-parent ∙ up

    stored_inode-created :
        (q : Bytes) → path ≢ q → stored_inode fs q created ≡ stored_inode fs q w.st
    stored_inode-created q ne =
        stored_inode-set_child fs parent path q begun
        ∙ stored_inode-init_meta fs path q d mode w.st ne

    stored_inode-created_self : stored_inode fs path created ≡ true
    stored_inode-created_self =
        stored_inode-set_child fs parent path path begun
        ∙ stored_inode-init_meta_self fs path d mode w.st

    stored_dir-created : (q : Bytes) → path ≢ q → stored_dir fs q created ≡ stored_dir fs q w.st
    stored_dir-created q ne =
        stored_dir-set_child fs parent path q begun parent_ready
        ∙ stored_dir-init_meta fs path q d mode w.st ne

    stored_dir-created_self : stored_dir fs path created ≡ d
    stored_dir-created_self =
        stored_dir-set_child fs parent path path begun parent_ready
        ∙ stored_dir-init_meta_self fs path d mode w.st (whole path fresh)

    tree-created :
        (q : Bytes) → tree fs created q ≡ (with_entry path parent d (contents fs w.st)).0 q
    tree-created q = elim (Bool-cases (bytes_eq path q)) [
      | inl same ↦
          subst (λ p. tree fs created p ≡ (if bytes_eq path p then some d else tree fs w.st p))
            ((bytes_eq_iff path q).0 same)
            (rw
              (stored_inode-created_self, stored_dir-created_self, (bytes_eq_iff path path).1 refl)
              refl)
      | inr other ↦
          let ne = not_equal path q other in
          rw (stored_inode-created q ne, stored_dir-created q ne, other) refl
    ]

    lists-created :
        (q child : Bytes)
        → lists fs created q child ≡ (with_entry path parent d (contents fs w.st)).1 q child
    lists-created q child =
        lists-set_child fs parent path q child begun
        ∙ ap (λ b. if bytes_eq parent q && bytes_eq path child then true else b)
            (lists-init_meta fs path q child d mode w.st)

    created-IsWhole : IsWhole created
    created-IsWhole q gone = elim (Bool-cases (bytes_eq path q)) [
      | inl same ↦
          let here =
            subst (λ p. stored_inode fs p created ≡ true) ((bytes_eq_iff path q).0 same)
              stored_inode-created_self in
          absurd (cc)
      | inr other ↦
          let ne = not_equal path q other in
          stored_dir-created q ne ∙ whole q (sym (stored_inode-created q ne) ∙ gone)
    ]

    known_before : (p : Bytes) (i : Inode) → w.inodes p ≡ some i → path ≢ p
    known_before p i e f =
        let there = subst (λ q. stored_inode fs q w.st ≡ true) (sym f) (a.known p i e) in
        absurd (cc)

    created-Agrees : Agrees fs (create_inode fs path d mode parent w)
    unfolding create_inode
    created-Agrees =
        set_inode-Agrees fs path (record { is_dir = none }) (record w { st = created })
          (record {
            known = λ p i e. stored_inode-created p (known_before p i e) ∙ a.known p i e;
            right = λ p i b e f. stored_dir-created p (known_before p i e) ∙ a.right p i b e f;
          })
          stored_inode-created_self (λ b e. cc)

    pub create_inode-Follows :
        {A : Type 0} (x : A)
        → Follows
            (x, create_inode fs path d mode parent w)
            (x, with_entry path parent d (contents fs w.st))
    unfolding create_inode
    create_inode-Follows x = record {
      answer = refl;
      entries = tree-created;
      listings = lists-created;
      agrees = created-Agrees;
      whole = created-IsWhole;
    }

  -- A question leaves the tree alone.
  pub Saw-Follows :
      {A B : Type 0} (w : World) (a : A) (r : A × World) (x : B)
      → IsWhole w.st
      → Saw fs w a r
      → Follows (x, r.1) (x, contents fs w.st)
  Saw-Follows w a r x whole s = record {
    answer = refl;
    entries = λ q. ap (λ st. tree fs st q) s.same;
    listings = λ q child. ap (λ st. lists fs st q child) s.same;
    agrees = s.agrees;
    whole = subst IsWhole (sym s.same) whole;
  }

  -- `createInode` after a lookup that finds nothing at the path.
  pub create_inode-later :
      {A : Type 0} (path : Bytes) (d : Bool) (mode : ℕ) (w v : World) (x : A)
      → v.st ≡ w.st
      → Agrees fs v
      → IsWhole w.st
      → found_in fs.root (tree fs w.st) path ≡ below false
      → Follows
          (x, create_inode fs path d mode (dir path) v)
          (x, with_entry path (dir path) d (contents fs w.st))
  create_inode-later path d mode w v x e a whole found =
      let places = below-entries fs path w.st false found in
      subst
        (λ st.
          Follows (x, create_inode fs path d mode (dir path) v)
            (x, with_entry path (dir path) d (contents fs st)))
        e
        (create_inode-Follows path (dir path) d mode v a (subst IsWhole (sym e) whole)
          (ap (stored_inode fs path) e ∙ places.0) (ap (stored_dir fs (dir path)) e ∙ places.1) x)

  made-Follows :
      (path : Bytes) (perm : ℕ) (w : World) (found : Found) (r : Found × World)
      → IsWhole w.st
      → Saw fs w found r
      → found_in fs.root (tree fs w.st) path ≡ found
      → Follows (made fs path perm r) (made_in path (contents fs w.st) found)
  made-Follows path perm w at_root (x, v) whole s e =
      rw s.answer (Saw-Follows w at_root (x, v) none whole s)
  made-Follows path perm w no_parent (x, v) whole s e =
      rw s.answer (Saw-Follows w no_parent (x, v) (some parent_dir_not_exist) whole s)
  made-Follows path perm w (below true) (x, v) whole s e =
      rw s.answer (Saw-Follows w (below true) (x, v) (some exist) whole s)
  made-Follows path perm w (below false) (x, v) whole s e =
      rw s.answer (create_inode-later path true perm w v none s.same s.agrees whole e)

  -- `Mkdir` makes of the tree in Redis what it should: a directory at an absolute path below the mount, where
  -- the parent is a directory and nothing is there; else it answers why not, or nothing for the root, and
  -- leaves the tree. The set of the parent's children then has the new path, that of the new directory has
  -- the empty name, and all others are as before. Given, and kept: the map of inodes agrees with
  -- Redis, and no path without a mode has a set of children.
  pub mkdir-Follows :
      (name : Bytes) (perm : ℕ) (w : World)
      → Agrees fs w
      → IsWhole w.st
      → Follows (mkdir fs name perm w) (
          if validate_path fs name
          then made_in
              (abs fs.wd name)
              (contents fs w.st)
              (found_in fs.root (tree fs w.st) (abs fs.wd name))
          else (some file_not_managed, contents fs w.st))
  unfolding mkdir
  mkdir-Follows name perm w a whole = elim (Bool-cases (validate_path fs name)) [
    | inr out ↦ rw out (record {
      answer = refl;
      entries = λ q. refl;
      listings = λ q child. refl;
      agrees = a;
      whole = whole;
    })
    | inl valid ↦
        let path = abs fs.wd name in
        rw valid (
          made-Follows path perm w (found_in fs.root (tree fs w.st) path) (file_info fs path w)
            whole (file_info-Saw fs path w a) refl)
  ]
