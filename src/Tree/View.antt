-- ===== src/Tree/View.antt =====
-- inodes.go and fs.go: the tree that the metadata in Redis describe, and lookups in it.
use pdwfs.Base.{
  ◌≡◌, sym, ap, ◌∙◌, subst, Bool, true, false, Option, none, some, Bytes, if◌then◌else◌, bytes_eq,
  bytes_eq_iff, Bool-cases, inl, inr,
}
use pdwfs.Store.Redis.{Redis}
use pdwfs.Store.DataStore.{Instances}
use pdwfs.Tree.Paths.{dir}
use pdwfs.Tree.MetaRedis.{Metadata, has_name}
use pdwfs.Tree.{
  Inode, RedisFs, World, Found, at_root, no_parent, below, children_key, client_at, stored_inode,
  stored_dir, set_inode,
}

-- What there is at a path: nothing, a file (`false`) or a directory (`true`).
abbrev pub TreeOf : Type 0
TreeOf = Bytes → Option Bool

abbrev pub is_some : Option Bool → Bool
is_some none = false
is_some (some b) = true

-- Which paths the set of a path's children has. The set of a directory also has the empty name.
abbrev pub ListsOf : Type 0
ListsOf = Bytes → Bytes → Bool

abbrev pub Contents : Type 0
Contents = TreeOf × ListsOf

-- What a lookup in a tree is to find.
abbrev pub found_in : Bytes → TreeOf → Bytes → Found
found_in root t path = if bytes_eq path root then at_root else elim (t (dir path)) [
  | none ↦ no_parent
  | some d ↦ if d then below (is_some (t path)) else no_parent
]

module _ ⦃rs : Redis⦄ ⦃md : Metadata⦄ (fs : RedisFs) where
  -- The tree that Redis holds.
  abbrev pub tree : Instances → TreeOf
  tree st path = if stored_inode fs path st then some (stored_dir fs path st) else none

  abbrev pub lists : Instances → ListsOf
  lists st path child = has_name child (md.names (children_key path) (st (client_at fs path)))

  abbrev pub contents : Instances → Contents
  contents st = (tree st, lists st)

  -- What the process remembers is what Redis holds.
  pub record Agrees (w : World) : Type 0 where
    pub known : (p : Bytes) (i : Inode) → w.inodes p ≡ some i → stored_inode fs p w.st ≡ true
    pub right :
        (p : Bytes) (i : Inode) (b : Bool)
        → w.inodes p ≡ some i
        → i.is_dir ≡ some b
        → stored_dir fs p w.st ≡ b

  -- A question with its answer, after which the data are the same.
  pub record Saw {A : Type 0} (w : World) (a : A) (r : A × World) : Type 0 where
    pub answer : r.0 ≡ a
    pub same : r.1.st ≡ w.st
    pub agrees : Agrees r.1

  pub set_inode-Agrees :
      (path : Bytes) (i : Inode) (w : World)
      → Agrees w
      → stored_inode fs path w.st ≡ true
      → ((b : Bool) → i.is_dir ≡ some b → stored_dir fs path w.st ≡ b)
      → Agrees (set_inode path (some i) w)
  set_inode-Agrees path i w a there d = record {
    known = λ p j e. elim (Bool-cases (bytes_eq path p)) [
      | inl same ↦ subst (λ q. stored_inode fs q w.st ≡ true) ((bytes_eq_iff path p).0 same) there
      | inr other ↦ a.known p j (ap (λ c. if c then some i else w.inodes p) (sym other) ∙ e)
    ];
    right = λ p j b e f. elim (Bool-cases (bytes_eq path p)) [
      | inl same ↦
          let at : some i ≡ some j = ap (λ c. if c then some i else w.inodes p) (sym same) ∙ e in
          let k : i.is_dir ≡ some b = cc in
          subst (λ q. stored_dir fs q w.st ≡ b) ((bytes_eq_iff path p).0 same) (d b k)
      | inr other ↦ a.right p j b (ap (λ c. if c then some i else w.inodes p) (sym other) ∙ e) f
    ];
  }
