-- ===== src/Tree/Opened.antt =====
-- fs.go, `OpenFile`: what it answers, and what it makes of the tree.
use pdwfs.Base.{
  ℕ, ◌≡◌, refl, sym, ap, ◌∙◌, subst, Bool, true, false, ◌&&◌, Option, none, some, Bytes,
  if◌then◌else◌, bytes_eq_iff, Bool-cases, inl, inr,
}
use pdwfs.Store.Redis.{Redis}
use pdwfs.Store.DataStore.{Instances}
use pdwfs.Tree.Paths.{abs, dir}
use pdwfs.Tree.MetaRedis.{Metadata}
use pdwfs.Tree.{
  RedisFs, World, Found, at_root, no_parent, below, file_not_managed, not_exist,
  parent_dir_not_exist, Reply, ok, failed, stored_inode, stored_dir, create_inode, file_info,
  validate_path,
}
use pdwfs.Tree.Opening.{OpenFile, opened, get_file, open_found, open_file, bit, o_create, o_excl}
use pdwfs.Tree.View.{Contents, found_in, tree, contents, Agrees, Saw}
use pdwfs.Tree.Lookup.{file_info-Saw}
use pdwfs.Tree.Made.{with_entry, IsWhole, Follows, Saw-Follows, create_inode-later}
use pdwfs.Tree.Parents.{below-entries, at_root-path}
use pdwfs.Tree.Truncated.{IsRooted, abs-IsRooted}
use pdwfs.Tree.Flags.{asks, file_in, create-asks, excl-asks, opened-file_in}
use pdwfs.Tree.OldInodes.{old_in, get_file-Follows, open_old-Follows}

module _ ⦃rs : Redis⦄ ⦃md : Metadata⦄ (fs : RedisFs) where
  abbrev is_directory_in : Option Bool → Bool
  is_directory_in none = false
  is_directory_in (some d) = d

  -- What `OpenFile` is to answer, with or without O_CREATE and O_EXCL and with the file to be opened, and
  -- what it makes of the tree.
  abbrev pub opened_in :
      Bytes → Bool → Bool → OpenFile → Contents → Found → Reply OpenFile × Contents
  opened_in path create excl file t at_root = old_in (create && excl) true file t
  opened_in path create excl file t no_parent = (failed parent_dir_not_exist, t)
  opened_in path create excl file t (below true) =
      old_in (create && excl) (is_directory_in (t.0 path)) file t
  opened_in path create excl file t (below false) =
      if create then (ok file, with_entry path (dir path) false t) else (failed not_exist, t)

  pub tree-entry :
      (path : Bytes) (d : Bool) (st : Instances)
      → tree fs st path ≡ some d
      → (stored_inode fs path st ≡ true) × (stored_dir fs path st ≡ d)
  tree-entry path d st e = by_test (stored_inode fs path st) (stored_dir fs path st) e
    where
      by_test : (b c : Bool) → (if b then some c else none) ≡ some d → (b ≡ true) × (c ≡ d)
      by_test true c e = (refl, cc)
      by_test false c e = cc

  Follows-trans :
      {A B : Type 0} (x : A) (v : World) (t : Contents) (r : B × World) (y : B)
      → Follows fs (x, v) (x, t)
      → Follows fs r (y, contents fs v.st)
      → Follows fs r (y, t)
  Follows-trans x v t r y f g = record {
    answer = g.answer;
    entries = λ q. g.entries q ∙ f.entries q;
    listings = λ q child. g.listings q child ∙ f.listings q child;
    agrees = g.agrees;
    whole = g.whole;
  }

  open_new-Follows :
      (path : Bytes) (flag perm : ℕ) (w v : World)
      → IsRooted path
      → v.st ≡ w.st
      → Agrees fs v
      → IsWhole fs w.st
      → found_in fs.root (tree fs w.st) path ≡ below false
      → Follows fs (open_found fs path flag perm (below false, v)) (
          opened_in path
            (bit o_create flag)
            (bit o_excl flag)
            (opened fs path flag (open_found fs path flag perm (below false, v)).1.st)
            (contents fs w.st)
            (below false))
  open_new-Follows path flag perm w v r e a whole found = elim (Bool-cases (bit o_create flag)) [
    | inr plain ↦ rw plain (
        Saw-Follows fs w true (true, v) (failed not_exist) whole
          (record { answer = refl; same = e; agrees = a }))
    | inl create ↦
        let c = create_inode fs path false perm (dir path) v in
        let made = create_inode-later fs path false perm w v true e a whole found in
        let entry : tree fs c.st path ≡ some false =
          made.entries path
          ∙ ap (λ b. if b then some false else tree fs w.st path)
              ((bytes_eq_iff path path).1 refl) in
        let kind = tree-entry path false c.st entry in
        rw create (
          Follows-trans true c (with_entry path (dir path) false (contents fs w.st))
            (get_file fs path flag c) (ok (opened fs path flag (get_file fs path flag c).1.st)) made
            (get_file-Follows fs path flag c c r refl made.agrees made.whole kind.0 kind.1))
  ]

  is_directory_in-tree :
      (path : Bytes) (st : Instances)
      → stored_inode fs path st ≡ true
      → stored_dir fs path st ≡ is_directory_in (tree fs st path)
  is_directory_in-tree path st there = rw there refl

  open_found-Follows :
      (path : Bytes) (flag perm : ℕ) (w : World) (found : Found) (r : Found × World)
      → IsRooted path
      → IsWhole fs w.st
      → tree fs w.st fs.root ≡ some true
      → Saw fs w found r
      → found_in fs.root (tree fs w.st) path ≡ found
      → Follows fs (open_found fs path flag perm r) (
          opened_in path
            (bit o_create flag)
            (bit o_excl flag)
            (opened fs path flag (open_found fs path flag perm r).1.st)
            (contents fs w.st)
            found)
  open_found-Follows path flag perm w at_root (x, v) place whole root s e =
      let kind = tree-entry fs.root true w.st root in
      let here = at_root-path fs path w.st e in
      rw s.answer (
        open_old-Follows fs path flag w v true place s.same s.agrees whole
          (subst (λ p. stored_inode fs p w.st ≡ true) (sym here) kind.0)
          (subst (λ p. stored_dir fs p w.st ≡ true) (sym here) kind.1))
  open_found-Follows path flag perm w no_parent (x, v) place whole root s e =
      rw s.answer (Saw-Follows fs w no_parent (x, v) (failed parent_dir_not_exist) whole s)
  open_found-Follows path flag perm w (below true) (x, v) place whole root s e =
      let there = (below-entries fs path w.st true e).0 in
      rw s.answer (
        open_old-Follows fs path flag w v (is_directory_in (tree fs w.st path)) place s.same
          s.agrees whole there (is_directory_in-tree path w.st there))
  open_found-Follows path flag perm w (below false) (x, v) place whole root s e =
      rw s.answer (open_new-Follows path flag perm w v place s.same s.agrees whole e)

  -- What `OpenFile` of a name is to answer and to make of the tree, with the data `st` that it leaves.
  abbrev pub opened_by : Bytes → ℕ → Instances → Contents → Reply OpenFile × Contents
  opened_by path flags st t =
      opened_in path (asks 64 flags) (asks 128 flags) (file_in fs path flags st) t
        (found_in fs.root t.0 path)

  valid-Follows :
      (path : Bytes) (flag perm : ℕ) (w : World)
      → IsRooted path
      → Agrees fs w
      → IsWhole fs w.st
      → tree fs w.st fs.root ≡ some true
      → Follows fs (open_found fs path flag perm (file_info fs path w)) (
          opened_by path flag
            (open_found fs path flag perm (file_info fs path w)).1.st
            (contents fs w.st))
  valid-Follows path flag perm w place a whole root =
      let r = open_found fs path flag perm (file_info fs path w) in
      let found = found_in fs.root (tree fs w.st) path in
      let follows =
        open_found-Follows path flag perm w found (file_info fs path w) place whole root
          (file_info-Saw fs path w a) refl in
      subst
        (λ c.
          Follows fs r (
            opened_in path c (asks 128 flag) (file_in fs path flag r.1.st) (contents fs w.st)
              found))
        (create-asks flag)
        (subst
          (λ e. Follows fs r (
            opened_in path (bit o_create flag) e (file_in fs path flag r.1.st) (contents fs w.st)
              found))
          (excl-asks flag)
          (subst
            (λ f.
              Follows fs r
                (opened_in path (bit o_create flag) (bit o_excl flag) f (contents fs w.st) found))
            (opened-file_in fs path flag r.1.st) follows))

  -- `OpenFile` answers by the tree in Redis and the flags: there is to be a directory above the path, a file or
  -- O_CREATE (64), not both O_CREATE and O_EXCL (128), and no directory. A new file is the only change of the
  -- tree: it has a mode, no children, and the set of its parent's children has it. The file that is opened
  -- reads, writes or does both by the lowest two bits of the flags, at the size of the data
  -- that are left with O_APPEND (1024), and at 0 otherwise. Given, and kept: the map of inodes agrees with
  -- Redis, and no path without a mode has a set of children. Given: the root is a directory.
  pub open_file-Follows :
      (name : Bytes) (flag perm : ℕ) (w : World)
      → Agrees fs w
      → IsWhole fs w.st
      → tree fs w.st fs.root ≡ some true
      → Follows fs (open_file fs name flag perm w) (
          if validate_path fs name
          then opened_by
              (abs fs.wd name)
              flag
              (open_file fs name flag perm w).1.st
              (contents fs w.st)
          else (failed file_not_managed, contents fs w.st))
  unfolding open_file
  open_file-Follows name flag perm w a whole root = elim (Bool-cases (validate_path fs name)) [
    | inr out ↦ rw out (record {
      answer = refl;
      entries = λ q. refl;
      listings = λ q c. refl;
      agrees = a;
      whole = whole;
    })
    | inl valid ↦
        rw valid (valid-Follows (abs fs.wd name) flag perm w (abs-IsRooted fs.wd name) a whole root)
  ]
