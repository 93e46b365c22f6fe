-- ===== src/Tree/Removal.antt =====
-- inodes.go and fs.go, `ReadDir`, `RmDir` and `Remove`. `none` is a panic, or a tree that is deeper than
-- the bound `depth`.
use pdwfs.Base.{
  ℕ, zero, suc, Bool, true, false, ◌&&◌, ◌||◌, Option, none, some, List, [], ◌∷◌, Bytes, ltb, ◌==◌,
  if◌then◌else◌,
}
use pdwfs.Store.Redis.{Redis}
use pdwfs.Store.DataStore.{Instances}
use pdwfs.Store.Resize.{remove}
use pdwfs.Tree.Paths.{abs, dir}
use pdwfs.Tree.MetaRedis.{Metadata}
use pdwfs.Tree.{
  RedisFs, World, Found, at_root, no_parent, below, FsError, file_not_managed, not_directory,
  dir_not_empty, parent_dir_not_exist, not_exist, Reply, ok, failed, client_at, children_key,
  stored_dir, del_meta, remove_child, is_dir, set_inode, file_info, validate_path,
}

abbrev is_less : Bytes → Bytes → Bool
is_less [] [] = false
is_less [] (b ∷ bs) = true
is_less (a ∷ xs) [] = false
is_less (a ∷ xs) (b ∷ ys) = ltb a b || (a == b && is_less xs ys)

abbrev insert_name : Bytes → List Bytes → List Bytes
insert_name n [] = n ∷ []
insert_name n (m ∷ ms) = if is_less m n then m ∷ insert_name n ms else n ∷ m ∷ ms

-- `sort.Sort` by name. The members of a set differ.
abbrev sort_names : List Bytes → List Bytes
sort_names [] = []
sort_names (n ∷ ns) = insert_name n (sort_names ns)

-- The empty name only keeps the set of an empty directory.
abbrev pub proper_names : List Bytes → List Bytes
proper_names [] = []
proper_names ([] ∷ ns) = proper_names ns
proper_names ((b ∷ n) ∷ ns) = (b ∷ n) ∷ proper_names ns

-- The children of a directory, whose list is made with room for one name less.
abbrev pub listed_children : List Bytes → Option (List Bytes)
listed_children [] = none
listed_children (n ∷ ns) = some (proper_names (n ∷ ns))

module _ ⦃rs : Redis⦄ ⦃md : Metadata⦄ (fs : RedisFs) where
  unfoldable pub get_children : Bytes → Instances → Option (List Bytes)
  get_children path st = listed_children (md.names (children_key path) (st (client_at fs path)))

  -- The loop over the children.
  abbrev each : (Bytes → Instances → Option Instances) → List Bytes → Instances → Option Instances
  each f [] st = some st
  each f (c ∷ cs) st = elim (f c st) [ none ↦ none | some st' ↦ each f cs st' ]

  -- An inode with its data, its children and its metadata. A child is asked whether it is a directory.
  unfoldable pub remove_inode : ℕ → Bytes → Bool → Instances → Option Instances
  unfolding get_children del_meta remove
  remove_inode zero path d st = none
  remove_inode (suc depth) path false st = some (del_meta fs path (remove fs.data_store path st))
  remove_inode (suc depth) path true st = elim (get_children path st) [
    | none ↦ none
    | some cs ↦ elim (each (λ c st'. remove_inode depth c (stored_dir fs c st') st') cs st) [
      | none ↦ none
      | some st' ↦ some (del_meta fs path st')
    ]
  ]

  -- An inode of the map, whose parent no longer lists it.
  abbrev pub remove_there : ℕ → Bytes → World → Option (Option FsError × World)
  remove_there depth path w =
      let r = is_dir fs path (record w { st = remove_child fs (dir path) path w.st }) in
      elim (remove_inode depth path r.0 r.1.st) [
        | none ↦ none
        | some st' ↦ some (none, set_inode path none (record r.1 { st = st' }))
      ]

  -- The root has no parent, and its removal is a panic.
  abbrev remove_found : ℕ → Bytes → Found × World → Option (Option FsError × World)
  remove_found depth path (at_root, w) = none
  remove_found depth path (no_parent, w) = some (some parent_dir_not_exist, w)
  remove_found depth path (below true, w) = remove_there depth path w
  remove_found depth path (below false, w) = some (some not_exist, w)

  unfoldable pub fs_remove : ℕ → Bytes → World → Option (Option FsError × World)
  unfolding validate_path file_info remove_inode is_dir remove_child
  fs_remove depth name w =
      if validate_path fs name
      then remove_found depth (abs fs.wd name) (file_info fs (abs fs.wd name) w)
      else some (some file_not_managed, w)

  abbrev read_there : Bytes → World → Option (Reply (List Bytes) × World)
  read_there path w =
      let r = is_dir fs path w in
      if r.0
      then elim (get_children path r.1.st) [
        | none ↦ none
        | some cs ↦ some (ok (sort_names cs), r.1)
      ]
      else some (failed not_directory, r.1)

  abbrev read_found : Bytes → Found × World → Option (Reply (List Bytes) × World)
  read_found path (at_root, w) = read_there path w
  read_found path (no_parent, w) = some (failed parent_dir_not_exist, w)
  read_found path (below true, w) = read_there path w
  read_found path (below false, w) = some (failed not_directory, w)

  unfoldable pub read_dir : Bytes → World → Option (Reply (List Bytes) × World)
  unfolding validate_path file_info is_dir get_children
  read_dir name w =
      if validate_path fs name
      then read_found (abs fs.wd name) (file_info fs (abs fs.wd name) w)
      else some (failed file_not_managed, w)

  abbrev rm_read : ℕ → Bytes → Reply (List Bytes) × World → Option (Option FsError × World)
  rm_read depth name (failed e, w) = some (some e, w)
  rm_read depth name (ok [], w) = fs_remove depth name w
  rm_read depth name (ok (n ∷ ns), w) = some (some dir_not_empty, w)

  -- The path is cleaned first, which `Abs` does as well.
  unfoldable pub rm_dir : ℕ → Bytes → World → Option (Option FsError × World)
  unfolding read_dir fs_remove
  rm_dir depth name w =
      if validate_path fs name
      then elim (read_dir name w) [ none ↦ none | some r ↦ rm_read depth name r ]
      else some (some file_not_managed, w)
