-- ===== src/Tree/Parents.antt =====
-- fs.go, `fileInfo`: where it finds a parent, the parent is a directory.
use pdwfs.Base.{
  ◌≡◌, refl, Bool, true, false, none, some, Bytes, if◌then◌else◌, bytes_eq, bytes_eq_iff,
}
use pdwfs.Store.Redis.{Redis}
use pdwfs.Store.DataStore.{Instances}
use pdwfs.Tree.Paths.{dir}
use pdwfs.Tree.MetaRedis.{Metadata}
use pdwfs.Tree.{RedisFs, Found, at_root, no_parent, below, stored_inode, stored_dir}
use pdwfs.Tree.View.{found_in, is_some, tree}

-- A lookup by its tests.
found_by : (root here up b c : Bool) → Found
found_by root here up b c = if root then at_root else elim (if here then some up else none) [
  | none ↦ no_parent
  | some d ↦ if d then below (is_some (if b then some c else none)) else no_parent
]

found_by-below :
    (root here up b c e : Bool) → found_by root here up b c ≡ below e → (b ≡ e) × (up ≡ true)
unfolding found_by
found_by-below true here up b c e h = cc
found_by-below false false up b c e h = cc
found_by-below false true false b c e h = cc
found_by-below false true true false c false h = (refl, refl)
found_by-below false true true false c true h = cc
found_by-below false true true true c true h = (refl, refl)
found_by-below false true true true c false h = cc

found_by-at_root : (root here up b c : Bool) → found_by root here up b c ≡ at_root → root ≡ true
unfolding found_by
found_by-at_root true here up b c h = refl
found_by-at_root false false up b c h = cc
found_by-at_root false true false b c h = cc
found_by-at_root false true true b c h = cc

module _ ⦃rs : Redis⦄ ⦃md : Metadata⦄ (fs : RedisFs) where
  pub below-entries :
      (path : Bytes) (st : Instances) (b : Bool)
      → found_in fs.root (tree fs st) path ≡ below b
      → (stored_inode fs path st ≡ b) × (stored_dir fs (dir path) st ≡ true)
  unfolding found_by
  below-entries path st b e =
      found_by-below (bytes_eq path fs.root) (stored_inode fs (dir path) st)
        (stored_dir fs (dir path) st) (stored_inode fs path st) (stored_dir fs path st) b e

  pub at_root-path :
      (path : Bytes) (st : Instances)
      → found_in fs.root (tree fs st) path ≡ at_root
      → path ≡ fs.root
  unfolding found_by
  at_root-path path st e = (bytes_eq_iff path fs.root).0 (
      found_by-at_root (bytes_eq path fs.root) (stored_inode fs (dir path) st)
        (stored_dir fs (dir path) st) (stored_inode fs path st) (stored_dir fs path st) e)
