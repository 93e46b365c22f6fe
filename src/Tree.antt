-- ===== src/Tree.antt =====
-- src/go/redisfs/inodes.go and fs.go: the tree of files and directories that Redis holds, seen by one
-- process through its map of inodes. An inode is named by its path: the map holds one object for each,
-- and `root` is the object at the path of the mount.
pub mod Paths
pub mod View
pub mod Started
pub mod Truncated
pub mod Opening
pub mod Flags
pub mod Reopened
pub mod Opened
pub mod Parents
pub mod Made
pub mod Placed
pub mod Listed
pub mod OldInodes
pub mod Lookup
pub mod MetaRedis
pub mod Removal
use pdwfs.Base.{
  ℕ, zero, suc, ◌+◌, ◌/◌, ◌%◌, Bool, true, false, not, ◌&&◌, ◌||◌, Option, none, some, List, [],
  ◌∷◌, ◌++◌, Bytes, length, ◌==◌, if◌then◌else◌, bytes_eq,
}
use pdwfs.Base.Int.{ℤ, pos}
use pdwfs.Ring.{RedisRing, get_client}
use pdwfs.Store.Keys.{itoa}
use pdwfs.Store.Redis.{Redis}
use pdwfs.Store.DataStore.{DataStore, Instances, at_client}
use pdwfs.Store.Resize.{remove}
use pdwfs.MemFile.{MemFile, new_mem_file, seek}
use Paths.{abs, dir, has_prefix}
use MetaRedis.{Metadata}

-- What an inode remembers: whether it is a directory, once `IsDir` has asked.
pub record Inode : Type 0 where
  pub is_dir : Option Bool

pub data FsError : Type 0 where
  file_not_managed : FsError
  is_directory : FsError
  not_directory : FsError
  dir_not_empty : FsError
  parent_dir_not_exist : FsError
  not_exist : FsError
  exist : FsError

pub data Reply (A : Type 0) : Type 0 where
  ok : A → Reply A
  failed : FsError → Reply A

-- What `fileInfo` finds: the root, no directory above the path, or whether there is an inode in it.
pub data Found : Type 0 where
  at_root : Found
  no_parent : Found
  below : Bool → Found

-- What does not change: the path of the mount, the working directory, and where the data are.
pub record RedisFs : Type 0 where
  pub root : Bytes
  pub wd : Bytes
  pub data_store : DataStore
  pub redis_ring : RedisRing

abbrev pub key_prefix : Bytes → Bytes
key_prefix path = b'{' ∷ (path ++ (b'}' ∷ []))

abbrev pub mode_key : Bytes → Bytes
mode_key path = key_prefix path ++ (b':' ∷ b'm' ∷ b'o' ∷ b'd' ∷ b'e' ∷ [])

abbrev pub children_key : Bytes → Bytes
children_key path =
    key_prefix path ++ (b':' ∷ b'c' ∷ b'h' ∷ b'i' ∷ b'l' ∷ b'd' ∷ b'r' ∷ b'e' ∷ b'n' ∷ [])

module _ ⦃rs : Redis⦄ ⦃md : Metadata⦄ where
  -- The map of inodes, and the data of all instances.
  pub record World : Type 0 where
    pub inodes : Bytes → Option Inode
    pub st : Instances

  -- The map with an inode at a path.
  abbrev pub set_inode : Bytes → Option Inode → World → World
  set_inode path i w = record w { inodes = λ p. if bytes_eq path p then i else w.inodes p }

  module _ (fs : RedisFs) where
    abbrev pub client_at : Bytes → Bytes
    client_at path = get_client fs.redis_ring (key_prefix path)

    abbrev pub stored_inode : Bytes → Instances → Bool
    stored_inode path st = md.exists (mode_key path) (st (client_at path))

    abbrev pub stored_dir : Bytes → Instances → Bool
    stored_dir path st = md.exists (children_key path) (st (client_at path))

    abbrev pub meta_commands : Bytes → Bool → ℕ → rs.Db → rs.Db
    meta_commands path is_dir mode db =
        md.setnx (mode_key path) (itoa (pos mode))
          (if is_dir then md.add_name (children_key path) [] db else db)

    -- The commands are one transaction.
    unfoldable pub init_meta : Bytes → Bool → ℕ → Instances → Instances
    init_meta path is_dir mode = at_client (client_at path) (meta_commands path is_dir mode)

    unfoldable pub del_meta : Bytes → Instances → Instances
    del_meta path =
        at_client (client_at path)
          (λ db. rs.unlink (mode_key path) (rs.unlink (children_key path) db))

    unfoldable pub set_child : Bytes → Bytes → Instances → Instances
    set_child parent child = at_client (client_at parent) (md.add_name (children_key parent) child)

    unfoldable pub remove_child : Bytes → Bytes → Instances → Instances
    remove_child parent child =
        at_client (client_at parent) (md.remove_name (children_key parent) child)

    -- The root is made when the process starts.
    unfoldable pub new_redis_fs : Instances → World
    unfolding init_meta
    new_redis_fs st =
        let none_yet : World = record { inodes = λ p. none; st = init_meta fs.root true 384 st } in
        set_inode fs.root (some (record { is_dir = none })) none_yet

    -- `IsDir` of an inode of the map.
    unfoldable pub is_dir : Bytes → World → Bool × World
    is_dir path w =
        let asked = stored_dir path w.st in
        let learnt : Bool × World =
          (asked, set_inode path (some (record { is_dir = some asked })) w) in
        elim (w.inodes path) [
          | none ↦ learnt
          | some i ↦ elim i.is_dir [ none ↦ learnt | some b ↦ (b, w) ]
        ]

    unfoldable pub create_inode : Bytes → Bool → ℕ → Bytes → World → World
    unfolding init_meta set_child
    create_inode path is_dir mode parent w =
        set_inode path (some (record { is_dir = none }))
          (record w { st = set_child parent path (init_meta path is_dir mode w.st) })

    unfoldable pub get_inode : Bytes → World → Bool × World
    get_inode path w = elim (w.inodes path) [
      | some i ↦ (true, w)
      | none ↦
          if stored_inode path w.st
          then (true, set_inode path (some (record { is_dir = none })) w)
          else (false, w)
    ]

    -- In a parent that is there.
    abbrev pub look_below : Bytes → Bool × World → Found × World
    look_below path (d, w) =
        let r = get_inode path w in if d then (below r.0, r.1) else (no_parent, w)

    unfoldable pub file_info : Bytes → World → Found × World
    unfolding get_inode is_dir
    file_info path w =
        let r = get_inode (dir path) w in
        if bytes_eq path fs.root
        then (at_root, w)
        else if r.0
        then look_below path (is_dir (dir path) r.1)
        else (no_parent, r.1)

    unfoldable pub validate_path : Bytes → Bool
    unfolding abs
    validate_path path = has_prefix (abs fs.wd path) fs.root

    abbrev pub made : Bytes → ℕ → Found × World → Option FsError × World
    made path perm (at_root, w) = (none, w)
    made path perm (no_parent, w) = (some parent_dir_not_exist, w)
    made path perm (below true, w) = (some exist, w)
    made path perm (below false, w) = (none, create_inode path true perm (dir path) w)

    unfoldable pub mkdir : Bytes → ℕ → World → Option FsError × World
    unfolding validate_path file_info
    mkdir name perm w =
        if validate_path name
        then made (abs fs.wd name) perm (file_info (abs fs.wd name) w)
        else (some file_not_managed, w)

    -- The path of the inode that describes a file.
    abbrev stat_found : Bytes → Found × World → Reply Bytes × World
    stat_found path (at_root, w) = (ok path, w)
    stat_found path (no_parent, w) = (failed parent_dir_not_exist, w)
    stat_found path (below true, w) = (ok path, w)
    stat_found path (below false, w) = (failed not_exist, w)

    unfoldable pub stat : Bytes → World → Reply Bytes × World
    unfolding validate_path file_info
    stat name w =
        if validate_path name
        then stat_found (abs fs.wd name) (file_info (abs fs.wd name) w)
        else (failed file_not_managed, w)
