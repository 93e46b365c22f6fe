-- ===== src/Tree/Opening.antt =====
-- inodes.go and fs.go, `OpenFile` and `getFile`: the flags of open, and the file that is opened.
use pdwfs.Base.{ℕ, ◌/◌, ◌%◌, Bool, true, false, ◌&&◌, ◌==◌, Bytes, if◌then◌else◌}
use pdwfs.Base.Int.{pos}
use pdwfs.Store.Redis.{Redis}
use pdwfs.Store.DataStore.{Instances}
use pdwfs.Store.Resize.{remove}
use pdwfs.MemFile.{MemFile, new_mem_file, seek}
use pdwfs.Tree.Paths.{abs, dir}
use pdwfs.Tree.MetaRedis.{Metadata}
use pdwfs.Tree.{
  RedisFs, World, Found, at_root, no_parent, below, file_not_managed, is_directory, exist,
  not_exist, parent_dir_not_exist, Reply, ok, failed, create_inode, file_info, validate_path,
  is_dir,
}

-- The wrapper of an open file: `woFile`, `roFile` or none.
pub data Access : Type 0 where
  read_write : Access
  write_only : Access
  read_only : Access

pub record OpenFile : Type 0 where
  pub file : MemFile
  pub access : Access

-- A flag that is one bit.
abbrev pub bit : ℕ → ℕ → Bool
bit flag flags = (flags / flag) % 2 == 1

abbrev o_wronly : ℕ
o_wronly = 1

abbrev o_rdwr : ℕ
o_rdwr = 2

abbrev pub o_create : ℕ
o_create = 64

abbrev pub o_excl : ℕ
o_excl = 128

abbrev pub o_trunc : ℕ
o_trunc = 512

abbrev pub o_append : ℕ
o_append = 1024

abbrev pub access_of : ℕ → Access
access_of flag =
    if bit o_rdwr flag then read_write else if bit o_wronly flag then write_only else read_only

module _ ⦃rs : Redis⦄ ⦃md : Metadata⦄ (fs : RedisFs) where
  -- The new file, at the end of what is stored with O_APPEND.
  abbrev pub opened : Bytes → ℕ → Instances → OpenFile
  opened path flag st =
      let f = new_mem_file fs.data_store path in
      record {
        file =
            (if bit o_append flag then seek f (pos 0) (pos 2) st else seek f (pos 0) (pos 0) st).0;
        access = access_of flag;
      }

  unfoldable pub get_file : Bytes → ℕ → World → Reply OpenFile × World
  unfolding remove is_dir
  get_file path flag w =
      let r = is_dir fs path w in
      let st = if bit o_trunc flag then remove fs.data_store path r.1.st else r.1.st in
      if r.0 then (failed is_directory, r.1) else (ok (opened path flag st), record r.1 { st = st })

  -- Of an inode that is there.
  abbrev pub open_old : Bytes → ℕ → World → Reply OpenFile × World
  open_old path flag w =
      let r = is_dir fs path w in
      if bit o_create flag && bit o_excl flag
      then (failed exist, w)
      else if r.0
      then (failed is_directory, r.1)
      else get_file path flag r.1

  abbrev pub open_found : Bytes → ℕ → ℕ → Found × World → Reply OpenFile × World
  open_found path flag perm (at_root, w) = open_old path flag w
  open_found path flag perm (no_parent, w) = (failed parent_dir_not_exist, w)
  open_found path flag perm (below true, w) = open_old path flag w
  open_found path flag perm (below false, w) =
      if bit o_create flag
      then get_file path flag (create_inode fs path false perm (dir path) w)
      else (failed not_exist, w)

  unfoldable pub open_file : Bytes → ℕ → ℕ → World → Reply OpenFile × World
  unfolding validate_path file_info get_file create_inode
  open_file name flag perm w =
      if validate_path fs name
      then open_found (abs fs.wd name) flag perm (file_info fs (abs fs.wd name) w)
      else (failed file_not_managed, w)
