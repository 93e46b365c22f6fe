-- ===== src/Examples/OnTree.antt =====
-- The tree of inodes of a mount at /m, on two instances of Redis that hold nothing at first.
use pdwfs.Base.{◌≡◌, refl, Option, none, some, [], ◌∷◌, Bytes, if◌then◌else◌}
use pdwfs.Abspath.Reference.{enter}
use pdwfs.Ring.{get_client, new_redis_ring}
use pdwfs.Store.Keys.{itoa}
use pdwfs.Tree.Paths.{abs, dir}
use pdwfs.Tree.{
  RedisFs, World, FsError, exist, Reply, ok, failed, new_redis_fs, create_inode, mkdir, stat,
  not_exist, is_directory, validate_path, file_not_managed,
}
use pdwfs.Tree.Opening.{OpenFile, open_file}
use pdwfs.Tree.View.{found_in, tree, contents, Agrees}
use pdwfs.Tree.Made.{made_in, IsWhole, Follows, mkdir-Follows}
use pdwfs.Tree.Opened.{opened_by, open_file-Follows}
use pdwfs.Tree.Started.{new_redis_fs-root, new_redis_fs-Agrees, new_redis_fs-IsWhole}
use pdwfs.Tree.Removal.{rm_dir}
use pdwfs.Instance.RedisTable.{table_redis, no_data}
use pdwfs.Instance.MetaTable.{table_metadata}
use pdwfs.Examples.OnStore.{two_clients}

abbrev pub at_m : RedisFs
at_m = record {
  root = b'/' ∷ b'm' ∷ [];
  wd = b'/' ∷ [];
  data_store = two_clients;
  redis_ring = two_clients.redis_ring;
}

abbrev started : World
started = new_redis_fs at_m no_data

started-Agrees : Agrees at_m started
started-Agrees = new_redis_fs-Agrees at_m no_data

started-IsWhole : IsWhole at_m started.st
started-IsWhole = new_redis_fs-IsWhole at_m no_data (λ p e. refl)

-- /m/a
abbrev pub below_m : Bytes
below_m = b'/' ∷ b'm' ∷ b'/' ∷ b'a' ∷ []

mkdir-Follows_example : Follows at_m (mkdir at_m below_m 448 started) (
    if validate_path at_m below_m
    then made_in
        (abs (b'/' ∷ []) below_m)
        (contents at_m started.st)
        (found_in (b'/' ∷ b'm' ∷ []) (tree at_m started.st) (abs (b'/' ∷ []) below_m))
    else (some file_not_managed, contents at_m started.st))
mkdir-Follows_example = mkdir-Follows at_m below_m 448 started started-Agrees started-IsWhole

-- O_WRONLY, O_CREAT and O_TRUNC.
open_file-Follows_example : Follows at_m (open_file at_m below_m 577 384 started) (
    if validate_path at_m below_m
    then opened_by at_m
        (abs (b'/' ∷ []) below_m)
        577
        (open_file at_m below_m 577 384 started).1.st
        (contents at_m started.st)
    else (failed file_not_managed, contents at_m started.st))
open_file-Follows_example =
    open_file-Follows at_m below_m 577 384 started started-Agrees started-IsWhole
      (new_redis_fs-root at_m no_data)

-- A directory is made once, a file in it is opened, and a name that is not there is not found.
abbrev with_dir : World
with_dir = (mkdir at_m below_m 448 started).1

mkdir-again : (mkdir at_m below_m 448 with_dir).0 ≡ some exist
unfolding mkdir new_redis_fs enter dir get_client new_redis_ring itoa create_inode
mkdir-again = refl

abbrev error_of : Reply OpenFile → Option FsError
error_of (ok f) = none
error_of (failed e) = some e

open_file-dir : error_of (open_file at_m below_m 2 384 with_dir).0 ≡ some is_directory
unfolding open_file mkdir new_redis_fs enter dir get_client new_redis_ring itoa
open_file-dir = refl

stat-missing : (stat at_m (b'/' ∷ b'm' ∷ b'/' ∷ b'b' ∷ []) with_dir).0 ≡ failed not_exist
unfolding stat mkdir new_redis_fs enter dir get_client new_redis_ring itoa create_inode
stat-missing = refl

abbrev answer_of : Option (Option FsError × World) → Option (Option FsError)
answer_of none = none
answer_of (some (e, w)) = some e

-- The mount's root is not removed, since it has no parent: a panic.
rm_dir-root : answer_of (rm_dir at_m 9 (b'/' ∷ b'm' ∷ []) started) ≡ none
unfolding rm_dir new_redis_fs enter get_client new_redis_ring itoa
rm_dir-root = refl

rm_dir-made : answer_of (rm_dir at_m 9 below_m with_dir) ≡ some none
unfolding rm_dir mkdir new_redis_fs enter dir get_client new_redis_ring itoa create_inode
rm_dir-made = refl
