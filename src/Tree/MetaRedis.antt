-- ===== src/Tree/MetaRedis.antt =====
-- The commands of Redis that inodes use, beside those of the store, with their documented behaviour.
-- A key of an inode is a string or a set of strings and is never of the other type.
use pdwfs.Base.{◌≡◌, ◌≢◌, Bool, true, false, ◌||◌, List, [], ◌∷◌, Bytes, bytes_eq}
use pdwfs.Base.Int.{ℤ}
use pdwfs.Store.Redis.{Redis}

abbrev pub has_name : Bytes → List Bytes → Bool
has_name n [] = false
has_name n (m ∷ ms) = bytes_eq m n || has_name n ms

pub record Metadata ⦃rs : Redis⦄ : Type 0 where
  pub exists : Bytes → rs.Db → Bool
  pub setnx : Bytes → Bytes → rs.Db → rs.Db
  pub add_name : Bytes → Bytes → rs.Db → rs.Db
  pub remove_name : Bytes → Bytes → rs.Db → rs.Db
  pub names : Bytes → rs.Db → List Bytes
  -- SETNX
  pub exists-setnx_self : (k v : Bytes) (db : rs.Db) → exists k (setnx k v db) ≡ true
  pub exists-setnx : (k j v : Bytes) (db : rs.Db) → k ≢ j → exists j (setnx k v db) ≡ exists j db
  pub names-setnx : (k j v : Bytes) (db : rs.Db) → names j (setnx k v db) ≡ names j db
  -- SADD and SREM of a string
  pub exists-add_name_self : (k n : Bytes) (db : rs.Db) → exists k (add_name k n db) ≡ true
  pub exists-add_name :
      (k j n : Bytes) (db : rs.Db) → k ≢ j → exists j (add_name k n db) ≡ exists j db
  pub names-add_name_self :
      (k n m : Bytes) (db : rs.Db)
      → has_name m (names k (add_name k n db)) ≡ (bytes_eq n m || has_name m (names k db))
  pub names-add_name : (k j n : Bytes) (db : rs.Db) → k ≢ j → names j (add_name k n db) ≡ names j db
  pub exists-remove_name :
      (k j n : Bytes) (db : rs.Db) → k ≢ j → exists j (remove_name k n db) ≡ exists j db
  pub exists-names :
      (k n : Bytes) (db : rs.Db) → has_name n (names k db) ≡ true → exists k db ≡ true
  pub names-remove_name_self :
      (k n m : Bytes) (db : rs.Db)
      → n ≢ m
      → has_name m (names k (remove_name k n db)) ≡ has_name m (names k db)
  pub names-remove_name :
      (k j n : Bytes) (db : rs.Db) → k ≢ j → names j (remove_name k n db) ≡ names j db
  -- UNLINK, and SREM of a number
  pub exists-unlink_self : (k : Bytes) (db : rs.Db) → exists k (rs.unlink k db) ≡ false
  pub exists-unlink : (k j : Bytes) (db : rs.Db) → k ≢ j → exists j (rs.unlink k db) ≡ exists j db
  pub exists-srem :
      (k j : Bytes) (i : ℤ) (db : rs.Db) → k ≢ j → exists j (rs.srem k i db) ≡ exists j db
  pub names-unlink : (k j : Bytes) (db : rs.Db) → k ≢ j → names j (rs.unlink k db) ≡ names j db
  pub names-srem :
      (k j : Bytes) (i : ℤ) (db : rs.Db) → k ≢ j → names j (rs.srem k i db) ≡ names j db
