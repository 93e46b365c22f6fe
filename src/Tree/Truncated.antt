-- ===== src/Tree/Truncated.antt =====
-- inodes.go, O_TRUNC: removing the data of a file leaves the metadata of all inodes.
use pdwfs.Base.{
  ℕ, ◌≡◌, ◌≢◌, refl, ap, ◌∙◌, Bool, true, false, List, [], ◌∷◌, ◌++◌, map, arith, Bytes,
  if◌then◌else◌, ◌==◌, Bool-cases, inl, inr,
}
use pdwfs.Base.Int.{ℤ}
use pdwfs.Abspath.{slash}
use pdwfs.Abspath.Reference.{absolute, climb, resolve, split, enter}
use pdwfs.Store.Keys.{key, stripes_key, first_byte}
use pdwfs.Store.Redis.{Redis}
use pdwfs.Store.DataStore.{DataStore, Instances, client_of, remove_stripe}
use pdwfs.Store.Resize.{removal, run_task, run_tasks, remove_tasks, remove}
use pdwfs.Tree.Paths.{abs, clean}
use pdwfs.Tree.MetaRedis.{Metadata, has_name}
use pdwfs.Tree.View.{lists}
use pdwfs.Tree.{RedisFs, client_at, stored_inode, stored_dir}
use pdwfs.Tree.Placed.{at_client-keeps}

-- A path that begins with '/'.
pub data IsRooted : Bytes → Type 0 where
  rooted : (s : Bytes) → IsRooted (slash ∷ s)

climb-IsRooted : (st : List Bytes) (s : Bytes) → IsRooted (climb st (slash ∷ s))
unfolding climb
climb-IsRooted [] s = rooted s
climb-IsRooted (p ∷ st) s = climb-IsRooted st (p ++ (slash ∷ s))

absolute-IsRooted : (st : List Bytes) → IsRooted (absolute st)
unfolding absolute climb
absolute-IsRooted [] = rooted []
absolute-IsRooted (p ∷ st) = climb-IsRooted st (p ++ [])

pub abs-IsRooted : (wd path : Bytes) → IsRooted (abs wd path)
unfolding abs clean
abs-IsRooted wd [] = absolute-IsRooted (resolve (split wd) [])
abs-IsRooted wd (c ∷ path) = elim (Bool-cases (c == slash)) [
  | inl root ↦ rw root (absolute-IsRooted (resolve (split path) (enter [] [])))
  | inr other ↦ rw other (absolute-IsRooted (resolve (split (wd ++ (slash ∷ c ∷ path))) []))
]

module _ ⦃rs : Redis⦄ ⦃md : Metadata⦄ where
  -- A view of the data that commands on keys without a brace at the start keep.
  module _ {A : Type 0} (s : DataStore) (view : rs.Db → A)
      (unlinks : (b : ℕ) (k : Bytes) (db : rs.Db)
        → b ≢ b'{'
        → view (rs.unlink (b ∷ k) db) ≡ view db)
      (srems : (b : ℕ) (k : Bytes) (i : ℤ) (db : rs.Db)
        → b ≢ b'{'
        → view (rs.srem (b ∷ k) i db) ≡ view db) where
    run_tasks-keeps :
        (name c : Bytes) (ids : List ℤ) (st : Instances)
        → IsRooted name
        → view (run_tasks s name (map removal ids) st c) ≡ view (st c)
    unfolding run_tasks run_task remove_stripe key stripes_key
    run_tasks-keeps name c [] st r = refl
    run_tasks-keeps [] c (id ∷ ids) st r = elim r [ ]
    run_tasks-keeps (b ∷ name) c (id ∷ ids) st (rooted s') =
        run_tasks-keeps (slash ∷ s') c ids (remove_stripe s (slash ∷ s') id st) (rooted s')
        ∙ at_client-keeps view (client_of s (slash ∷ s') id) c
            (λ db. rs.unlink (key (slash ∷ s') id) (rs.srem (stripes_key (slash ∷ s')) id db)) st
            (λ db.
              unlinks slash _ _ (λ e. absurd (omega arith))
              ∙ srems slash _ id db (λ e. absurd (omega arith)))

    pub remove-keeps :
        (name c : Bytes) (st : Instances) → IsRooted name → view (remove s name st c) ≡ view (st c)
    unfolding remove remove_tasks
    remove-keeps name c st r = run_tasks-keeps name c _ st r

  other_key : (b : ℕ) (k j : Bytes) → b ≢ b'{' → b ∷ k ≢ b'{' ∷ j
  other_key b k j ne e = ne (ap first_byte e)

  exists_kept :
      (s : DataStore) (j name c : Bytes) (st : Instances)
      → IsRooted name
      → md.exists (b'{' ∷ j) (remove s name st c) ≡ md.exists (b'{' ∷ j) (st c)
  exists_kept s j =
      remove-keeps s (md.exists (b'{' ∷ j))
        (λ b k db ne. md.exists-unlink (b ∷ k) (b'{' ∷ j) db (other_key b k j ne))
        (λ b k i db ne. md.exists-srem (b ∷ k) (b'{' ∷ j) i db (other_key b k j ne))

  names_kept :
      (s : DataStore) (j name c : Bytes) (st : Instances)
      → IsRooted name
      → md.names (b'{' ∷ j) (remove s name st c) ≡ md.names (b'{' ∷ j) (st c)
  names_kept s j =
      remove-keeps s (md.names (b'{' ∷ j))
        (λ b k db ne. md.names-unlink (b ∷ k) (b'{' ∷ j) db (other_key b k j ne))
        (λ b k i db ne. md.names-srem (b ∷ k) (b'{' ∷ j) i db (other_key b k j ne))

  -- The data with O_TRUNC or without.
  abbrev pub truncated : DataStore → Bytes → Bool → Instances → Instances
  truncated s path b st = if b then remove s path st else st

  module _ (fs : RedisFs) (path q : Bytes) (st : Instances) (r : IsRooted path) where
    pub stored_inode-truncated :
        (b : Bool) → stored_inode fs q (truncated fs.data_store path b st) ≡ stored_inode fs q st
    stored_inode-truncated true = exists_kept fs.data_store _ path (client_at fs q) st r
    stored_inode-truncated false = refl

    pub stored_dir-truncated :
        (b : Bool) → stored_dir fs q (truncated fs.data_store path b st) ≡ stored_dir fs q st
    stored_dir-truncated true = exists_kept fs.data_store _ path (client_at fs q) st r
    stored_dir-truncated false = refl

    pub lists-truncated :
        (child : Bytes) (b : Bool)
        → lists fs (truncated fs.data_store path b st) q child ≡ lists fs st q child
    lists-truncated child true =
        ap (has_name child) (names_kept fs.data_store _ path (client_at fs q) st r)
    lists-truncated child false = refl
