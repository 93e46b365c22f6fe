-- ===== src/Tree/OldInodes.antt =====
-- fs.go, `OpenFile` of an inode that is there: what it answers, and that the tree stays.
use pdwfs.Base.{
  ℕ, ◌≡◌, refl, sym, ap, ◌∙◌, Bool, true, false, ◌&&◌, Bytes, if◌then◌else◌, Bool-cases, inl, inr,
}
use pdwfs.Store.Redis.{Redis}
use pdwfs.Store.DataStore.{Instances}
use pdwfs.Store.Resize.{remove}
use pdwfs.Tree.MetaRedis.{Metadata}
use pdwfs.Tree.{
  RedisFs, World, is_directory, exist, Reply, ok, failed, stored_inode, stored_dir, is_dir,
}
use pdwfs.Tree.Opening.{OpenFile, opened, get_file, open_old, bit, o_create, o_excl, o_trunc}
use pdwfs.Tree.View.{Contents, lists, contents, Agrees, Saw}
use pdwfs.Tree.Lookup.{is_dir-Saw_later}
use pdwfs.Tree.Made.{IsWhole, Follows, Saw-Follows}
use pdwfs.Tree.Truncated.{IsRooted, stored_inode-truncated, stored_dir-truncated, lists-truncated}

-- The answer where an inode is there, a directory or a file.
abbrev pub old_in : Bool → Bool → OpenFile → Contents → Reply OpenFile × Contents
old_in refused d file t =
    if refused then (failed exist, t) else if d then (failed is_directory, t) else (ok file, t)

module _ ⦃rs : Redis⦄ ⦃md : Metadata⦄ (fs : RedisFs) where
  -- An operation that leaves the same tree, with other data.
  Follows-after :
      {A : Type 0} (x : A) (w v : World) (st : Instances)
      → ((q : Bytes) → stored_inode fs q st ≡ stored_inode fs q w.st)
      → ((q : Bytes) → stored_dir fs q st ≡ stored_dir fs q w.st)
      → ((q child : Bytes) → lists fs st q child ≡ lists fs w.st q child)
      → v.st ≡ w.st
      → Agrees fs v
      → IsWhole fs w.st
      → Follows fs (x, record v { st = st }) (x, contents fs w.st)
  Follows-after x w v st inodes dirs listings e a whole = record {
    answer = refl;
    entries = λ q. rw (inodes q, dirs q) refl;
    listings = listings;
    agrees = record {
      known = λ p i f. inodes p ∙ sym (ap (stored_inode fs p) e) ∙ a.known p i f;
      right = λ p i b f g. dirs p ∙ sym (ap (stored_dir fs p) e) ∙ a.right p i b f g;
    };
    whole = λ q gone. dirs q ∙ whole q (sym (inodes q) ∙ gone);
  }

  -- A file that is there.
  pub get_file-Follows :
      (path : Bytes) (flag : ℕ) (w v : World)
      → IsRooted path
      → v.st ≡ w.st
      → Agrees fs v
      → IsWhole fs w.st
      → stored_inode fs path w.st ≡ true
      → stored_dir fs path w.st ≡ false
      → Follows fs
          (get_file fs path flag v)
          (ok (opened fs path flag (get_file fs path flag v).1.st), contents fs w.st)
  unfolding get_file
  get_file-Follows path flag w v r e a whole there file =
      let s = is_dir-Saw_later fs path w v e a there in
      let u = (is_dir fs path v).1 in
      let st = if bit o_trunc flag then remove fs.data_store path u.st else u.st in
      rw (s.answer, file)
        (Follows-after (ok (opened fs path flag st)) w u st
          (λ q.
            stored_inode-truncated fs path q u.st r (bit o_trunc flag)
            ∙ ap (stored_inode fs q) s.same)
          (λ q.
            stored_dir-truncated fs path q u.st r (bit o_trunc flag) ∙ ap (stored_dir fs q) s.same)
          (λ q child.
            lists-truncated fs path q u.st r child (bit o_trunc flag)
            ∙ ap (λ st. lists fs st q child) s.same)
          s.same s.agrees whole)

  pub open_old-Follows :
      (path : Bytes) (flag : ℕ) (w v : World) (d : Bool)
      → IsRooted path
      → v.st ≡ w.st
      → Agrees fs v
      → IsWhole fs w.st
      → stored_inode fs path w.st ≡ true
      → stored_dir fs path w.st ≡ d
      → Follows fs (open_old fs path flag v) (
          old_in
            (bit o_create flag && bit o_excl flag)
            d
            (opened fs path flag (open_old fs path flag v).1.st)
            (contents fs w.st))
  open_old-Follows path flag w v d r e a whole there kind =
      let s = is_dir-Saw_later fs path w v e a there in
      elim (Bool-cases (bit o_create flag && bit o_excl flag)) [
        | inl excl ↦ rw excl (
            Saw-Follows fs w true (true, v) (failed exist) whole
              (record { answer = refl; same = e; agrees = a }))
        | inr plain ↦ by_kind d plain kind s
      ]
    where
      by_kind :
          (d : Bool)
          → (bit o_create flag && bit o_excl flag) ≡ false
          → stored_dir fs path w.st ≡ d
          → Saw fs w (stored_dir fs path w.st) (is_dir fs path v)
          → Follows fs (open_old fs path flag v) (
              old_in
                (bit o_create flag && bit o_excl flag)
                d
                (opened fs path flag (open_old fs path flag v).1.st)
                (contents fs w.st))
      by_kind true plain kind s =
          rw (plain, s.answer, kind)
            (Saw-Follows fs w (stored_dir fs path w.st) (is_dir fs path v) (failed is_directory)
              whole s)
      by_kind false plain kind s =
          rw (plain, s.answer, kind)
            (get_file-Follows path flag w (is_dir fs path v).1 r s.same s.agrees whole there kind)
