-- ===== src/Tree/Reopened.antt =====
-- fs.go, `OpenFile` of a file that is there: its bytes, with O_TRUNC and without.
use mathlib.Core.List.Permᴰ
use pdwfs.Base.{
  ℕ, ◌^◌, ◌<◌, ◌≡◌, refl, sym, ap, ◌∙◌, subst, Bool, true, false, ◌&&◌, some, [], arith, Bytes,
  length, if◌then◌else◌, bytes_eq, bytes_eq_iff, Bool-cases, inl, inr,
}
use pdwfs.Base.Int.{ℤ, pos}
use pdwfs.Ring.Consistent.{IsAmong}
use pdwfs.Store.Redis.{Redis}
use pdwfs.Store.DataStore.{Instances, client_of}
use pdwfs.Store.Size.Found.{get_size-IsSized}
use pdwfs.Store.Flat.{IsFile}
use pdwfs.Store.Resize.{remove, remove_tasks, removed}
use pdwfs.Store.Resize.Emptied.{Remove-IsFile}
use pdwfs.Tree.Paths.{abs, dir}
use pdwfs.Tree.MetaRedis.{Metadata}
use pdwfs.Tree.{
  RedisFs, World, Found, below, ok, failed, file_not_managed, stored_inode, stored_dir, file_info,
  validate_path, is_dir,
}
use pdwfs.Tree.Opening.{
  OpenFile, get_file, open_old, open_found, open_file, bit, o_create, o_excl, o_trunc,
}
use pdwfs.Tree.View.{found_in, tree, contents, Agrees, Saw}
use pdwfs.Tree.Lookup.{is_dir-Saw_later, file_info-Saw}
use pdwfs.Tree.Made.{IsWhole}
use pdwfs.Tree.Truncated.{truncated}
use pdwfs.Tree.Flags.{asks, access_in, file_in, create-asks, excl-asks, trunc-asks}
use pdwfs.Tree.Opened.{opened_in, opened_by, open_file-Follows, tree-entry}

module _ ⦃rs : Redis⦄ ⦃md : Metadata⦄ (fs : RedisFs) (path : Bytes) (flag : ℕ) (w : World)
    (there : stored_inode fs path w.st ≡ true) (file : stored_dir fs path w.st ≡ false) where
  get_file-truncated :
      (v : World)
      → v.st ≡ w.st
      → Agrees fs v
      → (get_file fs path flag v).1.st ≡ truncated fs.data_store path (bit o_trunc flag) w.st
  unfolding get_file
  get_file-truncated v e a =
      let s = is_dir-Saw_later fs path w v e a there in
      rw (s.answer, file) (ap (truncated fs.data_store path (bit o_trunc flag)) s.same)

  open_old-truncated :
      (v : World)
      → v.st ≡ w.st
      → Agrees fs v
      → (bit o_create flag && bit o_excl flag) ≡ false
      → (open_old fs path flag v).1.st ≡ truncated fs.data_store path (bit o_trunc flag) w.st
  open_old-truncated v e a plain =
      let s = is_dir-Saw_later fs path w v e a there in
      rw (plain, s.answer, file) (get_file-truncated (is_dir fs path v).1 s.same s.agrees)

  open_found-truncated :
      (perm : ℕ) (r : Found × World)
      → Saw fs w (below true) r
      → (bit o_create flag && bit o_excl flag) ≡ false
      → (open_found fs path flag perm r).1.st ≡ truncated fs.data_store path (bit o_trunc flag) w.st
  open_found-truncated perm (x, v) s plain =
      rw s.answer (open_old-truncated v s.same s.agrees plain)

-- What is found of a file whose parent is a directory.
found-below :
    ⦃rs : Redis⦄ ⦃md : Metadata⦄ (fs : RedisFs) (path : Bytes) (w : World)
    → bytes_eq path fs.root ≡ false
    → tree fs w.st (dir path) ≡ some true
    → tree fs w.st path ≡ some false
    → found_in fs.root (tree fs w.st) path ≡ below true
found-below fs path w other up file =
    let u = tree-entry fs (dir path) true w.st up in
    let t = tree-entry fs path false w.st file in rw (other, u.0, u.1, t.0) refl

-- The bytes that O_TRUNC leaves.
abbrev pub bytes_left : ℕ → Bytes → Bytes
bytes_left flag f = if asks 512 flag then [] else f

-- The file that is opened.
abbrev pub at_bytes : RedisFs → Bytes → ℕ → Bytes → OpenFile
at_bytes fs path flag g = record {
  file = record {
    store = fs.data_store;
    path = path;
    offset = if asks 1024 flag then pos (length g) else pos 0;
  };
  access = access_in flag;
}

module _ ⦃rs : Redis⦄ ⦃md : Metadata⦄ (fs : RedisFs) (z : 0 < fs.data_store.stripe_size)
    (path : Bytes)
    (among : (i : ℤ)
      → IsAmong (client_of fs.data_store path i) fs.data_store.redis_ring.clients) where
  truncated-IsFile :
      (f : Bytes) (st : Instances) (b : Bool)
      → IsFile fs.data_store path z f st
      → IsFile fs.data_store path z (if b then [] else f) (truncated fs.data_store path b st)
  unfolding remove
  truncated-IsFile f st true file = Remove-IsFile fs.data_store path z among f file (
      removed (remove_tasks fs.data_store path st)
        (Permᴰ.refl (remove_tasks fs.data_store path st)))
  truncated-IsFile f st false file = file

  bytes_left-short :
      (flag : ℕ) (f : Bytes) → length f < 2 ^ 63 → length (bytes_left flag f) < 2 ^ 63
  bytes_left-short flag f h = ground arith

  file_in-at_bytes :
      (flag : ℕ) (g : Bytes) (st : Instances)
      → length g < 2 ^ 63
      → IsFile fs.data_store path z g st
      → file_in fs path flag st ≡ at_bytes fs path flag g
  file_in-at_bytes flag g st small file =
      rw (get_size-IsSized fs.data_store path z among (length g) st small file.sized) refl

  module _ (name : Bytes) (flag perm : ℕ) (w : World) (f : Bytes) (e : abs fs.wd name ≡ path)
      (valid : validate_path fs name ≡ true) (a : Agrees fs w)
      (root : tree fs w.st fs.root ≡ some true) (up : tree fs w.st (dir path) ≡ some true)
      (there : tree fs w.st path ≡ some false)
      (plain : (asks 64 flag && asks 128 flag) ≡ false) where
    not_root : bytes_eq path fs.root ≡ false
    not_root = elim (Bool-cases (bytes_eq path fs.root)) [
      | inr other ↦ other
      | inl same ↦
          let k = (tree-entry fs fs.root true w.st root).1 in
          let d = (tree-entry fs path false w.st there).1 in
          let d' =
            subst (λ p. stored_dir fs p w.st ≡ false) ((bytes_eq_iff path fs.root).0 same) d in
          cc
    ]

    open_file-answer :
        IsWhole fs w.st
        → (open_file fs name flag perm w).0
          ≡ ok (file_in fs path flag (open_file fs name flag perm w).1.st)
    open_file-answer whole =
        let follows = open_file-Follows fs name flag perm w a whole root in
        let st = (open_file fs name flag perm w).1.st in
        let found = found-below fs path w not_root up there in
        let t = tree-entry fs path false w.st there in
        follows.answer
        ∙ ap
            (λ b.
              (if b
                then opened_by fs (abs fs.wd name) flag st (contents fs w.st)
                else (failed file_not_managed, contents fs w.st)).0)
            valid
        ∙ ap (λ p. (opened_by fs p flag st (contents fs w.st)).0) e
        ∙ ap
            (λ x.
              (opened_in fs path (asks 64 flag) (asks 128 flag) (file_in fs path flag st)
                (contents fs w.st) x).0)
            found
        ∙ rw (t.0, t.1, plain) refl

    open_file-truncated :
        (open_file fs name flag perm w).1.st ≡ truncated fs.data_store path (asks 512 flag) w.st
    unfolding open_file
    open_file-truncated =
        let t = tree-entry fs path false w.st there in
        let found = found-below fs path w not_root up there in
        let saw = subst (λ x. Saw fs w x (file_info fs path w)) found (file_info-Saw fs path w a) in
        let both : (bit o_create flag && bit o_excl flag) ≡ false =
          rw (create-asks flag, excl-asks flag) plain in
        rw (valid, e)
          (open_found-truncated fs path flag w t.0 t.1 perm (file_info fs path w) saw both
            ∙ ap (λ b. truncated fs.data_store path b w.st) (trunc-asks flag))

    -- `OpenFile` of a file that is there, without O_CREATE and O_EXCL together: the file keeps its bytes, but with
    -- O_TRUNC (512) none are left, no stripe and no place of one in the sets; with O_APPEND (1024) the file is
    -- opened at their end, and else at 0. It reads, writes or does both by the lowest two bits of the flags.
    -- Given: the path lies below the mount, its parent and the root are directories, the map of
    -- inodes agrees with Redis, no path without a mode has a set of children, the file is shorter than
    -- 2^63 and every stripe belongs to a client of the ring.
    pub open_file-IsFile :
        IsWhole fs w.st
        → length f < 2 ^ 63
        → IsFile fs.data_store path z f w.st
        → (w' : World) × (open_file fs name flag perm w
            ≡ (ok (at_bytes fs path flag (bytes_left flag f)), w'))
          × IsFile fs.data_store path z (bytes_left flag f) w'.st
    open_file-IsFile whole small file =
        let r = open_file fs name flag perm w in
        let left : IsFile fs.data_store path z (bytes_left flag f) r.1.st =
          subst (IsFile fs.data_store path z (bytes_left flag f)) (sym open_file-truncated)
            (truncated-IsFile f w.st (asks 512 flag) file) in
        let opens =
          open_file-answer whole
          ∙ ap ok (
              file_in-at_bytes flag (bytes_left flag f) r.1.st (bytes_left-short flag f small)
                left) in
        (r.1, ap (λ x. (x, r.1)) opens, left)
