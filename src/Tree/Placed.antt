-- ===== src/Tree/Placed.antt =====
-- inodes.go: the keys of inodes differ, and what the metadata commands change.
use mathlib.Core.List.{append_cancel_right}
use pdwfs.Base.{
  ℕ, ◌≡◌, ◌≢◌, refl, sym, ap, ◌∙◌, subst, Bool, true, false, [], ◌∷◌, ◌++◌, arith, Bytes,
  if◌then◌else◌, bytes_eq, bytes_eq_iff, Bool-cases, inl, inr,
}
use pdwfs.Base.Int.{pos}
use pdwfs.Store.Keys.{itoa}
use pdwfs.Store.Redis.{Redis}
use pdwfs.Store.DataStore.{Instances, at_client}
use pdwfs.Store.Commands.{at_client_self}
use pdwfs.Tree.MetaRedis.{Metadata}
use pdwfs.Tree.{
  RedisFs, mode_key, children_key, key_prefix, client_at, stored_inode, stored_dir, init_meta,
  set_child, meta_commands,
}

pub not_equal : (p q : Bytes) → bytes_eq p q ≡ false → p ≢ q
not_equal p q e f = grind (arith, (bytes_eq_iff p q).1 f)

last_byte : ℕ → Bytes → ℕ
last_byte d [] = d
last_byte d (b ∷ bs) = last_byte b bs

last_byte-append : (d b : ℕ) (xs ys : Bytes) → last_byte d (xs ++ (b ∷ ys)) ≡ last_byte b ys
unfolding last_byte
last_byte-append d b [] ys = refl
last_byte-append d b (x ∷ xs) ys = last_byte-append x b xs ys

second : Bytes → Bytes
second [] = []
second (b ∷ bs) = bs

pub mode_key-ne-children_key : (p q : Bytes) → mode_key p ≢ children_key q
unfolding last_byte
mode_key-ne-children_key p q e = absurd (
    omega (
      arith,
      last_byte-append 0 b':' (key_prefix p) (b'm' ∷ b'o' ∷ b'd' ∷ b'e' ∷ []),
      ap (last_byte 0) e,
      last_byte-append 0 b':' (key_prefix q)
          (b'c' ∷ b'h' ∷ b'i' ∷ b'l' ∷ b'd' ∷ b'r' ∷ b'e' ∷ b'n' ∷ []),
    ))

key_prefix-inj : (p q s : Bytes) → key_prefix p ++ s ≡ key_prefix q ++ s → p ≡ q
unfolding second
key_prefix-inj p q s e =
    append_cancel_right p q (b'}' ∷ [])
      (ap second (append_cancel_right (key_prefix p) (key_prefix q) s e))

pub mode_key-inj : (p q : Bytes) → mode_key p ≡ mode_key q → p ≡ q
mode_key-inj p q e = key_prefix-inj p q (b':' ∷ b'm' ∷ b'o' ∷ b'd' ∷ b'e' ∷ []) e

pub children_key-inj : (p q : Bytes) → children_key p ≡ children_key q → p ≡ q
children_key-inj p q e =
    key_prefix-inj p q (b':' ∷ b'c' ∷ b'h' ∷ b'i' ∷ b'l' ∷ b'd' ∷ b'r' ∷ b'e' ∷ b'n' ∷ []) e

module _ ⦃rs : Redis⦄ where
  -- A view that a command keeps is kept for all instances.
  pub at_client-keeps {ℓ} :
      {A : Type ℓ} (view : rs.Db → A) (c d : Bytes) (f : rs.Db → rs.Db) (st : Instances)
      → ((db : rs.Db) → view (f db) ≡ view db)
      → view (at_client c f st d) ≡ view (st d)
  at_client-keeps view c d f st same = elim (Bool-cases (bytes_eq c d)) [
    | inl here ↦ rw here (same (st d))
    | inr there ↦ rw there refl
  ]

module _ ⦃rs : Redis⦄ ⦃md : Metadata⦄ (fs : RedisFs) where
  pub stored_inode-set_child :
      (parent path q : Bytes) (st : Instances)
      → stored_inode fs q (set_child fs parent path st) ≡ stored_inode fs q st
  unfolding set_child
  stored_inode-set_child parent path q st =
      at_client-keeps (md.exists (mode_key q)) (client_at fs parent) (client_at fs q)
        (md.add_name (children_key parent) path) st
        (λ db.
          md.exists-add_name (children_key parent) (mode_key q) path db
            (λ e. mode_key-ne-children_key q parent (sym e)))

  stored_dir-set_child_other :
      (parent path q : Bytes) (st : Instances)
      → parent ≢ q
      → stored_dir fs q (set_child fs parent path st) ≡ stored_dir fs q st
  unfolding set_child
  stored_dir-set_child_other parent path q st ne =
      at_client-keeps (md.exists (children_key q)) (client_at fs parent) (client_at fs q)
        (md.add_name (children_key parent) path) st
        (λ db.
          md.exists-add_name (children_key parent) (children_key q) path db
            (λ e. ne (children_key-inj parent q e)))

  -- In a parent that is a directory.
  pub stored_dir-set_child :
      (parent path q : Bytes) (st : Instances)
      → stored_dir fs parent st ≡ true
      → stored_dir fs q (set_child fs parent path st) ≡ stored_dir fs q st
  unfolding set_child
  stored_dir-set_child parent path q st there = elim (Bool-cases (bytes_eq parent q)) [
    | inr other ↦ stored_dir-set_child_other parent path q st (not_equal parent q other)
    | inl same ↦
        subst (λ p. stored_dir fs p (set_child fs parent path st) ≡ stored_dir fs p st)
          ((bytes_eq_iff parent q).0 same)
          (ap (md.exists (children_key parent))
              (at_client_self (client_at fs parent) (md.add_name (children_key parent) path) st)
            ∙ md.exists-add_name_self (children_key parent) path (st (client_at fs parent))
            ∙ sym there)
  ]

  pub stored_inode-init_meta :
      (path q : Bytes) (d : Bool) (mode : ℕ) (st : Instances)
      → path ≢ q
      → stored_inode fs q (init_meta fs path d mode st) ≡ stored_inode fs q st
  unfolding init_meta
  stored_inode-init_meta path q d mode st ne =
      at_client-keeps (md.exists (mode_key q)) (client_at fs path) (client_at fs q)
        (meta_commands fs path d mode) st
        (λ db.
          md.exists-setnx (mode_key path) (mode_key q) (itoa (pos mode)) _
            (λ e. ne (mode_key-inj path q e))
          ∙ kept d db)
    where
      kept :
          (d : Bool) (db : rs.Db)
          → md.exists (mode_key q) (if d then md.add_name (children_key path) [] db else db)
            ≡ md.exists (mode_key q) db
      kept true db =
          md.exists-add_name (children_key path) (mode_key q) [] db
            (λ e. mode_key-ne-children_key q path (sym e))
      kept false db = refl

  pub stored_inode-init_meta_self :
      (path : Bytes) (d : Bool) (mode : ℕ) (st : Instances)
      → stored_inode fs path (init_meta fs path d mode st) ≡ true
  unfolding init_meta
  stored_inode-init_meta_self path d mode st =
      ap (md.exists (mode_key path))
        (at_client_self (client_at fs path) (meta_commands fs path d mode) st)
      ∙ md.exists-setnx_self (mode_key path) (itoa (pos mode)) (
          if d
          then md.add_name (children_key path) [] (st (client_at fs path))
          else st (client_at fs path))

  pub stored_dir-init_meta :
      (path q : Bytes) (d : Bool) (mode : ℕ) (st : Instances)
      → path ≢ q
      → stored_dir fs q (init_meta fs path d mode st) ≡ stored_dir fs q st
  unfolding init_meta
  stored_dir-init_meta path q d mode st ne =
      at_client-keeps (md.exists (children_key q)) (client_at fs path) (client_at fs q)
        (meta_commands fs path d mode) st
        (λ db.
          md.exists-setnx (mode_key path) (children_key q) (itoa (pos mode)) _
            (mode_key-ne-children_key path q)
          ∙ kept d db)
    where
      kept :
          (d : Bool) (db : rs.Db)
          → md.exists (children_key q) (if d then md.add_name (children_key path) [] db else db)
            ≡ md.exists (children_key q) db
      kept true db =
          md.exists-add_name (children_key path) (children_key q) [] db
            (λ e. ne (children_key-inj path q e))
      kept false db = refl

  -- Of a path where nothing was stored.
  pub stored_dir-init_meta_self :
      (path : Bytes) (d : Bool) (mode : ℕ) (st : Instances)
      → stored_dir fs path st ≡ false
      → stored_dir fs path (init_meta fs path d mode st) ≡ d
  unfolding init_meta
  stored_dir-init_meta_self path d mode st fresh =
      ap (md.exists (children_key path))
        (at_client_self (client_at fs path) (meta_commands fs path d mode) st)
      ∙ md.exists-setnx (mode_key path) (children_key path) (itoa (pos mode)) _
          (mode_key-ne-children_key path path)
      ∙ kept d
    where
      kept :
          (d : Bool)
          → md.exists (children_key path) (
              if d
              then md.add_name (children_key path) [] (st (client_at fs path))
              else st (client_at fs path))
            ≡ d
      kept true = md.exists-add_name_self (children_key path) [] (st (client_at fs path))
      kept false = fresh
