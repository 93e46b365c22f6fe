-- ===== src/Tree/Listed.antt =====
-- inodes.go: what the metadata commands change of the sets of children.
use pdwfs.Base.{
  ℕ, ◌≡◌, ◌≢◌, refl, ap, ◌∙◌, subst, Bool, true, false, ◌&&◌, ◌||◌, [], Bytes, if◌then◌else◌,
  bytes_eq, bytes_eq_iff, Bool-cases, inl, inr,
}
use pdwfs.Base.Int.{pos}
use pdwfs.Store.Keys.{itoa}
use pdwfs.Store.Redis.{Redis}
use pdwfs.Store.DataStore.{Instances}
use pdwfs.Store.Commands.{at_client_self}
use pdwfs.Tree.MetaRedis.{Metadata, has_name}
use pdwfs.Tree.View.{lists}
use pdwfs.Tree.Placed.{not_equal, children_key-inj, at_client-keeps}
use pdwfs.Tree.{RedisFs, mode_key, children_key, client_at, init_meta, set_child, meta_commands}

or_if : (b c : Bool) → (b || c) ≡ (if b then true else c)
or_if true c = refl
or_if false c = refl

and_false : (d : Bool) → (d && false) ≡ false
and_false true = refl
and_false false = refl

module _ ⦃rs : Redis⦄ ⦃md : Metadata⦄ (fs : RedisFs) where
  -- The set of a directory's children with one more path.
  pub lists-set_child :
      (parent path q child : Bytes) (st : Instances)
      → lists fs (set_child fs parent path st) q child
        ≡ (if bytes_eq parent q && bytes_eq path child then true else lists fs st q child)
  unfolding set_child
  lists-set_child parent path q child st = elim (Bool-cases (bytes_eq parent q)) [
    | inr other ↦ rw other (
        at_client-keeps (λ db. has_name child (md.names (children_key q) db)) (client_at fs parent)
          (client_at fs q) (md.add_name (children_key parent) path) st
          (λ db. ap (has_name child) (
            md.names-add_name (children_key parent) (children_key q) path db
              (λ e. not_equal parent q other (children_key-inj parent q e)))))
    | inl same ↦
        subst
          (λ p.
            lists fs (set_child fs parent path st) p child
            ≡ (if bytes_eq parent p && bytes_eq path child then true else lists fs st p child))
          ((bytes_eq_iff parent q).0 same)
          (rw ((bytes_eq_iff parent parent).1 refl) (
            ap (λ db. has_name child (md.names (children_key parent) db))
              (at_client_self (client_at fs parent) (md.add_name (children_key parent) path) st)
            ∙ md.names-add_name_self (children_key parent) path child (st (client_at fs parent))
            ∙ or_if (bytes_eq path child) _))
  ]

  -- What the commands of a new inode leave of a set of children: that of another path, and its own.
  names-meta_commands :
      (path q child : Bytes) (d : Bool) (mode : ℕ) (db : rs.Db)
      → path ≢ q
      → has_name child (md.names (children_key q) (meta_commands fs path d mode db))
        ≡ has_name child (md.names (children_key q) db)
  names-meta_commands path q child true mode db ne = ap (has_name child) (
      md.names-setnx (mode_key path) (children_key q) (itoa (pos mode)) _
      ∙ md.names-add_name (children_key path) (children_key q) [] db
          (λ e. ne (children_key-inj path q e)))
  names-meta_commands path q child false mode db ne =
      ap (has_name child) (md.names-setnx (mode_key path) (children_key q) (itoa (pos mode)) db)

  names-meta_commands_self :
      (path child : Bytes) (d : Bool) (mode : ℕ) (db : rs.Db)
      → has_name child (md.names (children_key path) (meta_commands fs path d mode db)) ≡ (
          if d && true && bytes_eq [] child
          then true
          else has_name child (md.names (children_key path) db))
  names-meta_commands_self path child true mode db =
      ap (has_name child) (md.names-setnx (mode_key path) (children_key path) (itoa (pos mode)) _)
      ∙ md.names-add_name_self (children_key path) [] child db
      ∙ or_if (bytes_eq [] child) _
  names-meta_commands_self path child false mode db =
      ap (has_name child) (md.names-setnx (mode_key path) (children_key path) (itoa (pos mode)) db)

  -- A new directory lists the empty name.
  pub lists-init_meta :
      (path q child : Bytes) (d : Bool) (mode : ℕ) (st : Instances)
      → lists fs (init_meta fs path d mode st) q child
        ≡ (if d && bytes_eq path q && bytes_eq [] child then true else lists fs st q child)
  unfolding init_meta
  lists-init_meta path q child d mode st = elim (Bool-cases (bytes_eq path q)) [
    | inr other ↦
        rw (other, and_false d)
          (at_client-keeps (λ db. has_name child (md.names (children_key q) db)) (client_at fs path)
            (client_at fs q) (meta_commands fs path d mode) st
            (λ db. names-meta_commands path q child d mode db (not_equal path q other)))
    | inl same ↦
        subst
          (λ p.
            lists fs (init_meta fs path d mode st) p child
            ≡ (if d && bytes_eq path p && bytes_eq [] child then true else lists fs st p child))
          ((bytes_eq_iff path q).0 same)
          (rw ((bytes_eq_iff path path).1 refl) (
            ap (λ db. has_name child (md.names (children_key path) db))
              (at_client_self (client_at fs path) (meta_commands fs path d mode) st)
            ∙ names-meta_commands_self path child d mode (st (client_at fs path))))
  ]
