-- ===== src/Tree/Started.antt =====
-- fs.go, `NewRedisFS`: the tree and the map of inodes at the start.
use pdwfs.Base.{
  ◌≡◌, refl, sym, ap, ◌∙◌, subst, true, some, none, [], bytes_eq, bytes_eq_iff, Bool-cases, inl,
  inr,
}
use pdwfs.Store.Redis.{Redis}
use pdwfs.Store.DataStore.{Instances}
use pdwfs.Store.Commands.{at_client_self}
use pdwfs.Tree.MetaRedis.{Metadata}
use pdwfs.Tree.{
  RedisFs, mode_key, children_key, client_at, meta_commands, stored_inode, stored_dir, init_meta,
  new_redis_fs,
}
use pdwfs.Tree.View.{tree, Agrees, set_inode-Agrees}
use pdwfs.Tree.Made.{IsWhole}
use pdwfs.Tree.Placed.{
  not_equal, mode_key-ne-children_key, stored_inode-init_meta, stored_inode-init_meta_self,
  stored_dir-init_meta,
}

module _ ⦃rs : Redis⦄ ⦃md : Metadata⦄ (fs : RedisFs) (st : Instances) where
  root_made : stored_dir fs fs.root (init_meta fs fs.root true 384 st) ≡ true
  unfolding init_meta
  root_made =
      ap (md.exists (children_key fs.root))
        (at_client_self (client_at fs fs.root) (meta_commands fs fs.root true 384) st)
      ∙ md.exists-setnx (mode_key fs.root) (children_key fs.root) _ _
          (mode_key-ne-children_key fs.root fs.root)
      ∙ md.exists-add_name_self (children_key fs.root) [] (st (client_at fs fs.root))

  pub new_redis_fs-root : tree fs (new_redis_fs fs st).st fs.root ≡ some true
  unfolding new_redis_fs
  new_redis_fs-root = rw (stored_inode-init_meta_self fs fs.root true 384 st, root_made) refl

  pub new_redis_fs-Agrees : Agrees fs (new_redis_fs fs st)
  unfolding new_redis_fs
  new_redis_fs-Agrees =
      set_inode-Agrees fs fs.root (record { is_dir = none })
        (record { inodes = λ p. none; st = init_meta fs fs.root true 384 st })
        (record { known = λ p i e. cc; right = λ p i b e f. cc })
        (stored_inode-init_meta_self fs fs.root true 384 st) (λ b e. cc)

  pub new_redis_fs-IsWhole : IsWhole fs st → IsWhole fs (new_redis_fs fs st).st
  unfolding new_redis_fs
  new_redis_fs-IsWhole whole q gone = elim (Bool-cases (bytes_eq fs.root q)) [
    | inl same ↦
        let there =
          subst (λ p. stored_inode fs p (init_meta fs fs.root true 384 st) ≡ true)
            ((bytes_eq_iff fs.root q).0 same)
            (stored_inode-init_meta_self fs fs.root true 384 st) in
        absurd cc
    | inr other ↦
        let ne = not_equal fs.root q other in
        stored_dir-init_meta fs fs.root q true 384 st ne
        ∙ whole q (sym (stored_inode-init_meta fs fs.root q true 384 st ne) ∙ gone)
  ]
