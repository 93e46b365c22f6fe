-- ===== src/Examples/OnOpened.antt =====
-- A file /m/a of six bytes, opened by a process that knows no inode yet.
use pdwfs.Base.{
  ◌≡◌, refl, ap, ◌∙◌, true, none, some, [], ◌∷◌, arith, Bytes, bytes_eq, bytes_eq_iff, Bool-cases,
  inl, inr, subst,
}
use pdwfs.Base.Int.{pos}
use pdwfs.Abspath.Reference.{enter}
use pdwfs.Ring.{get_client, new_redis_ring}
use pdwfs.Ring.Clients.{get_client-IsAmong}
use pdwfs.Store.Keys.{key, stripes_key, itoa, divmod, to_int64}
use pdwfs.Store.Stripes.{stripe_layout, layout_loop}
use pdwfs.Store.DataStore.{
  Instances, client_of, WriteAt, wrote, write_stripes, write_stripe, write_commands,
}
use pdwfs.Store.Flat.{IsFile, WriteAt-IsFile}
use pdwfs.Store.Bytes.{byte}
use pdwfs.Store.Contents.{content}
use pdwfs.Tree.Paths.{abs, dir}
use pdwfs.Tree.{World, client_at, validate_path, mode_key, children_key, ok}
use pdwfs.Tree.Opening.{open_file}
use pdwfs.Tree.Made.{IsWhole}
use pdwfs.Tree.Placed.{not_equal, mode_key-ne-children_key, children_key-inj, at_client-keeps}
use pdwfs.Tree.Reopened.{at_bytes, open_file-IsFile}
use pdwfs.Instance.RedisTable.{Table, missing, text, name_set, update, update-other, table_redis}
use pdwfs.Instance.MetaTable.{table_metadata, is_there}
use pdwfs.Examples.OnStore.{byte_sum, two_clients, doubled, six_bytes, start_first, start_second}
use pdwfs.Examples.OnTree.{at_m, below_m}
use mathlib.Core.List.Permᴰ

-- The inodes of /m and of /m/a.
abbrev mode_of_m : Table
mode_of_m = update (mode_key (b'/' ∷ b'm' ∷ [])) (text (b'0' ∷ [])) (λ k. missing)

abbrev both_modes : Table
both_modes = update (mode_key below_m) (text (b'0' ∷ [])) mode_of_m

abbrev inodes_table : Table
inodes_table = update (children_key (b'/' ∷ b'm' ∷ [])) (name_set ([] ∷ below_m ∷ [])) both_modes

abbrev no_bytes : Instances
no_bytes c = inodes_table

no_bytes-IsFile : IsFile two_clients below_m (omega arith) [] no_bytes
unfolding content byte key stripes_key
no_bytes-IsFile = record {
  sized = (
    record {
      texts = λ id. refl;
      free = λ c. refl;
      full = λ i. omega arith;
      below = λ i. inl refl;
      sets = λ c j e. cc;
      home = λ c j e. cc;
      present = λ i h. absurd (omega arith);
    },
    inl refl,
  );
  bytes = λ p. refl;
  dense = λ p h. absurd (omega arith);
}

abbrev filled : Instances
filled = write_stripes two_clients below_m (start_first ∷ start_second ∷ []) no_bytes

stripe_layout-filled :
    stripe_layout doubled 4 (pos 0) six_bytes ≡ some (start_first ∷ start_second ∷ [])
unfolding stripe_layout layout_loop divmod to_int64
stripe_layout-filled = refl

filled-WriteAt : WriteAt two_clients below_m doubled (pos 0) six_bytes no_bytes filled
filled-WriteAt =
    wrote (start_first ∷ start_second ∷ []) (start_first ∷ start_second ∷ []) stripe_layout-filled
      (Permᴰ.refl _)

filled-IsFile : IsFile two_clients below_m (omega arith) six_bytes filled
filled-IsFile =
    WriteAt-IsFile two_clients below_m (omega arith) doubled 0 [] six_bytes (omega arith)
      (omega arith) (omega arith) no_bytes-IsFile filled-WriteAt

abbrev new_process : World
new_process = record { inodes = λ p. none; st = filled }

-- The stripes are written to other keys than the inodes.
module _ (p c : Bytes) where
  directories : is_there (filled c (children_key p)) ≡ is_there (inodes_table (children_key p))
  unfolding write_stripes write_stripe write_commands key stripes_key
  directories =
      at_client-keeps (λ db. is_there (db (children_key p))) (client_of two_clients below_m (pos 1))
        c (write_commands two_clients below_m start_second)
        (write_stripe two_clients below_m start_first no_bytes) (λ db. refl)
      ∙ at_client-keeps (λ db. is_there (db (children_key p)))
          (client_of two_clients below_m (pos 0)) c (write_commands two_clients below_m start_first)
          no_bytes (λ db. refl)

  modes : is_there (filled c (mode_key p)) ≡ is_there (inodes_table (mode_key p))
  unfolding write_stripes write_stripe write_commands key stripes_key
  modes =
      at_client-keeps (λ db. is_there (db (mode_key p))) (client_of two_clients below_m (pos 1)) c
        (write_commands two_clients below_m start_second)
        (write_stripe two_clients below_m start_first no_bytes) (λ db. refl)
      ∙ at_client-keeps (λ db. is_there (db (mode_key p))) (client_of two_clients below_m (pos 0)) c
          (write_commands two_clients below_m start_first) no_bytes (λ db. refl)

filled-IsWhole : IsWhole at_m filled
filled-IsWhole p gone =
    let c = client_at at_m p in
    elim (Bool-cases (bytes_eq (b'/' ∷ b'm' ∷ []) p)) [
      | inl same ↦
          let there =
            subst (λ q. is_there (inodes_table (mode_key q)) ≡ true)
              ((bytes_eq_iff (b'/' ∷ b'm' ∷ []) p).0 same) refl in
          let known = modes p c in absurd cc
      | inr other ↦
          directories p c
          ∙ ap is_there (
              update-other (children_key (b'/' ∷ b'm' ∷ [])) (children_key p)
                (name_set ([] ∷ below_m ∷ [])) both_modes
                (λ e.
                  not_equal (b'/' ∷ b'm' ∷ []) p other (children_key-inj (b'/' ∷ b'm' ∷ []) p e))
              ∙ update-other (mode_key below_m) (children_key p) (text (b'0' ∷ [])) mode_of_m
                  (mode_key-ne-children_key below_m p)
              ∙ update-other (mode_key (b'/' ∷ b'm' ∷ [])) (children_key p) (text (b'0' ∷ []))
                  (λ k. missing) (mode_key-ne-children_key (b'/' ∷ b'm' ∷ []) p))
    ]

-- O_WRONLY and O_TRUNC.
open_file-IsFile_example :
    (w' : World) × (open_file at_m below_m 513 384 new_process
      ≡ (ok (at_bytes at_m below_m 513 []), w'))
    × IsFile two_clients below_m (omega arith) [] w'.st
unfolding enter abs validate_path write_stripes get_client new_redis_ring itoa key dir stripes_key
open_file-IsFile_example =
    open_file-IsFile at_m (omega arith) below_m
      (λ i.
        get_client-IsAmong byte_sum ((b'a' ∷ []) ∷ (b'b' ∷ []) ∷ []) (key below_m i) (omega arith))
      below_m 513 384 new_process six_bytes refl refl
      (record { known = λ p i e. cc; right = λ p i b e f. cc }) refl refl refl refl filled-IsWhole
      (omega arith) filled-IsFile
