-- ===== src/Store/Commands.antt =====
-- store.go, `writeStripe`: what its transaction leaves of a stripe, and of the other stripes.
use pdwfs.Base.{
  ℕ, ◌-◌, ◌<◌, ◌≡◌, ◌≢◌, refl, sym, ◌∙◌, false, ◌&&◌, [], ◌∷◌, arith, Bytes, length, ◌==◌,
  if◌then◌else◌, bytes_eq_iff, Bool-cases, inl, inr,
}
use pdwfs.Base.Int.{ℤ, pos, ◌==ℤ◌}
use pdwfs.Store.Keys.{key, stripes_key, key-inj, key-ne-stripes_key}
use pdwfs.Store.Redis.{Redis, text_or_empty}
use pdwfs.Store.Stripes.{Stripe, blank}
use pdwfs.Store.Bytes.{byte, byte-overwrite, within}
use pdwfs.Store.DataStore.{DataStore, Instances, at_client, client_of, write_commands}

abbrev pub part : ℤ → ℕ → ℕ → Bytes → Stripe
part id o b c = record { id = id; off = pos o; payload = b ∷ c }

module _ ⦃rs : Redis⦄ where
  pub at_client_self :
      (c : Bytes) (f : rs.Db → rs.Db) (st : Instances) → at_client c f st c ≡ f (st c)
  at_client_self c f st = rw ((bytes_eq_iff c c).1 refl) refl

  module _ (s : DataStore) (name : Bytes) where
    -- A stripe as Redis holds it.
    unfoldable pub stripe_text : Instances → ℤ → Bytes
    stripe_text st id = text_or_empty (rs.get (key name id) (st (client_of s name id)))

    module _ (x : Stripe) (id : ℤ) (db : rs.Db) where
      abbrev pub with_id : rs.Db
      with_id = rs.sadd (stripes_key name) x.id db

      key_ne : stripes_key name ≢ key name id
      key_ne e = key-ne-stripes_key name id (sym e)

      pub smembers-with_id : rs.smembers (key name id) with_id ≡ rs.smembers (key name id) db
      smembers-with_id = rs.smembers-sadd (stripes_key name) (key name id) x.id db key_ne

      pub write_commands-other :
          x.id ≢ id
          → (rs.get (key name id) (write_commands s name x db) ≡ rs.get (key name id) db)
            × (rs.smembers (key name id) (write_commands s name x db)
                ≡ rs.smembers (key name id) db)
      unfolding write_commands
      write_commands-other ne =
          let ne_key : key name x.id ≢ key name id = λ e. ne (key-inj name x.id id e) in
          elim (Bool-cases ((x.off ==ℤ pos 0) && (length x.payload == s.stripe_size))) [
            | inl whole ↦ rw whole (
              rs.get-set (key name x.id) (key name id) x.payload with_id ne_key
                  ∙ rs.get-sadd (stripes_key name) (key name id) x.id db,
              rs.smembers-set (key name x.id) (key name id) x.payload with_id ne_key
                  ∙ smembers-with_id,
            )
            | inr part ↦ rw part (
              rs.get-setrange (key name x.id) (key name id) x.off x.payload with_id ne_key
                  ∙ rs.get-sadd (stripes_key name) (key name id) x.id db,
              rs.smembers-setrange (key name x.id) (key name id) x.off x.payload with_id
                  ∙ smembers-with_id,
            )
          ]

    module _ (id : ℤ) (o b : ℕ) (c : Bytes) (db : rs.Db) where
      pub smembers-write_commands :
          rs.smembers (key name id) db ≡ []
          → rs.smembers (key name id) (write_commands s name (part id o b c) db) ≡ []
      unfolding write_commands
      smembers-write_commands e =
          elim (Bool-cases ((pos o ==ℤ pos 0) && (length (b ∷ c) == s.stripe_size))) [
            | inl whole ↦
                rw whole
                  (rs.smembers-set_self (key name id) (b ∷ c) (with_id (part id o b c) id db))
            | inr partly ↦ rw partly (
                rs.smembers-setrange (key name id) (key name id) (pos o) (b ∷ c)
                  (with_id (part id o b c) id db)
                ∙ smembers-with_id (part id o b c) id db
                ∙ e)
          ]

      pub byte-write_commands :
          (r : ℕ)
          → rs.smembers (key name id) db ≡ []
          → r < s.stripe_size
          → byte (text_or_empty (rs.get (key name id) (write_commands s name (part id o b c) db))) r
            ≡ (if within o (length (b ∷ c)) r
                then byte (b ∷ c) (r - o)
                else byte (text_or_empty (rs.get (key name id) db)) r)
      unfolding write_commands
      byte-write_commands r e h =
          elim (Bool-cases ((pos o ==ℤ pos 0) && (length (b ∷ c) == s.stripe_size))) [
            | inl whole ↦ rw whole (
                rw (rs.get-set_self (key name id) (b ∷ c) (with_id (part id o b c) id db))
                  (ground arith))
            | inr partly ↦ rw partly (
                let held =
                  rs.get-setrange_self (key name id) o b c (with_id (part id o b c) id db)
                    (smembers-with_id (part id o b c) id db ∙ e) in
                rw held (
                  rw (rs.get-sadd (stripes_key name) (key name id) id db)
                    (byte-overwrite o (b ∷ c) (text_or_empty (rs.get (key name id) db)) r)))
          ]

    pub blank_commands :
        (id : ℤ) (db : rs.Db)
        → 0 < s.stripe_size
        → (rs.get (key name id) (write_commands s name blank db) ≡ rs.get (key name id) db)
          × (rs.smembers (key name id) (write_commands s name blank db)
              ≡ rs.smembers (key name id) db)
    unfolding write_commands
    blank_commands id db z =
        let positive : (0 == s.stripe_size) ≡ false = ground arith in
        rw positive (
          rw (rs.setrange-nil (key name (pos 0)) 0 (with_id blank id db))
            (rs.get-sadd (stripes_key name) (key name id) (pos 0) db, smembers-with_id blank id db))
