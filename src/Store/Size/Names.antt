-- ===== src/Store/Size/Names.antt =====
-- store.go, `writeStripe`: what its transaction leaves of the set of stripes and of a stripe's length.
use pdwfs.Base.{
  ℕ, ◌+◌, ◌≤◌, ◌≡◌, ap, ◌∙◌, ◌&&◌, ◌||◌, none, [], ◌∷◌, arith, Bytes, length, ◌==◌, Bool-cases, inl,
  inr,
}
use pdwfs.Base.Int.{ℤ, pos, ◌==ℤ◌}
use pdwfs.Store.Keys.{key, stripes_key, key-ne-stripes_key}
use pdwfs.Store.Redis.{Redis, contains, text_or_empty}
use pdwfs.Store.Stripes.{Stripe}
use pdwfs.Store.Bytes.{larger, length-overwrite}
use pdwfs.Store.Commands.{with_id, part, smembers-with_id}
use pdwfs.Store.DataStore.{DataStore, write_commands}

module _ ⦃rs : Redis⦄ (s : DataStore) (name : Bytes) where
  module _ (x : Stripe) (db : rs.Db) (free : rs.get (stripes_key name) db ≡ none) where
    free-with_id : rs.get (stripes_key name) (with_id s name x (pos 0) db) ≡ none
    free-with_id = rs.get-sadd (stripes_key name) (stripes_key name) x.id db ∙ free

    -- The set's key stays a set's.
    pub free-write_commands : rs.get (stripes_key name) (write_commands s name x db) ≡ none
    unfolding write_commands
    free-write_commands =
        let ne = key-ne-stripes_key name x.id in
        elim (Bool-cases ((x.off ==ℤ pos 0) && (length x.payload == s.stripe_size))) [
          | inl whole ↦ rw whole (
              rs.get-set (key name x.id) (stripes_key name) x.payload (with_id s name x (pos 0) db)
                ne
              ∙ free-with_id)
          | inr partly ↦ rw partly (
              rs.get-setrange (key name x.id) (stripes_key name) x.off x.payload
                (with_id s name x (pos 0) db) ne
              ∙ free-with_id)
        ]

    -- The stripe is in the set.
    pub contains-write_commands :
        (j : ℤ)
        → contains j (rs.smembers (stripes_key name) (write_commands s name x db))
          ≡ ((x.id ==ℤ j) || contains j (rs.smembers (stripes_key name) db))
    unfolding write_commands
    contains-write_commands j =
        let ne = key-ne-stripes_key name x.id in
        let listed = rs.smembers-sadd_self (stripes_key name) x.id j db free in
        elim (Bool-cases ((x.off ==ℤ pos 0) && (length x.payload == s.stripe_size))) [
          | inl whole ↦ rw whole (
              ap (contains j) (
                rs.smembers-set (key name x.id) (stripes_key name) x.payload
                  (with_id s name x (pos 0) db) ne)
              ∙ listed)
          | inr partly ↦ rw partly (
              ap (contains j) (
                rs.smembers-setrange (key name x.id) (stripes_key name) x.off x.payload
                  (with_id s name x (pos 0) db))
              ∙ listed)
        ]

  pub length-write_commands :
      (id : ℤ) (o b : ℕ) (c : Bytes) (db : rs.Db)
      → rs.smembers (key name id) db ≡ []
      → length (text_or_empty (rs.get (key name id) db)) ≤ s.stripe_size
      → length (text_or_empty (rs.get (key name id) (write_commands s name (part id o b c) db)))
        ≡ larger (length (text_or_empty (rs.get (key name id) db))) (o + length (b ∷ c))
  unfolding write_commands
  length-write_commands id o b c db e k =
      let db' = with_id s name (part id o b c) id db in
      elim (Bool-cases ((pos o ==ℤ pos 0) && (length (b ∷ c) == s.stripe_size))) [
        | inl whole ↦ rw whole (rw (rs.get-set_self (key name id) (b ∷ c) db') (ground arith))
        | inr partly ↦ rw partly (
            let held =
              rs.get-setrange_self (key name id) o b c db'
                (smembers-with_id s name (part id o b c) id db ∙ e) in
            rw held (
              rw (rs.get-sadd (stripes_key name) (key name id) id db)
                (length-overwrite o (b ∷ c) (text_or_empty (rs.get (key name id) db)))))
      ]
