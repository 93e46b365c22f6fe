-- ===== src/Store/DataStore.antt =====
-- store.go, `DataStore`: the operations on the stripes of a file, over the data of all instances.
-- An operation on several stripes runs one goroutine for each: an order of the stripes is an order
-- in which Redis gets their transactions, and a relation takes any of them.
use mathlib.Core.List.{Permᴰ}
use pdwfs.Base.{
  ℕ, zero, suc, ◌+◌, ◌-◌, ◌≡◌, ◌&&◌, Option, none, some, List, [], ◌∷◌, ◌++◌, Bytes, length, leb,
  ◌==◌, if◌then◌else◌, bytes_eq,
}
use pdwfs.Base.Int.{ℤ, pos, negsuc, ◌==ℤ◌, minus_one}
use pdwfs.Ring.{RedisRing, get_client}
use pdwfs.Store.Keys.{key, stripes_key}
use pdwfs.Store.Redis.{Redis}
use pdwfs.Store.Stripes.{Stripe, stripe_layout}

pub record DataStore : Type 0 where
  pub redis_ring : RedisRing
  pub stripe_size : ℕ

-- Two buffers that were read, or a panic.
abbrev pub side_by_side : Option (Bytes × ℕ) → Option (Bytes × ℕ) → Option (Bytes × ℕ)
side_by_side none r = none
side_by_side (some (b, n)) none = none
side_by_side (some (b, n)) (some (c, m)) = some (b ++ c, n + m)

module _ ⦃rs : Redis⦄ where
  -- The data of each client's instance.
  abbrev pub Instances : Type 0
  Instances = Bytes → rs.Db

  -- Commands sent to one client.
  abbrev pub at_client : Bytes → (rs.Db → rs.Db) → Instances → Instances
  at_client c f st d = if bytes_eq c d then f (st d) else st d

  module _ (s : DataStore) (name : Bytes) where
    -- The client that holds a stripe.
    abbrev pub client_of : ℤ → Bytes
    client_of id = get_client s.redis_ring (key name id)

    -- The transaction that writes a stripe.
    unfoldable pub write_commands : Stripe → rs.Db → rs.Db
    write_commands stripe db =
        let k = key name stripe.id in
        let db' = rs.sadd (stripes_key name) stripe.id db in
        if (stripe.off ==ℤ pos 0) && (length stripe.payload == s.stripe_size)
        then rs.set k stripe.payload db'
        else rs.setrange k stripe.off stripe.payload db'

    unfoldable pub write_stripe : Stripe → Instances → Instances
    unfolding write_commands
    write_stripe stripe = at_client (client_of stripe.id) (write_commands stripe)

    unfoldable pub remove_stripe : ℤ → Instances → Instances
    remove_stripe id =
        at_client (client_of id) (λ db. rs.unlink (key name id) (rs.srem (stripes_key name) id db))

    -- The script runs as one command.
    unfoldable pub trim_stripe : ℤ → ℕ → Instances → Instances
    trim_stripe id zero = at_client (client_of id) (rs.set (key name id) [])
    trim_stripe id (suc n) =
        at_client (client_of id)
          (λ db. rs.set (key name id) (rs.getrange (key name id) (pos 0) (pos n) db) db)

    -- The end of a range of `size` bytes from an offset on.
    abbrev pub range_end : ℤ → ℕ → ℤ
    range_end (pos o) zero = if o == 0 then minus_one else pos (o - 1)
    range_end (pos o) (suc n) = pos (o + n)
    range_end (negsuc o) n =
        if leb (suc (suc o)) n then pos (n - suc (suc o)) else negsuc (suc o - n)

    -- The buffer's new bytes and the number of bytes read. A missing key reads none.
    unfoldable pub read_stripe : Stripe → Instances → Option (Bytes × ℕ)
    read_stripe stripe st =
        let k = key name stripe.id in
        let db = st (client_of stripe.id) in
        let size = length stripe.payload in
        if (stripe.off ==ℤ pos 0) && (size == s.stripe_size)
        then elim (rs.get k db) [
          | none ↦ some (stripe.payload, 0)
          | some v ↦ rs.read_into v stripe.payload
        ]
        else rs.read_into (rs.getrange k stripe.off (range_end stripe.off size) db) stripe.payload

    unfoldable pub write_stripes : List Stripe → Instances → Instances
    unfolding write_stripe
    write_stripes [] st = st
    write_stripes (x ∷ xs) st = write_stripes xs (write_stripe x st)

    -- The buffers lie side by side in `dst`, and the counts are added up.
    unfoldable pub read_stripes : List Stripe → Instances → Option (Bytes × ℕ)
    unfolding read_stripe
    read_stripes [] st = some ([], 0)
    read_stripes (x ∷ xs) st = side_by_side (read_stripe x st) (read_stripes xs st)

    module _ (grown : ℕ → ℕ) (off : ℤ) where
      -- In the order of the loop.
      unfoldable pub write_at : Bytes → Instances → Option Instances
      unfolding write_stripes stripe_layout
      write_at buf st = elim (stripe_layout grown s.stripe_size off buf) [
        | none ↦ none
        | some xs ↦ some (write_stripes xs st)
      ]

      unfoldable pub read_at : Bytes → Instances → Option (Bytes × ℕ)
      unfolding read_stripes stripe_layout
      read_at dst st = elim (stripe_layout grown s.stripe_size off dst) [
        | none ↦ none
        | some xs ↦ read_stripes xs st
      ]

      -- In any order.
      pub data WriteAt (buf : Bytes) (st : Instances) : Instances → Type 0 where
        wrote :
            (xs ys : List Stripe)
            → stripe_layout grown s.stripe_size off buf ≡ some xs
            → Permᴰ xs ys
            → WriteAt buf st (write_stripes ys st)
