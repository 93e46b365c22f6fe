-- ===== src/Store/Size.antt =====
-- store.go, `searchLastStripe` and `GetSize`: the size of a file, from the sets of its stripes.
mod Names
pub mod Extent
pub mod Grown
pub mod Found
use pdwfs.Base.{
  ℕ, zero, suc, ◌+◌, ◌-◌, ◌*◌, Bool, true, false, List, [], ◌∷◌, Bytes, ltb, leb, if◌then◌else◌,
}
use pdwfs.Base.Int.{ℤ, pos, negsuc, minus_one}
use pdwfs.Ring.{RedisRing}
use pdwfs.Store.Keys.{key, stripes_key, to_int64}
use pdwfs.Store.Redis.{Redis}
use pdwfs.Store.DataStore.{DataStore, Instances, client_of}

abbrev pub exceeds : ℤ → ℤ → Bool
exceeds (pos m) (pos n) = ltb n m
exceeds (pos m) (negsuc n) = true
exceeds (negsuc m) (pos n) = false
exceeds (negsuc m) (negsuc n) = ltb m n

-- The greatest of some identifiers and `max`.
pub max_id : ℤ → List ℤ → ℤ
max_id max [] = max
max_id max (id ∷ ids) = max_id (if exceeds id max then id else max) ids

module _ ⦃rs : Redis⦄ (s : DataStore) (name : Bytes) where
  -- What the goroutine of a client sends to the channel.
  pub client_max : Bytes → Instances → ℤ
  unfolding max_id
  client_max c st = max_id minus_one (rs.smembers (stripes_key name) (st c))

  -- What is received from the channel, in the order of the clients.
  pub received : List Bytes → Instances → List ℤ
  unfolding client_max
  received [] st = []
  received (c ∷ cs) st = client_max c st ∷ received cs st

  unfoldable pub search_last_stripe : Instances → ℤ
  unfolding received
  search_last_stripe st = max_id minus_one (received s.redis_ring.clients st)

  unfoldable pub get_size : Instances → ℤ
  unfolding search_last_stripe
  get_size st = elim (search_last_stripe st) [
    | negsuc i ↦ pos 0
    | pos i ↦
        to_int64
          (pos (i * s.stripe_size + rs.strlen (key name (pos i)) (st (client_of s name (pos i)))))
  ]
