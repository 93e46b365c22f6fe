-- ===== src/Ring/Clients.antt =====
-- redis.go, `NewRedisRing` and `GetClient`: every key has a client.
use pdwfs.Base.{
  ℕ, suc, ◌<◌, ◌≡◌, ◌∙◌, List, [], ◌∷◌, ◌++◌, arith, Bytes, length, inl, inr, sym, subst,
}
use pdwfs.Base.Int.{pos}
use pdwfs.Store.Keys.{itoa}
use pdwfs.Ring.{
  add_positions, add_nodes, replica_positions, hashed_part, new_consistent_hash, client_ids,
  new_redis_ring, get_client,
}
use pdwfs.Ring.Consistent.{
  IsAmong, settled, placed, settled-add_positions, settled-add_nodes, get-add-settled,
  settled-placed_first,
}

module _ (h y : ℕ) (node : Bytes) (fn : Bytes → ℕ) (replicas : ℕ) where
  settled-add_first :
      (ys : List ℕ)
      → settled h (add_positions node (y ∷ ys) (new_consistent_hash replicas fn)) ≡ node
  unfolding add_positions
  settled-add_first ys =
      elim (settled-add_positions h node ys (placed node y (new_consistent_hash replicas fn))) [
        | inl new ↦ new
        | inr old ↦ old ∙ settled-placed_first h y node fn replicas
      ]

settled-IsAmong :
    (h : ℕ) (node : Bytes) (nodes : List Bytes) (fn : Bytes → ℕ) (replicas : ℕ)
    → IsAmong
        (settled h (add_nodes (node ∷ nodes) (new_consistent_hash (suc replicas) fn)))
        (node ∷ nodes)
unfolding add_nodes replica_positions new_consistent_hash
settled-IsAmong h node nodes fn replicas =
    let y = fn (itoa (pos 0) ++ node) in
    let ys = replica_positions fn node 1 replicas in
    elim (settled-add_nodes h nodes
      (add_positions node (y ∷ ys) (new_consistent_hash (suc replicas) fn))) [
        | inl among ↦ inr among
        | inr old ↦ inl (old ∙ settled-add_first h y node fn (suc replicas) ys)
      ]

-- Where the configuration names an instance, every key belongs to a client of the ring, whatever the
-- hash function.
pub get_client-IsAmong :
    (fn : Bytes → ℕ) (addrs : List Bytes) (key : Bytes)
    → 0 < length addrs
    → IsAmong (get_client (new_redis_ring fn addrs) key) (new_redis_ring fn addrs).clients
unfolding get_client new_redis_ring client_ids
get_client-IsAmong fn [] key h = absurd (omega arith)
get_client-IsAmong fn (addr ∷ addrs) key h =
    let nodes = client_ids 1 (length addrs) in
    let k = hashed_part key in
    subst (λ node. IsAmong node (itoa (pos 0) ∷ nodes))
      (sym (get-add-settled k (itoa (pos 0) ∷ nodes) (new_consistent_hash 100 fn)))
      (settled-IsAmong (fn k) (itoa (pos 0)) nodes fn 99)
