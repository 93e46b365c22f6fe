-- ===== src/Ring.antt =====
-- src/go/util/consistenthash.go and the ring of redis.go: which Redis instance holds a key.
pub mod Sorting
pub mod Consistent
pub mod Clients
use pdwfs.Base.{
  ℕ, zero, suc, ◌+◌, ◌^◌, Bool, true, false, Option, none, some, List, [], ◌∷◌, ◌++◌, Bytes, length,
  take, drop, ltb, leb, ◌==◌, if◌then◌else◌, bytes_eq,
}
use pdwfs.Base.Int.{pos}
use pdwfs.Store.Keys.{itoa}

-- `hash` is the function that places the keys, `positions` the field `keys`. The newest entry of
-- `hash_map` for a position hides the older ones.
pub record ConsistentHash : Type 0 where
  pub hash : Bytes → ℕ
  pub replicas : ℕ
  pub positions : List ℕ
  pub hash_map : List (ℕ × Bytes)

unfoldable pub new_consistent_hash : ℕ → (Bytes → ℕ) → ConsistentHash
new_consistent_hash replicas fn = record {
  hash = fn;
  replicas = replicas;
  positions = [];
  hash_map = [];
}

-- `sort.Ints`
pub insert_position : ℕ → List ℕ → List ℕ
insert_position h [] = h ∷ []
insert_position h (p ∷ ps) = if ltb h p then h ∷ p ∷ ps else p ∷ insert_position h ps

unfoldable pub sort_onto : List ℕ → List ℕ → List ℕ
unfolding insert_position
sort_onto sorted [] = sorted
sort_onto sorted (h ∷ hs) = sort_onto (insert_position h sorted) hs

-- The positions of a node from its i-th replica on.
pub replica_positions : (Bytes → ℕ) → Bytes → ℕ → ℕ → List ℕ
replica_positions hash node i zero = []
replica_positions hash node i (suc left) =
    hash (itoa (pos i) ++ node) ∷ replica_positions hash node (suc i) left

-- The inner loop of `Add`, over the positions of a node.
pub add_positions : Bytes → List ℕ → ConsistentHash → ConsistentHash
add_positions node [] m = m
add_positions node (h ∷ hs) m =
    add_positions node hs
      (record m { positions = m.positions ++ (h ∷ []); hash_map = (h, node) ∷ m.hash_map })

-- The outer loop, over the nodes.
pub add_nodes : List Bytes → ConsistentHash → ConsistentHash
unfolding add_positions replica_positions
add_nodes [] m = m
add_nodes (node ∷ nodes) m =
    add_nodes nodes (add_positions node (replica_positions m.hash node 0 m.replicas) m)

unfoldable pub add : List Bytes → ConsistentHash → ConsistentHash
unfolding add_nodes sort_onto
add nodes m = let m' = add_nodes nodes m in record m' { positions = sort_onto [] m'.positions }

-- `sort.Search`: the first index whose position is not below the hash, or the length.
pub search_position : ℕ → List ℕ → ℕ
search_position h [] = 0
search_position h (p ∷ ps) = if leb h p then 0 else suc (search_position h ps)

-- A slice's element. An index is never out of range below.
abbrev pub element : List ℕ → ℕ → ℕ
element [] i = 0
element (p ∷ ps) zero = p
element (p ∷ ps) (suc i) = element ps i

-- A map's element, or the empty string.
pub node_at : ℕ → List (ℕ × Bytes) → Bytes
node_at h [] = []
node_at h ((p, node) ∷ m) = if p == h then node else node_at h m

unfoldable pub is_empty : ConsistentHash → Bool
is_empty m = length m.positions == 0

unfoldable pub get : Bytes → ConsistentHash → Bytes
unfolding is_empty search_position node_at
get k m =
    let i = search_position (m.hash k) m.positions in
    if is_empty m
    then []
    else node_at (element m.positions (if i == length m.positions then 0 else i)) m.hash_map

-- `strings.IndexByte`
unfoldable pub index_byte : ℕ → Bytes → Option ℕ
index_byte b [] = none
index_byte b (c ∷ cs) =
    let rest : Option ℕ = elim (index_byte b cs) [ none ↦ none | some i ↦ some (suc i) ] in
    if c == b then some 0 else rest

-- The part of a key between braces, which is not empty, or the key.
unfoldable pub hashed_part : Bytes → Bytes
unfolding index_byte
hashed_part key = elim (index_byte b'{' key) [
  | none ↦ key
  | some s ↦ elim (index_byte b'}' (drop (suc s) key)) [
    | none ↦ key
    | some zero ↦ key
    | some (suc e) ↦ take (suc e) (drop (suc s) key)
  ]
]

-- `clients` are the keys of the map of clients, one for each address.
pub record RedisRing : Type 0 where
  pub clients : List Bytes
  pub ring_hash : ConsistentHash

-- The identifiers of the clients from the i-th on.
pub client_ids : ℕ → ℕ → List Bytes
client_ids i zero = []
client_ids i (suc left) = itoa (pos i) ∷ client_ids (suc i) left

-- `conf.Addrs` counts only by its length. `fn` is the hash that a nil argument stands for.
unfoldable pub new_redis_ring : (Bytes → ℕ) → List Bytes → RedisRing
unfolding client_ids add new_consistent_hash
new_redis_ring fn addrs =
    let ids = client_ids 0 (length addrs) in
    record { clients = ids; ring_hash = add ids (new_consistent_hash 100 fn) }

-- The client that a key belongs to, by its identifier in the map.
unfoldable pub get_client : RedisRing → Bytes → Bytes
unfolding hashed_part get
get_client r key = get (hashed_part key) r.ring_hash
