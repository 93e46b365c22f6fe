-- ===== src/Ring/Consistent.antt =====
-- consistenthash.go: adding nodes moves keys to the new nodes only.
use pdwfs.Base.{
  ℕ, ◌≡◌, ◌⊎◌, refl, ap, ◌∙◌, List, [], ◌∷◌, ◌++◌, arith, Bytes, length, leb, ◌==◌, if◌then◌else◌,
  inl, inr,
}
use pdwfs.Ring.Sorting.{sort_onto-append, IsSorted, sort_sorted, sort_onto-IsSorted}
use pdwfs.Ring.{
  ConsistentHash, insert_position, sort_onto, replica_positions, add_positions, add_nodes, add,
  search_position, element, node_at, is_empty, get, new_consistent_hash,
}

-- The position that a hash is served by: the first one that is not below it, or the first of all.
successor : ℕ → ℕ → List ℕ → ℕ
successor h first [] = first
successor h first (p ∷ ps) = if leb h p then p else successor h first ps

element-search :
    (h first : ℕ) (ps : List ℕ)
    → (if search_position h ps == length ps then first else element ps (search_position h ps))
      ≡ successor h first ps
unfolding search_position successor
element-search h first [] = refl
element-search h first (p ∷ ps) = ground (arith, element-search h first ps)

-- The node that a hash is served by.
pub served : ℕ → List ℕ → List (ℕ × Bytes) → Bytes
served h [] m = []
served h (p ∷ ps) m = node_at (successor h p (p ∷ ps)) m

found : ℕ → List ℕ → ℕ
unfolding search_position
found h ps = let i = search_position h ps in element ps (if i == length ps then 0 else i)

found-successor : (h p : ℕ) (ps : List ℕ) → found h (p ∷ ps) ≡ successor h p (p ∷ ps)
unfolding found search_position successor
found-successor h p ps = ground (arith, element-search h p ps)

served-found :
    (h : ℕ) (ps : List ℕ) (m : List (ℕ × Bytes))
    → (if length ps == 0 then [] else node_at (found h ps) m) ≡ served h ps m
unfolding served
served-found h [] m = refl
served-found h (p ∷ ps) m = ground (arith, found-successor h p ps)

get-served : (k : Bytes) (m : ConsistentHash) → get k m ≡ served (m.hash k) m.positions m.hash_map
unfolding get is_empty found
get-served k m = served-found (m.hash k) m.positions m.hash_map

-- One more position takes over the hash or leaves it where it was.
successor-insert :
    (h y first : ℕ) (ps : List ℕ)
    → (successor h first (insert_position y ps) ≡ y)
      ⊎ (successor h first (insert_position y ps) ≡ successor h first ps)
unfolding successor insert_position
successor-insert h y first [] = ground arith
successor-insert h y first (p ∷ ps) = ground (arith, successor-insert h y first ps)

successor-first :
    (h y z : ℕ) (ps : List ℕ) → (successor h y ps ≡ y) ⊎ (successor h y ps ≡ successor h z ps)
unfolding successor
successor-first h y z [] = inl refl
successor-first h y z (p ∷ ps) = ground (arith, successor-first h y z ps)

node_at-cons :
    (h y : ℕ) (node : Bytes) (m : List (ℕ × Bytes))
    → (node_at h ((y, node) ∷ m) ≡ node) ⊎ (node_at h ((y, node) ∷ m) ≡ node_at h m)
unfolding node_at
node_at-cons h y node m = ground arith

node_at_self : (h : ℕ) (node : Bytes) (m : List (ℕ × Bytes)) → node_at h ((h, node) ∷ m) ≡ node
unfolding node_at
node_at_self h node m = ground arith

closest : ℕ → List ℕ → ℕ
closest h [] = 0
closest h (p ∷ ps) = successor h p (p ∷ ps)

closest-insert :
    (h y p : ℕ) (ps : List ℕ)
    → (closest h (insert_position y (p ∷ ps)) ≡ y)
      ⊎ (closest h (insert_position y (p ∷ ps)) ≡ closest h (p ∷ ps))
unfolding closest successor insert_position
closest-insert h y p ps = ground (arith, successor-first h y p ps, successor-insert h y p ps)

served-closest :
    (h y : ℕ) (ps : List ℕ) (m : List (ℕ × Bytes))
    → served h (insert_position y ps) m ≡ node_at (closest h (insert_position y ps)) m
unfolding served closest insert_position
served-closest h y [] m = refl
served-closest h y (p ∷ ps) m = ground arith

module _ (h y : ℕ) (node : Bytes) where
  pub served-insert_first :
      (m : List (ℕ × Bytes)) → served h (insert_position y []) ((y, node) ∷ m) ≡ node
  unfolding served insert_position successor
  served-insert_first m = ground (arith, node_at_self y node m)

  served-insert :
      (ps : List ℕ) (m : List (ℕ × Bytes))
      → (served h (insert_position y ps) ((y, node) ∷ m) ≡ node)
        ⊎ (served h (insert_position y ps) ((y, node) ∷ m) ≡ served h ps m)
  unfolding served
  served-insert [] m = inl (served-insert_first m)
  served-insert (p ∷ ps) m =
      rw (served-closest h y (p ∷ ps) ((y, node) ∷ m)) (elim (closest-insert h y p ps) [
        | inl new ↦ inl (rw new (node_at_self y node m))
        | inr old ↦ rw old (unfold closest in node_at-cons (successor h p (p ∷ ps)) y node m)
      ])

abbrev pub IsAmong : Bytes → List Bytes → Type 0
IsAmong x [] = ⊥
IsAmong x (y ∷ ys) = (x ≡ y) ⊎ IsAmong x ys

-- The node that a hash is served by once the positions are sorted.
pub settled : ℕ → ConsistentHash → Bytes
settled h m = served h (sort_onto [] m.positions) m.hash_map

abbrev pub placed : Bytes → ℕ → ConsistentHash → ConsistentHash
placed node y m = record m {
  positions = m.positions ++ (y ∷ []);
  hash_map = (y, node) ∷ m.hash_map;
}

pub settled-placed :
    (h y : ℕ) (node : Bytes) (m : ConsistentHash)
    → (settled h (placed node y m) ≡ node) ⊎ (settled h (placed node y m) ≡ settled h m)
unfolding settled
settled-placed h y node m =
    rw (sort_onto-append y m.positions [])
      (served-insert h y node (sort_onto [] m.positions) m.hash_map)

pub settled-placed_first :
    (h y : ℕ) (node : Bytes) (fn : Bytes → ℕ) (replicas : ℕ)
    → settled h (placed node y (new_consistent_hash replicas fn)) ≡ node
unfolding settled new_consistent_hash sort_onto
settled-placed_first h y node fn replicas = served-insert_first h y node []

pub settled-add_positions :
    (h : ℕ) (node : Bytes) (ys : List ℕ) (m : ConsistentHash)
    → (settled h (add_positions node ys m) ≡ node)
      ⊎ (settled h (add_positions node ys m) ≡ settled h m)
unfolding add_positions
settled-add_positions h node [] m = inr refl
settled-add_positions h node (y ∷ ys) m = elim (settled-add_positions h node ys (placed node y m)) [
  | inl new ↦ inl new
  | inr old ↦ rw old (settled-placed h y node m)
]

pub settled-add_nodes :
    (h : ℕ) (nodes : List Bytes) (m : ConsistentHash)
    → IsAmong (settled h (add_nodes nodes m)) nodes ⊎ (settled h (add_nodes nodes m) ≡ settled h m)
unfolding add_nodes
settled-add_nodes h [] m = inr refl
settled-add_nodes h (node ∷ nodes) m =
    let ys = replica_positions m.hash node 0 m.replicas in
    elim (settled-add_nodes h nodes (add_positions node ys m)) [
      | inl among ↦ inl (inr among)
      | inr old ↦ rw old (elim (settled-add_positions h node ys m) [
        | inl new ↦ inl (inl new)
        | inr older ↦ inr older
      ])
    ]

hash-add_positions :
    (node : Bytes) (ys : List ℕ) (m : ConsistentHash) → (add_positions node ys m).hash ≡ m.hash
unfolding add_positions
hash-add_positions node [] m = refl
hash-add_positions node (y ∷ ys) m = hash-add_positions node ys (placed node y m)

hash-add_nodes : (nodes : List Bytes) (m : ConsistentHash) → (add_nodes nodes m).hash ≡ m.hash
unfolding add_nodes
hash-add_nodes [] m = refl
hash-add_nodes (node ∷ nodes) m =
    let ys = replica_positions m.hash node 0 m.replicas in
    hash-add_nodes nodes (add_positions node ys m) ∙ hash-add_positions node ys m

-- The positions are sorted after each addition.
pub add-IsSorted : (nodes : List Bytes) (m : ConsistentHash) → IsSorted (add nodes m).positions
unfolding add
add-IsSorted nodes m = sort_onto-IsSorted [] (add_nodes nodes m).positions tt

pub get-add-settled :
    (k : Bytes) (nodes : List Bytes) (m : ConsistentHash)
    → get k (add nodes m) ≡ settled (m.hash k) (add_nodes nodes m)
unfolding add settled
get-add-settled k nodes m =
    get-served k (add nodes m)
    ∙ ap (λ f. served (f k) (add nodes m).positions (add nodes m).hash_map) (hash-add_nodes nodes m)

get-settled :
    (k : Bytes) (m : ConsistentHash) → IsSorted m.positions → get k m ≡ settled (m.hash k) m
unfolding settled
get-settled k m s = rw (sort_sorted [] m.positions s) (get-served k m)

-- Nodes that are added to a ring take over keys, and no key moves between the nodes that were
-- there: a key is served by one of the new nodes or by the node that served it before. The positions
-- of the ring are sorted, as each addition leaves them.
pub get-add :
    (k : Bytes) (nodes : List Bytes) (m : ConsistentHash)
    → IsSorted m.positions
    → IsAmong (get k (add nodes m)) nodes ⊎ (get k (add nodes m) ≡ get k m)
get-add k nodes m s =
    rw (get-add-settled k nodes m) (rw (get-settled k m s) (settled-add_nodes (m.hash k) nodes m))
