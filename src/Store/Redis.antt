-- ===== src/Store/Redis.antt =====
-- The Redis server: its commands are an argument of the model, with the documented behaviour that
-- the store relies on.
use pdwfs.Base.{
  ℕ, zero, suc, ◌+◌, ◌++◌, ◌≡◌, ◌≢◌, Bool, false, ◌||◌, ◌&&◌, not, Option, none, some, List, [],
  ◌∷◌, Bytes, length, take, drop, ◌≤◌,
}
use pdwfs.Base.Int.{ℤ, pos, negsuc, ◌==ℤ◌}

-- Bytes written over the first bytes of a value.
abbrev pub over : Bytes → Bytes → Bytes
over [] v = v
over (b ∷ d) [] = b ∷ d
over (b ∷ d) (c ∷ v) = b ∷ over d v

-- Bytes written over a value from an offset on, after zero bytes where the value was shorter.
abbrev pub overwrite : ℕ → Bytes → Bytes → Bytes
overwrite zero d v = over d v
overwrite (suc o) d [] = 0 ∷ overwrite o d []
overwrite (suc o) d (c ∷ v) = c ∷ overwrite o d v

-- A missing key is read as the empty string.
abbrev pub text_or_empty : Option Bytes → Bytes
text_or_empty none = []
text_or_empty (some v) = v

abbrev pub contains : ℤ → List ℤ → Bool
contains i [] = false
contains i (j ∷ js) = (j ==ℤ i) || contains i js

-- The data of one instance, and its commands. A command on a key of the wrong type fails and leaves
-- the data as they are; its error is in the reply of a transaction, where the store does not look.
pub record Redis : Type 1 where
  pub Db : Type 0
  pub get : Bytes → Db → Option Bytes
  pub getrange : Bytes → ℤ → ℤ → Db → Bytes
  pub strlen : Bytes → Db → ℕ
  pub smembers : Bytes → Db → List ℤ
  pub set : Bytes → Bytes → Db → Db
  pub setrange : Bytes → ℤ → Bytes → Db → Db
  pub sadd : Bytes → ℤ → Db → Db
  pub srem : Bytes → ℤ → Db → Db
  pub unlink : Bytes → Db → Db
  -- SET
  pub get-set_self : (k v : Bytes) (db : Db) → get k (set k v db) ≡ some v
  pub get-set : (k j v : Bytes) (db : Db) → k ≢ j → get j (set k v db) ≡ get j db
  pub smembers-set : (k j v : Bytes) (db : Db) → k ≢ j → smembers j (set k v db) ≡ smembers j db
  pub smembers-set_self : (k v : Bytes) (db : Db) → smembers k (set k v db) ≡ []
  -- SETRANGE
  pub get-setrange_self :
      (k : Bytes) (o b : ℕ) (d : Bytes) (db : Db)
      → smembers k db ≡ []
      → get k (setrange k (pos o) (b ∷ d) db)
        ≡ some (overwrite o (b ∷ d) (text_or_empty (get k db)))
  pub get-setrange :
      (k j : Bytes) (o : ℤ) (d : Bytes) (db : Db) → k ≢ j → get j (setrange k o d db) ≡ get j db
  pub smembers-setrange :
      (k j : Bytes) (o : ℤ) (d : Bytes) (db : Db) → smembers j (setrange k o d db) ≡ smembers j db
  pub setrange-nil : (k : Bytes) (o : ℕ) (db : Db) → setrange k (pos o) [] db ≡ db
  -- SADD and SREM
  pub get-sadd : (k j : Bytes) (i : ℤ) (db : Db) → get j (sadd k i db) ≡ get j db
  pub smembers-sadd_self :
      (k : Bytes) (i j : ℤ) (db : Db)
      → get k db ≡ none
      → contains j (smembers k (sadd k i db)) ≡ ((i ==ℤ j) || contains j (smembers k db))
  pub smembers-sadd :
      (k j : Bytes) (i : ℤ) (db : Db) → k ≢ j → smembers j (sadd k i db) ≡ smembers j db
  pub get-srem : (k j : Bytes) (i : ℤ) (db : Db) → get j (srem k i db) ≡ get j db
  pub smembers-srem_self :
      (k : Bytes) (i j : ℤ) (db : Db)
      → contains j (smembers k (srem k i db)) ≡ (not (i ==ℤ j) && contains j (smembers k db))
  pub smembers-srem :
      (k j : Bytes) (i : ℤ) (db : Db) → k ≢ j → smembers j (srem k i db) ≡ smembers j db
  -- UNLINK
  pub get-unlink_self : (k : Bytes) (db : Db) → get k (unlink k db) ≡ none
  pub get-unlink : (k j : Bytes) (db : Db) → k ≢ j → get j (unlink k db) ≡ get j db
  pub smembers-unlink_self : (k : Bytes) (db : Db) → smembers k (unlink k db) ≡ []
  pub smembers-unlink : (k j : Bytes) (db : Db) → k ≢ j → smembers j (unlink k db) ≡ smembers j db
  -- GETRANGE and STRLEN
  pub getrange_lem :
      (k : Bytes) (lo n : ℕ) (db : Db)
      → getrange k (pos lo) (pos (lo + n)) db ≡ take (suc n) (drop lo (text_or_empty (get k db)))
  pub getrange_all :
      (k : Bytes) (db : Db) → getrange k (pos 0) (negsuc 0) db ≡ text_or_empty (get k db)
  pub strlen_lem : (k : Bytes) (db : Db) → strlen k db ≡ length (text_or_empty (get k db))
  -- A reply read into a buffer: its new bytes and the length of the reply. `none` is a panic, where
  -- the buffer is too short. With an empty buffer the client reads into one of its own.
  pub read_into : Bytes → Bytes → Option (Bytes × ℕ)
  pub read_into_fits :
      (reply buf : Bytes)
      → length reply ≤ length buf
      → read_into reply buf ≡ some (reply ++ drop (length reply) buf, length reply)
  pub read_into_nil : (reply : Bytes) → read_into reply [] ≡ some ([], length reply)
