-- ===== src/Instance/MetaTable.antt =====
-- The commands that inodes use, on the server of `RedisTable`.
use pdwfs.Base.{
  ◌≡◌, ◌≢◌, refl, ap, ◌∙◌, Bool, true, false, ◌||◌, List, [], ◌∷◌, arith, Bytes, if◌then◌else◌,
  bytes_eq, bytes_eq_iff,
}
use pdwfs.Tree.MetaRedis.{Metadata, has_name}
use pdwfs.Instance.RedisTable.{
  Entry, missing, text, ids, name_set, update, without_member, update_self, update-other,
  update-view, table_redis,
}

abbrev pub is_there : Entry → Bool
is_there missing = false
is_there (text v) = true
is_there (ids []) = false
is_there (ids (i ∷ l)) = true
is_there (name_set []) = false
is_there (name_set (n ∷ l)) = true

abbrev names_of : Entry → List Bytes
names_of missing = []
names_of (text v) = []
names_of (ids l) = []
names_of (name_set l) = l

-- SETNX of an entry.
abbrev first_value : Bytes → Entry → Entry
first_value v missing = text v
first_value v (text u) = text u
first_value v (ids []) = text v
first_value v (ids (i ∷ l)) = ids (i ∷ l)
first_value v (name_set []) = text v
first_value v (name_set (n ∷ l)) = name_set (n ∷ l)

-- The key of an inode's children is a set of names or missing.
abbrev with_name : Bytes → Entry → Entry
with_name n missing = name_set (n ∷ [])
with_name n (text v) = name_set (n ∷ [])
with_name n (ids l) = name_set (n ∷ [])
with_name n (name_set l) = name_set (n ∷ l)

abbrev other_names : Bytes → List Bytes → List Bytes
other_names n [] = []
other_names n (m ∷ ms) = if bytes_eq m n then other_names n ms else m ∷ other_names n ms

abbrev without_name : Bytes → Entry → Entry
without_name n missing = missing
without_name n (text v) = text v
without_name n (ids l) = ids l
without_name n (name_set l) = name_set (other_names n l)

pub is_there-first_value : (v : Bytes) (e : Entry) → is_there (first_value v e) ≡ true
is_there-first_value v missing = refl
is_there-first_value v (text u) = refl
is_there-first_value v (ids []) = refl
is_there-first_value v (ids (i ∷ l)) = refl
is_there-first_value v (name_set []) = refl
is_there-first_value v (name_set (n ∷ l)) = refl

pub names-first_value : (v : Bytes) (e : Entry) → names_of (first_value v e) ≡ names_of e
names-first_value v missing = refl
names-first_value v (text u) = refl
names-first_value v (ids []) = refl
names-first_value v (ids (i ∷ l)) = refl
names-first_value v (name_set []) = refl
names-first_value v (name_set (n ∷ l)) = refl

pub is_there-with_name : (n : Bytes) (e : Entry) → is_there (with_name n e) ≡ true
is_there-with_name n missing = refl
is_there-with_name n (text v) = refl
is_there-with_name n (ids l) = refl
is_there-with_name n (name_set l) = refl

pub is_there-names : (n : Bytes) (e : Entry) → has_name n (names_of e) ≡ true → is_there e ≡ true
is_there-names n missing h = cc
is_there-names n (text v) h = cc
is_there-names n (ids l) h = cc
is_there-names n (name_set []) h = cc
is_there-names n (name_set (m ∷ l)) h = refl

has_name-other_names :
    (n m : Bytes) (l : List Bytes) → n ≢ m → has_name m (other_names n l) ≡ has_name m l
has_name-other_names n m [] ne = refl
has_name-other_names n m (k ∷ l) ne =
    ground (arith, has_name-other_names n m l ne, bytes_eq_iff k n, bytes_eq_iff k m)

pub has_name-without_name :
    (n m : Bytes) (e : Entry)
    → n ≢ m
    → has_name m (names_of (without_name n e)) ≡ has_name m (names_of e)
has_name-without_name n m missing ne = refl
has_name-without_name n m (text v) ne = refl
has_name-without_name n m (ids l) ne = refl
has_name-without_name n m (name_set l) ne = has_name-other_names n m l ne

pub has_name-with_name :
    (n m : Bytes) (e : Entry)
    → has_name m (names_of (with_name n e)) ≡ (bytes_eq n m || has_name m (names_of e))
has_name-with_name n m missing = refl
has_name-with_name n m (text v) = refl
has_name-with_name n m (ids l) = refl
has_name-with_name n m (name_set l) = refl

instance abbrev pub table_metadata : Metadata
table_metadata = record {
  exists = λ k db. is_there (db k);
  setnx = λ k v db. update k (first_value v (db k)) db;
  add_name = λ k n db. update k (with_name n (db k)) db;
  remove_name = λ k n db. update k (without_name n (db k)) db;
  names = λ k db. names_of (db k);
  exists-setnx_self = λ k v db.
      ap is_there (update_self k (first_value v (db k)) db) ∙ is_there-first_value v (db k);
  exists-setnx = λ k j v db ne. ap is_there (update-other k j (first_value v (db k)) db ne);
  names-setnx =
      λ k j v db. update-view names_of k j (first_value v (db k)) db (names-first_value v (db k));
  exists-add_name_self =
      λ k n db. ap is_there (update_self k (with_name n (db k)) db) ∙ is_there-with_name n (db k);
  exists-add_name = λ k j n db ne. ap is_there (update-other k j (with_name n (db k)) db ne);
  names-add_name_self = λ k n m db.
      ap (λ e. has_name m (names_of e)) (update_self k (with_name n (db k)) db)
      ∙ has_name-with_name n m (db k);
  names-add_name = λ k j n db ne. ap names_of (update-other k j (with_name n (db k)) db ne);
  exists-remove_name = λ k j n db ne. ap is_there (update-other k j (without_name n (db k)) db ne);
  exists-names = λ k n db h. is_there-names n (db k) h;
  names-remove_name_self = λ k n m db ne.
      ap (λ e. has_name m (names_of e)) (update_self k (without_name n (db k)) db)
      ∙ has_name-without_name n m (db k) ne;
  names-remove_name = λ k j n db ne. ap names_of (update-other k j (without_name n (db k)) db ne);
  exists-unlink_self = λ k db. ap is_there (update_self k missing db);
  exists-unlink = λ k j db ne. ap is_there (update-other k j missing db ne);
  names-unlink = λ k j db ne. ap names_of (update-other k j missing db ne);
  names-srem = λ k j i db ne. ap names_of (update-other k j (without_member i (db k)) db ne);
  exists-srem = λ k j i db ne. ap is_there (update-other k j (without_member i (db k)) db ne);
}
