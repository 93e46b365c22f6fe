-- ===== src/Instance/RedisTable.antt =====
-- A Redis server as a function from keys, with which the laws of the parameter hold.
use pdwfs.Base.{
  ℕ, suc, ◌+◌, ◌-◌, ◌≤◌, ◌≡◌, ◌≢◌, refl, ap, ◌∙◌, ◌||◌, ◌&&◌, not, Option, none, some, List, [],
  ◌∷◌, ◌++◌, arith, Bytes, length, take, drop, leb, if◌then◌else◌, bytes_eq, bytes_eq_iff,
  Bool-cases, inl, inr,
}
use pdwfs.Base.Int.{ℤ, pos, negsuc, ◌==ℤ◌, ==ℤ_iff}
use pdwfs.Store.Redis.{Redis, overwrite, text_or_empty, contains}

-- What a key holds: a set has numbers or names. An empty set is like no set, and a command of the
-- store finds a set of names empty: the keys of stripes and of inodes differ.
pub data Entry : Type 0 where
  missing : Entry
  text : Bytes → Entry
  ids : List ℤ → Entry
  name_set : List Bytes → Entry

abbrev pub Table : Type 0
Table = Bytes → Entry

abbrev pub update : Bytes → Entry → Table → Table
update k e db j = if bytes_eq k j then e else db j

abbrev text_of : Entry → Option Bytes
text_of missing = none
text_of (text v) = some v
text_of (ids l) = none
text_of (name_set l) = none

abbrev ids_of : Entry → List ℤ
ids_of missing = []
ids_of (text v) = []
ids_of (ids l) = l
ids_of (name_set l) = []

abbrev with_member : ℤ → Entry → Entry
with_member i missing = ids (i ∷ [])
with_member i (text v) = text v
with_member i (ids l) = ids (i ∷ l)
with_member i (name_set l) = ids (i ∷ [])

abbrev without : ℤ → List ℤ → List ℤ
without i [] = []
without i (j ∷ js) = if j ==ℤ i then without i js else j ∷ without i js

abbrev pub without_member : ℤ → Entry → Entry
without_member i missing = missing
without_member i (text v) = text v
without_member i (ids l) = ids (without i l)
without_member i (name_set l) = name_set l

abbrev pub spliced : ℕ → Bytes → Entry → Entry
spliced o d missing = text (overwrite o d [])
spliced o d (text v) = text (overwrite o d v)
spliced o d (ids []) = text (overwrite o d [])
spliced o d (ids (i ∷ l)) = ids (i ∷ l)
spliced o d (name_set l) = text (overwrite o d [])

abbrev table_setrange : Bytes → ℤ → Bytes → Table → Table
table_setrange k (pos o) [] db = db
table_setrange k (pos o) (b ∷ d) db = update k (spliced o (b ∷ d) (db k)) db
table_setrange k (negsuc o) d db = db

abbrev part_of : ℤ → ℤ → Bytes → Bytes
part_of (pos lo) (pos hi) v = take (suc hi - lo) (drop lo v)
part_of (pos lo) (negsuc hi) v = take (length v - hi - lo) (drop lo v)
part_of (negsuc lo) hi v = v

abbrev table_read : Bytes → Bytes → Option (Bytes × ℕ)
table_read reply [] = some ([], length reply)
table_read reply (b ∷ buf) =
    if leb (length reply) (length (b ∷ buf))
    then some (reply ++ drop (length reply) (b ∷ buf), length reply)
    else none

pub update_self : (k : Bytes) (e : Entry) (db : Table) → update k e db k ≡ e
update_self k e db = rw ((bytes_eq_iff k k).1 refl) refl

pub update-other : (k j : Bytes) (e : Entry) (db : Table) → k ≢ j → update k e db j ≡ db j
update-other k j e db ne = elim (Bool-cases (bytes_eq k j)) [
  | inl same ↦ absurd (ne ((bytes_eq_iff k j).0 same))
  | inr other ↦ rw other refl
]

-- What an entry is after a change that keeps a view of it.
pub update-view {ℓ} :
    {A : Type ℓ} (view : Entry → A) (k j : Bytes) (e : Entry) (db : Table)
    → view e ≡ view (db k)
    → view (update k e db j) ≡ view (db j)
update-view view k j e db same = elim (Bool-cases (bytes_eq k j)) [
  | inl eq ↦ rw eq (same ∙ ap (λ i. view (db i)) ((bytes_eq_iff k j).0 eq))
  | inr other ↦ rw other refl
]

pub text-with_member : (i : ℤ) (e : Entry) → text_of (with_member i e) ≡ text_of e
text-with_member i missing = refl
text-with_member i (text v) = refl
text-with_member i (ids l) = refl
text-with_member i (name_set l) = refl

ids-with_member :
    (i j : ℤ) (e : Entry)
    → text_of e ≡ none
    → contains j (ids_of (with_member i e)) ≡ ((i ==ℤ j) || contains j (ids_of e))
ids-with_member i j missing h = refl
ids-with_member i j (text v) h = cc
ids-with_member i j (ids l) h = refl
ids-with_member i j (name_set l) h = refl

ids-spliced : (o : ℕ) (d : Bytes) (e : Entry) → ids_of (spliced o d e) ≡ ids_of e
ids-spliced o d missing = refl
ids-spliced o d (text v) = refl
ids-spliced o d (ids []) = refl
ids-spliced o d (ids (i ∷ l)) = refl
ids-spliced o d (name_set l) = refl

text-spliced :
    (o : ℕ) (d : Bytes) (e : Entry)
    → ids_of e ≡ []
    → text_of (spliced o d e) ≡ some (overwrite o d (text_or_empty (text_of e)))
text-spliced o d missing h = refl
text-spliced o d (text v) h = refl
text-spliced o d (ids []) h = refl
text-spliced o d (ids (i ∷ l)) h = cc
text-spliced o d (name_set l) h = refl

pub ids-setrange :
    (k j : Bytes) (o : ℤ) (d : Bytes) (db : Table)
    → ids_of (table_setrange k o d db j) ≡ ids_of (db j)
ids-setrange k j (pos o) [] db = refl
ids-setrange k j (pos o) (b ∷ d) db =
    update-view ids_of k j (spliced o (b ∷ d) (db k)) db (ids-spliced o (b ∷ d) (db k))
ids-setrange k j (negsuc o) d db = refl

pub text-setrange :
    (k j : Bytes) (o : ℤ) (d : Bytes) (db : Table)
    → k ≢ j
    → text_of (table_setrange k o d db j) ≡ text_of (db j)
text-setrange k j (pos o) [] db ne = refl
text-setrange k j (pos o) (b ∷ d) db ne =
    ap text_of (update-other k j (spliced o (b ∷ d) (db k)) db ne)
text-setrange k j (negsuc o) d db ne = refl

pub text-setrange_self :
    (k : Bytes) (o b : ℕ) (d : Bytes) (db : Table)
    → ids_of (db k) ≡ []
    → text_of (table_setrange k (pos o) (b ∷ d) db k)
      ≡ some (overwrite o (b ∷ d) (text_or_empty (text_of (db k))))
text-setrange_self k o b d db h =
    ap text_of (update_self k (spliced o (b ∷ d) (db k)) db) ∙ text-spliced o (b ∷ d) (db k) h

pub ids-sadd_self :
    (k : Bytes) (i j : ℤ) (db : Table)
    → text_of (db k) ≡ none
    → contains j (ids_of (update k (with_member i (db k)) db k))
      ≡ ((i ==ℤ j) || contains j (ids_of (db k)))
ids-sadd_self k i j db h =
    ap (λ e. contains j (ids_of e)) (update_self k (with_member i (db k)) db)
    ∙ ids-with_member i j (db k) h

pub part_of-range :
    (lo n : ℕ) (v : Bytes) → part_of (pos lo) (pos (lo + n)) v ≡ take (suc n) (drop lo v)
part_of-range lo n v = let count : suc (lo + n) - lo ≡ suc n = omega arith in rw count refl

pub part_of-all : (v : Bytes) → part_of (pos 0) (negsuc 0) v ≡ v
part_of-all v = let count : length v - 0 - 0 ≡ length v = omega arith in rw count (take_all v)
  where
    take_all : (v : Bytes) → take (length v) v ≡ v
    take_all [] = refl
    take_all (b ∷ v) = ap (λ t. b ∷ t) (take_all v)

pub table_read-fits :
    (reply buf : Bytes)
    → length reply ≤ length buf
    → table_read reply buf ≡ some (reply ++ drop (length reply) buf, length reply)
table_read-fits [] [] h = refl
table_read-fits (c ∷ reply) [] h = absurd (omega arith)
table_read-fits reply (b ∷ buf) h = ground arith

contains-without :
    (i j : ℤ) (l : List ℤ) → contains j (without i l) ≡ (not (i ==ℤ j) && contains j l)
contains-without i j [] = ground arith
contains-without i j (k ∷ l) =
    ground (arith, contains-without i j l, ==ℤ_iff k i, ==ℤ_iff i j, ==ℤ_iff k j)

pub text-without_member : (i : ℤ) (e : Entry) → text_of (without_member i e) ≡ text_of e
text-without_member i missing = refl
text-without_member i (text v) = refl
text-without_member i (ids l) = refl
text-without_member i (name_set l) = refl

ids-without_member :
    (i j : ℤ) (e : Entry)
    → contains j (ids_of (without_member i e)) ≡ (not (i ==ℤ j) && contains j (ids_of e))
ids-without_member i j missing = ground arith
ids-without_member i j (text v) = ground arith
ids-without_member i j (ids l) = contains-without i j l
ids-without_member i j (name_set l) = ground arith

pub ids-srem_self :
    (k : Bytes) (i j : ℤ) (db : Table)
    → contains j (ids_of (update k (without_member i (db k)) db k))
      ≡ (not (i ==ℤ j) && contains j (ids_of (db k)))
ids-srem_self k i j db =
    ap (λ e. contains j (ids_of e)) (update_self k (without_member i (db k)) db)
    ∙ ids-without_member i j (db k)

instance abbrev pub table_redis : Redis
table_redis = record {
  Db = Table;
  get = λ k db. text_of (db k);
  getrange = λ k lo hi db. part_of lo hi (text_or_empty (text_of (db k)));
  strlen = λ k db. length (text_or_empty (text_of (db k)));
  smembers = λ k db. ids_of (db k);
  set = λ k v db. update k (text v) db;
  setrange = table_setrange;
  sadd = λ k i db. update k (with_member i (db k)) db;
  srem = λ k i db. update k (without_member i (db k)) db;
  unlink = λ k db. update k missing db;
  get-set_self = λ k v db. ap text_of (update_self k (text v) db);
  get-set = λ k j v db ne. ap text_of (update-other k j (text v) db ne);
  smembers-set = λ k j v db ne. ap ids_of (update-other k j (text v) db ne);
  smembers-set_self = λ k v db. ap ids_of (update_self k (text v) db);
  get-setrange_self = text-setrange_self;
  get-setrange = text-setrange;
  smembers-setrange = ids-setrange;
  setrange-nil = λ k o db. refl;
  get-sadd =
      λ k j i db. update-view text_of k j (with_member i (db k)) db (text-with_member i (db k));
  smembers-sadd_self = ids-sadd_self;
  smembers-sadd = λ k j i db ne. ap ids_of (update-other k j (with_member i (db k)) db ne);
  get-srem = λ k j i db.
      update-view text_of k j (without_member i (db k)) db (text-without_member i (db k));
  smembers-srem_self = ids-srem_self;
  smembers-srem = λ k j i db ne. ap ids_of (update-other k j (without_member i (db k)) db ne);
  get-unlink_self = λ k db. ap text_of (update_self k missing db);
  get-unlink = λ k j db ne. ap text_of (update-other k j missing db ne);
  smembers-unlink_self = λ k db. ap ids_of (update_self k missing db);
  smembers-unlink = λ k j db ne. ap ids_of (update-other k j missing db ne);
  getrange_lem = λ k lo n db. part_of-range lo n (text_or_empty (text_of (db k)));
  getrange_all = λ k db. part_of-all (text_or_empty (text_of (db k)));
  strlen_lem = λ k db. refl;
  read_into = table_read;
  read_into_fits = table_read-fits;
  read_into_nil = λ reply. refl;
}

-- Instances without data.
abbrev pub no_data : Bytes → Table
no_data c k = missing
