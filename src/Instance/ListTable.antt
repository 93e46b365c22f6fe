-- ===== src/Instance/ListTable.antt =====
-- A `GHashTable` that holds a set of keys, as a list of keys.
use pdwfs.Base.{
  ◌≡◌, refl, subst, ◌≢◌, ◌↔◌, Bool, true, false, ◌||◌, List, [], ◌∷◌, arith, if◌then◌else◌,
  Bool-cases, inl, inr,
}
use pdwfs.Machine.Host.{Table, IsIn, IsDistinct}

module _ {K : Type 0} (eq : K → K → Bool) (eq_iff : (a b : K) → (eq a b ≡ true) ↔ (a ≡ b)) where
  abbrev pub any : (K → Bool) → List K → Bool
  any p [] = false
  any p (k ∷ ks) = p k || any p ks

  abbrev pub remove : K → List K → List K
  remove k [] = []
  remove k (j ∷ ks) = if eq j k then remove k ks else j ∷ remove k ks

  abbrev pub has : K → List K → Bool
  has k = any (λ j. eq j k)

  abbrev pub insert : K → List K → List K
  insert k ks = if has k ks then ks else k ∷ ks

  eq_self : (k : K) → eq k k ≡ true
  eq_self k = (eq_iff k k).1 refl

  pub has-insert_self : (k : K) (ks : List K) → has k (insert k ks) ≡ true
  has-insert_self k ks = elim (Bool-cases (has k ks)) [ inl e ↦ rw e e | inr e ↦ rw (e, eq_self k) ]

  pub has-insert_ne : (k j : K) (ks : List K) → j ≢ k → has j (insert k ks) ≡ has j ks
  has-insert_ne k j ks ne = ground (arith, eq_iff k j)

  pub has-remove_self : (k : K) (ks : List K) → has k (remove k ks) ≡ false
  has-remove_self k [] = refl
  has-remove_self k (j ∷ ks) = ground (arith, has-remove_self k ks)

  pub has-remove_ne : (k j : K) (ks : List K) → j ≢ k → has j (remove k ks) ≡ has j ks
  has-remove_ne k j [] ne = refl
  has-remove_ne k j (i ∷ ks) ne = ground (arith, has-remove_ne k j ks ne, eq_iff i j, eq_iff i k)

  pub any-true :
      (p : K → Bool) (ks : List K) → any p ks ≡ true → (k : K) × (has k ks ≡ true) × (p k ≡ true)
  any-true p [] e = cc
  any-true p (k ∷ ks) e = elim (Bool-cases (p k)) [
    | inl h ↦ (k, rw (eq_self k), h)
    | inr h ↦ let (j, i, f) = any-true p ks (ground arith) in (j, ground arith, f)
  ]

  pub any_mem :
      (p : K → Bool) (ks : List K) (k : K) → has k ks ≡ true → p k ≡ true → any p ks ≡ true
  any_mem p [] k h f = cc
  any_mem p (j ∷ ks) k h f = ground (arith, any_mem p ks k, eq_iff j k)

  -- The keys of a list, without those that come again.
  abbrev pub each : List K → List K
  each [] = []
  each (k ∷ ks) = if has k ks then each ks else k ∷ each ks

  pub each-has : (k : K) (ks : List K) → IsIn k (each ks) → has k ks ≡ true
  each-has k [] m = elim m [ ]
  each-has k (j ∷ ks) m = elim (Bool-cases (has j ks)) [
    | inl again ↦
        let rest =
          each-has k ks (subst (λ b. IsIn k (if b then each ks else j ∷ each ks)) again m) in
        ground arith
    | inr once ↦ elim (subst (λ b. IsIn k (if b then each ks else j ∷ each ks)) once m) [
      | inl same ↦ ground (arith, eq_iff j k)
      | inr later ↦ let rest = each-has k ks later in ground arith
    ]
  ]

  pub has-each : (k : K) (ks : List K) → has k ks ≡ true → IsIn k (each ks)
  has-each k [] h = cc
  has-each k (j ∷ ks) h = elim (Bool-cases (has j ks)) [
    | inl again ↦ rw again (elim (Bool-cases (eq j k)) [
      | inl same ↦ has-each k ks (subst (λ i. has i ks ≡ true) ((eq_iff j k).0 same) again)
      | inr other ↦ has-each k ks (ground arith)
    ])
    | inr once ↦ rw once (elim (Bool-cases (eq j k)) [
      | inl same ↦ inl ((eq_iff j k).0 same)
      | inr other ↦ inr (has-each k ks (ground arith))
    ])
  ]

  pub each-IsDistinct : (ks : List K) → IsDistinct (each ks)
  each-IsDistinct [] = tt
  each-IsDistinct (k ∷ ks) = elim (Bool-cases (has k ks)) [
    | inl again ↦ rw again (each-IsDistinct ks)
    | inr once ↦ rw once ((λ m. let there = each-has k ks m in cc), each-IsDistinct ks)
  ]

  abbrev pub list_table : Table K
  list_table = record {
    T = List K;
    new = [];
    insert = insert;
    remove = remove;
    contains = has;
    find = any;
    keys = each;
    contains-new = λ k. refl;
    contains-insert_self = has-insert_self;
    contains-insert_ne = has-insert_ne;
    contains-remove_self = has-remove_self;
    contains-remove_ne = has-remove_ne;
    keys_contains = each-has;
    contains_keys = has-each;
    keys-IsDistinct = each-IsDistinct;
    find_true = any-true;
    find_mem = any_mem;
  }
