-- ===== src/Store/Resize/Tasks.antt =====
-- store.go, `removeStripe` and `trimStripe`: what they leave of a stripe and of the sets.
use native.Mathlib.Nat.{zero-add}
use pdwfs.Base.{
  ℕ, suc, ◌≡◌, ◌≢◌, refl, sym, ap, ◌∙◌, false, ◌&&◌, not, [], Bytes, take, bytes_eq, Bool-cases,
  inl, inr,
}
use pdwfs.Base.Int.{ℤ, pos, ◌==ℤ◌, ==ℤ_iff}
use pdwfs.Store.Keys.{key, stripes_key, key-inj, key-ne-stripes_key}
use pdwfs.Store.Redis.{Redis, contains, text_or_empty}
use pdwfs.Store.Commands.{stripe_text, at_client_self}
use pdwfs.Store.Contents.{differ}
use pdwfs.Store.DataStore.{DataStore, Instances, at_client, client_of, remove_stripe, trim_stripe}
use pdwfs.Store.Size.Extent.{listed}

module _ ⦃rs : Redis⦄ (s : DataStore) (name : Bytes) where
  -- What commands keep of a client's data, they keep of all clients' data.
  view-at_client {ℓ} :
      {A : Type ℓ} (view : rs.Db → A) (c d : Bytes) (f : rs.Db → rs.Db) (st : Instances)
      → view (f (st d)) ≡ view (st d)
      → view (at_client c f st d) ≡ view (st d)
  view-at_client view c d f st same = elim (Bool-cases (bytes_eq c d)) [
    | inl here ↦ rw here same
    | inr elsewhere ↦ rw elsewhere refl
  ]

  ne_key : (id j : ℤ) → (id ==ℤ j) ≡ false → key name id ≢ key name j
  ne_key id j other e = differ id j other (key-inj name id j e)

  ne_set : (id : ℤ) → stripes_key name ≢ key name id
  ne_set id e = key-ne-stripes_key name id (sym e)

  module _ (id : ℤ) (st : Instances) where
    pub text-remove_self : stripe_text s name (remove_stripe s name id st) id ≡ []
    unfolding remove_stripe stripe_text
    text-remove_self =
        let cmds = λ (db : rs.Db). rs.unlink (key name id) (rs.srem (stripes_key name) id db) in
        rw (at_client_self (client_of s name id) cmds st) (
          ap text_or_empty (
            rs.get-unlink_self (key name id)
              (rs.srem (stripes_key name) id (st (client_of s name id)))))

    pub text-remove :
        (j : ℤ)
        → (id ==ℤ j) ≡ false
        → stripe_text s name (remove_stripe s name id st) j ≡ stripe_text s name st j
    unfolding remove_stripe stripe_text
    text-remove j other =
        view-at_client (λ db. text_or_empty (rs.get (key name j) db)) (client_of s name id)
          (client_of s name j) (λ db. rs.unlink (key name id) (rs.srem (stripes_key name) id db)) st
          (ap text_or_empty (
            rs.get-unlink (key name id) (key name j) _ (ne_key id j other)
            ∙ rs.get-srem (stripes_key name) (key name j) id (st (client_of s name j))))

    pub listed-remove :
        (c : Bytes) (j : ℤ)
        → listed s name (remove_stripe s name id st) c j
          ≡ (not (bytes_eq (client_of s name id) c && (id ==ℤ j)) && listed s name st c j)
    unfolding remove_stripe
    listed-remove c j = elim (Bool-cases (bytes_eq (client_of s name id) c)) [
      | inl here ↦ rw here (
          ap (contains j)
            (rs.smembers-unlink (key name id) (stripes_key name) _ (key-ne-stripes_key name id))
          ∙ rs.smembers-srem_self (stripes_key name) id j (st c))
      | inr elsewhere ↦ rw elsewhere refl
    ]

    pub free-remove :
        (c : Bytes)
        → rs.get (stripes_key name) (remove_stripe s name id st c)
          ≡ rs.get (stripes_key name) (st c)
    unfolding remove_stripe
    free-remove c =
        view-at_client (rs.get (stripes_key name)) (client_of s name id) c
          (λ db. rs.unlink (key name id) (rs.srem (stripes_key name) id db)) st
          (rs.get-unlink (key name id) (stripes_key name) _ (key-ne-stripes_key name id)
            ∙ rs.get-srem (stripes_key name) (stripes_key name) id (st c))

    -- The keys of stripes stay free of sets.
    pub texts-remove :
        (j : ℤ)
        → rs.smembers (key name j) (st (client_of s name j)) ≡ []
        → rs.smembers (key name j) (remove_stripe s name id st (client_of s name j)) ≡ []
    unfolding remove_stripe
    texts-remove j h = elim (Bool-cases (bytes_eq (client_of s name id) (client_of s name j))) [
      | inl here ↦ rw here (elim (Bool-cases (id ==ℤ j)) [
        | inl same ↦ rw ((==ℤ_iff id j).0 same) (
            rs.smembers-unlink_self (key name j)
              (rs.srem (stripes_key name) j (st (client_of s name j))))
        | inr other ↦
            rs.smembers-unlink (key name id) (key name j) _ (ne_key id j other)
            ∙ rs.smembers-srem (stripes_key name) (key name j) id (st (client_of s name j))
                (ne_set j)
            ∙ h
      ])
      | inr elsewhere ↦ rw elsewhere h
    ]

  module _ (id : ℤ) (n : ℕ) (st : Instances) where
    abbrev cut : rs.Db → rs.Db
    cut db = rs.set (key name id) (rs.getrange (key name id) (pos 0) (pos n) db) db

    pub text-trim_self :
        stripe_text s name (trim_stripe s name id (suc n) st) id
        ≡ take (suc n) (stripe_text s name st id)
    unfolding trim_stripe stripe_text
    text-trim_self =
        let db = st (client_of s name id) in
        rw (at_client_self (client_of s name id) cut st) (
          ap text_or_empty
            (rs.get-set_self (key name id) (rs.getrange (key name id) (pos 0) (pos n) db) db)
          ∙ ap (λ m. rs.getrange (key name id) (pos 0) (pos m) db) (sym (zero-add n))
          ∙ rs.getrange_lem (key name id) 0 n db)

    pub text-trim :
        (j : ℤ)
        → (id ==ℤ j) ≡ false
        → stripe_text s name (trim_stripe s name id (suc n) st) j ≡ stripe_text s name st j
    unfolding trim_stripe stripe_text
    text-trim j other =
        view-at_client (λ db. text_or_empty (rs.get (key name j) db)) (client_of s name id)
          (client_of s name j) cut st
          (ap text_or_empty (rs.get-set (key name id) (key name j) _ _ (ne_key id j other)))

    pub listed-trim :
        (c : Bytes) (j : ℤ)
        → listed s name (trim_stripe s name id (suc n) st) c j ≡ listed s name st c j
    unfolding trim_stripe
    listed-trim c j =
        view-at_client (λ db. contains j (rs.smembers (stripes_key name) db)) (client_of s name id)
          c cut st
          (ap (contains j)
            (rs.smembers-set (key name id) (stripes_key name) _ _ (key-ne-stripes_key name id)))

    pub free-trim :
        (c : Bytes)
        → rs.get (stripes_key name) (trim_stripe s name id (suc n) st c)
          ≡ rs.get (stripes_key name) (st c)
    unfolding trim_stripe
    free-trim c =
        view-at_client (rs.get (stripes_key name)) (client_of s name id) c cut st
          (rs.get-set (key name id) (stripes_key name) _ _ (key-ne-stripes_key name id))

    pub texts-trim :
        (j : ℤ)
        → rs.smembers (key name j) (st (client_of s name j)) ≡ []
        → rs.smembers (key name j) (trim_stripe s name id (suc n) st (client_of s name j)) ≡ []
    unfolding trim_stripe
    texts-trim j h = elim (Bool-cases (bytes_eq (client_of s name id) (client_of s name j))) [
      | inl here ↦ rw here (elim (Bool-cases (id ==ℤ j)) [
        | inl same ↦ rw ((==ℤ_iff id j).0 same) (rs.smembers-set_self (key name j) _ _)
        | inr other ↦ rs.smembers-set (key name id) (key name j) _ _ (ne_key id j other) ∙ h
      ])
      | inr elsewhere ↦ rw elsewhere h
    ]
