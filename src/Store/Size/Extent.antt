-- ===== src/Store/Size/Extent.antt =====
-- store.go, `writeStripe`: what a transaction leaves of the bounds of a file.
use pdwfs.Base.{
  ℕ, ◌+◌, ◌*◌, ◌≤◌, ◌<◌, ◌≡◌, ◌⊎◌, refl, sym, ap, ◌∙◌, subst, Bool, true, false, ◌&&◌, ◌||◌, none,
  ◌∷◌, arith, Bytes, length, Bool-cases, inl, inr, bytes_eq, bytes_eq_iff,
}
use pdwfs.Base.Int.{ℤ, pos, ◌==ℤ◌, ==ℤ_iff}
use pdwfs.Store.Keys.{stripes_key}
use pdwfs.Store.Redis.{Redis, contains, text_or_empty}
use pdwfs.Store.Stripes.{Stripe, blank}
use pdwfs.Store.Bytes.{larger}
use pdwfs.Store.Commands.{stripe_text, at_client_self, part}
use pdwfs.Store.Contents.{HoldsText, Kept, other-Kept, blank-Kept, write_part-HoldsText}
use pdwfs.Store.DataStore.{DataStore, Instances, client_of, write_commands, write_stripe}
use pdwfs.Store.Size.Names.{free-write_commands, contains-write_commands, length-write_commands}

or_true : (a : Bool) → (a || true) ≡ true
or_true true = refl
or_true false = refl

module _ ⦃rs : Redis⦄ (s : DataStore) (name : Bytes) where
  -- The length of a stripe.
  abbrev pub text_length : Instances → ℕ → ℕ
  text_length st i = length (stripe_text s name st (pos i))

  -- Whether the set of an instance has a stripe.
  abbrev pub listed : Instances → Bytes → ℤ → Bool
  listed st c j = contains j (rs.smembers (stripes_key name) (st c))

  -- No stripe is longer than the size of one or ends after the first `n` bytes. The sets have only
  -- stripes that begin before that, each in the set of its instance, and all that have bytes.
  pub record IsWithin (n : ℕ) (st : Instances) : Type 0 where
    pub texts : HoldsText s name st
    pub free : (c : Bytes) → rs.get (stripes_key name) (st c) ≡ none
    pub full : (i : ℕ) → text_length st i ≤ s.stripe_size
    pub below : (i : ℕ) → (text_length st i ≡ 0) ⊎ (i * s.stripe_size + text_length st i ≤ n)
    pub sets :
        (c : Bytes) (j : ℤ) → listed st c j ≡ true → (i : ℕ) × (j ≡ pos i) × (i * s.stripe_size < n)
    pub home : (c : Bytes) (j : ℤ) → listed st c j ≡ true → client_of s name j ≡ c
    pub present :
        (i : ℕ) → 0 < text_length st i → listed st (client_of s name (pos i)) (pos i) ≡ true

  -- A stripe that is in its instance's set ends with the first `n` bytes.
  abbrev pub EndsAt : ℕ → Instances → Type 0
  EndsAt n st =
      (i : ℕ) × (0 < text_length st i)
      × (i * s.stripe_size + text_length st i ≡ n)
      × (listed st (client_of s name (pos i)) (pos i) ≡ true)

  listed-write :
      (x : Stripe) (st : Instances) (c : Bytes) (j : ℤ)
      → rs.get (stripes_key name) (st c) ≡ none
      → listed (write_stripe s name x st) c j
        ≡ ((bytes_eq (client_of s name x.id) c && (x.id ==ℤ j)) || listed st c j)
  unfolding write_stripe
  listed-write x st c j free = elim (Bool-cases (bytes_eq (client_of s name x.id) c)) [
    | inl here ↦ rw here (contains-write_commands s name x (st c) free j)
    | inr elsewhere ↦ rw elsewhere refl
  ]

  free-write :
      (x : Stripe) (st : Instances) (c : Bytes)
      → rs.get (stripes_key name) (st c) ≡ none
      → rs.get (stripes_key name) (write_stripe s name x st c) ≡ none
  unfolding write_stripe
  free-write x st c free = elim (Bool-cases (bytes_eq (client_of s name x.id) c)) [
    | inl here ↦ rw here (free-write_commands s name x (st c) free)
    | inr elsewhere ↦ rw elsewhere free
  ]

  pub length-write_self :
      (q o b : ℕ) (c : Bytes) (st : Instances)
      → HoldsText s name st
      → text_length st q ≤ s.stripe_size
      → text_length (write_stripe s name (part (pos q) o b c) st) q
        ≡ larger (text_length st q) (o + length (b ∷ c))
  unfolding write_stripe stripe_text
  length-write_self q o b c st h k =
      let id = pos q in
      rw (at_client_self (client_of s name id) (write_commands s name (part id o b c)) st)
        (length-write_commands s name id o b c (st (client_of s name id)) (h id) k)

  pub length-Kept :
      (x : Stripe) (i : ℕ) (st : Instances)
      → Kept s name x (pos i) st
      → text_length (write_stripe s name x st) i ≡ text_length st i
  unfolding stripe_text
  length-Kept x i st kept = ap (λ t. length (text_or_empty t)) kept.0

  -- A statement about every stripe, from the one that is written and the others.
  by_stripe :
      (q : ℕ) (P : ℕ → Type 0) → P q → ((i : ℕ) → (pos q ==ℤ pos i) ≡ false → P i) → (i : ℕ) → P i
  by_stripe q P self others i = elim (Bool-cases (pos q ==ℤ pos i)) [
    | inl same ↦ let eq : q ≡ i = ground arith in subst P eq self
    | inr other ↦ others i other
  ]

  still_listed :
      (x : Stripe) (st : Instances) (c : Bytes) (j : ℤ)
      → rs.get (stripes_key name) (st c) ≡ none
      → listed st c j ≡ true
      → listed (write_stripe s name x st) c j ≡ true
  still_listed x st c j free h = listed-write x st c j free ∙ rw h (or_true _)

  new_listed :
      (x : Stripe) (st : Instances) (c : Bytes) (j : ℤ)
      → rs.get (stripes_key name) (st c) ≡ none
      → listed (write_stripe s name x st) c j ≡ true
      → ((x.id ≡ j) × (client_of s name x.id ≡ c)) ⊎ (listed st c j ≡ true)
  new_listed x st c j free h =
      elim (Bool-cases (bytes_eq (client_of s name x.id) c && (x.id ==ℤ j))) [
        | inl same ↦ inl (
          (==ℤ_iff x.id j).0 (ground arith),
          (bytes_eq_iff (client_of s name x.id) c).0 (ground arith),
        )
        | inr other ↦ inr (ground (arith, listed-write x st c j free))
      ]

  self_listed :
      (x : Stripe) (st : Instances)
      → rs.get (stripes_key name) (st (client_of s name x.id)) ≡ none
      → listed (write_stripe s name x st) (client_of s name x.id) x.id ≡ true
  self_listed x st free =
      listed-write x st (client_of s name x.id) x.id free
      ∙ rw ((bytes_eq_iff (client_of s name x.id) (client_of s name x.id)).1 refl)
          (rw ((==ℤ_iff x.id x.id).1 refl) refl)

  module _ (n : ℕ) (q o b : ℕ) (c : Bytes) (st : Instances) (w : IsWithin n st)
      (k : o + length (b ∷ c) ≤ s.stripe_size)
      (e : q * s.stripe_size + (o + length (b ∷ c)) ≤ n) where
    abbrev pub after : Instances
    after = write_stripe s name (part (pos q) o b c) st

    abbrev pub written : Stripe
    written = part (pos q) o b c

    self : text_length after q ≡ larger (text_length st q) (o + length (b ∷ c))
    self = length-write_self q o b c st w.texts (w.full q)

    kept : (i : ℕ) → (pos q ==ℤ pos i) ≡ false → text_length after i ≡ text_length st i
    kept i other = length-Kept written i st (other-Kept s name written (pos i) st other)

    pub part-IsWithin : IsWithin n after
    part-IsWithin = record {
      texts = write_part-HoldsText s name (pos q) o b c st w.texts;
      free = λ c'. free-write (part (pos q) o b c) st c' (w.free c');
      full =
          by_stripe q (λ i. text_length after i ≤ s.stripe_size) (ground (arith, self, w.full q))
            (λ i other. omega (arith, kept i other, w.full i));
      below =
          by_stripe q
            (λ i. (text_length after i ≡ 0) ⊎ (i * s.stripe_size + text_length after i ≤ n))
            (ground (arith, self, w.below q)) (λ i other. rw (kept i other) (w.below i));
      sets = λ c' j h. elim (new_listed written st c' j (w.free c') h) [
        | inl new ↦ (q, sym new.0, omega arith)
        | inr old ↦ w.sets c' j old
      ];
      home = λ c' j h. elim (new_listed written st c' j (w.free c') h) [
        | inl new ↦ subst (λ i. client_of s name i ≡ c') new.0 new.1
        | inr old ↦ w.home c' j old
      ];
      present =
          by_stripe q
            (λ i. 0 < text_length after i → listed after (client_of s name (pos i)) (pos i) ≡ true)
            (λ h. self_listed written st (w.free (client_of s name (pos q))))
            (λ i other h.
              still_listed written st (client_of s name (pos i)) (pos i)
                (w.free (client_of s name (pos i))) (w.present i (omega (arith, kept i other))));
    }

    -- The stripe that ended the file still does.
    pub part-EndsAt_old : EndsAt n st → EndsAt n after
    part-EndsAt_old (i, pos_len, end, set) = (
      i,
      by_stripe q (λ i. 0 < text_length st i → 0 < text_length after i) (λ h. ground (arith, self))
          (λ i other h. omega (arith, kept i other)) i pos_len,
      by_stripe q
          (λ i.
            i * s.stripe_size + text_length st i ≡ n → i * s.stripe_size + text_length after i ≡ n)
          (λ h. ground (arith, self)) (λ i other h. omega (arith, kept i other)) i end,
      still_listed written st (client_of s name (pos i)) (pos i) (w.free (client_of s name (pos i)))
          set,
    )

    -- A stripe that ends with the file ends it.
    pub part-EndsAt_new : q * s.stripe_size + (o + length (b ∷ c)) ≡ n → EndsAt n after
    part-EndsAt_new end = (
      q,
      ground (arith, self),
      ground (arith, self, w.below q),
      self_listed written st (w.free (client_of s name (pos q))),
    )

  module _ (n : ℕ) (st : Instances) (z : 0 < s.stripe_size) (w : IsWithin n st) where
    blank_kept : (i : ℕ) → text_length (write_stripe s name blank st) i ≡ text_length st i
    blank_kept i = length-Kept blank i st (blank-Kept s name (pos i) st z)

    pub blank-IsWithin : 0 < n → IsWithin n (write_stripe s name blank st)
    blank-IsWithin some_bytes = record {
      texts = λ id. (blank-Kept s name id st z).1 ∙ w.texts id;
      free = λ c. free-write blank st c (w.free c);
      full = λ i. omega (arith, blank_kept i, w.full i);
      below = λ i. rw (blank_kept i) (w.below i);
      sets = λ c j h. elim (new_listed blank st c j (w.free c) h) [
        | inl new ↦ (0, sym new.0, omega arith)
        | inr old ↦ w.sets c j old
      ];
      home = λ c j h. elim (new_listed blank st c j (w.free c) h) [
        | inl new ↦ subst (λ i. client_of s name i ≡ c) new.0 new.1
        | inr old ↦ w.home c j old
      ];
      present = λ i h.
          still_listed blank st (client_of s name (pos i)) (pos i)
            (w.free (client_of s name (pos i))) (w.present i (omega (arith, blank_kept i)));
    }

    pub blank-EndsAt : EndsAt n st → EndsAt n (write_stripe s name blank st)
    blank-EndsAt (i, pos_len, end, set) = (
      i,
      omega (arith, blank_kept i),
      omega (arith, blank_kept i),
      still_listed blank st (client_of s name (pos i)) (pos i) (w.free (client_of s name (pos i)))
          set,
    )
