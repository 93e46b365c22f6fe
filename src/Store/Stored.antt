-- ===== src/Store/Stored.antt =====
-- store.go, `WriteAt`: the positions that are stored. A write stores its range.
use pdwfs.Base.{
  ℕ, ◌+◌, ◌/◌, ◌%◌, ◌<◌, ◌≡◌, refl, subst, Bool, true, false, ◌||◌, List, [], ◌∷◌, arith, Bytes,
  length, ltb, Bool-cases, inl, inr,
}
use pdwfs.Base.Int.{pos, ◌==ℤ◌}
use pdwfs.Store.Redis.{Redis}
use pdwfs.Store.Stripes.{Stripe, blank}
use pdwfs.Store.Orders.{All}
use pdwfs.Store.Bytes.{larger}
use pdwfs.Store.Commands.{part}
use pdwfs.Store.Contents.{blank-Kept, other-Kept, covers, covered}
use pdwfs.Store.DataStore.{DataStore, Instances, write_stripe, write_stripes}
use pdwfs.Store.Size.Extent.{IsWithin, text_length, length-Kept, length-write_self}
use pdwfs.Store.Size.Grown.{Fits, blank_fits, bytes_fit, fitting}

or_later : (a b c d : Bool) → (a || b) ≡ false → (a || (b || c)) ≡ true → (d || c) ≡ true
or_later true b c d e h = cc
or_later false true c d e h = cc
or_later false false true true e h = refl
or_later false false true false e h = refl
or_later false false false d e h = cc

module _ ⦃rs : Redis⦄ (s : DataStore) (name : Bytes) where
  -- Whether Redis has a byte for a position.
  unfoldable pub stored : Instances → ℕ → Bool
  stored st p = ltb (p % s.stripe_size) (text_length s name st (p / s.stripe_size))

  module _ (z : 0 < s.stripe_size) (n p : ℕ) where
    -- A stripe that is written stores what it covers and forgets nothing.
    stored-write :
        {x : Stripe} (st : Instances)
        → Fits s.stripe_size n x
        → IsWithin s name n st
        → (stored st p || covers s name p x) ≡ true
        → stored (write_stripe s name x st) p ≡ true
    unfolding stored covers
    stored-write st blank_fits w h =
        let kept =
          length-Kept s name blank (p / s.stripe_size) st
            (blank-Kept s name (pos (p / s.stripe_size)) st z) in
        ground (arith, kept)
    stored-write st (bytes_fit q o b c k e) w h =
        elim (Bool-cases (pos q ==ℤ pos (p / s.stripe_size))) [
          | inl same ↦
              let eq : q ≡ p / s.stripe_size = ground arith in
              let long = length-write_self s name q o b c st w.texts (w.full q) in
              let there : text_length s name (write_stripe s name (part (pos q) o b c) st)
                    (p / s.stripe_size)
                  ≡ larger (text_length s name st (p / s.stripe_size)) (o + length (b ∷ c)) =
                subst
                  (λ i.
                    text_length s name (write_stripe s name (part (pos q) o b c) st) i
                    ≡ larger (text_length s name st i) (o + length (b ∷ c)))
                  eq long in
              ground (arith, there)
          | inr other ↦
              let kept =
                length-Kept s name (part (pos q) o b c) (p / s.stripe_size) st
                  (other-Kept s name (part (pos q) o b c) (pos (p / s.stripe_size)) st other) in
              ground (arith, kept)
        ]

    pub stored-write_stripes :
        (xs : List Stripe) (st : Instances)
        → 0 < n
        → All (Fits s.stripe_size n) xs
        → IsWithin s name n st
        → (stored st p || covered s name p xs) ≡ true
        → stored (write_stripes s name xs st) p ≡ true
    unfolding write_stripes covered
    stored-write_stripes [] st some_bytes a w h = ground arith
    stored-write_stripes (x ∷ xs) st some_bytes a w h =
        let one = fitting s name z st a.0 some_bytes w in
        stored-write_stripes xs (write_stripe s name x st) some_bytes a.1 one.0
          (elim (Bool-cases (stored st p || covers s name p x)) [
            | inl now ↦ rw (stored-write st a.0 w now) refl
            | inr later ↦
                or_later (stored st p) (covers s name p x) (covered s name p xs)
                  (stored (write_stripe s name x st) p) later h
          ])
