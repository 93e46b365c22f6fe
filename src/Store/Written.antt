-- ===== src/Store/Written.antt =====
-- store.go, `WriteAt`: what is written is what the file then holds.
use pdwfs.Base.{
  ℕ, ◌+◌, ◌-◌, ◌*◌, ◌/◌, ◌%◌, ◌^◌, ◌≤◌, ◌<◌, ◌≡◌, refl, sym, ap, ◌∙◌, subst, true, false, ◌&&◌,
  List, ◌∷◌, ◌++◌, arith, Bytes, length, length-append, ltb, ◌==◌, if◌then◌else◌,
}
use pdwfs.Base.Int.{pos}
use pdwfs.Store.Redis.{Redis}
use pdwfs.Store.Stripes.{Stripe, blank}
use pdwfs.Store.Tiling.{Tiling, tiled, skip, next, div_mod, stripe_layout-Tiling}
use pdwfs.Store.Bytes.{byte, byte-append, within}
use pdwfs.Store.Commands.{part}
use pdwfs.Store.DataStore.{DataStore, Instances, write_stripes, WriteAt, wrote}
use pdwfs.Store.Orders.{All, All-perm}
use pdwfs.Store.Contents.{
  content, HoldsText, blank_one, bytes_of, covers, held, covered, covered-perm, Agrees,
  write_stripes-content,
}

pub row_lt : (q k n : ℕ) → q < k → q * n + n ≤ k * n
row_lt q k n h = grind arith

-- A position lies in a range of a row exactly when it lies in that range of the file.
position_lem :
    (q k r i n size off p : ℕ)
    → q * size + r ≡ off
    → k * size + i ≡ p
    → i < size
    → r + n ≤ size
    → (((q == k) && within r n i) ≡ within off n p)
      × (((q == k) && within r n i) ≡ true → i - r ≡ p - off)
position_lem q k r i n size off p e f h l = ground (arith, row_lt q k size, row_lt k q size)

module _ ⦃rs : Redis⦄ (s : DataStore) (name : Bytes) (z : 0 < s.stripe_size) (p : ℕ) where
  part-covers :
      (q r b off : ℕ) (c : Bytes)
      → q * s.stripe_size + r ≡ off
      → r + length (b ∷ c) ≤ s.stripe_size
      → (covers s name p (part (pos q) r b c) ≡ within off (length (b ∷ c)) p)
        × (covers s name p (part (pos q) r b c) ≡ true
            → held s name p (part (pos q) r b c) ≡ byte (b ∷ c) (p - off))
  unfolding covers held
  part-covers q r b off c e k =
      let place = div_mod p s.stripe_size z in
      let lem =
        position_lem q (p / s.stripe_size) r (p % s.stripe_size) (length (b ∷ c)) s.stripe_size off
          p e place.0 place.1 k in
      (lem.0, λ h. ap (byte (b ∷ c)) (lem.1 h))

  -- Where the position lies in the bytes, they have `v` there.
  abbrev Has : ℕ → Bytes → ℕ → Type 0
  Has off buf v = within off (length buf) p ≡ true → byte buf (p - off) ≡ v

  Has-head : (off v b : ℕ) (c rest : Bytes) → Has off ((b ∷ c) ++ rest) v → Has off (b ∷ c) v
  Has-head off v b c rest h w =
      let more : within off (length ((b ∷ c) ++ rest)) p ≡ true =
        ground (arith, length-append {0} (b ∷ c) rest) in
      let front : ltb (p - off) (length (b ∷ c)) ≡ true = ground arith in
      let split : byte ((b ∷ c) ++ rest) (p - off) ≡ byte (b ∷ c) (p - off) =
        rw (byte-append (b ∷ c) rest (p - off)) (rw front refl) in
      sym split ∙ h more

  Has-tail :
      (off v b : ℕ) (c rest : Bytes)
      → Has off ((b ∷ c) ++ rest) v
      → Has (off + length (b ∷ c)) rest v
  Has-tail off v b c rest h w =
      let more : within off (length ((b ∷ c) ++ rest)) p ≡ true =
        ground (arith, length-append {0} (b ∷ c) rest) in
      let back : ltb (p - off) (length (b ∷ c)) ≡ false = ground arith in
      let place : p - off - length (b ∷ c) ≡ p - (off + length (b ∷ c)) = omega arith in
      let split : byte ((b ∷ c) ++ rest) (p - off) ≡ byte rest (p - (off + length (b ∷ c))) =
        rw (byte-append (b ∷ c) rest (p - off)) (rw back (ap (byte rest) place)) in
      sym split ∙ h more

  Tiling-Agrees :
      {off : ℕ} {buf : Bytes} {xs : List Stripe} (v : ℕ)
      → Tiling s.stripe_size off buf xs
      → Has off buf v
      → All (Agrees s name p v) xs
  unfolding covers
  Tiling-Agrees v (tiled off) h = tt
  Tiling-Agrees v (skip t) h = ((blank_one, λ w. absurd (ground arith)), Tiling-Agrees v t h)
  Tiling-Agrees {off} v (next q r b c rest e k split t) h =
      let lem = part-covers q r b off c e k in
      let whole : Has off ((b ∷ c) ++ rest) v = subst (λ bs. Has off bs v) split h in
      (
        (bytes_of q r b c k, λ w. lem.1 w ∙ Has-head off v b c rest whole (sym lem.0 ∙ w)),
        Tiling-Agrees v t (Has-tail off v b c rest whole),
      )

  pub Tiling-covered :
      {off : ℕ} {buf : Bytes} {xs : List Stripe}
      → Tiling s.stripe_size off buf xs
      → covered s name p xs ≡ within off (length buf) p
  unfolding covered
  Tiling-covered (tiled off) = ground arith
  Tiling-covered (skip t) =
      let idle : covers s name p blank ≡ false = ground arith in rw idle (Tiling-covered t)
  Tiling-covered {off} (next q r b c rest e k split t) =
      let lem = part-covers q r b off c e k in
      rw (lem.0, Tiling-covered t, split) (ground (arith, length-append {0} (b ∷ c) rest))

  -- After `WriteAt` a byte of the file is the byte written at its position, if that lies in the range
  -- that was written, and the byte it was before, if not; so it is in whatever order Redis gets the
  -- transactions of the stripes, and however Go's runtime lets the slice of stripes grow. The size of a
  -- stripe is positive, the range ends below 2^63 and no stripe's key was taken by a set, which stays so.
  pub WriteAt-content :
      (grown : ℕ → ℕ) (o : ℕ) (buf : Bytes) {st st' : Instances}
      → o + length buf < 2 ^ 63
      → HoldsText s name st
      → WriteAt s name grown (pos o) buf st st'
      → HoldsText s name st'
        × (content s name st' p
            ≡ (if within o (length buf) p then byte buf (p - o) else content s name st p))
  WriteAt-content grown o buf {st} small h (wrote xs ys e order) =
      let t = stripe_layout-Tiling grown s.stripe_size o buf z small in
      let same : t.0 ≡ xs = ground (arith, t.1, e) in
      let tiles : Tiling s.stripe_size o buf xs =
        subst (λ l. Tiling s.stripe_size o buf l) same t.2 in
      let agree =
        All-perm (Agrees s name p (byte buf (p - o))) order
          (Tiling-Agrees (byte buf (p - o)) tiles (λ w. refl)) in
      let final = write_stripes-content s name ys st p (byte buf (p - o)) agree h z in
      let all_of = sym (covered-perm s name p order) ∙ Tiling-covered tiles in
      (
        final.0,
        subst
            (λ c.
              content s name (write_stripes s name ys st) p
              ≡ (if c then byte buf (p - o) else content s name st p))
            all_of final.1,
      )
