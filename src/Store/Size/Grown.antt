-- ===== src/Store/Size/Grown.antt =====
-- store.go, `WriteAt`: a file grows to the end of what is written to it.
use native.Mathlib.Decide.{dec_lt}
use pdwfs.Base.{
  ℕ, ◌+◌, ◌*◌, ◌^◌, ◌≤◌, ◌<◌, ◌≡◌, ◌⊎◌, ap, subst, List, [], ◌∷◌, arith, Bytes, length,
  length-append, inl, inr,
}
use pdwfs.Base.Int.{pos}
use pdwfs.Store.Redis.{Redis}
use pdwfs.Store.Stripes.{Stripe, blank}
use pdwfs.Store.Tiling.{Tiling, tiled, skip, next, stripe_layout-Tiling}
use pdwfs.Store.Orders.{All, All-perm, Some, Some-perm}
use pdwfs.Store.Bytes.{larger}
use pdwfs.Store.Commands.{part}
use pdwfs.Store.DataStore.{DataStore, Instances, write_stripe, write_stripes, WriteAt, wrote}
use pdwfs.Store.Size.Extent.{
  IsWithin, EndsAt, part-IsWithin, part-EndsAt_old, part-EndsAt_new, blank-IsWithin, blank-EndsAt,
}

-- A stripe of bytes among the first `n` bytes of a file, or a blank one.
pub data Fits (size n : ℕ) : Stripe → Type 0 where
  blank_fits : Fits size n blank
  bytes_fit :
      (q o b : ℕ) (c : Bytes)
      → o + length (b ∷ c) ≤ size
      → q * size + (o + length (b ∷ c)) ≤ n
      → Fits size n (part (pos q) o b c)

-- A stripe of bytes that ends with them.
data IsLast (size n : ℕ) : Stripe → Type 0 where
  ends :
      (q o b : ℕ) (c : Bytes)
      → o + length (b ∷ c) ≤ size
      → q * size + (o + length (b ∷ c)) ≡ n
      → IsLast size n (part (pos q) o b c)

pub Tiling-Fits :
    {size off : ℕ} {buf : Bytes} {xs : List Stripe} (n : ℕ)
    → Tiling size off buf xs
    → off + length buf ≤ n
    → All (Fits size n) xs
Tiling-Fits n (tiled off) h = tt
Tiling-Fits n (skip t) h = (blank_fits, Tiling-Fits n t h)
Tiling-Fits n (next q r b c rest e k split t) h =
    let whole = length-append {0} (b ∷ c) rest in
    let len = ap length split in
    (bytes_fit q r b c k (omega (arith, whole, len)), Tiling-Fits n t (omega (arith, whole, len)))

Tiling-IsLast :
    {size off : ℕ} {buf : Bytes} {xs : List Stripe} (n : ℕ)
    → Tiling size off buf xs
    → 0 < length buf
    → off + length buf ≡ n
    → Some (IsLast size n) xs
Tiling-IsLast n (tiled off) z h = absurd (omega arith)
Tiling-IsLast n (skip t) z h = inr (Tiling-IsLast n t z h)
Tiling-IsLast n (next q r b c [] e k split t) z h =
    let whole = length-append {0} (b ∷ c) [] in
    inl (ends q r b c k (omega (arith, whole, ap length split)))
Tiling-IsLast n (next q r b c (d ∷ rest) e k split t) z h =
    let whole = length-append {0} (b ∷ c) (d ∷ rest) in
    inr (Tiling-IsLast n t (omega arith) (omega (arith, whole, ap length split)))

module _ ⦃rs : Redis⦄ (s : DataStore) (name : Bytes) (z : 0 < s.stripe_size) where
  -- What the sets and the stripes say of a file of `n` bytes.
  abbrev pub IsSized : ℕ → Instances → Type 0
  IsSized n st = IsWithin s name n st × ((n ≡ 0) ⊎ EndsAt s name n st)

  pub fitting :
      {x : Stripe} {n : ℕ} (st : Instances)
      → Fits s.stripe_size n x
      → 0 < n
      → IsWithin s name n st
      → IsWithin s name n (write_stripe s name x st)
        × (EndsAt s name n st → EndsAt s name n (write_stripe s name x st))
  fitting {n = n} st blank_fits p w =
      (blank-IsWithin s name n st z w p, blank-EndsAt s name n st z w)
  fitting {n = n} st (bytes_fit q o b c k e) p w =
      (part-IsWithin s name n q o b c st w k e, part-EndsAt_old s name n q o b c st w k e)

  last :
      {x : Stripe} {n : ℕ} (st : Instances)
      → IsLast s.stripe_size n x
      → IsWithin s name n st
      → EndsAt s name n (write_stripe s name x st)
  last {n = n} st (ends q o b c k e) w = part-EndsAt_new s name n q o b c st w k (omega arith) e

  write_stripes-EndsAt :
      (xs : List Stripe) (n : ℕ) (st : Instances)
      → 0 < n
      → All (Fits s.stripe_size n) xs
      → EndsAt s name n st ⊎ Some (IsLast s.stripe_size n) xs
      → IsWithin s name n st
      → IsWithin s name n (write_stripes s name xs st)
        × EndsAt s name n (write_stripes s name xs st)
  unfolding write_stripes
  write_stripes-EndsAt [] n st p a (inl end) w = (w, end)
  write_stripes-EndsAt [] n st p a (inr none_left) w = absurd none_left
  write_stripes-EndsAt (x ∷ xs) n st p a (inl end) w =
      let one = fitting st a.0 p w in
      write_stripes-EndsAt xs n (write_stripe s name x st) p a.1 (inl (one.1 end)) one.0
  write_stripes-EndsAt (x ∷ xs) n st p a (inr (inl end)) w =
      let one = fitting st a.0 p w in
      write_stripes-EndsAt xs n (write_stripe s name x st) p a.1 (inl (last st end w)) one.0
  write_stripes-EndsAt (x ∷ xs) n st p a (inr (inr end)) w =
      let one = fitting st a.0 p w in
      write_stripes-EndsAt xs n (write_stripe s name x st) p a.1 (inr end) one.0

  pub widen : {m n : ℕ} {st : Instances} → m ≤ n → IsWithin s name m st → IsWithin s name n st
  widen h w = record {
    texts = w.texts;
    free = w.free;
    full = w.full;
    below = λ i. elim (w.below i) [ inl empty ↦ inl empty | inr short ↦ inr (omega arith) ];
    sets = λ c j e. let l = w.sets c j e in (l.0, l.1, omega arith);
    home = w.home;
    present = w.present;
  }

  -- A write ends the file where it ends or leaves the end where it was.
  grown_end :
      {n : ℕ} {st : Instances} {xs : List Stripe} (o : ℕ) (buf : Bytes)
      → IsSized n st
      → 0 < length buf
      → Tiling s.stripe_size o buf xs
      → EndsAt s name (larger n (o + length buf)) st
        ⊎ Some (IsLast s.stripe_size (larger n (o + length buf))) xs
  grown_end {n} {st} o buf sized p t = elim (dec_lt n (o + length buf)) [
    | yes grows ↦ inr (Tiling-IsLast (larger n (o + length buf)) t p (ground arith))
    | no stays ↦
        let same : n ≡ larger n (o + length buf) = ground arith in
        elim sized.1 [
          | inl empty ↦ absurd (omega arith)
          | inr end ↦ inl (subst (λ m. EndsAt s name m st) same end)
        ]
  ]

  -- After `WriteAt` of some bytes a file is as long as it was, or ends where the bytes end if that is
  -- farther, in whatever order Redis gets the transactions of the stripes: no stripe passes that
  -- end, the last one ends there and is in the set of its instance, and the sets have no stripe that
  -- begins after it. The file had these properties at its size before.
  pub WriteAt-IsSized :
      (grown : ℕ → ℕ) (o n : ℕ) (buf : Bytes) {st st' : Instances}
      → o + length buf < 2 ^ 63
      → 0 < length buf
      → IsSized n st
      → WriteAt s name grown (pos o) buf st st'
      → IsSized (larger n (o + length buf)) st'
  WriteAt-IsSized grown o n buf {st} small p sized (wrote xs ys e order) =
      let m = larger n (o + length buf) in
      let t = stripe_layout-Tiling grown s.stripe_size o buf z small in
      let same : t.0 ≡ xs = ground (arith, t.1, e) in
      let tiles = subst (λ l. Tiling s.stripe_size o buf l) same t.2 in
      let fit = All-perm (Fits s.stripe_size m) order (Tiling-Fits m tiles (ground arith)) in
      let end : EndsAt s name m st ⊎ Some (IsLast s.stripe_size m) ys =
        elim (grown_end o buf sized p tiles) [
          | inl old ↦ inl old
          | inr new ↦ inr (Some-perm (IsLast s.stripe_size m) order new)
        ] in
      let final =
        write_stripes-EndsAt ys m st (ground arith) fit end (widen (ground arith) sized.0) in
      (final.0, inr final.1)
