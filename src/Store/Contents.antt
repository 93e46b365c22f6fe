-- ===== src/Store/Contents.antt =====
-- store.go, `WriteAt`: what is written is what the file holds, in whatever order the stripes go.
use mathlib.Core.List.Permᴰ.{nil, cons, swap, trans}
use mathlib.Core.List.{Permᴰ}
use pdwfs.Base.{
  ℕ, ◌+◌, ◌-◌, ◌/◌, ◌%◌, ◌≤◌, ◌<◌, ◌≡◌, ◌≢◌, refl, ap, ◌∙◌, subst, Bool, true, false, ◌&&◌, ◌||◌,
  List, [], ◌∷◌, arith, Bytes, length, if◌then◌else◌, bytes_eq, Bool-cases, inl, inr,
}
use pdwfs.Base.Int.{ℤ, pos, pos_part, ◌==ℤ◌, ==ℤ_iff}
use pdwfs.Store.Keys.{key}
use pdwfs.Store.Redis.{Redis, text_or_empty}
use pdwfs.Store.Stripes.{Stripe, blank}
use pdwfs.Store.Tiling.{div_mod}
use pdwfs.Store.Bytes.{byte, within}
use pdwfs.Store.Orders.{All}
use pdwfs.Store.Commands.{
  stripe_text, at_client_self, write_commands-other, blank_commands, part, smembers-write_commands,
  byte-write_commands,
}
use pdwfs.Store.DataStore.{
  DataStore, Instances, client_of, write_commands, write_stripe, write_stripes,
}

pub differ : (i j : ℤ) → (i ==ℤ j) ≡ false → i ≢ j
differ i j n e = let t = (==ℤ_iff i j).1 e in cc

or_swap : (a b c : Bool) → (a || (b || c)) ≡ (b || (a || c))
or_swap true true c = refl
or_swap true false c = refl
or_swap false true c = refl
or_swap false false c = refl

merge :
    (c d : Bool) {now held v : ℕ} (old : ℕ)
    → now ≡ (if c then held else old)
    → (c ≡ true → held ≡ v)
    → (if d then v else now) ≡ (if c || d then v else old)
merge true true old e f = refl
merge true false old e f = e ∙ f refl
merge false true old e f = refl
merge false false old e f = e

module _ ⦃rs : Redis⦄ (s : DataStore) (name : Bytes) where
  -- The byte of a file at a position, zero where nothing is stored.
  unfoldable pub content : Instances → ℕ → ℕ
  unfolding stripe_text byte
  content st p = byte (stripe_text s name st (pos (p / s.stripe_size))) (p % s.stripe_size)

  -- No stripe's key is taken by a set.
  abbrev pub HoldsText : Instances → Type 0
  HoldsText st = (id : ℤ) → rs.smembers (key name id) (st (client_of s name id)) ≡ []

  -- A stripe of bytes within its bounds, or a blank one.
  pub data Proper : Stripe → Type 0 where
    blank_one : Proper blank
    bytes_of :
        (q o b : ℕ) (c : Bytes) → o + length (b ∷ c) ≤ s.stripe_size → Proper (part (pos q) o b c)

  -- Whether a stripe holds a position, and the byte that it holds there.
  unfoldable pub covers : ℕ → Stripe → Bool
  covers p x =
      (x.id ==ℤ pos (p / s.stripe_size))
      && within (pos_part x.off) (length x.payload) (p % s.stripe_size)

  unfoldable pub held : ℕ → Stripe → ℕ
  held p x = byte x.payload (p % s.stripe_size - pos_part x.off)

  -- What is left as it is of the stripe `id`.
  abbrev pub Kept : Stripe → ℤ → Instances → Type 0
  Kept x id st =
      (rs.get (key name id) (write_stripe s name x st (client_of s name id))
        ≡ rs.get (key name id) (st (client_of s name id)))
      × (rs.smembers (key name id) (write_stripe s name x st (client_of s name id))
          ≡ rs.smembers (key name id) (st (client_of s name id)))

  pub other-Kept : (x : Stripe) (id : ℤ) (st : Instances) → (x.id ==ℤ id) ≡ false → Kept x id st
  unfolding write_stripe
  other-Kept x id st other =
      elim (Bool-cases (bytes_eq (client_of s name x.id) (client_of s name id))) [
        | inl here ↦
            rw here
              (write_commands-other s name x id (st (client_of s name id)) (differ x.id id other))
        | inr elsewhere ↦ rw elsewhere (refl, refl)
      ]

  pub blank-Kept : (id : ℤ) (st : Instances) → 0 < s.stripe_size → Kept blank id st
  unfolding write_stripe
  blank-Kept id st z =
      elim (Bool-cases (bytes_eq (client_of s name (pos 0)) (client_of s name id))) [
        | inl here ↦ rw here (blank_commands s name id (st (client_of s name id)) z)
        | inr elsewhere ↦ rw elsewhere (refl, refl)
      ]

  pub write_part-HoldsText :
      (id : ℤ) (o b : ℕ) (c : Bytes) (st : Instances)
      → HoldsText st
      → HoldsText (write_stripe s name (part id o b c) st)
  unfolding write_stripe
  write_part-HoldsText id o b c st h j = elim (Bool-cases (id ==ℤ j)) [
    | inl same ↦
        subst
          (λ k.
            rs.smembers (key name k) (write_stripe s name (part id o b c) st (client_of s name k))
            ≡ [])
          ((==ℤ_iff id j).0 same)
          (rw (at_client_self (client_of s name id) (write_commands s name (part id o b c)) st)
            (smembers-write_commands s name id o b c (st (client_of s name id)) (h id)))
    | inr other ↦ (other-Kept (part id o b c) j st other).1 ∙ h j
  ]

  write_part-byte_self :
      (id : ℤ) (o b : ℕ) (c : Bytes) (st : Instances) (r : ℕ)
      → HoldsText st
      → r < s.stripe_size
      → byte (stripe_text s name (write_stripe s name (part id o b c) st) id) r ≡ (
          if within o (length (b ∷ c)) r
          then byte (b ∷ c) (r - o)
          else byte (stripe_text s name st id) r)
  unfolding write_stripe stripe_text
  write_part-byte_self id o b c st r h k =
      rw (at_client_self (client_of s name id) (write_commands s name (part id o b c)) st)
        (byte-write_commands s name id o b c (st (client_of s name id)) r (h id) k)

  write_part-content :
      (q o b : ℕ) (c : Bytes) (st : Instances) (p : ℕ)
      → HoldsText st
      → 0 < s.stripe_size
      → content (write_stripe s name (part (pos q) o b c) st) p
        ≡ (if covers p (part (pos q) o b c) then held p (part (pos q) o b c) else content st p)
  unfolding content covers held stripe_text
  write_part-content q o b c st p h z =
      let id = pos (p / s.stripe_size) in
      let r = p % s.stripe_size in
      let small = (div_mod p s.stripe_size z).1 in
      elim (Bool-cases (pos q ==ℤ id)) [
        | inl same ↦ rw same (
            subst
              (λ k. byte (stripe_text s name (write_stripe s name (part (pos q) o b c) st) k) r ≡ (
                if within o (length (b ∷ c)) r
                then byte (b ∷ c) (r - o)
                else byte (stripe_text s name st k) r))
              ((==ℤ_iff (pos q) id).0 same) (write_part-byte_self (pos q) o b c st r h small))
        | inr other ↦
            rw other
              (ap (λ t. byte (text_or_empty t) r) (other-Kept (part (pos q) o b c) id st other).0)
      ]

  -- One transaction: what the stripe covers is written, and no stripe's key is taken by a set.
  proper-content :
      {x : Stripe} (st : Instances) (p : ℕ)
      → Proper x
      → HoldsText st
      → 0 < s.stripe_size
      → HoldsText (write_stripe s name x st)
        × (content (write_stripe s name x st) p ≡ (if covers p x then held p x else content st p))
  unfolding covers content stripe_text
  proper-content st p blank_one h z = (
    λ id. (blank-Kept id st z).1 ∙ h id,
    let idle : covers p blank ≡ false = ground arith in
        rw idle (
          ap (λ t. byte (text_or_empty t) (p % s.stripe_size))
            (blank-Kept (pos (p / s.stripe_size)) st z).0),
  )
  proper-content st p (bytes_of q o b c k) h z =
      (write_part-HoldsText (pos q) o b c st h, write_part-content q o b c st p h z)

  unfoldable pub covered : ℕ → List Stripe → Bool
  unfolding covers
  covered p [] = false
  covered p (x ∷ xs) = covers p x || covered p xs

  pub covered-perm : (p : ℕ) {xs ys : List Stripe} → Permᴰ xs ys → covered p xs ≡ covered p ys
  unfolding covered
  covered-perm p nil = refl
  covered-perm p (cons e t) = rw e (rw (covered-perm p t) refl)
  covered-perm p (swap {a' = x} {b' = y} {l = l} e f) =
      rw e (rw f (or_swap (covers p y) (covers p x) (covered p l)))
  covered-perm p (trans t u) = covered-perm p t ∙ covered-perm p u

  -- The stripes agree on the byte at a position.
  abbrev pub Agrees : ℕ → ℕ → Stripe → Type 0
  Agrees p v x = Proper x × (covers p x ≡ true → held p x ≡ v)

  pub write_stripes-content :
      (xs : List Stripe) (st : Instances) (p v : ℕ)
      → All (Agrees p v) xs
      → HoldsText st
      → 0 < s.stripe_size
      → HoldsText (write_stripes s name xs st)
        × (content (write_stripes s name xs st) p ≡ (if covered p xs then v else content st p))
  unfolding write_stripes covered
  write_stripes-content [] st p v a h z = (h, refl)
  write_stripes-content (x ∷ xs) st p v a h z =
      let one = proper-content st p a.0.0 h z in
      let rest = write_stripes-content xs (write_stripe s name x st) p v a.1 one.0 z in
      (rest.0, rest.1 ∙ merge (covers p x) (covered p xs) (content st p) one.1 a.0.1)
