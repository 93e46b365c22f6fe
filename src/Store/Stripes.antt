-- ===== src/Store/Stripes.antt =====
-- store.go, `stripeInfo` and `stripeLayout`: the stripes that a sequence of bytes lies in.
use pdwfs.Base.{
  ℕ, zero, suc, ◌+◌, ◌-◌, ◌*◌, Option, none, some, List, [], ◌∷◌, ◌++◌, Bytes, length, take, drop,
  ltb, leb, if◌then◌else◌,
}
use pdwfs.Base.Int.{ℤ, pos, negsuc}
use pdwfs.Store.Keys.{to_int64, divmod}

-- The bytes `payload` lie in the stripe `id` from the offset `off` on.
pub record Stripe : Type 0 where
  pub id : ℤ
  pub off : ℤ
  pub payload : Bytes

-- The elements that `make` fills a slice with.
abbrev pub blank : Stripe
blank = record { id = pos 0; off = pos 0; payload = [] }

abbrev pub replicate {ℓ} : {A : Type ℓ} → ℕ → A → List A
replicate zero x = []
replicate (suc n) x = x ∷ replicate n x

-- off + pos, in 64 bits
abbrev pub int64_sum : ℤ → ℕ → ℤ
int64_sum (pos o) p = to_int64 (pos (o + p))
int64_sum (negsuc o) p = if leb (suc o) p then pos (p - suc o) else negsuc (o - p)

-- stripeSize - offset, where the offset is a remainder by the size.
abbrev pub room : ℕ → ℤ → ℕ
room size (pos r) = size - r
room size (negsuc r) = size + suc r

-- The length of a stripe's part: what is left of the bytes, and at most the room in the stripe.
abbrev pub part_length : ℕ → ℕ → ℕ
part_length left space = if ltb space left then space else left

-- `stripes` has the capacity `capacity`. A full slice is copied to one of twice the capacity, and of
-- that length too, so the stripe that is appended stands behind blank elements, and finds the slice
-- full again: `append` gives it the capacity that Go's runtime chooses, `grown`. `none` means that
-- the fuel ran out.
unfoldable pub layout_loop :
    (ℕ → ℕ) → ℕ → ℕ → ℤ → Bytes → ℕ → ℕ → List Stripe → Option (List Stripe)
unfolding divmod
layout_loop grown zero size off buf p capacity stripes = none
layout_loop grown (suc fuel) size off buf p capacity stripes =
    let full = leb capacity (length stripes) in
    let place = divmod (int64_sum off p) size in
    let n = part_length (length (drop p buf)) (room size place.1) in
    let stripe : Stripe = record { id = place.0; off = place.1; payload = take n (drop p buf) } in
    let padding = replicate (2 * capacity - length stripes) blank in
    let rest =
      layout_loop grown fuel size off buf (p + n) (if full then grown (2 * capacity) else capacity)
        ((if full then stripes ++ padding else stripes) ++ stripe ∷ []) in
    if leb (length buf) p then some stripes else rest

-- A round takes at least one byte.
unfoldable pub stripe_layout : (ℕ → ℕ) → ℕ → ℤ → Bytes → Option (List Stripe)
unfolding layout_loop
stripe_layout grown size off buf = layout_loop grown (suc (length buf)) size off buf 0 100 []
