-- ===== src/Store/Tiling.antt =====
-- store.go, `stripeLayout`: the loop ends, and its stripes tile the bytes in order.
use native.Mathlib.Nat.{suc-add, add-zero, add_assoc}
use mathlib.Core.List.{append-nil, append_assoc}
use pdwfs.Base.{
  ℕ, zero, suc, ◌+◌, ◌-◌, ◌*◌, ◌/◌, ◌%◌, ◌^◌, ◌≤◌, ◌<◌, ◌≡◌, refl, sym, ap, subst, ◌∙◌, Bool, true,
  false, some, List, [], ◌∷◌, ◌++◌, arith, Bytes, length, take, drop, leb, if◌then◌else◌,
  Bool-cases, inl, inr,
}
use pdwfs.Base.Int.{pos}
use pdwfs.Store.Keys.{to_int64-pos, divmod}
use pdwfs.Store.Stripes.{Stripe, blank, replicate, part_length, layout_loop, stripe_layout}

-- The stripes hold the bytes `buf` from the offset `off` of a file on, in order and each within
-- its bounds, with blank elements between them.
pub data Tiling (size : ℕ) : ℕ → Bytes → List Stripe → Type 0 where
  tiled : (off : ℕ) → Tiling size off [] []
  skip :
      {off : ℕ} {buf : Bytes} {xs : List Stripe}
      → Tiling size off buf xs
      → Tiling size off buf (blank ∷ xs)
  next :
      {off : ℕ} {buf : Bytes} {xs : List Stripe} (q r b : ℕ) (c rest : Bytes)
      → q * size + r ≡ off
      → r + length (b ∷ c) ≤ size
      → buf ≡ (b ∷ c) ++ rest
      → Tiling size (off + length (b ∷ c)) rest xs
      → Tiling size off buf (record { id = pos q; off = pos r; payload = b ∷ c } ∷ xs)

pub length-drop {ℓ} : {A : Type ℓ} (n : ℕ) (xs : List A) → length (drop n xs) ≡ length xs - n
length-drop zero xs = omega arith
length-drop (suc n) [] = omega arith
length-drop (suc n) (x ∷ xs) = omega (arith, length-drop n xs)

pub length-take {ℓ} : {A : Type ℓ} (n : ℕ) (xs : List A) → n ≤ length xs → length (take n xs) ≡ n
length-take zero xs h = refl
length-take (suc n) [] h = absurd (omega arith)
length-take (suc n) (x ∷ xs) h = omega (arith, length-take n xs)

drop_nil {ℓ} : {A : Type ℓ} (n : ℕ) → [] ≡ drop {A = A} n []
drop_nil zero = refl
drop_nil (suc n) = refl

pub drop-drop {ℓ} : {A : Type ℓ} (m n : ℕ) (xs : List A) → drop (m + n) xs ≡ drop n (drop m xs)
drop-drop zero n xs = ground arith
drop-drop (suc m) n [] = rw (suc-add m n) (drop_nil n)
drop-drop (suc m) n (x ∷ xs) = rw (suc-add m n) (drop-drop m n xs)

take-append-drop {ℓ} : {A : Type ℓ} (n : ℕ) (xs : List A) → take n xs ++ drop n xs ≡ xs
take-append-drop zero xs = refl
take-append-drop (suc n) [] = refl
take-append-drop (suc n) (x ∷ xs) = ap (λ ys. x ∷ ys) (take-append-drop n xs)

skip_all :
    {size off : ℕ} {buf : Bytes} {xs : List Stripe} (n : ℕ)
    → Tiling size off buf xs
    → Tiling size off buf (replicate n blank ++ xs)
skip_all zero t = t
skip_all (suc n) t = skip (skip_all n t)

pub div_mod : (n d : ℕ) → 0 < d → (n / d * d + n % d ≡ n) × (n % d < d)
div_mod n d h = grind arith

next_take :
    {size : ℕ} (off q r n : ℕ) (d : Bytes) {xs : List Stripe}
    → 0 < n
    → n ≤ length d
    → q * size + r ≡ off
    → r + n ≤ size
    → Tiling size (off + n) (drop n d) xs
    → Tiling size off d (record { id = pos q; off = pos r; payload = take n d } ∷ xs)
next_take off q r zero d z h e k t = absurd (omega arith)
next_take off q r (suc n) [] z h e k t = absurd (omega arith)
next_take {size} off q r (suc n) (b ∷ c) {xs} z h e k t =
    let len = length-take n c (omega arith) in
    next q r b (take n c) (drop n c) e (omega (arith, len))
      (ap (λ ys. b ∷ ys) (sym (take-append-drop n c))) (rw len t)

pub part_bounds :
    (left r size : ℕ)
    → 0 < left
    → r < size
    → (0 < part_length left (size - r))
      × (part_length left (size - r) ≤ left)
      × (r + part_length left (size - r) ≤ size)
part_bounds left r size h k = ground arith

-- The stripes that one round adds to the slice.
abbrev added : Bool → ℕ → Stripe → List Stripe → List Stripe
added full k s xs = (if full then replicate k blank else []) ++ s ∷ xs

added-Tiling :
    {size off : ℕ} {buf : Bytes} (full : Bool) (k : ℕ) (s : Stripe) (xs : List Stripe)
    → Tiling size off buf (s ∷ xs)
    → Tiling size off buf (added full k s xs)
added-Tiling true k s xs t = skip_all k t
added-Tiling false k s xs t = t

append_added :
    (full : Bool) (k : ℕ) (s : Stripe) (stripes xs : List Stripe)
    → ((if full then stripes ++ replicate k blank else stripes) ++ s ∷ []) ++ xs
      ≡ stripes ++ added full k s xs
append_added true k s stripes xs = simp append_assoc
append_added false k s stripes xs = simp append_assoc

all_tiled :
    (size off p : ℕ) (buf : Bytes) → leb (length buf) p ≡ true → Tiling size off (drop p buf) []
all_tiled size off zero [] h = tiled off
all_tiled size off zero (b ∷ buf) h = absurd (ground arith)
all_tiled size off (suc p) [] h = tiled off
all_tiled size off (suc p) (b ∷ buf) h = all_tiled size off p buf (ground arith)

moved :
    {size : ℕ} (o p n : ℕ) (buf : Bytes) {xs : List Stripe}
    → Tiling size (o + (p + n)) (drop (p + n) buf) xs
    → Tiling size (o + p + n) (drop n (drop p buf)) xs
moved o p n buf t = rw (add_assoc o p n) (rw (← (drop-drop p n buf)) t)

module _ (grown : ℕ → ℕ) (size o : ℕ) (buf : Bytes) (z : 0 < size)
    (h : o + length buf < 2 ^ 63) where
  layout_loop-Tiling :
      (fuel p capacity : ℕ) (stripes : List Stripe)
      → p ≤ length buf
      → length buf < fuel + p
      → (xs : List Stripe) × (layout_loop grown fuel size (pos o) buf p capacity stripes
          ≡ some (stripes ++ xs))
        × Tiling size (o + p) (drop p buf) xs
  unfolding layout_loop divmod
  layout_loop-Tiling zero p capacity stripes k f = absurd (omega arith)
  layout_loop-Tiling (suc fuel) p capacity stripes k f = elim (Bool-cases (leb (length buf) p)) [
    | inl end ↦ ([], rw end (ap some (sym (append-nil stripes))), all_tiled size (o + p) p buf end)
    | inr more ↦
        let q = (o + p) / size in
        let r = (o + p) % size in
        let d = drop p buf in
        let n = part_length (length d) (size - r) in
        let split = div_mod (o + p) size z in
        let len = length-drop p buf in
        let left : 0 < length d = ground (arith, len) in
        let bounds = part_bounds (length d) r size left split.1 in
        let full = leb capacity (length stripes) in
        let k = 2 * capacity - length stripes in
        let s : Stripe = record { id = pos q; off = pos r; payload = take n d } in
        let ih =
          layout_loop-Tiling fuel (p + n) (if full then grown (2 * capacity) else capacity)
            ((if full then stripes ++ replicate k blank else stripes) ++ s ∷ [])
            (omega (arith, len)) (omega arith) in
        let t =
          next_take (o + p) q r n d bounds.0 bounds.1 split.0 bounds.2 (moved o p n buf ih.2) in
        (
          added full k s ih.0,
          rw more (
              rw (to_int64-pos (o + p) (ground arith))
                (ih.1 ∙ ap some (append_added full k s stripes ih.0))),
          added-Tiling full k s ih.0 t,
        )
  ]

  -- Whatever capacities the runtime chooses, `stripeLayout` ends, and its stripes tile the bytes: in
  -- order they hold each byte once, none of them leaves the bounds of its stripe, and what stands
  -- between them is blank. The size of a stripe is positive and the bytes end below 2^63.
  pub stripe_layout-Tiling :
      (xs : List Stripe) × (stripe_layout grown size (pos o) buf ≡ some xs) × Tiling size o buf xs
  unfolding stripe_layout
  stripe_layout-Tiling =
      let t = layout_loop-Tiling (suc (length buf)) 0 100 [] (omega arith) (omega arith) in
      (t.0, t.1, subst (λ k. Tiling size k buf t.0) (add-zero o) t.2)
