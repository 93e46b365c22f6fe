-- ===== src/Store/Few.antt =====
-- store.go, `stripeLayout`: no blank stripes where a hundred suffice.
use native.Mathlib.Nat.{add-zero}
use native.Mathlib.Decide.{dec_lt}
use pdwfs.Base.{
  ℕ, zero, suc, ◌+◌, ◌-◌, ◌*◌, ◌/◌, ◌%◌, ◌^◌, ◌≤◌, ◌<◌, ◌≡◌, refl, ap, ◌∙◌, subst, false, some,
  List, [], ◌∷◌, ◌++◌, arith, Bytes, length, length-append, take, drop, leb, Bool-cases, inl, inr,
}
use pdwfs.Base.Int.{pos}
use pdwfs.Store.Keys.{to_int64-pos, divmod}
use pdwfs.Store.Stripes.{Stripe, part_length, layout_loop, stripe_layout}
use pdwfs.Store.Tiling.{div_mod, length-drop, length-take, part_bounds}
use pdwfs.Store.Written.{row_lt}
use pdwfs.Store.Read.{blanks}

blanks-append :
    (xs : List Stripe) (x : Stripe) → 0 < length x.payload → blanks (xs ++ x ∷ []) ≡ blanks xs
unfolding blanks
blanks-append [] x h = ground arith
blanks-append (y ∷ xs) x h = omega (arith, blanks-append xs x h)

next_row : (k size : ℕ) → suc k * size ≡ k * size + size
next_row k size = grind arith

-- The row of a position before a row.
row_before : (q r k size m : ℕ) → q * size + r ≡ m → m < k * size → q < k
row_before q r k size m e h = elim (dec_lt q k) [
  | yes below ↦ below
  | no above ↦ elim (dec_lt k q) [
    | yes past ↦ absurd (omega (arith, row_lt k q size past))
    | no same ↦ let eq : q ≡ k = omega arith in absurd (omega (arith, ap (λ i. i * size) eq))
  ]
]

-- The row of a position that begins a row.
row_from : (q r k size m : ℕ) → q * size + r ≡ m → r < size → m ≡ k * size → k ≤ q
row_from q r k size m e h f = elim (dec_lt q k) [
  | yes below ↦ absurd (omega (arith, row_lt q k size below))
  | no above ↦ omega arith
]

filled_part : (left space : ℕ) → part_length left space < left → part_length left space ≡ space
filled_part left space h = ground arith

module _ (grown : ℕ → ℕ) (size o : ℕ) (buf : Bytes) (z : 0 < size) (h : o + length buf < 2 ^ 63)
    (few : o + length buf ≤ (o / size + 100) * size) where
  -- The stripes so far lie in the rows so far.
  abbrev InRows : ℕ → List Stripe → Type 0
  InRows p stripes = p < length buf → o / size + length stripes ≤ (o + p) / size

  layout_loop-blanks :
      (fuel p : ℕ) (stripes : List Stripe)
      → p ≤ length buf
      → length buf < fuel + p
      → InRows p stripes
      → (xs : List Stripe) × (layout_loop grown fuel size (pos o) buf p 100 stripes ≡ some xs)
        × (blanks xs ≡ blanks stripes)
  unfolding layout_loop divmod
  layout_loop-blanks zero p stripes k f rows = absurd (omega arith)
  layout_loop-blanks (suc fuel) p stripes k f rows = elim (Bool-cases (leb (length buf) p)) [
    | inl end ↦ (stripes, rw end refl, refl)
    | inr more ↦
        let q = (o + p) / size in
        let r = (o + p) % size in
        let d = drop p buf in
        let n = part_length (length d) (size - r) in
        let split = div_mod (o + p) size z in
        let len = length-drop p buf in
        let left : 0 < length d = ground (arith, len) in
        let bounds = part_bounds (length d) r size left split.1 in
        let inside : p < length buf = omega (arith, len) in
        let early : q < o / size + 100 =
          row_before q r (o / size + 100) size (o + p) split.0 (omega arith) in
        let count = rows inside in
        let not_full : leb 100 (length stripes) ≡ false = ground arith in
        let s : Stripe = record { id = pos q; off = pos r; payload = take n d } in
        let ih =
          layout_loop-blanks fuel (p + n) (stripes ++ s ∷ []) (omega (arith, len)) (omega arith)
            (λ i.
              let filled : n ≡ size - r = filled_part (length d) (size - r) (omega (arith, len)) in
              let next_start : o + (p + n) ≡ suc q * size = omega (arith, next_row q size) in
              let split' = div_mod (o + (p + n)) size z in
              let later =
                row_from ((o + (p + n)) / size) ((o + (p + n)) % size) (suc q) size (o + (p + n))
                  split'.0 split'.1 next_start in
              omega (arith, length-append {0} stripes (s ∷ []))) in
        (
          ih.0,
          rw more (rw (to_int64-pos (o + p) (ground arith)) (rw not_full ih.1)),
          ih.2 ∙ blanks-append stripes s (omega (arith, length-take n d)),
        )
  ]

  -- Bytes that lie in a hundred stripes have a layout without blank ones.
  pub stripe_layout-blanks :
      {xs : List Stripe} → stripe_layout grown size (pos o) buf ≡ some xs → blanks xs ≡ 0
  unfolding stripe_layout blanks
  stripe_layout-blanks {xs} e =
      let l =
        layout_loop-blanks (suc (length buf)) 0 [] (omega arith) (omega arith)
          (λ i. rw (add-zero o) (omega arith)) in
      let same : l.0 ≡ xs = ground (arith, l.1, e) in subst (λ ys. blanks ys ≡ 0) same l.2
