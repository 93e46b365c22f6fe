-- ===== src/Store/Keys.antt =====
-- store.go, `key` and `divmod`: the names of stripes in Redis, and Go's division and conversion of
-- 64-bit integers.
use pdwfs.Base.{
  ℕ, zero, suc, ◌+◌, ◌-◌, ◌*◌, ◌/◌, ◌%◌, ◌^◌, ◌≤◌, ◌<◌, ◌≡◌, ◌≢◌, refl, ap, [], ◌∷◌, ◌++◌, arith,
  Bytes, ltb, if◌then◌else◌, Bool-cases, inl, inr,
}
use pdwfs.Base.Int.{ℤ, pos, negsuc, wrap}

-- Conversion to `int64` (two's complement).
unfoldable pub to_int64 : ℤ → ℤ
to_int64 i = let w = wrap (2 ^ 64) i in if ltb w (2 ^ 63) then pos w else negsuc (2 ^ 64 - 1 - w)

pub to_int64-pos : (n : ℕ) → n < 2 ^ 63 → to_int64 (pos n) ≡ pos n
unfolding to_int64
to_int64-pos n h = ground arith

-- -n
abbrev pub negated : ℕ → ℤ
negated zero = pos zero
negated (suc n) = negsuc n

-- Go's `/` and `%` truncate towards zero. The divisor is the size of a stripe, which is positive.
unfoldable pub divmod : ℤ → ℕ → ℤ × ℤ
divmod (pos n) d = (pos (n / d), pos (n % d))
divmod (negsuc n) d = (negated (suc n / d), negated (suc n % d))

-- The decimal digits of a number. A number has fewer digits than its successor has units.
pub digits : ℕ → ℕ → Bytes
digits zero n = []
digits (suc fuel) n =
    let more = digits fuel (n / 10) ++ (b'0' + n % 10) ∷ [] in
    if ltb n 10 then (b'0' + n) ∷ [] else more

-- `%d`
unfoldable pub itoa : ℤ → Bytes
unfolding digits
itoa (pos n) = digits (suc n) n
itoa (negsuc n) = b'-' ∷ digits (suc (suc n)) (suc n)

-- `"%s:%d"`
unfoldable pub key : Bytes → ℤ → Bytes
unfolding itoa
key name id = name ++ (b':' ∷ itoa id)

-- `name + ":stripes"`
unfoldable pub stripes_key : Bytes → Bytes
stripes_key name = name ++ (b':' ∷ b's' ∷ b't' ∷ b'r' ∷ b'i' ∷ b'p' ∷ b'e' ∷ b's' ∷ [])

-- The number that decimal digits stand for.
value : ℕ → Bytes → ℕ
value acc [] = acc
value acc (c ∷ cs) = value (acc * 10 + (c - b'0')) cs

value-append :
    (acc : ℕ) (xs : Bytes) (c : ℕ) → value acc (xs ++ c ∷ []) ≡ value acc xs * 10 + (c - b'0')
unfolding value
value-append acc [] c = refl
value-append acc (x ∷ xs) c = value-append (acc * 10 + (x - b'0')) xs c

value-digits : (fuel n : ℕ) → n < fuel → value 0 (digits fuel n) ≡ n
unfolding digits
value-digits zero n h = absurd (omega arith)
value-digits (suc fuel) n h = elim (Bool-cases (ltb n 10)) [
  | inl small ↦ rw small (unfold value in omega arith)
  | inr large ↦ rw large (
      ground
        (arith, value-append 0 (digits fuel (n / 10)) (b'0' + n % 10), value-digits fuel (n / 10)))
]

-- The first byte of a text, or 0.
abbrev pub first_byte : Bytes → ℕ
first_byte [] = 0
first_byte (c ∷ cs) = c

first_byte-append :
    (xs ys : Bytes) (lo hi : ℕ)
    → 0 < lo
    → lo ≤ first_byte xs
    → first_byte xs ≤ hi
    → (lo ≤ first_byte (xs ++ ys)) × (first_byte (xs ++ ys) ≤ hi)
first_byte-append [] ys lo hi z h k = absurd (omega arith)
first_byte-append (x ∷ xs) ys lo hi z h k = (h, k)

first_byte-digits :
    (fuel n : ℕ)
    → n < fuel
    → (b'0' ≤ first_byte (digits fuel n)) × (first_byte (digits fuel n) ≤ b'9')
unfolding digits
first_byte-digits zero n h = absurd (omega arith)
first_byte-digits (suc fuel) n h = elim (Bool-cases (ltb n 10)) [
  | inl small ↦ rw small (ground arith)
  | inr large ↦ rw large (
      ground (
        arith,
        first_byte-append (digits fuel (n / 10)) ((b'0' + n % 10) ∷ []) b'0' b'9',
        first_byte-digits fuel (n / 10),
      ))
]

digits-inj : (m n : ℕ) → digits (suc m) m ≡ digits (suc n) n → m ≡ n
digits-inj m n e = omega (arith, value-digits (suc m) m, value-digits (suc n) n, ap (value 0) e)

itoa-inj : (i j : ℤ) → itoa i ≡ itoa j → i ≡ j
unfolding itoa
itoa-inj (pos m) (pos n) e = ap pos (digits-inj m n e)
itoa-inj (pos m) (negsuc n) e = absurd (omega (arith, first_byte-digits (suc m) m, ap first_byte e))
itoa-inj (negsuc m) (pos n) e = absurd (omega (arith, first_byte-digits (suc n) n, ap first_byte e))
itoa-inj (negsuc m) (negsuc n) e =
    let tails : digits (suc (suc m)) (suc m) ≡ digits (suc (suc n)) (suc n) = cc in
    ground (arith, digits-inj (suc m) (suc n) tails)

itoa-lt_s : (i : ℤ) → first_byte (itoa i) < b's'
unfolding itoa
itoa-lt_s (pos n) = omega (arith, first_byte-digits (suc n) n)
itoa-lt_s (negsuc n) = omega arith

append-cancel : (xs ys zs : Bytes) → (xs ++ ys) ≡ (xs ++ zs) → ys ≡ zs
append-cancel [] ys zs e = e
append-cancel (x ∷ xs) ys zs e = append-cancel xs ys zs (cc)

-- Different stripes of a file have different keys.
pub key-inj : (name : Bytes) (i j : ℤ) → key name i ≡ key name j → i ≡ j
unfolding key
key-inj name i j e =
    let tails = append-cancel name (b':' ∷ itoa i) (b':' ∷ itoa j) e in itoa-inj i j (cc)

-- No stripe has the key of the set of stripes.
pub key-ne-stripes_key : (name : Bytes) (i : ℤ) → key name i ≢ stripes_key name
unfolding key stripes_key
key-ne-stripes_key name i e =
    let tails =
      append-cancel name (b':' ∷ itoa i)
        (b':' ∷ b's' ∷ b't' ∷ b'r' ∷ b'i' ∷ b'p' ∷ b'e' ∷ b's' ∷ []) e in
    let digits_s : itoa i ≡ (b's' ∷ b't' ∷ b'r' ∷ b'i' ∷ b'p' ∷ b'e' ∷ b's' ∷ []) = cc in
    absurd (omega (arith, itoa-lt_s i, ap first_byte digits_s))
