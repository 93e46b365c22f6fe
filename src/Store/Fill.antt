-- ===== src/Store/Fill.antt =====
-- Replies of Redis in a buffer, and a range of a sequence of bytes.
use native.Mathlib.Nat.{suc-add, zero-add}
use mathlib.Core.List.{append-nil}
use pdwfs.Base.{
  ℕ, zero, suc, ◌+◌, ◌-◌, ◌<◌, ◌≡◌, refl, ap, [], ◌∷◌, ◌++◌, arith, Bytes, length, take, drop, ltb,
  if◌then◌else◌,
}
use pdwfs.Store.Bytes.{byte}

-- The bytes of a reply, then what the buffer had after them.
abbrev pub fill : Bytes → Bytes → Bytes
fill [] buf = buf
fill (c ∷ cs) [] = c ∷ cs
fill (c ∷ cs) (b ∷ buf) = c ∷ fill cs buf

pub fill-append_drop : (cs buf : Bytes) → cs ++ drop (length cs) buf ≡ fill cs buf
fill-append_drop [] buf = refl
fill-append_drop (c ∷ cs) [] = append-nil (c ∷ cs)
fill-append_drop (c ∷ cs) (b ∷ buf) = ap (λ t. c ∷ t) (fill-append_drop cs buf)

-- The first `n` bytes from the offset `o` on.
abbrev pub range : ℕ → ℕ → Bytes → Bytes
range o n f = take n (drop o f)

fill_nil : (n : ℕ) (b : Bytes) → fill (take n []) b ≡ b
fill_nil zero b = refl
fill_nil (suc n) b = refl

pub fill-fill :
    (a b g : Bytes)
    → fill (take (length a) g) a ++ fill (range (length a) (length b) g) b
      ≡ fill (take (length a + length b) g) (a ++ b)
fill-fill [] b g = rw (zero-add (length b)) refl
fill-fill (x ∷ a) b [] =
    rw (suc-add (length a) (length b)) (ap (λ t. (x ∷ a) ++ t) (fill_nil (length b) b))
fill-fill (x ∷ a) b (y ∷ g) = rw (suc-add (length a) (length b)) (ap (λ t. y ∷ t) (fill-fill a b g))

take_nil : (n : ℕ) → 0 + length (take {A = ℕ} n []) ≡ 0
take_nil zero = refl
take_nil (suc n) = refl

pub length-range-range :
    (m n : ℕ) (g : Bytes) → length (take m g) + length (range m n g) ≡ length (take (m + n) g)
length-range-range zero n g = rw (zero-add n) (omega arith)
length-range-range (suc m) n [] = rw (suc-add m n) (take_nil n)
length-range-range (suc m) n (y ∷ g) = rw (suc-add m n) (omega (arith, length-range-range m n g))

pub length-range :
    (o n : ℕ) (f : Bytes)
    → length (range o n f) ≡ (if ltb n (length f - o) then n else length f - o)
length-range zero zero f = ground arith
length-range zero (suc n) [] = ground arith
length-range zero (suc n) (y ∷ f) = ground (arith, length-range zero n f)
length-range (suc o) zero [] = ground arith
length-range (suc o) (suc n) [] = ground arith
length-range (suc o) n (y ∷ f) = ground (arith, length-range o n f)

byte-take : (n i : ℕ) (f : Bytes) → i < n → byte (take n f) i ≡ byte f i
unfolding byte
byte-take zero i f h = absurd (omega arith)
byte-take (suc n) i [] h = refl
byte-take (suc n) zero (y ∷ f) h = refl
byte-take (suc n) (suc i) (y ∷ f) h = byte-take n i f (omega arith)

pub byte-range : (o n i : ℕ) (f : Bytes) → i < n → byte (range o n f) i ≡ byte f (o + i)
unfolding byte
byte-range zero n i f h = rw (zero-add i) (byte-take n i f h)
byte-range (suc o) zero i [] h = absurd (omega arith)
byte-range (suc o) (suc n) i [] h = ground arith
byte-range (suc o) n i (y ∷ f) h = rw (suc-add o i) (byte-range o n i f h)

pub bytes_ext :
    (f g : Bytes) → length f ≡ length g → ((i : ℕ) → i < length f → byte f i ≡ byte g i) → f ≡ g
unfolding byte
bytes_ext [] [] e h = refl
bytes_ext [] (y ∷ g) e h = absurd (omega arith)
bytes_ext (x ∷ f) [] e h = absurd (omega arith)
bytes_ext (x ∷ f) (y ∷ g) e h =
    let head = h 0 (omega arith) in
    let tail = bytes_ext f g (omega arith) (λ i k. h (suc i) (omega arith)) in cc

pub length-take_min :
    (n : ℕ) (xs : Bytes) → length (take n xs) ≡ (if ltb n (length xs) then n else length xs)
length-take_min zero xs = ground arith
length-take_min (suc n) [] = ground arith
length-take_min (suc n) (x ∷ xs) = ground (arith, length-take_min n xs)

pub byte-take_if : (n i : ℕ) (xs : Bytes) → byte (take n xs) i ≡ (if ltb i n then byte xs i else 0)
unfolding byte
byte-take_if zero i xs = ground arith
byte-take_if (suc n) i [] = ground arith
byte-take_if (suc n) zero (x ∷ xs) = ground arith
byte-take_if (suc n) (suc i) (x ∷ xs) = ground (arith, byte-take_if n i xs)
