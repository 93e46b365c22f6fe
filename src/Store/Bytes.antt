-- ===== src/Store/Bytes.antt =====
-- The bytes of a value in Redis, a byte that is not stored being zero.
use pdwfs.Base.{
  ℕ, zero, suc, ◌+◌, ◌-◌, ◌≤◌, ◌≡◌, refl, Bool, ◌&&◌, [], ◌∷◌, ◌++◌, arith, Bytes, length, ltb, leb,
  if◌then◌else◌,
}
use pdwfs.Store.Redis.{over, overwrite}

unfoldable pub byte : Bytes → ℕ → ℕ
byte [] i = 0
byte (b ∷ bs) zero = b
byte (b ∷ bs) (suc i) = byte bs i

byte-beyond : (d : Bytes) (i : ℕ) → length d ≤ i → byte d i ≡ 0
unfolding byte
byte-beyond [] i h = refl
byte-beyond (b ∷ d) zero h = absurd (omega arith)
byte-beyond (b ∷ d) (suc i) h = byte-beyond d i (omega arith)

byte-over :
    (d v : Bytes) (i : ℕ) → byte (over d v) i ≡ (if ltb i (length d) then byte d i else byte v i)
unfolding byte
byte-over [] v i = ground arith
byte-over (b ∷ d) [] zero = ground arith
byte-over (b ∷ d) [] (suc i) = ground (arith, byte-beyond d i)
byte-over (b ∷ d) (c ∷ v) zero = ground arith
byte-over (b ∷ d) (c ∷ v) (suc i) = ground (arith, byte-over d v i)

abbrev pub within : ℕ → ℕ → ℕ → Bool
within lo n i = leb lo i && ltb i (lo + n)

-- A write changes the bytes of its range and no other.
pub byte-overwrite :
    (o : ℕ) (d v : Bytes) (i : ℕ)
    → byte (overwrite o d v) i ≡ (if within o (length d) i then byte d (i - o) else byte v i)
unfolding byte
byte-overwrite zero d v i = ground (arith, byte-over d v i)
byte-overwrite (suc o) d [] zero = ground arith
byte-overwrite (suc o) d [] (suc i) = ground (arith, byte-overwrite o d [] i)
byte-overwrite (suc o) d (c ∷ v) zero = ground arith
byte-overwrite (suc o) d (c ∷ v) (suc i) = ground (arith, byte-overwrite o d v i)

pub byte-append :
    (xs ys : Bytes) (i : ℕ)
    → byte (xs ++ ys) i ≡ (if ltb i (length xs) then byte xs i else byte ys (i - length xs))
unfolding byte
byte-append [] ys i = ground arith
byte-append (x ∷ xs) ys zero = ground arith
byte-append (x ∷ xs) ys (suc i) = ground (arith, byte-append xs ys i)

abbrev pub larger : ℕ → ℕ → ℕ
larger m n = if ltb m n then n else m

length-over : (d v : Bytes) → length (over d v) ≡ larger (length v) (length d)
length-over [] v = ground arith
length-over (b ∷ d) [] = ground arith
length-over (b ∷ d) (c ∷ v) = ground (arith, length-over d v)

pub length-overwrite :
    (o : ℕ) (d v : Bytes) → length (overwrite o d v) ≡ larger (length v) (o + length d)
length-overwrite zero d v = ground (arith, length-over d v)
length-overwrite (suc o) d [] = ground (arith, length-overwrite o d [])
length-overwrite (suc o) d (c ∷ v) = ground (arith, length-overwrite o d v)
