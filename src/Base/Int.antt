-- ===== src/Base/Int.antt =====
-- C integers: ℤ over the native numbers, and the conversions between C's integer types that the
-- code makes implicitly.
use Prim.Native.Nat.{ℕ, ◌-◌, ◌*◌, ◌%◌, ◌^◌, ◌<◌}
use mathlib.Core.Path.{◌≡◌}
use mathlib.Core.Logic.{◌↔◌}
use mathlib.Core.Bool.{Bool, true, false}
use native.Mathlib.Omega.{arith}
use pdwfs.Base.Tests.{ltb, ◌==◌, if◌then◌else◌}

-- `negsuc n` is -(n + 1).
pub data ℤ : Type 0 where
  pos : ℕ → ℤ
  negsuc : ℕ → ℤ

-- -1, the error result of most calls, and EOF.
abbrev pub minus_one : ℤ
minus_one = negsuc 0

abbrev pub pos_part : ℤ → ℕ
pos_part (pos n) = n
pos_part (negsuc n) = 0

abbrev pub is_neg : ℤ → Bool
is_neg (pos n) = false
is_neg (negsuc n) = true

infix 50 ◌==ℤ◌
abbrev pub ◌==ℤ◌ : ℤ → ℤ → Bool
pos a ==ℤ pos b = a == b
pos a ==ℤ negsuc b = false
negsuc a ==ℤ pos b = false
negsuc a ==ℤ negsuc b = a == b

pub ==ℤ_iff : (a b : ℤ) → ((a ==ℤ b) ≡ true) ↔ (a ≡ b)
==ℤ_iff (pos a) (pos b) = ground arith
==ℤ_iff (pos a) (negsuc b) = ground arith
==ℤ_iff (negsuc a) (pos b) = ground arith
==ℤ_iff (negsuc a) (negsuc b) = ground arith

-- The bit pattern of an integer in w bits, for `m = 2 ^ w`.
abbrev pub wrap : ℕ → ℤ → ℕ
wrap m (pos n) = n % m
wrap m (negsuc n) = m - 1 - n % m

-- Conversion to `int` (32 bits, two's complement).
unfoldable pub to_int : ℤ → ℤ
to_int i = let w = wrap (2 ^ 32) i in if ltb w (2 ^ 31) then pos w else negsuc (2 ^ 32 - 1 - w)

-- Conversion to `size_t` (64 bits, unsigned).
unfoldable pub to_size : ℤ → ℕ
to_size = wrap (2 ^ 64)

-- Conversion of a byte to `char`, which is signed, and back to `int`.
unfoldable pub char_to_int : ℕ → ℤ
char_to_int b = if ltb b 128 then pos b else negsuc (255 - b)

-- The product of two `size_t`.
abbrev pub mul_size : ℕ → ℕ → ℕ
mul_size a b = (a * b) % 2 ^ 64

pub to_int-pos : (n : ℕ) → n < 2 ^ 31 → to_int (pos n) ≡ pos n
unfolding to_int
to_int-pos n h = ground arith

pub to_int-negsuc : (n : ℕ) → n < 2 ^ 31 → to_int (negsuc n) ≡ negsuc n
unfolding to_int
to_int-negsuc n h = ground arith

pub to_size-pos : (n : ℕ) → n < 2 ^ 64 → to_size (pos n) ≡ n
unfolding to_size
to_size-pos n h = omega arith

size-small : (n : ℕ) → n < 2 ^ 64 → n % 2 ^ 64 ≡ n
size-small n h = omega arith

pub mul_size-small : (a b : ℕ) → a * b < 2 ^ 64 → mul_size a b ≡ a * b
mul_size-small a b h = size-small (a * b) h
