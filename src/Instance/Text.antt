-- ===== src/Instance/Text.antt =====
-- g_str_has_prefix and g_strsplit, as functions on byte lists, and the bytes of a string literal.
use Prim.Native.Char.{code}
use Prim.Native.String.{String}
use pdwfs.Base.{
  ℕ, ◌≡◌, refl, ◌≢◌, Bool, true, false, ◌&&◌, List, [], ◌∷◌, ◌++◌, Bytes, arith, ◌==◌,
  if◌then◌else◌,
}
use pdwfs.Machine.Host.{Strings, Lacks}

abbrev pub codes : String → Bytes
codes String.[] = []
codes (String.◌∷◌ c s) = code c ∷ codes s

abbrev pub has_prefix : Bytes → Bytes → Bool
has_prefix s [] = true
has_prefix [] (c ∷ p) = false
has_prefix (d ∷ s) (c ∷ p) = (d == c) && has_prefix s p

pub has_prefix-append : (p r : Bytes) → has_prefix (p ++ r) p ≡ true
has_prefix-append [] [] = refl
has_prefix-append [] (x ∷ r) = refl
has_prefix-append (c ∷ p) r = ground (arith, has_prefix-append p r)

pub has_prefix_true : (s p : Bytes) → has_prefix s p ≡ true → (r : Bytes) × (s ≡ p ++ r)
has_prefix_true s [] h = (s, refl)
has_prefix_true [] (c ∷ p) h = cc
has_prefix_true (d ∷ s) (c ∷ p) h =
    let (r, e) = has_prefix_true s p (ground arith) in (r, ground arith)

abbrev pub cons_first : ℕ → List Bytes → List Bytes
cons_first c [] = (c ∷ []) ∷ []
cons_first c (p ∷ ps) = (c ∷ p) ∷ ps

abbrev pub pieces : Bytes → ℕ → List Bytes
pieces [] d = [] ∷ []
pieces (c ∷ s) d = if c == d then [] ∷ pieces s d else cons_first c (pieces s d)

abbrev pub strsplit : Bytes → ℕ → List Bytes
strsplit [] d = []
strsplit (c ∷ s) d = pieces (c ∷ s) d

pub pieces-single : (d : ℕ) (xs : Bytes) → Lacks d xs → pieces xs d ≡ xs ∷ []
pieces-single d [] l = refl
pieces-single d (x ∷ xs) l = ground (arith, pieces-single d xs l.1)

pieces-append : (d : ℕ) (xs ys : Bytes) → Lacks d xs → pieces (xs ++ d ∷ ys) d ≡ xs ∷ pieces ys d
pieces-append d [] ys l = ground arith
pieces-append d (x ∷ xs) ys l = ground (arith, pieces-append d xs ys l.1)

strsplit-pieces : (s : Bytes) (d : ℕ) → s ≢ [] → strsplit s d ≡ pieces s d
strsplit-pieces [] d ne = absurd (ne refl)
strsplit-pieces (c ∷ s) d ne = refl

append-ne_nil : (xs ys : Bytes) (d : ℕ) → xs ++ d ∷ ys ≢ []
append-ne_nil [] ys d e = cc
append-ne_nil (x ∷ xs) ys d e = cc

pub strsplit-append :
    (d : ℕ) (xs ys : Bytes) → Lacks d xs → ys ≢ [] → strsplit (xs ++ d ∷ ys) d ≡ xs ∷ strsplit ys d
strsplit-append d xs ys l ne =
    rw (strsplit-pieces (xs ++ d ∷ ys) d (append-ne_nil xs ys d), strsplit-pieces ys d ne)
      (pieces-append d xs ys l)

pub strsplit-last : (d : ℕ) (xs : Bytes) → Lacks d xs → strsplit (xs ++ d ∷ []) d ≡ xs ∷ [] ∷ []
strsplit-last d xs l =
    rw (strsplit-pieces (xs ++ d ∷ []) d (append-ne_nil xs [] d)) (pieces-append d xs [] l)

abbrev pub strings : Strings
strings = record {
  has_prefix = has_prefix;
  strsplit = strsplit;
  has_prefix-append = has_prefix-append;
  has_prefix_true = has_prefix_true;
  strsplit-nil = λ c. refl;
  strsplit-single = λ c x xs l. pieces-single c (x ∷ xs) l;
  strsplit-append = strsplit-append;
  strsplit-last = strsplit-last;
}
