-- ===== src/Abspath/Again.antt =====
-- `abspath` of what `abspath` returned.
use mathlib.Core.List.{append-nil}
use pdwfs.Base.{
  ℕ, ◌≡◌, refl, ap, sym, ◌∙◌, ◌≢◌, inl, inr, Bool, true, false, Bool-cases, some, List, [], ◌∷◌,
  ◌++◌, Bytes, bytes_eq, bytes_eq_iff, arith,
}
use pdwfs.Machine.Host.{Lacks}
use pdwfs.Abspath.{ok, slash, abspath}
use pdwfs.Abspath.Reference.{split, pop, enter, resolve, climb, absolute, IsName, start}
use pdwfs.Abspath.Resolve.{IsDir, abspath-absolute}

-- A file name other than `.` and `..`.
pub record IsProper (p : Bytes) : Type 0 where
  pub name : IsName p
  pub no_dot : p ≢ b'.' ∷ []
  pub no_dots : p ≢ b'.' ∷ b'.' ∷ []

abbrev pub AllProper : List Bytes → Type 0
AllProper [] = Unit {0}
AllProper (p ∷ st) = IsProper p × AllProper st

abbrev AllLack : List Bytes → Type 0
AllLack [] = Unit {0}
AllLack (p ∷ ps) = Lacks slash p × AllLack ps

bytes_ne : (xs ys : Bytes) → xs ≢ ys → bytes_eq xs ys ≡ false
bytes_ne xs ys ne = elim (Bool-cases (bytes_eq xs ys)) [
  | inl e ↦ absurd (ne ((bytes_eq_iff xs ys).0 e))
  | inr e ↦ e
]

AllLack-split : (s : Bytes) → AllLack (split s)
unfolding split
AllLack-split [] = (tt, tt)
AllLack-split (c ∷ s) = ground (arith, AllLack-split s)

AllProper-pop : (st : List Bytes) → AllProper st → AllProper (pop st)
AllProper-pop [] h = tt
AllProper-pop (p ∷ st) h = h.1

AllProper-enter :
    (p : Bytes) (st : List Bytes) → Lacks slash p → AllProper st → AllProper (enter p st)
unfolding enter
AllProper-enter [] st l h = h
AllProper-enter (c ∷ s) st l h = elim (Bool-cases (bytes_eq (c ∷ s) (b'.' ∷ []))) [
  | inl dot ↦ rw dot h
  | inr no_dot ↦ elim (Bool-cases (bytes_eq (c ∷ s) (b'.' ∷ b'.' ∷ []))) [
    | inl dots ↦ rw (no_dot, dots) (AllProper-pop st h)
    | inr no_dots ↦
        rw (no_dot, no_dots)
          (
            record {
              name = record { ne_nil = λ z. cc; lacks = l };
              no_dot = λ e. let f = (bytes_eq_iff _ _).1 e in cc (f, no_dot);
              no_dots = λ e. let f = (bytes_eq_iff _ _).1 e in cc (f, no_dots);
            },
            h,
          )
  ]
]

AllProper-resolve : (ps st : List Bytes) → AllLack ps → AllProper st → AllProper (resolve ps st)
unfolding resolve
AllProper-resolve [] st l h = h
AllProper-resolve (p ∷ ps) st l h =
    AllProper-resolve ps (enter p st) l.1 (AllProper-enter p st l.0 h)

enter-proper : (p : Bytes) (st : List Bytes) → IsProper p → enter p st ≡ p ∷ st
unfolding enter
enter-proper [] st h = absurd (h.name.ne_nil refl)
enter-proper (c ∷ s) st h = rw (bytes_ne _ _ h.no_dot, bytes_ne _ _ h.no_dots) refl

-- A name before a slash is the first piece.
split-append : (p r : Bytes) → Lacks slash p → split (p ++ slash ∷ r) ≡ p ∷ split r
unfolding split
split-append [] r l = refl
split-append (c ∷ p) r l = ground (arith, split-append p r l.1)

split-single : (p : Bytes) → Lacks slash p → split p ≡ p ∷ []
unfolding split
split-single [] l = refl
split-single (c ∷ p) l = ground (arith, split-single p l.1)

resolve-climb :
    (st : List Bytes) (r : Bytes)
    → AllProper st
    → resolve (split (climb st (slash ∷ r))) [] ≡ resolve (split r) st
unfolding resolve climb split enter
resolve-climb [] r h = refl
resolve-climb (q ∷ st) r h =
    resolve-climb st (q ++ slash ∷ r) h.1
    ∙ ap (λ ps. resolve ps st) (split-append q r h.0.name.lacks)
    ∙ ap (resolve (split r)) (enter-proper q st h.0)

resolve-absolute : (st : List Bytes) → AllProper st → resolve (split (absolute st)) [] ≡ st
unfolding absolute climb split resolve enter
resolve-absolute [] h = refl
resolve-absolute (p ∷ st) h =
    resolve-climb st (p ++ []) h.1
    ∙ ap (λ s. resolve (split s) st) (append-nil p)
    ∙ ap (λ ps. resolve ps st) (split-single p h.0.name.lacks)
    ∙ enter-proper p st h.0

climb-slash : (st : List Bytes) (r : Bytes) → (t : Bytes) × (climb st (slash ∷ r) ≡ slash ∷ t)
unfolding climb
climb-slash [] r = (r, refl)
climb-slash (p ∷ st) r = climb-slash st (p ++ slash ∷ r)

absolute-slash : (st : List Bytes) → (t : Bytes) × (absolute st ≡ slash ∷ t)
unfolding absolute climb
absolute-slash [] = ([], refl)
absolute-slash (p ∷ st) = climb-slash st (p ++ [])

AllProper-start : (st : List Bytes) (p : Bytes) → AllProper st → AllProper (start st p)
unfolding start
AllProper-start st [] h = h
AllProper-start st (c ∷ s) h = ground arith

-- Where allocation succeeds.
abspath-total :
    (cwd : Bytes) (st : List Bytes) (alloc : ℕ → Bool) (c : ℕ) (s : Bytes)
    → IsDir cwd st
    → ((n : ℕ) → alloc n ≡ true)
    → abspath (inl cwd) alloc (some (c ∷ s))
      ≡ ok (absolute (resolve (split (c ∷ s)) (start st (c ∷ s))))
abspath-total cwd st alloc c s dir enough = elim (abspath-absolute cwd st alloc c s dir) [
  | inl (n, refused, _) ↦ cc (enough n)
  | inr e ↦ e
]

abspath-fixed :
    (cwd : Bytes) (st names : List Bytes) (alloc : ℕ → Bool) (t : Bytes)
    → IsDir cwd st
    → ((n : ℕ) → alloc n ≡ true)
    → AllProper names
    → absolute names ≡ slash ∷ t
    → abspath (inl cwd) alloc (some (absolute names)) ≡ ok (absolute names)
unfolding start
abspath-fixed cwd st names alloc t dir enough proper e =
    ap (λ p. abspath (inl cwd) alloc (some p)) e
    ∙ abspath-total cwd st alloc slash t dir enough
    ∙ ap (λ p. ok (absolute (resolve (split p) []))) (sym e)
    ∙ ap (λ st'. ok (absolute st')) (resolve-absolute names proper)

-- Where allocation succeeds, and the working directory has a path that fits PATH_MAX and no `.` or `..`
-- in it, `abspath` of a non-empty path returns a path that `abspath` gives back unchanged, from any
-- working directory whose path fits PATH_MAX.
pub abspath-again :
    (cwd cwd' : Bytes) (st st' : List Bytes) (alloc alloc' : ℕ → Bool) (c : ℕ) (s : Bytes)
    → IsDir cwd st
    → AllProper st
    → IsDir cwd' st'
    → ((n : ℕ) → alloc n ≡ true)
    → ((n : ℕ) → alloc' n ≡ true)
    → (p : Bytes) × (abspath (inl cwd) alloc (some (c ∷ s)) ≡ ok p)
      × (abspath (inl cwd') alloc' (some p) ≡ ok p)
abspath-again cwd cwd' st st' alloc alloc' c s dir proper dir' enough enough' =
    let names = resolve (split (c ∷ s)) (start st (c ∷ s)) in
    let (t, e) = absolute-slash names in
    let good =
      AllProper-resolve (split (c ∷ s)) (start st (c ∷ s)) (AllLack-split (c ∷ s))
        (AllProper-start st (c ∷ s) proper) in
    (
      absolute names,
      abspath-total cwd st alloc c s dir enough,
      abspath-fixed cwd' st' names alloc' t dir' enough' good e,
    )
