-- ===== src/Abspath/Pieces.antt =====
-- The scan of `abspath` reads the pieces of a path in turn, and skips empty ones.
use pdwfs.Base.{
  ℕ, ◌+◌, ◌≤◌, ◌≡◌, refl, ◌⊎◌, inl, inr, List, [], ◌∷◌, Bytes, length, arith, ◌==◌, Bool-cases,
}
use pdwfs.Machine.Host.{Lacks}
use pdwfs.Abspath.{slash, skip_slashes, component, after, kind, here, up, entry}
use pdwfs.Abspath.Reference.{AllNames, split, pop, enter, resolve}

pub resolve-skip_slashes :
    (s : Bytes) (st : List Bytes) → resolve (split (skip_slashes s)) st ≡ resolve (split s) st
unfolding skip_slashes split resolve enter
resolve-skip_slashes [] st = refl
resolve-skip_slashes (c ∷ s) st = ground (arith, resolve-skip_slashes s st)

abbrev rest_of : Bytes → List Bytes
rest_of [] = []
rest_of (c ∷ s) = split s

split-component : (s : Bytes) → split s ≡ component s ∷ rest_of (after s)
unfolding split component after
split-component [] = refl
split-component (c ∷ s) = ground (arith, split-component s)

after-slash : (s : Bytes) (c : ℕ) (r : Bytes) → after s ≡ c ∷ r → c ≡ slash
unfolding after
after-slash [] c r e = cc
after-slash (d ∷ s) c r e = ground (arith, after-slash s c r)

resolve-rest_of :
    (s r : Bytes) (st : List Bytes) → after s ≡ r → resolve (rest_of r) st ≡ resolve (split r) st
unfolding split resolve enter
resolve-rest_of s [] st e = refl
resolve-rest_of s (c ∷ r) st e = rw (after-slash s c r e) refl

pub resolve-component :
    (s : Bytes) (st : List Bytes)
    → resolve (split s) st ≡ resolve (split (after s)) (enter (component s) st)
unfolding resolve
resolve-component s st = rw (split-component s) (resolve-rest_of s (after s) _ refl)

pub length-skip_slashes : (s : Bytes) → length (skip_slashes s) ≤ length s
unfolding skip_slashes
length-skip_slashes [] = omega arith
length-skip_slashes (c ∷ s) = ground (arith, length-skip_slashes s)

pub length-after : (s : Bytes) → length (after s) + length (component s) ≡ length s
unfolding after component
length-after [] = omega arith
length-after (c ∷ s) = ground (arith, length-after s)

pub skip_slashes-end : (s : Bytes) → component (skip_slashes s) ≡ [] → skip_slashes s ≡ []
unfolding skip_slashes component
skip_slashes-end [] e = refl
skip_slashes-end (c ∷ s) e = ground (arith, skip_slashes-end s)

pub component-Lacks : (s : Bytes) → Lacks slash (component s)
unfolding component
component-Lacks [] = tt
component-Lacks (c ∷ s) = elim (Bool-cases (c == slash)) [
  | inl e ↦ rw e tt
  | inr e ↦ rw e (ground arith, component-Lacks s)
]

pub kind-enter :
    (c : ℕ) (s : Bytes) (st : List Bytes)
    → ((kind (c ∷ s) ≡ here) × (enter (c ∷ s) st ≡ st))
      ⊎ (((kind (c ∷ s) ≡ up) × (enter (c ∷ s) st ≡ pop st))
          ⊎ ((kind (c ∷ s) ≡ entry) × (enter (c ∷ s) st ≡ (c ∷ s) ∷ st)))
unfolding kind enter
kind-enter c [] st = ground arith
kind-enter c (d ∷ []) st = ground arith
kind-enter c (d ∷ e ∷ s) st = ground arith

pub AllNames-pop : (st : List Bytes) → AllNames st → AllNames (pop st)
AllNames-pop [] h = h
AllNames-pop (p ∷ st) h = h.1
