-- ===== src/Ring/Sorting.antt =====
-- consistenthash.go, the order of the positions: `sort.Ints` sorts, and leaves a sorted slice alone.
use mathlib.Core.List.{append-nil, append_assoc}
use pdwfs.Base.{ℕ, ◌≤◌, ◌≡◌, refl, sym, ◌∙◌, List, [], ◌∷◌, ◌++◌, arith, ltb, Bool-cases, inl, inr}
use pdwfs.Ring.{insert_position, sort_onto}

pub sort_onto-append :
    (y : ℕ) (xs ps : List ℕ) → sort_onto ps (xs ++ y ∷ []) ≡ insert_position y (sort_onto ps xs)
unfolding sort_onto
sort_onto-append y [] ps = refl
sort_onto-append y (x ∷ xs) ps = sort_onto-append y xs (insert_position x ps)

-- In ascending order, from `lo` on.
abbrev pub IsFrom : ℕ → List ℕ → Type 0
IsFrom lo [] = Unit
IsFrom lo (p ∷ ps) = (lo ≤ p) × IsFrom p ps

abbrev pub IsSorted : List ℕ → Type 0
IsSorted = IsFrom 0

le_of_IsFrom : (lo y : ℕ) (xs ys : List ℕ) → IsFrom lo (xs ++ y ∷ ys) → lo ≤ y
le_of_IsFrom lo y [] ys s = s.0
le_of_IsFrom lo y (x ∷ xs) ys s = omega (arith, s.0, le_of_IsFrom x y xs ys s.1)

insert-last :
    (lo y : ℕ) (xs ys : List ℕ) → IsFrom lo (xs ++ y ∷ ys) → insert_position y xs ≡ xs ++ y ∷ []
unfolding insert_position
insert-last lo y [] ys s = refl
insert-last lo y (x ∷ xs) ys s =
    ground (arith, le_of_IsFrom x y xs ys s.1, insert-last x y xs ys s.1)

pub sort_sorted : (xs ys : List ℕ) → IsSorted (xs ++ ys) → sort_onto xs ys ≡ xs ++ ys
unfolding sort_onto
sort_sorted xs [] s = sym (append-nil xs)
sort_sorted xs (y ∷ ys) s =
    let moved = append_assoc xs (y ∷ []) ys in
    rw (insert-last 0 y xs ys s) (sort_sorted (xs ++ y ∷ []) ys (rw moved s) ∙ moved)

insert-IsFrom : (lo y : ℕ) (ps : List ℕ) → lo ≤ y → IsFrom lo ps → IsFrom lo (insert_position y ps)
unfolding insert_position
insert-IsFrom lo y [] h s = (h, tt)
insert-IsFrom lo y (p ∷ ps) h s = elim (Bool-cases (ltb y p)) [
  | inl below ↦ rw below (h, (ground arith, s.1))
  | inr above ↦ rw above (s.0, insert-IsFrom p y ps (ground arith) s.1)
]

pub sort_onto-IsSorted : (xs ys : List ℕ) → IsSorted xs → IsSorted (sort_onto xs ys)
unfolding sort_onto
sort_onto-IsSorted xs [] s = s
sort_onto-IsSorted xs (y ∷ ys) s =
    sort_onto-IsSorted (insert_position y xs) ys (insert-IsFrom 0 y xs (omega arith) s)
