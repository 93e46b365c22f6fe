-- ===== src/Store/Orders.antt =====
-- The orders of the goroutines of an operation: what holds of every stripe or of some stripe does so in
-- any order.
use mathlib.Core.List.Permᴰ.{nil, cons, swap, trans}
use mathlib.Core.List.{Permᴰ}
use pdwfs.Base.{List, [], ◌∷◌, ◌⊎◌, inl, inr, subst}

abbrev pub All {ℓ κ} : {A : Type ℓ} → (A → Type κ) → List A → Type κ
All P [] = Unit
All P (x ∷ xs) = P x × All P xs

pub All-perm {ℓ κ} :
    {A : Type ℓ} (P : A → Type κ) {xs ys : List A} → Permᴰ xs ys → All P xs → All P ys
All-perm P nil h = h
All-perm P (cons e p) h = (subst P e h.0, All-perm P p h.1)
All-perm P (swap e f) h = (subst P f h.1.0, (subst P e h.0, h.1.1))
All-perm P (trans p q) h = All-perm P q (All-perm P p h)

abbrev pub Some {ℓ} : {A : Type ℓ} → (A → Type 0) → List A → Type 0
Some P [] = ⊥
Some P (x ∷ xs) = P x ⊎ Some P xs

pub Some-perm {ℓ} :
    {A : Type ℓ} (P : A → Type 0) {xs ys : List A} → Permᴰ xs ys → Some P xs → Some P ys
Some-perm P nil h = h
Some-perm P (cons e p) (inl h) = inl (subst P e h)
Some-perm P (cons e p) (inr h) = inr (Some-perm P p h)
Some-perm P (swap e f) (inl h) = inr (inl (subst P e h))
Some-perm P (swap e f) (inr (inl h)) = inl (subst P f h)
Some-perm P (swap e f) (inr (inr h)) = inr (inr h)
Some-perm P (trans p q) h = Some-perm P q (Some-perm P p h)
