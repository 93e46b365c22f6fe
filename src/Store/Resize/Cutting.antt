-- ===== src/Store/Resize/Cutting.antt =====
-- store.go, `Resize`: the tasks of a file that becomes shorter.
use native.Mathlib.Nat.{zero-mod, zero-div}
use native.Mathlib.Decide.{dec_lt}
use pdwfs.Base.{
  ℕ, zero, suc, ◌+◌, ◌-◌, ◌*◌, ◌/◌, ◌%◌, ◌≤◌, ◌<◌, ◌≡◌, ◌⊎◌, refl, ap, true, List, [], ◌∷◌, ◌++◌,
  map, arith, ltb, inl, inr,
}
use pdwfs.Base.Int.{pos, negsuc}
use pdwfs.Store.Keys.{divmod}
use pdwfs.Store.Tiling.{div_mod}
use pdwfs.Store.Orders.{All, Some}
use pdwfs.Store.Written.{row_lt}
use pdwfs.Store.Resize.{Task, adjusted, removal, trimming, last_stripe_info, ids_from, resize_tasks}
use pdwfs.Store.Resize.Shorter.{Cuts, removes, trims, trims_none, IsOn}

-- The last stripe, from the quotient and the remainder.
last_parts :
    (q r m size : ℕ)
    → q * size + r ≡ suc m
    → r < size
    → (k : ℕ) × (l : ℕ) × (adjusted size (pos q, pos r) ≡ (pos k, pos (suc l)))
      × (k * size + suc l ≡ suc m)
      × (suc l ≤ size)
last_parts q r m zero e h = absurd (omega arith)
last_parts zero zero m (suc size) e h = absurd (omega arith)
last_parts (suc q) zero m (suc size) e h = (q, size, refl, grind arith, omega arith)
last_parts q (suc r) m (suc size) e h = (q, r, ground arith, e, omega arith)

-- The last stripe of a file that is not empty.
last_stripe_info-pos :
    (m size : ℕ)
    → 0 < size
    → (k : ℕ) × (l : ℕ) × (last_stripe_info (pos (suc m)) size ≡ (pos k, pos (suc l)))
      × (k * size + suc l ≡ suc m)
      × (suc l ≤ size)
unfolding last_stripe_info divmod
last_stripe_info-pos m size z =
    let d = div_mod (suc m) size z in last_parts (suc m / size) (suc m % size) m size d.0 d.1

pub ids_from-removes :
    (size n i left : ℕ) → n ≤ i * size → All (Cuts size n) (map removal (ids_from i left))
ids_from-removes size n i zero h = tt
ids_from-removes size n i (suc left) h =
    (removes i h, ids_from-removes size n (suc i) left (grind arith))

pub ids_from-Some :
    (i left j : ℕ)
    → i ≤ j
    → j < i + left
    → Some (λ t. t ≡ removal (pos j)) (map removal (ids_from i left))
ids_from-Some i zero j h k = absurd (omega arith)
ids_from-Some i (suc left) j h k = elim (dec_lt i j) [
  | yes later ↦ inr (ids_from-Some (suc i) left j (omega arith) (omega arith))
  | no now ↦ inl (ap (λ m. removal (pos m)) (omega arith))
]

All-append : (P : Task → Type 0) (xs ys : List Task) → All P xs → All P ys → All P (xs ++ ys)
All-append P [] ys hx hy = hy
All-append P (x ∷ xs) ys hx hy = (hx.0, All-append P xs ys hx.1 hy)

Some-append_left : (P : Task → Type 0) (xs ys : List Task) → Some P xs → Some P (xs ++ ys)
Some-append_left P [] ys h = absurd h
Some-append_left P (x ∷ xs) ys (inl h) = inl h
Some-append_left P (x ∷ xs) ys (inr h) = inr (Some-append_left P xs ys h)

Some-append_right : (P : Task → Type 0) (xs ys : List Task) → Some P ys → Some P (xs ++ ys)
Some-append_right P [] ys h = h
Some-append_right P (x ∷ xs) ys h = inr (Some-append_right P xs ys h)

-- The tasks that cut a file of `m` bytes to `n`: they remove the stripes from `first` on to the last one,
-- and trim the one before `first`, if there is one.
pub record CutTasks (size m n : ℕ) (ts : List Task) : Type 0 where
  pub first : ℕ
  pub last : ℕ
  pub all_cut : All (Cuts size n) ts
  pub removed : (j : ℕ) → first ≤ j → j ≤ last → Some (λ t. t ≡ removal (pos j)) ts
  pub trimmed : (j : ℕ) → j < first → (size ≤ n - j * size) ⊎ Some (IsOn j) ts
  pub covers : m ≤ suc last * size
  pub begins : (j : ℕ) → j < first → j * size < n
  pub ends : (n ≡ 0) ⊎ ((k : ℕ) × (l : ℕ) × (k * size + suc l ≡ n) × (suc l ≤ size))

last_stripe_info-zero : (size : ℕ) → last_stripe_info (pos 0) size ≡ (negsuc 0, pos size)
unfolding last_stripe_info divmod
last_stripe_info-zero size = rw (zero-mod size, zero-div size) refl

row_end : (k l size m : ℕ) → k * size + suc l ≡ m → suc l ≤ size → m ≤ suc k * size
row_end k l size m e h = grind arith

row_begin : (j k l size m : ℕ) → k * size + suc l ≡ m → j < suc k → j * size < m
row_begin j k l size m e h = elim (dec_lt j k) [
  | yes below ↦ omega (arith, row_lt j k size below)
  | no last ↦ let same : j ≡ k = omega arith in rw same (omega arith)
]

pub resize_tasks-CutTasks :
    (size m n : ℕ) → 0 < size → n < m → CutTasks size m n (resize_tasks size (pos m) (pos n))
unfolding resize_tasks
resize_tasks-CutTasks size zero n z h = absurd (omega arith)
resize_tasks-CutTasks zero (suc m) n z h = absurd (omega arith)
resize_tasks-CutTasks (suc size) (suc m) zero z h =
    let (k, l, info, e, short) = last_stripe_info-pos m (suc size) z in
    let smaller : ltb 0 (suc m) ≡ true = ground arith in
    let removals = map removal (ids_from 0 (suc k - 0)) in
    let trim = trimming (negsuc 0) (suc size) ∷ [] in
    rw (info, last_stripe_info-zero (suc size))
      (rw smaller record {
        first = 0;
        last = k;
        all_cut =
            All-append (Cuts (suc size) 0) removals trim
              (ids_from-removes (suc size) 0 0 (suc k - 0) (omega arith))
              (trims_none 0 size refl, tt);
        removed = λ j a b.
            Some-append_left (λ t. t ≡ removal (pos j)) removals trim
              (ids_from-Some 0 (suc k - 0) j a (omega arith));
        trimmed = λ j a. absurd (omega arith);
        covers = row_end k l (suc size) (suc m) e short;
        begins = λ j a. absurd (omega arith);
        ends = inl refl;
      })
resize_tasks-CutTasks (suc size) (suc m) (suc n) z h =
    let (k, l, info, e, short) = last_stripe_info-pos m (suc size) z in
    let (k', l', info', e', short') = last_stripe_info-pos n (suc size) z in
    let smaller : ltb (suc n) (suc m) ≡ true = ground arith in
    let removals = map removal (ids_from (suc k') (suc k - suc k')) in
    let trim = trimming (pos k') (suc l') ∷ [] in
    rw (info, info')
      (rw smaller record {
        first = suc k';
        last = k;
        all_cut =
            All-append (Cuts (suc size) (suc n)) removals trim
              (ids_from-removes (suc size) (suc n) (suc k') (suc k - suc k')
                (row_end k' l' (suc size) (suc n) e' short'))
              (trims k' l' e', tt);
        removed = λ j a b.
            Some-append_left (λ t. t ≡ removal (pos j)) removals trim
              (ids_from-Some (suc k') (suc k - suc k') j a (omega arith));
        trimmed = λ j a. elim (dec_lt j k') [
          | yes below ↦ inl (omega (arith, row_lt j k' (suc size) below))
          | no last ↦ inr (Some-append_right (IsOn j) removals trim (inl (ap pos (omega arith))))
        ];
        covers = row_end k l (suc size) (suc m) e short;
        begins = λ j a. row_begin j k' l' (suc size) (suc n) e' a;
        ends = inr (k', l', e', short');
      })
