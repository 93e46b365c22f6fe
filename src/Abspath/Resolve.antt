-- ===== src/Abspath/Resolve.antt =====
-- utils.c, `abspath` beside the reference resolution, with its buffer and its fuel.
use mathlib.Core.List.{append-nil}
use pdwfs.Base.{
  ℕ, zero, suc, ◌<◌, ◌≡◌, refl, sym, ap, ◌∙◌, ◌⊎◌, inl, inr, Bool, false, some, List, [], ◌∷◌,
  Bytes, length, arith, ◌==◌, Bool-cases, lt→ltb,
}
use pdwfs.Abspath.{
  Outcome, ok, null, ◌>>=◌, Buf, slash, enomem, path_max, skip_slashes, component, after, push_back,
  kind, visit, walk, origin, abspath,
}
use pdwfs.Abspath.Reference.{IsName, AllNames, split, enter, resolve, start, absolute}
use pdwfs.Abspath.Shape.{
  Shape, slashed, bare, body, back_up-Shape, append-Shape, push_back-push_back, length-push_back,
}
use pdwfs.Abspath.Trimmed.{finish-absolute, push_back-body}
use pdwfs.Abspath.Pieces.{
  resolve-skip_slashes, resolve-component, length-skip_slashes, length-after, skip_slashes-end,
  component-Lacks, kind-enter, AllNames-pop,
}

-- Either an allocation failed, or the buffer holds this stack.
abbrev Reaches : (ℕ → Bool) → List Bytes → Outcome Buf → Type 0
Reaches alloc st r =
    ((n : ℕ) × (alloc n ≡ false) × (r ≡ null enomem))
    ⊎ ((b : Buf) × (r ≡ ok b) × Shape st b.rev × AllNames st × (length b.rev < b.limit))

module _ (alloc : ℕ → Bool) where
  visit-Reaches :
      (c : ℕ) (s : Bytes) (st : List Bytes) (b : Buf)
      → IsName (c ∷ s)
      → AllNames st
      → Shape st b.rev
      → length b.rev < b.limit
      → Reaches alloc (enter (c ∷ s) st) (visit alloc (kind (c ∷ s)) (c ∷ s) b)
  unfolding visit
  visit-Reaches c s st b name names shape fits = elim (kind-enter c s st) [
    | inl (k, e) ↦ rw (k, e) (inr (b, refl, shape, names, fits))
    | inr (inl (k, e)) ↦
        let (b', f, shape', fits') = back_up-Shape st b names shape fits in
        rw (k, e) (inr (b', f, shape', AllNames-pop st names, fits'))
    | inr (inr (k, e)) ↦
        rw (k, e)
          (elim (append-Shape alloc st (c ∷ s) b names shape fits) [
            | inl refused ↦ inl refused
            | inr (b', f, shape', fits') ↦ inr (b', f, shape', (name, names), fits')
          ])
  ]

  walk-end :
      (fuel : ℕ) (s : Bytes) (b : Buf)
      → component (skip_slashes s) ≡ []
      → walk alloc (suc fuel) s b ≡ ok b
  unfolding walk
  walk-end fuel s b e = rw (e, walk)

  walk-step :
      (fuel c : ℕ) (s p : Bytes) (b : Buf)
      → component (skip_slashes s) ≡ c ∷ p
      → walk alloc (suc fuel) s b
        ≡ (visit alloc (kind (c ∷ p)) (c ∷ p) b >>= walk alloc fuel (after (skip_slashes s)))
  unfolding walk
  walk-step fuel c s p b e = rw (e, walk)

  shorter :
      (fuel c : ℕ) (s p : Bytes)
      → component (skip_slashes s) ≡ c ∷ p
      → length s < suc fuel
      → length (after (skip_slashes s)) < fuel
  shorter fuel c s p e h =
      omega (arith, length-after (skip_slashes s), length-skip_slashes s, ap length e)

  IsName-of : (c : ℕ) (s p : Bytes) → component s ≡ c ∷ p → IsName (c ∷ p)
  IsName-of c s p e = record { ne_nil = λ z. cc; lacks = rw e at (component-Lacks s) }

  stop-Reaches :
      (fuel : ℕ) (s : Bytes) (st : List Bytes) (b : Buf)
      → AllNames st
      → Shape st b.rev
      → length b.rev < b.limit
      → component (skip_slashes s) ≡ []
      → Reaches alloc (resolve (split (skip_slashes s)) st) (walk alloc (suc fuel) s b)
  unfolding resolve split enter
  stop-Reaches fuel s st b names shape fits e =
      rw (walk-end fuel s b e, skip_slashes-end s e) (inr (b, refl, shape, names, fits))

  -- The walk brings the buffer from a stack to the stack after all pieces of the path.
  walk-Reaches :
      (fuel : ℕ) (s : Bytes) (st : List Bytes) (b : Buf)
      → AllNames st
      → Shape st b.rev
      → length b.rev < b.limit
      → length s < fuel
      → Reaches alloc (resolve (split s) st) (walk alloc fuel s b)
  walk-Reaches zero s st b names shape fits h = absurd (omega arith)
  walk-Reaches (suc fuel) s st b names shape fits h =
      rw (← resolve-skip_slashes s st)
        (go (component (skip_slashes s)) refl (walk-Reaches fuel (after (skip_slashes s))))
    where
      go :
          (p : Bytes)
          → component (skip_slashes s) ≡ p
          → ((st' : List Bytes) (b' : Buf)
              → AllNames st'
              → Shape st' b'.rev
              → length b'.rev < b'.limit
              → length (after (skip_slashes s)) < fuel
              → Reaches alloc
                  (resolve (split (after (skip_slashes s))) st')
                  (walk alloc fuel (after (skip_slashes s)) b'))
          → Reaches alloc (resolve (split (skip_slashes s)) st) (walk alloc (suc fuel) s b)
      go [] e rec = stop-Reaches fuel s st b names shape fits e
      go (c ∷ p) e rec =
          rw (walk-step fuel c s p b e, resolve-component (skip_slashes s) st, e)
            (elim (visit-Reaches c p st b (IsName-of c (skip_slashes s) p e) names shape fits) [
              | inl (n, refused, f) ↦ inl (n, refused, rw f)
              | inr (b', f, shape', names', fits') ↦
                  rw f (rec (enter (c ∷ p) st) b' names' shape' fits' (shorter fuel c s p e h))
            ])

-- The path of a working directory: no NUL-terminated buffer of PATH_MAX bytes overflows with it.
pub record IsDir (cwd : Bytes) (st : List Bytes) : Type 0 where
  pub names : AllNames st
  pub path : cwd ≡ absolute st
  pub short : length cwd < path_max

Shape-absolute : (st : List Bytes) → Shape st (push_back (absolute st) [])
unfolding absolute push_back body
Shape-absolute [] = slashed refl
Shape-absolute (p ∷ st) =
    bare (λ z. cc)
      (ap (λ r. push_back r []) (sym (push_back-body (p ∷ st) []))
        ∙ push_back-push_back (body (p ∷ st)) [] []
        ∙ append-nil (body (p ∷ st)))

origin-Shape :
    (cwd : Bytes) (st : List Bytes) (c : ℕ) (s : Bytes)
    → IsDir cwd st
    → (b : Buf) × (origin (inl cwd) (c ∷ s) ≡ ok b)
      × Shape (start st (c ∷ s)) b.rev
      × AllNames (start st (c ∷ s))
      × (length b.rev < b.limit)
unfolding origin start body
origin-Shape cwd st c s dir = elim (Bool-cases (c == slash)) [
  | inl e ↦
      rw e (record { rev = slash ∷ []; limit = path_max }, refl, slashed refl, tt, omega arith)
  | inr e ↦
      rw (e, lt→ltb (length cwd) path_max dir.short)
        (
          record { rev = push_back cwd []; limit = path_max },
          refl,
          rw dir.path (Shape-absolute st),
          dir.names,
          omega (arith, length-push_back cwd [], dir.short),
        )
]

-- From a working directory whose path fits PATH_MAX, `abspath` of a non-empty path returns the path of
-- the components that its pieces lead to, from the root if it begins with '/' and from that directory
-- if not; or some allocation failed, and it returns NULL with ENOMEM. It never writes outside the
-- buffer, nor reads before it, and the scan ends.
pub abspath-absolute :
    (cwd : Bytes) (st : List Bytes) (alloc : ℕ → Bool) (c : ℕ) (s : Bytes)
    → IsDir cwd st
    → ((n : ℕ) × (alloc n ≡ false) × (abspath (inl cwd) alloc (some (c ∷ s)) ≡ null enomem))
      ⊎ (abspath (inl cwd) alloc (some (c ∷ s))
          ≡ ok (absolute (resolve (split (c ∷ s)) (start st (c ∷ s)))))
unfolding abspath
abspath-absolute cwd st alloc c s dir = elim (Bool-cases (alloc path_max)) [
  | inr refused ↦ inl (path_max, refused, rw refused)
  | inl got ↦
      let (b, e, shape, names, fits) = origin-Shape cwd st c s dir in
      rw (got, e)
        (elim (walk-Reaches alloc (suc (length (c ∷ s))) (c ∷ s) _ b names shape fits
          (omega arith)) [
            | inl (n, refused, f) ↦ inl (n, refused, rw f)
            | inr (b', f, shape', names', fits') ↦
                inr (rw f (finish-absolute _ b' names' shape' fits'))
          ])
]
