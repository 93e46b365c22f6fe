-- ===== src/Abspath/Shape.antt =====
-- The buffer of `abspath` holds a stack of components: its path, with or without a '/' at the end.
use mathlib.Core.List.{append_assoc}
use pdwfs.Base.{
  ℕ, suc, ◌+◌, ◌<◌, ◌≤◌, ◌≡◌, refl, sym, ap, ◌∙◌, ◌≢◌, ◌⊎◌, inl, inr, Bool, false, List, [], ◌∷◌,
  ◌++◌, Bytes, length, length-append, arith, ltb, leb, lt→ltb, Bool-cases, if◌then◌else◌,
}
use pdwfs.Machine.Host.{Lacks}
use pdwfs.Abspath.{
  ok, null, Buf, slash, enomem, path_max, push_back, separate, grow, copy, append, back_up_to,
  back_up,
}
use pdwfs.Abspath.Reference.{IsName, AllNames, pop}

-- The path of a stack, last byte first.
unfoldable pub body : List Bytes → Bytes
unfolding push_back
body [] = []
body (p ∷ st) = push_back p (slash ∷ body st)

pub data Shape (st : List Bytes) (rev : Bytes) : Type 0 where
  slashed : rev ≡ slash ∷ body st → Shape st rev
  bare : st ≢ [] → rev ≡ body st → Shape st rev

push_back-append : (p r : Bytes) → push_back p r ≡ push_back p [] ++ r
unfolding push_back
push_back-append [] r = refl
push_back-append (c ∷ p) r =
    push_back-append p (c ∷ r)
    ∙ sym
        (ap (λ t. t ++ r) (push_back-append p (c ∷ [])) ∙ append_assoc (push_back p []) (c ∷ []) r)

pub push_back-push_back : (p a r : Bytes) → push_back (push_back p a) r ≡ push_back a (p ++ r)
unfolding push_back
push_back-push_back [] a r = refl
push_back-push_back (c ∷ p) a r = push_back-push_back p (c ∷ a) r

pub length-push_back : (p r : Bytes) → length (push_back p r) ≡ length p + length r
unfolding push_back
length-push_back [] r = omega arith
length-push_back (c ∷ p) r = omega (arith, length-push_back p (c ∷ r))

Lacks-append : (c : ℕ) (p q : Bytes) → Lacks c p → Lacks c q → Lacks c (p ++ q)
Lacks-append c [] q hp hq = hq
Lacks-append c (x ∷ p) q hp hq = (hp.0, Lacks-append c p q hp.1 hq)

Lacks-push_back : (c : ℕ) (p r : Bytes) → Lacks c p → Lacks c r → Lacks c (push_back p r)
unfolding push_back
Lacks-push_back c [] r hp hr = hr
Lacks-push_back c (x ∷ p) r hp hr = Lacks-push_back c p (x ∷ r) hp.1 (hp.0, hr)

-- The last byte of a component, and what stands before it.
pub last_byte :
    (p : Bytes)
    → IsName p
    → (c : ℕ) × (q : Bytes) × (push_back p [] ≡ c ∷ q) × (c ≢ slash) × Lacks slash q
last_byte p h = go (push_back p []) refl (Lacks-push_back slash p [] h.lacks tt)
  where
    go :
        (r : Bytes)
        → push_back p [] ≡ r
        → Lacks slash r
        → (c : ℕ) × (q : Bytes) × (r ≡ c ∷ q) × (c ≢ slash) × Lacks slash q
    go [] e l = absurd (h.ne_nil (empty p (omega (arith, length-push_back p [], ap length e))))
      where
        empty : (p : Bytes) → length p ≡ 0 → p ≡ []
        empty [] z = refl
        empty (c ∷ p) z = absurd (omega arith)
    go (c ∷ q) e l = (c, q, refl, l.0, l.1)

-- The path of a non-empty stack ends in a byte other than '/', and leaves the stack below it when
-- that component is dropped.
pub body-cons :
    (p : Bytes) (st : List Bytes) (h : IsName p)
    → (c : ℕ) × (q : Bytes) × (body (p ∷ st) ≡ c ∷ (q ++ slash ∷ body st))
      × (c ≢ slash)
      × Lacks slash q
unfolding body
body-cons p st h =
    let (c, q, e, ne, l) = last_byte p h in
    (c, q, push_back-append p (slash ∷ body st) ∙ ap (λ t. t ++ slash ∷ body st) e, ne, l)

back_up_to-slash :
    (x limit : ℕ) (q r : Bytes)
    → Lacks slash q
    → back_up_to (x ∷ (q ++ slash ∷ r)) limit ≡ ok (slash ∷ r)
unfolding back_up_to
back_up_to-slash x limit [] r l = refl
back_up_to-slash x limit (y ∷ q) r l = ground (arith, back_up_to-slash y limit q r l.1)

back_up-nil :
    (rev : Bytes) (limit : ℕ)
    → rev ≡ slash ∷ []
    → back_up (record { rev = rev; limit = limit })
      ≡ ok (record { rev = slash ∷ []; limit = limit })
unfolding back_up
back_up-nil rev limit e = rw e

back_up-back_up_to :
    (b : Buf) (r : Bytes)
    → 1 < length b.rev
    → back_up_to b.rev b.limit ≡ ok r
    → back_up b ≡ ok (record b { rev = r })
unfolding back_up
back_up-back_up_to b r h e = rw (lt→ltb 1 (length b.rev) h, e)

length-body :
    (c : ℕ) (q : Bytes) (st : List Bytes)
    → length (c ∷ (q ++ slash ∷ body st)) ≡ length q + length (body st) + 2
length-body c q st = omega (arith, length-append q (slash ∷ body st))

-- `..` leaves the innermost component, in the same buffer.
pub back_up-Shape :
    (st : List Bytes) (b : Buf)
    → AllNames st
    → Shape st b.rev
    → length b.rev < b.limit
    → (b' : Buf) × (back_up b ≡ ok b') × Shape (pop st) b'.rev × (length b'.rev < b'.limit)
unfolding body
back_up-Shape [] b names (slashed e) fits = (
  record b { rev = slash ∷ [] },
  back_up-nil b.rev b.limit e,
  slashed refl,
  ground (arith, ap length e),
)
back_up-Shape [] b names (bare ne e) fits = absurd (ne refl)
back_up-Shape (p ∷ st) b names (slashed e) fits =
    let (c, q, f, ne, l) = body-cons p st names.0 in
    let e' = e ∙ ap (λ r. slash ∷ r) f in
    let size = ap length e' ∙ ap suc (length-body c q st) in
    (
      record b { rev = slash ∷ body st },
      back_up-back_up_to b _ (omega arith)
          (rw e' (back_up_to-slash slash b.limit (c ∷ q) (body st) (ne, l))),
      slashed refl,
      omega arith,
    )
back_up-Shape (p ∷ st) b names (bare n e) fits =
    let (c, q, f, ne, l) = body-cons p st names.0 in
    let e' = e ∙ f in
    let size = ap length e' ∙ length-body c q st in
    (
      record b { rev = slash ∷ body st },
      back_up-back_up_to b _ (omega arith) (rw e' (back_up_to-slash c b.limit q (body st) l)),
      slashed refl,
      omega arith,
    )

-- The '/' that goes before a component.
separate-slash :
    (st : List Bytes) (b : Buf)
    → AllNames st
    → Shape st b.rev
    → length b.rev < b.limit
    → (separate b b.rev ≡ ok (record b { rev = slash ∷ body st }))
      × (suc (length (body st)) ≤ b.limit)
unfolding separate
separate-slash st b names (slashed e) fits = (rw e, omega (arith, ap length e))
separate-slash [] b names (bare n e) fits = absurd (n refl)
separate-slash (p ∷ st) b names (bare n e) fits =
    let (c, q, f, ne, l) = body-cons p st names.0 in
    (ground (arith, e ∙ f, f), omega (arith, ap length e))

copy-fits :
    (p : Bytes) (b : Buf)
    → length b.rev + length p < b.limit
    → copy p b ≡ ok (record b { rev = push_back p b.rev })
unfolding copy
copy-fits p b h = ground (arith, length-push_back p b.rev)

grow-cases :
    (alloc : ℕ → Bool) (n : ℕ) (b : Buf)
    → length b.rev ≤ b.limit
    → ((m : ℕ) × (alloc m ≡ false) × (grow alloc n b ≡ null enomem))
      ⊎ ((m : ℕ) × (grow alloc n b ≡ ok (record b { limit = m })) × (length b.rev + n < m))
unfolding grow
grow-cases alloc n b h =
    let m = b.limit + (if ltb path_max (n + 1) then n + 1 else path_max) in
    elim (Bool-cases (leb b.limit (length b.rev + n))) [
      | inr fits ↦ inr (b.limit, rw fits, ground arith)
      | inl over ↦ elim (Bool-cases (alloc m)) [
        | inl got ↦ inr (m, rw (over, got), ground arith)
        | inr refused ↦ inl (m, refused, rw (over, refused))
      ]
    ]

-- A component that is not `.` or `..` becomes the innermost one, in a buffer that is grown where it
-- does not fit.
pub append-Shape :
    (alloc : ℕ → Bool) (st : List Bytes) (p : Bytes) (b : Buf)
    → AllNames st
    → Shape st b.rev
    → length b.rev < b.limit
    → ((n : ℕ) × (alloc n ≡ false) × (append alloc p b ≡ null enomem))
      ⊎ ((b' : Buf) × (append alloc p b ≡ ok b')
          × Shape (p ∷ st) b'.rev
          × (length b'.rev < b'.limit))
unfolding append body
append-Shape alloc st p b names shape fits =
    let (sep, room) = separate-slash st b names shape fits in
    rw sep (elim (grow-cases alloc (length p) (record b { rev = slash ∷ body st }) room) [
      | inl (n, refused, e) ↦ inl (n, refused, rw e)
      | inr (m, e, h) ↦ inr (
        record { rev = push_back p (slash ∷ body st); limit = m },
        rw e (copy-fits p (record { rev = slash ∷ body st; limit = m }) h),
        bare (λ z. cc) refl,
        omega (arith, length-push_back p (slash ∷ body st)),
      )
    ])
