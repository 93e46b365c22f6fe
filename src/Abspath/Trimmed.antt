-- ===== src/Abspath/Trimmed.antt =====
-- The end of `abspath`: a '/' at the end is dropped, and the buffer gives the path of its stack.
use pdwfs.Base.{ℕ, ◌<◌, ◌≡◌, refl, ap, ◌∙◌, ◌≢◌, List, [], ◌∷◌, ◌++◌, Bytes, length, arith, lt→ltb}
use pdwfs.Abspath.{ok, Buf, slash, push_back, trim, finish}
use pdwfs.Abspath.Reference.{AllNames, climb, absolute}
use pdwfs.Abspath.Shape.{Shape, slashed, bare, body, body-cons, push_back-push_back}

pub push_back-body : (st : List Bytes) (rest : Bytes) → push_back (body st) rest ≡ climb st rest
unfolding body climb push_back
push_back-body [] rest = refl
push_back-body (p ∷ st) rest =
    push_back-push_back p (slash ∷ body st) rest ∙ push_back-body st (slash ∷ (p ++ rest))

finish-trim :
    (b : Buf) (r : Bytes) → trim b.rev ≡ r → length r < b.limit → finish b ≡ ok (push_back r [])
unfolding finish
finish-trim b r e h = rw (e, lt→ltb (length r) b.limit h)

trim-bare : (r : Bytes) (c : ℕ) (q : Bytes) → r ≡ c ∷ q → c ≢ slash → trim r ≡ r
unfolding trim
trim-bare [] c q e ne = refl
trim-bare (d ∷ []) c q e ne = refl
trim-bare (d ∷ x ∷ r) c q e ne = ground arith

trim-slashed : (r : Bytes) (c : ℕ) (q : Bytes) → r ≡ c ∷ q → trim (slash ∷ r) ≡ r
unfolding trim
trim-slashed r c q e = rw e

-- At the end the buffer gives the path of the stack.
pub finish-absolute :
    (st : List Bytes) (b : Buf)
    → AllNames st
    → Shape st b.rev
    → length b.rev < b.limit
    → finish b ≡ ok (absolute st)
unfolding absolute body trim push_back
finish-absolute [] b names (slashed e) fits =
    finish-trim b (slash ∷ []) (rw e) (omega (arith, ap length e))
finish-absolute [] b names (bare n e) fits = absurd (n refl)
finish-absolute (p ∷ st) b names (slashed e) fits =
    let (c, q, f, ne, l) = body-cons p st names.0 in
    finish-trim b (body (p ∷ st)) (rw e (trim-slashed _ c _ f)) (omega (arith, ap length e))
    ∙ ap ok (push_back-body (p ∷ st) [])
finish-absolute (p ∷ st) b names (bare n e) fits =
    let (c, q, f, ne, l) = body-cons p st names.0 in
    finish-trim b (body (p ∷ st)) (rw e (trim-bare _ c _ f ne)) (omega (arith, ap length e))
    ∙ ap ok (push_back-body (p ∷ st) [])
