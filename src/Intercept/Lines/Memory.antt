-- ===== src/Intercept/Lines/Memory.antt =====
-- Bytes that are stored are there to load: for the buffer of `getdelim`, which grows by a byte at its
-- end and moves as a whole.
use pdwfs.Base.{ℕ, zero, suc, ◌+◌, ◌<◌, ◌≤◌, ◌≡◌, refl, ap, ◌∙◌, [], ◌∷◌, ◌++◌, Bytes, arith}
use pdwfs.Machine.Host.{Mem}
use pdwfs.Machine.Access.{load, store, poke}

pub store-below : (m : Mem) (p q : ℕ) (bs : Bytes) → q < p → store m p bs q ≡ m q
unfolding store
store-below m p q [] h = refl
store-below m p q (b ∷ bs) h = store-below (poke m p b) (suc p) q bs (omega arith) ∙ ground arith

-- A prefix of a block that was moved.
pub load-store-load :
    (m m0 : Mem) (q s n d : ℕ) → d ≤ n → load (store m q (load m0 s n)) q d ≡ load m0 s d
unfolding load store
load-store-load m m0 q s n zero h = refl
load-store-load m m0 q s zero (suc d) h = absurd (omega arith)
load-store-load m m0 q s (suc n) (suc d) h =
    rw
      (
        store-below (poke m q (m0 s)) (suc q) q (load m0 (suc s) n) (omega arith),
        load-store-load (poke m q (m0 s)) m0 (suc q) (suc s) n d (omega arith),
      )
      (ground arith)

load-poke_below : (m : Mem) (p d q x : ℕ) → q < p → load (poke m q x) p d ≡ load m p d
unfolding load
load-poke_below m p zero q x h = refl
load-poke_below m p (suc d) q x h = ground (arith, load-poke_below m (suc p) d q x)

cons_eq : {a b : ℕ} {xs bs : Bytes} → a ≡ b → xs ≡ bs → a ∷ xs ≡ b ∷ bs
cons_eq e f = cc

-- A byte that is stored behind others.
pub load-poke_last :
    (m : Mem) (p d x : ℕ) → load (poke m (p + d) x) p (suc d) ≡ load m p d ++ x ∷ []
unfolding load
load-poke_last m p zero x = ground arith
load-poke_last m p (suc d) x =
    let at : p + suc d ≡ suc p + d = omega arith in
    let other : poke m (suc p + d) x p ≡ m p = ground arith in
    ap (λ q. load (poke m q x) p (suc (suc d))) at ∙ cons_eq other (load-poke_last m (suc p) d x)

-- A byte that is stored behind all that is loaded.
pub load-poke_behind : (m : Mem) (p n q x : ℕ) → p + n ≤ q → load (poke m q x) p n ≡ load m p n
unfolding load
load-poke_behind m p zero q x h = refl
load-poke_behind m p (suc n) q x h =
    let other : poke m q x p ≡ m p = ground arith in
    cons_eq other (load-poke_behind m (suc p) n q x (omega arith))
