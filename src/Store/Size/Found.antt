-- ===== src/Store/Size/Found.antt =====
-- store.go, `searchLastStripe` and `GetSize`: the sets give the size of a file.
use native.Mathlib.Decide.{dec_lt}
use pdwfs.Base.{
  ℕ, ◌+◌, ◌*◌, ◌^◌, ◌≤◌, ◌<◌, ◌≡◌, refl, sym, ap, ◌∙◌, subst, true, List, [], ◌∷◌, arith, Bytes,
  inl, inr, if◌then◌else◌, Bool-cases,
}
use pdwfs.Base.Int.{ℤ, pos, negsuc, minus_one, ◌==ℤ◌, ==ℤ_iff}
use pdwfs.Ring.Consistent.{IsAmong}
use pdwfs.Store.Keys.{key, stripes_key, to_int64, to_int64-pos}
use pdwfs.Store.Redis.{Redis, contains}
use pdwfs.Store.Commands.{stripe_text}
use pdwfs.Store.Written.{row_lt}
use pdwfs.Store.DataStore.{DataStore, Instances, client_of}
use pdwfs.Store.Size.{exceeds, max_id, client_max, received, search_last_stripe, get_size}
use pdwfs.Store.Size.Extent.{IsWithin, EndsAt, listed, text_length}
use pdwfs.Store.Size.Grown.{IsSized}

-- An identifier that is at most `i`.
abbrev UpTo : ℕ → ℤ → Type 0
UpTo i (pos j) = j ≤ i
UpTo i (negsuc j) = Unit

max-UpTo : (i : ℕ) (a b : ℤ) → UpTo i a → UpTo i b → UpTo i (if exceeds a b then a else b)
max-UpTo i (pos a) (pos b) h k = ground arith
max-UpTo i (pos a) (negsuc b) h k = h
max-UpTo i (negsuc a) (pos b) h k = k
max-UpTo i (negsuc a) (negsuc b) h k = ground arith

-- No identifier passes `i`: the maximum does not either.
max_id-UpTo :
    (i : ℕ) (ids : List ℤ) (max : ℤ)
    → UpTo i max
    → ((j : ℤ) → contains j ids ≡ true → UpTo i j)
    → UpTo i (max_id max ids)
unfolding max_id
max_id-UpTo i [] max h all = h
max_id-UpTo i (id ∷ ids) max h all =
    max_id-UpTo i ids (if exceeds id max then id else max)
      (max-UpTo i id max (all id (ground (arith, ==ℤ_iff id id))) h) (λ j e. all j (ground arith))

max_top : (i : ℕ) (a : ℤ) → UpTo i a → (if exceeds a (pos i) then a else pos i) ≡ pos i
max_top i (pos a) h = ground arith
max_top i (negsuc a) h = refl

top_max : (i : ℕ) (a : ℤ) → UpTo i a → (if exceeds (pos i) a then pos i else a) ≡ pos i
top_max i (pos a) h = ground arith
top_max i (negsuc a) h = refl

max_id-kept :
    (i : ℕ) (ids : List ℤ)
    → ((j : ℤ) → contains j ids ≡ true → UpTo i j)
    → max_id (pos i) ids ≡ pos i
unfolding max_id
max_id-kept i [] all = refl
max_id-kept i (id ∷ ids) all =
    rw (max_top i id (all id (ground (arith, ==ℤ_iff id id))))
      (max_id-kept i ids (λ j e. all j (ground arith)))

-- The greatest identifier is found.
max_id-found :
    (i : ℕ) (ids : List ℤ) (max : ℤ)
    → UpTo i max
    → ((j : ℤ) → contains j ids ≡ true → UpTo i j)
    → contains (pos i) ids ≡ true
    → max_id max ids ≡ pos i
unfolding max_id
max_id-found i [] max h all e = cc
max_id-found i (id ∷ ids) max h all e = elim (Bool-cases (id ==ℤ pos i)) [
  | inl same ↦
      let eq = (==ℤ_iff id (pos i)).0 same in
      rw eq (rw (top_max i max h) (max_id-kept i ids (λ j f. all j (ground arith))))
  | inr other ↦
      max_id-found i ids (if exceeds id max then id else max)
        (max-UpTo i id max (all id (ground (arith, ==ℤ_iff id id))) h) (λ j f. all j (ground arith))
        (ground arith)
]

max_id-minus_one :
    (ids : List ℤ)
    → ((j : ℤ) → contains j ids ≡ true → j ≡ minus_one)
    → max_id minus_one ids ≡ minus_one
unfolding max_id
max_id-minus_one [] all = refl
max_id-minus_one (id ∷ ids) all =
    rw (all id (ground (arith, ==ℤ_iff id id))) (max_id-minus_one ids (λ j e. all j (ground arith)))

pub last_row : (k i size n len : ℕ) → k * size < n → i * size + len ≡ n → len ≤ size → k ≤ i
last_row k i size n len h e f = elim (dec_lt i k) [
  | yes above ↦ absurd (omega (arith, row_lt i k size above))
  | no below ↦ omega arith
]

module _ ⦃rs : Redis⦄ (s : DataStore) (name : Bytes) where
  contains-received :
      (cs : List Bytes) (st : Instances) (P : ℤ → Type 0)
      → ((c : Bytes) → P (client_max s name c st))
      → (j : ℤ) → contains j (received s name cs st) ≡ true
      → P j
  unfolding received
  contains-received [] st P all j e = cc
  contains-received (c ∷ cs) st P all j e = elim (Bool-cases (client_max s name c st ==ℤ j)) [
    | inl same ↦ subst P ((==ℤ_iff (client_max s name c st) j).0 same) (all c)
    | inr other ↦ contains-received cs st P all j (ground arith)
  ]

  received-contains :
      (cs : List Bytes) (st : Instances) (c : Bytes)
      → IsAmong c cs
      → contains (client_max s name c st) (received s name cs st) ≡ true
  unfolding received
  received-contains [] st c h = absurd h
  received-contains (d ∷ cs) st c (inl e) =
      rw e (ground (arith, ==ℤ_iff (client_max s name d st) (client_max s name d st)))
  received-contains (d ∷ cs) st c (inr h) = ground (arith, received-contains cs st c h)

  pub search-none :
      (st : Instances) → IsWithin s name 0 st → search_last_stripe s name st ≡ minus_one
  unfolding search_last_stripe client_max
  search-none st w = max_id-minus_one (received s name s.redis_ring.clients st) (
      contains-received s.redis_ring.clients st (λ j. j ≡ minus_one)
        (λ c.
          max_id-minus_one (rs.smembers (stripes_key name) (st c))
            (λ j e. let l = w.sets c j e in absurd (omega arith))))

  module _ (z : 0 < s.stripe_size)
      (among : (i : ℤ) → IsAmong (client_of s name i) s.redis_ring.clients) where
    pub search-last :
        (n : ℕ) (st : Instances) (w : IsWithin s name n st) (end : EndsAt s name n st)
        → search_last_stripe s name st ≡ pos end.0
    unfolding search_last_stripe client_max
    search-last n st w (i, pos_len, end, set) =
        let up : (c : Bytes) (j : ℤ) → listed s name st c j ≡ true → UpTo i j = λ c j e.
          let l = w.sets c j e in
          subst (UpTo i) (sym l.1)
            (last_row l.0 i s.stripe_size n (text_length s name st i) l.2 end (w.full i)) in
        let mine =
          max_id-found i (rs.smembers (stripes_key name) (st (client_of s name (pos i)))) minus_one
            tt (up (client_of s name (pos i))) set in
        max_id-found i (received s name s.redis_ring.clients st) minus_one tt
          (contains-received s.redis_ring.clients st (UpTo i)
            (λ c. max_id-UpTo i (rs.smembers (stripes_key name) (st c)) minus_one tt (up c)))
          (subst (λ j. contains j (received s name s.redis_ring.clients st) ≡ true) mine
            (received-contains s.redis_ring.clients st (client_of s name (pos i)) (among (pos i))))

    pub get_size-IsSized :
        (n : ℕ) (st : Instances) → n < 2 ^ 63 → IsSized s name z n st → get_size s name st ≡ pos n
    unfolding get_size stripe_text
    get_size-IsSized n st small (w, inl empty) =
        rw (search-none st (subst (λ m. IsWithin s name m st) empty w), get_size)
          (ap pos (sym empty))
    get_size-IsSized n st small (w, inr (i, pos_len, end, set)) =
        rw (search-last n st w (i, pos_len, end, set), get_size)
          (rw (rs.strlen_lem (key name (pos i)) (st (client_of s name (pos i))))
            (ap (λ m. to_int64 (pos m)) end ∙ to_int64-pos n small))
