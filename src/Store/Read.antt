-- ===== src/Store/Read.antt =====
-- store.go, `ReadAt`: what it reads of a file without holes.
use pdwfs.Base.{
  ℕ, zero, suc, ◌+◌, ◌-◌, ◌*◌, ◌/◌, ◌%◌, ◌^◌, ◌≤◌, ◌<◌, ◌≡◌, ◌⊎◌, refl, sym, ap, ◌∙◌, subst, false,
  ◌&&◌, some, List, [], ◌∷◌, ◌++◌, arith, Bytes, length, length-append, take, drop, ltb, ◌==◌,
  if◌then◌else◌, Bool-cases, Option-cases, inl, inr,
}
use pdwfs.Base.Int.{pos, ◌==ℤ◌}
use pdwfs.Store.Keys.{key}
use pdwfs.Store.Redis.{Redis, text_or_empty}
use pdwfs.Store.Stripes.{Stripe, blank, stripe_layout}
use pdwfs.Store.Tiling.{Tiling, tiled, skip, next, div_mod, drop-drop, stripe_layout-Tiling}
use pdwfs.Store.Bytes.{byte}
use pdwfs.Store.Commands.{part, stripe_text}
use pdwfs.Store.Contents.{content}
use pdwfs.Store.Written.{row_lt}
use pdwfs.Store.Stored.{stored}
use pdwfs.Store.Flat.{IsFile}
use pdwfs.Store.Fill.{
  fill, fill-append_drop, fill-fill, range, length-range, length-range-range, byte-range, bytes_ext,
}
use pdwfs.Store.DataStore.{
  DataStore, Instances, client_of, read_stripe, side_by_side, read_stripes, read_at,
}
use pdwfs.Store.Size.Extent.{text_length}

row_unique :
    (q k i j size : ℕ) → q * size + i ≡ k * size + j → i < size → j < size → (q ≡ k) × (i ≡ j)
row_unique q k i j size e h l = ground (arith, row_lt q k size, row_lt k q size)

-- A stripe and the file end a range at the same place.
clipped :
    (n r row off file_length text_length size : ℕ)
    → 0 < n
    → row + r ≡ off
    → r + n ≤ size
    → (text_length ≡ 0) ⊎ (row + text_length ≤ file_length)
    → ((i : ℕ) → i < size → row + i < file_length → i < text_length)
    → (if ltb n (text_length - r) then n else text_length - r)
      ≡ (if ltb n (file_length - off) then n else file_length - off)
clipped n r row off file_length text_length size p e k below dense =
    ground (arith, dense (r + n - 1), dense (r + (file_length - off) - 1))

pub range_all : (n : ℕ) (f : Bytes) → length f ≤ n → range 0 n f ≡ f
range_all zero [] h = refl
range_all (suc n) [] h = refl
range_all zero (y ∷ f) h = absurd (omega arith)
range_all (suc n) (y ∷ f) h = ap (λ t. y ∷ t) (range_all n f (omega arith))

-- The number of blank stripes.
unfoldable pub blanks : List Stripe → ℕ
blanks [] = 0
blanks (x ∷ xs) = (if length x.payload == 0 then 1 else 0) + blanks xs

module _ ⦃rs : Redis⦄ (s : DataStore) (name : Bytes) (z : 0 < s.stripe_size) (f : Bytes)
    (st : Instances) (file : IsFile s name z f st) where
  abbrev pub text : ℕ → Bytes
  text q = stripe_text s name st (pos q)

  module _ (q i : ℕ) (h : i < s.stripe_size) where
    abbrev pub position : ℕ
    position = q * s.stripe_size + i

    place : (position / s.stripe_size ≡ q) × (position % s.stripe_size ≡ i)
    place =
        let d = div_mod position s.stripe_size z in
        row_unique (position / s.stripe_size) q (position % s.stripe_size) i s.stripe_size d.0 d.1 h

    byte-text : byte (text q) i ≡ byte f position
    unfolding content
    byte-text =
        subst (λ k. byte (text k) i ≡ byte f position) place.0
          (subst (λ k. byte (text (position / s.stripe_size)) k ≡ byte f position) place.1
            (file.bytes position))

    pub lt-text : position < length f → i < length (text q)
    unfolding stored
    lt-text k =
        let there = file.dense position k in
        subst (λ m. i < length (text m)) place.0
          (subst (λ m. m < length (text (position / s.stripe_size))) place.1 (ground arith))

  module _ (q r b off : ℕ) (c : Bytes) (e : q * s.stripe_size + r ≡ off)
      (k : r + length (b ∷ c) ≤ s.stripe_size) where
    abbrev n : ℕ
    n = length (b ∷ c)

    length-text : length (range r n (text q)) ≡ length (range off n f)
    length-text =
        rw (length-range r n (text q), length-range off n f)
          (clipped n r (q * s.stripe_size) off (length f) (length (text q)) s.stripe_size
            (omega arith) e k (file.sized.0.below q) (λ i h. lt-text q i h))

    range-text : range r n (text q) ≡ range off n f
    range-text = bytes_ext (range r n (text q)) (range off n f) length-text λ i h.
        let small : i < n = ground (arith, length-range r n (text q)) in
        byte-range r n i (text q) small
        ∙ byte-text q (r + i) (omega arith)
        ∙ ap (byte f) (omega arith)
        ∙ sym (byte-range off n i f small)

    whole_text : r ≡ 0 → n ≡ s.stripe_size → text q ≡ range off n f
    whole_text start size =
        sym (range_all n (text q) (omega (arith, file.sized.0.full q)))
        ∙ subst (λ j. range j n (text q) ≡ range off n f) start range-text

    -- One stripe: the bytes of the file, as far as it goes.
    read-part :
        read_stripe s name (part (pos q) r b c) st
        ≡ some (fill (range off n f) (b ∷ c), length (range off n f))
    unfolding read_stripe stripe_text
    read-part =
        let id = pos q in
        let db = st (client_of s name id) in
        let t = rs.get (key name id) db in
        let short : length (range off n f) ≤ n = ground (arith, length-range off n f) in
        let fits =
          rs.read_into_fits (range off n f) (b ∷ c) short
          ∙ ap (λ x. some (x, length (range off n f))) (fill-append_drop (range off n f) (b ∷ c)) in
        elim (Bool-cases ((pos r ==ℤ pos 0) && (n == s.stripe_size))) [
          | inl whole ↦
              let held = whole_text (ground arith) (ground arith) in
              rw whole (elim (Option-cases t) [
                | inl missing ↦ rw missing (
                    ap (λ x. some (fill x (b ∷ c), length x))
                      (sym (ap text_or_empty missing) ∙ held))
                | inr (v, found) ↦
                    rw found (
                      ap (λ x. rs.read_into x (b ∷ c)) (sym (ap text_or_empty found) ∙ held) ∙ fits)
              ])
          | inr partly ↦ rw partly (
              rw (rs.getrange_lem (key name id) r (length c) db)
                (ap (λ x. rs.read_into x (b ∷ c)) range-text ∙ fits))
        ]

  -- A blank stripe: the length of the first stripe, and no bytes.
  read-blank : read_stripe s name blank st ≡ some ([], text_length s name st 0)
  unfolding read_stripe stripe_text
  read-blank =
      let k = key name (pos 0) in
      let db = st (client_of s name (pos 0)) in
      let positive : (0 == s.stripe_size) ≡ false = ground arith in
      rw positive (
        ap (λ x. rs.read_into x []) (rs.getrange_all k db)
        ∙ rs.read_into_nil (text_or_empty (rs.get k db)))

  abbrev extra : List Stripe → ℕ
  extra xs = blanks xs * text_length s name st 0

  two_ranges :
      (off m : ℕ) (a b : Bytes)
      → side_by_side (some (fill (range off (length a) f) a, length (range off (length a) f))) (
          some (
            fill (range (off + length a) (length b) f) b,
            length (range (off + length a) (length b) f) + m,
          ))
        ≡ some (
          fill (range off (length (a ++ b)) f) (a ++ b),
          length (range off (length (a ++ b)) f) + m,
        )
  two_ranges off m a b =
      let g = drop off f in
      let n = length a + length b in
      let start = ap (take (length b)) (drop-drop off (length a) f) in
      let read = fill (take (length a) g) a ++ fill (range (length a) (length b) g) b in
      rw start (
        rw (length-append {0} a b) (
          ap (λ k. some (read, k)) (omega (arith, length-range-range (length a) (length b) g))
          ∙ ap (λ x. some (x, length (take n g) + m)) (fill-fill a b g)))

  read_stripes-Tiling :
      {off : ℕ} {buf : Bytes} {xs : List Stripe}
      → Tiling s.stripe_size off buf xs
      → read_stripes s name xs st
        ≡ some (fill (range off (length buf) f) buf, length (range off (length buf) f) + extra xs)
  unfolding read_stripes blanks
  read_stripes-Tiling (tiled off) = ap (λ m. some ([], m)) (omega arith)
  read_stripes-Tiling {off} {buf} (skip {xs = xs} t) =
      ap (λ x. side_by_side x (read_stripes s name xs st)) read-blank
      ∙ ap (side_by_side (some ([], text_length s name st 0))) (read_stripes-Tiling t)
      ∙ ap (λ m. some (fill (range off (length buf) f) buf, m)) (grind arith)
  read_stripes-Tiling {off} {buf} (next {xs = xs} q r b c rest e k split t) =
      ap (λ x. side_by_side x (read_stripes s name xs st)) (read-part q r b off c e k)
      ∙ ap
          (side_by_side (
            some
              (fill (range off (length (b ∷ c)) f) (b ∷ c), length (range off (length (b ∷ c)) f))))
          (read_stripes-Tiling t)
      ∙ two_ranges off (extra xs) (b ∷ c) rest
      ∙ ap
          (λ buf.
            some
              (fill (range off (length buf) f) buf, length (range off (length buf) f) + extra xs))
          (sym split)
      ∙ ap
          (λ m. some (
            fill (range off (length buf) f) buf,
            length (range off (length buf) f) + m * text_length s name st 0,
          ))
          (ground arith)

  -- `ReadAt` of a file without holes never panics. The buffer gets the bytes of the file from the offset
  -- on, as far as the file goes, and keeps its other bytes; the count is the number of those bytes, but
  -- for each blank stripe in the layout the length of the file's first stripe is added to it.
  pub read_at-IsFile :
      (grown : ℕ → ℕ) (o : ℕ) (buf : Bytes)
      → o + length buf < 2 ^ 63
      → (xs : List Stripe) × (stripe_layout grown s.stripe_size (pos o) buf ≡ some xs)
        × (read_at s name grown (pos o) buf st
            ≡ some (
              fill (range o (length buf) f) buf,
              length (range o (length buf) f) + blanks xs * text_length s name st 0,
            ))
  unfolding read_at
  read_at-IsFile grown o buf small =
      let t = stripe_layout-Tiling grown s.stripe_size o buf z small in
      (t.0, t.1, rw (t.1, read_at) (read_stripes-Tiling t.2))
