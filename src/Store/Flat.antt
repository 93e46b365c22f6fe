-- ===== src/Store/Flat.antt =====
-- The store as a sequence of bytes: what `DataStore` promises its callers.
use pdwfs.Base.{ℕ, ◌+◌, ◌^◌, ◌≤◌, ◌<◌, ◌≡◌, sym, ◌∙◌, subst, true, ◌||◌, arith, Bytes, length}
use pdwfs.Base.Int.{pos}
use pdwfs.Store.Redis.{Redis, overwrite}
use pdwfs.Store.Tiling.{Tiling, stripe_layout-Tiling}
use pdwfs.Store.Orders.{All-perm}
use pdwfs.Store.Bytes.{byte, byte-overwrite, length-overwrite, within, larger}
use pdwfs.Store.Contents.{content, covered-perm}
use pdwfs.Store.Written.{Tiling-covered, WriteAt-content}
use pdwfs.Store.Stored.{stored, stored-write_stripes}
use pdwfs.Store.DataStore.{DataStore, Instances, WriteAt, wrote}
use pdwfs.Store.Size.Grown.{Fits, Tiling-Fits, widen, IsSized, WriteAt-IsSized}

module _ ⦃rs : Redis⦄ (s : DataStore) (name : Bytes) (z : 0 < s.stripe_size) where
  -- The stripes of `name` hold the bytes `f`, without holes.
  pub record IsFile (f : Bytes) (st : Instances) : Type 0 where
    pub sized : IsSized s name z (length f) st
    pub bytes : (p : ℕ) → content s name st p ≡ byte f p
    pub dense : (p : ℕ) → p < length f → stored s name st p ≡ true

  WriteAt-stored :
      (grown : ℕ → ℕ) (o n p : ℕ) (buf : Bytes) {st st' : Instances}
      → o + length buf < 2 ^ 63
      → 0 < length buf
      → IsSized s name z n st
      → WriteAt s name grown (pos o) buf st st'
      → (stored s name st p || within o (length buf) p) ≡ true
      → stored s name st' p ≡ true
  WriteAt-stored grown o n p buf {st} small some_bytes sized (wrote xs ys e order) h =
      let m = larger n (o + length buf) in
      let t = stripe_layout-Tiling grown s.stripe_size o buf z small in
      let same : t.0 ≡ xs = ground (arith, t.1, e) in
      let tiles = subst (λ l. Tiling s.stripe_size o buf l) same t.2 in
      let fit = All-perm (Fits s.stripe_size m) order (Tiling-Fits m tiles (ground arith)) in
      let all_of = sym (covered-perm s name p order) ∙ Tiling-covered s name z p tiles in
      stored-write_stripes s name z m p ys st (ground arith) fit
        (widen s name z (ground arith) sized.0) (rw all_of h)

  -- `WriteAt` at an offset that is not past the end of a file writes over the sequence of its bytes.
  pub WriteAt-IsFile :
      (grown : ℕ → ℕ) (o : ℕ) (f buf : Bytes) {st st' : Instances}
      → o + length buf < 2 ^ 63
      → 0 < length buf
      → o ≤ length f
      → IsFile f st
      → WriteAt s name grown (pos o) buf st st'
      → IsFile (overwrite o buf f) st'
  WriteAt-IsFile grown o f buf {st} {st'} small some_bytes inside file wrote_it =
      let len = length-overwrite o buf f in
      record {
        sized =
            rw len (
              WriteAt-IsSized s name z grown o (length f) buf small some_bytes file.sized wrote_it);
        bytes = λ p.
            (WriteAt-content s name z p grown o buf small file.sized.0.texts wrote_it).1
            ∙ rw (file.bytes p) (sym (byte-overwrite o buf f p));
        dense = λ p h.
            WriteAt-stored grown o (length f) p buf small some_bytes file.sized wrote_it
              (ground (arith, len, file.dense p));
      }
