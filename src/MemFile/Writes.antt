-- ===== src/MemFile/Writes.antt =====
-- file.go, writes: a vector is written like its buffers in a row.
use native.Mathlib.Nat.{suc-add, zero-add}
use mathlib.Core.List.Permᴰ
use pdwfs.Base.{
  ℕ, zero, suc, ◌+◌, ◌^◌, ◌≤◌, ◌<◌, ◌≡◌, refl, ap, ◌∙◌, subst, some, List, [], ◌∷◌, ◌++◌, arith,
  Bytes, length, length-append,
}
use pdwfs.Base.Int.{pos}
use pdwfs.Store.Redis.{Redis, over, overwrite}
use pdwfs.Store.Tiling.{stripe_layout-Tiling}
use pdwfs.Store.Bytes.{length-overwrite}
use pdwfs.Store.DataStore.{Instances, write_stripes, write_at, wrote}
use pdwfs.Store.Flat.{IsFile, WriteAt-IsFile}
use pdwfs.MemFile.{MemFile, int64_add, file_write_at, write_vec_loop, write_vec_at, write_vec}

-- The buffers of a vector in a row.
abbrev pub joined : List Bytes → Bytes
joined [] = []
joined (b ∷ bs) = b ++ joined bs

pub int64_add-pos : (a b : ℕ) → a + b < 2 ^ 63 → int64_add (pos a) (pos b) ≡ pos (a + b)
unfolding int64_add
int64_add-pos a b h = ground arith

overwrite-end : (a b : Bytes) → overwrite (length a) b a ≡ a ++ b
overwrite-end [] [] = refl
overwrite-end [] (y ∷ b) = refl
overwrite-end (x ∷ a) b = ap (λ t. x ∷ t) (overwrite-end a b)

overwrite-over : (a b f : Bytes) → overwrite (length a) b (over a f) ≡ over (a ++ b) f
overwrite-over [] b f = refl
overwrite-over (x ∷ a) b [] = ap (λ t. x ∷ t) (overwrite-end a b)
overwrite-over (x ∷ a) b (y ∷ f) = ap (λ t. x ∷ t) (overwrite-over a b f)

-- Two writes in a row.
overwrite-append :
    (o : ℕ) (a b f : Bytes) → overwrite (o + length a) b (overwrite o a f) ≡ overwrite o (a ++ b) f
overwrite-append zero a b f = rw (zero-add (length a)) (overwrite-over a b f)
overwrite-append (suc o) a b [] =
    rw (suc-add o (length a)) (ap (λ t. 0 ∷ t) (overwrite-append o a b []))
overwrite-append (suc o) a b (y ∷ f) =
    rw (suc-add o (length a)) (ap (λ t. y ∷ t) (overwrite-append o a b f))

overwrite-nil : (o : ℕ) (f : Bytes) → o ≤ length f → overwrite o [] f ≡ f
overwrite-nil zero f h = refl
overwrite-nil (suc o) [] h = absurd (omega arith)
overwrite-nil (suc o) (y ∷ f) h = ap (λ t. y ∷ t) (overwrite-nil o f (omega arith))

module _ ⦃rs : Redis⦄ (grown : ℕ → ℕ) (m : MemFile) (z : 0 < m.store.stripe_size) where
  abbrev Holds : Bytes → Instances → Type 0
  Holds f st = IsFile m.store m.path z f st

  write_at-IsFile :
      (o : ℕ) (buf f : Bytes) (st : Instances)
      → o + length buf < 2 ^ 63
      → o ≤ length f
      → Holds f st
      → (st' : Instances) × (write_at m.store m.path grown (pos o) buf st ≡ some st')
        × Holds (overwrite o buf f) st'
  unfolding write_at
  write_at-IsFile o [] f st small inside file = (st, refl, rw (overwrite-nil o f inside) file)
  write_at-IsFile o (b ∷ buf) f st small inside file =
      let t = stripe_layout-Tiling grown m.store.stripe_size o (b ∷ buf) z small in
      (
        write_stripes m.store m.path t.0 st,
        rw (t.1, write_at) refl,
        WriteAt-IsFile m.store m.path z grown o f (b ∷ buf) small (omega arith) inside file
            (wrote t.0 t.0 t.1 (Permᴰ.refl t.0)),
      )

  file_write_at-IsFile :
      (o : ℕ) (buf f : Bytes) (st : Instances)
      → o + length buf < 2 ^ 63
      → o ≤ length f
      → Holds f st
      → (st' : Instances) × (file_write_at grown m buf (pos o) st ≡ some (length buf, st'))
        × Holds (overwrite o buf f) st'
  unfolding file_write_at
  file_write_at-IsFile o buf f st small inside file =
      let w = write_at-IsFile o buf f st small inside file in
      (w.0, rw (w.1, file_write_at) refl, w.2)

  write_vec_loop-IsFile :
      (bufs : List Bytes) (o n : ℕ) (f : Bytes) (st : Instances)
      → o + length (joined bufs) < 2 ^ 63
      → o ≤ length f
      → Holds f st
      → (st' : Instances) × (write_vec_loop grown m bufs (pos o) n st
          ≡ some (n + length (joined bufs), st'))
        × Holds (overwrite o (joined bufs) f) st'
  unfolding write_vec_loop
  write_vec_loop-IsFile [] o n f st small inside file =
      (st, ap (λ k. some (k, st)) (omega arith), rw (overwrite-nil o f inside) file)
  write_vec_loop-IsFile (buf ∷ bufs) o n f st small inside file =
      let whole = length-append {0} buf (joined bufs) in
      let len = length-overwrite o buf f in
      let one = file_write_at-IsFile o buf f st (omega (arith, whole)) inside file in
      let rest =
        write_vec_loop-IsFile bufs (o + length buf) (n + length buf) (overwrite o buf f) one.0
          (omega (arith, whole)) (ground (arith, len)) one.2 in
      (
        rest.0,
        rw (one.1, write_vec_loop)
            (rw (int64_add-pos o (length buf) (omega (arith, whole)))
              (rest.1 ∙ ap (λ k. some (k, rest.0)) (omega (arith, whole)))),
        subst (λ g. Holds g rest.0) (overwrite-append o buf (joined bufs) f) rest.2,
      )

  -- `WriteVec` at an offset that is not past the end of a file writes the buffers of the vector in a
  -- row over the bytes of the file, whatever their lengths. It counts all of them and moves the offset
  -- behind them.
  pub write_vec-IsFile :
      (bufs : List Bytes) (o : ℕ) (f : Bytes) (st : Instances)
      → m.offset ≡ pos o
      → o + length (joined bufs) < 2 ^ 63
      → o ≤ length f
      → Holds f st
      → (st' : Instances) × (write_vec grown m bufs st
          ≡ some (length (joined bufs), record m { offset = pos (o + length (joined bufs)) }, st'))
        × Holds (overwrite o (joined bufs) f) st'
  unfolding write_vec write_vec_at
  write_vec-IsFile bufs o f st e small inside file =
      let w = write_vec_loop-IsFile bufs o 0 f st small inside file in
      let len = length (joined bufs) in
      let run : write_vec_loop grown m bufs m.offset 0 st ≡ some (len, w.0) =
        ap (λ off. write_vec_loop grown m bufs off 0 st) e
        ∙ w.1
        ∙ ap (λ k. some (k, w.0)) (zero-add len) in
      (
        w.0,
        rw (run, write_vec)
            (ap (λ off. some (len, record m { offset = off }, w.0))
              (ap (λ off. int64_add off (pos len)) e ∙ int64_add-pos o len small)),
        w.2,
      )
