-- ===== src/MemFile/Reads.antt =====
-- file.go, reads: a read brings what is left of the file, up to the buffer's length.
use pdwfs.Base.{
  ℕ, ◌+◌, ◌*◌, ◌/◌, ◌^◌, ◌≤◌, ◌<◌, ◌≡◌, refl, ap, ◌∙◌, none, some, [], ◌∷◌, arith, Bytes, length,
  ltb, if◌then◌else◌,
}
use pdwfs.Base.Int.{pos}
use pdwfs.Store.Redis.{Redis}
use pdwfs.Store.Few.{stripe_layout-blanks}
use pdwfs.Store.Fill.{fill, range, length-range}
use pdwfs.Store.DataStore.{Instances, read_at}
use pdwfs.Store.Flat.{IsFile}
use pdwfs.Store.Read.{read_at-IsFile}
use pdwfs.Store.Size.Extent.{text_length}
use pdwfs.MemFile.{MemFile, eof, ReadResult, int64_add, read_result, file_read_at, read}
use pdwfs.MemFile.Writes.{int64_add-pos}

-- What a read of the bytes `cs` comes to.
abbrev pub read_of : Bytes → Bytes → ReadResult
read_of cs dst = record {
  buffer = fill cs dst;
  count = length cs;
  error = if ltb (length cs) (length dst) then some eof else none;
}

file_read_at-read_of :
    ⦃rs : Redis⦄ (grown : ℕ → ℕ) (m : MemFile) (dst : Bytes) (o : ℕ) (st : Instances) (cs : Bytes)
    → length cs ≤ length dst
    → read_at m.store m.path grown (pos o) dst st ≡ some (fill cs dst, length cs)
    → file_read_at grown m dst (pos o) st ≡ some (read_of cs dst)
unfolding file_read_at
file_read_at-read_of grown m [] o st [] h e = refl
file_read_at-read_of grown m [] o st (c ∷ cs) h e = absurd (omega arith)
file_read_at-read_of grown m (b ∷ dst) o st cs h e = ap (read_result grown (length (b ∷ dst))) e

module _ ⦃rs : Redis⦄ (grown : ℕ → ℕ) (m : MemFile) (z : 0 < m.store.stripe_size) (o : ℕ)
    (f dst : Bytes) (st : Instances) (small : o + length dst < 2 ^ 63)
    (few : o + length dst ≤ (o / m.store.stripe_size + 100) * m.store.stripe_size)
    (file : IsFile m.store m.path z f st) where
  -- The bytes from the offset on, as far as the buffer and the file go.
  abbrev found : Bytes
  found = range o (length dst) f

  read_at-few : read_at m.store m.path grown (pos o) dst st ≡ some (fill found dst, length found)
  read_at-few =
      let r = read_at-IsFile m.store m.path z f st file grown o dst small in
      let whole = stripe_layout-blanks grown m.store.stripe_size o dst z small few r.1 in
      r.2
      ∙ ap (λ b. some (fill found dst, length found + b * text_length m.store m.path st 0)) whole
      ∙ ap (λ n. some (fill found dst, n)) (omega arith)

  -- `Read` brings the bytes of the file from the offset on, up to the length of the buffer, moves the
  -- offset behind them, and reports the end of the file exactly where it brings fewer bytes than
  -- asked for. The buffer lies in at most a hundred stripes, and the file has no holes.
  pub read-IsFile :
      m.offset ≡ pos o
      → read grown m dst st ≡ some (record m { offset = pos (o + length found) }, read_of found dst)
  unfolding read
  read-IsFile e =
      let short : length found ≤ length dst = ground (arith, length-range o (length dst) f) in
      let run : file_read_at grown m dst m.offset st ≡ some (read_of found dst) =
        ap (λ off. file_read_at grown m dst off st) e
        ∙ file_read_at-read_of grown m dst o st found short read_at-few in
      rw (run, read)
        (ap (λ off. some (record m { offset = off }, read_of found dst))
          (ap (λ off. int64_add off (pos (length found))) e
            ∙ int64_add-pos o (length found) (omega arith)))
