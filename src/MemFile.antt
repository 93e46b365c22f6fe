-- ===== src/MemFile.antt =====
-- src/go/redisfs/file.go, `MemFile`: an open file with its offset, over the store. The lock makes the
-- calls on a file follow one another and is not modelled; `Name`, `Sync` and `Close` do nothing.
pub mod Writes
pub mod Reads
use pdwfs.Base.{
  ℕ, zero, suc, ◌+◌, ◌-◌, ◌^◌, ◌%◌, Bool, true, false, Option, none, some, List, [], ◌∷◌, Bytes,
  length, ltb, ◌==◌, if◌then◌else◌,
}
use pdwfs.Base.Int.{ℤ, pos, negsuc, wrap, is_neg, ◌==ℤ◌}
use pdwfs.Store.Redis.{Redis}
use pdwfs.Store.DataStore.{DataStore, Instances, read_at, write_at}
use pdwfs.Store.Size.{get_size}
use pdwfs.Store.Resize.{resize}

-- The errors that a file returns. `io.EOF` is the first.
pub data FileError : Type 0 where
  eof : FileError
  negative_truncate_size : FileError
  invalid_seek_whence : FileError
  negative_seek_location : FileError

pub record MemFile : Type 0 where
  pub store : DataStore
  pub path : Bytes
  pub offset : ℤ

unfoldable pub new_mem_file : DataStore → Bytes → MemFile
new_mem_file store path = record { store = store; path = path; offset = pos 0 }

-- The sum of two `int64`.
unfoldable pub int64_add : ℤ → ℤ → ℤ
int64_add a b =
    let w = (wrap (2 ^ 64) a + wrap (2 ^ 64) b) % 2 ^ 64 in
    if ltb w (2 ^ 63) then pos w else negsuc (2 ^ 64 - 1 - w)

-- What a read leaves in the buffer, its count and its error, if any.
pub record ReadResult : Type 0 where
  pub buffer : Bytes
  pub count : ℕ
  pub error : Option FileError

-- What a read of a vector leaves in the buffers.
pub record VecResult : Type 0 where
  pub buffers : List Bytes
  pub total : ℕ
  pub vec_error : Option FileError

module _ ⦃rs : Redis⦄ where
  unfoldable pub size : MemFile → Instances → ℤ
  size f st = get_size f.store f.path st

  -- `none` is a panic.
  unfoldable pub truncate : MemFile → ℤ → Instances → Option (Option FileError × Instances)
  unfolding resize
  truncate f (negsuc n) st = some (some negative_truncate_size, st)
  truncate f (pos n) st = elim (resize f.store f.path (pos n) st) [
    | none ↦ none
    | some st' ↦ some (none, st')
  ]

-- `none` is a panic.
module _ ⦃rs : Redis⦄ (grown : ℕ → ℕ) where
  -- The end of the file is told by a count below the buffer's length.
  abbrev pub read_result : ℕ → Option (Bytes × ℕ) → Option ReadResult
  read_result len none = none
  read_result len (some (buf, n)) =
      some (record { buffer = buf; count = n; error = if ltb n len then some eof else none })

  unfoldable pub file_read_at : MemFile → Bytes → ℤ → Instances → Option ReadResult
  file_read_at f dst (negsuc o) st = none
  file_read_at f [] (pos o) st = some (record { buffer = []; count = 0; error = none })
  file_read_at f (b ∷ dst) (pos o) st =
      read_result (length (b ∷ dst)) (read_at f.store f.path grown (pos o) (b ∷ dst) st)

  abbrev advanced : MemFile → ℕ → MemFile
  advanced f n = record f { offset = int64_add f.offset (pos n) }

  unfoldable pub read : MemFile → Bytes → Instances → Option (MemFile × ReadResult)
  read f dst st = elim (file_read_at f dst f.offset st) [
    | none ↦ none
    | some r ↦ some (advanced f r.count, r)
  ]

  -- After an error the other buffers are left alone.
  abbrev more_buffers : ReadResult → Option VecResult → List Bytes → Option VecResult
  more_buffers r rest others = elim r.error [
    | some e ↦ some (record { buffers = r.buffer ∷ others; total = r.count; vec_error = some e })
    | none ↦ elim rest [
      | none ↦ none
      | some v ↦ some (record {
        buffers = r.buffer ∷ v.buffers;
        total = r.count + v.total;
        vec_error = v.vec_error;
      })
    ]
  ]

  pub read_vec_at : MemFile → List Bytes → ℤ → Instances → Option VecResult
  unfolding file_read_at int64_add
  read_vec_at f [] off st = some (record { buffers = []; total = 0; vec_error = none })
  read_vec_at f (dst ∷ dstv) off st = elim (file_read_at f dst off st) [
    | none ↦ none
    | some r ↦ more_buffers r (read_vec_at f dstv (int64_add off (pos r.count)) st) dstv
  ]

  unfoldable pub read_vec : MemFile → List Bytes → Instances → Option (MemFile × VecResult)
  unfolding read_vec_at int64_add
  read_vec f dstv st = elim (read_vec_at f dstv f.offset st) [
    | none ↦ none
    | some v ↦ some (advanced f v.total, v)
  ]

  -- A write has no error.
  unfoldable pub file_write_at : MemFile → Bytes → ℤ → Instances → Option (ℕ × Instances)
  file_write_at f buf (negsuc o) st = none
  file_write_at f buf (pos o) st = elim (write_at f.store f.path grown (pos o) buf st) [
    | none ↦ none
    | some st' ↦ some (length buf, st')
  ]

  unfoldable pub write : MemFile → Bytes → Instances → Option (ℕ × MemFile × Instances)
  write f buf st = elim (file_write_at f buf f.offset st) [
    | none ↦ none
    | some (n, st') ↦ some (n, advanced f n, st')
  ]

  -- The loop over the vector, with the offset, the count and the store so far.
  unfoldable pub write_vec_loop : MemFile → List Bytes → ℤ → ℕ → Instances → Option (ℕ × Instances)
  write_vec_loop f [] off n st = some (n, st)
  write_vec_loop f (buf ∷ bufs) off n st = elim (file_write_at f buf off st) [
    | none ↦ none
    | some (wrote, st') ↦ write_vec_loop f bufs (int64_add off (pos wrote)) (n + wrote) st'
  ]

  unfoldable pub write_vec_at : MemFile → List Bytes → ℤ → Instances → Option (ℕ × Instances)
  write_vec_at f bufs off st = write_vec_loop f bufs off 0 st

  unfoldable pub write_vec : MemFile → List Bytes → Instances → Option (ℕ × MemFile × Instances)
  write_vec f bufs st = elim (write_vec_at f bufs f.offset st) [
    | none ↦ none
    | some (n, st') ↦ some (n, advanced f n, st')
  ]

module _ ⦃rs : Redis⦄ where
  -- The new offset and the error.
  abbrev pub seek_to : MemFile → ℤ → MemFile × ℤ × Option FileError
  seek_to f abs =
      if is_neg abs
      then (f, pos 0, some negative_seek_location)
      else (record f { offset = abs }, abs, none)

  -- `os.SEEK_SET`, `os.SEEK_CUR` and `os.SEEK_END` are 0, 1 and 2.
  unfoldable pub seek : MemFile → ℤ → ℤ → Instances → MemFile × ℤ × Option FileError
  unfolding int64_add size
  seek f off whence st =
      if whence ==ℤ pos 0
      then seek_to f off
      else if whence ==ℤ pos 1
      then seek_to f (int64_add f.offset off)
      else if whence ==ℤ pos 2
      then seek_to f (int64_add (size f st) off)
      else (f, pos 0, some invalid_seek_whence)
