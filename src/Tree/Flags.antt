-- ===== src/Tree/Flags.antt =====
-- The flags of open by their values, and the file that a caller of open is to get.
use pdwfs.Base.{
  ℕ, ◌+◌, ◌-◌, ◌*◌, ◌%◌, ◌^◌, ◌<◌, ◌≡◌, refl, Bool, true, false, arith, Bytes, ltb, leb, ◌==◌,
  if◌then◌else◌,
}
use pdwfs.Base.Int.{ℤ, pos, negsuc, wrap, pos_part}
use pdwfs.Store.Keys.{key, to_int64}
use pdwfs.Store.Redis.{Redis}
use pdwfs.Store.DataStore.{Instances, client_of}
use pdwfs.Store.Size.{search_last_stripe, get_size}
use pdwfs.MemFile.{new_mem_file, int64_add, size, seek, seek_to}
use pdwfs.Tree.MetaRedis.{Metadata}
use pdwfs.Tree.{RedisFs}
use pdwfs.Tree.Opening.{
  Access, read_write, write_only, read_only, OpenFile, bit, access_of, opened, o_create, o_excl,
  o_trunc,
}

-- The flag is a power of 2.
abbrev pub asks : ℕ → ℕ → Bool
asks flag flags = leb flag (flags % (2 * flag))

-- O_RDONLY, O_WRONLY and O_RDWR are 0, 1 and 2 in the lowest two bits.
abbrev pub access_in : ℕ → Access
access_in flags =
    if flags % 4 == 0 then read_only else if flags % 4 == 1 then write_only else read_write

pub create-asks : (flags : ℕ) → bit o_create flags ≡ asks 64 flags
create-asks flags = ground arith

pub excl-asks : (flags : ℕ) → bit o_excl flags ≡ asks 128 flags
excl-asks flags = ground arith

pub trunc-asks : (flags : ℕ) → bit o_trunc flags ≡ asks 512 flags
trunc-asks flags = ground arith

append-asks : (flags : ℕ) → bit 1024 flags ≡ asks 1024 flags
append-asks flags = ground arith

access_of-access_in : (flags : ℕ) → access_of flags ≡ access_in flags
access_of-access_in flags = ground arith

-- A value of 64 bits.
int64_add-word :
    (w : ℕ)
    → w < 2 ^ 64
    → int64_add (if ltb w (2 ^ 63) then pos w else negsuc (2 ^ 64 - 1 - w)) (pos 0)
      ≡ (if ltb w (2 ^ 63) then pos w else negsuc (2 ^ 64 - 1 - w))
unfolding int64_add
int64_add-word w h = ground arith

wrap-lt : (i : ℤ) → wrap (2 ^ 64) i < 2 ^ 64
wrap-lt (pos n) = omega arith
wrap-lt (negsuc n) = omega arith

int64_add-to_int64 : (i : ℤ) → int64_add (to_int64 i) (pos 0) ≡ to_int64 i
unfolding to_int64
int64_add-to_int64 i = int64_add-word (wrap (2 ^ 64) i) (wrap-lt i)

module _ ⦃rs : Redis⦄ ⦃md : Metadata⦄ (fs : RedisFs) (path : Bytes) where
  int64_add-get_size :
      (st : Instances)
      → int64_add (get_size fs.data_store path st) (pos 0) ≡ get_size fs.data_store path st
  unfolding get_size to_int64
  int64_add-get_size st = by_last (search_last_stripe fs.data_store path st)
    where
      by_last :
          (last : ℤ)
          → let size : ℤ = elim last [
            | negsuc i ↦ pos 0
            | pos i ↦ to_int64 (
                pos (
                  i * fs.data_store.stripe_size
                  + rs.strlen (key path (pos i)) (st (client_of fs.data_store path (pos i)))))
          ] in
            int64_add size (pos 0) ≡ size
      by_last (pos i) = int64_add-to_int64 (pos _)
      by_last (negsuc i) = int64_add-to_int64 (pos 0)

  -- At the end of the data with O_APPEND, and at 0 otherwise; for reading with O_RDONLY, for writing with
  -- O_WRONLY, for both with O_RDWR.
  abbrev pub file_in : ℕ → Instances → OpenFile
  file_in flags st = record {
    file = record {
      store = fs.data_store;
      path = path;
      offset = if asks 1024 flags then pos (pos_part (get_size fs.data_store path st)) else pos 0;
    };
    access = access_in flags;
  }

  pub opened-file_in : (flags : ℕ) (st : Instances) → opened fs path flags st ≡ file_in flags st
  unfolding seek size new_mem_file
  opened-file_in flags st =
      rw (append-asks flags, access_of-access_in flags, int64_add-get_size st)
        (by_append (asks 1024 flags) (get_size fs.data_store path st) (access_in flags))
    where
      by_append :
          (b : Bool) (i : ℤ) (a : Access)
          → let f = new_mem_file fs.data_store path in
            let made : OpenFile = record {
              file = (if b then seek_to f i else seek_to f (pos 0)).0;
              access = a;
            } in
            let wanted : OpenFile = record {
              file = record {
                store = fs.data_store;
                path = path;
                offset = if b then pos (pos_part i) else pos 0;
              };
              access = a;
            } in
            made ≡ wanted
      by_append true (pos n) a = refl
      by_append true (negsuc n) a = refl
      by_append false i a = refl
