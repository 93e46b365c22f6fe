-- ===== src/Examples/OnStore.antt =====
-- The store of redisfs, on two instances and stripes of four bytes.
use mathlib.Core.List.Permᴰ.{swap}
use pdwfs.Base.{
  ℕ, zero, suc, ◌+◌, ◌-◌, ◌*◌, ◌≡◌, ◌⊎◌, refl, Option, none, some, inl, List, [], ◌∷◌, arith, Bytes,
  if◌then◌else◌,
}
use pdwfs.Base.Int.{pos}
use pdwfs.Ring.{ConsistentHash, new_redis_ring, new_consistent_hash, add, get}
use pdwfs.Ring.Consistent.{IsAmong, add-IsSorted, get-add}
use pdwfs.Store.Keys.{to_int64, divmod}
use pdwfs.Store.Redis.{overwrite}
use pdwfs.Store.Stripes.{Stripe, stripe_layout, layout_loop}
use pdwfs.Store.Tiling.{Tiling, stripe_layout-Tiling}
use pdwfs.Store.Bytes.{byte, within}
use pdwfs.Store.DataStore.{DataStore, Instances, write_stripes, read_at, WriteAt, wrote}
use pdwfs.Store.Contents.{content, HoldsText}
use pdwfs.Store.Written.{WriteAt-content}
use pdwfs.Store.Flat.{IsFile, WriteAt-IsFile}
use pdwfs.Store.Read.{read_at-IsFile, blanks}
use pdwfs.Store.Size.Extent.{text_length}
use pdwfs.MemFile.{MemFile, write_vec}
use pdwfs.MemFile.Writes.{write_vec-IsFile}
use pdwfs.Instance.RedisTable.{table_redis, no_data}

abbrev pub byte_sum : Bytes → ℕ
byte_sum [] = 0
byte_sum (b ∷ bs) = b + byte_sum bs

abbrev pub two_clients : DataStore
two_clients = record {
  redis_ring = new_redis_ring byte_sum ((b'a' ∷ []) ∷ (b'b' ∷ []) ∷ []);
  stripe_size = 4;
}

abbrev pub doubled : ℕ → ℕ
doubled n = 2 * n

abbrev pub file_name : Bytes
file_name = b'f' ∷ []

abbrev pub six_bytes : Bytes
six_bytes = 1 ∷ 2 ∷ 3 ∷ 4 ∷ 5 ∷ 6 ∷ []

-- Six bytes at the offset 2 lie in two stripes.
abbrev first_part : Stripe
first_part = record { id = pos 0; off = pos 2; payload = 1 ∷ 2 ∷ [] }

abbrev second_part : Stripe
second_part = record { id = pos 1; off = pos 0; payload = 3 ∷ 4 ∷ 5 ∷ 6 ∷ [] }

stripe_layout-parts :
    stripe_layout doubled 4 (pos 2) six_bytes ≡ some (first_part ∷ second_part ∷ [])
unfolding stripe_layout layout_loop divmod to_int64
stripe_layout-parts = refl

stripe_layout-Tiling_example :
    (xs : List Stripe) × (stripe_layout doubled 4 (pos 2) six_bytes ≡ some xs)
    × Tiling 4 2 six_bytes xs
stripe_layout-Tiling_example =
    stripe_layout-Tiling doubled 4 2 six_bytes (omega arith) (omega arith)

-- The second stripe is written first.
abbrev after_write : Instances
after_write = write_stripes two_clients file_name (second_part ∷ first_part ∷ []) no_data

written_out_of_order : WriteAt two_clients file_name doubled (pos 2) six_bytes no_data after_write
written_out_of_order =
    wrote (first_part ∷ second_part ∷ []) (second_part ∷ first_part ∷ []) stripe_layout-parts
      (swap refl refl)

WriteAt-content_example :
    HoldsText two_clients file_name after_write
    × (content two_clients file_name after_write 5 ≡ (
        if within 2 6 5 then byte six_bytes (5 - 2) else content two_clients file_name no_data 5))
WriteAt-content_example =
    WriteAt-content two_clients file_name (omega arith) 5 doubled 2 six_bytes (omega arith)
      (λ id. refl) written_out_of_order

-- Nothing is stored at first.
empty-IsFile : IsFile two_clients file_name (omega arith) [] no_data
unfolding content byte
empty-IsFile = record {
  sized = (
    record {
      texts = λ id. refl;
      free = λ c. refl;
      full = λ i. omega arith;
      below = λ i. inl refl;
      sets = λ c j e. cc;
      home = λ c j e. cc;
      present = λ i h. absurd (omega arith);
    },
    inl refl,
  );
  bytes = λ p. refl;
  dense = λ p h. absurd (omega arith);
}

abbrev pub start_first : Stripe
start_first = record { id = pos 0; off = pos 0; payload = 1 ∷ 2 ∷ 3 ∷ 4 ∷ [] }

abbrev pub start_second : Stripe
start_second = record { id = pos 1; off = pos 0; payload = 5 ∷ 6 ∷ [] }

stripe_layout-start :
    stripe_layout doubled 4 (pos 0) six_bytes ≡ some (start_first ∷ start_second ∷ [])
unfolding stripe_layout layout_loop divmod to_int64
stripe_layout-start = refl

abbrev pub six_written : Instances
six_written = write_stripes two_clients file_name (start_second ∷ start_first ∷ []) no_data

six_written-WriteAt : WriteAt two_clients file_name doubled (pos 0) six_bytes no_data six_written
six_written-WriteAt =
    wrote (start_first ∷ start_second ∷ []) (start_second ∷ start_first ∷ []) stripe_layout-start
      (swap refl refl)

pub six_written-IsFile : IsFile two_clients file_name (omega arith) six_bytes six_written
six_written-IsFile =
    WriteAt-IsFile two_clients file_name (omega arith) doubled 0 [] six_bytes (omega arith)
      (omega arith) (omega arith) empty-IsFile six_written-WriteAt

WriteAt-IsFile_example :
    IsFile two_clients file_name (omega arith) (overwrite 0 six_bytes []) six_written
WriteAt-IsFile_example =
    WriteAt-IsFile two_clients file_name (omega arith) doubled 0 [] six_bytes (omega arith)
      (omega arith) (omega arith) empty-IsFile six_written-WriteAt

-- Three bytes asked for at the offset 4, where two are left.
read_at-IsFile_example :
    (xs : List Stripe) × (stripe_layout doubled 4 (pos 4) (0 ∷ 0 ∷ 0 ∷ []) ≡ some xs)
    × (read_at two_clients file_name doubled (pos 4) (0 ∷ 0 ∷ 0 ∷ []) six_written
        ≡ some (5 ∷ 6 ∷ 0 ∷ [], 2 + blanks xs * text_length two_clients file_name six_written 0))
read_at-IsFile_example =
    read_at-IsFile two_clients file_name (omega arith) six_bytes six_written six_written-IsFile
      doubled 4 (0 ∷ 0 ∷ 0 ∷ []) (omega arith)

abbrev pub open_file : MemFile
open_file = record { store = two_clients; path = file_name; offset = pos 0 }

write_vec-IsFile_example :
    (st' : Instances) × (write_vec doubled open_file ((1 ∷ 2 ∷ []) ∷ [] ∷ (3 ∷ []) ∷ []) no_data
      ≡ some (3, record open_file { offset = pos (0 + 3) }, st'))
    × IsFile two_clients file_name (omega arith) (1 ∷ 2 ∷ 3 ∷ []) st'
write_vec-IsFile_example =
    write_vec-IsFile doubled open_file (omega arith) ((1 ∷ 2 ∷ []) ∷ [] ∷ (3 ∷ []) ∷ []) 0 []
      no_data refl (omega arith) (omega arith) empty-IsFile

abbrev one_node : ConsistentHash
one_node = add ((b'0' ∷ []) ∷ []) (new_consistent_hash 2 byte_sum)

get-add_example :
    IsAmong (get file_name (add ((b'1' ∷ []) ∷ []) one_node)) ((b'1' ∷ []) ∷ [])
    ⊎ (get file_name (add ((b'1' ∷ []) ∷ []) one_node) ≡ get file_name one_node)
get-add_example =
    get-add file_name ((b'1' ∷ []) ∷ []) one_node
      (add-IsSorted ((b'0' ∷ []) ∷ []) (new_consistent_hash 2 byte_sum))

-- A layout of more than a hundred stripes has blank ones, and a read counts them.
abbrev bytes_of : ℕ → Bytes
bytes_of zero = []
bytes_of (suc n) = 7 ∷ bytes_of n

abbrev blanks_in : Option (List Stripe) → ℕ
blanks_in none = 0
blanks_in (some xs) = blanks xs

stripe_layout-blanks : blanks_in (stripe_layout doubled 1 (pos 0) (bytes_of 101)) ≡ 100
unfolding stripe_layout layout_loop divmod to_int64 blanks
stripe_layout-blanks = refl
