-- ===== src/Examples/OnFiles.antt =====
-- The files of redisfs that are cut and read, on two instances and stripes of four bytes.
use mathlib.Core.List.Permᴰ
use pdwfs.Base.{◌+◌, ◌≡◌, refl, some, List, [], ◌∷◌, arith, take}
use pdwfs.Base.Int.{pos}
use pdwfs.Ring.Clients.{get_client-IsAmong}
use pdwfs.Store.Keys.{key, divmod}
use pdwfs.Store.DataStore.{Instances}
use pdwfs.Store.Size.{get_size}
use pdwfs.Store.Flat.{IsFile}
use pdwfs.Store.Resize.{Task, zero_byte, last_stripe_info, resize_tasks, run_tasks, resized}
use pdwfs.Store.Resize.Shrink.{Resize-IsFile}
use pdwfs.MemFile.{MemFile, read}
use pdwfs.MemFile.Reads.{read_of, read-IsFile}
use pdwfs.Instance.RedisTable.{table_redis}
use pdwfs.Examples.OnStore.{
  byte_sum, two_clients, doubled, file_name, six_bytes, six_written, six_written-IsFile,
}

-- Six bytes are cut to three.
abbrev cut_tasks : List Task
cut_tasks = resize_tasks 4 (get_size two_clients file_name six_written) (pos 3)

abbrev three_left : Instances
three_left = run_tasks two_clients file_name cut_tasks six_written

Resize-IsFile_example : IsFile two_clients file_name (omega arith) (take 3 six_bytes) three_left
Resize-IsFile_example =
    Resize-IsFile two_clients file_name (omega arith) six_bytes 3
      (λ i.
        get_client-IsAmong byte_sum ((b'a' ∷ []) ∷ (b'b' ∷ []) ∷ []) (key file_name i)
          (omega arith))
      (omega arith) (omega arith) six_written-IsFile (resized cut_tasks (Permᴰ.refl cut_tasks))

-- Growing from eight bytes to nine writes a zero over the byte at the offset 1.
resize_tasks-grow :
    resize_tasks 10 (pos 8) (pos 9) ≡ zero_byte (pos 0) (pos 8) ∷ zero_byte (pos 0) (pos 1) ∷ []
unfolding resize_tasks last_stripe_info divmod
resize_tasks-grow = refl

abbrev near_end : MemFile
near_end = record { store = two_clients; path = file_name; offset = pos 4 }

-- Two bytes are left.
read-IsFile_example :
    read doubled near_end (0 ∷ 0 ∷ 0 ∷ []) six_written
    ≡ some (record near_end { offset = pos (4 + 2) }, read_of (5 ∷ 6 ∷ []) (0 ∷ 0 ∷ 0 ∷ []))
read-IsFile_example =
    read-IsFile doubled near_end (omega arith) 4 six_bytes (0 ∷ 0 ∷ 0 ∷ []) six_written
      (omega arith) (omega arith) six_written-IsFile refl
