-- ===== src/Examples/OnStreams.antt =====
-- Stream 50 is managed, stream 3 is not; the next temporary file is stream 60 on descriptor 60.
use pdwfs.Base.{ℕ, suc, ◌<◌, ◌≤◌, ◌-◌, ◌≡◌, refl, ◌≢◌, true, false, inl, some, List, [], ◌∷◌, arith}
use pdwfs.Base.Int.{ℤ, pos, negsuc, minus_one, to_int, is_neg}
use pdwfs.Machine.{World, done}
use pdwfs.Machine.Symbol.{Symbol, symbol_id}
use pdwfs.Machine.Host.{returned}
use pdwfs.Machine.Access.{load, store, go_call, fileno}
use pdwfs.Registers.{
  path_not_managed, contains_path, is_std_fd, fd_not_managed, stream_not_managed, contains_fd,
  close,
}
use pdwfs.Abspath.{abspath}
use pdwfs.Libc.{call_next}
use pdwfs.Libc.Descriptors.{libc_close}
use pdwfs.Intercept.Guards.{on_stream}
use pdwfs.Intercept.Short.{fread-short}
use pdwfs.Calls.Local.{Local}
use pdwfs.Calls.KeepStream.{stream_call-Local}
use pdwfs.Intercept.Ended.{fclose-forgets}
use pdwfs.Examples.OnDescriptors.{closed}
use pdwfs.Calls.OnStream.{StreamCall, stream_call}
use pdwfs.Intercept.Opening.{open_file, fopen, fclose}
use pdwfs.Intercept.Opened.{open_file-opens, open_file-fails, fopen-opens, fopen-fails}
use pdwfs.Intercept.Streams.{fgetc, fwrite, fread}
use pdwfs.Intercept.Indicators.{Wrote, fwrite-accepted, fgetc-byte}
use pdwfs.Instance.{File, one_file_env, open_world}
use pdwfs.Instance.Text.{codes}

managed : (bs : List ℕ) → stream_not_managed 50 (open_world bs) ≡ some false
unfolding stream_not_managed fd_not_managed is_std_fd
managed bs = refl

inside : path_not_managed (some (codes "/m/f")) (open_world []) ≡ done false (open_world [])
unfolding path_not_managed contains_path abspath
inside = refl

unknown : path_not_managed (some (codes "/m/g")) (open_world []) ≡ done false (open_world [])
unfolding path_not_managed contains_path abspath
unknown = refl

abbrev start : File
start = record { bytes = []; offset = 0 }

-- The next descriptor is not registered.
fresh : contains_fd (pos 60) (open_world []) ≡ false
unfolding contains_fd
fresh = refl

accepted : is_neg (to_int (pos 60)) ≡ false
unfolding to_int
accepted = refl

open_file-opens_example :
    (w' : World) × (open_file (some (codes "/m/f")) (pos 0) (pos 0) (open_world [])
      ≡ done (to_int (pos 60)) w')
    × (contains_fd (pos 60) w' ≡ true)
    × ((j : ℤ) → j ≢ pos 60 → contains_fd j w' ≡ contains_fd j (open_world []))
    × (w'.machine ≡ record (open_world []).machine { sys = 61 })
    × (w'.go ≡ start)
open_file-opens_example =
    open_file-opens (some (codes "/m/f")) (pos 0) (pos 0) (open_world []) 60 61 (pos 60) start
      inside refl (λ e. cc) fresh refl accepted

refused : is_neg (to_int minus_one) ≡ true
unfolding to_int
refused = refl

open_file-fails_example :
    (w' : World) × (open_file (some (codes "/m/g")) (pos 0) (pos 0) (open_world [])
      ≡ done (to_int minus_one) w')
    × (contains_fd (pos 60) w' ≡ false)
    × ((j : ℤ) → j ≢ pos 60 → contains_fd j w' ≡ contains_fd j (open_world []))
    × (w'.machine ≡ record (open_world []).machine { sys = 61; errno = pos 2 })
    × (w'.go ≡ start)
open_file-fails_example =
    open_file-fails (some (codes "/m/g")) (pos 0) (pos 0) (open_world []) 60 61 minus_one start
      (suc (symbol_id Symbol.close)) unknown refl (λ e. cc) fresh refl refused refl (λ e. cc)
      (inl refl)

fopen-opens_example :
    (w' : World) × (fopen (some (codes "/m/f")) (some (codes "r")) (open_world [])
      ≡ done (pos 60) w')
    × (contains_fd (pos 60) w' ≡ true)
    × ((j : ℤ) → j ≢ pos 60 → contains_fd j w' ≡ contains_fd j (open_world []))
    × (w'.machine ≡ record (open_world []).machine { sys = 61 })
    × (w'.go ≡ start)
fopen-opens_example =
    fopen-opens (some (codes "/m/f")) (codes "r") (open_world []) 60 61 (pos 60) start inside refl
      (λ e. cc) fresh refl accepted

fopen-fails_example :
    (w' : World) × (fopen (some (codes "/m/g")) (some (codes "r")) (open_world [])
      ≡ done (pos 0) w')
    × (contains_fd (pos 60) w' ≡ false)
    × ((j : ℤ) → j ≢ pos 60 → contains_fd j w' ≡ contains_fd j (open_world []))
    × (w'.machine ≡ record (open_world []).machine { sys = 61 })
    × (w'.go ≡ start)
fopen-fails_example =
    fopen-fails (some (codes "/m/g")) (codes "r") (open_world []) 60 61 minus_one start
      (suc (symbol_id Symbol.close)) unknown refl (λ e. cc) fresh refl refused refl (λ e. cc)
      (inl refl)

closes : fclose 50 (open_world []) ≡ done (pos 0) closed
unfolding fclose on_stream stream_not_managed close libc_close call_next fd_not_managed is_std_fd
    go_call fileno to_int symbol_id
closes = refl

fclose-forgets_example :
    (n : ℤ) × (g : File) × (ret : ℤ) × (returned (pos 0) start ≡ returned n g)
    × (returned (pos 0) g ≡ returned ret start)
    × (pos 0 ≡ to_int ret)
    × (contains_fd (pos 50) closed ≡ false)
    × ((j : ℤ) → j ≢ pos 50 → contains_fd j closed ≡ contains_fd j (open_world []))
fclose-forgets_example = fclose-forgets 50 (open_world []) closed (pos 0) (managed []) closes

abbrev two_zeros : File
two_zeros = record { bytes = 0 ∷ 0 ∷ []; offset = 2 }

-- Two items, of one byte each, and one item of two bytes.
fwrite-accepted_example :
    Wrote 50 1 2 (open_world []) two_zeros (fwrite 1000 2 1 50 (open_world []))
unfolding load
fwrite-accepted_example =
    fwrite-accepted 50 (open_world []) two_zeros 1000 2 1 (managed []) (omega arith) refl

abbrev word : File
word = record { bytes = codes "ab"; offset = 2 }

abbrev one_read : File
one_read = record { bytes = 200 ∷ 1 ∷ []; offset = 1 }

fgetc-byte_example :
    (r : ℤ) × (fgetc 50 (open_world (200 ∷ 1 ∷ []))
      ≡ done r (record (open_world (200 ∷ 1 ∷ [])) { go = one_read }))
    × (200 < 128 → r ≡ pos 200)
    × (128 ≤ 200 → r ≡ negsuc (255 - 200))
fgetc-byte_example = fgetc-byte 50 (open_world (200 ∷ 1 ∷ [])) one_read 200 (managed _) refl

stream_call-Local_example :
    Local (open_world []) (stream_call (StreamCall.fputc (pos 65) 50) (open_world []))
stream_call-Local_example =
    stream_call-Local (StreamCall.fputc (pos 65) 50) (open_world []) (managed []) (λ e. cc)
      (λ e. cc) (λ e. cc) (λ e. cc)

-- Two bytes of three.
fread-short_example :
    (w' : World) × (fread 1000 1 3 50 (open_world (codes "ab")) ≡ done (pos 2) w')
    × (w'.machine.mem ≡ store (λ p. 0) 1000 (codes "ab"))
    × ((w'.machine.flags 50).eof_seen ≡ true)
    × ((w'.machine.flags 50).err_seen ≡ false)
    × (w'.machine.errno ≡ pos 2)
    × (w'.go ≡ word)
fread-short_example =
    fread-short 50 (open_world (codes "ab")) 1000 1 3 2 (codes "ab") (pos 2) (pos 2) (pos 2) word
      word word word (managed _) (omega arith) (λ e. cc) refl refl refl refl
