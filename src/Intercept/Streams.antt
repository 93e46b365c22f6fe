-- ===== src/Intercept/Streams.antt =====
-- pdwfs.c, reading and writing a `FILE`: its bytes go to the file of its descriptor, and the error and
-- end-of-file indicators are set by hand.
use pdwfs.Base.{
  ℕ, ◌+◌, Bool, ◌||◌, Option, none, some, List, [], ◌∷◌, ◌++◌, Bytes, ◌==◌, length, if◌then◌else◌,
}
use pdwfs.Base.Int.{ℤ, pos, minus_one, is_neg, ◌==ℤ◌, wrap, to_int, to_size, char_to_int, mul_size}
use pdwfs.Machine.{done, Cmd, ◌>>=◌, ◌>>◌, pure}
use pdwfs.Machine.Host.{Env, Arg}
use pdwfs.Machine.Access.{
  load, store, set_mem, set_err_seen, set_eof_seen, fileno, take_go_errno, go_call,
}
use pdwfs.Libc.Streams.{libc_fputc, libc_fgetc, libc_fputs, libc_fread, libc_fwrite}
use pdwfs.Intercept.Guards.{on_stream, int_call}
use pdwfs.Intercept.Files.{lseek}

-- The byte that a read of one byte left in `char c`.
abbrev pub first_byte : Bytes → ℕ
first_byte [] = 0
first_byte (b ∷ bs) = b

-- n <= 0
abbrev pub not_positive : ℤ → Bool
not_positive n = is_neg n || n ==ℤ pos 0

module _ ⦃env : Env⦄ where
  unfoldable pub fputc : ℤ → ℕ → Cmd ℤ
  unfolding int_call take_go_errno set_err_seen fileno
  fputc c stream = on_stream stream (libc_fputc c stream) (λ w.
      (int_call (env.go_layer.write (fileno stream w) (wrap 256 c ∷ [])) >>= (λ n.
          if not_positive n
          then take_go_errno >> (set_err_seen stream >> pure minus_one)
          else pure c))
        w)

  unfoldable pub got_byte : ℕ → ℤ → Bytes → Cmd ℤ
  unfolding take_go_errno set_err_seen set_eof_seen char_to_int
  got_byte stream n bs =
      if n ==ℤ pos 0
      then set_eof_seen stream >> pure minus_one
      else if is_neg n
      then take_go_errno >> (set_err_seen stream >> pure n)
      else pure (char_to_int (first_byte bs))

  unfoldable pub fgetc : ℕ → Cmd ℤ
  unfolding go_call fileno got_byte to_int
  fgetc stream = on_stream stream (libc_fgetc stream) (λ w.
      (go_call (env.go_layer.read (fileno stream w) 1)
          >>= (λ (ret, bs). got_byte stream (to_int ret) bs))
        w)

  -- `fwrite`, where `bytes` are the contents of `ptr`
  unfoldable pub fwrite_of : Bytes → ℕ → ℕ → ℕ → ℕ → Cmd ℤ
  unfolding int_call take_go_errno set_err_seen fileno to_size
  fwrite_of bytes ptr size nmemb stream = on_stream stream (libc_fwrite ptr size nmemb stream) (λ w.
      (int_call (env.go_layer.write (fileno stream w) bytes) >>= (λ ret.
          if to_size ret == nmemb
          then pure (pos (to_size ret))
          else take_go_errno >> (set_err_seen stream >> pure (pos (to_size ret)))))
        w)

  unfoldable pub fwrite : ℕ → ℕ → ℕ → ℕ → Cmd ℤ
  unfolding fwrite_of load
  fwrite ptr size nmemb stream w =
      fwrite_of (load w.mem ptr (mul_size size nmemb)) ptr size nmemb stream w

  -- `fputs` of the string `s`, which stands at `at`
  unfoldable pub fputs : ℕ → Bytes → ℕ → Cmd ℤ
  unfolding fwrite_of
  fputs at s stream = on_stream stream (libc_fputs (some s) stream) (
      fwrite_of s at 1 (length s) stream
      >>= (λ n. pure (if n ==ℤ pos (length s) then pos 0 else minus_one)))

  -- what follows a read that does not return `nmemb`
  unfoldable pub note_short : ℕ → ℤ → Cmd (Unit {0})
  unfolding take_go_errno set_err_seen set_eof_seen fileno lseek
  note_short stream ret =
      take_go_errno
      >> ((if ret ==ℤ minus_one then set_err_seen stream else pure tt) >> (λ w.
          let fd = fileno stream w in
          (lseek fd (pos 0) (pos 1) >>= (λ cur_off. lseek fd (pos 0) (pos 2) >>= (λ end.
              (if cur_off ==ℤ end then set_eof_seen stream else pure tt)
              >> (lseek fd cur_off (pos 0) >>= (λ _. pure tt)))))
            w))

  unfoldable pub fread : ℕ → ℕ → ℕ → ℕ → Cmd ℤ
  unfolding go_call fileno store set_mem note_short to_int to_size
  fread ptr size nmemb stream = on_stream stream (libc_fread ptr size nmemb stream) (λ w.
      (go_call (env.go_layer.read (fileno stream w) (mul_size size nmemb)) >>= (λ (n, bs) w'.
          let ret = to_int n in
          (set_mem (store w'.mem ptr bs)
              >> ((if to_size ret == nmemb then pure tt else note_short stream ret)
                  >> pure (pos (to_size ret))))
            w'))
        w)

  print : ℕ → Bytes → Cmd ℤ
  unfolding fputs
  print stream msg w =
      let (p, sys') = env.libc.malloc (length msg + 1) w.sys in
      let w' = record w { machine = record w.machine { sys = sys' } } in
      if p == 0
      then done minus_one w'
      else fputs p msg stream
          (record w' { machine = record w'.machine { mem = store w.mem p (msg ++ 0 ∷ []) } })

  print_formatted : ℕ → Option Bytes → Cmd ℤ
  unfolding print
  print_formatted stream none = pure minus_one
  print_formatted stream (some msg) = print stream msg

  unfoldable pub fprintf : ℕ → Bytes → List Arg → Cmd ℤ
  unfolding print_formatted
  fprintf stream fmt args = print_formatted stream (env.libc.vsnprintf fmt args)

  unfoldable pub fprintf_chk : ℕ → ℤ → Bytes → List Arg → Cmd ℤ
  unfolding print_formatted
  fprintf_chk stream flag fmt args = print_formatted stream (env.libc.vsnprintf fmt args)
