-- ===== src/Intercept/Guards.antt =====
-- pdwfs.c, what the intercepted functions have in common: the test of PATH_NOT_MANAGED and its like
-- before a libc call, the slices and strings handed to the Go layer, and its results.
use pdwfs.Base.{ℕ, Bool, true, false, Option, none, some, List, [], Bytes, map, take, if◌then◌else◌}
use pdwfs.Base.Int.{ℤ, pos, is_neg, to_int, pos_part}
use pdwfs.Machine.{exits, faults, Cmd, ◌>>=◌, ◌>>◌, pure}
use pdwfs.Machine.Host.{Env, CString, Mem, IoVec, GoCall}
use pdwfs.Machine.Access.{load, store, store_vec, set_mem, take_go_errno, go_call}
use pdwfs.Registers.{path_not_managed, fd_not_managed, stream_not_managed}

-- The bytes of a string that is not NULL.
abbrev pub bytes_of : CString → Bytes
bytes_of none = []
bytes_of (some s) = s

-- The slices of the first `iovcnt` entries of a vector.
abbrev pub entries : List IoVec → ℤ → List IoVec
entries iov iovcnt = take (pos_part iovcnt) iov

module _ ⦃env : Env⦄ where
  -- if PATH_NOT_MANAGED(path) { return libc } rest
  unfoldable pub on_path : CString → Cmd ℤ → Cmd ℤ → Cmd ℤ
  on_path path libc rest = path_not_managed path >>= (λ b. if b then libc else rest)

  -- if FD_NOT_MANAGED(fd) { return libc } rest
  unfoldable pub on_fd : ℤ → Cmd ℤ → Cmd ℤ → Cmd ℤ
  on_fd fd libc rest w = if fd_not_managed fd w then libc w else rest w

  -- The branches of a test that may fault.
  abbrev pub tested : Option Bool → Cmd ℤ → Cmd ℤ → Cmd ℤ
  tested none libc rest w = faults
  tested (some true) libc rest w = libc w
  tested (some false) libc rest w = rest w

  -- if STREAM_NOT_MANAGED(stream) { return libc } rest, with the fault of fileno(NULL)
  unfoldable pub on_stream : ℕ → Cmd ℤ → Cmd ℤ → Cmd ℤ
  on_stream stream libc rest w = tested (stream_not_managed stream w) libc rest w

  -- NOT_IMPLEMENTED: exit(EXIT_FAILURE)
  unfoldable pub not_implemented : Cmd ℤ
  not_implemented w = exits (pos 1) w

  -- The result of a Go function, a GoInt, returned as an `int`.
  unfoldable pub int_call : GoCall env.Go ℤ → Cmd ℤ
  unfolding go_call to_int
  int_call f = go_call f >>= (λ ret. pure (to_int ret))

  -- A Go function that fills a structure of the caller.
  unfoldable pub fill_call : (Mem → GoCall env.Go (ℤ × Mem)) → Cmd ℤ
  unfolding go_call set_mem to_int
  fill_call f w = (go_call (f w.mem) >>= (λ (ret, m). set_mem m >> pure (to_int ret))) w

  -- if (ret < 0) errno = GetErrno()
  unfoldable pub with_go_errno : Cmd ℤ → Cmd ℤ
  unfolding take_go_errno
  with_go_errno c = c >>= (λ ret. if is_neg ret then take_go_errno >> pure ret else pure ret)

  -- GoSlice buffer = {buf, count, count}, to write from
  unfoldable pub write_from : (Bytes → GoCall env.Go ℤ) → ℕ → ℕ → Cmd ℤ
  unfolding go_call load
  write_from f buf count w = go_call (f (load w.mem buf count)) w

  -- and to read into
  unfoldable pub read_into : GoCall env.Go (ℤ × Bytes) → ℕ → Cmd ℤ
  unfolding go_call set_mem store
  read_into f buf = go_call f >>= (λ (ret, bs) w. (set_mem (store w.mem buf bs) >> pure ret) w)

  -- the same over a vector of slices
  unfoldable pub write_vec : (List Bytes → GoCall env.Go ℤ) → List IoVec → ℤ → Cmd ℤ
  unfolding go_call load
  write_vec f iov iovcnt w = go_call (f (map (λ v. load w.mem v.base v.len) (entries iov iovcnt))) w

  unfoldable pub read_vec : (List ℕ → GoCall env.Go (ℤ × List Bytes)) → List IoVec → ℤ → Cmd ℤ
  unfolding go_call set_mem store_vec
  read_vec f iov iovcnt =
      go_call (f (map (λ v. v.len) (entries iov iovcnt)))
      >>= (λ (ret, bss) w. (set_mem (store_vec w.mem (entries iov iovcnt) bss) >> pure ret) w)
