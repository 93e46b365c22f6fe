-- ===== src/Intercept/Opening.antt =====
-- pdwfs.c, the calls that make and end descriptors and streams, and the calls with two arguments that
-- may be managed.
use Prim.Native.Nat.{bit_and}
use pdwfs.Base.{ℕ, none, some, ◌^◌, Bool, not, ◌||◌, ◌&&◌, ◌==◌, if◌then◌else◌}
use pdwfs.Base.Int.{ℤ, pos, minus_one, is_neg, wrap}
use pdwfs.Machine.{done, faults, Cmd, ◌>>=◌, ◌>>◌, pure}
use pdwfs.Machine.Host.{Env, CString}
use pdwfs.Machine.Access.{fileno, set_errno, take_go_errno, go_call}
use pdwfs.Registers.{path_not_managed, fd_not_managed, get_new_stream, get_new_fd, remove_fd, close}
use pdwfs.Libc.Paths.{libc_open, libc_openat, libc_rename, libc_getxattr}
use pdwfs.Libc.Descriptors.{libc_dup2}
use pdwfs.Libc.Streams.{libc_fopen, libc_fclose, libc_rewind}
use pdwfs.Intercept.Guards.{bytes_of, on_path, on_stream, not_implemented, int_call}

-- __OPEN_NEEDS_MODE of glibc: O_CREAT is set, or all bits of __O_TMPFILE are
unfoldable pub open_needs_mode : ℤ → Bool
open_needs_mode flags =
    let f = wrap (2 ^ 32) flags in
    not (bit_and f 0o100 == 0) || (bit_and f 0o20200000 == 0o20200000)

-- The variadic argument `mode`, read only where the flags ask for it.
abbrev pub mode_of : ℤ → ℤ → ℤ
mode_of flags arg = if open_needs_mode flags then arg else pos 0

module _ ⦃env : Env⦄ where
  unfoldable pub open_new : CString → ℤ → ℤ → ℤ → Cmd ℤ
  unfolding int_call take_go_errno remove_fd
  open_new pathname flags mode fd =
      int_call (env.go_layer.open_file (bytes_of pathname) flags mode fd)
      >>= (λ ret. if is_neg ret then take_go_errno >> (remove_fd fd >> pure ret) else pure ret)

  -- `open`, and `open64`, its alias
  unfoldable pub open_file : CString → ℤ → ℤ → Cmd ℤ
  unfolding open_new get_new_fd
  open_file pathname flags arg =
      on_path pathname (libc_open pathname flags (mode_of flags arg))
        (get_new_fd >>= open_new pathname flags (mode_of flags arg))

  unfoldable pub openat : ℤ → CString → ℤ → ℤ → Cmd ℤ
  openat dirfd pathname flags arg = libc_openat dirfd pathname flags (mode_of flags arg)

  -- strdup(NULL) is a fault.
  unfoldable pub fopen_new : CString → CString → ℕ → Cmd ℤ
  unfolding int_call fileno remove_fd
  fopen_new path none stream w = faults
  fopen_new path (some mode) stream w =
      (int_call (env.go_layer.fopen (bytes_of path) mode (fileno stream w)) >>= (λ ret w'.
          if is_neg ret
          then (remove_fd (fileno stream w') >> pure (pos 0)) w'
          else done (pos stream) w'))
        w

  -- `fopen`, and `fopen64`, its alias
  unfoldable pub fopen : CString → CString → Cmd ℤ
  unfolding fopen_new get_new_stream
  fopen path mode = on_path path (libc_fopen path mode) (get_new_stream >>= fopen_new path mode)

  -- `freopen64` is declared an alias of `fopen`, which takes no third argument
  unfoldable pub freopen64 : CString → CString → ℕ → Cmd ℤ
  freopen64 path mode stream = fopen path mode

  unfoldable pub fclose : ℕ → Cmd ℤ
  unfolding go_call close fileno
  fclose stream =
      on_stream stream (libc_fclose stream)
        (go_call (env.go_layer.fflush stream) >>= (λ _ w. close (fileno stream w) w))

  unfoldable pub rewind : ℕ → Cmd ℤ
  rewind stream = on_stream stream (libc_rewind stream) not_implemented

  -- `FD_NOT_MANAGED(oldfd) && FD_NOT_MANAGED(newfd)`
  unfoldable pub dup2 : ℤ → ℤ → Cmd ℤ
  dup2 oldfd newfd w =
      if fd_not_managed oldfd w && fd_not_managed newfd w
      then libc_dup2 oldfd newfd w
      else not_implemented w

  -- `PATH_NOT_MANAGED(oldpath) && PATH_NOT_MANAGED(newpath)`, from left to right
  unfoldable pub rename : CString → CString → Cmd ℤ
  rename oldpath newpath = path_not_managed oldpath >>= (λ a.
      if a then on_path newpath (libc_rename oldpath newpath) not_implemented else not_implemented)

  unfoldable pub getxattr : CString → CString → ℕ → ℕ → Cmd ℤ
  unfolding set_errno
  getxattr path name value count =
      on_path path (libc_getxattr path name value count) (set_errno (pos 95) >> pure minus_one)
