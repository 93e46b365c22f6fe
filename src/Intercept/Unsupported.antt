-- ===== src/Intercept/Unsupported.antt =====
-- pdwfs.c, the calls that pdwfs does not implement on what it manages.
use pdwfs.Base.{ℕ}
use pdwfs.Base.Int.{ℤ}
use pdwfs.Machine.{Cmd}
use pdwfs.Machine.Host.{Env, CString}
use pdwfs.Intercept.Guards.{on_fd, on_path, on_stream, not_implemented}
use pdwfs.Libc.Descriptors.{
  libc_fdatasync, libc_fstatfs, libc_fstatfs64, libc_fstatvfs, libc_fstatvfs64, libc_fsync,
  libc_ioctl,
}
use pdwfs.Libc.Paths.{libc_creat, libc_opendir, libc_truncate, libc_truncate64}
use pdwfs.Libc.Streams.{
  libc_fdopen, libc_fgetpos, libc_fgetpos64, libc_freopen, libc_fseek, libc_fseeko, libc_fseeko64,
  libc_fsetpos, libc_fsetpos64, libc_ftell, libc_ftello, libc_ftello64, libc_getc, libc_putc,
  libc_ungetc,
}

module _ ⦃env : Env⦄ where
  unfoldable pub creat : CString → ℤ → Cmd ℤ
  creat pathname mode = on_path pathname (libc_creat pathname mode) (not_implemented)

  unfoldable pub fdatasync : ℤ → Cmd ℤ
  fdatasync fd = on_fd fd (libc_fdatasync fd) (not_implemented)

  unfoldable pub fsync : ℤ → Cmd ℤ
  fsync fd = on_fd fd (libc_fsync fd) (not_implemented)

  unfoldable pub truncate64 : CString → ℤ → Cmd ℤ
  truncate64 path length = on_path path (libc_truncate64 path length) (not_implemented)

  unfoldable pub truncate : CString → ℤ → Cmd ℤ
  truncate path length = on_path path (libc_truncate path length) (not_implemented)

  unfoldable pub ioctl : ℤ → ℕ → ℕ → Cmd ℤ
  ioctl fd request argp = on_fd fd (libc_ioctl fd request argp) (not_implemented)

  unfoldable pub fstatfs : ℤ → ℕ → Cmd ℤ
  fstatfs fd buf = on_fd fd (libc_fstatfs fd buf) (not_implemented)

  unfoldable pub fstatfs64 : ℤ → ℕ → Cmd ℤ
  fstatfs64 fd buf = on_fd fd (libc_fstatfs64 fd buf) (not_implemented)

  unfoldable pub fdopen : ℤ → CString → Cmd ℤ
  fdopen fd mode = on_fd fd (libc_fdopen fd mode) (not_implemented)

  unfoldable pub freopen : CString → CString → ℕ → Cmd ℤ
  freopen path mode stream = on_path path (libc_freopen path mode stream) (not_implemented)

  unfoldable pub fgetpos : ℕ → ℕ → Cmd ℤ
  fgetpos stream pos = on_stream stream (libc_fgetpos stream pos) (not_implemented)

  unfoldable pub fgetpos64 : ℕ → ℕ → Cmd ℤ
  fgetpos64 stream pos = on_stream stream (libc_fgetpos64 stream pos) (not_implemented)

  unfoldable pub fseek : ℕ → ℤ → ℤ → Cmd ℤ
  fseek stream offset whence = on_stream stream (libc_fseek stream offset whence) (not_implemented)

  unfoldable pub fseeko : ℕ → ℤ → ℤ → Cmd ℤ
  fseeko stream offset whence =
      on_stream stream (libc_fseeko stream offset whence) (not_implemented)

  unfoldable pub fseeko64 : ℕ → ℤ → ℤ → Cmd ℤ
  fseeko64 stream offset whence =
      on_stream stream (libc_fseeko64 stream offset whence) (not_implemented)

  unfoldable pub fsetpos : ℕ → ℕ → Cmd ℤ
  fsetpos stream pos = on_stream stream (libc_fsetpos stream pos) (not_implemented)

  unfoldable pub fsetpos64 : ℕ → ℕ → Cmd ℤ
  fsetpos64 stream pos = on_stream stream (libc_fsetpos64 stream pos) (not_implemented)

  unfoldable pub putc : ℤ → ℕ → Cmd ℤ
  putc c stream = on_stream stream (libc_putc c stream) (not_implemented)

  unfoldable pub getc : ℕ → Cmd ℤ
  getc stream = on_stream stream (libc_getc stream) (not_implemented)

  unfoldable pub ungetc : ℤ → ℕ → Cmd ℤ
  ungetc c stream = on_stream stream (libc_ungetc c stream) (not_implemented)

  unfoldable pub ftell : ℕ → Cmd ℤ
  ftell stream = on_stream stream (libc_ftell stream) (not_implemented)

  unfoldable pub ftello : ℕ → Cmd ℤ
  ftello stream = on_stream stream (libc_ftello stream) (not_implemented)

  unfoldable pub ftello64 : ℕ → Cmd ℤ
  ftello64 stream = on_stream stream (libc_ftello64 stream) (not_implemented)

  unfoldable pub fstatvfs : ℤ → ℕ → Cmd ℤ
  fstatvfs fd buf = on_fd fd (libc_fstatvfs fd buf) (not_implemented)

  unfoldable pub fstatvfs64 : ℤ → ℕ → Cmd ℤ
  fstatvfs64 fd buf = on_fd fd (libc_fstatvfs64 fd buf) (not_implemented)

  unfoldable pub opendir : CString → Cmd ℤ
  opendir path = on_path path (libc_opendir path) (not_implemented)
