-- ===== src/Intercept/Files.antt =====
-- pdwfs.c, the calls on a descriptor.
use pdwfs.Base.{ℕ}
use pdwfs.Base.Int.{ℤ}
use pdwfs.Machine.{Cmd}
use pdwfs.Machine.Host.{Env}
use pdwfs.Machine.Access.{go_call}
use pdwfs.Intercept.Guards.{on_fd, on_stream, int_call, fill_call, write_from, read_into}
use pdwfs.Libc.Descriptors.{
  libc_ftruncate, libc_ftruncate64, libc_fxstat, libc_fxstat64, libc_lseek, libc_lseek64,
  libc_posix_fadvise, libc_posix_fadvise64, libc_pread, libc_pread64, libc_pwrite, libc_pwrite64,
  libc_read, libc_write,
}
use pdwfs.Libc.Streams.{libc_fflush}

module _ ⦃env : Env⦄ where
  unfoldable pub write : ℤ → ℕ → ℕ → Cmd ℤ
  write fd buf count =
      on_fd fd (libc_write fd buf count) (write_from (λ bs. env.go_layer.write fd bs) buf count)

  unfoldable pub read : ℤ → ℕ → ℕ → Cmd ℤ
  read fd buf count = on_fd fd (libc_read fd buf count) (read_into (env.go_layer.read fd count) buf)

  unfoldable pub ftruncate64 : ℤ → ℤ → Cmd ℤ
  ftruncate64 fd length =
      on_fd fd (libc_ftruncate64 fd length) (int_call (env.go_layer.ftruncate fd length))

  unfoldable pub ftruncate : ℤ → ℤ → Cmd ℤ
  ftruncate fd length =
      on_fd fd (libc_ftruncate fd length) (int_call (env.go_layer.ftruncate fd length))

  unfoldable pub lseek64 : ℤ → ℤ → ℤ → Cmd ℤ
  lseek64 fd offset whence =
      on_fd fd (libc_lseek64 fd offset whence) (go_call (env.go_layer.lseek fd offset whence))

  unfoldable pub lseek : ℤ → ℤ → ℤ → Cmd ℤ
  lseek fd offset whence =
      on_fd fd (libc_lseek fd offset whence) (go_call (env.go_layer.lseek fd offset whence))

  unfoldable pub pread : ℤ → ℕ → ℕ → ℤ → Cmd ℤ
  pread fd buf count offset =
      on_fd fd (libc_pread fd buf count offset) (read_into (env.go_layer.pread fd count offset) buf)

  unfoldable pub pread64 : ℤ → ℕ → ℕ → ℤ → Cmd ℤ
  pread64 fd buf count offset =
      on_fd fd (libc_pread64 fd buf count offset)
        (read_into (env.go_layer.pread fd count offset) buf)

  unfoldable pub pwrite : ℤ → ℕ → ℕ → ℤ → Cmd ℤ
  pwrite fd buf count offset =
      on_fd fd (libc_pwrite fd buf count offset)
        (write_from (λ bs. env.go_layer.pwrite fd bs offset) buf count)

  unfoldable pub pwrite64 : ℤ → ℕ → ℕ → ℤ → Cmd ℤ
  pwrite64 fd buf count offset =
      on_fd fd (libc_pwrite64 fd buf count offset)
        (write_from (λ bs. env.go_layer.pwrite fd bs offset) buf count)

  unfoldable pub fxstat : ℤ → ℤ → ℕ → Cmd ℤ
  fxstat vers fd buf = on_fd fd (libc_fxstat vers fd buf) (fill_call (env.go_layer.fstat fd buf))

  unfoldable pub fxstat64 : ℤ → ℤ → ℕ → Cmd ℤ
  fxstat64 vers fd buf =
      on_fd fd (libc_fxstat64 vers fd buf) (fill_call (env.go_layer.fstat64 fd buf))

  unfoldable pub fflush : ℕ → Cmd ℤ
  fflush stream = on_stream stream (libc_fflush stream) (int_call (env.go_layer.fflush stream))

  unfoldable pub posix_fadvise : ℤ → ℤ → ℤ → ℤ → Cmd ℤ
  posix_fadvise fd offset len advice =
      on_fd fd (libc_posix_fadvise fd offset len advice)
        (int_call (env.go_layer.fadvise fd offset len advice))

  unfoldable pub posix_fadvise64 : ℤ → ℤ → ℤ → ℤ → Cmd ℤ
  posix_fadvise64 fd offset len advice =
      on_fd fd (libc_posix_fadvise64 fd offset len advice)
        (int_call (env.go_layer.fadvise fd offset len advice))
