-- ===== src/Calls/KeepFd.antt =====
-- What the calls on a descriptor leave alone where pdwfs manages what they name.
use pdwfs.Base.{◌≡◌, refl, ◌≢◌, false}
use pdwfs.Machine.{World}
use pdwfs.Machine.Symbol.{Symbol}
use pdwfs.Machine.Host.{Env}
use pdwfs.Registers.{fd_not_managed}
use pdwfs.Intercept.Guards.{on_fd}
use pdwfs.Intercept.Files
use pdwfs.Intercept.Unsupported
use pdwfs.Intercept.Vectors
use pdwfs.Calls.Local.{
  Local, fill_call-Local, go_call-Local, int_call-Local, not_implemented-Local, read_into-Local,
  read_vec-Local, write_from-Local, write_vec-Local,
}
use pdwfs.Calls.OnFd.{FdCall, fd_call, fd_of, fd_symbol}

module _ ⦃env : Env⦄ where
  -- A call on a managed descriptor, except `close`, never reaches libc: the kernel and libc, both
  -- registers and the table of libc functions are as before, or the process ends, by exit(EXIT_FAILURE)
  -- with nothing changed or in a panic of the Go layer.
  pub fd_call-Local :
      (c : FdCall) (w : World)
      → fd_not_managed (fd_of c) w ≡ false
      → fd_symbol c ≢ Symbol.close
      → Local w (fd_call c w)
  unfolding fd_call on_fd Files.write Files.read Unsupported.fdatasync Unsupported.fsync
      Files.ftruncate64 Files.ftruncate Files.lseek64 Files.lseek Files.pread Files.pread64
      Vectors.preadv Vectors.preadv64 Files.pwrite Files.pwrite64 Vectors.pwritev Vectors.pwritev64
      Vectors.readv Vectors.writev Unsupported.ioctl Files.fxstat Files.fxstat64 Unsupported.fstatfs
      Unsupported.fstatfs64 Unsupported.fdopen Files.posix_fadvise Files.posix_fadvise64
      Unsupported.fstatvfs Unsupported.fstatvfs64
  fd_call-Local (FdCall.write fd buf count) w h ne = rw h (write_from-Local _ buf count w)
  fd_call-Local (FdCall.read fd buf count) w h ne = rw h (read_into-Local _ buf w)
  fd_call-Local (FdCall.fdatasync fd) w h ne = rw h (not_implemented-Local w)
  fd_call-Local (FdCall.fsync fd) w h ne = rw h (not_implemented-Local w)
  fd_call-Local (FdCall.ftruncate64 fd length) w h ne = rw h (int_call-Local _ w)
  fd_call-Local (FdCall.ftruncate fd length) w h ne = rw h (int_call-Local _ w)
  fd_call-Local (FdCall.lseek64 fd offset whence) w h ne = rw h (go_call-Local _ w)
  fd_call-Local (FdCall.lseek fd offset whence) w h ne = rw h (go_call-Local _ w)
  fd_call-Local (FdCall.pread fd buf count offset) w h ne = rw h (read_into-Local _ buf w)
  fd_call-Local (FdCall.pread64 fd buf count offset) w h ne = rw h (read_into-Local _ buf w)
  fd_call-Local (FdCall.preadv fd iov iovcnt offset) w h ne = rw h (read_vec-Local _ iov iovcnt w)
  fd_call-Local (FdCall.preadv64 fd iov iovcnt offset) w h ne = rw h (read_vec-Local _ iov iovcnt w)
  fd_call-Local (FdCall.pwrite fd buf count offset) w h ne = rw h (write_from-Local _ buf count w)
  fd_call-Local (FdCall.pwrite64 fd buf count offset) w h ne = rw h (write_from-Local _ buf count w)
  fd_call-Local (FdCall.pwritev fd iov iovcnt offset) w h ne = rw h (write_vec-Local _ iov iovcnt w)
  fd_call-Local (FdCall.pwritev64 fd iov iovcnt offset) w h ne =
      rw h (write_vec-Local _ iov iovcnt w)
  fd_call-Local (FdCall.readv fd iov iovcnt) w h ne = rw h (read_vec-Local _ iov iovcnt w)
  fd_call-Local (FdCall.writev fd iov iovcnt) w h ne = rw h (write_vec-Local _ iov iovcnt w)
  fd_call-Local (FdCall.ioctl fd request argp) w h ne = rw h (not_implemented-Local w)
  fd_call-Local (FdCall.fxstat vers fd buf) w h ne = rw h (fill_call-Local _ w)
  fd_call-Local (FdCall.fxstat64 vers fd buf) w h ne = rw h (fill_call-Local _ w)
  fd_call-Local (FdCall.fstatfs fd buf) w h ne = rw h (not_implemented-Local w)
  fd_call-Local (FdCall.fstatfs64 fd buf) w h ne = rw h (not_implemented-Local w)
  fd_call-Local (FdCall.fdopen fd mode) w h ne = rw h (not_implemented-Local w)
  fd_call-Local (FdCall.posix_fadvise fd offset len advice) w h ne = rw h (int_call-Local _ w)
  fd_call-Local (FdCall.posix_fadvise64 fd offset len advice) w h ne = rw h (int_call-Local _ w)
  fd_call-Local (FdCall.fstatvfs fd buf) w h ne = rw h (not_implemented-Local w)
  fd_call-Local (FdCall.fstatvfs64 fd buf) w h ne = rw h (not_implemented-Local w)
  fd_call-Local (FdCall.close fd) w h ne = absurd (ne refl)
