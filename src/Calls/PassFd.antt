-- ===== src/Calls/PassFd.antt =====
-- What the calls on a descriptor do outside of what pdwfs manages.
use pdwfs.Base.{◌≡◌, true}
use pdwfs.Machine.{World}
use pdwfs.Machine.Host.{Env}
use pdwfs.Registers.{fd_not_managed}
use pdwfs.Registers
use pdwfs.Libc.{call_next}
use pdwfs.Libc.Descriptors.{
  libc_write, libc_read, libc_fdatasync, libc_fsync, libc_ftruncate64, libc_ftruncate, libc_lseek64,
  libc_lseek, libc_pread, libc_pread64, libc_preadv, libc_preadv64, libc_pwrite, libc_pwrite64,
  libc_pwritev, libc_pwritev64, libc_readv, libc_writev, libc_ioctl, libc_fxstat, libc_fxstat64,
  libc_fstatfs, libc_fstatfs64, libc_posix_fadvise, libc_posix_fadvise64, libc_fstatvfs,
  libc_fstatvfs64, libc_close,
}
use pdwfs.Libc.Streams.{libc_fdopen}
use pdwfs.Intercept.Guards.{on_fd}
use pdwfs.Intercept.Files
use pdwfs.Intercept.Vectors
use pdwfs.Intercept.Unsupported
use pdwfs.Calls.OnFd.{FdCall, fd_call, fd_of, fd_symbol, fd_args}

module _ ⦃env : Env⦄ where
  -- An intercepted call on a descriptor that pdwfs does not manage is the libc call of its name, with the
  -- same arguments, in the same state: nothing else happens.
  pub fd_call-call_next :
      (c : FdCall) (w : World)
      → fd_not_managed (fd_of c) w ≡ true
      → fd_call c w ≡ call_next (fd_symbol c) (fd_args c) w
  unfolding fd_call on_fd Files.write Files.read Unsupported.fdatasync Unsupported.fsync
      Files.ftruncate64 Files.ftruncate Files.lseek64 Files.lseek Files.pread Files.pread64
      Vectors.preadv Vectors.preadv64 Files.pwrite Files.pwrite64 Vectors.pwritev Vectors.pwritev64
      Vectors.readv Vectors.writev Unsupported.ioctl Files.fxstat Files.fxstat64 Unsupported.fstatfs
      Unsupported.fstatfs64 Unsupported.fdopen Files.posix_fadvise Files.posix_fadvise64
      Unsupported.fstatvfs Unsupported.fstatvfs64 Registers.close libc_write libc_read
      libc_fdatasync libc_fsync libc_ftruncate64 libc_ftruncate libc_lseek64 libc_lseek libc_pread
      libc_pread64 libc_preadv libc_preadv64 libc_pwrite libc_pwrite64 libc_pwritev libc_pwritev64
      libc_readv libc_writev libc_ioctl libc_fxstat libc_fxstat64 libc_fstatfs libc_fstatfs64
      libc_fdopen libc_posix_fadvise libc_posix_fadvise64 libc_fstatvfs libc_fstatvfs64 libc_close
  fd_call-call_next (FdCall.write fd buf count) w h = rw h
  fd_call-call_next (FdCall.read fd buf count) w h = rw h
  fd_call-call_next (FdCall.fdatasync fd) w h = rw h
  fd_call-call_next (FdCall.fsync fd) w h = rw h
  fd_call-call_next (FdCall.ftruncate64 fd length) w h = rw h
  fd_call-call_next (FdCall.ftruncate fd length) w h = rw h
  fd_call-call_next (FdCall.lseek64 fd offset whence) w h = rw h
  fd_call-call_next (FdCall.lseek fd offset whence) w h = rw h
  fd_call-call_next (FdCall.pread fd buf count offset) w h = rw h
  fd_call-call_next (FdCall.pread64 fd buf count offset) w h = rw h
  fd_call-call_next (FdCall.preadv fd iov iovcnt offset) w h = rw h
  fd_call-call_next (FdCall.preadv64 fd iov iovcnt offset) w h = rw h
  fd_call-call_next (FdCall.pwrite fd buf count offset) w h = rw h
  fd_call-call_next (FdCall.pwrite64 fd buf count offset) w h = rw h
  fd_call-call_next (FdCall.pwritev fd iov iovcnt offset) w h = rw h
  fd_call-call_next (FdCall.pwritev64 fd iov iovcnt offset) w h = rw h
  fd_call-call_next (FdCall.readv fd iov iovcnt) w h = rw h
  fd_call-call_next (FdCall.writev fd iov iovcnt) w h = rw h
  fd_call-call_next (FdCall.ioctl fd request argp) w h = rw h
  fd_call-call_next (FdCall.fxstat vers fd buf) w h = rw h
  fd_call-call_next (FdCall.fxstat64 vers fd buf) w h = rw h
  fd_call-call_next (FdCall.fstatfs fd buf) w h = rw h
  fd_call-call_next (FdCall.fstatfs64 fd buf) w h = rw h
  fd_call-call_next (FdCall.fdopen fd mode) w h = rw h
  fd_call-call_next (FdCall.posix_fadvise fd offset len advice) w h = rw h
  fd_call-call_next (FdCall.posix_fadvise64 fd offset len advice) w h = rw h
  fd_call-call_next (FdCall.fstatvfs fd buf) w h = rw h
  fd_call-call_next (FdCall.fstatvfs64 fd buf) w h = rw h
  fd_call-call_next (FdCall.close fd) w h = rw h
