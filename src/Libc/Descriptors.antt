-- ===== src/Libc/Descriptors.antt =====
-- libc.c: the wrappers of functions on a file descriptor.
use pdwfs.Base.{ℕ, List, [], ◌∷◌}
use pdwfs.Base.Int.{ℤ}
use pdwfs.Machine.{Cmd}
use pdwfs.Machine.Host.{Env, Arg, IoVec}
use pdwfs.Machine.Symbol.{Symbol}
use pdwfs.Libc.{call_next}

module _ ⦃env : Env⦄ where
  unfoldable pub libc_close : ℤ → Cmd ℤ
  unfolding call_next
  libc_close fd = call_next Symbol.close (Arg.int fd ∷ [])

  unfoldable pub libc_write : ℤ → ℕ → ℕ → Cmd ℤ
  unfolding call_next
  libc_write fd buf count = call_next Symbol.write (Arg.int fd ∷ Arg.ptr buf ∷ Arg.size count ∷ [])

  unfoldable pub libc_read : ℤ → ℕ → ℕ → Cmd ℤ
  unfolding call_next
  libc_read fd buf count = call_next Symbol.read (Arg.int fd ∷ Arg.ptr buf ∷ Arg.size count ∷ [])

  unfoldable pub libc_fdatasync : ℤ → Cmd ℤ
  unfolding call_next
  libc_fdatasync fd = call_next Symbol.fdatasync (Arg.int fd ∷ [])

  unfoldable pub libc_fsync : ℤ → Cmd ℤ
  unfolding call_next
  libc_fsync fd = call_next Symbol.fsync (Arg.int fd ∷ [])

  unfoldable pub libc_ftruncate64 : ℤ → ℤ → Cmd ℤ
  unfolding call_next
  libc_ftruncate64 fd length = call_next Symbol.ftruncate64 (Arg.int fd ∷ Arg.int length ∷ [])

  unfoldable pub libc_ftruncate : ℤ → ℤ → Cmd ℤ
  unfolding call_next
  libc_ftruncate fd length = call_next Symbol.ftruncate (Arg.int fd ∷ Arg.int length ∷ [])

  unfoldable pub libc_lseek64 : ℤ → ℤ → ℤ → Cmd ℤ
  unfolding call_next
  libc_lseek64 fd offset whence =
      call_next Symbol.lseek64 (Arg.int fd ∷ Arg.int offset ∷ Arg.int whence ∷ [])

  unfoldable pub libc_lseek : ℤ → ℤ → ℤ → Cmd ℤ
  unfolding call_next
  libc_lseek fd offset whence =
      call_next Symbol.lseek (Arg.int fd ∷ Arg.int offset ∷ Arg.int whence ∷ [])

  unfoldable pub libc_pread : ℤ → ℕ → ℕ → ℤ → Cmd ℤ
  unfolding call_next
  libc_pread fd buf count offset =
      call_next Symbol.pread (Arg.int fd ∷ Arg.ptr buf ∷ Arg.size count ∷ Arg.int offset ∷ [])

  unfoldable pub libc_pread64 : ℤ → ℕ → ℕ → ℤ → Cmd ℤ
  unfolding call_next
  libc_pread64 fd buf count offset =
      call_next Symbol.pread64 (Arg.int fd ∷ Arg.ptr buf ∷ Arg.size count ∷ Arg.int offset ∷ [])

  unfoldable pub libc_preadv : ℤ → List IoVec → ℤ → ℤ → Cmd ℤ
  unfolding call_next
  libc_preadv fd iov iovcnt offset =
      call_next Symbol.preadv (Arg.int fd ∷ Arg.vec iov ∷ Arg.int iovcnt ∷ Arg.int offset ∷ [])

  unfoldable pub libc_preadv64 : ℤ → List IoVec → ℤ → ℤ → Cmd ℤ
  unfolding call_next
  libc_preadv64 fd iov iovcnt offset =
      call_next Symbol.preadv64 (Arg.int fd ∷ Arg.vec iov ∷ Arg.int iovcnt ∷ Arg.int offset ∷ [])

  unfoldable pub libc_pwrite : ℤ → ℕ → ℕ → ℤ → Cmd ℤ
  unfolding call_next
  libc_pwrite fd buf count offset =
      call_next Symbol.pwrite (Arg.int fd ∷ Arg.ptr buf ∷ Arg.size count ∷ Arg.int offset ∷ [])

  unfoldable pub libc_pwrite64 : ℤ → ℕ → ℕ → ℤ → Cmd ℤ
  unfolding call_next
  libc_pwrite64 fd buf count offset =
      call_next Symbol.pwrite64 (Arg.int fd ∷ Arg.ptr buf ∷ Arg.size count ∷ Arg.int offset ∷ [])

  unfoldable pub libc_pwritev : ℤ → List IoVec → ℤ → ℤ → Cmd ℤ
  unfolding call_next
  libc_pwritev fd iov iovcnt offset =
      call_next Symbol.pwritev (Arg.int fd ∷ Arg.vec iov ∷ Arg.int iovcnt ∷ Arg.int offset ∷ [])

  unfoldable pub libc_pwritev64 : ℤ → List IoVec → ℤ → ℤ → Cmd ℤ
  unfolding call_next
  libc_pwritev64 fd iov iovcnt offset =
      call_next Symbol.pwritev64 (Arg.int fd ∷ Arg.vec iov ∷ Arg.int iovcnt ∷ Arg.int offset ∷ [])

  unfoldable pub libc_readv : ℤ → List IoVec → ℤ → Cmd ℤ
  unfolding call_next
  libc_readv fd iov iovcnt = call_next Symbol.readv (Arg.int fd ∷ Arg.vec iov ∷ Arg.int iovcnt ∷ [])

  unfoldable pub libc_writev : ℤ → List IoVec → ℤ → Cmd ℤ
  unfolding call_next
  libc_writev fd iov iovcnt =
      call_next Symbol.writev (Arg.int fd ∷ Arg.vec iov ∷ Arg.int iovcnt ∷ [])

  unfoldable pub libc_ioctl : ℤ → ℕ → ℕ → Cmd ℤ
  unfolding call_next
  libc_ioctl fd request argp =
      call_next Symbol.ioctl (Arg.int fd ∷ Arg.size request ∷ Arg.ptr argp ∷ [])

  unfoldable pub libc_fxstat : ℤ → ℤ → ℕ → Cmd ℤ
  unfolding call_next
  libc_fxstat vers fd buf = call_next Symbol.fxstat (Arg.int vers ∷ Arg.int fd ∷ Arg.ptr buf ∷ [])

  unfoldable pub libc_fxstat64 : ℤ → ℤ → ℕ → Cmd ℤ
  unfolding call_next
  libc_fxstat64 vers fd buf =
      call_next Symbol.fxstat64 (Arg.int vers ∷ Arg.int fd ∷ Arg.ptr buf ∷ [])

  unfoldable pub libc_fstatfs : ℤ → ℕ → Cmd ℤ
  unfolding call_next
  libc_fstatfs fd buf = call_next Symbol.fstatfs (Arg.int fd ∷ Arg.ptr buf ∷ [])

  unfoldable pub libc_fstatfs64 : ℤ → ℕ → Cmd ℤ
  unfolding call_next
  libc_fstatfs64 fd buf = call_next Symbol.fstatfs64 (Arg.int fd ∷ Arg.ptr buf ∷ [])

  unfoldable pub libc_dup2 : ℤ → ℤ → Cmd ℤ
  unfolding call_next
  libc_dup2 oldfd newfd = call_next Symbol.dup2 (Arg.int oldfd ∷ Arg.int newfd ∷ [])

  unfoldable pub libc_posix_fadvise : ℤ → ℤ → ℤ → ℤ → Cmd ℤ
  unfolding call_next
  libc_posix_fadvise fd offset len advice =
      call_next Symbol.posix_fadvise
        (Arg.int fd ∷ Arg.int offset ∷ Arg.int len ∷ Arg.int advice ∷ [])

  unfoldable pub libc_posix_fadvise64 : ℤ → ℤ → ℤ → ℤ → Cmd ℤ
  unfolding call_next
  libc_posix_fadvise64 fd offset len advice =
      call_next Symbol.posix_fadvise64
        (Arg.int fd ∷ Arg.int offset ∷ Arg.int len ∷ Arg.int advice ∷ [])

  unfoldable pub libc_fstatvfs : ℤ → ℕ → Cmd ℤ
  unfolding call_next
  libc_fstatvfs fd buf = call_next Symbol.fstatvfs (Arg.int fd ∷ Arg.ptr buf ∷ [])

  unfoldable pub libc_fstatvfs64 : ℤ → ℕ → Cmd ℤ
  unfolding call_next
  libc_fstatvfs64 fd buf = call_next Symbol.fstatvfs64 (Arg.int fd ∷ Arg.ptr buf ∷ [])
