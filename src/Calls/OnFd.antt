-- ===== src/Calls/OnFd.antt =====
-- The calls on a descriptor, as data: what each does, and the libc call that it stands for.
use pdwfs.Base.{ℕ, List, [], ◌∷◌}
use pdwfs.Base.Int.{ℤ}
use pdwfs.Machine.{Cmd}
use pdwfs.Machine.Symbol.{Symbol}
use pdwfs.Machine.Host.{Env, Arg, CString, IoVec}
use pdwfs.Registers
use pdwfs.Intercept.Files
use pdwfs.Intercept.Vectors
use pdwfs.Intercept.Unsupported

pub data FdCall : Type 0 where
  write : ℤ → ℕ → ℕ → FdCall
  read : ℤ → ℕ → ℕ → FdCall
  fdatasync : ℤ → FdCall
  fsync : ℤ → FdCall
  ftruncate64 : ℤ → ℤ → FdCall
  ftruncate : ℤ → ℤ → FdCall
  lseek64 : ℤ → ℤ → ℤ → FdCall
  lseek : ℤ → ℤ → ℤ → FdCall
  pread : ℤ → ℕ → ℕ → ℤ → FdCall
  pread64 : ℤ → ℕ → ℕ → ℤ → FdCall
  preadv : ℤ → List IoVec → ℤ → ℤ → FdCall
  preadv64 : ℤ → List IoVec → ℤ → ℤ → FdCall
  pwrite : ℤ → ℕ → ℕ → ℤ → FdCall
  pwrite64 : ℤ → ℕ → ℕ → ℤ → FdCall
  pwritev : ℤ → List IoVec → ℤ → ℤ → FdCall
  pwritev64 : ℤ → List IoVec → ℤ → ℤ → FdCall
  readv : ℤ → List IoVec → ℤ → FdCall
  writev : ℤ → List IoVec → ℤ → FdCall
  ioctl : ℤ → ℕ → ℕ → FdCall
  fxstat : ℤ → ℤ → ℕ → FdCall
  fxstat64 : ℤ → ℤ → ℕ → FdCall
  fstatfs : ℤ → ℕ → FdCall
  fstatfs64 : ℤ → ℕ → FdCall
  fdopen : ℤ → CString → FdCall
  posix_fadvise : ℤ → ℤ → ℤ → ℤ → FdCall
  posix_fadvise64 : ℤ → ℤ → ℤ → ℤ → FdCall
  fstatvfs : ℤ → ℕ → FdCall
  fstatvfs64 : ℤ → ℕ → FdCall
  close : ℤ → FdCall

module _ ⦃env : Env⦄ where
  unfoldable pub fd_call : FdCall → Cmd ℤ
  fd_call (FdCall.write fd buf count) = Files.write fd buf count
  fd_call (FdCall.read fd buf count) = Files.read fd buf count
  fd_call (FdCall.fdatasync fd) = Unsupported.fdatasync fd
  fd_call (FdCall.fsync fd) = Unsupported.fsync fd
  fd_call (FdCall.ftruncate64 fd length) = Files.ftruncate64 fd length
  fd_call (FdCall.ftruncate fd length) = Files.ftruncate fd length
  fd_call (FdCall.lseek64 fd offset whence) = Files.lseek64 fd offset whence
  fd_call (FdCall.lseek fd offset whence) = Files.lseek fd offset whence
  fd_call (FdCall.pread fd buf count offset) = Files.pread fd buf count offset
  fd_call (FdCall.pread64 fd buf count offset) = Files.pread64 fd buf count offset
  fd_call (FdCall.preadv fd iov iovcnt offset) = Vectors.preadv fd iov iovcnt offset
  fd_call (FdCall.preadv64 fd iov iovcnt offset) = Vectors.preadv64 fd iov iovcnt offset
  fd_call (FdCall.pwrite fd buf count offset) = Files.pwrite fd buf count offset
  fd_call (FdCall.pwrite64 fd buf count offset) = Files.pwrite64 fd buf count offset
  fd_call (FdCall.pwritev fd iov iovcnt offset) = Vectors.pwritev fd iov iovcnt offset
  fd_call (FdCall.pwritev64 fd iov iovcnt offset) = Vectors.pwritev64 fd iov iovcnt offset
  fd_call (FdCall.readv fd iov iovcnt) = Vectors.readv fd iov iovcnt
  fd_call (FdCall.writev fd iov iovcnt) = Vectors.writev fd iov iovcnt
  fd_call (FdCall.ioctl fd request argp) = Unsupported.ioctl fd request argp
  fd_call (FdCall.fxstat vers fd buf) = Files.fxstat vers fd buf
  fd_call (FdCall.fxstat64 vers fd buf) = Files.fxstat64 vers fd buf
  fd_call (FdCall.fstatfs fd buf) = Unsupported.fstatfs fd buf
  fd_call (FdCall.fstatfs64 fd buf) = Unsupported.fstatfs64 fd buf
  fd_call (FdCall.fdopen fd mode) = Unsupported.fdopen fd mode
  fd_call (FdCall.posix_fadvise fd offset len advice) = Files.posix_fadvise fd offset len advice
  fd_call (FdCall.posix_fadvise64 fd offset len advice) = Files.posix_fadvise64 fd offset len advice
  fd_call (FdCall.fstatvfs fd buf) = Unsupported.fstatvfs fd buf
  fd_call (FdCall.fstatvfs64 fd buf) = Unsupported.fstatvfs64 fd buf
  fd_call (FdCall.close fd) = Registers.close fd

-- What the guard of the call tests.
abbrev pub fd_of : FdCall → ℤ
fd_of (FdCall.write fd _ _) = fd
fd_of (FdCall.read fd _ _) = fd
fd_of (FdCall.fdatasync fd) = fd
fd_of (FdCall.fsync fd) = fd
fd_of (FdCall.ftruncate64 fd _) = fd
fd_of (FdCall.ftruncate fd _) = fd
fd_of (FdCall.lseek64 fd _ _) = fd
fd_of (FdCall.lseek fd _ _) = fd
fd_of (FdCall.pread fd _ _ _) = fd
fd_of (FdCall.pread64 fd _ _ _) = fd
fd_of (FdCall.preadv fd _ _ _) = fd
fd_of (FdCall.preadv64 fd _ _ _) = fd
fd_of (FdCall.pwrite fd _ _ _) = fd
fd_of (FdCall.pwrite64 fd _ _ _) = fd
fd_of (FdCall.pwritev fd _ _ _) = fd
fd_of (FdCall.pwritev64 fd _ _ _) = fd
fd_of (FdCall.readv fd _ _) = fd
fd_of (FdCall.writev fd _ _) = fd
fd_of (FdCall.ioctl fd _ _) = fd
fd_of (FdCall.fxstat _ fd _) = fd
fd_of (FdCall.fxstat64 _ fd _) = fd
fd_of (FdCall.fstatfs fd _) = fd
fd_of (FdCall.fstatfs64 fd _) = fd
fd_of (FdCall.fdopen fd _) = fd
fd_of (FdCall.posix_fadvise fd _ _ _) = fd
fd_of (FdCall.posix_fadvise64 fd _ _ _) = fd
fd_of (FdCall.fstatvfs fd _) = fd
fd_of (FdCall.fstatvfs64 fd _) = fd
fd_of (FdCall.close fd) = fd

abbrev pub fd_symbol : FdCall → Symbol
fd_symbol (FdCall.write _ _ _) = Symbol.write
fd_symbol (FdCall.read _ _ _) = Symbol.read
fd_symbol (FdCall.fdatasync _) = Symbol.fdatasync
fd_symbol (FdCall.fsync _) = Symbol.fsync
fd_symbol (FdCall.ftruncate64 _ _) = Symbol.ftruncate64
fd_symbol (FdCall.ftruncate _ _) = Symbol.ftruncate
fd_symbol (FdCall.lseek64 _ _ _) = Symbol.lseek64
fd_symbol (FdCall.lseek _ _ _) = Symbol.lseek
fd_symbol (FdCall.pread _ _ _ _) = Symbol.pread
fd_symbol (FdCall.pread64 _ _ _ _) = Symbol.pread64
fd_symbol (FdCall.preadv _ _ _ _) = Symbol.preadv
fd_symbol (FdCall.preadv64 _ _ _ _) = Symbol.preadv64
fd_symbol (FdCall.pwrite _ _ _ _) = Symbol.pwrite
fd_symbol (FdCall.pwrite64 _ _ _ _) = Symbol.pwrite64
fd_symbol (FdCall.pwritev _ _ _ _) = Symbol.pwritev
fd_symbol (FdCall.pwritev64 _ _ _ _) = Symbol.pwritev64
fd_symbol (FdCall.readv _ _ _) = Symbol.readv
fd_symbol (FdCall.writev _ _ _) = Symbol.writev
fd_symbol (FdCall.ioctl _ _ _) = Symbol.ioctl
fd_symbol (FdCall.fxstat _ _ _) = Symbol.fxstat
fd_symbol (FdCall.fxstat64 _ _ _) = Symbol.fxstat64
fd_symbol (FdCall.fstatfs _ _) = Symbol.fstatfs
fd_symbol (FdCall.fstatfs64 _ _) = Symbol.fstatfs64
fd_symbol (FdCall.fdopen _ _) = Symbol.fdopen
fd_symbol (FdCall.posix_fadvise _ _ _ _) = Symbol.posix_fadvise
fd_symbol (FdCall.posix_fadvise64 _ _ _ _) = Symbol.posix_fadvise64
fd_symbol (FdCall.fstatvfs _ _) = Symbol.fstatvfs
fd_symbol (FdCall.fstatvfs64 _ _) = Symbol.fstatvfs64
fd_symbol (FdCall.close _) = Symbol.close

abbrev pub fd_args : FdCall → List Arg
fd_args (FdCall.write fd buf count) = Arg.int fd ∷ Arg.ptr buf ∷ Arg.size count ∷ []
fd_args (FdCall.read fd buf count) = Arg.int fd ∷ Arg.ptr buf ∷ Arg.size count ∷ []
fd_args (FdCall.fdatasync fd) = Arg.int fd ∷ []
fd_args (FdCall.fsync fd) = Arg.int fd ∷ []
fd_args (FdCall.ftruncate64 fd length) = Arg.int fd ∷ Arg.int length ∷ []
fd_args (FdCall.ftruncate fd length) = Arg.int fd ∷ Arg.int length ∷ []
fd_args (FdCall.lseek64 fd offset whence) = Arg.int fd ∷ Arg.int offset ∷ Arg.int whence ∷ []
fd_args (FdCall.lseek fd offset whence) = Arg.int fd ∷ Arg.int offset ∷ Arg.int whence ∷ []
fd_args (FdCall.pread fd buf count offset) =
    Arg.int fd ∷ Arg.ptr buf ∷ Arg.size count ∷ Arg.int offset ∷ []
fd_args (FdCall.pread64 fd buf count offset) =
    Arg.int fd ∷ Arg.ptr buf ∷ Arg.size count ∷ Arg.int offset ∷ []
fd_args (FdCall.preadv fd iov iovcnt offset) =
    Arg.int fd ∷ Arg.vec iov ∷ Arg.int iovcnt ∷ Arg.int offset ∷ []
fd_args (FdCall.preadv64 fd iov iovcnt offset) =
    Arg.int fd ∷ Arg.vec iov ∷ Arg.int iovcnt ∷ Arg.int offset ∷ []
fd_args (FdCall.pwrite fd buf count offset) =
    Arg.int fd ∷ Arg.ptr buf ∷ Arg.size count ∷ Arg.int offset ∷ []
fd_args (FdCall.pwrite64 fd buf count offset) =
    Arg.int fd ∷ Arg.ptr buf ∷ Arg.size count ∷ Arg.int offset ∷ []
fd_args (FdCall.pwritev fd iov iovcnt offset) =
    Arg.int fd ∷ Arg.vec iov ∷ Arg.int iovcnt ∷ Arg.int offset ∷ []
fd_args (FdCall.pwritev64 fd iov iovcnt offset) =
    Arg.int fd ∷ Arg.vec iov ∷ Arg.int iovcnt ∷ Arg.int offset ∷ []
fd_args (FdCall.readv fd iov iovcnt) = Arg.int fd ∷ Arg.vec iov ∷ Arg.int iovcnt ∷ []
fd_args (FdCall.writev fd iov iovcnt) = Arg.int fd ∷ Arg.vec iov ∷ Arg.int iovcnt ∷ []
fd_args (FdCall.ioctl fd request argp) = Arg.int fd ∷ Arg.size request ∷ Arg.ptr argp ∷ []
fd_args (FdCall.fxstat vers fd buf) = Arg.int vers ∷ Arg.int fd ∷ Arg.ptr buf ∷ []
fd_args (FdCall.fxstat64 vers fd buf) = Arg.int vers ∷ Arg.int fd ∷ Arg.ptr buf ∷ []
fd_args (FdCall.fstatfs fd buf) = Arg.int fd ∷ Arg.ptr buf ∷ []
fd_args (FdCall.fstatfs64 fd buf) = Arg.int fd ∷ Arg.ptr buf ∷ []
fd_args (FdCall.fdopen fd mode) = Arg.int fd ∷ Arg.text mode ∷ []
fd_args (FdCall.posix_fadvise fd offset len advice) =
    Arg.int fd ∷ Arg.int offset ∷ Arg.int len ∷ Arg.int advice ∷ []
fd_args (FdCall.posix_fadvise64 fd offset len advice) =
    Arg.int fd ∷ Arg.int offset ∷ Arg.int len ∷ Arg.int advice ∷ []
fd_args (FdCall.fstatvfs fd buf) = Arg.int fd ∷ Arg.ptr buf ∷ []
fd_args (FdCall.fstatvfs64 fd buf) = Arg.int fd ∷ Arg.ptr buf ∷ []
fd_args (FdCall.close fd) = Arg.int fd ∷ []
