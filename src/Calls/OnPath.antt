-- ===== src/Calls/OnPath.antt =====
-- The intercepted functions whose body is guarded by PATH_NOT_MANAGED of one path, as data: what each does,
-- and the libc call that it stands for. `creat64`, `open64`, `fopen64` and `freopen64` are aliases of `creat`,
-- `open`, `fopen` and `fopen`. `rename`, which tests two paths, and `openat` and its like, which test none, are
-- not among them.
use pdwfs.Base.{ℕ, List, [], ◌∷◌}
use pdwfs.Base.Int.{ℤ}
use pdwfs.Machine.{Cmd}
use pdwfs.Machine.Symbol.{Symbol}
use pdwfs.Machine.Host.{Env, Arg, CString}
use pdwfs.Intercept.Opening.{mode_of}
use pdwfs.Intercept.Paths
use pdwfs.Intercept.Unsupported
use pdwfs.Intercept.Opening

pub data PathCall : Type 0 where
  creat : CString → ℤ → PathCall
  truncate64 : CString → ℤ → PathCall
  truncate : CString → ℤ → PathCall
  access : CString → ℤ → PathCall
  unlink : CString → PathCall
  xstat : ℤ → CString → ℕ → PathCall
  xstat64 : ℤ → CString → ℕ → PathCall
  lxstat : ℤ → CString → ℕ → PathCall
  lxstat64 : ℤ → CString → ℕ → PathCall
  statfs : CString → ℕ → PathCall
  statfs64 : CString → ℕ → PathCall
  freopen : CString → CString → ℕ → PathCall
  mkdir : CString → ℤ → PathCall
  rmdir : CString → PathCall
  statvfs : CString → ℕ → PathCall
  statvfs64 : CString → ℕ → PathCall
  opendir : CString → PathCall
  open_file : CString → ℤ → ℤ → PathCall
  fopen : CString → CString → PathCall
  getxattr : CString → CString → ℕ → ℕ → PathCall
  creat64 : CString → ℤ → PathCall
  open64 : CString → ℤ → ℤ → PathCall
  fopen64 : CString → CString → PathCall
  freopen64 : CString → CString → ℕ → PathCall

module _ ⦃env : Env⦄ where
  unfoldable pub path_call : PathCall → Cmd ℤ
  path_call (PathCall.creat pathname mode) = Unsupported.creat pathname mode
  path_call (PathCall.truncate64 path length) = Unsupported.truncate64 path length
  path_call (PathCall.truncate path length) = Unsupported.truncate path length
  path_call (PathCall.access pathname mode) = Paths.access pathname mode
  path_call (PathCall.unlink pathname) = Paths.unlink pathname
  path_call (PathCall.xstat vers pathname buf) = Paths.xstat vers pathname buf
  path_call (PathCall.xstat64 vers pathname buf) = Paths.xstat64 vers pathname buf
  path_call (PathCall.lxstat vers pathname buf) = Paths.lxstat vers pathname buf
  path_call (PathCall.lxstat64 vers pathname buf) = Paths.lxstat64 vers pathname buf
  path_call (PathCall.statfs path buf) = Paths.statfs path buf
  path_call (PathCall.statfs64 path buf) = Paths.statfs64 path buf
  path_call (PathCall.freopen path mode stream) = Unsupported.freopen path mode stream
  path_call (PathCall.mkdir pathname mode) = Paths.mkdir pathname mode
  path_call (PathCall.rmdir pathname) = Paths.rmdir pathname
  path_call (PathCall.statvfs pathname buf) = Paths.statvfs pathname buf
  path_call (PathCall.statvfs64 pathname buf) = Paths.statvfs64 pathname buf
  path_call (PathCall.opendir path) = Unsupported.opendir path
  path_call (PathCall.open_file pathname flags arg) = Opening.open_file pathname flags arg
  path_call (PathCall.fopen path mode) = Opening.fopen path mode
  path_call (PathCall.getxattr path name value count) = Opening.getxattr path name value count
  path_call (PathCall.creat64 pathname mode) = Unsupported.creat pathname mode
  path_call (PathCall.open64 pathname flags arg) = Opening.open_file pathname flags arg
  path_call (PathCall.fopen64 path mode) = Opening.fopen path mode
  path_call (PathCall.freopen64 path mode stream) = Opening.freopen64 path mode stream

-- What the guard of the call tests.
abbrev pub path_of : PathCall → CString
path_of (PathCall.creat pathname _) = pathname
path_of (PathCall.truncate64 path _) = path
path_of (PathCall.truncate path _) = path
path_of (PathCall.access pathname _) = pathname
path_of (PathCall.unlink pathname) = pathname
path_of (PathCall.xstat _ pathname _) = pathname
path_of (PathCall.xstat64 _ pathname _) = pathname
path_of (PathCall.lxstat _ pathname _) = pathname
path_of (PathCall.lxstat64 _ pathname _) = pathname
path_of (PathCall.statfs path _) = path
path_of (PathCall.statfs64 path _) = path
path_of (PathCall.freopen path _ _) = path
path_of (PathCall.mkdir pathname _) = pathname
path_of (PathCall.rmdir pathname) = pathname
path_of (PathCall.statvfs pathname _) = pathname
path_of (PathCall.statvfs64 pathname _) = pathname
path_of (PathCall.opendir path) = path
path_of (PathCall.open_file pathname _ _) = pathname
path_of (PathCall.fopen path _) = path
path_of (PathCall.getxattr path _ _ _) = path
path_of (PathCall.creat64 pathname _) = pathname
path_of (PathCall.open64 pathname _ _) = pathname
path_of (PathCall.fopen64 path _) = path
path_of (PathCall.freopen64 path _ _) = path

-- The libc function of that name, or of the one that the name is an alias of.
abbrev pub path_symbol : PathCall → Symbol
path_symbol (PathCall.creat _ _) = Symbol.creat
path_symbol (PathCall.truncate64 _ _) = Symbol.truncate64
path_symbol (PathCall.truncate _ _) = Symbol.truncate
path_symbol (PathCall.access _ _) = Symbol.access
path_symbol (PathCall.unlink _) = Symbol.unlink
path_symbol (PathCall.xstat _ _ _) = Symbol.xstat
path_symbol (PathCall.xstat64 _ _ _) = Symbol.xstat64
path_symbol (PathCall.lxstat _ _ _) = Symbol.lxstat
path_symbol (PathCall.lxstat64 _ _ _) = Symbol.lxstat64
path_symbol (PathCall.statfs _ _) = Symbol.statfs
path_symbol (PathCall.statfs64 _ _) = Symbol.statfs64
path_symbol (PathCall.freopen _ _ _) = Symbol.freopen
path_symbol (PathCall.mkdir _ _) = Symbol.mkdir
path_symbol (PathCall.rmdir _) = Symbol.rmdir
path_symbol (PathCall.statvfs _ _) = Symbol.statvfs
path_symbol (PathCall.statvfs64 _ _) = Symbol.statvfs64
path_symbol (PathCall.opendir _) = Symbol.opendir
path_symbol (PathCall.open_file _ _ _) = Symbol.open_file
path_symbol (PathCall.fopen _ _) = Symbol.fopen
path_symbol (PathCall.getxattr _ _ _ _) = Symbol.getxattr
path_symbol (PathCall.creat64 _ _) = Symbol.creat
path_symbol (PathCall.open64 _ _ _) = Symbol.open_file
path_symbol (PathCall.fopen64 _ _) = Symbol.fopen
path_symbol (PathCall.freopen64 _ _ _) = Symbol.fopen

abbrev pub path_args : PathCall → List Arg
path_args (PathCall.creat pathname mode) = Arg.text pathname ∷ Arg.int mode ∷ []
path_args (PathCall.truncate64 path length) = Arg.text path ∷ Arg.int length ∷ []
path_args (PathCall.truncate path length) = Arg.text path ∷ Arg.int length ∷ []
path_args (PathCall.access pathname mode) = Arg.text pathname ∷ Arg.int mode ∷ []
path_args (PathCall.unlink pathname) = Arg.text pathname ∷ []
path_args (PathCall.xstat vers pathname buf) = Arg.int vers ∷ Arg.text pathname ∷ Arg.ptr buf ∷ []
path_args (PathCall.xstat64 vers pathname buf) = Arg.int vers ∷ Arg.text pathname ∷ Arg.ptr buf ∷ []
path_args (PathCall.lxstat vers pathname buf) = Arg.int vers ∷ Arg.text pathname ∷ Arg.ptr buf ∷ []
path_args (PathCall.lxstat64 vers pathname buf) =
    Arg.int vers ∷ Arg.text pathname ∷ Arg.ptr buf ∷ []
path_args (PathCall.statfs path buf) = Arg.text path ∷ Arg.ptr buf ∷ []
path_args (PathCall.statfs64 path buf) = Arg.text path ∷ Arg.ptr buf ∷ []
path_args (PathCall.freopen path mode stream) = Arg.text path ∷ Arg.text mode ∷ Arg.ptr stream ∷ []
path_args (PathCall.mkdir pathname mode) = Arg.text pathname ∷ Arg.int mode ∷ []
path_args (PathCall.rmdir pathname) = Arg.text pathname ∷ []
path_args (PathCall.statvfs pathname buf) = Arg.text pathname ∷ Arg.ptr buf ∷ []
path_args (PathCall.statvfs64 pathname buf) = Arg.text pathname ∷ Arg.ptr buf ∷ []
path_args (PathCall.opendir path) = Arg.text path ∷ []
path_args (PathCall.open_file pathname flags arg) =
    Arg.text pathname ∷ Arg.int flags ∷ Arg.int (mode_of flags arg) ∷ []
path_args (PathCall.fopen path mode) = Arg.text path ∷ Arg.text mode ∷ []
path_args (PathCall.getxattr path name value count) =
    Arg.text path ∷ Arg.text name ∷ Arg.ptr value ∷ Arg.size count ∷ []
path_args (PathCall.creat64 pathname mode) = Arg.text pathname ∷ Arg.int mode ∷ []
path_args (PathCall.open64 pathname flags arg) =
    Arg.text pathname ∷ Arg.int flags ∷ Arg.int (mode_of flags arg) ∷ []
path_args (PathCall.fopen64 path mode) = Arg.text path ∷ Arg.text mode ∷ []
path_args (PathCall.freopen64 path mode stream) = Arg.text path ∷ Arg.text mode ∷ []
