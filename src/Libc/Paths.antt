-- ===== src/Libc/Paths.antt =====
-- libc.c: the wrappers of functions that take a path.
use pdwfs.Base.{ℕ, [], ◌∷◌}
use pdwfs.Base.Int.{ℤ}
use pdwfs.Machine.{Cmd}
use pdwfs.Machine.Host.{Env, Arg, CString}
use pdwfs.Machine.Symbol.{Symbol}
use pdwfs.Libc.{call_next}

module _ ⦃env : Env⦄ where
  unfoldable pub libc_open : CString → ℤ → ℤ → Cmd ℤ
  unfolding call_next
  libc_open pathname flags mode =
      call_next Symbol.open_file (Arg.text pathname ∷ Arg.int flags ∷ Arg.int mode ∷ [])

  unfoldable pub libc_open64 : CString → ℤ → ℤ → Cmd ℤ
  unfolding call_next
  libc_open64 pathname flags mode =
      call_next Symbol.open64 (Arg.text pathname ∷ Arg.int flags ∷ Arg.int mode ∷ [])

  unfoldable pub libc_creat : CString → ℤ → Cmd ℤ
  unfolding call_next
  libc_creat pathname mode = call_next Symbol.creat (Arg.text pathname ∷ Arg.int mode ∷ [])

  unfoldable pub libc_creat64 : CString → ℤ → Cmd ℤ
  unfolding call_next
  libc_creat64 pathname mode = call_next Symbol.creat64 (Arg.text pathname ∷ Arg.int mode ∷ [])

  unfoldable pub libc_truncate64 : CString → ℤ → Cmd ℤ
  unfolding call_next
  libc_truncate64 path length = call_next Symbol.truncate64 (Arg.text path ∷ Arg.int length ∷ [])

  unfoldable pub libc_truncate : CString → ℤ → Cmd ℤ
  unfolding call_next
  libc_truncate path length = call_next Symbol.truncate (Arg.text path ∷ Arg.int length ∷ [])

  unfoldable pub libc_access : CString → ℤ → Cmd ℤ
  unfolding call_next
  libc_access pathname mode = call_next Symbol.access (Arg.text pathname ∷ Arg.int mode ∷ [])

  unfoldable pub libc_unlink : CString → Cmd ℤ
  unfolding call_next
  libc_unlink pathname = call_next Symbol.unlink (Arg.text pathname ∷ [])

  unfoldable pub libc_xstat : ℤ → CString → ℕ → Cmd ℤ
  unfolding call_next
  libc_xstat vers pathname buf =
      call_next Symbol.xstat (Arg.int vers ∷ Arg.text pathname ∷ Arg.ptr buf ∷ [])

  unfoldable pub libc_xstat64 : ℤ → CString → ℕ → Cmd ℤ
  unfolding call_next
  libc_xstat64 vers pathname buf =
      call_next Symbol.xstat64 (Arg.int vers ∷ Arg.text pathname ∷ Arg.ptr buf ∷ [])

  unfoldable pub libc_lxstat : ℤ → CString → ℕ → Cmd ℤ
  unfolding call_next
  libc_lxstat vers pathname buf =
      call_next Symbol.lxstat (Arg.int vers ∷ Arg.text pathname ∷ Arg.ptr buf ∷ [])

  unfoldable pub libc_lxstat64 : ℤ → CString → ℕ → Cmd ℤ
  unfolding call_next
  libc_lxstat64 vers pathname buf =
      call_next Symbol.lxstat64 (Arg.int vers ∷ Arg.text pathname ∷ Arg.ptr buf ∷ [])

  unfoldable pub libc_statfs : CString → ℕ → Cmd ℤ
  unfolding call_next
  libc_statfs path buf = call_next Symbol.statfs (Arg.text path ∷ Arg.ptr buf ∷ [])

  unfoldable pub libc_statfs64 : CString → ℕ → Cmd ℤ
  unfolding call_next
  libc_statfs64 path buf = call_next Symbol.statfs64 (Arg.text path ∷ Arg.ptr buf ∷ [])

  unfoldable pub libc_unlinkat : ℤ → CString → ℤ → Cmd ℤ
  unfolding call_next
  libc_unlinkat dirfd pathname flags =
      call_next Symbol.unlinkat (Arg.int dirfd ∷ Arg.text pathname ∷ Arg.int flags ∷ [])

  unfoldable pub libc_faccessat : ℤ → CString → ℤ → ℤ → Cmd ℤ
  unfolding call_next
  libc_faccessat dirfd pathname mode flags =
      call_next Symbol.faccessat
        (Arg.int dirfd ∷ Arg.text pathname ∷ Arg.int mode ∷ Arg.int flags ∷ [])

  unfoldable pub libc_fxstatat : ℤ → ℤ → CString → ℕ → ℤ → Cmd ℤ
  unfolding call_next
  libc_fxstatat vers dirfd pathname buf flags =
      call_next Symbol.fxstatat
        (Arg.int vers ∷ Arg.int dirfd ∷ Arg.text pathname ∷ Arg.ptr buf ∷ Arg.int flags ∷ [])

  unfoldable pub libc_fxstatat64 : ℤ → ℤ → CString → ℕ → ℤ → Cmd ℤ
  unfolding call_next
  libc_fxstatat64 vers dirfd pathname buf flags =
      call_next Symbol.fxstatat64
        (Arg.int vers ∷ Arg.int dirfd ∷ Arg.text pathname ∷ Arg.ptr buf ∷ Arg.int flags ∷ [])

  unfoldable pub libc_openat : ℤ → CString → ℤ → ℤ → Cmd ℤ
  unfolding call_next
  libc_openat dirfd pathname flags mode =
      call_next Symbol.openat
        (Arg.int dirfd ∷ Arg.text pathname ∷ Arg.int flags ∷ Arg.int mode ∷ [])

  unfoldable pub libc_mkdir : CString → ℤ → Cmd ℤ
  unfolding call_next
  libc_mkdir pathname mode = call_next Symbol.mkdir (Arg.text pathname ∷ Arg.int mode ∷ [])

  unfoldable pub libc_mkdirat : ℤ → CString → ℤ → Cmd ℤ
  unfolding call_next
  libc_mkdirat dirfd pathname mode =
      call_next Symbol.mkdirat (Arg.int dirfd ∷ Arg.text pathname ∷ Arg.int mode ∷ [])

  unfoldable pub libc_rmdir : CString → Cmd ℤ
  unfolding call_next
  libc_rmdir pathname = call_next Symbol.rmdir (Arg.text pathname ∷ [])

  unfoldable pub libc_rename : CString → CString → Cmd ℤ
  unfolding call_next
  libc_rename oldpath newpath = call_next Symbol.rename (Arg.text oldpath ∷ Arg.text newpath ∷ [])

  unfoldable pub libc_renameat : ℤ → CString → ℤ → CString → Cmd ℤ
  unfolding call_next
  libc_renameat olddirfd oldpath newdirfd newpath =
      call_next Symbol.renameat
        (Arg.int olddirfd ∷ Arg.text oldpath ∷ Arg.int newdirfd ∷ Arg.text newpath ∷ [])

  unfoldable pub libc_renameat2 : ℤ → CString → ℤ → CString → ℤ → Cmd ℤ
  unfolding call_next
  libc_renameat2 olddirfd oldpath newdirfd newpath flags = call_next Symbol.renameat2 (
      Arg.int olddirfd
      ∷ Arg.text oldpath
      ∷ Arg.int newdirfd
      ∷ Arg.text newpath
      ∷ Arg.int flags
      ∷ [])

  unfoldable pub libc_statvfs : CString → ℕ → Cmd ℤ
  unfolding call_next
  libc_statvfs pathname buf = call_next Symbol.statvfs (Arg.text pathname ∷ Arg.ptr buf ∷ [])

  unfoldable pub libc_statvfs64 : CString → ℕ → Cmd ℤ
  unfolding call_next
  libc_statvfs64 pathname buf = call_next Symbol.statvfs64 (Arg.text pathname ∷ Arg.ptr buf ∷ [])

  unfoldable pub libc_opendir : CString → Cmd ℤ
  unfolding call_next
  libc_opendir path = call_next Symbol.opendir (Arg.text path ∷ [])

  unfoldable pub libc_getxattr : CString → CString → ℕ → ℕ → Cmd ℤ
  unfolding call_next
  libc_getxattr path name value count =
      call_next Symbol.getxattr
        (Arg.text path ∷ Arg.text name ∷ Arg.ptr value ∷ Arg.size count ∷ [])
