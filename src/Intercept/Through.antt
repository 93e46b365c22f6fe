-- ===== src/Intercept/Through.antt =====
-- pdwfs.c, the calls that are passed on whatever they name.
use pdwfs.Base.{ℕ}
use pdwfs.Base.Int.{ℤ}
use pdwfs.Machine.{Cmd}
use pdwfs.Machine.Host.{Env, CString}
use pdwfs.Libc.Paths.{
  libc_faccessat, libc_fxstatat, libc_fxstatat64, libc_mkdirat, libc_renameat, libc_renameat2,
  libc_unlinkat,
}
use pdwfs.Libc.Streams.{libc_clearerr, libc_feof, libc_ferror}

module _ ⦃env : Env⦄ where
  unfoldable pub unlinkat : ℤ → CString → ℤ → Cmd ℤ
  unfolding libc_unlinkat
  unlinkat dirfd pathname flags = libc_unlinkat dirfd pathname flags

  unfoldable pub faccessat : ℤ → CString → ℤ → ℤ → Cmd ℤ
  unfolding libc_faccessat
  faccessat dirfd pathname mode flags = libc_faccessat dirfd pathname mode flags

  unfoldable pub fxstatat : ℤ → ℤ → CString → ℕ → ℤ → Cmd ℤ
  unfolding libc_fxstatat
  fxstatat vers dirfd pathname buf flags = libc_fxstatat vers dirfd pathname buf flags

  unfoldable pub fxstatat64 : ℤ → ℤ → CString → ℕ → ℤ → Cmd ℤ
  unfolding libc_fxstatat64
  fxstatat64 vers dirfd pathname buf flags = libc_fxstatat64 vers dirfd pathname buf flags

  unfoldable pub mkdirat : ℤ → CString → ℤ → Cmd ℤ
  unfolding libc_mkdirat
  mkdirat dirfd pathname mode = libc_mkdirat dirfd pathname mode

  unfoldable pub renameat : ℤ → CString → ℤ → CString → Cmd ℤ
  unfolding libc_renameat
  renameat olddirfd oldpath newdirfd newpath = libc_renameat olddirfd oldpath newdirfd newpath

  unfoldable pub renameat2 : ℤ → CString → ℤ → CString → ℤ → Cmd ℤ
  unfolding libc_renameat2
  renameat2 olddirfd oldpath newdirfd newpath flags =
      libc_renameat2 olddirfd oldpath newdirfd newpath flags

  unfoldable pub feof : ℕ → Cmd ℤ
  unfolding libc_feof
  feof stream = libc_feof stream

  unfoldable pub ferror : ℕ → Cmd ℤ
  unfolding libc_ferror
  ferror stream = libc_ferror stream

  unfoldable pub clearerr : ℕ → Cmd ℤ
  unfolding libc_clearerr
  clearerr stream = libc_clearerr stream
