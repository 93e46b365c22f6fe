-- ===== src/Intercept/Paths.antt =====
-- pdwfs.c, the calls on a path that the Go layer implements.
use pdwfs.Base.{ℕ}
use pdwfs.Base.Int.{ℤ}
use pdwfs.Machine.{Cmd}
use pdwfs.Machine.Host.{Env, CString}
use pdwfs.Intercept.Guards.{on_path, bytes_of, int_call, fill_call, with_go_errno}
use pdwfs.Libc.Paths.{
  libc_access, libc_lxstat, libc_lxstat64, libc_mkdir, libc_rmdir, libc_statfs, libc_statfs64,
  libc_statvfs, libc_statvfs64, libc_unlink, libc_xstat, libc_xstat64,
}

module _ ⦃env : Env⦄ where
  unfoldable pub access : CString → ℤ → Cmd ℤ
  access pathname mode =
      on_path pathname (libc_access pathname mode)
        (int_call (env.go_layer.access (bytes_of pathname) mode))

  unfoldable pub unlink : CString → Cmd ℤ
  unlink pathname =
      on_path pathname (libc_unlink pathname)
        (with_go_errno (int_call (env.go_layer.unlink (bytes_of pathname))))

  unfoldable pub xstat : ℤ → CString → ℕ → Cmd ℤ
  xstat vers pathname buf =
      on_path pathname (libc_xstat vers pathname buf)
        (fill_call (env.go_layer.stat (bytes_of pathname) buf))

  unfoldable pub xstat64 : ℤ → CString → ℕ → Cmd ℤ
  xstat64 vers pathname buf =
      on_path pathname (libc_xstat64 vers pathname buf)
        (fill_call (env.go_layer.stat64 (bytes_of pathname) buf))

  unfoldable pub lxstat : ℤ → CString → ℕ → Cmd ℤ
  lxstat vers pathname buf =
      on_path pathname (libc_lxstat vers pathname buf)
        (fill_call (env.go_layer.lstat (bytes_of pathname) buf))

  unfoldable pub lxstat64 : ℤ → CString → ℕ → Cmd ℤ
  lxstat64 vers pathname buf =
      on_path pathname (libc_lxstat64 vers pathname buf)
        (fill_call (env.go_layer.lstat64 (bytes_of pathname) buf))

  unfoldable pub statfs : CString → ℕ → Cmd ℤ
  statfs path buf =
      on_path path (libc_statfs path buf) (fill_call (env.go_layer.statfs (bytes_of path) buf))

  unfoldable pub statfs64 : CString → ℕ → Cmd ℤ
  statfs64 path buf =
      on_path path (libc_statfs64 path buf) (fill_call (env.go_layer.statfs64 (bytes_of path) buf))

  unfoldable pub mkdir : CString → ℤ → Cmd ℤ
  mkdir pathname mode =
      on_path pathname (libc_mkdir pathname mode)
        (int_call (env.go_layer.mkdir (bytes_of pathname) mode))

  unfoldable pub rmdir : CString → Cmd ℤ
  rmdir pathname =
      on_path pathname (libc_rmdir pathname) (int_call (env.go_layer.rmdir (bytes_of pathname)))

  unfoldable pub statvfs : CString → ℕ → Cmd ℤ
  statvfs pathname buf =
      on_path pathname (libc_statvfs pathname buf)
        (fill_call (env.go_layer.statvfs (bytes_of pathname) buf))

  unfoldable pub statvfs64 : CString → ℕ → Cmd ℤ
  statvfs64 pathname buf =
      on_path pathname (libc_statvfs64 pathname buf)
        (fill_call (env.go_layer.statvfs64 (bytes_of pathname) buf))
