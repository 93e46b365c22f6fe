-- ===== src/Calls/PassPath.antt =====
-- What the calls on a path do outside of what pdwfs manages.
use pdwfs.Base.{◌≡◌, true}
use pdwfs.Machine.{World, done}
use pdwfs.Machine.Host.{Env}
use pdwfs.Registers.{path_not_managed}
use pdwfs.Libc.{call_next}
use pdwfs.Libc.Paths.{
  libc_creat, libc_truncate64, libc_truncate, libc_access, libc_unlink, libc_xstat, libc_xstat64,
  libc_lxstat, libc_lxstat64, libc_statfs, libc_statfs64, libc_mkdir, libc_rmdir, libc_statvfs,
  libc_statvfs64, libc_opendir, libc_open, libc_getxattr,
}
use pdwfs.Libc.Streams.{libc_freopen, libc_fopen}
use pdwfs.Intercept.Guards.{on_path}
use pdwfs.Intercept.Paths
use pdwfs.Intercept.Unsupported
use pdwfs.Intercept.Opening
use pdwfs.Calls.OnPath.{PathCall, path_call, path_of, path_symbol, path_args}

module _ ⦃env : Env⦄ where
  -- Each of the 24 intercepted functions of `PathCall`, those that are guarded by PATH_NOT_MANAGED of one
  -- path, is one libc call where pdwfs does not manage the path, with the same arguments, in the state that
  -- the test of the path leaves (which may have set `errno`). It is the libc function of the same name,
  -- except for the aliases in pdwfs.c: `creat64`, `open64` and `fopen64` call libc's `creat`, `open` and
  -- `fopen`, and `freopen64` calls libc's `fopen`, without its third argument.
  pub path_call-call_next :
      (c : PathCall) (w w' : World)
      → path_not_managed (path_of c) w ≡ done true w'
      → path_call c w ≡ call_next (path_symbol c) (path_args c) w'
  unfolding path_call on_path Unsupported.creat Unsupported.truncate64 Unsupported.truncate
      Paths.access Paths.unlink Paths.xstat Paths.xstat64 Paths.lxstat Paths.lxstat64 Paths.statfs
      Paths.statfs64 Unsupported.freopen Paths.mkdir Paths.rmdir Paths.statvfs Paths.statvfs64
      Unsupported.opendir Opening.open_file Opening.fopen Opening.freopen64 Opening.getxattr
      libc_creat libc_truncate64 libc_truncate libc_access libc_unlink libc_xstat libc_xstat64
      libc_lxstat libc_lxstat64 libc_statfs libc_statfs64 libc_freopen libc_mkdir libc_rmdir
      libc_statvfs libc_statvfs64 libc_opendir libc_open libc_fopen libc_getxattr
  path_call-call_next (PathCall.creat pathname mode) w w' h = rw h
  path_call-call_next (PathCall.truncate64 path length) w w' h = rw h
  path_call-call_next (PathCall.truncate path length) w w' h = rw h
  path_call-call_next (PathCall.access pathname mode) w w' h = rw h
  path_call-call_next (PathCall.unlink pathname) w w' h = rw h
  path_call-call_next (PathCall.xstat vers pathname buf) w w' h = rw h
  path_call-call_next (PathCall.xstat64 vers pathname buf) w w' h = rw h
  path_call-call_next (PathCall.lxstat vers pathname buf) w w' h = rw h
  path_call-call_next (PathCall.lxstat64 vers pathname buf) w w' h = rw h
  path_call-call_next (PathCall.statfs path buf) w w' h = rw h
  path_call-call_next (PathCall.statfs64 path buf) w w' h = rw h
  path_call-call_next (PathCall.freopen path mode stream) w w' h = rw h
  path_call-call_next (PathCall.mkdir pathname mode) w w' h = rw h
  path_call-call_next (PathCall.rmdir pathname) w w' h = rw h
  path_call-call_next (PathCall.statvfs pathname buf) w w' h = rw h
  path_call-call_next (PathCall.statvfs64 pathname buf) w w' h = rw h
  path_call-call_next (PathCall.opendir path) w w' h = rw h
  path_call-call_next (PathCall.open_file pathname flags arg) w w' h = rw h
  path_call-call_next (PathCall.fopen path mode) w w' h = rw h
  path_call-call_next (PathCall.getxattr path name value count) w w' h = rw h
  path_call-call_next (PathCall.creat64 pathname mode) w w' h = rw h
  path_call-call_next (PathCall.open64 pathname flags arg) w w' h = rw h
  path_call-call_next (PathCall.fopen64 path mode) w w' h = rw h
  path_call-call_next (PathCall.freopen64 path mode stream) w w' h = rw h
