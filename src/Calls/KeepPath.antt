-- ===== src/Calls/KeepPath.antt =====
-- What the calls on a path leave alone where pdwfs manages what they name.
use pdwfs.Base.{◌≡◌, refl, ◌≢◌, false}
use pdwfs.Base.Int.{pos, minus_one}
use pdwfs.Machine.{World, done, pure, ◌>>◌}
use pdwfs.Machine.Access.{set_errno}
use pdwfs.Machine.Symbol.{Symbol}
use pdwfs.Machine.Host.{Env}
use pdwfs.Registers.{path_not_managed}
use pdwfs.Intercept.Guards.{on_path}
use pdwfs.Intercept.Opening
use pdwfs.Intercept.Paths
use pdwfs.Intercept.Unsupported
use pdwfs.Calls.Local.{
  Local, fill_call-Local, int_call-Local, not_implemented-Local, with_go_errno-Local,
}
use pdwfs.Calls.OnPath.{PathCall, path_call, path_of, path_symbol}

module _ ⦃env : Env⦄ where
  getxattr-Local : (w : World) → Local w ((set_errno (pos 95) >> pure minus_one) w)
  unfolding set_errno
  getxattr-Local w = record {
    sys = refl;
    fd_register = refl;
    mount_register = refl;
    pointers = refl;
    initialized = refl;
  }

  -- Of the intercepted functions of `PathCall`, those that are guarded by PATH_NOT_MANAGED of one path, each
  -- except `open`, `fopen` and their aliases `open64`, `fopen64` and `freopen64` leaves libc alone where pdwfs
  -- manages the path: the kernel and libc, both registers and the table of libc functions are as before, or
  -- the process ends, by exit(EXIT_FAILURE) with nothing changed or in a panic of the Go layer. Nothing is
  -- said of `openat`, `unlinkat` and their like, which test no path.
  pub path_call-Local :
      (c : PathCall) (w : World)
      → path_not_managed (path_of c) w ≡ done false w
      → path_symbol c ≢ Symbol.open_file
      → path_symbol c ≢ Symbol.fopen
      → Local w (path_call c w)
  unfolding path_call on_path Unsupported.creat Unsupported.truncate64 Unsupported.truncate
      Paths.access Paths.unlink Paths.xstat Paths.xstat64 Paths.lxstat Paths.lxstat64 Paths.statfs
      Paths.statfs64 Unsupported.freopen Paths.mkdir Paths.rmdir Paths.statvfs Paths.statvfs64
      Unsupported.opendir Opening.getxattr
  path_call-Local (PathCall.creat pathname mode) w h nopen nf = rw h (not_implemented-Local w)
  path_call-Local (PathCall.truncate64 path length) w h nopen nf = rw h (not_implemented-Local w)
  path_call-Local (PathCall.truncate path length) w h nopen nf = rw h (not_implemented-Local w)
  path_call-Local (PathCall.access pathname mode) w h nopen nf = rw h (int_call-Local _ w)
  path_call-Local (PathCall.unlink pathname) w h nopen nf = rw h (with_go_errno-Local _ w)
  path_call-Local (PathCall.xstat vers pathname buf) w h nopen nf = rw h (fill_call-Local _ w)
  path_call-Local (PathCall.xstat64 vers pathname buf) w h nopen nf = rw h (fill_call-Local _ w)
  path_call-Local (PathCall.lxstat vers pathname buf) w h nopen nf = rw h (fill_call-Local _ w)
  path_call-Local (PathCall.lxstat64 vers pathname buf) w h nopen nf = rw h (fill_call-Local _ w)
  path_call-Local (PathCall.statfs path buf) w h nopen nf = rw h (fill_call-Local _ w)
  path_call-Local (PathCall.statfs64 path buf) w h nopen nf = rw h (fill_call-Local _ w)
  path_call-Local (PathCall.freopen path mode stream) w h nopen nf = rw h (not_implemented-Local w)
  path_call-Local (PathCall.mkdir pathname mode) w h nopen nf = rw h (int_call-Local _ w)
  path_call-Local (PathCall.rmdir pathname) w h nopen nf = rw h (int_call-Local _ w)
  path_call-Local (PathCall.statvfs pathname buf) w h nopen nf = rw h (fill_call-Local _ w)
  path_call-Local (PathCall.statvfs64 pathname buf) w h nopen nf = rw h (fill_call-Local _ w)
  path_call-Local (PathCall.opendir path) w h nopen nf = rw h (not_implemented-Local w)
  path_call-Local (PathCall.open_file pathname flags arg) w h nopen nf = absurd (nopen refl)
  path_call-Local (PathCall.fopen path mode) w h nopen nf = absurd (nf refl)
  path_call-Local (PathCall.getxattr path name value count) w h nopen nf = rw h (getxattr-Local w)
  path_call-Local (PathCall.creat64 pathname mode) w h nopen nf = rw h (not_implemented-Local w)
  path_call-Local (PathCall.open64 pathname flags arg) w h nopen nf = absurd (nopen refl)
  path_call-Local (PathCall.fopen64 path mode) w h nopen nf = absurd (nf refl)
  path_call-Local (PathCall.freopen64 path mode stream) w h nopen nf = absurd (nf refl)
