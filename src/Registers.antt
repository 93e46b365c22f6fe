-- ===== src/Registers.antt =====
-- pdwfs.c, the two registers: the mount points, which say what paths pdwfs manages, and the
-- descriptors of the twin temporary files, which say what descriptors it manages; and `close`, which
-- the descriptor register calls back when a key is removed.
pub mod Mounts
pub mod Setup
pub mod Descriptors
pub mod Shutdown
use pdwfs.Base.{
  ℕ, zero, suc, Bool, true, false, not, ◌||◌, ◌&&◌, Option, none, some, List, [], ◌∷◌, Bytes, ◌==◌,
  bytes_eq, if◌then◌else◌,
}
use pdwfs.Base.Int.{ℤ, pos, to_int, ◌==ℤ◌}
use pdwfs.Machine.{World, Run, done, faults, spins, Cmd, ◌>>=◌, ◌>>◌, pure}
use pdwfs.Machine.Host.{Env, CString}
use pdwfs.Machine.Access.{set_errno, fileno, go_call}
use pdwfs.Abspath.{Outcome, ok, null, overruns, abspath}
use pdwfs.Libc.Descriptors.{libc_close}

-- fd == STDIN_FILENO || fd == STDOUT_FILENO || fd == STDERR_FILENO
unfoldable pub is_std_fd : ℤ → Bool
is_std_fd fd = (fd ==ℤ pos 0) || (fd ==ℤ pos 1) || (fd ==ℤ pos 2)

-- A buffer read as a C string: up to its first NUL.
pub c_string : Bytes → Bytes
c_string [] = []
c_string (c ∷ s) = if c == 0 then [] else c ∷ c_string s

module _ ⦃env : Env⦄ where
  -- no mount point, and no descriptor
  abbrev new_mount_register : env.mounts.T
  new_mount_register = env.mounts.new

  abbrev new_fd_register : env.fds.T
  new_fd_register = env.fds.new

  -- the loop of register_mounts, which leaves out empty names
  unfoldable pub register_mounts : env.mounts.T → List Bytes → env.mounts.T
  register_mounts t [] = t
  register_mounts t (m ∷ ms) =
      register_mounts (if bytes_eq m [] then t else env.mounts.insert m t) ms

  -- g_str_has_prefix(abspath, mount)
  unfoldable pub finder : Bytes → Bytes → Bool
  finder apath mount = env.strings.has_prefix apath mount

  pub found_in : World → Outcome Bytes → Run Bool
  unfolding finder set_errno
  found_in w (ok apath) = done (env.mounts.find (finder apath) w.mount_register) w
  found_in w (null e) = (set_errno e >> pure false) w
  found_in w overruns = faults
  found_in w Outcome.spins = spins

  unfoldable pub contains_path : CString → Cmd Bool
  unfolding found_in
  contains_path path w =
      found_in w (abspath (env.libc.getcwd w.sys) (env.libc.can_alloc w.sys) path)

  -- PATH_NOT_MANAGED(path)
  unfoldable pub path_not_managed : CString → Cmd Bool
  path_not_managed path w =
      if w.initialized then (contains_path path >>= (λ b. pure (not b))) w else done true w

  -- FD_NOT_MANAGED(fd)
  unfoldable pub fd_not_managed : ℤ → World → Bool
  fd_not_managed fd w = not w.initialized || is_std_fd fd || not (env.fds.contains fd w.fd_register)

  -- STREAM_NOT_MANAGED(stream): the argument of FD_NOT_MANAGED, fileno(stream), is evaluated once pdwfs is
  -- initialized, and `none` is the fault of fileno(NULL)
  unfoldable pub stream_not_managed : ℕ → World → Option Bool
  unfolding fd_not_managed fileno
  stream_not_managed stream w =
      if w.initialized && (stream == 0) then none else some (fd_not_managed (fileno stream w) w)

  -- g_hash_table_remove: a key that is there is taken out, and then `fd_key_removed` closes it
  pub remove_fd_by : (ℤ → Cmd ℤ) → ℤ → Cmd (Unit {0})
  remove_fd_by close_fd fd w =
      if env.fds.contains fd w.fd_register
      then (close_fd fd >>= (λ _. pure tt))
          (record w { fd_register = env.fds.remove fd w.fd_register })
      else done tt w

  -- `close`, to a depth of calls of `close` through the register
  pub close_by : ℕ → ℤ → Cmd ℤ
  unfolding remove_fd_by
  close_by zero fd w = spins
  close_by (suc depth) fd w =
      let managed =
        (go_call (env.go_layer.close fd)
          >>= (λ ret. remove_fd_by (close_by depth) fd >> pure (to_int ret))) in
      if fd_not_managed fd w then libc_close fd w else managed w

  unfoldable pub close : ℤ → Cmd ℤ
  unfolding close_by
  close = close_by 2

  -- g_hash_table_insert: where the key is there already, the table stays as it is, and the key that was
  -- passed is freed by `fd_key_removed`
  unfoldable pub insert_fd : ℤ → Cmd (Unit {0})
  unfolding close
  insert_fd fd w =
      if env.fds.contains fd w.fd_register
      then (close fd >>= (λ _. pure tt)) w
      else done tt (record w { fd_register = env.fds.insert fd w.fd_register })

  -- tmpfile(), and the insertion of its descriptor; fileno(NULL) is a fault
  unfoldable pub get_new_stream : Cmd ℕ
  unfolding insert_fd
  get_new_stream w =
      let (fp, sys') = env.libc.tmpfile w.sys in
      if fp == 0
      then faults
      else (insert_fd (env.libc.fileno sys' fp) >> pure fp)
          (record w { machine = record w.machine { sys = sys' } })

  unfoldable pub get_new_fd : Cmd ℤ
  unfolding get_new_stream fileno
  get_new_fd = get_new_stream >>= (λ fp w. done (fileno fp w) w)

  unfoldable pub remove_fd : ℤ → Cmd (Unit {0})
  unfolding remove_fd_by close_by
  remove_fd = remove_fd_by (close_by 1)

  unfoldable pub contains_fd : ℤ → World → Bool
  contains_fd fd w = env.fds.contains fd w.fd_register

  pub close_all : List ℤ → Cmd (Unit {0})
  unfolding close
  close_all [] = pure tt
  close_all (fd ∷ fds) = close fd >>= (λ _. close_all fds)

  -- g_hash_table_destroy of the descriptors: the table is emptied, and every key is closed
  unfoldable pub free_fd_register : Cmd (Unit {0})
  unfolding close_all
  free_fd_register w =
      close_all (env.fds.keys w.fd_register) (record w { fd_register = env.fds.new })

  unfoldable pub free_mount_register : Cmd (Unit {0})
  free_mount_register w = done tt (record w { mount_register = env.mounts.new })

  -- the constructor of the library
  unfoldable pub init_pdwfs : Cmd (Unit {0})
  unfolding c_string
  init_pdwfs = go_call (env.go_layer.init_pdwfs 1024) >>= (λ buf w. done tt (record w {
    mount_register = register_mounts new_mount_register (env.strings.strsplit (c_string buf) b'@');
    fd_register = new_fd_register;
    initialized = true;
  }))

  -- its destructor
  unfoldable pub finalize_pdwfs : Cmd (Unit {0})
  unfolding free_fd_register free_mount_register
  finalize_pdwfs = go_call env.go_layer.finalize_pdwfs >> (free_fd_register >> free_mount_register)
