-- ===== src/Intercept/Opened.antt =====
-- pdwfs.c, `open` and `fopen` of a path that pdwfs manages: what they leave in the descriptor register,
-- where the Go layer opens the file and where it does not.
use pdwfs.Base.{ℕ, some, Bytes, ◌≡◌, refl, ap, ◌∙◌, ◌≢◌, true, false, [], ◌∷◌, arith, ◌==◌}
use pdwfs.Base.Int.{ℤ, pos, is_neg, to_int}
use pdwfs.Machine.{World, done, and_then, pure}
use pdwfs.Machine.Symbol.{Symbol}
use pdwfs.Machine.Host.{Env, CString, Arg, returned}
use pdwfs.Machine.Access.{go_call}
use pdwfs.Libc.Cache.{IsCached, call_next-invoke}
use pdwfs.Libc.Descriptors.{libc_close}
use pdwfs.Registers.{
  path_not_managed, insert_fd, get_new_stream, get_new_fd, contains_fd, remove_fd,
}
use pdwfs.Registers.Descriptors.{remove_fd-libc}
use pdwfs.Intercept.Guards.{bytes_of, on_path, int_call}
use pdwfs.Intercept.Opening.{mode_of, open_new, open_file, fopen_new, fopen}

module _ ⦃env : Env⦄ where
  -- The state in which the twin file is there and its descriptor is registered.
  abbrev twin_made : World → env.Sys → ℤ → World
  twin_made w sys' fd = record w {
    machine = record w.machine { sys = sys' };
    fd_register = env.fds.insert fd w.fd_register;
  }

  -- Taking out a descriptor that is registered closes it in libc and changes no other.
  remove_fd-closes :
      (fd : ℤ) (w : World) (p : ℕ)
      → env.fds.contains fd w.fd_register ≡ true
      → env.libc.dlsym Symbol.close ≡ (p, false)
      → p ≢ 0
      → IsCached Symbol.close w
      → (w' : World) × (remove_fd fd w ≡ done tt w')
        × (w'.machine ≡ (env.libc.invoke p (Arg.int fd ∷ []) w.machine).1)
        × (contains_fd fd w' ≡ false)
        × ((j : ℤ) → j ≢ fd → contains_fd j w' ≡ contains_fd j w)
        × (w'.go ≡ w.go)
  unfolding libc_close contains_fd
  remove_fd-closes fd w p h e ne c =
      let w1 = record w { fd_register = env.fds.remove fd w.fd_register } in
      let (w', f, m, _, _, r, g) = call_next-invoke Symbol.close (Arg.int fd ∷ []) w1 p e ne c in
      (
        w',
        rw (remove_fd-libc fd w h) (ap (λ x. and_then x (λ _. pure tt)) f),
        m,
        ap (env.fds.contains fd) r ∙ env.fds.contains-remove_self fd w.fd_register,
        λ j n. ap (env.fds.contains j) r ∙ env.fds.contains-remove_ne fd j w.fd_register n,
        g,
      )

  module _ (path : CString) (flags arg : ℤ) (w : World) (fp : ℕ) (sys' : env.Sys) where
    -- Where the descriptor of the twin file is not registered yet and the Go layer opens the file on it,
    -- `open` of a managed path returns what the Go layer returned; the descriptor is registered, all others
    -- are as before, and of the rest of the process only the twin file is new.
    pub open_file-opens :
        (ret : ℤ) (g : env.Go)
        → path_not_managed path w ≡ done false w
        → env.libc.tmpfile w.sys ≡ (fp, sys')
        → fp ≢ 0
        → contains_fd (env.libc.fileno sys' fp) w ≡ false
        → env.go_layer.open_file
            (bytes_of path)
            flags
            (mode_of flags arg)
            (env.libc.fileno sys' fp)
            w.go
          ≡ returned ret g
        → is_neg (to_int ret) ≡ false
        → (w' : World) × (open_file path flags arg w ≡ done (to_int ret) w')
          × (contains_fd (env.libc.fileno sys' fp) w' ≡ true)
          × ((j : ℤ) → j ≢ env.libc.fileno sys' fp → contains_fd j w' ≡ contains_fd j w)
          × (w'.machine ≡ record w.machine { sys = sys' })
          × (w'.go ≡ g)
    unfolding open_file on_path get_new_fd insert_fd open_new int_call go_call contains_fd
    open_file-opens ret g h t ne fresh o s =
        let fd = env.libc.fileno sys' fp in
        let some_file : (fp == 0) ≡ false = ground arith in
        (
          record (twin_made w sys' fd) { go = g },
          simp (h, t, some_file, fresh, o, s),
          env.fds.contains-insert_self fd w.fd_register,
          λ j n. env.fds.contains-insert_ne fd j w.fd_register n,
          refl,
          refl,
        )

    -- Where the descriptor of the twin file is not registered yet and the Go layer does not open the file,
    -- `open` of a managed path returns its negative result: `errno` is set to the error of the Go layer, then
    -- libc closes the twin file, in that order; no descriptor is registered that was not before.
    pub open_file-fails :
        (ret : ℤ) (g : env.Go) (p : ℕ)
        → path_not_managed path w ≡ done false w
        → env.libc.tmpfile w.sys ≡ (fp, sys')
        → fp ≢ 0
        → contains_fd (env.libc.fileno sys' fp) w ≡ false
        → env.go_layer.open_file
            (bytes_of path)
            flags
            (mode_of flags arg)
            (env.libc.fileno sys' fp)
            w.go
          ≡ returned ret g
        → is_neg (to_int ret) ≡ true
        → env.libc.dlsym Symbol.close ≡ (p, false)
        → p ≢ 0
        → IsCached Symbol.close w
        → (w' : World) × (open_file path flags arg w ≡ done (to_int ret) w')
          × (contains_fd (env.libc.fileno sys' fp) w' ≡ false)
          × ((j : ℤ) → j ≢ env.libc.fileno sys' fp → contains_fd j w' ≡ contains_fd j w)
          × (w'.machine
              ≡ (env.libc.invoke p
                  (Arg.int (env.libc.fileno sys' fp) ∷ [])
                  (record w.machine { sys = sys'; errno = env.go_layer.get_errno g })).1)
          × (w'.go ≡ g)
    unfolding open_file on_path get_new_fd insert_fd open_new int_call go_call contains_fd
    open_file-fails ret g p h t ne fresh o s e pe c =
        let fd = env.libc.fileno sys' fp in
        let some_file : (fp == 0) ≡ false = ground arith in
        let w1 = record (twin_made w sys' fd) {
          machine = record w.machine { sys = sys'; errno = env.go_layer.get_errno g };
          go = g;
        } in
        let (w', f, m, gone, r, k) =
          remove_fd-closes fd w1 p (env.fds.contains-insert_self fd w.fd_register) e pe c in
        (
          w',
          simp (h, t, some_file, fresh, o, s, f),
          gone,
          λ j n. r j n ∙ env.fds.contains-insert_ne fd j w.fd_register n,
          m,
          k,
        )

  module _ (path : CString) (mode : Bytes) (w : World) (fp : ℕ) (sys' : env.Sys) where
    -- Where the descriptor of the twin file is not registered yet, the mode is not NULL and the Go layer opens
    -- the file, `fopen` of a managed path returns the twin stream, whose descriptor is registered; all other
    -- descriptors are as before.
    pub fopen-opens :
        (ret : ℤ) (g : env.Go)
        → path_not_managed path w ≡ done false w
        → env.libc.tmpfile w.sys ≡ (fp, sys')
        → fp ≢ 0
        → contains_fd (env.libc.fileno sys' fp) w ≡ false
        → env.go_layer.fopen (bytes_of path) mode (env.libc.fileno sys' fp) w.go ≡ returned ret g
        → is_neg (to_int ret) ≡ false
        → (w' : World) × (fopen path (some mode) w ≡ done (pos fp) w')
          × (contains_fd (env.libc.fileno sys' fp) w' ≡ true)
          × ((j : ℤ) → j ≢ env.libc.fileno sys' fp → contains_fd j w' ≡ contains_fd j w)
          × (w'.machine ≡ record w.machine { sys = sys' })
          × (w'.go ≡ g)
    unfolding fopen on_path get_new_stream insert_fd fopen_new int_call go_call contains_fd
    fopen-opens ret g h t ne fresh o s =
        let fd = env.libc.fileno sys' fp in
        let some_file : (fp == 0) ≡ false = ground arith in
        (
          record (twin_made w sys' fd) { go = g },
          simp (h, t, some_file, fresh, o, s),
          env.fds.contains-insert_self fd w.fd_register,
          λ j n. env.fds.contains-insert_ne fd j w.fd_register n,
          refl,
          refl,
        )

    -- Where the descriptor of the twin file is not registered yet, the mode is not NULL and the Go layer does
    -- not open the file, `fopen` of a managed path returns NULL and libc closes the twin file, with
    -- `errno` as it was before the call: the error of the Go layer is not read. No descriptor is
    -- registered that was not before.
    pub fopen-fails :
        (ret : ℤ) (g : env.Go) (p : ℕ)
        → path_not_managed path w ≡ done false w
        → env.libc.tmpfile w.sys ≡ (fp, sys')
        → fp ≢ 0
        → contains_fd (env.libc.fileno sys' fp) w ≡ false
        → env.go_layer.fopen (bytes_of path) mode (env.libc.fileno sys' fp) w.go ≡ returned ret g
        → is_neg (to_int ret) ≡ true
        → env.libc.dlsym Symbol.close ≡ (p, false)
        → p ≢ 0
        → IsCached Symbol.close w
        → (w' : World) × (fopen path (some mode) w ≡ done (pos 0) w')
          × (contains_fd (env.libc.fileno sys' fp) w' ≡ false)
          × ((j : ℤ) → j ≢ env.libc.fileno sys' fp → contains_fd j w' ≡ contains_fd j w)
          × (w'.machine
              ≡ (env.libc.invoke p
                  (Arg.int (env.libc.fileno sys' fp) ∷ [])
                  (record w.machine { sys = sys' })).1)
          × (w'.go ≡ g)
    unfolding fopen on_path get_new_stream insert_fd fopen_new int_call go_call contains_fd
    fopen-fails ret g p h t ne fresh o s e pe c =
        let fd = env.libc.fileno sys' fp in
        let some_file : (fp == 0) ≡ false = ground arith in
        let w1 = record (twin_made w sys' fd) { go = g } in
        let (w', f, m, gone, r, k) =
          remove_fd-closes fd w1 p (env.fds.contains-insert_self fd w.fd_register) e pe c in
        (
          w',
          simp (h, t, some_file, fresh, o, s, f),
          gone,
          λ j n. r j n ∙ env.fds.contains-insert_ne fd j w.fd_register n,
          m,
          k,
        )
