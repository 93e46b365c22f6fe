-- ===== src/Registers/Descriptors.antt =====
-- The descriptor register: `close` of a managed descriptor, which removes it and closes its twin, and
-- the descriptors that `open` and `fopen` make.
use pdwfs.Base.{
  ℕ, ◌≡◌, refl, sym, ◌∙◌, ◌≢◌, Bool, true, false, ◌&&◌, none, some, ◌==◌, if◌then◌else◌, arith,
}
use pdwfs.Base.Int.{ℤ, to_int}
use pdwfs.Machine.{World, Run, done, exits, panics, faults, spins, and_then, ◌>>=◌, ◌>>◌, pure}
use pdwfs.Machine.Symbol.{Symbol}
use pdwfs.Machine.Host.{Env, GoRun, returned, panicked}
use pdwfs.Machine.Access.{go_call, fileno}
use pdwfs.Libc.Descriptors.{libc_close}
use pdwfs.Libc.Cache.{call_next-registers}
use pdwfs.Registers.{fd_not_managed, stream_not_managed, close, remove_fd, contains_fd}

module _ ⦃env : Env⦄ where
  -- The test of a `FILE` that does not fault is that of its descriptor.
  pub stream_fd :
      (stream : ℕ) (w : World) (b : Bool)
      → stream_not_managed stream w ≡ some b
      → fd_not_managed (env.libc.fileno w.machine.sys stream) w ≡ b
  unfolding stream_not_managed fileno
  stream_fd stream w b h = by_test (w.initialized && (stream == 0)) _ h
    where
      by_test : (null c : Bool) → (if null then none else some c) ≡ some b → c ≡ b
      by_test true c e = cc
      by_test false c e = cc

  pub managed-contains :
      (fd : ℤ) (w : World) → fd_not_managed fd w ≡ false → env.fds.contains fd w.fd_register ≡ true
  unfolding fd_not_managed
  managed-contains fd w h = ground arith

  pub absent-not_managed :
      (fd : ℤ) (w : World) → env.fds.contains fd w.fd_register ≡ false → fd_not_managed fd w ≡ true
  unfolding fd_not_managed
  absent-not_managed fd w h = ground arith

  -- The rest of `close` once the Go layer is done with the file: the descriptor leaves the register,
  -- and then libc closes the twin file.
  abbrev pub close_twin : ℤ → World → GoRun env.Go ℤ → Run ℤ
  close_twin fd w panicked = panics
  close_twin fd w (returned ret g) =
      (libc_close fd >>= (λ _. pure (to_int ret)))
        (record w { go = g; fd_register = env.fds.remove fd w.fd_register })

  forget_result :
      (r : Run ℤ) (i : ℤ)
      → and_then (and_then r (λ _. pure tt)) (λ _. pure i) ≡ and_then r (λ _. pure i)
  forget_result (done a w) i = refl
  forget_result (exits s w) i = refl
  forget_result panics i = refl
  forget_result faults i = refl
  forget_result spins i = refl

  -- The removal calls `close` back, which goes to libc because the descriptor is no longer there.
  pub remove_fd-libc :
      (fd : ℤ) (w : World)
      → env.fds.contains fd w.fd_register ≡ true
      → remove_fd fd w
        ≡ (libc_close fd >>= (λ _. pure tt))
            (record w { fd_register = env.fds.remove fd w.fd_register })
  unfolding remove_fd
  remove_fd-libc fd w h =
      let w' = record w { fd_register = env.fds.remove fd w.fd_register } in
      simp (h, absent-not_managed fd w' (env.fds.contains-remove_self fd w.fd_register))

  close-go_call :
      (fd : ℤ) (w : World)
      → fd_not_managed fd w ≡ false
      → close fd w
        ≡ and_then (go_call (env.go_layer.close fd) w) (λ ret. remove_fd fd >> pure (to_int ret))
  unfolding close remove_fd
  close-go_call fd w h = simp h

  after_close :
      (fd : ℤ) (w : World) (x : GoRun env.Go ℤ)
      → env.go_layer.close fd w.go ≡ x
      → env.fds.contains fd w.fd_register ≡ true
      → and_then (go_call (env.go_layer.close fd) w) (λ ret. remove_fd fd >> pure (to_int ret))
        ≡ close_twin fd w x
  unfolding go_call
  after_close fd w panicked e h = rw e
  after_close fd w (returned ret g) e h =
      rw (e, remove_fd-libc fd (record w { go = g }) h) (forget_result _ (to_int ret))

  -- Closing a managed descriptor never runs out of its bound: the Go layer closes the file, or panics;
  -- then the descriptor leaves the register and libc closes its twin, once; the result is that of the
  -- Go layer.
  pub close-close_twin :
      (fd : ℤ) (w : World)
      → fd_not_managed fd w ≡ false
      → close fd w ≡ close_twin fd w (env.go_layer.close fd w.go)
  close-close_twin fd w h = close-go_call fd w h ∙ after_close fd w _ refl (managed-contains fd w h)

  pub libc_close-keeps :
      (fd : ℤ) (w w' : World) (r : ℤ)
      → libc_close fd w ≡ done r w'
      → (w'.fd_register ≡ w.fd_register) × (w'.go ≡ w.go)
  unfolding libc_close
  libc_close-keeps fd w w' r e =
      let (f, _, g, _) = call_next-registers Symbol.close _ w w' r e in (f, g)

  value_after :
      (w1 w' : World) (ret : ℤ) (r : ℤ) (x : Run ℤ)
      → and_then x (λ _. pure (to_int ret)) ≡ done r w'
      → (a : ℤ) × (x ≡ done a w') × (r ≡ to_int ret)
  value_after w1 w' ret r (done a w2) e = (a, ground arith, ground arith)
  value_after w1 w' ret r (exits s w2) e = cc
  value_after w1 w' ret r panics e = cc
  value_after w1 w' ret r faults e = cc
  value_after w1 w' ret r spins e = cc

  closed_twin :
      (fd : ℤ) (w w' : World) (r : ℤ) (x : GoRun env.Go ℤ)
      → close_twin fd w x ≡ done r w'
      → (ret : ℤ) × (g : env.Go) × (x ≡ returned ret g)
        × (r ≡ to_int ret)
        × (w'.go ≡ g)
        × (w'.fd_register ≡ env.fds.remove fd w.fd_register)
  closed_twin fd w w' r panicked e = cc
  closed_twin fd w w' r (returned ret g) e =
      let w1 = record w { go = g; fd_register = env.fds.remove fd w.fd_register } in
      let (a, f, i) = value_after w1 w' ret r (libc_close fd w1) e in
      let (k, l) = libc_close-keeps fd w1 w' a f in (ret, g, refl, i, l, k)

  -- When closing a managed descriptor returns, the Go layer has closed its file and gave the result,
  -- and exactly this descriptor is no longer registered.
  pub close-forgets :
      (fd : ℤ) (w w' : World) (r : ℤ)
      → fd_not_managed fd w ≡ false
      → close fd w ≡ done r w'
      → (ret : ℤ) × (env.go_layer.close fd w.go ≡ returned ret w'.go)
        × (r ≡ to_int ret)
        × (contains_fd fd w' ≡ false)
        × ((j : ℤ) → j ≢ fd → contains_fd j w' ≡ contains_fd j w)
  unfolding contains_fd
  close-forgets fd w w' r h e =
      let (ret, g, f, i, k, l) = closed_twin fd w w' r _ (sym (close-close_twin fd w h) ∙ e) in
      (
        ret,
        rw k f,
        i,
        rw l (env.fds.contains-remove_self fd w.fd_register),
        λ j ne. rw l (env.fds.contains-remove_ne fd j w.fd_register ne),
      )
