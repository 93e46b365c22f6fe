-- ===== src/Intercept/Ended.antt =====
-- pdwfs.c, `fclose` of a stream that pdwfs manages.
use pdwfs.Base.{some, ℕ, ◌≡◌, refl, sym, ◌∙◌, ◌≢◌, false}
use pdwfs.Base.Int.{ℤ, to_int}
use pdwfs.Machine.{World, Run, done, panics}
use pdwfs.Machine.Host.{Env, GoRun, returned, panicked}
use pdwfs.Machine.Access.{go_call, fileno}
use pdwfs.Registers.{stream_not_managed, fd_not_managed, contains_fd, close}
use pdwfs.Registers.Descriptors.{stream_fd, close-forgets}
use pdwfs.Intercept.Guards.{on_stream}
use pdwfs.Intercept.Opening.{fclose}

module _ ⦃env : Env⦄ where
  abbrev flushed : ℕ → World → GoRun env.Go ℤ → Run ℤ
  flushed stream w panicked = panics
  flushed stream w (returned n g) =
      close (env.libc.fileno w.machine.sys stream) (record w { go = g })

  fclose-flushed :
      (stream : ℕ) (w : World) (x : GoRun env.Go ℤ)
      → stream_not_managed stream w ≡ some false
      → env.go_layer.fflush stream w.go ≡ x
      → fclose stream w ≡ flushed stream w x
  unfolding fclose on_stream go_call fileno
  fclose-flushed stream w panicked h e = simp (h, e)
  fclose-flushed stream w (returned n g) h e = simp (h, e)

  after_flush :
      (stream : ℕ) (w w' : World) (r : ℤ) (x : GoRun env.Go ℤ)
      → flushed stream w x ≡ done r w'
      → (n : ℤ) × (g : env.Go) × (x ≡ returned n g)
        × (close (env.libc.fileno w.machine.sys stream) (record w { go = g }) ≡ done r w')
  after_flush stream w w' r panicked e = cc
  after_flush stream w w' r (returned n g) e = (n, g, refl, e)

  -- When `fclose` of a managed stream returns, the Go layer has flushed the stream and then closed the file
  -- of its descriptor, whose result is that of `fclose`; this descriptor is no longer registered, and all
  -- others are as before.
  pub fclose-forgets :
      (stream : ℕ) (w w' : World) (r : ℤ)
      → stream_not_managed stream w ≡ some false
      → fclose stream w ≡ done r w'
      → (n : ℤ) × (g : env.Go) × (ret : ℤ) × (env.go_layer.fflush stream w.go ≡ returned n g)
        × (env.go_layer.close (env.libc.fileno w.machine.sys stream) g ≡ returned ret w'.go)
        × (r ≡ to_int ret)
        × (contains_fd (env.libc.fileno w.machine.sys stream) w' ≡ false)
        × ((j : ℤ) → j ≢ env.libc.fileno w.machine.sys stream → contains_fd j w' ≡ contains_fd j w)
  unfolding stream_not_managed fileno fd_not_managed contains_fd
  fclose-forgets stream w w' r h e =
      let (n, g, f, c) = after_flush stream w w' r _ (sym (fclose-flushed stream w _ h refl) ∙ e) in
      let (ret, i, k, gone, keeps) =
        close-forgets (env.libc.fileno w.machine.sys stream) (record w { go = g }) w' r
          (stream_fd stream w false h) c in
      (n, g, ret, f, i, k, gone, keeps)
