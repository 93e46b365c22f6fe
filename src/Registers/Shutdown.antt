-- ===== src/Registers/Shutdown.antt =====
-- pdwfs.c, the destructor of the library.
use pdwfs.Base.{true, ◌≡◌, refl, ap, ◌∙◌, List, [], ◌∷◌}
use pdwfs.Base.Int.{ℤ}
use pdwfs.Machine.{World, Run, done, exits, panics, faults, spins, Cmd, and_then, ◌>>=◌, ◌>>◌, pure}
use pdwfs.Machine.Host.{Env, returned, IsIn, IsDistinct}
use pdwfs.Machine.Access.{go_call}
use pdwfs.Libc.Descriptors.{libc_close}
use pdwfs.Registers.{
  contains_fd, close_by, close, close_all, free_fd_register, free_mount_register, finalize_pdwfs,
}
use pdwfs.Registers.Descriptors.{absent-not_managed, libc_close-keeps}

module _ ⦃env : Env⦄ where
  -- Each descriptor of a list is closed by libc, once and in order.
  pub libc_close_all : List ℤ → Cmd (Unit {0})
  libc_close_all [] = pure tt
  libc_close_all (fd ∷ fds) = libc_close fd >>= (λ _. libc_close_all fds)

  close-libc_close :
      (fd : ℤ) (w : World) → w.fd_register ≡ env.fds.new → close fd w ≡ libc_close fd w
  unfolding close close_by
  close-libc_close fd w e =
      let absent = ap (env.fds.contains fd) e ∙ env.fds.contains-new fd in
      simp (absent-not_managed fd w absent)

  after_first :
      (x : Run ℤ) (k l : Cmd (Unit {0}))
      → ((r : ℤ) (w : World) → x ≡ done r w → k w ≡ l w)
      → and_then x (λ _. k) ≡ and_then x (λ _. l)
  after_first (done r w) k l h = h r w refl
  after_first (exits s w) k l h = refl
  after_first panics k l h = refl
  after_first faults k l h = refl
  after_first spins k l h = refl

  close_all-libc_close_all :
      (fds : List ℤ) (w : World)
      → w.fd_register ≡ env.fds.new
      → close_all fds w ≡ libc_close_all fds w
  unfolding close_all libc_close_all
  close_all-libc_close_all [] w e = refl
  close_all-libc_close_all (fd ∷ fds) w e =
      ap (λ x. and_then x (λ _. close_all fds)) (close-libc_close fd w e)
      ∙ after_first (libc_close fd w) (close_all fds) (libc_close_all fds)
          (λ r w' f. close_all-libc_close_all fds w' ((libc_close-keeps fd w w' r f).0 ∙ e))

  finalize_pdwfs-keys :
      (w : World) (g : env.Go)
      → env.go_layer.finalize_pdwfs w.go ≡ returned tt g
      → finalize_pdwfs w
        ≡ (libc_close_all (env.fds.keys w.fd_register) >> free_mount_register)
            (record w { go = g; fd_register = env.fds.new })
  unfolding finalize_pdwfs free_fd_register go_call
  finalize_pdwfs-keys w g e = simp (
    e,
    close_all-libc_close_all (env.fds.keys w.fd_register)
        (record w { go = g; fd_register = env.fds.new }) refl,
  )

  -- Once the Go layer is done, the destructor empties the descriptor register and has libc close a list of
  -- descriptors in turn, without a call back into the Go layer; then it empties the mount register. The
  -- list has exactly the descriptors that were registered, and each of them once.
  pub finalize_pdwfs-libc_close_all :
      (w : World) (g : env.Go)
      → env.go_layer.finalize_pdwfs w.go ≡ returned tt g
      → (fds : List ℤ) × (finalize_pdwfs w
          ≡ (libc_close_all fds >> free_mount_register)
              (record w { go = g; fd_register = env.fds.new }))
        × ((fd : ℤ) → IsIn fd fds → contains_fd fd w ≡ true)
        × ((fd : ℤ) → contains_fd fd w ≡ true → IsIn fd fds)
        × IsDistinct fds
  unfolding contains_fd
  finalize_pdwfs-libc_close_all w g e = (
    env.fds.keys w.fd_register,
    finalize_pdwfs-keys w g e,
    λ fd m. env.fds.keys_contains fd w.fd_register m,
    λ fd h. env.fds.contains_keys fd w.fd_register h,
    env.fds.keys-IsDistinct w.fd_register,
  )
