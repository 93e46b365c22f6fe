-- ===== src/Calls/Local.antt =====
-- What a call into the Go layer leaves alone: libc and the kernel, both registers, the table of libc
-- functions.
use pdwfs.Base.{ℕ, ◌≡◌, refl, List, Bytes, arith}
use pdwfs.Base.Int.{ℤ, pos}
use pdwfs.Machine.{World, Run, done, exits, panics, faults, spins}
use pdwfs.Machine.Host.{Env, Mem, IoVec, GoCall}
use pdwfs.Machine.Access.{go_call}
use pdwfs.Intercept.Guards.{
  int_call, fill_call, with_go_errno, write_from, read_into, write_vec, read_vec, not_implemented,
}

module _ ⦃env : Env⦄ where
  pub record Same (w w' : World) : Type 0 where
    pub sys : w'.machine.sys ≡ w.machine.sys
    pub fd_register : w'.fd_register ≡ w.fd_register
    pub mount_register : w'.mount_register ≡ w.mount_register
    pub pointers : w'.pointers ≡ w.pointers
    pub initialized : w'.initialized ≡ w.initialized

  -- The run ends in such a state, or by exit(EXIT_FAILURE) with nothing changed, or in a panic of the
  -- Go layer.
  abbrev pub Local : World → Run ℤ → Type 0
  Local w (done r w') = Same w w'
  Local w (exits s w') = (s ≡ pos 1) × (w' ≡ w)
  Local w panics = Unit
  Local w faults = ⊥
  Local w spins = ⊥

  same : (w : World) → Same w w
  same w = record {
    sys = refl;
    fd_register = refl;
    mount_register = refl;
    pointers = refl;
    initialized = refl;
  }

  pub not_implemented-Local : (w : World) → Local w (not_implemented w)
  unfolding not_implemented
  not_implemented-Local w = (refl, refl)

  pub go_call-Local : (f : GoCall env.Go ℤ) (w : World) → Local w (go_call f w)
  unfolding go_call
  go_call-Local f w = ground arith

  pub int_call-Local : (f : GoCall env.Go ℤ) (w : World) → Local w (int_call f w)
  unfolding int_call
  int_call-Local f w = ground arith

  pub with_go_errno-Local :
      (f : GoCall env.Go ℤ) (w : World) → Local w (with_go_errno (int_call f) w)
  unfolding with_go_errno int_call
  with_go_errno-Local f w = ground arith

  pub fill_call-Local : (f : Mem → GoCall env.Go (ℤ × Mem)) (w : World) → Local w (fill_call f w)
  unfolding fill_call
  fill_call-Local f w = ground arith

  pub write_from-Local :
      (f : Bytes → GoCall env.Go ℤ) (buf count : ℕ) (w : World) → Local w (write_from f buf count w)
  unfolding write_from
  write_from-Local f buf count w = ground arith

  pub read_into-Local :
      (f : GoCall env.Go (ℤ × Bytes)) (buf : ℕ) (w : World) → Local w (read_into f buf w)
  unfolding read_into
  read_into-Local f buf w = ground arith

  pub write_vec-Local :
      (f : List Bytes → GoCall env.Go ℤ) (iov : List IoVec) (n : ℤ) (w : World)
      → Local w (write_vec f iov n w)
  unfolding write_vec
  write_vec-Local f iov n w = ground arith

  pub read_vec-Local :
      (f : List ℕ → GoCall env.Go (ℤ × List Bytes)) (iov : List IoVec) (n : ℤ) (w : World)
      → Local w (read_vec f iov n w)
  unfolding read_vec
  read_vec-Local f iov n w = ground arith
