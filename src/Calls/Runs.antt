-- ===== src/Calls/Runs.antt =====
-- Sequences of calls on descriptors, and what stays registered over them.
use pdwfs.Base.{◌≡◌, refl, ap, sym, subst, ◌∙◌, ◌≢◌, ◌⊎◌, inl, inr, true, false, Bool-cases}
use pdwfs.Base.Int.{ℤ}
use pdwfs.Machine.{World, done}
use pdwfs.Machine.Symbol.{Symbol}
use pdwfs.Machine.Host.{Env}
use pdwfs.Registers.{fd_not_managed, contains_fd}
use pdwfs.Registers.Descriptors.{close-forgets}
use pdwfs.Libc.Cache.{call_next-registers}
use pdwfs.Calls.OnFd.{FdCall, fd_call, fd_of, fd_symbol, fd_args}
use pdwfs.Calls.Local.{Same, Local}
use pdwfs.Calls.PassFd.{fd_call-call_next}
use pdwfs.Calls.KeepFd.{fd_call-Local}

-- The call does not close this descriptor.
pub data Spares (fd : ℤ) (c : FdCall) : Type 0 where
  no_close : fd_symbol c ≢ Symbol.close → Spares fd c
  other_fd : fd ≢ fd_of c → Spares fd c

close_or_not : (c : FdCall) → (fd_symbol c ≡ Symbol.close) ⊎ (fd_symbol c ≢ Symbol.close)
close_or_not (FdCall.close fd) = inl refl
close_or_not c = inr (λ e. cc)

module _ ⦃env : Env⦄ where
  -- The process makes these calls one after the other, and each returns.
  pub data Runs (fd : ℤ) : World → World → Type 0 where
    stop : (w : World) → Runs fd w w
    call :
        (c : FdCall) (w w1 w2 : World) (r : ℤ)
        → Spares fd c
        → fd_call c w ≡ done r w1
        → Runs fd w1 w2
        → Runs fd w w2

  managed_step :
      (c : FdCall) (w w' : World) (r : ℤ) (fd : ℤ)
      → fd_not_managed (fd_of c) w ≡ false
      → fd_symbol c ≢ Symbol.close
      → fd_call c w ≡ done r w'
      → contains_fd fd w' ≡ contains_fd fd w
  unfolding contains_fd
  managed_step c w w' r fd h ne e =
      let s : Same w w' = subst (Local w) e (fd_call-Local c w h ne) in
      ap (env.fds.contains fd) s.fd_register

  libc_step :
      (c : FdCall) (w w' : World) (r : ℤ) (fd : ℤ)
      → fd_not_managed (fd_of c) w ≡ true
      → fd_call c w ≡ done r w'
      → contains_fd fd w' ≡ contains_fd fd w
  unfolding contains_fd
  libc_step c w w' r fd h e =
      let (s, _, _, _) =
        call_next-registers (fd_symbol c) (fd_args c) w w' r (sym (fd_call-call_next c w h) ∙ e) in
      ap (env.fds.contains fd) s

  managed_close :
      (c : FdCall) (w w' : World) (r : ℤ) (fd : ℤ)
      → fd_not_managed (fd_of c) w ≡ false
      → fd ≢ fd_of c
      → fd_symbol c ≡ Symbol.close
      → fd_call c w ≡ done r w'
      → contains_fd fd w' ≡ contains_fd fd w
  unfolding fd_call
  managed_close (FdCall.close j) w w' r fd h ne s e =
      let (_, _, _, _, keeps) = close-forgets j w w' r h e in keeps fd ne
  managed_close c w w' r fd h ne s e = cc

  spared_step :
      (c : FdCall) (w w' : World) (r : ℤ) (fd : ℤ)
      → Spares fd c
      → fd_call c w ≡ done r w'
      → contains_fd fd w' ≡ contains_fd fd w
  spared_step c w w' r fd spares e = elim (Bool-cases (fd_not_managed (fd_of c) w)) [
    | inl outside ↦ libc_step c w w' r fd outside e
    | inr inside ↦ elim spares [
      | Spares.no_close n ↦ managed_step c w w' r fd inside n e
      | Spares.other_fd n ↦ elim (close_or_not c) [
        | inl s ↦ managed_close c w w' r fd inside n s e
        | inr n' ↦ managed_step c w w' r fd inside n' e
      ]
    ]
  ]

  -- A descriptor stays as it is in the register, registered or not, over any sequence of calls on
  -- descriptors that return, managed or not, as long as none of them closes it.
  pub Runs-contains_fd :
      (fd : ℤ) (w w' : World) → Runs fd w w' → contains_fd fd w' ≡ contains_fd fd w
  Runs-contains_fd fd w w' (Runs.stop _) = refl
  Runs-contains_fd fd w w' (Runs.call c _ w1 _ r spares e rest) =
      Runs-contains_fd fd w1 w' rest ∙ spared_step c w w1 r fd spares e
