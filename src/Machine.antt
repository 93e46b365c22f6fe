-- ===== src/Machine.antt =====
-- The state of a process that runs under pdwfs, and the commands over it.
pub mod Access
pub mod Symbol
pub mod Host
use pdwfs.Base.{ℕ, suc, ◌+◌, ◌==◌, Bool, List, [], ◌∷◌, Bytes, if◌then◌else◌}
use pdwfs.Base.Int.{ℤ, pos}
use Host.{Env, Libc, Machine, Flags, Mem, GoRun, returned, panicked, GoCall}

module _ ⦃env : Env⦄ where
  -- The static variables of pdwfs.c and libc.c, the state of the Go layer, and the machine.
  pub record World : Type 0 where
    pub machine : Machine env.Sys
    pub open machine use *
    pub initialized : Bool
    pub fd_register : env.fds.T
    pub mount_register : env.mounts.T
    -- the `ptr_*` variables by position; 0 is NULL
    pub pointers : ℕ → ℕ
    pub go : env.Go

  pub data Run (A : Type 0) : Type 0 where
    done : A → World → Run A
    -- exit(status)
    exits : ℤ → World → Run A
    -- a panic of the Go layer
    panics : Run A
    -- a null pointer is dereferenced
    faults : Run A
    -- the bound on a loop is used up
    spins : Run A

  abbrev pub Cmd : Type 0 → Type 0
  Cmd A = World → Run A

module _ ⦃env : Env⦄ {A B : Type 0} where
  abbrev pub and_then : Run A → (A → Cmd B) → Run B
  and_then (done a w) k = k a w
  and_then (exits s w) k = exits s w
  and_then panics k = panics
  and_then faults k = faults
  and_then spins k = spins

  infixl 5 ◌>>=◌
  abbrev pub ◌>>=◌ : Cmd A → (A → Cmd B) → Cmd B
  m >>= k = λ w. and_then (m w) k

module _ ⦃env : Env⦄ {B : Type 0} where
  infixl 5 ◌>>◌
  abbrev pub ◌>>◌ : Cmd (Unit {0}) → Cmd B → Cmd B
  m >> k = λ w. and_then (m w) (λ _. k)

module _ ⦃env : Env⦄ where
  abbrev pub pure : {A : Type 0} → A → Cmd A
  pure a = λ w. done a w

  abbrev pub gets : {A : Type 0} → (World → A) → Cmd A
  gets f = λ w. done (f w) w
