-- ===== src/Machine/Access.antt =====
-- Elementary steps on the state: memory, `errno`, `stream->_flags`, calls into the Go layer.
use pdwfs.Base.{ℕ, zero, suc, true, List, [], ◌∷◌, Bytes, ◌==◌, if◌then◌else◌}
use pdwfs.Base.Int.{ℤ}
use pdwfs.Machine.{World, Run, done, panics, Cmd}
use pdwfs.Machine.Host.{Env, Mem, Flags, IoVec, GoRun, returned, panicked, GoCall}

-- The `n` bytes at address `p`.
unfoldable pub load : Mem → ℕ → ℕ → Bytes
load m p zero = []
load m p (suc n) = m p ∷ load m (suc p) n

abbrev pub poke : Mem → ℕ → ℕ → Mem
poke m p b = λ q. if q == p then b else m q

-- Stores bytes from address `p` on.
unfoldable pub store : Mem → ℕ → Bytes → Mem
store m p [] = m
store m p (b ∷ bs) = store (poke m p b) (suc p) bs

-- Stores what a vectored read brought into the buffers of its vector.
unfoldable pub store_vec : Mem → List IoVec → List Bytes → Mem
store_vec m [] bss = m
store_vec m (v ∷ iov) [] = m
store_vec m (v ∷ iov) (bs ∷ bss) = store_vec (store m v.base bs) iov bss

module _ ⦃env : Env⦄ where
  unfoldable pub set_errno : ℤ → Cmd (Unit {0})
  set_errno e w = done tt (record w { machine = record w.machine { errno = e } })

  unfoldable pub set_mem : Mem → Cmd (Unit {0})
  set_mem m w = done tt (record w { machine = record w.machine { mem = m } })

  set_flags : ℕ → Flags → Cmd (Unit {0})
  set_flags s f w = done tt (record w {
    machine = record w.machine { flags = λ t. if t == s then f else w.machine.flags t };
  })

  -- stream->_flags |= _IO_ERR_SEEN
  unfoldable pub set_err_seen : ℕ → Cmd (Unit {0})
  unfolding set_flags
  set_err_seen s w = set_flags s (record (w.machine.flags s) { err_seen = true }) w

  -- stream->_flags |= _IO_EOF_SEEN
  unfoldable pub set_eof_seen : ℕ → Cmd (Unit {0})
  unfolding set_flags
  set_eof_seen s w = set_flags s (record (w.machine.flags s) { eof_seen = true }) w

  -- fileno(stream)
  unfoldable pub fileno : ℕ → World → ℤ
  fileno s w = env.libc.fileno w.sys s

  -- errno = GetErrno()
  unfoldable pub take_go_errno : Cmd (Unit {0})
  unfolding set_errno
  take_go_errno w = set_errno (env.go_layer.get_errno w.go) w

module _ ⦃env : Env⦄ {A : Type 0} where
  abbrev after_go : World → GoRun env.Go A → Run A
  after_go w (returned a g) = done a (record w { go = g })
  after_go w panicked = panics

  -- A call of a function that the Go layer exports.
  unfoldable pub go_call : GoCall env.Go A → Cmd A
  go_call f w = after_go w (f w.go)
