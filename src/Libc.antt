-- ===== src/Libc.antt =====
-- libc.c: the way to the next definition of an intercepted function (`CALL_NEXT`). The children
-- hold its wrappers, one for each symbol.
pub mod Cache
pub mod Descriptors
pub mod Paths
pub mod Streams
use pdwfs.Base.{ℕ, Bool, List, ◌==◌, if◌then◌else◌}
use pdwfs.Base.Int.{ℤ, pos}
use pdwfs.Machine.{World, Run, done, exits, Cmd, ◌>>=◌}
use pdwfs.Machine.Host.{Env, Arg, Machine}
use pdwfs.Machine.Symbol.{Symbol, symbol_id}

module _ ⦃env : Env⦄ where
  -- `ptr_symb = dlsym(RTLD_NEXT, "symb")`, and the two exits
  pub load_symbol : Symbol → Cmd ℕ
  load_symbol s w =
      let (p, failed) = env.libc.dlsym s in
      let w' = record w { pointers = λ i. if i == symbol_id s then p else w.pointers i } in
      if failed then exits (pos 1) w' else if p == 0 then exits (pos 1) w' else done p w'

  pub resolve : Symbol → Cmd ℕ
  unfolding load_symbol
  resolve s w = let p = w.pointers (symbol_id s) in if p == 0 then load_symbol s w else done p w

  -- `return ptr_symb(args)`
  pub invoke_at : List Arg → ℕ → Cmd ℤ
  invoke_at args p w =
      let (r, m) = env.libc.invoke p args w.machine in done r (record w { machine = m })

  unfoldable pub call_next : Symbol → List Arg → Cmd ℤ
  unfolding resolve invoke_at
  call_next s args = resolve s >>= invoke_at args
