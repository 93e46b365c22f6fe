-- ===== src/Libc/Cache.antt =====
-- libc.c, calls through the table of `ptr_*` variables.
use pdwfs.Base.{
  ℕ, ◌≡◌, refl, ap, ◌∙◌, ◌≢◌, ◌⊎◌, inl, inr, Bool, true, false, List, arith, ◌==◌, if◌then◌else◌,
  Bool-cases,
}
use pdwfs.Base.Int.{ℤ, pos}
use pdwfs.Machine.{World, done, exits}
use pdwfs.Machine.Symbol.{Symbol, symbol_id}
use pdwfs.Machine.Host.{Env, Arg}
use pdwfs.Libc.{load_symbol, call_next}

module _ ⦃env : Env⦄ where
  -- The variable of this symbol is NULL, or holds what `dlsym` gives.
  abbrev pub IsCached : Symbol → World → Type 0
  IsCached s w = (w.pointers (symbol_id s) ≡ 0) ⊎ (w.pointers (symbol_id s) ≡ (env.libc.dlsym s).0)

  -- The state after a call of the function at `p` through the variable of `s`.
  abbrev pub called : Symbol → ℕ → List Arg → World → World
  called s p args w = record w {
    pointers = λ i. if i == symbol_id s then p else w.pointers i;
    machine = (env.libc.invoke p args w.machine).1;
  }

  -- With its variable NULL or right, a call of a function that `dlsym` finds is a call at the address
  -- that `dlsym` gives: it returns what the function returns, in the state that the function leaves,
  -- and its variable holds the address, those of all other symbols what they held.
  pub call_next-invoke :
      (s : Symbol) (args : List Arg) (w : World) (p : ℕ)
      → env.libc.dlsym s ≡ (p, false)
      → p ≢ 0
      → IsCached s w
      → (w' : World) × (call_next s args w ≡ done (env.libc.invoke p args w.machine).0 w')
        × (w'.machine ≡ (env.libc.invoke p args w.machine).1)
        × (w'.pointers (symbol_id s) ≡ p)
        × ((i : ℕ) → i ≢ symbol_id s → w'.pointers i ≡ w.pointers i)
        × (w'.fd_register ≡ w.fd_register)
        × (w'.go ≡ w.go)
  unfolding call_next load_symbol
  call_next-invoke s args w p e ne (inl z) =
      let some_function : (p == 0) ≡ false = ground arith in
      (
        called s p args w,
        simp (z, e, some_function),
        refl,
        ground arith,
        λ i n. ground arith,
        refl,
        refl,
      )
  call_next-invoke s args w p e ne (inr c) =
      let some_function : (p == 0) ≡ false = ground arith in
      let here = c ∙ ap (λ (d : ℕ × Bool). d.0) e in
      (
        record w { machine = (env.libc.invoke p args w.machine).1 },
        simp (here, some_function),
        refl,
        here,
        λ i n. refl,
        refl,
        refl,
      )

  -- A function that `dlsym` does not find ends the process with EXIT_FAILURE.
  pub call_next-exits :
      (s : Symbol) (args : List Arg) (w : World)
      → ((env.libc.dlsym s).1 ≡ true) ⊎ ((env.libc.dlsym s).0 ≡ 0)
      → w.pointers (symbol_id s) ≡ 0
      → (w' : World) × (call_next s args w ≡ exits (pos 1) w') × (w'.machine ≡ w.machine)
  unfolding call_next load_symbol
  call_next-exits s args w f z = (
    record w { pointers = λ i. if i == symbol_id s then (env.libc.dlsym s).0 else w.pointers i },
    elim f [
      | inl failed ↦ simp (z, failed)
      | inr none_found ↦ elim (Bool-cases (env.libc.dlsym s).1) [
        | inl failed ↦ simp (z, failed)
        | inr passed ↦ simp (z, passed, none_found)
      ]
    ],
    refl,
  )

  pub call_next-registers :
      (s : Symbol) (args : List Arg) (w w' : World) (r : ℤ)
      → call_next s args w ≡ done r w'
      → (w'.fd_register ≡ w.fd_register)
        × (w'.mount_register ≡ w.mount_register)
        × (w'.go ≡ w.go)
        × (w'.initialized ≡ w.initialized)
  unfolding call_next load_symbol
  call_next-registers s args w w' r e = ground arith
