-- ===== src/Intercept/Lines/Last.antt =====
-- pdwfs.c, `getdelim` of a managed stream at the end of a file that does not end with the delimiter.
use mathlib.Core.List.{append_assoc, append-nil}
use pdwfs.Base.{
  some, ℕ, zero, suc, ◌+◌, ◌^◌, ◌<◌, ◌≡◌, ap, sym, subst, ◌∙◌, ◌≢◌, ◌⊎◌, true, false, Bool-cases,
  inl, inr, [], ◌∷◌, ◌++◌, Bytes, length, arith, ◌==◌, if◌then◌else◌,
}
use pdwfs.Base.Int.{ℤ, pos, minus_one, ◌==ℤ◌, ==ℤ_iff}
use pdwfs.Machine.{World, Run, done}
use pdwfs.Machine.Symbol.{Symbol, symbol_id}
use pdwfs.Machine.Host.{Env, Arg, Machine, returned}
use pdwfs.Machine.Access.{load}
use pdwfs.Libc.Cache.{IsCached, call_next-invoke}
use pdwfs.Libc.Streams.{libc_feof}
use pdwfs.Registers.{stream_not_managed}
use pdwfs.Intercept.Through.{feof}
use pdwfs.Intercept.Indicators.{fgetc-end}
use pdwfs.Intercept.Lines.{Block, at_end, keep_byte, getdelim_loop}
use pdwfs.Intercept.Lines.Stored.{Roomy, keep_byte-goes_on}
use pdwfs.Intercept.Lines.Reads.{IsLine, Feeds, byte_read}

-- The count of `n` bytes, and -1 for none.
abbrev pub count_or_end : ℕ → ℤ
count_or_end n = if n == 0 then minus_one else pos n

module _ ⦃env : Env⦄ where
  module _ (stream p : ℕ) (found : env.libc.dlsym Symbol.feof ≡ (p, false)) (some_function : p ≢ 0)
      (tells : (m : Machine env.Sys)
        → (m.flags stream).eof_seen ≡ true
        → (env.libc.invoke p (Arg.ptr stream ∷ []) m).0 ≢ pos 0)
      (leaves : (m : Machine env.Sys) → (env.libc.invoke p (Arg.ptr stream ∷ []) m).1 ≡ m) where
    at_end-done :
        (b : Block) (d : ℕ) (w : World)
        → IsCached Symbol.feof w
        → (w.machine.flags stream).eof_seen ≡ true
        → (w' : World) × (at_end b d stream w ≡ done (count_or_end d, b) w')
          × (w'.machine ≡ w.machine)
          × (w'.go ≡ w.go)
    unfolding at_end feof libc_feof
    at_end-done b d w cached seen =
        let (w', e, m, _, _, _, g) =
          call_next-invoke Symbol.feof (Arg.ptr stream ∷ []) w p found some_function cached in
        let other : ((env.libc.invoke p (Arg.ptr stream ∷ []) w.machine).0 ==ℤ pos 0) ≡ false =
          not_equal _ _ (tells w.machine seen) in
        (w', simp (e, other), m ∙ leaves w.machine, g)
      where
        not_equal : (i j : ℤ) → i ≢ j → (i ==ℤ j) ≡ false
        not_equal i j ne = elim (Bool-cases (i ==ℤ j)) [
          | inl e ↦ absurd (ne ((==ℤ_iff i j).0 e))
          | inr e ↦ e
        ]

    pub still-IsCached :
        (w w' : World) → w'.pointers ≡ w.pointers → IsCached Symbol.feof w → IsCached Symbol.feof w'
    still-IsCached w w' e c =
        let at = symbol_id Symbol.feof in
        subst (λ (q : ℕ → ℕ). (q at ≡ 0) ⊎ (q at ≡ (env.libc.dlsym Symbol.feof).0)) (sym e) c

    -- The file ends here.
    pub loop-end :
        (rounds : ℕ) (delimiter : ℤ) (b : Block) (d : ℕ) (w : World) (g : env.Go) (bs : Bytes)
        → stream_not_managed stream w ≡ some false
        → IsCached Symbol.feof w
        → env.go_layer.read (env.libc.fileno w.machine.sys stream) 1 w.go ≡ returned (pos 0, bs) g
        → (w' : World) × (getdelim_loop (suc rounds) delimiter stream b d w
            ≡ done (count_or_end d, b) w')
          × (w'.machine.mem ≡ w.machine.mem)
          × (w'.go ≡ g)
    unfolding getdelim_loop
    loop-end rounds delimiter b d w g bs h cached e =
        let (w1, f, seen, _, _, _, m, ptrs, gone) = fgetc-end stream w g bs h e in
        let still = still-IsCached w w1 ptrs cached in
        let (w2, k, same, gone') = at_end-done b d w1 still seen in
        let round : getdelim_loop (suc rounds) delimiter stream b d w ≡ at_end b d stream w1 =
          simp f in
        (w2, round ∙ k, ap (λ (x : Machine env.Sys). x.mem) same ∙ m, gone' ∙ gone)

    -- What is left of the file is stored behind what was there.
    abbrev pub Ends : Bytes → ℕ → Bytes → env.Go → Run (ℤ × Block) → Type 0
    Ends front d line g run =
        (b' : Block) × (w' : World) × (run ≡ done (count_or_end (d + length line), b') w')
        × (load w'.machine.mem b'.start (d + length line) ≡ front ++ line)
        × (w'.go ≡ g)

    module _ (grows : (p n : ℕ) (s : env.Sys) → (env.libc.realloc p n s).0 ≢ 0)
        (keeps : (p n : ℕ) (s : env.Sys)
          → env.libc.fileno (env.libc.realloc p n s).1 stream ≡ env.libc.fileno s stream)
        (c : ℕ) where
      pub loop-Ends :
          (line : Bytes) (rounds : ℕ) (b : Block) (d : ℕ) (w : World) (g1 g : env.Go) (bs : Bytes)
          → stream_not_managed stream w ≡ some false
          → IsCached Symbol.feof w
          → IsLine c line
          → length line < rounds
          → d + length line < 2 ^ 61
          → Roomy b d
          → Feeds (env.libc.fileno w.machine.sys stream) line w.go g1
          → env.go_layer.read (env.libc.fileno w.machine.sys stream) 1 g1 ≡ returned (pos 0, bs) g
          → Ends (load w.machine.mem b.start d) d line g (getdelim_loop rounds (pos c) stream b d w)
      unfolding getdelim_loop stream_not_managed
      loop-Ends line zero b d w g1 g bs h cached i l s r f e = absurd (omega arith)
      loop-Ends [] (suc rounds) b d w g1 g bs h cached i l s r f e =
          let fd = env.libc.fileno w.machine.sys stream in
          let here = ap (λ k. env.go_layer.read fd 1 k) (sym f) ∙ e in
          let (w', run, m, gone) = loop-end rounds (pos c) b d w g bs h cached here in
          let z : d + 0 ≡ d = omega arith in
          (
            b,
            w',
            run ∙ ap (λ n. done (count_or_end n, b) w') (sym z),
            ap (λ a. load a b.start (d + 0)) m
                ∙ ap (λ n. load w.machine.mem b.start n) z
                ∙ sym (append-nil (load w.machine.mem b.start d)),
            gone,
          )
      loop-Ends (x ∷ line) (suc rounds) b d w g1 g bs h cached (small, other, i) l s r (g0, k, f)
            e =
          let w1 = record w { go = g0 } in
          let next = λ (b' : Block). getdelim_loop rounds (pos c) stream b' (suc d) in
          let (b2, w2, kb, r2, kept, stores) =
            keep_byte-goes_on stream grows keeps b d x c w1 next r (omega arith) other
              (omega arith) in
          let feed = subst (λ fd. Feeds fd line g0 g1) (sym kept.descriptor) f in
          let feed' =
            subst (λ g'. Feeds (env.libc.fileno w2.machine.sys stream) line g' g1) (sym kept.go)
              feed in
          let e' = ap (λ fd. env.go_layer.read fd 1 g1) kept.descriptor ∙ e in
          let (b3, w3, run, l3, gone) =
            loop-Ends line rounds b2 (suc d) w2 g1 g bs (kept.managed ∙ h)
              (still-IsCached w w2 kept.pointers cached) i (omega arith) (omega arith) r2 feed'
              e' in
          let round : getdelim_loop (suc rounds) (pos c) stream b d w
              ≡ keep_byte (pos c) b d next (pos x) w1 =
            simp (byte_read stream w g0 x h small k) in
          let count : suc d + length line ≡ d + length (x ∷ line) = omega arith in
          (
            b3,
            w3,
            round ∙ kb ∙ run ∙ ap (λ n. done (count_or_end n, b3) w3) count,
            ap (λ n. load w3.machine.mem b3.start n) (sym count)
                ∙ l3
                ∙ ap (λ t. t ++ line) stores
                ∙ append_assoc (load w.machine.mem b.start d) (x ∷ []) line,
            gone,
          )
