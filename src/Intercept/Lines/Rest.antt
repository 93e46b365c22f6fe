-- ===== src/Intercept/Lines/Rest.antt =====
-- pdwfs.c, `getdelim` of a managed stream where no delimiter is left.
use pdwfs.Base.{
  some, ℕ, ◌+◌, ◌^◌, ◌<◌, ◌≤◌, ◌≡◌, refl, ap, sym, subst, ◌∙◌, ◌≢◌, ◌⊎◌, false, true, [], ◌∷◌,
  Bytes, length, arith,
}
use pdwfs.Base.Int.{pos}
use pdwfs.Machine.{World, done}
use pdwfs.Machine.Symbol.{Symbol}
use pdwfs.Machine.Host.{Env, Arg, Machine, returned}
use pdwfs.Machine.Access.{load}
use pdwfs.Libc.Cache.{IsCached}
use pdwfs.Registers.{stream_not_managed}
use pdwfs.Intercept.Lines.{getdelim}
use pdwfs.Intercept.Lines.Reads.{IsLine, Feeds}
use pdwfs.Intercept.Lines.Line.{own_block, start_block-Roomy, getdelim_on-start, delivers}
use pdwfs.Intercept.Lines.Last.{count_or_end, loop-Ends, still-IsCached}

module _ ⦃env : Env⦄ where
  -- Where nothing but ASCII bytes other than the delimiter is left of the file, `getdelim` returns their
  -- number, or -1 if there are none, and they stand at `*buf`, which was NULL before or what malloc
  -- returned for two bytes or more. It reads up to the end of the file, in one round for each byte and one
  -- more, where allocation succeeds and does not touch the descriptor of the stream, and where `feof` of
  -- libc tells the end-of-file indicator of the stream and changes nothing.
  pub getdelim-rest :
      (stream p : ℕ) (found : env.libc.dlsym Symbol.feof ≡ (p, false)) (some_function : p ≢ 0)
      (tells : (m : Machine env.Sys)
        → (m.flags stream).eof_seen ≡ true
        → (env.libc.invoke p (Arg.ptr stream ∷ []) m).0 ≢ pos 0)
      (leaves : (m : Machine env.Sys) → (env.libc.invoke p (Arg.ptr stream ∷ []) m).1 ≡ m)
      (grows : (q n : ℕ) (s : env.Sys) → (env.libc.realloc q n s).0 ≢ 0)
      (keeps : (q n : ℕ) (s : env.Sys)
        → env.libc.fileno (env.libc.realloc q n s).1 stream ≡ env.libc.fileno s stream)
      (allocates : (n : ℕ) (s : env.Sys) → (env.libc.malloc n s).0 ≢ 0)
      (preserves : (n : ℕ) (s : env.Sys)
        → env.libc.fileno (env.libc.malloc n s).1 stream ≡ env.libc.fileno s stream)
      (c : ℕ) (ascii : c < 128) (rounds buf bufsiz : ℕ) (line : Bytes) (w : World) (g1 g : env.Go)
      (bs : Bytes)
      → stream_not_managed stream w ≡ some false
      → IsCached Symbol.feof w
      → buf ≢ bufsiz
      → (w.machine.words buf ≡ 0) ⊎ ((w.machine.words buf ≢ 0) × (2 ≤ w.machine.words bufsiz))
      → IsLine c line
      → length line < rounds
      → length line < 2 ^ 61
      → Feeds (env.libc.fileno w.machine.sys stream) line w.go g1
      → env.go_layer.read (env.libc.fileno w.machine.sys stream) 1 g1 ≡ returned (pos 0, bs) g
      → (w' : World) × (getdelim rounds buf bufsiz (pos c) stream w
          ≡ done (count_or_end (length line)) w')
        × (load w'.machine.mem (w'.machine.words buf) (length line) ≡ line)
        × (w'.go ≡ g)
  unfolding load
  getdelim-rest stream p found some_function tells leaves grows keeps allocates preserves c ascii
        rounds buf bufsiz line w g1 g bs h cached ne usable i l s f e =
      let (b1, w1, st, r, kept) =
        start_block-Roomy stream grows keeps allocates preserves c ascii (own_block buf bufsiz w) w
          refl refl usable in
      let feed = subst (λ fd. Feeds fd line w.go g1) (sym kept.descriptor) f in
      let feed' =
        subst (λ g0. Feeds (env.libc.fileno w1.machine.sys stream) line g0 g1) (sym kept.go) feed in
      let e' = ap (λ fd. env.go_layer.read fd 1 g1) kept.descriptor ∙ e in
      let cached' =
        still-IsCached stream p found some_function tells leaves w w1 kept.pointers cached in
      let (b2, w2, k, stored, gone) =
        loop-Ends stream p found some_function tells leaves grows keeps c line rounds b1 0 w1 g1 g
          bs (kept.managed ∙ h) cached' i l (omega arith) r feed' e' in
      let (w', run, at, size, mem, same) =
        delivers stream grows keeps allocates preserves c ascii rounds buf bufsiz _ w w2 b2 h ne (
          getdelim_on-start stream grows keeps allocates preserves c ascii rounds _ b1 w w1 st
          ∙ k) in
      let z : 0 + length line ≡ length line = omega arith in
      (
        w',
        run ∙ ap (λ n. done (count_or_end n) w') z,
        ap (λ m. load m (w'.machine.words buf) (length line)) mem
            ∙ ap (λ q. load w2.machine.mem q (length line)) at
            ∙ ap (λ n. load w2.machine.mem b2.start n) (sym z)
            ∙ stored,
        same ∙ gone,
      )
