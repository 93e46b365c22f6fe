-- ===== src/Intercept/Lines/Line.antt =====
-- pdwfs.c, `getdelim` of a managed stream where a whole line is left.
use pdwfs.Base.{
  ℕ, suc, ◌+◌, ◌^◌, ◌<◌, ◌≤◌, ◌≡◌, refl, ap, sym, subst, ◌∙◌, ◌≢◌, ◌⊎◌, true, false, ◌&&◌, none,
  some, [], ◌∷◌, ◌++◌, Bytes, length, arith, ◌==◌, if◌then◌else◌, inl, inr,
}
use pdwfs.Base.Int.{ℤ, pos}
use pdwfs.Machine.{World, Run, done}
use pdwfs.Machine.Host.{Env}
use pdwfs.Machine.Access.{load}
use pdwfs.Registers.{stream_not_managed, fd_not_managed}
use pdwfs.Intercept.Guards.{on_stream}
use pdwfs.Intercept.Lines.{
  Block, getdelim_loop, start_block, getdelim_on, set_cells, getdelim, bufsiz_default,
}
use pdwfs.Intercept.Lines.Stored.{Roomy, Kept}
use pdwfs.Intercept.Lines.Reads.{IsLine, Feeds, Stores, loop-Stores}

module _ ⦃env : Env⦄ where
  -- `*buf` and `*bufsiz`, as `getdelim` reads them.
  abbrev pub own_block : ℕ → ℕ → World → Block
  own_block buf bufsiz w = record {
    start = w.machine.words buf;
    size = w.machine.words bufsiz;
    room = w.machine.words bufsiz;
    on_heap = true;
  }

  module _ (stream : ℕ) (grows : (p n : ℕ) (s : env.Sys) → (env.libc.realloc p n s).0 ≢ 0)
      (keeps : (p n : ℕ) (s : env.Sys)
        → env.libc.fileno (env.libc.realloc p n s).1 stream ≡ env.libc.fileno s stream)
      (allocates : (n : ℕ) (s : env.Sys) → (env.libc.malloc n s).0 ≢ 0)
      (preserves : (n : ℕ) (s : env.Sys)
        → env.libc.fileno (env.libc.malloc n s).1 stream ≡ env.libc.fileno s stream)
      (c : ℕ) (ascii : c < 128) where
    pub start_block-Roomy :
        (b : Block) (w : World)
        → b.room ≡ b.size
        → b.on_heap ≡ true
        → (b.start ≡ 0) ⊎ ((b.start ≢ 0) × (2 ≤ b.size))
        → (b' : Block) × (w' : World) × (start_block b w ≡ done (some b') w')
          × Roomy b' 0
          × Kept stream w w'
    unfolding start_block stream_not_managed fd_not_managed
    start_block-Roomy b w r h (inl z) =
        let some_block : ((env.libc.malloc bufsiz_default w.machine.sys).0 == 0) ≡ false =
          ground (arith, allocates bufsiz_default w.machine.sys) in
        let k = preserves bufsiz_default w.machine.sys in
        let w1 = record w {
          machine = record w.machine { sys = (env.libc.malloc bufsiz_default w.machine.sys).1 };
        } in
        (
          record {
            start = (env.libc.malloc bufsiz_default w.machine.sys).0;
            size = bufsiz_default;
            room = bufsiz_default;
            on_heap = true;
          },
          w1,
          simp (z, some_block),
          record { room = refl; on_heap = refl; fits = omega arith },
          record {
            managed =
                ap
                  (λ fd.
                    if w.initialized && (stream == 0) then none else some (fd_not_managed fd w1))
                  k;
            descriptor = k;
            go = refl;
            pointers = refl;
          },
        )
    start_block-Roomy b w r h (inr (ne, l)) =
        let some_block : (b.start == 0) ≡ false = ground arith in
        let some_size : (b.size == 0) ≡ false = ground arith in
        (
          b,
          w,
          simp (some_block, some_size),
          record { room = r; on_heap = h; fits = l },
          record { managed = refl; descriptor = refl; go = refl; pointers = refl },
        )

    whole_line :
        (line : Bytes) (g : env.Go) (run : Run (ℤ × Block))
        → Stores [] 0 c line g run
        → (b : Block) × (w : World) × (run ≡ done (pos (suc (length line)), b) w)
          × (load w.machine.mem b.start (suc (suc (length line))) ≡ line ++ c ∷ 0 ∷ [])
          × (suc (suc (length line)) ≤ b.size)
          × (w.go ≡ g)
    whole_line line g run (b, w, e, l, s, k) =
        let z : 0 + length line ≡ length line = omega arith in
        (
          b,
          w,
          e ∙ ap (λ n. done (pos (suc n), b) w) z,
          ap (λ n. load w.machine.mem b.start (suc (suc n))) (sym z) ∙ l,
          omega arith,
          k,
        )

    pub getdelim_on-start :
        (rounds : ℕ) (b b1 : Block) (w w1 : World)
        → start_block b w ≡ done (some b1) w1
        → getdelim_on rounds (pos c) stream b w ≡ getdelim_loop rounds (pos c) stream b1 0 w1
    unfolding getdelim_on
    getdelim_on-start rounds b b1 w w1 e = simp e

    -- What `getdelim` leaves where the loop gave the count `n` and the block `b`.
    pub delivers :
        (rounds buf bufsiz : ℕ) (n : ℤ) (w w2 : World) (b : Block)
        → stream_not_managed stream w ≡ some false
        → buf ≢ bufsiz
        → getdelim_on rounds (pos c) stream (own_block buf bufsiz w) w ≡ done (n, b) w2
        → (w' : World) × (getdelim rounds buf bufsiz (pos c) stream w ≡ done n w')
          × (w'.machine.words buf ≡ b.start)
          × (w'.machine.words bufsiz ≡ b.size)
          × (w'.machine.mem ≡ w2.machine.mem)
          × (w'.go ≡ w2.go)
    unfolding getdelim set_cells on_stream
    delivers rounds buf bufsiz n w w2 b h ne e = (
      record w2 {
        machine = record w2.machine {
          words =
              λ q. if q == bufsiz then b.size else if q == buf then b.start else w2.machine.words q;
        };
      },
      simp (h, e),
      ground arith,
      ground arith,
      refl,
      refl,
    )

    -- Where the file goes on with a line of ASCII bytes and its delimiter, `getdelim` returns the length of
    -- the line, the delimiter counted, and `*buf` holds the line, the delimiter and a NUL, within the
    -- `*bufsiz` bytes of the buffer, whether it was NULL or what malloc returned for two bytes or more,
    -- and however often it had to grow; the file is read up to the delimiter and no further. It takes one
    -- round for each byte read, where allocation succeeds and does not touch the descriptor of the stream.
    pub getdelim-line :
        (rounds buf bufsiz : ℕ) (line : Bytes) (w : World) (g : env.Go)
        → stream_not_managed stream w ≡ some false
        → buf ≢ bufsiz
        → (w.machine.words buf ≡ 0) ⊎ ((w.machine.words buf ≢ 0) × (2 ≤ w.machine.words bufsiz))
        → IsLine c line
        → length line < rounds
        → length line < 2 ^ 61
        → Feeds (env.libc.fileno w.machine.sys stream) (line ++ c ∷ []) w.go g
        → (w' : World) × (getdelim rounds buf bufsiz (pos c) stream w
            ≡ done (pos (suc (length line))) w')
          × (load w'.machine.mem (w'.machine.words buf) (suc (suc (length line)))
              ≡ line ++ c ∷ 0 ∷ [])
          × (suc (suc (length line)) ≤ w'.machine.words bufsiz)
          × (w'.go ≡ g)
    unfolding load
    getdelim-line rounds buf bufsiz line w g h ne usable i l s f =
        let (b1, w1, e, r, kept) = start_block-Roomy (own_block buf bufsiz w) w refl refl usable in
        let feed = subst (λ fd. Feeds fd (line ++ c ∷ []) w.go g) (sym kept.descriptor) f in
        let feed' =
          subst (λ g0. Feeds (env.libc.fileno w1.machine.sys stream) (line ++ c ∷ []) g0 g)
            (sym kept.go) feed in
        let (b2, w2, k, stored, fits, gone) = whole_line line g _ (
          loop-Stores stream grows keeps c ascii line rounds b1 0 w1 g (kept.managed ∙ h) i l
            (omega arith) r feed') in
        let (w', run, at, size, mem, same) =
          delivers rounds buf bufsiz _ w w2 b2 h ne (getdelim_on-start rounds _ b1 w w1 e ∙ k) in
        (
          w',
          run,
          ap (λ m. load m (w'.machine.words buf) (suc (suc (length line)))) mem
              ∙ (ap (λ p. load w2.machine.mem p (suc (suc (length line)))) at ∙ stored),
          subst (λ n. suc (suc (length line)) ≤ n) (sym size) fits,
          same ∙ gone,
        )
