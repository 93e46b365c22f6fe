-- ===== src/Intercept/Lines/Reads.antt =====
-- pdwfs.c, `getdelim` on a managed stream: what it reads and stores up to the delimiter.
use mathlib.Core.List.{append_assoc}
use pdwfs.Base.{
  some, ℕ, zero, suc, ◌+◌, ◌^◌, ◌<◌, ◌≤◌, ◌≡◌, refl, ap, sym, subst, ◌∙◌, ◌≢◌, true, false, [], ◌∷◌,
  ◌++◌, Bytes, length, arith, ◌==◌,
}
use pdwfs.Base.Int.{ℤ, pos}
use pdwfs.Machine.{World, Run, done}
use pdwfs.Machine.Host.{Env, returned}
use pdwfs.Machine.Access.{load, poke}
use pdwfs.Registers.{stream_not_managed}
use pdwfs.Intercept.Streams.{fgetc}
use pdwfs.Intercept.Indicators.{fgetc-byte}
use pdwfs.Intercept.Lines.{Block, keep_byte, getdelim_loop}
use pdwfs.Intercept.Lines.Memory.{load-poke_last}
use pdwfs.Intercept.Lines.Stored.{Roomy, Roomy-inside, Roomy-inside_suc, stored, keep_byte-goes_on}

-- ASCII bytes, none of which is the delimiter.
abbrev pub IsLine : ℕ → Bytes → Type 0
IsLine c [] = Unit
IsLine c (x ∷ xs) = (x < 128) × (x ≢ c) × IsLine c xs

module _ ⦃env : Env⦄ where
  -- Asked for one byte at a time, the Go layer reads these bytes from the file of a descriptor.
  abbrev pub Feeds : ℤ → Bytes → env.Go → env.Go → Type 0
  Feeds fd [] g g' = g' ≡ g
  Feeds fd (b ∷ bs) g g' =
      (g1 : env.Go) × (env.go_layer.read fd 1 g ≡ returned (pos 1, b ∷ []) g1) × Feeds fd bs g1 g'

  pub byte_read :
      (stream : ℕ) (w : World) (g : env.Go) (b : ℕ)
      → stream_not_managed stream w ≡ some false
      → b < 128
      → env.go_layer.read (env.libc.fileno w.machine.sys stream) 1 w.go ≡ returned (pos 1, b ∷ []) g
      → fgetc stream w ≡ done (pos b) (record w { go = g })
  byte_read stream w g b h l e =
      let (r, f, small, _) = fgetc-byte stream w g b h e in
      f ∙ ap (λ i. done i (record w { go = g })) (small l)

  -- The result of the loop: the line is stored behind what was there, then the delimiter and a NUL.
  abbrev pub Stores : Bytes → ℕ → ℕ → Bytes → env.Go → Run (ℤ × Block) → Type 0
  Stores front d c line g run =
      (b' : Block) × (w' : World) × (run ≡ done (pos (suc (d + length line)), b') w')
      × (load w'.machine.mem b'.start (suc (suc (d + length line))) ≡ front ++ (line ++ c ∷ 0 ∷ []))
      × (suc (suc (d + length line)) ≤ b'.size)
      × (w'.go ≡ g)

  module _ (stream : ℕ) (grows : (p n : ℕ) (s : env.Sys) → (env.libc.realloc p n s).0 ≢ 0)
      (keeps : (p n : ℕ) (s : env.Sys)
        → env.libc.fileno (env.libc.realloc p n s).1 stream ≡ env.libc.fileno s stream)
      (c : ℕ) (ascii : c < 128) where
    ends :
        (rounds : ℕ) (b : Block) (d : ℕ) (w : World) (g : env.Go)
        → stream_not_managed stream w ≡ some false
        → Roomy b d
        → env.go_layer.read (env.libc.fileno w.machine.sys stream) 1 w.go
          ≡ returned (pos 1, c ∷ []) g
        → Stores
            (load w.machine.mem b.start d)
            d
            c
            []
            g
            (getdelim_loop (suc rounds) (pos c) stream b d w)
    unfolding getdelim_loop keep_byte
    ends rounds b d w g h r e =
        let w1 = record w { go = g } in
        let m1 = poke w.machine.mem (b.start + d) c in
        let w2 = record w1 { machine = record w.machine { mem = m1 } } in
        let plus_zero : d + 0 ≡ d = omega arith in
        let same : (c == c) ≡ true = ground arith in
        (
          b,
          record w2 { machine = record w.machine { mem = poke m1 (b.start + suc d) 0 } },
          simp (
            byte_read stream w g c h ascii e,
            stored b d c w1 (Roomy-inside b d r) (omega arith),
            same,
            stored b (suc d) 0 w2 (Roomy-inside_suc b d r) (omega arith),
            plus_zero,
          ),
          rw plus_zero (
              load-poke_last m1 b.start (suc d) 0
              ∙ rw (load-poke_last w.machine.mem b.start d c)
                  (append_assoc (load w.machine.mem b.start d) (c ∷ []) (0 ∷ []))),
          (let fits = r.fits in omega arith),
          refl,
        )

    moved_on :
        (front line : Bytes) (x d : ℕ) (g : env.Go) (front' : Bytes) (run run' : Run (ℤ × Block))
        → front' ≡ front ++ x ∷ []
        → run ≡ run'
        → Stores front' (suc d) c line g run'
        → Stores front d c (x ∷ line) g run
    moved_on front line x d g front' run run' f e (b, w, r, l, s, k) =
        let count : suc (suc d + length line) ≡ suc (d + length (x ∷ line)) = omega arith in
        (
          b,
          w,
          e ∙ r ∙ ap (λ n. done (pos n, b) w) count,
          ap (λ n. load w.machine.mem b.start (suc n)) (sym count)
              ∙ l
              ∙ ap (λ t. t ++ (line ++ c ∷ 0 ∷ [])) f
              ∙ append_assoc front (x ∷ []) (line ++ c ∷ 0 ∷ []),
          omega arith,
          k,
        )

    pub loop-Stores :
        (line : Bytes) (rounds : ℕ) (b : Block) (d : ℕ) (w : World) (g : env.Go)
        → stream_not_managed stream w ≡ some false
        → IsLine c line
        → length line < rounds
        → d + length line < 2 ^ 61
        → Roomy b d
        → Feeds (env.libc.fileno w.machine.sys stream) (line ++ c ∷ []) w.go g
        → Stores
            (load w.machine.mem b.start d)
            d
            c
            line
            g
            (getdelim_loop rounds (pos c) stream b d w)
    unfolding getdelim_loop stream_not_managed
    loop-Stores line zero b d w g h i l s r f = absurd (omega arith)
    loop-Stores [] (suc rounds) b d w g h i l s r (g1, e, f) =
        ends rounds b d w g h r (e ∙ ap (λ k. returned (pos 1, c ∷ []) k) (sym f))
    loop-Stores (x ∷ line) (suc rounds) b d w g h (small, other, i) l s r (g1, e, f) =
        let w1 = record w { go = g1 } in
        let next = λ (b' : Block). getdelim_loop rounds (pos c) stream b' (suc d) in
        let (b2, w2, k, r2, kept, stores) =
          keep_byte-goes_on stream grows keeps b d x c w1 next r (omega arith) other
            (omega arith) in
        let feed = subst (λ fd. Feeds fd (line ++ c ∷ []) g1 g) (sym kept.descriptor) f in
        let feed' =
          subst (λ g0. Feeds (env.libc.fileno w2.machine.sys stream) (line ++ c ∷ []) g0 g)
            (sym kept.go) feed in
        let rest =
          loop-Stores line rounds b2 (suc d) w2 g (kept.managed ∙ h) i (omega arith) (omega arith)
            r2 feed' in
        let round : getdelim_loop (suc rounds) (pos c) stream b d w
            ≡ keep_byte (pos c) b d next (pos x) w1 =
          simp (byte_read stream w g1 x h small e) in
        moved_on _ line x d g _ _ _ stores (round ∙ k) rest
