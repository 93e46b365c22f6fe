-- ===== src/Intercept/Lines/Fixed.antt =====
-- pdwfs.c, the loop of `getdelim` in a buffer that is not reallocated.
use mathlib.Core.List.{append_assoc}
use pdwfs.Base.{
  some, ℕ, zero, suc, ◌+◌, ◌<◌, ◌≤◌, ◌≡◌, refl, ap, sym, ◌∙◌, ◌≢◌, true, false, [], ◌∷◌, ◌++◌,
  Bytes, length, arith, ◌==◌, leb,
}
use pdwfs.Base.Int.{ℤ, pos}
use pdwfs.Machine.{World, Run, done, faults}
use pdwfs.Machine.Host.{Env, returned}
use pdwfs.Machine.Access.{load, poke}
use pdwfs.Registers.{stream_not_managed}
use pdwfs.Intercept.Lines.{Block, enlarge, keep_byte, getdelim_loop}
use pdwfs.Intercept.Lines.Memory.{load-poke_last, load-poke_behind}
use pdwfs.Intercept.Lines.Stored.{stored}
use pdwfs.Intercept.Lines.Reads.{IsLine, Feeds, byte_read}

module _ ⦃env : Env⦄ where
  -- The state after a round that stored the byte `x`.
  abbrev pub after_byte : Block → ℕ → ℕ → env.Go → World → World
  after_byte b d x g w = record w {
    machine = record w.machine { mem = poke w.machine.mem (b.start + d) x };
    go = g;
  }

  module _ (stream c : ℕ) (ascii : c < 128) where
    pub round_room :
        (rounds : ℕ) (b : Block) (d x : ℕ) (w : World) (g : env.Go)
        → stream_not_managed stream w ≡ some false
        → x < 128
        → x ≢ c
        → env.go_layer.read (env.libc.fileno w.machine.sys stream) 1 w.go
          ≡ returned (pos 1, x ∷ []) g
        → d < b.room
        → suc d + 2 < b.size
        → getdelim_loop (suc rounds) (pos c) stream b d w
          ≡ getdelim_loop rounds (pos c) stream b (suc d) (after_byte b d x g w)
    unfolding getdelim_loop keep_byte
    round_room rounds b d x w g h s ne e r f =
        let other : (x == c) ≡ false = ground arith in
        let space : leb b.size (suc d + 2) ≡ false = ground arith in
        simp (
          byte_read stream w g x h s e,
          stored b d x (record w { go = g }) r (omega arith),
          other,
          space,
        )

    round_full :
        (rounds : ℕ) (b : Block) (d x : ℕ) (w : World) (g : env.Go)
        → stream_not_managed stream w ≡ some false
        → x < 128
        → x ≢ c
        → env.go_layer.read (env.libc.fileno w.machine.sys stream) 1 w.go
          ≡ returned (pos 1, x ∷ []) g
        → d < b.room
        → b.size ≤ suc d + 2
        → b.on_heap ≡ false
        → getdelim_loop (suc rounds) (pos c) stream b d w ≡ faults
    unfolding getdelim_loop keep_byte enlarge
    round_full rounds b d x w g h s ne e r f o =
        let other : (x == c) ≡ false = ground arith in
        let full : leb b.size (suc d + 2) ≡ true = ground arith in
        simp (
          byte_read stream w g x h s e,
          stored b d x (record w { go = g }) r (omega arith),
          other,
          full,
          o,
        )

    round_last :
        (rounds : ℕ) (b : Block) (d : ℕ) (w : World) (g : env.Go)
        → stream_not_managed stream w ≡ some false
        → env.go_layer.read (env.libc.fileno w.machine.sys stream) 1 w.go
          ≡ returned (pos 1, c ∷ []) g
        → suc d < b.room
        → getdelim_loop (suc rounds) (pos c) stream b d w
          ≡ done (pos (suc d), b) (after_byte b (suc d) 0 g (after_byte b d c g w))
    unfolding getdelim_loop keep_byte
    round_last rounds b d w g h e r =
        let same : (c == c) ≡ true = ground arith in
        let w1 = record w { go = g } in
        simp (
          byte_read stream w g c h ascii e,
          stored b d c w1 (omega arith) (omega arith),
          same,
          stored b (suc d) 0 (after_byte b d c g w) r (omega arith),
        )

    -- The line fits, and the buffer stays.
    abbrev pub Fits : Bytes → ℕ → Bytes → Block → env.Go → Run (ℤ × Block) → Type 0
    Fits front d line b g run =
        (w' : World) × (run ≡ done (pos (suc (d + length line)), b) w')
        × (load w'.machine.mem b.start (suc (d + length line)) ≡ front ++ (line ++ c ∷ []))
        × (w'.go ≡ g)

    pub loop-Fits :
        (line : Bytes) (rounds : ℕ) (b : Block) (d : ℕ) (w : World) (g : env.Go)
        → stream_not_managed stream w ≡ some false
        → IsLine c line
        → length line < rounds
        → b.size ≤ b.room
        → d + length line + 2 < b.size
        → Feeds (env.libc.fileno w.machine.sys stream) (line ++ c ∷ []) w.go g
        → Fits (load w.machine.mem b.start d) d line b g (getdelim_loop rounds (pos c) stream b d w)
    unfolding getdelim_loop stream_not_managed
    loop-Fits line zero b d w g h i l r s f = absurd (omega arith)
    loop-Fits [] (suc rounds) b d w g h i l r s (g1, e, f) =
        let z : d + 0 ≡ d = omega arith in
        let m1 = poke w.machine.mem (b.start + d) c in
        (
          after_byte b (suc d) 0 g (after_byte b d c g w),
          round_last rounds b d w g h (e ∙ ap (λ k. returned (pos 1, c ∷ []) k) (sym f))
                (omega arith)
              ∙ ap (λ n. done (pos (suc n), b) (after_byte b (suc d) 0 g (after_byte b d c g w)))
                  (sym z),
          ap (λ n. load (poke m1 (b.start + suc d) 0) b.start (suc n)) z
              ∙ load-poke_behind m1 b.start (suc d) (b.start + suc d) 0 (omega arith)
              ∙ load-poke_last w.machine.mem b.start d c,
          refl,
        )
    loop-Fits (x ∷ line) (suc rounds) b d w g h (small, other, i) l r s (g1, e, f) =
        let w1 = after_byte b d x g1 w in
        let count : suc d + length line ≡ d + length (x ∷ line) = omega arith in
        let (w2, k, stores, gone) =
          loop-Fits line rounds b (suc d) w1 g h i (omega arith) r (omega arith) f in
        (
          w2,
          round_room rounds b d x w g1 h small other e (omega arith) (omega arith)
              ∙ k
              ∙ ap (λ n. done (pos (suc n), b) w2) count,
          ap (λ n. load w2.machine.mem b.start (suc n)) (sym count)
              ∙ stores
              ∙ ap (λ t. t ++ (line ++ c ∷ [])) (load-poke_last w.machine.mem b.start d x)
              ∙ append_assoc (load w.machine.mem b.start d) (x ∷ []) (line ++ c ∷ []),
          gone,
        )

    -- A line that does not fit makes the loop reallocate the buffer.
    pub loop-faults :
        (line : Bytes) (rounds : ℕ) (b : Block) (d x : ℕ) (w : World) (g : env.Go)
        → stream_not_managed stream w ≡ some false
        → IsLine c (x ∷ line)
        → length line < rounds
        → b.size ≤ b.room
        → b.on_heap ≡ false
        → d + length line + 3 ≡ b.size
        → Feeds (env.libc.fileno w.machine.sys stream) (x ∷ line) w.go g
        → getdelim_loop rounds (pos c) stream b d w ≡ faults
    unfolding getdelim_loop stream_not_managed
    loop-faults line zero b d x w g h i l r o s f = absurd (omega arith)
    loop-faults [] (suc rounds) b d x w g h (small, other, _) l r o s (g1, e, f) =
        round_full rounds b d x w g1 h small other e (omega arith) (omega arith) o
    loop-faults (y ∷ line) (suc rounds) b d x w g h (small, other, i) l r o s (g1, e, f) =
        round_room rounds b d x w g1 h small other e (omega arith) (omega arith)
        ∙ loop-faults line rounds b (suc d) y (after_byte b d x g1 w) g h i (omega arith) r o
            (omega arith) f
