-- ===== src/Intercept/Lines/LentRest.antt =====
-- pdwfs.c, `fgets` of a managed stream where no newline is left.
use mathlib.Core.List.{append_assoc, append-nil}
use pdwfs.Base.{
  some, ℕ, zero, suc, ◌+◌, ◌^◌, ◌<◌, ◌≡◌, refl, ap, sym, ◌∙◌, ◌≢◌, false, true, [], ◌∷◌, ◌++◌,
  Bytes, length, arith,
}
use pdwfs.Base.Int.{ℤ, pos}
use pdwfs.Machine.{World, Run, done, and_then}
use pdwfs.Machine.Symbol.{Symbol}
use pdwfs.Machine.Host.{Env, Arg, Machine, returned}
use pdwfs.Machine.Access.{load, poke}
use pdwfs.Libc.Cache.{IsCached}
use pdwfs.Registers.{stream_not_managed}
use pdwfs.Intercept.Lines.{Block, getdelim_loop, fgets}
use pdwfs.Intercept.Lines.Memory.{load-poke_last}
use pdwfs.Intercept.Lines.Reads.{IsLine, Feeds}
use pdwfs.Intercept.Lines.Fixed.{round_room, after_byte}
use pdwfs.Intercept.Lines.Last.{count_or_end, loop-end}
use pdwfs.Intercept.Lines.Lent.{lent, finish, fgets-finish, finish-end, finish-none}

-- NULL if nothing was left.
abbrev pub result : ℕ → Bytes → ℤ
result dst [] = pos 0
result dst (x ∷ line) = pos dst

count-suc : (n : ℕ) → count_or_end (0 + suc n) ≡ pos (suc n)
count-suc n = let z : 0 + suc n ≡ suc n = omega arith in ap count_or_end z ∙ ground arith

module _ ⦃env : Env⦄ where
  -- What `fgets` makes of the count.
  finished :
      (dst max : ℕ) (line : Bytes) (w1 : World) (run : Run (ℤ × Block))
      → length line + 3 < max
      → run ≡ done (count_or_end (0 + length line), lent dst max) w1
      → load w1.machine.mem dst (0 + length line) ≡ line
      → (w' : World) × (and_then run finish ≡ done (result dst line) w')
        × (line ≢ [] → load w'.machine.mem dst (suc (length line)) ≡ line ++ 0 ∷ [])
        × (w'.go ≡ w1.go)
  finished dst max [] w1 run s e l = (
    w1,
    ap (λ r. and_then r finish) e ∙ finish-none (lent dst max) w1,
    λ ne. absurd (ne refl),
    refl,
  )
  finished dst max (x ∷ line) w1 run s e l =
      let n = length line in
      let z : 0 + suc n ≡ suc n = omega arith in
      (
        record w1 { machine = record w1.machine { mem = poke w1.machine.mem (dst + suc n) 0 } },
        ap (λ r. and_then r finish) (e ∙ ap (λ i. done (i, lent dst max) w1) (count-suc n))
            ∙ finish-end (lent dst max) n w1 (omega arith),
        λ ne.
            load-poke_last w1.machine.mem dst (suc n) 0
            ∙ ap (λ t. t ++ 0 ∷ []) (ap (λ k. load w1.machine.mem dst k) (sym z) ∙ l),
        refl,
      )

  module _ (stream p : ℕ) (found : env.libc.dlsym Symbol.feof ≡ (p, false)) (some_function : p ≢ 0)
      (tells : (m : Machine env.Sys)
        → (m.flags stream).eof_seen ≡ true
        → (env.libc.invoke p (Arg.ptr stream ∷ []) m).0 ≢ pos 0)
      (leaves : (m : Machine env.Sys) → (env.libc.invoke p (Arg.ptr stream ∷ []) m).1 ≡ m) where
    abbrev Left : Bytes → ℕ → Bytes → Block → env.Go → Run (ℤ × Block) → Type 0
    Left front d line b g run =
        (w' : World) × (run ≡ done (count_or_end (d + length line), b) w')
        × (load w'.machine.mem b.start (d + length line) ≡ front ++ line)
        × (w'.go ≡ g)

    loop-Left :
        (line : Bytes) (rounds : ℕ) (b : Block) (d : ℕ) (w : World) (g1 g : env.Go) (bs : Bytes)
        → stream_not_managed stream w ≡ some false
        → IsCached Symbol.feof w
        → IsLine 10 line
        → length line < rounds
        → b.size < b.room
        → d + length line + 2 < b.size
        → Feeds (env.libc.fileno w.machine.sys stream) line w.go g1
        → env.go_layer.read (env.libc.fileno w.machine.sys stream) 1 g1 ≡ returned (pos 0, bs) g
        → Left
            (load w.machine.mem b.start d)
            d
            line
            b
            g
            (getdelim_loop rounds (pos 10) stream b d w)
    unfolding getdelim_loop stream_not_managed
    loop-Left line zero b d w g1 g bs h c i l r s f e = absurd (omega arith)
    loop-Left [] (suc rounds) b d w g1 g bs h c i l r s f e =
        let fd = env.libc.fileno w.machine.sys stream in
        let here = ap (λ k. env.go_layer.read fd 1 k) (sym f) ∙ e in
        let (w', run, m, gone) =
          loop-end stream p found some_function tells leaves rounds (pos 10) b d w g bs h c here in
        let z : d + 0 ≡ d = omega arith in
        (
          w',
          run ∙ ap (λ n. done (count_or_end n, b) w') (sym z),
          ap (λ a. load a b.start (d + 0)) m
              ∙ ap (λ n. load w.machine.mem b.start n) z
              ∙ sym (append-nil (load w.machine.mem b.start d)),
          gone,
        )
    loop-Left (x ∷ line) (suc rounds) b d w g1 g bs h c (small, other, i) l r s (g0, k, f) e =
        let w1 = after_byte b d x g0 w in
        let count : suc d + length line ≡ d + length (x ∷ line) = omega arith in
        let (w2, run, left, gone) =
          loop-Left line rounds b (suc d) w1 g1 g bs h c i (omega arith) r (omega arith) f e in
        (
          w2,
          round_room stream 10 (omega arith) rounds b d x w g0 h small other k (omega arith)
                (omega arith)
              ∙ run
              ∙ ap (λ n. done (count_or_end n, b) w2) count,
          ap (λ n. load w2.machine.mem b.start n) (sym count)
              ∙ left
              ∙ ap (λ t. t ++ line) (load-poke_last w.machine.mem b.start d x)
              ∙ append_assoc (load w.machine.mem b.start d) (x ∷ []) line,
          gone,
        )

    -- Where the rest of the file is ASCII bytes without a newline, some or none, that leave at least three
    -- bytes of the buffer free, `fgets` returns NULL if there are none; if there are some, it stores them
    -- and a NUL, and returns the buffer. It reads up to the end of the file, where `feof` of libc tells
    -- the end-of-file indicator of the stream and changes nothing.
    pub fgets-rest :
        (rounds dst max : ℕ) (line : Bytes) (w : World) (g1 g : env.Go) (bs : Bytes)
        → stream_not_managed stream w ≡ some false
        → IsCached Symbol.feof w
        → dst ≢ 0
        → max < 2 ^ 31
        → IsLine 10 line
        → length line + 3 < max
        → length line < rounds
        → Feeds (env.libc.fileno w.machine.sys stream) line w.go g1
        → env.go_layer.read (env.libc.fileno w.machine.sys stream) 1 g1 ≡ returned (pos 0, bs) g
        → (w' : World) × (fgets rounds dst (pos max) stream w ≡ done (result dst line) w')
          × (line ≢ [] → load w'.machine.mem dst (suc (length line)) ≡ line ++ 0 ∷ [])
          × (w'.go ≡ g)
    unfolding load
    fgets-rest rounds dst max line w g1 g bs h c ne u i s r f e =
        let (w1, run, left, gone) =
          loop-Left line rounds (lent dst max) 0 w g1 g bs h c i r (omega arith) (omega arith) f
            e in
        let (w', ends, stores, same) = finished dst max line w1 _ s run left in
        (w', fgets-finish rounds dst max stream w h ne (omega arith) u ∙ ends, stores, same ∙ gone)
