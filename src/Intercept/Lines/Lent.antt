-- ===== src/Intercept/Lines/Lent.antt =====
-- pdwfs.c, `fgets` of a managed stream, which lends the buffer of its caller to `getdelim`.
use mathlib.Core.List.{append_assoc}
use pdwfs.Base.{
  some, ℕ, suc, ◌+◌, ◌-◌, ◌^◌, ◌%◌, ◌<◌, ◌≤◌, ◌≡◌, refl, ap, sym, ◌∙◌, ◌≢◌, false, [], ◌∷◌, ◌++◌,
  Bytes, length, arith, ◌==◌, if◌then◌else◌,
}
use pdwfs.Base.Int.{ℤ, minus_one, pos, pos_part}
use pdwfs.Machine.{World, done, faults, Cmd, and_then, ◌>>◌, pure}
use pdwfs.Machine.Host.{Env}
use pdwfs.Machine.Access.{load, poke}
use pdwfs.Registers.{stream_not_managed}
use pdwfs.Intercept.Guards.{on_stream}
use pdwfs.Intercept.Streams.{not_positive}
use pdwfs.Intercept.Lines.{Block, put_at, getdelim_loop, start_block, getdelim_on, fgets_on, fgets}
use pdwfs.Intercept.Lines.Memory.{load-poke_last}
use pdwfs.Intercept.Lines.Stored.{stored}
use pdwfs.Intercept.Lines.Reads.{IsLine, Feeds}
use pdwfs.Intercept.Lines.Fixed.{loop-Fits, loop-faults}

-- The buffer of the caller, as it is passed to `getdelim`.
abbrev pub lent : ℕ → ℕ → Block
lent dst max = record { start = dst; size = max - 1; room = max; on_heap = false }

module _ ⦃env : Env⦄ where
  pub finish : ℤ × Block → Cmd ℤ
  finish (count, b) =
      if not_positive count
      then pure (pos 0)
      else put_at b (pos_part count) (pos 0) >> pure (pos b.start)

  pub fgets-finish :
      (rounds dst max stream : ℕ) (w : World)
      → stream_not_managed stream w ≡ some false
      → dst ≢ 0
      → 4 ≤ max
      → max < 2 ^ 31
      → fgets rounds dst (pos max) stream w
        ≡ and_then (getdelim_loop rounds (pos 10) stream (lent dst max) 0 w) finish
  unfolding fgets fgets_on getdelim_on start_block on_stream finish
  fgets-finish rounds dst max stream w h ne l u =
      let whole : max % 2 ^ 64 ≡ max = omega arith in
      let some_room : (max == 0) ≡ false = ground arith in
      let more_room : (max == 1) ≡ false = ground arith in
      let some_block : (dst == 0) ≡ false = ground arith in
      let some_size : (max - 1 == 0) ≡ false = ground arith in
      simp (h, whole, some_room, more_room, some_block, some_size)

  pub finish-end :
      (b : Block) (n : ℕ) (w : World)
      → suc n < b.room
      → finish (pos (suc n), b) w
        ≡ done (pos b.start) (record w {
          machine = record w.machine { mem = poke w.machine.mem (b.start + suc n) 0 };
        })
  unfolding finish
  finish-end b n w h =
      let some_byte : (suc n == 0) ≡ false = ground arith in
      simp (some_byte, stored b (suc n) 0 w h (omega arith))

  pub finish-none : (b : Block) (w : World) → finish (minus_one, b) w ≡ done (pos 0) w
  unfolding finish
  finish-none b w = refl

  -- A line of ASCII bytes that leaves at least three bytes of the buffer free is read up to its newline
  -- and no further, stored with its newline and a NUL, and the buffer is the result of `fgets`.
  pub fgets-line :
      (rounds dst max stream : ℕ) (line : Bytes) (w : World) (g : env.Go)
      → stream_not_managed stream w ≡ some false
      → dst ≢ 0
      → max < 2 ^ 31
      → IsLine 10 line
      → length line + 3 < max
      → length line < rounds
      → Feeds (env.libc.fileno w.machine.sys stream) (line ++ 10 ∷ []) w.go g
      → (w' : World) × (fgets rounds dst (pos max) stream w ≡ done (pos dst) w')
        × (load w'.machine.mem dst (suc (suc (length line))) ≡ line ++ 10 ∷ 0 ∷ [])
        × (w'.go ≡ g)
  unfolding load
  fgets-line rounds dst max stream line w g h ne u i s r f =
      let (w1, k, stores, gone) =
        loop-Fits stream 10 (omega arith) line rounds (lent dst max) 0 w g h i r (omega arith)
          (omega arith) f in
      let z : 0 + length line ≡ length line = omega arith in
      (
        record w1 {
          machine = record w1.machine { mem = poke w1.machine.mem (dst + suc (0 + length line)) 0 };
        },
        fgets-finish rounds dst max stream w h ne (omega arith) u
            ∙ ap (λ x. and_then x finish) k
            ∙ finish-end (lent dst max) (0 + length line) w1 (omega arith),
        ap (λ n. load (poke w1.machine.mem (dst + suc (0 + length line)) 0) dst (suc (suc n)))
              (sym z)
            ∙ load-poke_last w1.machine.mem dst (suc (0 + length line)) 0
            ∙ ap (λ t. t ++ 0 ∷ []) stores
            ∙ append_assoc line (10 ∷ []) (0 ∷ []),
        gone,
      )

  -- Where the file goes on with `max - 3` ASCII bytes, none of them a newline, `fgets` passes the buffer of
  -- its caller to `realloc`, although the buffer has room for two more bytes and a NUL: nothing that the
  -- caller can rely on follows.
  pub fgets-faults :
      (rounds dst max stream x : ℕ) (line : Bytes) (w : World) (g : env.Go)
      → stream_not_managed stream w ≡ some false
      → dst ≢ 0
      → max < 2 ^ 31
      → IsLine 10 (x ∷ line)
      → length (x ∷ line) + 3 ≡ max
      → length line < rounds
      → Feeds (env.libc.fileno w.machine.sys stream) (x ∷ line) w.go g
      → fgets rounds dst (pos max) stream w ≡ faults
  fgets-faults rounds dst max stream x line w g h ne u i s r f =
      fgets-finish rounds dst max stream w h ne (omega arith) u
      ∙ ap (λ r. and_then r finish)
          (loop-faults stream 10 (omega arith) line rounds (lent dst max) 0 x w g h i r
            (omega arith) refl (omega arith) f)
