-- ===== src/Intercept/Lines.antt =====
-- pdwfs.c, reading lines: `getdelim` with its growing buffer, `getline` and `fgets` on top of it.
pub mod Memory
pub mod Stored
pub mod Reads
pub mod Line
pub mod Last
pub mod Rest
pub mod Fixed
pub mod Lent
pub mod LentRest
use pdwfs.Base.{
  ℕ, zero, suc, ◌+◌, ◌-◌, ◌^◌, Bool, true, false, not, ◌||◌, Option, none, some, ◌==◌, ltb, leb,
  if◌then◌else◌,
}
use pdwfs.Base.Int.{ℤ, pos, minus_one, ◌==ℤ◌, wrap, mul_size, pos_part}
use pdwfs.Machine.{done, faults, spins, Cmd, ◌>>=◌, ◌>>◌, pure}
use pdwfs.Machine.Host.{Env}
use pdwfs.Machine.Access.{load, store, poke, set_mem}
use pdwfs.Libc.Streams.{libc_fgets, libc_getdelim, libc_getline}
use pdwfs.Intercept.Guards.{on_stream}
use pdwfs.Intercept.Through.{feof}
use pdwfs.Intercept.Streams.{fgetc, not_positive}

-- The buffer that `getdelim` fills: `*buf`, `*bufsiz`, the bytes that really belong to the object at
-- `*buf`, and whether `malloc` returned it.
pub record Block : Type 0 where
  pub start : ℕ
  pub size : ℕ
  pub room : ℕ
  pub on_heap : Bool

-- BUFSIZ
abbrev pub bufsiz_default : ℕ
bufsiz_default = 8192

abbrev pub newline : ℤ
newline = pos 10

module _ ⦃env : Env⦄ where
  -- (*buf)[d] = c, a fault outside the object
  unfoldable pub put_at : Block → ℕ → ℤ → Cmd (Unit {0})
  unfolding set_mem
  put_at b d c w =
      if ltb d b.room then set_mem (poke w.mem (b.start + d) (wrap 256 c)) w else faults

  -- realloc(*buf, *bufsiz * 2): the contents move along; only what malloc returned can be given to it
  unfoldable pub enlarge : Block → Cmd (Option Block)
  enlarge b w =
      let n = mul_size b.size 2 in
      let (q, sys') = env.libc.realloc b.start n w.sys in
      if not b.on_heap
      then faults
      else if q == 0
      then done none (record w { machine = record w.machine { sys = sys' } })
      else done (some (record b { start = q; size = n; room = n })) (record w {
        machine = record w.machine { sys = sys'; mem = store w.mem q (load w.mem b.start b.size) };
      })

  at_end : Block → ℕ → ℕ → Cmd (ℤ × Block)
  unfolding feof
  at_end b d stream =
      feof stream
      >>= (λ r. pure (if r ==ℤ pos 0 then minus_one else if d == 0 then minus_one else pos d, b))

  resume : Block → (Block → Cmd (ℤ × Block)) → Option Block → Cmd (ℤ × Block)
  resume b next none = pure (minus_one, b)
  resume b next (some b') = next b'

  -- A byte is read: it is stored, and the line ends at the delimiter, or goes on in a buffer that is
  -- doubled where `ptr + 2 >= eptr`.
  pub keep_byte : ℤ → Block → ℕ → (Block → Cmd (ℤ × Block)) → ℤ → Cmd (ℤ × Block)
  unfolding put_at enlarge resume
  keep_byte delimiter b d next c =
      put_at b d c
      >> (if c ==ℤ delimiter
          then put_at b (suc d) (pos 0) >> pure (pos (suc d), b)
          else if leb b.size (suc d + 2)
          then enlarge b >>= resume b next
          else next b)

  -- The loop, with `d` for `ptr - *buf`; `spins` when the rounds are used up.
  pub getdelim_loop : ℕ → ℤ → ℕ → Block → ℕ → Cmd (ℤ × Block)
  unfolding fgetc keep_byte at_end
  getdelim_loop zero delimiter stream b d w = spins
  getdelim_loop (suc rounds) delimiter stream b d w =
      let next = λ (b' : Block). getdelim_loop rounds delimiter stream b' (suc d) in
      (fgetc stream
          >>= (λ c. if c ==ℤ minus_one then at_end b d stream else keep_byte delimiter b d next c))
        w

  pub start_block : Block → Cmd (Option Block)
  start_block b w =
      let (p, sys') = env.libc.malloc bufsiz_default w.sys in
      let w' = record w { machine = record w.machine { sys = sys' } } in
      if b.start == 0 || b.size == 0
      then (if p == 0
          then done none w'
          else done
              (some (record {
                start = p;
                size = bufsiz_default;
                room = bufsiz_default;
                on_heap = true;
              }))
              w')
      else done (some b) w

  -- The part of `getdelim` for a managed stream, on the values of `*buf` and `*bufsiz`.
  unfoldable pub getdelim_on : ℕ → ℤ → ℕ → Block → Cmd (ℤ × Block)
  unfolding start_block getdelim_loop
  getdelim_on rounds delimiter stream b = start_block b >>= (λ o. elim o [
    | none ↦ pure (minus_one, record b { start = 0; size = bufsiz_default })
    | some b' ↦ getdelim_loop rounds delimiter stream b' 0
  ])

  -- The part of `fgets` for a managed stream.
  unfoldable pub fgets_on : ℕ → ℕ → ℤ → ℕ → Cmd ℤ
  unfolding getdelim_on set_mem
  fgets_on rounds dst max stream =
      let n = wrap (2 ^ 64) max in
      let own : Block = record { start = dst; size = n - 1; room = n; on_heap = false } in
      if n == 0
      then pure (pos 0)
      else if n == 1
      then (λ w. (set_mem (poke w.mem dst 0) >> pure (pos dst)) w)
      else (getdelim_on rounds newline stream own >>= (λ (count, b).
          if not_positive count
          then pure (pos 0)
          else put_at b (pos_part count) (pos 0) >> pure (pos b.start)))

  unfoldable pub fgets : ℕ → ℕ → ℤ → ℕ → Cmd ℤ
  unfolding fgets_on
  fgets rounds dst max stream =
      on_stream stream (libc_fgets dst max stream) (fgets_on rounds dst max stream)

  -- `*buf = b.start; *bufsiz = b.size`
  set_cells : ℕ → ℕ → Block → Cmd (Unit {0})
  set_cells buf bufsiz b w =
      let words = w.machine.words in
      done tt (record w {
        machine = record w.machine {
          words = λ q. if q == bufsiz then b.size else if q == buf then b.start else words q;
        };
      })

  -- By its contract `*buf` is NULL, or what malloc returned for `*bufsiz` bytes.
  unfoldable pub getdelim : ℕ → ℕ → ℕ → ℤ → ℕ → Cmd ℤ
  unfolding getdelim_on set_cells
  getdelim rounds buf bufsiz delimiter stream =
      on_stream stream (libc_getdelim buf bufsiz delimiter stream) (λ w.
        let size = w.machine.words bufsiz in
        let own : Block = record {
          start = w.machine.words buf;
          size = size;
          room = size;
          on_heap = true;
        } in
        (getdelim_on rounds delimiter stream own
            >>= (λ (ret, b). set_cells buf bufsiz b >> pure ret))
          w)

  unfoldable pub getline : ℕ → ℕ → ℕ → ℕ → Cmd ℤ
  unfolding getdelim
  getline rounds buf bufsiz stream =
      on_stream stream (libc_getline buf bufsiz stream) (getdelim rounds buf bufsiz newline stream)
