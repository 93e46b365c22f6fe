-- ===== src/Intercept/Lines/Stored.antt =====
-- pdwfs.c, `getdelim` on a managed stream: one round of its loop.
use pdwfs.Base.{
  ℕ, suc, ◌+◌, ◌*◌, ◌^◌, ◌%◌, ◌<◌, ◌≤◌, ◌≡◌, refl, ap, ◌∙◌, ◌≢◌, true, false, ◌&&◌, none, some,
  if◌then◌else◌, [], ◌∷◌, ◌++◌, arith, ◌==◌, ltb, leb, leb→le, Bool-cases, inl, inr, lt→ltb,
}
use pdwfs.Base.Int.{ℤ, pos, mul_size-small}
use pdwfs.Machine.{World, done, Cmd}
use pdwfs.Machine.Host.{Env}
use pdwfs.Machine.Access.{load, store, poke, set_mem}
use pdwfs.Registers.{stream_not_managed, fd_not_managed}
use pdwfs.Intercept.Lines.{Block, put_at, enlarge, resume, keep_byte}
use pdwfs.Intercept.Lines.Memory.{load-store-load, load-poke_last}

-- The buffer is one that malloc returned, of the size that `*bufsiz` says, and has room for a byte at `d`
-- and a NUL behind it.
pub record Roomy (b : Block) (d : ℕ) : Type 0 where
  pub room : b.room ≡ b.size
  pub on_heap : b.on_heap ≡ true
  pub fits : d + 2 ≤ b.size

pub Roomy-inside : (b : Block) (d : ℕ) → Roomy b d → d < b.room
Roomy-inside b d r = let fits = r.fits in let room = r.room in omega arith

pub Roomy-inside_suc : (b : Block) (d : ℕ) → Roomy b d → suc d < b.room
Roomy-inside_suc b d r = let fits = r.fits in let room = r.room in omega arith

module _ ⦃env : Env⦄ where
  -- Nothing that the loop goes on with has changed but the buffer.
  pub record Kept (stream : ℕ) (w w' : World) : Type 0 where
    pub managed : stream_not_managed stream w' ≡ stream_not_managed stream w
    pub descriptor : env.libc.fileno w'.machine.sys stream ≡ env.libc.fileno w.machine.sys stream
    pub go : w'.go ≡ w.go
    pub pointers : w'.pointers ≡ w.pointers

  pub stored :
      (b : Block) (d x : ℕ) (w : World)
      → d < b.room
      → x < 256
      → put_at b d (pos x) w
        ≡ done tt
            (record w { machine = record w.machine { mem = poke w.machine.mem (b.start + d) x } })
  unfolding put_at set_mem
  stored b d x w r l =
      let inside : ltb d b.room ≡ true = lt→ltb d b.room r in
      let byte : x % 256 ≡ x = omega arith in simp (inside, byte)

  module _ (stream : ℕ) (grows : (p n : ℕ) (s : env.Sys) → (env.libc.realloc p n s).0 ≢ 0)
      (keeps : (p n : ℕ) (s : env.Sys)
        → env.libc.fileno (env.libc.realloc p n s).1 stream ≡ env.libc.fileno s stream) where
    moved : Block → World → World
    moved b w =
        let (q, sys') = env.libc.realloc b.start (b.size * 2) w.machine.sys in
        record w {
          machine = record w.machine {
            sys = sys';
            mem = store w.machine.mem q (load w.machine.mem b.start b.size);
          };
        }

    moved_block : Block → World → Block
    moved_block b w = record b {
      start = (env.libc.realloc b.start (b.size * 2) w.machine.sys).0;
      size = b.size * 2;
      room = b.size * 2;
    }

    enlarge-moved :
        (b : Block) (w : World)
        → b.on_heap ≡ true
        → b.size * 2 < 2 ^ 64
        → enlarge b w ≡ done (some (moved_block b w)) (moved b w)
    unfolding enlarge moved moved_block
    enlarge-moved b w h l =
        let fits = mul_size-small b.size 2 l in
        let some_block : ((env.libc.realloc b.start (b.size * 2) w.machine.sys).0 == 0) ≡ false =
          ground (arith, grows b.start (b.size * 2) w.machine.sys) in
        simp (h, fits, some_block)

    moved-Kept : (b : Block) (w : World) → Kept stream w (moved b w)
    unfolding moved stream_not_managed fd_not_managed
    moved-Kept b w =
        let k = keeps b.start (b.size * 2) w.machine.sys in
        record {
          managed =
              ap
                (λ fd.
                  if w.initialized && (stream == 0)
                  then none
                  else some (fd_not_managed fd (moved b w)))
                k;
          descriptor = k;
          go = refl;
          pointers = refl;
        }

    with_byte : Block → ℕ → ℕ → World → World
    with_byte b d x w = record w {
      machine = record w.machine { mem = poke w.machine.mem (b.start + d) x };
    }

    keep_byte-room :
        (b : Block) (d x c : ℕ) (w : World) (next : Block → Cmd (ℤ × Block))
        → Roomy b d
        → x < 256
        → x ≢ c
        → leb b.size (suc d + 2) ≡ false
        → keep_byte (pos c) b d next (pos x) w ≡ next b (with_byte b d x w)
    unfolding keep_byte with_byte
    keep_byte-room b d x c w next r l ne f =
        let other : (x == c) ≡ false = ground arith in
        simp (stored b d x w (Roomy-inside b d r) l, other, f)

    keep_byte-full :
        (b : Block) (d x c : ℕ) (w : World) (next : Block → Cmd (ℤ × Block))
        → Roomy b d
        → x < 256
        → x ≢ c
        → b.size * 2 < 2 ^ 64
        → leb b.size (suc d + 2) ≡ true
        → keep_byte (pos c) b d next (pos x) w
          ≡ next (moved_block b (with_byte b d x w)) (moved b (with_byte b d x w))
    unfolding keep_byte with_byte resume
    keep_byte-full b d x c w next r l ne s f =
        let other : (x == c) ≡ false = ground arith in
        simp (
          stored b d x w (Roomy-inside b d r) l,
          other,
          f,
          enlarge-moved b (with_byte b d x w) r.on_heap s,
        )

    -- A byte that is not the delimiter goes to the end of what is stored, and leaves room for the next.
    pub keep_byte-goes_on :
        (b : Block) (d x c : ℕ) (w : World) (next : Block → Cmd (ℤ × Block))
        → Roomy b d
        → x < 256
        → x ≢ c
        → d < 2 ^ 61
        → (b' : Block) × (w' : World) × (keep_byte (pos c) b d next (pos x) w ≡ next b' w')
          × Roomy b' (suc d)
          × Kept stream w w'
          × (load w'.machine.mem b'.start (suc d) ≡ load w.machine.mem b.start d ++ x ∷ [])
    unfolding with_byte moved moved_block stream_not_managed fd_not_managed
    keep_byte-goes_on b d x c w next r l ne s =
        let put = load-poke_last w.machine.mem b.start d x in
        let w1 = with_byte b d x w in
        elim (Bool-cases (leb b.size (suc d + 2))) [
          | inl f ↦
              let k = moved-Kept b w1 in
              let bound : b.size ≤ suc d + 2 = leb→le _ _ f in
              let fits = r.fits in
              (
                moved_block b w1,
                moved b w1,
                keep_byte-full b d x c w next r l ne (omega arith) f,
                record { room = refl; on_heap = r.on_heap; fits = omega arith },
                record {
                  managed = k.managed;
                  descriptor = k.descriptor;
                  go = k.go;
                  pointers = k.pointers;
                },
                load-store-load w1.machine.mem w1.machine.mem _ b.start b.size (suc d) (omega arith)
                    ∙ put,
              )
          | inr f ↦ (
            b,
            w1,
            keep_byte-room b d x c w next r l ne f,
            record { room = r.room; on_heap = r.on_heap; fits = ground arith },
            record { managed = refl; descriptor = refl; go = refl; pointers = refl },
            put,
          )
        ]
