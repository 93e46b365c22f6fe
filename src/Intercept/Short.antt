-- ===== src/Intercept/Short.antt =====
-- pdwfs.c, `fread` of a managed stream that brings less than was asked for.
use pdwfs.Base.{
  some, ℕ, ◌^◌, ◌<◌, ◌≡◌, refl, ◌≢◌, true, false, ◌||◌, Bytes, arith, ◌==◌, if◌then◌else◌,
  Bool-cases, inl, inr,
}
use pdwfs.Base.Int.{ℤ, pos, ◌==ℤ◌, mul_size, to_int-pos, to_size-pos}
use pdwfs.Machine.{World, done}
use pdwfs.Machine.Host.{Env, returned}
use pdwfs.Machine.Access.{store, go_call, fileno, set_mem, take_go_errno, set_eof_seen}
use pdwfs.Registers.Descriptors.{stream_fd}
use pdwfs.Registers.{stream_not_managed, fd_not_managed}
use pdwfs.Intercept.Guards.{on_stream, on_fd}
use pdwfs.Intercept.Files.{lseek}
use pdwfs.Intercept.Streams.{fread, note_short}

module _ ⦃env : Env⦄ where
  -- Where the Go layer reads `n` bytes and that is not `nmemb`, `fread` stores them, returns `n`, and takes
  -- `errno` from the Go layer; it sets the end-of-file indicator exactly if the offset is then that of the
  -- end of the file, to which it seeks and from which it seeks back; it never sets the error indicator.
  pub fread-short :
      (stream : ℕ) (w : World) (ptr size nmemb n : ℕ) (bs : Bytes) (cur end back : ℤ)
      (g g1 g2 g3 : env.Go)
      → stream_not_managed stream w ≡ some false
      → n < 2 ^ 31
      → n ≢ nmemb
      → env.go_layer.read (env.libc.fileno w.machine.sys stream) (mul_size size nmemb) w.go
        ≡ returned (pos n, bs) g
      → env.go_layer.lseek (env.libc.fileno w.machine.sys stream) (pos 0) (pos 1) g
        ≡ returned cur g1
      → env.go_layer.lseek (env.libc.fileno w.machine.sys stream) (pos 0) (pos 2) g1
        ≡ returned end g2
      → env.go_layer.lseek (env.libc.fileno w.machine.sys stream) cur (pos 0) g2 ≡ returned back g3
      → (w' : World) × (fread ptr size nmemb stream w ≡ done (pos n) w')
        × (w'.machine.mem ≡ store w.machine.mem ptr bs)
        × ((w'.machine.flags stream).eof_seen
            ≡ ((w.machine.flags stream).eof_seen || (cur ==ℤ end)))
        × ((w'.machine.flags stream).err_seen ≡ (w.machine.flags stream).err_seen)
        × (w'.machine.errno ≡ env.go_layer.get_errno g)
        × (w'.go ≡ g3)
  unfolding fread note_short on_stream go_call fileno lseek on_fd fd_not_managed set_mem
      take_go_errno set_eof_seen
  fread-short stream w ptr size nmemb n bs cur end back g g1 g2 g3 h l ne a b c d =
      let small : n < 2 ^ 64 = omega arith in
      let managed = stream_fd stream w false h in
      let other : (n == nmemb) ≡ false = ground arith in
      let w1 = record w {
        machine = record w.machine {
          mem = store w.machine.mem ptr bs;
          errno = env.go_layer.get_errno g;
        };
        go = g3;
      } in
      elim (Bool-cases (cur ==ℤ end)) [
        | inl at_end ↦ (
          record w1 {
            machine = record w1.machine {
              flags = λ t.
                  if t == stream
                  then record (w.machine.flags stream) { eof_seen = true }
                  else w.machine.flags t;
            };
          },
          simp (h, managed, a, to_int-pos n l, to_size-pos n small, other, b, c, at_end, d),
          refl,
          rw at_end (ground arith),
          ground arith,
          refl,
          refl,
        )
        | inr before ↦ (
          w1,
          simp (h, managed, a, to_int-pos n l, to_size-pos n small, other, b, c, before, d),
          refl,
          rw before (ground arith),
          refl,
          refl,
          refl,
        )
      ]
