-- ===== src/Intercept/Indicators.antt =====
-- pdwfs.c, the results of `fwrite`, `fputs`, `fgetc`, `fputc` and `fread` on a managed stream, and the
-- indicators that they set.
use pdwfs.Base.{
  some, ℕ, ◌-◌, ◌*◌, ◌^◌, ◌<◌, ◌≤◌, ◌≡◌, refl, ◌≢◌, true, false, not, ◌||◌, [], ◌∷◌, Bytes, length,
  arith, ◌==◌, if◌then◌else◌, Bool-cases, inl, inr,
}
use pdwfs.Base.Int.{
  ℤ, pos, negsuc, minus_one, char_to_int, mul_size, to_int-pos, to_size-pos, mul_size-small,
}
use pdwfs.Machine.{World, Run, done}
use pdwfs.Machine.Host.{Env, returned}
use pdwfs.Machine.Access.{
  load, store, set_mem, go_call, fileno, take_go_errno, set_err_seen, set_eof_seen,
}
use pdwfs.Registers.{stream_not_managed}
use pdwfs.Intercept.Guards.{on_stream, int_call}
use pdwfs.Intercept.Streams.{got_byte, fgetc, fwrite_of, fwrite, fputs, fread}

module _ ⦃env : Env⦄ where
  -- The outcome of `fwrite` where the Go layer took `n` bytes: `n` is the result, and counts as a success
  -- where it is `nmemb`.
  abbrev pub Wrote : ℕ → ℕ → ℕ → World → env.Go → Run ℤ → Type 0
  Wrote stream nmemb n w g r =
      (w' : World) × (r ≡ done (pos n) w')
      × ((w'.machine.flags stream).err_seen
          ≡ ((w.machine.flags stream).err_seen || not (n == nmemb)))
      × (w'.machine.errno ≡ (if n == nmemb then w.machine.errno else env.go_layer.get_errno g))
      × (w'.go ≡ g)

  pub fwrite_of-accepted :
      (stream : ℕ) (w : World) (g : env.Go) (bytes : Bytes) (ptr size nmemb n : ℕ)
      → stream_not_managed stream w ≡ some false
      → n < 2 ^ 31
      → env.go_layer.write (env.libc.fileno w.sys stream) bytes w.go ≡ returned (pos n) g
      → Wrote stream nmemb n w g (fwrite_of bytes ptr size nmemb stream w)
  unfolding fwrite_of on_stream int_call fileno go_call take_go_errno set_err_seen
  fwrite_of-accepted stream w g bytes ptr size nmemb n h l a =
      let small : n < 2 ^ 64 = omega arith in
      let w1 = record w { go = g } in
      elim (Bool-cases (n == nmemb)) [
        | inl all ↦ (
          w1,
          simp (h, a, to_int-pos n l, to_size-pos n small, all),
          rw all (ground arith),
          rw all refl,
          refl,
        )
        | inr part ↦ (
          record w1 {
            machine = record w.machine {
              errno = env.go_layer.get_errno g;
              flags = λ t.
                  if t == stream
                  then record (w.machine.flags stream) { err_seen = true }
                  else w.machine.flags t;
            };
          },
          simp (h, a, to_int-pos n l, to_size-pos n small, part),
          rw part (ground arith),
          rw part refl,
          refl,
        )
      ]

  -- Where the Go layer takes all the `size * nmemb` bytes, `fwrite` returns their number, and not that of
  -- the items: it sets the error indicator and `errno` unless the two agree, that is with items of one
  -- byte or with none.
  pub fwrite-accepted :
      (stream : ℕ) (w : World) (g : env.Go) (ptr size nmemb : ℕ)
      → stream_not_managed stream w ≡ some false
      → size * nmemb < 2 ^ 31
      → env.go_layer.write (env.libc.fileno w.sys stream) (load w.mem ptr (size * nmemb)) w.go
        ≡ returned (pos (size * nmemb)) g
      → Wrote stream nmemb (size * nmemb) w g (fwrite ptr size nmemb stream w)
  unfolding fwrite
  fwrite-accepted stream w g ptr size nmemb h l a =
      let whole = mul_size-small size nmemb (omega arith) in
      rw whole (fwrite_of-accepted stream w g _ ptr size nmemb (size * nmemb) h l a)

  -- Where the Go layer takes the whole string, `fputs` returns 0 and leaves the indicators and `errno`.
  pub fputs-accepted :
      (stream : ℕ) (w : World) (g : env.Go) (at : ℕ) (s : Bytes)
      → stream_not_managed stream w ≡ some false
      → length s < 2 ^ 31
      → env.go_layer.write (env.libc.fileno w.sys stream) s w.go ≡ returned (pos (length s)) g
      → fputs at s stream w ≡ done (pos 0) (record w { go = g })
  unfolding fputs fwrite_of on_stream int_call fileno go_call
  fputs-accepted stream w g at s h l a =
      let small : length s < 2 ^ 64 = omega arith in
      let same : (length s == length s) ≡ true = ground arith in
      simp (h, a, to_int-pos (length s) l, to_size-pos (length s) small, same)

  -- A byte that the Go layer reads comes back from `fgetc` as a `char`: bytes below 128 as they are, the
  -- others as negative numbers, 255 as EOF; nothing else changes, no indicator either.
  pub fgetc-byte :
      (stream : ℕ) (w : World) (g : env.Go) (b : ℕ)
      → stream_not_managed stream w ≡ some false
      → env.go_layer.read (env.libc.fileno w.sys stream) 1 w.go ≡ returned (pos 1, b ∷ []) g
      → (r : ℤ) × (fgetc stream w ≡ done r (record w { go = g }))
        × (b < 128 → r ≡ pos b)
        × (128 ≤ b → r ≡ negsuc (255 - b))
  unfolding fgetc got_byte on_stream fileno go_call char_to_int
  fgetc-byte stream w g b h a = (char_to_int b, simp (h, a), λ l. ground arith, λ l. ground arith)

  -- At the end of the file, where the Go layer reads nothing, `fgetc` returns EOF and sets the
  -- end-of-file indicator of its stream, and no other indicator.
  pub fgetc-end :
      (stream : ℕ) (w : World) (g : env.Go) (bs : Bytes)
      → stream_not_managed stream w ≡ some false
      → env.go_layer.read (env.libc.fileno w.sys stream) 1 w.go ≡ returned (pos 0, bs) g
      → (w' : World) × (fgetc stream w ≡ done minus_one w')
        × ((w'.machine.flags stream).eof_seen ≡ true)
        × ((w'.machine.flags stream).err_seen ≡ (w.machine.flags stream).err_seen)
        × ((t : ℕ) → t ≢ stream → w'.machine.flags t ≡ w.machine.flags t)
        × (w'.machine.errno ≡ w.machine.errno)
        × (w'.machine.mem ≡ w.machine.mem)
        × (w'.pointers ≡ w.pointers)
        × (w'.go ≡ g)
  unfolding fgetc got_byte on_stream fileno go_call set_eof_seen
  fgetc-end stream w g bs h a = (
    record w {
      machine = record w.machine {
        flags = λ t.
            if t == stream
            then record (w.machine.flags stream) { eof_seen = true }
            else w.machine.flags t;
      };
      go = g;
    },
    simp (h, a),
    ground arith,
    ground arith,
    λ t n. ground arith,
    refl,
    refl,
    refl,
    refl,
  )

  -- Items of one byte that the Go layer reads in full are stored at `ptr`, and their number is the result;
  -- the indicators and `errno` stay as they are.
  pub fread-bytes :
      (stream : ℕ) (w : World) (g : env.Go) (ptr nmemb : ℕ) (bs : Bytes)
      → stream_not_managed stream w ≡ some false
      → nmemb < 2 ^ 31
      → env.go_layer.read (env.libc.fileno w.sys stream) nmemb w.go ≡ returned (pos nmemb, bs) g
      → fread ptr 1 nmemb stream w
        ≡ done
            (pos nmemb)
            (record w { go = g; machine = record w.machine { mem = store w.mem ptr bs } })
  unfolding fread on_stream fileno go_call set_mem
  fread-bytes stream w g ptr nmemb bs h l a =
      let small : nmemb < 2 ^ 64 = omega arith in
      let whole : mul_size 1 nmemb ≡ nmemb = omega arith in
      let same : (nmemb == nmemb) ≡ true = ground arith in
      simp (h, whole, a, to_int-pos nmemb l, to_size-pos nmemb small, same)
