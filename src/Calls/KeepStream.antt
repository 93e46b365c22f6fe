-- ===== src/Calls/KeepStream.antt =====
-- What the calls on a stream leave alone where pdwfs manages it.
use pdwfs.Base.{some, ℕ, ◌≡◌, refl, ◌≢◌, false, Bytes, arith}
use pdwfs.Base.Int.{ℤ}
use pdwfs.Machine.{World}
use pdwfs.Machine.Symbol.{Symbol}
use pdwfs.Machine.Host.{Env}
use pdwfs.Machine.Access.{go_call, fileno}
use pdwfs.Registers.{stream_not_managed, fd_not_managed}
use pdwfs.Intercept.Guards.{on_stream, on_fd, int_call}
use pdwfs.Intercept.Files
use pdwfs.Intercept.Unsupported
use pdwfs.Intercept.Opening
use pdwfs.Intercept.Streams.{fputc, fgetc, got_byte, fwrite_of, fwrite, fputs, fread, note_short}
use pdwfs.Calls.Local.{Local, int_call-Local, not_implemented-Local}
use pdwfs.Calls.OnStream.{StreamCall, stream_call, stream_of, stream_symbol}

module _ ⦃env : Env⦄ where
  fputc-Local :
      (c : ℤ) (stream : ℕ) (w : World)
      → stream_not_managed stream w ≡ some false
      → Local w (fputc c stream w)
  unfolding fputc on_stream int_call go_call
  fputc-Local c stream w h = rw h (ground arith)

  fgetc-Local :
      (stream : ℕ) (w : World) → stream_not_managed stream w ≡ some false → Local w (fgetc stream w)
  unfolding fgetc got_byte on_stream go_call
  fgetc-Local stream w h = rw h (ground arith)

  fwrite_of-Local :
      (bytes : Bytes) (ptr size nmemb stream : ℕ) (w : World)
      → stream_not_managed stream w ≡ some false
      → Local w (fwrite_of bytes ptr size nmemb stream w)
  unfolding fwrite_of on_stream int_call go_call
  fwrite_of-Local bytes ptr size nmemb stream w h = rw h (ground arith)

  fread-Local :
      (ptr size nmemb stream : ℕ) (w : World)
      → stream_not_managed stream w ≡ some false
      → Local w (fread ptr size nmemb stream w)
  unfolding fread note_short on_stream go_call fileno Files.lseek on_fd stream_not_managed
      fd_not_managed
  fread-Local ptr size nmemb stream w h = rw h (ground arith)

  fputs-Local :
      (at : ℕ) (s : Bytes) (stream : ℕ) (w : World)
      → stream_not_managed stream w ≡ some false
      → Local w (fputs at s stream w)
  unfolding fputs fwrite_of on_stream int_call go_call
  fputs-Local at s stream w h = rw h (ground arith)

  -- Of the intercepted functions of `StreamCall`, those that are guarded by STREAM_NOT_MANAGED, each except
  -- `fclose`, `fgets`, `getdelim` and `getline` leaves libc alone where pdwfs manages the `FILE`: the kernel and
  -- libc, both registers and the table of libc functions are as before, or the process ends, by
  -- exit(EXIT_FAILURE) with nothing changed or in a panic of the Go layer. Nothing is said of `feof`, `ferror`
  -- and `clearerr`, which always call libc, nor of `fprintf`, which allocates.
  pub stream_call-Local :
      (c : StreamCall) (w : World)
      → stream_not_managed (stream_of c) w ≡ some false
      → stream_symbol c ≢ Symbol.fclose
      → stream_symbol c ≢ Symbol.fgets
      → stream_symbol c ≢ Symbol.getdelim
      → stream_symbol c ≢ Symbol.getline
      → Local w (stream_call c w)
  unfolding stream_call on_stream Files.fflush Unsupported.fgetpos Unsupported.fgetpos64
      Unsupported.fseek Unsupported.fseeko Unsupported.fseeko64 Unsupported.fsetpos
      Unsupported.fsetpos64 Unsupported.putc Unsupported.getc Unsupported.ungetc Unsupported.ftell
      Unsupported.ftello Unsupported.ftello64 Opening.rewind fwrite
  stream_call-Local (StreamCall.fflush stream) w h a b c d =
      rw h (int_call-Local (env.go_layer.fflush stream) w)
  stream_call-Local (StreamCall.fputc c stream) w h a b _ d = fputc-Local c stream w h
  stream_call-Local (StreamCall.fgetc stream) w h a b c d = fgetc-Local stream w h
  stream_call-Local (StreamCall.fputs at s stream) w h a b c d = fputs-Local at s stream w h
  stream_call-Local (StreamCall.fread ptr size nmemb stream) w h a b c d =
      fread-Local ptr size nmemb stream w h
  stream_call-Local (StreamCall.fwrite ptr size nmemb stream) w h a b c d =
      fwrite_of-Local _ ptr size nmemb stream w h
  stream_call-Local (StreamCall.fclose stream) w h a b c d = absurd (a refl)
  stream_call-Local (StreamCall.fgets rounds dst max stream) w h a b c d = absurd (b refl)
  stream_call-Local (StreamCall.getdelim rounds buf bufsiz delimiter stream) w h a b c d =
      absurd (c refl)
  stream_call-Local (StreamCall.getline rounds buf bufsiz stream) w h a b c d = absurd (d refl)
  stream_call-Local call w h a b c d = rw h (not_implemented-Local w)
