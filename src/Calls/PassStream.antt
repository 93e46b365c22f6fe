-- ===== src/Calls/PassStream.antt =====
-- What the calls on a `FILE` do outside of what pdwfs manages.
use pdwfs.Base.{some, ◌≡◌, true}
use pdwfs.Machine.{World}
use pdwfs.Machine.Host.{Env}
use pdwfs.Registers.{stream_not_managed}
use pdwfs.Libc.{call_next}
use pdwfs.Libc.Streams.{
  libc_fflush, libc_fgetpos, libc_fgetpos64, libc_fseek, libc_fseeko, libc_fseeko64, libc_fsetpos,
  libc_fsetpos64, libc_putc, libc_getc, libc_ungetc, libc_ftell, libc_ftello, libc_ftello64,
  libc_fclose, libc_rewind, libc_fputc, libc_fgetc, libc_fputs, libc_fread, libc_fwrite, libc_fgets,
  libc_getdelim, libc_getline,
}
use pdwfs.Intercept.Guards.{on_stream}
use pdwfs.Intercept.Files
use pdwfs.Intercept.Unsupported
use pdwfs.Intercept.Opening
use pdwfs.Intercept.Streams
use pdwfs.Intercept.Lines
use pdwfs.Calls.OnStream.{StreamCall, stream_call, stream_of, stream_symbol, stream_args}

module _ ⦃env : Env⦄ where
  pub stream_call-call_next :
      (c : StreamCall) (w : World)
      → stream_not_managed (stream_of c) w ≡ some true
      → stream_call c w ≡ call_next (stream_symbol c) (stream_args c) w
  unfolding stream_call on_stream Files.fflush Unsupported.fgetpos Unsupported.fgetpos64
      Unsupported.fseek Unsupported.fseeko Unsupported.fseeko64 Unsupported.fsetpos
      Unsupported.fsetpos64 Unsupported.putc Unsupported.getc Unsupported.ungetc Unsupported.ftell
      Unsupported.ftello Unsupported.ftello64 Opening.fclose Opening.rewind Streams.fputc
      Streams.fgetc Streams.fputs Streams.fread Streams.fwrite Lines.fgets Lines.getdelim
      Lines.getline libc_fflush libc_fgetpos libc_fgetpos64 libc_fseek libc_fseeko libc_fseeko64
      libc_fsetpos libc_fsetpos64 libc_putc libc_getc libc_ungetc libc_ftell libc_ftello
      libc_ftello64 libc_fclose libc_rewind libc_fputc libc_fgetc libc_fputs libc_fread libc_fwrite
      libc_fgets libc_getdelim libc_getline
  stream_call-call_next (StreamCall.fflush stream) w h = rw h
  stream_call-call_next (StreamCall.fgetpos stream pos) w h = rw h
  stream_call-call_next (StreamCall.fgetpos64 stream pos) w h = rw h
  stream_call-call_next (StreamCall.fseek stream offset whence) w h = rw h
  stream_call-call_next (StreamCall.fseeko stream offset whence) w h = rw h
  stream_call-call_next (StreamCall.fseeko64 stream offset whence) w h = rw h
  stream_call-call_next (StreamCall.fsetpos stream pos) w h = rw h
  stream_call-call_next (StreamCall.fsetpos64 stream pos) w h = rw h
  stream_call-call_next (StreamCall.putc c stream) w h = rw h
  stream_call-call_next (StreamCall.getc stream) w h = rw h
  stream_call-call_next (StreamCall.ungetc c stream) w h = rw h
  stream_call-call_next (StreamCall.ftell stream) w h = rw h
  stream_call-call_next (StreamCall.ftello stream) w h = rw h
  stream_call-call_next (StreamCall.ftello64 stream) w h = rw h
  stream_call-call_next (StreamCall.fclose stream) w h = rw h
  stream_call-call_next (StreamCall.rewind stream) w h = rw h
  stream_call-call_next (StreamCall.fputc c stream) w h = rw h
  stream_call-call_next (StreamCall.fgetc stream) w h = rw h
  stream_call-call_next (StreamCall.fputs at s stream) w h = rw h
  stream_call-call_next (StreamCall.fread ptr size nmemb stream) w h = rw h
  stream_call-call_next (StreamCall.fwrite ptr size nmemb stream) w h = rw h
  stream_call-call_next (StreamCall.fgets rounds dst max stream) w h = rw h
  stream_call-call_next (StreamCall.getdelim rounds buf bufsiz delimiter stream) w h = rw h
  stream_call-call_next (StreamCall.getline rounds buf bufsiz stream) w h = rw h
