-- ===== src/Calls/OnStream.antt =====
-- The intercepted functions whose body is guarded by STREAM_NOT_MANAGED, as data: what each does, and the
-- libc call that it stands for. `fprintf` and `__fprintf_chk`, which call `fputs`, and `feof`, `ferror` and
-- `clearerr`, which always call libc, test no `FILE` and are not among them.
use pdwfs.Base.{ℕ, List, [], ◌∷◌, Bytes, some}
use pdwfs.Base.Int.{ℤ}
use pdwfs.Machine.{Cmd}
use pdwfs.Machine.Symbol.{Symbol}
use pdwfs.Machine.Host.{Env, Arg}
use pdwfs.Intercept.Opening.{mode_of}
use pdwfs.Intercept.Files
use pdwfs.Intercept.Unsupported
use pdwfs.Intercept.Opening
use pdwfs.Intercept.Streams
use pdwfs.Intercept.Lines

pub data StreamCall : Type 0 where
  fflush : ℕ → StreamCall
  fgetpos : ℕ → ℕ → StreamCall
  fgetpos64 : ℕ → ℕ → StreamCall
  fseek : ℕ → ℤ → ℤ → StreamCall
  fseeko : ℕ → ℤ → ℤ → StreamCall
  fseeko64 : ℕ → ℤ → ℤ → StreamCall
  fsetpos : ℕ → ℕ → StreamCall
  fsetpos64 : ℕ → ℕ → StreamCall
  putc : ℤ → ℕ → StreamCall
  getc : ℕ → StreamCall
  ungetc : ℤ → ℕ → StreamCall
  ftell : ℕ → StreamCall
  ftello : ℕ → StreamCall
  ftello64 : ℕ → StreamCall
  fclose : ℕ → StreamCall
  rewind : ℕ → StreamCall
  fputc : ℤ → ℕ → StreamCall
  fgetc : ℕ → StreamCall
  fputs : ℕ → Bytes → ℕ → StreamCall
  fread : ℕ → ℕ → ℕ → ℕ → StreamCall
  fwrite : ℕ → ℕ → ℕ → ℕ → StreamCall
  fgets : ℕ → ℕ → ℤ → ℕ → StreamCall
  getdelim : ℕ → ℕ → ℕ → ℤ → ℕ → StreamCall
  getline : ℕ → ℕ → ℕ → ℕ → StreamCall

module _ ⦃env : Env⦄ where
  unfoldable pub stream_call : StreamCall → Cmd ℤ
  stream_call (StreamCall.fflush stream) = Files.fflush stream
  stream_call (StreamCall.fgetpos stream pos) = Unsupported.fgetpos stream pos
  stream_call (StreamCall.fgetpos64 stream pos) = Unsupported.fgetpos64 stream pos
  stream_call (StreamCall.fseek stream offset whence) = Unsupported.fseek stream offset whence
  stream_call (StreamCall.fseeko stream offset whence) = Unsupported.fseeko stream offset whence
  stream_call (StreamCall.fseeko64 stream offset whence) = Unsupported.fseeko64 stream offset whence
  stream_call (StreamCall.fsetpos stream pos) = Unsupported.fsetpos stream pos
  stream_call (StreamCall.fsetpos64 stream pos) = Unsupported.fsetpos64 stream pos
  stream_call (StreamCall.putc c stream) = Unsupported.putc c stream
  stream_call (StreamCall.getc stream) = Unsupported.getc stream
  stream_call (StreamCall.ungetc c stream) = Unsupported.ungetc c stream
  stream_call (StreamCall.ftell stream) = Unsupported.ftell stream
  stream_call (StreamCall.ftello stream) = Unsupported.ftello stream
  stream_call (StreamCall.ftello64 stream) = Unsupported.ftello64 stream
  stream_call (StreamCall.fclose stream) = Opening.fclose stream
  stream_call (StreamCall.rewind stream) = Opening.rewind stream
  stream_call (StreamCall.fputc c stream) = Streams.fputc c stream
  stream_call (StreamCall.fgetc stream) = Streams.fgetc stream
  stream_call (StreamCall.fputs at s stream) = Streams.fputs at s stream
  stream_call (StreamCall.fread ptr size nmemb stream) = Streams.fread ptr size nmemb stream
  stream_call (StreamCall.fwrite ptr size nmemb stream) = Streams.fwrite ptr size nmemb stream
  stream_call (StreamCall.fgets rounds dst max stream) = Lines.fgets rounds dst max stream
  stream_call (StreamCall.getdelim rounds buf bufsiz delimiter stream) =
      Lines.getdelim rounds buf bufsiz delimiter stream
  stream_call (StreamCall.getline rounds buf bufsiz stream) = Lines.getline rounds buf bufsiz stream

-- What the guard of the call tests.
abbrev pub stream_of : StreamCall → ℕ
stream_of (StreamCall.fflush stream) = stream
stream_of (StreamCall.fgetpos stream _) = stream
stream_of (StreamCall.fgetpos64 stream _) = stream
stream_of (StreamCall.fseek stream _ _) = stream
stream_of (StreamCall.fseeko stream _ _) = stream
stream_of (StreamCall.fseeko64 stream _ _) = stream
stream_of (StreamCall.fsetpos stream _) = stream
stream_of (StreamCall.fsetpos64 stream _) = stream
stream_of (StreamCall.putc _ stream) = stream
stream_of (StreamCall.getc stream) = stream
stream_of (StreamCall.ungetc _ stream) = stream
stream_of (StreamCall.ftell stream) = stream
stream_of (StreamCall.ftello stream) = stream
stream_of (StreamCall.ftello64 stream) = stream
stream_of (StreamCall.fclose stream) = stream
stream_of (StreamCall.rewind stream) = stream
stream_of (StreamCall.fputc _ stream) = stream
stream_of (StreamCall.fgetc stream) = stream
stream_of (StreamCall.fputs _ _ stream) = stream
stream_of (StreamCall.fread _ _ _ stream) = stream
stream_of (StreamCall.fwrite _ _ _ stream) = stream
stream_of (StreamCall.fgets _ _ _ stream) = stream
stream_of (StreamCall.getdelim _ _ _ _ stream) = stream
stream_of (StreamCall.getline _ _ _ stream) = stream

abbrev pub stream_symbol : StreamCall → Symbol
stream_symbol (StreamCall.fflush _) = Symbol.fflush
stream_symbol (StreamCall.fgetpos _ _) = Symbol.fgetpos
stream_symbol (StreamCall.fgetpos64 _ _) = Symbol.fgetpos64
stream_symbol (StreamCall.fseek _ _ _) = Symbol.fseek
stream_symbol (StreamCall.fseeko _ _ _) = Symbol.fseeko
stream_symbol (StreamCall.fseeko64 _ _ _) = Symbol.fseeko64
stream_symbol (StreamCall.fsetpos _ _) = Symbol.fsetpos
stream_symbol (StreamCall.fsetpos64 _ _) = Symbol.fsetpos64
stream_symbol (StreamCall.putc _ _) = Symbol.putc
stream_symbol (StreamCall.getc _) = Symbol.getc
stream_symbol (StreamCall.ungetc _ _) = Symbol.ungetc
stream_symbol (StreamCall.ftell _) = Symbol.ftell
stream_symbol (StreamCall.ftello _) = Symbol.ftello
stream_symbol (StreamCall.ftello64 _) = Symbol.ftello64
stream_symbol (StreamCall.fclose _) = Symbol.fclose
stream_symbol (StreamCall.rewind _) = Symbol.rewind
stream_symbol (StreamCall.fputc _ _) = Symbol.fputc
stream_symbol (StreamCall.fgetc _) = Symbol.fgetc
stream_symbol (StreamCall.fputs _ _ _) = Symbol.fputs
stream_symbol (StreamCall.fread _ _ _ _) = Symbol.fread
stream_symbol (StreamCall.fwrite _ _ _ _) = Symbol.fwrite
stream_symbol (StreamCall.fgets _ _ _ _) = Symbol.fgets
stream_symbol (StreamCall.getdelim _ _ _ _ _) = Symbol.getdelim
stream_symbol (StreamCall.getline _ _ _ _) = Symbol.getline

abbrev pub stream_args : StreamCall → List Arg
stream_args (StreamCall.fflush stream) = Arg.ptr stream ∷ []
stream_args (StreamCall.fgetpos stream pos) = Arg.ptr stream ∷ Arg.ptr pos ∷ []
stream_args (StreamCall.fgetpos64 stream pos) = Arg.ptr stream ∷ Arg.ptr pos ∷ []
stream_args (StreamCall.fseek stream offset whence) =
    Arg.ptr stream ∷ Arg.int offset ∷ Arg.int whence ∷ []
stream_args (StreamCall.fseeko stream offset whence) =
    Arg.ptr stream ∷ Arg.int offset ∷ Arg.int whence ∷ []
stream_args (StreamCall.fseeko64 stream offset whence) =
    Arg.ptr stream ∷ Arg.int offset ∷ Arg.int whence ∷ []
stream_args (StreamCall.fsetpos stream pos) = Arg.ptr stream ∷ Arg.ptr pos ∷ []
stream_args (StreamCall.fsetpos64 stream pos) = Arg.ptr stream ∷ Arg.ptr pos ∷ []
stream_args (StreamCall.putc c stream) = Arg.int c ∷ Arg.ptr stream ∷ []
stream_args (StreamCall.getc stream) = Arg.ptr stream ∷ []
stream_args (StreamCall.ungetc c stream) = Arg.int c ∷ Arg.ptr stream ∷ []
stream_args (StreamCall.ftell stream) = Arg.ptr stream ∷ []
stream_args (StreamCall.ftello stream) = Arg.ptr stream ∷ []
stream_args (StreamCall.ftello64 stream) = Arg.ptr stream ∷ []
stream_args (StreamCall.fclose stream) = Arg.ptr stream ∷ []
stream_args (StreamCall.rewind stream) = Arg.ptr stream ∷ []
stream_args (StreamCall.fputc c stream) = Arg.int c ∷ Arg.ptr stream ∷ []
stream_args (StreamCall.fgetc stream) = Arg.ptr stream ∷ []
stream_args (StreamCall.fputs at s stream) = Arg.text (some s) ∷ Arg.ptr stream ∷ []
stream_args (StreamCall.fread ptr size nmemb stream) =
    Arg.ptr ptr ∷ Arg.size size ∷ Arg.size nmemb ∷ Arg.ptr stream ∷ []
stream_args (StreamCall.fwrite ptr size nmemb stream) =
    Arg.ptr ptr ∷ Arg.size size ∷ Arg.size nmemb ∷ Arg.ptr stream ∷ []
stream_args (StreamCall.fgets rounds dst max stream) =
    Arg.ptr dst ∷ Arg.int max ∷ Arg.ptr stream ∷ []
stream_args (StreamCall.getdelim rounds buf bufsiz delimiter stream) =
    Arg.ptr buf ∷ Arg.ptr bufsiz ∷ Arg.int delimiter ∷ Arg.ptr stream ∷ []
stream_args (StreamCall.getline rounds buf bufsiz stream) =
    Arg.ptr buf ∷ Arg.ptr bufsiz ∷ Arg.ptr stream ∷ []
