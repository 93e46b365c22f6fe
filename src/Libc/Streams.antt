-- ===== src/Libc/Streams.antt =====
-- libc.c: the wrappers of functions on a `FILE`.
use pdwfs.Base.{ℕ, [], ◌∷◌}
use pdwfs.Base.Int.{ℤ}
use pdwfs.Machine.{Cmd}
use pdwfs.Machine.Host.{Env, Arg, CString}
use pdwfs.Machine.Symbol.{Symbol}
use pdwfs.Libc.{call_next}

module _ ⦃env : Env⦄ where
  unfoldable pub libc_fdopen : ℤ → CString → Cmd ℤ
  unfolding call_next
  libc_fdopen fd mode = call_next Symbol.fdopen (Arg.int fd ∷ Arg.text mode ∷ [])

  unfoldable pub libc_fopen : CString → CString → Cmd ℤ
  unfolding call_next
  libc_fopen path mode = call_next Symbol.fopen (Arg.text path ∷ Arg.text mode ∷ [])

  unfoldable pub libc_fopen64 : CString → CString → Cmd ℤ
  unfolding call_next
  libc_fopen64 path mode = call_next Symbol.fopen64 (Arg.text path ∷ Arg.text mode ∷ [])

  unfoldable pub libc_freopen : CString → CString → ℕ → Cmd ℤ
  unfolding call_next
  libc_freopen path mode stream =
      call_next Symbol.freopen (Arg.text path ∷ Arg.text mode ∷ Arg.ptr stream ∷ [])

  unfoldable pub libc_freopen64 : CString → CString → ℕ → Cmd ℤ
  unfolding call_next
  libc_freopen64 path mode stream =
      call_next Symbol.freopen64 (Arg.text path ∷ Arg.text mode ∷ Arg.ptr stream ∷ [])

  unfoldable pub libc_fclose : ℕ → Cmd ℤ
  unfolding call_next
  libc_fclose stream = call_next Symbol.fclose (Arg.ptr stream ∷ [])

  unfoldable pub libc_fflush : ℕ → Cmd ℤ
  unfolding call_next
  libc_fflush stream = call_next Symbol.fflush (Arg.ptr stream ∷ [])

  unfoldable pub libc_fputc : ℤ → ℕ → Cmd ℤ
  unfolding call_next
  libc_fputc c stream = call_next Symbol.fputc (Arg.int c ∷ Arg.ptr stream ∷ [])

  unfoldable pub libc_fgets : ℕ → ℤ → ℕ → Cmd ℤ
  unfolding call_next
  libc_fgets dst max stream =
      call_next Symbol.fgets (Arg.ptr dst ∷ Arg.int max ∷ Arg.ptr stream ∷ [])

  unfoldable pub libc_fgetc : ℕ → Cmd ℤ
  unfolding call_next
  libc_fgetc stream = call_next Symbol.fgetc (Arg.ptr stream ∷ [])

  unfoldable pub libc_fgetpos : ℕ → ℕ → Cmd ℤ
  unfolding call_next
  libc_fgetpos stream pos = call_next Symbol.fgetpos (Arg.ptr stream ∷ Arg.ptr pos ∷ [])

  unfoldable pub libc_fgetpos64 : ℕ → ℕ → Cmd ℤ
  unfolding call_next
  libc_fgetpos64 stream pos = call_next Symbol.fgetpos64 (Arg.ptr stream ∷ Arg.ptr pos ∷ [])

  unfoldable pub libc_fseek : ℕ → ℤ → ℤ → Cmd ℤ
  unfolding call_next
  libc_fseek stream offset whence =
      call_next Symbol.fseek (Arg.ptr stream ∷ Arg.int offset ∷ Arg.int whence ∷ [])

  unfoldable pub libc_fseeko : ℕ → ℤ → ℤ → Cmd ℤ
  unfolding call_next
  libc_fseeko stream offset whence =
      call_next Symbol.fseeko (Arg.ptr stream ∷ Arg.int offset ∷ Arg.int whence ∷ [])

  unfoldable pub libc_fseeko64 : ℕ → ℤ → ℤ → Cmd ℤ
  unfolding call_next
  libc_fseeko64 stream offset whence =
      call_next Symbol.fseeko64 (Arg.ptr stream ∷ Arg.int offset ∷ Arg.int whence ∷ [])

  unfoldable pub libc_fsetpos : ℕ → ℕ → Cmd ℤ
  unfolding call_next
  libc_fsetpos stream pos = call_next Symbol.fsetpos (Arg.ptr stream ∷ Arg.ptr pos ∷ [])

  unfoldable pub libc_fsetpos64 : ℕ → ℕ → Cmd ℤ
  unfolding call_next
  libc_fsetpos64 stream pos = call_next Symbol.fsetpos64 (Arg.ptr stream ∷ Arg.ptr pos ∷ [])

  unfoldable pub libc_fputs : CString → ℕ → Cmd ℤ
  unfolding call_next
  libc_fputs s stream = call_next Symbol.fputs (Arg.text s ∷ Arg.ptr stream ∷ [])

  unfoldable pub libc_putc : ℤ → ℕ → Cmd ℤ
  unfolding call_next
  libc_putc c stream = call_next Symbol.putc (Arg.int c ∷ Arg.ptr stream ∷ [])

  unfoldable pub libc_getc : ℕ → Cmd ℤ
  unfolding call_next
  libc_getc stream = call_next Symbol.getc (Arg.ptr stream ∷ [])

  unfoldable pub libc_ungetc : ℤ → ℕ → Cmd ℤ
  unfolding call_next
  libc_ungetc c stream = call_next Symbol.ungetc (Arg.int c ∷ Arg.ptr stream ∷ [])

  unfoldable pub libc_ftell : ℕ → Cmd ℤ
  unfolding call_next
  libc_ftell stream = call_next Symbol.ftell (Arg.ptr stream ∷ [])

  unfoldable pub libc_ftello : ℕ → Cmd ℤ
  unfolding call_next
  libc_ftello stream = call_next Symbol.ftello (Arg.ptr stream ∷ [])

  unfoldable pub libc_ftello64 : ℕ → Cmd ℤ
  unfolding call_next
  libc_ftello64 stream = call_next Symbol.ftello64 (Arg.ptr stream ∷ [])

  unfoldable pub libc_fread : ℕ → ℕ → ℕ → ℕ → Cmd ℤ
  unfolding call_next
  libc_fread target count nmemb stream =
      call_next Symbol.fread
        (Arg.ptr target ∷ Arg.size count ∷ Arg.size nmemb ∷ Arg.ptr stream ∷ [])

  unfoldable pub libc_fwrite : ℕ → ℕ → ℕ → ℕ → Cmd ℤ
  unfolding call_next
  libc_fwrite target count nmemb stream =
      call_next Symbol.fwrite
        (Arg.ptr target ∷ Arg.size count ∷ Arg.size nmemb ∷ Arg.ptr stream ∷ [])

  unfoldable pub libc_rewind : ℕ → Cmd ℤ
  unfolding call_next
  libc_rewind stream = call_next Symbol.rewind (Arg.ptr stream ∷ [])

  unfoldable pub libc_getdelim : ℕ → ℕ → ℤ → ℕ → Cmd ℤ
  unfolding call_next
  libc_getdelim buf bufsiz delimiter fp =
      call_next Symbol.getdelim (Arg.ptr buf ∷ Arg.ptr bufsiz ∷ Arg.int delimiter ∷ Arg.ptr fp ∷ [])

  unfoldable pub libc_getline : ℕ → ℕ → ℕ → Cmd ℤ
  unfolding call_next
  libc_getline buf bufsiz stream =
      call_next Symbol.getline (Arg.ptr buf ∷ Arg.ptr bufsiz ∷ Arg.ptr stream ∷ [])

  unfoldable pub libc_feof : ℕ → Cmd ℤ
  unfolding call_next
  libc_feof stream = call_next Symbol.feof (Arg.ptr stream ∷ [])

  unfoldable pub libc_ferror : ℕ → Cmd ℤ
  unfolding call_next
  libc_ferror stream = call_next Symbol.ferror (Arg.ptr stream ∷ [])

  unfoldable pub libc_clearerr : ℕ → Cmd ℤ
  unfolding call_next
  libc_clearerr stream = call_next Symbol.clearerr (Arg.ptr stream ∷ [])
