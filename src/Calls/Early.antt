-- ===== src/Calls/Early.antt =====
-- The guarded calls of other libraries' constructors, before pdwfs is initialized.
use pdwfs.Base.{ℕ, some, ◌≡◌, false, true, List}
use pdwfs.Base.Int.{ℤ}
use pdwfs.Machine.{World, Cmd, done}
use pdwfs.Machine.Symbol.{Symbol}
use pdwfs.Machine.Host.{Env, Arg, CString}
use pdwfs.Registers.{path_not_managed, fd_not_managed, stream_not_managed}
use pdwfs.Libc.{call_next}
use pdwfs.Calls.OnFd.{FdCall, fd_call, fd_symbol, fd_args}
use pdwfs.Calls.OnPath.{PathCall, path_call, path_symbol, path_args}
use pdwfs.Calls.OnStream.{StreamCall, stream_call, stream_symbol, stream_args}
use pdwfs.Calls.PassFd.{fd_call-call_next}
use pdwfs.Calls.PassPath.{path_call-call_next}
use pdwfs.Calls.PassStream.{stream_call-call_next}

pub data Call : Type 0 where
  fd : FdCall → Call
  path : PathCall → Call
  stream : StreamCall → Call

module _ ⦃env : Env⦄ where
  abbrev pub call : Call → Cmd ℤ
  call (Call.fd c) = fd_call c
  call (Call.path c) = path_call c
  call (Call.stream c) = stream_call c

  early_path :
      (p : CString) (w : World) → w.initialized ≡ false → path_not_managed p w ≡ done true w
  unfolding path_not_managed
  early_path p w h = simp h

  early_fd : (d : ℤ) (w : World) → w.initialized ≡ false → fd_not_managed d w ≡ true
  unfolding fd_not_managed
  early_fd d w h = simp h

  early_stream : (f : ℕ) (w : World) → w.initialized ≡ false → stream_not_managed f w ≡ some true
  unfolding stream_not_managed fd_not_managed
  early_stream f w h = simp h

abbrev pub call_symbol : Call → Symbol
call_symbol (Call.fd c) = fd_symbol c
call_symbol (Call.path c) = path_symbol c
call_symbol (Call.stream c) = stream_symbol c

abbrev pub call_args : Call → List Arg
call_args (Call.fd c) = fd_args c
call_args (Call.path c) = path_args c
call_args (Call.stream c) = stream_args c

module _ ⦃env : Env⦄ where
  -- Until the constructor has run, each intercepted function that is guarded by the test of one descriptor, one
  -- path or one `FILE` (`FdCall`, `PathCall`, `StreamCall`) is one libc call, with the same arguments, in the
  -- same state, whatever it names, also NULL: the one of its name, except for the aliases in pdwfs.c
  -- (`creat64`, `open64` and `fopen64` call `creat`, `open` and `fopen`, and `freopen64` calls `fopen` without its
  -- third argument). Functions without such a test, as `fprintf`, are not among them.
  pub call-call_next :
      (c : Call) (w : World)
      → w.initialized ≡ false
      → call c w ≡ call_next (call_symbol c) (call_args c) w
  call-call_next (Call.fd c) w h = fd_call-call_next c w (early_fd _ w h)
  call-call_next (Call.path c) w h = path_call-call_next c w w (early_path _ w h)
  call-call_next (Call.stream c) w h = stream_call-call_next c w (early_stream _ w h)
