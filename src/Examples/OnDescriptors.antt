-- ===== src/Examples/OnDescriptors.antt =====
-- Descriptor 50 is managed, descriptor 3 is not.
use pdwfs.Base.{suc, ◌≡◌, refl, ◌≢◌, true, false, [], ◌∷◌, ◌==◌, if◌then◌else◌}
use pdwfs.Base.Int.{ℤ, pos, to_int}
use pdwfs.Machine.{World, done}
use pdwfs.Machine.Symbol.{Symbol, symbol_id}
use pdwfs.Machine.Host.{Arg, returned}
use pdwfs.Machine.Access.{go_call}
use pdwfs.Registers.{is_std_fd, fd_not_managed, contains_fd, close}
use pdwfs.Registers.Descriptors.{close_twin, close-close_twin, close-forgets}
use pdwfs.Libc.{call_next}
use pdwfs.Libc.Descriptors.{libc_close}
use pdwfs.Intercept.Files
use pdwfs.Intercept.Guards.{on_fd}
use pdwfs.Calls.Local.{Local}
use pdwfs.Calls.OnFd.{FdCall, fd_call}
use pdwfs.Calls.PassFd.{fd_call-call_next}
use pdwfs.Calls.KeepFd.{fd_call-Local}
use pdwfs.Calls.Runs.{Spares, Runs, Runs-contains_fd}
use pdwfs.Instance.{File, one_file_env, open_world}

elsewhere : fd_not_managed (pos 3) (open_world []) ≡ true
unfolding fd_not_managed is_std_fd
elsewhere = refl

here : fd_not_managed (pos 50) (open_world []) ≡ false
unfolding fd_not_managed is_std_fd
here = refl

fd_call-call_next_example :
    fd_call (FdCall.fsync (pos 3)) (open_world [])
    ≡ call_next Symbol.fsync (Arg.int (pos 3) ∷ []) (open_world [])
fd_call-call_next_example = fd_call-call_next (FdCall.fsync (pos 3)) (open_world []) elsewhere

fd_call-Local_example : Local (open_world []) (fd_call (FdCall.write (pos 50) 0 1) (open_world []))
fd_call-Local_example = fd_call-Local (FdCall.write (pos 50) 0 1) (open_world []) here (λ e. cc)

abbrev at_start : File
at_start = record { bytes = []; offset = 0 }

abbrev further : World
further = record (open_world []) { go = record { bytes = []; offset = 3 } }

sought : fd_call (FdCall.lseek (pos 50) (pos 3) (pos 0)) (open_world []) ≡ done (pos 3) further
unfolding fd_call Files.lseek on_fd fd_not_managed is_std_fd go_call
sought = refl

Runs-contains_fd_example : contains_fd (pos 50) further ≡ contains_fd (pos 50) (open_world [])
Runs-contains_fd_example = Runs-contains_fd (pos 50) (open_world []) further (
    Runs.call (FdCall.lseek (pos 50) (pos 3) (pos 0)) (open_world []) further further (pos 3)
      (Spares.no_close (λ e. cc)) sought (Runs.stop further))

close-close_twin_example :
    close (pos 50) (open_world []) ≡ close_twin (pos 50) (open_world []) (returned (pos 0) at_start)
close-close_twin_example = close-close_twin (pos 50) (open_world []) here

-- `close` was looked up.
abbrev pub closed : World
closed = record (open_world []) {
  fd_register = [];
  pointers = λ i. if i == symbol_id Symbol.close then suc (symbol_id Symbol.close) else 0;
}

closes : close (pos 50) (open_world []) ≡ done (pos 0) closed
unfolding close libc_close call_next fd_not_managed is_std_fd go_call to_int symbol_id
closes = refl

close-forgets_example :
    (ret : ℤ) × (returned (pos 0) at_start ≡ returned ret at_start)
    × (pos 0 ≡ to_int ret)
    × (contains_fd (pos 50) closed ≡ false)
    × ((j : ℤ) → j ≢ pos 50 → contains_fd j closed ≡ contains_fd j (open_world []))
close-forgets_example = close-forgets (pos 50) (open_world []) closed (pos 0) here closes
