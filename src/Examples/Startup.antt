-- ===== src/Examples/Startup.antt =====
-- The constructor and the destructor of the library, and calls of libc functions.
use pdwfs.Base.{List, true, ℕ, suc, ◌≡◌, refl, ◌≢◌, true, false, inl, [], ◌∷◌, Bytes}
use pdwfs.Base.Int.{ℤ, pos}
use pdwfs.Machine.{World, done, ◌>>◌}
use pdwfs.Machine.Symbol.{Symbol, symbol_id}
use pdwfs.Machine.Host.{Env, Arg, IsIn, IsDistinct}
use pdwfs.Libc.{call_next}
use pdwfs.Libc.Cache.{call_next-invoke}
use pdwfs.Registers.{init_pdwfs, contains_fd, free_mount_register, finalize_pdwfs}
use pdwfs.Registers.Setup.{IsPlain, is_one_of, init_pdwfs-registers}
use pdwfs.Registers.Shutdown.{libc_close_all, finalize_pdwfs-libc_close_all}
use pdwfs.Instance.{File, one_file_env, open_world}
use pdwfs.Instance.Text.{codes}

abbrev empty : File
empty = record { bytes = []; offset = 0 }

abbrev before : World
before = record (open_world []) { initialized = false; fd_register = []; mount_register = [] }

m-IsPlain : IsPlain (codes "/m")
m-IsPlain = record {
  ne_nil = λ e. cc;
  no_at = (λ e. cc, (λ e. cc, tt));
  no_nul = (λ e. cc, (λ e. cc, tt));
}

init_pdwfs-registers_example :
    (w' : World) × (init_pdwfs before ≡ done tt w')
    × (w'.initialized ≡ true)
    × ((k : Bytes)
        → one_file_env.mounts.contains k w'.mount_register ≡ is_one_of k (codes "/m" ∷ []))
    × ((fd : ℤ) → contains_fd fd w' ≡ false)
    × (w'.machine ≡ before.machine)
init_pdwfs-registers_example =
    init_pdwfs-registers before (codes "/m" ∷ []) [] empty (m-IsPlain, tt) refl

finalize_pdwfs-libc_close_all_example :
    (fds : List ℤ) × (finalize_pdwfs (open_world [])
      ≡ (libc_close_all fds >> free_mount_register) (record (open_world []) { fd_register = [] }))
    × ((fd : ℤ) → IsIn fd fds → contains_fd fd (open_world []) ≡ true)
    × ((fd : ℤ) → contains_fd fd (open_world []) ≡ true → IsIn fd fds)
    × IsDistinct fds
finalize_pdwfs-libc_close_all_example = finalize_pdwfs-libc_close_all (open_world []) empty refl

call_next-invoke_example :
    (w' : World) × (call_next Symbol.close (Arg.int (pos 3) ∷ []) before
      ≡ done (pos (suc (symbol_id Symbol.close))) w')
    × (w'.machine ≡ before.machine)
    × (w'.pointers (symbol_id Symbol.close) ≡ suc (symbol_id Symbol.close))
    × ((i : ℕ) → i ≢ symbol_id Symbol.close → w'.pointers i ≡ 0)
    × (w'.fd_register ≡ [])
    × (w'.go ≡ empty)
call_next-invoke_example =
    call_next-invoke Symbol.close (Arg.int (pos 3) ∷ []) before (suc (symbol_id Symbol.close)) refl
      (λ e. cc) (inl refl)

-- The same host, where `dlsym` finds nothing.
abbrev without_symbols : Env
without_symbols = record one_file_env { libc = record one_file_env.libc { dlsym = λ s. (0, true) } }

abbrev alone : World ⦃env = without_symbols⦄
alone = record {
  machine = before.machine;
  initialized = false;
  fd_register = [];
  mount_register = [];
  pointers = λ i. 0;
  go = empty;
}
