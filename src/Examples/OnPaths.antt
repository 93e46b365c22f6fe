-- ===== src/Examples/OnPaths.antt =====
-- `/m` is mounted, and `/` is the working directory.
use pdwfs.Base.{◌≡◌, refl, ◌↔◌, ◌⊎◌, Bool, true, false, inl, some, [], ◌∷◌, ℕ, arith, List}
use pdwfs.Machine.{World, done}
use pdwfs.Machine.Symbol.{Symbol}
use pdwfs.Machine.Host.{Arg}
use pdwfs.Abspath.{abspath, ok, null, enomem}
use pdwfs.Abspath.Reference.{absolute, resolve, split, start}
use pdwfs.Abspath.Resolve.{IsDir, abspath-absolute}
use pdwfs.Abspath.Again.{abspath-again}
use pdwfs.Calls.Early.{Call, call, call-call_next}
use pdwfs.Registers.{contains_path, path_not_managed}
use pdwfs.Registers.Mounts.{IsUnderMount, path_not_managed-absolute}
use pdwfs.Libc.{call_next}
use pdwfs.Calls.Local.{Local}
use pdwfs.Calls.OnPath.{PathCall, path_call}
use pdwfs.Calls.PassPath.{path_call-call_next}
use pdwfs.Calls.KeepPath.{path_call-Local}
use pdwfs.Instance.{one_file_env, open_world}
use pdwfs.Instance.Text.{codes}

root-IsDir : IsDir (codes "/") []
unfolding absolute
root-IsDir = record { names = tt; path = refl; short = omega arith }

abspath-absolute_example :
    ((n : ℕ) × (true ≡ false)
      × (abspath (inl (codes "/")) (λ _. true) (some (codes "m/../n")) ≡ null enomem))
    ⊎ (abspath (inl (codes "/")) (λ _. true) (some (codes "m/../n"))
        ≡ ok (absolute (resolve (split (codes "m/../n")) (start [] (codes "m/../n")))))
abspath-absolute_example =
    abspath-absolute (codes "/") [] (λ _. true) b'm' (codes "/../n") root-IsDir

path_not_managed-absolute_example :
    (b : Bool) × (path_not_managed (some (codes "x/../m2/f")) (open_world [])
      ≡ done b (open_world []))
    × ((b ≡ false)
        ↔ IsUnderMount
            (open_world [])
            (absolute (resolve (split (codes "x/../m2/f")) (start [] (codes "x/../m2/f")))))
path_not_managed-absolute_example =
    path_not_managed-absolute (open_world []) (codes "/") [] b'x' (codes "/../m2/f") refl refl
      root-IsDir (λ n. refl)

outside : path_not_managed (some (codes "/n")) (open_world []) ≡ done true (open_world [])
unfolding path_not_managed contains_path abspath
outside = refl

inside : path_not_managed (some (codes "/m/f")) (open_world []) ≡ done false (open_world [])
unfolding path_not_managed contains_path abspath
inside = refl

path_call-call_next_example :
    path_call (PathCall.unlink (some (codes "/n"))) (open_world [])
    ≡ call_next Symbol.unlink (Arg.text (some (codes "/n")) ∷ []) (open_world [])
path_call-call_next_example =
    path_call-call_next (PathCall.unlink (some (codes "/n"))) (open_world []) (open_world [])
      outside

path_call-Local_example :
    Local (open_world []) (path_call (PathCall.unlink (some (codes "/m/f"))) (open_world []))
path_call-Local_example =
    path_call-Local (PathCall.unlink (some (codes "/m/f"))) (open_world []) inside (λ e. cc)
      (λ e. cc)

abspath-again_example :
    (p : List ℕ) × (abspath (inl (codes "/")) (λ _. true) (some (codes "m/../n")) ≡ ok p)
    × (abspath (inl (codes "/")) (λ _. true) (some p) ≡ ok p)
abspath-again_example =
    abspath-again (codes "/") (codes "/") [] [] (λ _. true) (λ _. true) b'm' (codes "/../n")
      root-IsDir tt root-IsDir (λ n. refl) (λ n. refl)

abbrev early : World
early = record (open_world []) { initialized = false }

call-call_next_example :
    call (Call.path (PathCall.unlink (some (codes "/m/f")))) early
    ≡ call_next Symbol.unlink (Arg.text (some (codes "/m/f")) ∷ []) early
call-call_next_example =
    call-call_next (Call.path (PathCall.unlink (some (codes "/m/f")))) early refl
