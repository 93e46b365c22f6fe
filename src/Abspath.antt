-- ===== src/Abspath.antt =====
-- utils.c, `abspath`: the absolute form of a path, with `.` and `..` resolved and no link followed.
-- The buffer `rpath` is the list of the bytes below `dest`, last byte first, and its capacity
-- `rpath_limit - rpath`. A store at or beyond the capacity, and a read below `rpath`, `overruns`.
mod Tests
pub mod Reference
pub mod Shape
pub mod Trimmed
pub mod Pieces
pub mod Resolve
pub mod Again
use pdwfs.Base.{
  ℕ, zero, suc, ◌+◌, Bool, true, false, ◌&&◌, ◌⊎◌, inl, inr, none, some, List, [], ◌∷◌, Bytes,
  length, ltb, leb, ◌==◌, if◌then◌else◌, not,
}
use pdwfs.Base.Int.{ℤ, pos}
use pdwfs.Machine.Host.{CString}

pub data Outcome (A : Type 0) : Type 0 where
  ok : A → Outcome A
  -- returns NULL with this value in errno
  null : ℤ → Outcome A
  overruns : Outcome A
  spins : Outcome A

module _ {A B : Type 0} where
  infixl 5 ◌>>=◌
  abbrev pub ◌>>=◌ : Outcome A → (A → Outcome B) → Outcome B
  ok a >>= k = k a
  null e >>= k = null e
  overruns >>= k = overruns
  spins >>= k = spins

abbrev pub path_max : ℕ
path_max = 4096

abbrev pub enoent : ℤ
enoent = pos 2

abbrev pub enomem : ℤ
enomem = pos 12

abbrev pub einval : ℤ
einval = pos 22

abbrev pub erange : ℤ
erange = pos 34

abbrev pub slash : ℕ
slash = b'/'

pub record Buf : Type 0 where
  pub rev : Bytes
  pub limit : ℕ

-- while (*start == '/') ++start
pub skip_slashes : Bytes → Bytes
skip_slashes [] = []
skip_slashes (c ∷ s) = if c == slash then skip_slashes s else c ∷ s

-- for (end = start; *end && *end != '/'; ++end): the component [start, end)
pub component : Bytes → Bytes
component [] = []
component (c ∷ s) = if c == slash then [] else c ∷ component s

-- and what stands from `end` on
pub after : Bytes → Bytes
after [] = []
after (c ∷ s) = if c == slash then c ∷ s else after s

-- *dest++ = c
pub put : ℕ → Buf → Outcome Buf
put c b = if ltb (length b.rev) b.limit then ok (record b { rev = c ∷ b.rev }) else overruns

pub push_back : Bytes → Bytes → Bytes
push_back [] rev = rev
push_back (c ∷ s) rev = push_back s (c ∷ rev)

-- if (dest[-1] != '/') *dest++ = '/'
pub separate : Buf → Bytes → Outcome Buf
unfolding put
separate b [] = overruns
separate b (c ∷ rev) = if c == slash then ok b else put slash b

-- realloc, where the component does not fit
pub grow : (ℕ → Bool) → ℕ → Buf → Outcome Buf
grow alloc n b =
    let new_size = b.limit + (if ltb path_max (n + 1) then n + 1 else path_max) in
    if leb b.limit (length b.rev + n)
    then (if alloc new_size then ok (record b { limit = new_size }) else null enomem)
    else ok b

-- *dest = '\0'
pub terminate : Buf → Outcome Buf
terminate b = if ltb (length b.rev) b.limit then ok b else overruns

-- mempcpy(dest, start, end - start), and the NUL behind it
pub copy : Bytes → Buf → Outcome Buf
unfolding push_back terminate
copy s b =
    if leb (length b.rev + length s) b.limit
    then terminate (record b { rev = push_back s b.rev })
    else overruns

pub append : (ℕ → Bool) → Bytes → Buf → Outcome Buf
unfolding separate grow copy
append alloc s b = separate b b.rev >>= grow alloc (length s) >>= copy s

-- while ((--dest)[-1] != '/')
pub back_up_to : Bytes → ℕ → Outcome Bytes
back_up_to [] limit = overruns
back_up_to (c ∷ []) limit = overruns
back_up_to (c ∷ d ∷ rev) limit = if d == slash then ok (d ∷ rev) else back_up_to (d ∷ rev) limit

-- back up to the previous component, or stay at the root: if (dest > rpath + 1)
pub back_up : Buf → Outcome Buf
unfolding back_up_to
back_up b =
    if ltb 1 (length b.rev)
    then back_up_to b.rev b.limit >>= (λ rev. ok (record b { rev = rev }))
    else ok b

pub data Kind : Type 0 where
  here up entry : Kind

-- The tests on a component that is not empty.
pub kind : Bytes → Kind
kind [] = entry
kind (c ∷ []) = if c == b'.' then here else entry
kind (c ∷ d ∷ []) = if (c == b'.') && (d == b'.') then up else entry
kind (c ∷ d ∷ e ∷ s) = entry

pub visit : (ℕ → Bool) → Kind → Bytes → Buf → Outcome Buf
unfolding back_up append
visit alloc here s b = ok b
visit alloc up s b = back_up b
visit alloc entry s b = append alloc s b

-- The rounds of the `for` loop from `start` on; `spins` if the fuel runs out.
pub walk : (ℕ → Bool) → ℕ → Bytes → Buf → Outcome Buf
unfolding skip_slashes component after kind visit
walk alloc zero start b = spins
walk alloc (suc fuel) start b = elim (component (skip_slashes start)) [
  | [] ↦ ok b
  | c ∷ s ↦
      visit alloc (kind (c ∷ s)) (c ∷ s) b
      >>= (λ b'. walk alloc fuel (after (skip_slashes start)) b')
]

-- Drops a '/' at the end, unless it is the root.
pub trim : Bytes → Bytes
trim [] = []
trim (c ∷ []) = c ∷ []
trim (c ∷ d ∷ rev) = if c == slash then d ∷ rev else c ∷ d ∷ rev

pub finish : Buf → Outcome Bytes
unfolding trim push_back terminate
finish b = terminate (record b { rev = trim b.rev }) >>= (λ b'. ok (push_back b'.rev []))

-- The directory that a relative path starts from, and the root that an absolute one starts from.
pub origin : Bytes ⊎ ℤ → Bytes → Outcome Buf
unfolding push_back
origin cwd [] = overruns
origin (inr e) (c ∷ s) =
    if c == slash then ok (record { rev = slash ∷ []; limit = path_max }) else null e
origin (inl d) (c ∷ s) =
    if c == slash
    then ok (record { rev = slash ∷ []; limit = path_max })
    else (if ltb (length d) path_max
        then ok (record { rev = push_back d []; limit = path_max })
        else null erange)

-- `cwd` is what getcwd returns or the errno with which it fails; `alloc` tells whether an allocation
-- of that size succeeds.
unfoldable pub abspath : Bytes ⊎ ℤ → (ℕ → Bool) → CString → Outcome Bytes
unfolding origin walk finish
abspath cwd alloc none = null einval
abspath cwd alloc (some []) = null enoent
abspath cwd alloc (some (c ∷ s)) =
    if alloc path_max
    then (origin cwd (c ∷ s) >>= walk alloc (suc (length (c ∷ s))) (c ∷ s) >>= finish)
    else null enomem
