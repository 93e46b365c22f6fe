-- ===== src/Machine/Host.antt =====
-- What pdwfs.c, utils.c and libc.c call and do not define, as one record `Env`: the C library and
-- the kernel below it, GLib, and the functions that src/go/pdwfs.go exports. The laws in `Table`
-- and `Strings` are those that GLib's manual states.
use pdwfs.Base.{ℕ, ◌≡◌, ◌≢◌, ◌⊎◌, Bool, true, false, Option, List, [], ◌∷◌, ◌++◌, Bytes}
use pdwfs.Base.Int.{ℤ}
use pdwfs.Machine.Symbol.{Symbol}

-- A `const char *` argument; `none` is NULL.
abbrev pub CString : Type 0
CString = Option Bytes

abbrev pub Mem : Type 0
Mem = ℕ → ℕ

-- `struct iovec`
pub record IoVec : Type 0 where
  pub base : ℕ
  pub len : ℕ

-- The arguments of a libc call, as they are passed on.
pub data Arg : Type 0 where
  int : ℤ → Arg
  size : ℕ → Arg
  text : CString → Arg
  ptr : ℕ → Arg
  vec : List IoVec → Arg

-- The two indicators of a `FILE` that the code sets in `stream->_flags`.
pub record Flags : Type 0 where
  pub err_seen : Bool
  pub eof_seen : Bool

-- What libc functions act on: the kernel and libc's own state, the memory of the program, `errno`
-- and the `_flags` of each `FILE`.
pub record Machine (Sys : Type 0) : Type 0 where
  pub sys : Sys
  pub mem : Mem
  -- the pointers and sizes that are passed by address
  pub words : ℕ → ℕ
  pub errno : ℤ
  pub flags : ℕ → Flags

abbrev pub IsIn : {K : Type 0} → K → List K → Type 0
IsIn k [] = ⊥
IsIn k (j ∷ ks) = (j ≡ k) ⊎ IsIn k ks

-- No member stands in a list twice.
abbrev pub IsDistinct : {K : Type 0} → List K → Type 0
IsDistinct [] = Unit
IsDistinct (k ∷ ks) = (IsIn k ks → ⊥) × IsDistinct ks

-- `GHashTable`, used as a set of keys (every value is a constant).
pub record Table (K : Type 0) : Type 1 where
  pub T : Type 0
  pub new : T
  pub insert : K → T → T
  pub remove : K → T → T
  pub contains : K → T → Bool
  pub find : (K → Bool) → T → Bool
  pub keys : T → List K
  -- g_hash_table_new, g_hash_table_insert, g_hash_table_remove
  pub contains-new : (k : K) → contains k new ≡ false
  pub contains-insert_self : (k : K) (t : T) → contains k (insert k t) ≡ true
  pub contains-insert_ne : (k j : K) (t : T) → j ≢ k → contains j (insert k t) ≡ contains j t
  pub contains-remove_self : (k : K) (t : T) → contains k (remove k t) ≡ false
  pub contains-remove_ne : (k j : K) (t : T) → j ≢ k → contains j (remove k t) ≡ contains j t
  -- what g_hash_table_destroy walks: each key of the table, once
  pub keys_contains : (k : K) (t : T) → IsIn k (keys t) → contains k t ≡ true
  pub contains_keys : (k : K) (t : T) → contains k t ≡ true → IsIn k (keys t)
  pub keys-IsDistinct : (t : T) → IsDistinct (keys t)
  -- g_hash_table_find: some key of the table meets the test, or none does
  pub find_true :
      (p : K → Bool) (t : T) → find p t ≡ true → (k : K) × (contains k t ≡ true) × (p k ≡ true)
  pub find_mem : (p : K → Bool) (t : T) (k : K) → contains k t ≡ true → p k ≡ true → find p t ≡ true

-- A byte occurs in a string.
abbrev pub Lacks : ℕ → Bytes → Type 0
Lacks c [] = Unit {0}
Lacks c (x ∷ xs) = (x ≢ c) × Lacks c xs

-- g_str_has_prefix and g_strsplit, at a delimiter of one byte.
pub record Strings : Type 0 where
  pub has_prefix : Bytes → Bytes → Bool
  pub strsplit : Bytes → ℕ → List Bytes
  pub has_prefix-append : (p r : Bytes) → has_prefix (p ++ r) p ≡ true
  pub has_prefix_true : (s p : Bytes) → has_prefix s p ≡ true → (r : Bytes) × (s ≡ p ++ r)
  pub strsplit-nil : (c : ℕ) → strsplit [] c ≡ []
  pub strsplit-single :
      (c x : ℕ) (xs : Bytes) → Lacks c (x ∷ xs) → strsplit (x ∷ xs) c ≡ (x ∷ xs) ∷ []
  pub strsplit-append :
      (c : ℕ) (xs ys : Bytes)
      → Lacks c xs
      → ys ≢ []
      → strsplit (xs ++ c ∷ ys) c ≡ xs ∷ strsplit ys c
  pub strsplit-last : (c : ℕ) (xs : Bytes) → Lacks c xs → strsplit (xs ++ c ∷ []) c ≡ xs ∷ [] ∷ []

-- A call into the Go layer returns, or panics, which ends the process.
pub data GoRun (Go A : Type 0) : Type 0 where
  returned : A → Go → GoRun Go A
  panicked : GoRun Go A

abbrev pub GoCall : Type 0 → Type 0 → Type 0
GoCall Go A = Go → GoRun Go A

-- The functions that pdwfs.go exports. A slice to write from is passed as its bytes; a slice to
-- read into as its length, and the bytes that were stored at its start come back beside the result.
pub record GoLayer (Go : Type 0) : Type 0 where
  pub init_pdwfs : ℕ → GoCall Go Bytes
  pub finalize_pdwfs : GoCall Go (Unit {0})
  pub get_errno : Go → ℤ
  pub open_file : Bytes → ℤ → ℤ → ℤ → GoCall Go ℤ
  pub fopen : Bytes → Bytes → ℤ → GoCall Go ℤ
  pub close : ℤ → GoCall Go ℤ
  pub write : ℤ → Bytes → GoCall Go ℤ
  pub pwrite : ℤ → Bytes → ℤ → GoCall Go ℤ
  pub writev : ℤ → List Bytes → GoCall Go ℤ
  pub pwritev : ℤ → List Bytes → ℤ → GoCall Go ℤ
  pub read : ℤ → ℕ → GoCall Go (ℤ × Bytes)
  pub pread : ℤ → ℕ → ℤ → GoCall Go (ℤ × Bytes)
  pub readv : ℤ → List ℕ → GoCall Go (ℤ × List Bytes)
  pub preadv : ℤ → List ℕ → ℤ → GoCall Go (ℤ × List Bytes)
  pub lseek : ℤ → ℤ → ℤ → GoCall Go ℤ
  pub unlink : Bytes → GoCall Go ℤ
  pub mkdir : Bytes → ℤ → GoCall Go ℤ
  pub rmdir : Bytes → GoCall Go ℤ
  pub access : Bytes → ℤ → GoCall Go ℤ
  pub ftruncate : ℤ → ℤ → GoCall Go ℤ
  pub stat : Bytes → ℕ → Mem → GoCall Go (ℤ × Mem)
  pub stat64 : Bytes → ℕ → Mem → GoCall Go (ℤ × Mem)
  pub lstat : Bytes → ℕ → Mem → GoCall Go (ℤ × Mem)
  pub lstat64 : Bytes → ℕ → Mem → GoCall Go (ℤ × Mem)
  pub fstat : ℤ → ℕ → Mem → GoCall Go (ℤ × Mem)
  pub fstat64 : ℤ → ℕ → Mem → GoCall Go (ℤ × Mem)
  pub statfs : Bytes → ℕ → Mem → GoCall Go (ℤ × Mem)
  pub statfs64 : Bytes → ℕ → Mem → GoCall Go (ℤ × Mem)
  pub statvfs : Bytes → ℕ → Mem → GoCall Go (ℤ × Mem)
  pub statvfs64 : Bytes → ℕ → Mem → GoCall Go (ℤ × Mem)
  pub fadvise : ℤ → ℤ → ℤ → ℤ → GoCall Go ℤ
  pub fflush : ℕ → GoCall Go ℤ

-- The C library. `dlsym` gives the address of the next definition of a symbol and whether `dlerror`
-- reports an error; `invoke` calls a libc function by its address.
pub record Libc (Sys : Type 0) : Type 0 where
  pub dlsym : Symbol → ℕ × Bool
  pub invoke : ℕ → List Arg → Machine Sys → ℤ × Machine Sys
  pub tmpfile : Sys → ℕ × Sys
  pub fileno : Sys → ℕ → ℤ
  pub getcwd : Sys → Bytes ⊎ ℤ
  pub can_alloc : Sys → ℕ → Bool
  pub malloc : ℕ → Sys → ℕ × Sys
  pub realloc : ℕ → ℕ → Sys → ℕ × Sys
  pub vsnprintf : Bytes → List Arg → Option Bytes

pub record Env : Type 1 where
  pub Sys : Type 0
  pub Go : Type 0
  pub libc : Libc Sys
  pub go_layer : GoLayer Go
  pub mounts : Table Bytes
  pub fds : Table ℤ
  pub strings : Strings
