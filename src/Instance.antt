-- ===== src/Instance.antt =====
-- A host to run the model on: GLib over lists, a C library that hands out descriptors in turn and
-- reads its indicators from `_flags`, and a Go layer with one file.
pub mod ListTable
pub mod RedisTable
pub mod MetaTable
pub mod Text
use pdwfs.Base.{
  ℕ, suc, ◌+◌, ◌≡◌, Bool, true, false, inl, none, some, List, [], ◌∷◌, ◌++◌, Bytes, ◌==◌, length,
  take, drop, bytes_eq, bytes_eq_iff, if◌then◌else◌,
}
use pdwfs.Base.Int.{ℤ, pos, minus_one, ◌==ℤ◌, ==ℤ_iff}
use pdwfs.Machine.{World}
use pdwfs.Machine.Symbol.{Symbol, symbol_id}
use pdwfs.Machine.Host.{Env, Libc, GoLayer, GoCall, returned, panicked, Machine, Flags, Arg, Mem}
use ListTable.{list_table}
use Text.{strings}

-- One file, `/m/f`, of these bytes, open at this offset.
pub record File : Type 0 where
  pub bytes : Bytes
  pub offset : ℕ

abbrev read_file : ℕ → GoCall File (ℤ × Bytes)
read_file n f =
    let bs = take n (drop f.offset f.bytes) in
    returned (pos (length bs), bs) (record f { offset = f.offset + length bs })

abbrev write_file : Bytes → GoCall File ℤ
write_file bs f =
    let end = f.offset + length bs in
    returned (pos (length bs))
      (record { bytes = take f.offset f.bytes ++ bs ++ drop end f.bytes; offset = end })

abbrev seek_file : ℤ → ℤ → GoCall File ℤ
seek_file (pos n) whence f =
    let at =
      if whence ==ℤ pos 1
      then f.offset + n
      else if whence ==ℤ pos 2
      then length f.bytes + n
      else n in
    returned (pos at) (record f { offset = at })
seek_file n whence f = panicked

-- `open` and its like know one name.
abbrev named : Bytes → ℤ → GoCall File ℤ
named name r f =
    returned (if bytes_eq name (b'/' ∷ b'm' ∷ b'/' ∷ b'f' ∷ []) then r else minus_one) f

abbrev accept : ℤ → GoCall File ℤ
accept r f = returned r f

abbrev untouched : ℤ → Mem → GoCall File (ℤ × Mem)
untouched r m f = returned (r, m) f

abbrev one_file : GoLayer File
one_file = record {
  init_pdwfs = λ n f. returned (b'/' ∷ b'm' ∷ b'@' ∷ 0 ∷ []) f;
  finalize_pdwfs = λ f. returned tt f;
  get_errno = λ f. pos 2;
  open_file = λ name flags mode fd. named name fd;
  fopen = λ name mode fd. named name fd;
  close = λ fd. accept (pos 0);
  write = λ fd bs. write_file bs;
  pwrite = λ fd bs off. accept (pos (length bs));
  writev = λ fd bss. accept (pos 0);
  pwritev = λ fd bss off. accept (pos 0);
  read = λ fd n. read_file n;
  pread = λ fd n off f. returned (pos 0, []) f;
  readv = λ fd ns f. returned (pos 0, []) f;
  preadv = λ fd ns off f. returned (pos 0, []) f;
  lseek = λ fd off whence. seek_file off whence;
  unlink = λ name. named name (pos 0);
  mkdir = λ name mode. accept (pos 0);
  rmdir = λ name. named name (pos 0);
  access = λ name mode. named name (pos 0);
  ftruncate = λ fd n. accept (pos 0);
  stat = λ name p. untouched (pos 0);
  stat64 = λ name p. untouched (pos 0);
  lstat = λ name p. untouched (pos 0);
  lstat64 = λ name p. untouched (pos 0);
  fstat = λ fd p. untouched (pos 0);
  fstat64 = λ fd p. untouched (pos 0);
  statfs = λ name p. untouched (pos 0);
  statfs64 = λ name p. untouched (pos 0);
  statvfs = λ name p. untouched (pos 0);
  statvfs64 = λ name p. untouched (pos 0);
  fadvise = λ fd off n advice. accept (pos 0);
  fflush = λ stream. accept (pos 0);
}

-- `feof` reads the indicator of its stream; every other function returns its own address.
abbrev invoke : ℕ → List Arg → Machine ℕ → ℤ × Machine ℕ
invoke p (Arg.ptr s ∷ []) m = (
  if p == suc (symbol_id Symbol.feof)
      then (if (m.flags s).eof_seen then pos 1 else pos 0)
      else pos p,
  m,
)
invoke p args m = (pos p, m)

abbrev small_libc : Libc ℕ
small_libc = record {
  dlsym = λ s. (suc (symbol_id s), false);
  invoke = invoke;
  tmpfile = λ n. (n, suc n);
  fileno = λ n s. pos s;
  getcwd = λ n. inl (b'/' ∷ []);
  can_alloc = λ n size. true;
  malloc = λ size n. (suc n, n + size);
  realloc = λ p size n. (suc n, n + size);
  vsnprintf = λ fmt args. some fmt;
}

instance abbrev pub one_file_env : Env
one_file_env = record {
  Sys = ℕ;
  Go = File;
  libc = small_libc;
  go_layer = one_file;
  mounts = list_table bytes_eq bytes_eq_iff;
  fds = list_table ◌==ℤ◌ ==ℤ_iff;
  strings = strings;
}

abbrev pub no_flags : Flags
no_flags = record { err_seen = false; eof_seen = false }

-- Mounted at `/m`, with stream 50 open on descriptor 50 and the next temporary file at 60.
abbrev pub open_world : Bytes → World
open_world bs = record {
  machine = record { sys = 60; mem = λ p. 0; words = λ p. 0; errno = pos 0; flags = λ s. no_flags };
  initialized = true;
  fd_register = pos 50 ∷ [];
  mount_register = (b'/' ∷ b'm' ∷ []) ∷ [];
  pointers = λ i. 0;
  go = record { bytes = bs; offset = 0 };
}
