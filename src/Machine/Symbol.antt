-- ===== src/Machine/Symbol.antt =====
-- libc.h and libc.c: the libc functions that pdwfs wraps, one constructor for each, in their order, and
-- their places in the table of `ptr_*` variables. `open_file` is `open`; `xstat` and its like are
-- `__xstat` and so on.
use pdwfs.Base.{ℕ}

pub data Symbol : Type 0 where
  open_file close write read open64 creat creat64 fdatasync fsync ftruncate64 ftruncate : Symbol
  truncate64 truncate lseek64 lseek pread pread64 preadv preadv64 pwrite pwrite64 : Symbol
  pwritev pwritev64 readv writev ioctl access unlink xstat xstat64 lxstat lxstat64 : Symbol
  fxstat fxstat64 statfs statfs64 fstatfs fstatfs64 fdopen fopen fopen64 freopen : Symbol
  freopen64 fclose fflush fputc fgets fgetc fgetpos fgetpos64 fseek fseeko fseeko64 : Symbol
  fsetpos fsetpos64 fputs putc getc ungetc ftell ftello ftello64 fread fwrite rewind : Symbol
  dup2 unlinkat openat faccessat fxstatat fxstatat64 mkdir mkdirat rmdir rename : Symbol
  renameat renameat2 posix_fadvise posix_fadvise64 statvfs statvfs64 fstatvfs : Symbol
  fstatvfs64 getdelim getline opendir feof ferror clearerr getxattr : Symbol

-- The position of the variable of a symbol in the table.
unfoldable pub symbol_id : Symbol → ℕ
symbol_id open_file = 0
symbol_id close = 1
symbol_id write = 2
symbol_id read = 3
symbol_id open64 = 4
symbol_id creat = 5
symbol_id creat64 = 6
symbol_id fdatasync = 7
symbol_id fsync = 8
symbol_id ftruncate64 = 9
symbol_id ftruncate = 10
symbol_id truncate64 = 11
symbol_id truncate = 12
symbol_id lseek64 = 13
symbol_id lseek = 14
symbol_id pread = 15
symbol_id pread64 = 16
symbol_id preadv = 17
symbol_id preadv64 = 18
symbol_id pwrite = 19
symbol_id pwrite64 = 20
symbol_id pwritev = 21
symbol_id pwritev64 = 22
symbol_id readv = 23
symbol_id writev = 24
symbol_id ioctl = 25
symbol_id access = 26
symbol_id unlink = 27
symbol_id xstat = 28
symbol_id xstat64 = 29
symbol_id lxstat = 30
symbol_id lxstat64 = 31
symbol_id fxstat = 32
symbol_id fxstat64 = 33
symbol_id statfs = 34
symbol_id statfs64 = 35
symbol_id fstatfs = 36
symbol_id fstatfs64 = 37
symbol_id fdopen = 38
symbol_id fopen = 39
symbol_id fopen64 = 40
symbol_id freopen = 41
symbol_id freopen64 = 42
symbol_id fclose = 43
symbol_id fflush = 44
symbol_id fputc = 45
symbol_id fgets = 46
symbol_id fgetc = 47
symbol_id fgetpos = 48
symbol_id fgetpos64 = 49
symbol_id fseek = 50
symbol_id fseeko = 51
symbol_id fseeko64 = 52
symbol_id fsetpos = 53
symbol_id fsetpos64 = 54
symbol_id fputs = 55
symbol_id putc = 56
symbol_id getc = 57
symbol_id ungetc = 58
symbol_id ftell = 59
symbol_id ftello = 60
symbol_id ftello64 = 61
symbol_id fread = 62
symbol_id fwrite = 63
symbol_id rewind = 64
symbol_id dup2 = 65
symbol_id unlinkat = 66
symbol_id openat = 67
symbol_id faccessat = 68
symbol_id fxstatat = 69
symbol_id fxstatat64 = 70
symbol_id mkdir = 71
symbol_id mkdirat = 72
symbol_id rmdir = 73
symbol_id rename = 74
symbol_id renameat = 75
symbol_id renameat2 = 76
symbol_id posix_fadvise = 77
symbol_id posix_fadvise64 = 78
symbol_id statvfs = 79
symbol_id statvfs64 = 80
symbol_id fstatvfs = 81
symbol_id fstatvfs64 = 82
symbol_id getdelim = 83
symbol_id getline = 84
symbol_id opendir = 85
symbol_id feof = 86
symbol_id ferror = 87
symbol_id clearerr = 88
symbol_id getxattr = 89
