-- ===== src/Lib.antt =====
-- pdwfs (src/c, src/go): a library that is loaded before libc and redirects the calls on files below a
-- mount point to a file system that the Go code below src/go keeps in Redis.
--
-- The program. `pdwfs.c` defines some ninety functions of libc. Most test whether what they name is
-- managed: a path by the mount register, a descriptor or the descriptor of a `FILE` by the descriptor
-- register. Some test nothing and always go to libc. What is not managed goes to the next definition in
-- libc through `libc.c`; what is managed goes to the functions that src/go/pdwfs.go exports, or ends the
-- process where pdwfs does not implement the call. A managed file has a twin, a temporary file of libc,
-- whose descriptor or `FILE` stands for it in the process.
--
-- The files.
--   Base       numbers, tests, lists and C integers: conversions to `int`, `size_t` and `char` wrap
--              around
--   Machine    the state of the process and commands over it; Machine/Host has what the C code calls and
--              does not define, as the record `Env`: libc and the kernel, GLib, the Go layer;
--              Machine/Symbol lists the table of pointers; Machine/Access has the elementary steps
--   Libc       src/c/libc.c: CALL_NEXT and the wrapper `libc_f` of each function f; Libc/Cache is about
--              the table of pointers
--   Abspath    src/c/utils.c: `abspath`; Abspath/Reference says what it is to return
--   Registers  src/c/pdwfs.c: both registers, `close`, the constructor and the destructor
--   Intercept  src/c/pdwfs.c: the other intercepted functions, by the shape of their bodies: Guards (the
--              macros and the calls into Go), Files, Vectors, Paths, Opening, Streams, Lines, Through
--              (always libc), Unsupported (never implemented). A C function keeps its name, but `open` is
--              `open_file`, and leading underscores are dropped (`__xstat` is `xstat`). `creat64`,
--              `open64` and `fopen64` are aliases in C and the same definitions here. Opened, Ended,
--              Indicators, Short and the modules below Lines are about what these functions do
--   Calls      the calls by what their guard tests, as data, and what all calls of a kind have in common
--   Ring       src/go/util/consistenthash.go and the ring of src/go/redisfs/redis.go: which instance of
--              Redis holds a key
--   Store      src/go/redisfs/store.go: Keys, Stripes (stripeLayout), DataStore (the transactions of a
--              stripe, WriteAt and ReadAt), Size (GetSize), Resize (Remove and Resize); Redis has the
--              commands of the server, as a record with their laws; Tiling and Few are about the layout,
--              Commands to Stored about what writes leave, Flat and Read about the store as a sequence of
--              bytes, as are the modules below Resize
--   MemFile    src/go/redisfs/file.go: an open file; MemFile/Writes and MemFile/Reads are about what
--              these do to its bytes
--   Tree       src/go/redisfs/inodes.go and fs.go: the metadata of inodes in Redis, the map of inodes of
--              the process, Mkdir and Stat; Opening has OpenFile; Removal has ReadDir, RmDir and Remove;
--              Paths has Go's functions on paths; MetaRedis has the commands of Redis for it. View is the
--              tree that Redis holds, with the sets of children; Flags says what the flags of open ask
--              for; Placed and Listed are about the commands, Lookup, Made, OldInodes, Opened and
--              Reopened about the operations
--   Instance   a host to run the model on, with one file; Examples uses it
--
-- The state. `World` has the static variables of pdwfs.c and libc.c, the state of the Go layer, and the
-- machine: the state of libc and the kernel, memory, `errno`, and the `_flags` of each `FILE`. A command
-- takes a `World` to a `Run`: it is done with a result and a new state, exits with a status, or ends in a
-- panic of Go, a fault, or with the bound of a loop used up. Memory is a function on addresses; a store
-- outside the buffer that it is meant for is a fault where the code could do it.
--
-- The store. The data of all Redis instances are a function from the clients of the ring, and each
-- transaction is a step on the data of one client. `WriteAt` of store.go runs a goroutine for each
-- stripe: the relation `WriteAt` takes their transactions in any order, `write_at` in that of the
-- stripes. Offsets and identifiers are 64-bit integers, which wrap around. A ring without instances, on
-- which every call panics, and Redis servers that do not answer are left out, as are keys of inodes that
-- another client has given another type of value.
--
-- Bounds. `layout_loop` has one round more than there are bytes, and takes at least one in each. `walk`,
-- the loop of `abspath`, has one round more than its path has bytes, and never uses them up. `close`
-- calls itself through the descriptor register: two levels are allowed, and suffice. `getdelim`,
-- `getline` and `fgets` take their number of rounds, since a file need not end: one round is used for
-- each byte read.
--
-- What is left to parameters: the Go layer (its functions return or panic, and keep their own state; a
-- slice to read into comes back as the bytes stored at its start), GHashTable, g_str_has_prefix and
-- g_strsplit (with the laws of their manual), dlsym and the functions it finds, tmpfile, fileno, getcwd,
-- malloc, realloc, vsnprintf, the commands of Redis, the capacities that Go's runtime chooses for a
-- slice, and the hash function of the ring.
--
-- What is not modelled: the traces on stderr; the copies of strings for Go, which are never freed, and
-- free; threads of the process; the modes of inodes, and pdwfs.go below src/go; the copies of redigo and
-- pv; scripts, containers and examples.
pub mod Base
pub mod Machine
pub mod Libc
pub mod Abspath
pub mod Registers
pub mod Ring
pub mod Store
pub mod MemFile
pub mod Intercept
pub mod Instance
pub mod Calls
pub mod Examples
pub mod Tree
