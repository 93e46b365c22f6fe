-- ===== src/Abspath/Reference.antt =====
-- What an absolute path is, without a buffer: the components of a path, cut at every '/', applied
-- one by one to a stack of components, innermost first.
use pdwfs.Base.{ℕ, ◌≢◌, List, [], ◌∷◌, ◌++◌, Bytes, ◌==◌, bytes_eq, if◌then◌else◌}
use pdwfs.Machine.Host.{Lacks}
use pdwfs.Abspath.{slash}

abbrev add_first : ℕ → List Bytes → List Bytes
add_first c [] = (c ∷ []) ∷ []
add_first c (p ∷ ps) = (c ∷ p) ∷ ps

-- The pieces of a path between its slashes, empty ones included.
unfoldable pub split : Bytes → List Bytes
split [] = [] ∷ []
split (c ∷ s) = if c == slash then [] ∷ split s else add_first c (split s)

abbrev pub pop : List Bytes → List Bytes
pop [] = []
pop (p ∷ st) = st

-- An empty piece and `.` change nothing, `..` leaves the innermost component, and any other piece
-- becomes the innermost component.
unfoldable pub enter : Bytes → List Bytes → List Bytes
enter [] st = st
enter (c ∷ s) st =
    if bytes_eq (c ∷ s) (b'.' ∷ [])
    then st
    else if bytes_eq (c ∷ s) (b'.' ∷ b'.' ∷ [])
    then pop st
    else (c ∷ s) ∷ st

unfoldable pub resolve : List Bytes → List Bytes → List Bytes
resolve [] st = st
resolve (p ∷ ps) st = resolve ps (enter p st)

-- Puts '/' and its name before the rest for each component, innermost first.
unfoldable pub climb : List Bytes → Bytes → Bytes
climb [] rest = rest
climb (p ∷ st) rest = climb st (slash ∷ (p ++ rest))

-- The path of a stack: "/" if it is empty.
unfoldable pub absolute : List Bytes → Bytes
unfolding climb
absolute [] = slash ∷ []
absolute (p ∷ st) = climb (p ∷ st) []

-- A file name: not empty, and without '/'.
pub record IsName (p : Bytes) : Type 0 where
  pub ne_nil : p ≢ []
  pub lacks : Lacks slash p

abbrev pub AllNames : List Bytes → Type 0
AllNames [] = Unit {0}
AllNames (p ∷ st) = IsName p × AllNames st

-- The components that a path starts from: none, or those of the working directory.
unfoldable pub start : List Bytes → Bytes → List Bytes
start st [] = st
start st (c ∷ s) = if c == slash then [] else st
