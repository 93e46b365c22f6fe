-- ===== src/Tree/Paths.antt =====
-- The paths of fs.go: `filepath.Abs`, `filepath.Dir` and `strings.HasPrefix` of Go, on paths with '/'.
-- `Abs` fails only where Go cannot read the working directory, which is left out.
use pdwfs.Base.{Bool, true, false, ◌&&◌, [], ◌∷◌, ◌++◌, Bytes, ◌==◌, if◌then◌else◌}
use pdwfs.Abspath.{slash}
use pdwfs.Abspath.Reference.{split, resolve, absolute}

-- `filepath.Clean` of a path that begins with '/'.
unfoldable pub clean : Bytes → Bytes
unfolding split resolve absolute
clean path = absolute (resolve (split path) [])

unfoldable pub abs : Bytes → Bytes → Bytes
unfolding clean
abs wd [] = clean wd
abs wd (c ∷ path) = if c == slash then clean (c ∷ path) else clean (wd ++ (slash ∷ c ∷ path))

abbrev has_slash : Bytes → Bool
has_slash [] = false
has_slash (c ∷ s) = if c == slash then true else has_slash s

-- The path up to its last '/'.
abbrev up_to_slash : Bytes → Bytes
up_to_slash [] = []
up_to_slash (c ∷ s) = if has_slash (c ∷ s) then c ∷ up_to_slash s else []

unfoldable pub dir : Bytes → Bytes
unfolding clean
dir path = clean (up_to_slash path)

abbrev pub has_prefix : Bytes → Bytes → Bool
has_prefix s [] = true
has_prefix [] (p ∷ ps) = false
has_prefix (c ∷ s) (p ∷ ps) = (c == p) && has_prefix s ps
