-- ===== src/Abspath/Tests.antt =====
-- `abspath` at concrete paths.
use pdwfs.Base.{◌≡◌, refl, true, inl, some}
use pdwfs.Abspath.{abspath, ok}
use pdwfs.Instance.Text.{codes}

dots :
    abspath (inl (codes "/home/me")) (λ _. true) (some (codes "..//a/./b/../../c/"))
    ≡ ok (codes "/home/c")
unfolding abspath
dots = refl

root : abspath (inl (codes "/home/me")) (λ _. true) (some (codes "/../..")) ≡ ok (codes "/")
unfolding abspath
root = refl
