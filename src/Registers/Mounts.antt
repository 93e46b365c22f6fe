-- ===== src/Registers/Mounts.antt =====
-- The mount register: which paths are managed, and that the constructor registers the mount points
-- that the Go layer names.
use pdwfs.Base.{ℕ, ◌≡◌, refl, ◌↔◌, inl, inr, Bool, true, false, not, some, List, ◌∷◌, ◌++◌, Bytes}
use pdwfs.Machine.{World, done}
use pdwfs.Machine.Host.{Env, CString}
use pdwfs.Abspath.{ok, abspath}
use pdwfs.Abspath.Reference.{absolute, resolve, split, start}
use pdwfs.Abspath.Resolve.{IsDir, abspath-absolute}
use pdwfs.Registers.{contains_path, path_not_managed, finder}

module _ ⦃env : Env⦄ where
  -- Some mount point begins the path, byte for byte.
  abbrev pub IsUnderMount : World → Bytes → Type 0
  IsUnderMount w p =
      (m : Bytes) × (env.mounts.contains m w.mount_register ≡ true) × ((r : Bytes) × (p ≡ m ++ r))

  found_iff :
      (w : World) (p : Bytes)
      → (env.mounts.find (finder p) w.mount_register ≡ true) ↔ IsUnderMount w p
  unfolding finder
  found_iff w p = (
    λ h.
        let (m, i, f) = env.mounts.find_true (finder p) w.mount_register h in
        (m, i, env.strings.has_prefix_true p m f),
    λ (m, i, (r, e)).
        env.mounts.find_mem (finder p) w.mount_register m i
          (rw e (env.strings.has_prefix-append m r)),
  )

  not-false : (b : Bool) → not b ≡ false → b ≡ true
  not-false true h = refl
  not-false false h = cc

  contains_path-found :
      (w : World) (path : CString) (p : Bytes)
      → abspath (env.libc.getcwd w.sys) (env.libc.can_alloc w.sys) path ≡ ok p
      → contains_path path w ≡ done (env.mounts.find (finder p) w.mount_register) w
  unfolding contains_path
  contains_path-found w path p e = rw e

  path_not_managed-found :
      (w : World) (path : CString) (b : Bool)
      → w.initialized ≡ true
      → contains_path path w ≡ done b w
      → path_not_managed path w ≡ done (not b) w
  unfolding path_not_managed
  path_not_managed-found w path b i e = rw e (simp i)

  -- After the constructor, with a working directory whose path fits PATH_MAX and memory to be had, a
  -- path is managed exactly when the absolute path of the components that it leads to begins, byte for
  -- byte, with a registered mount point; the test changes nothing.
  pub path_not_managed-absolute :
      (w : World) (cwd : Bytes) (st : List Bytes) (c : ℕ) (s : Bytes)
      → w.initialized ≡ true
      → env.libc.getcwd w.sys ≡ inl cwd
      → IsDir cwd st
      → ((n : ℕ) → env.libc.can_alloc w.sys n ≡ true)
      → (b : Bool) × (path_not_managed (some (c ∷ s)) w ≡ done b w)
        × ((b ≡ false) ↔ IsUnderMount w (absolute (resolve (split (c ∷ s)) (start st (c ∷ s)))))
  path_not_managed-absolute w cwd st c s i e dir enough =
      elim (abspath-absolute cwd st (env.libc.can_alloc w.sys) c s dir) [
        | inl (n, refused, _) ↦ cc (enough n)
        | inr f ↦
            let p = absolute (resolve (split (c ∷ s)) (start st (c ∷ s))) in
            let b = env.mounts.find (finder p) w.mount_register in
            let found = contains_path-found w (some (c ∷ s)) p (rw e f) in
            (
              not b,
              path_not_managed-found w (some (c ∷ s)) b i found,
              (λ h. (found_iff w p).0 (not-false b h), λ h. rw ((found_iff w p).1 h) refl),
            )
      ]
