-- ===== src/Registers/Setup.antt =====
-- The constructor: the mount points come from the Go layer in a buffer, each followed by '@', with a
-- NUL at the end, and end up in the mount register.
use pdwfs.Base.{
  ◌≡◌, refl, sym, ◌∙◌, ap, ◌≢◌, Bool, true, false, ◌||◌, List, [], ◌∷◌, ◌++◌, Bytes, bytes_eq,
  bytes_eq_iff, arith, Bool-cases, inl, inr,
}
use pdwfs.Base.Int.{ℤ}
use mathlib.Core.List.{append_assoc}
use pdwfs.Machine.{World, done}
use pdwfs.Machine.Host.{Env, Lacks, returned}
use pdwfs.Machine.Access.{go_call}
use pdwfs.Registers.{register_mounts, c_string, init_pdwfs, contains_fd}

-- What pdwfs.go writes for these mount points, before the NUL.
abbrev pub encode : List Bytes → Bytes
encode [] = []
encode (m ∷ ms) = m ++ b'@' ∷ encode ms

-- A mount point that survives the way: not empty, with no '@' and no NUL in it.
pub record IsPlain (m : Bytes) : Type 0 where
  pub ne_nil : m ≢ []
  pub no_at : Lacks b'@' m
  pub no_nul : Lacks 0 m

abbrev pub AllPlain : List Bytes → Type 0
AllPlain [] = Unit {0}
AllPlain (m ∷ ms) = IsPlain m × AllPlain ms

-- The mount point is one of these.
unfoldable pub is_one_of : Bytes → List Bytes → Bool
is_one_of k [] = false
is_one_of k (m ∷ ms) = bytes_eq m k || is_one_of k ms

c_string-append : (s r : Bytes) → Lacks 0 s → c_string (s ++ r) ≡ s ++ c_string r
unfolding c_string
c_string-append [] r l = refl
c_string-append (c ∷ s) r l = ground (arith, c_string-append s r l.1)

c_string-encode :
    (ms : List Bytes) (junk : Bytes) → AllPlain ms → c_string (encode ms ++ 0 ∷ junk) ≡ encode ms
unfolding c_string
c_string-encode [] junk h = refl
c_string-encode (m ∷ ms) junk h =
    ap c_string (append_assoc m (b'@' ∷ encode ms) (0 ∷ junk))
    ∙ c_string-append m (b'@' ∷ (encode ms ++ 0 ∷ junk)) h.0.no_nul
    ∙ ap (λ r. m ++ b'@' ∷ r) (c_string-encode ms junk h.1)

module _ ⦃env : Env⦄ where
  -- g_strsplit gives the mount points back, and an empty piece behind the last '@'.
  strsplit-encode :
      (m : Bytes) (ms : List Bytes)
      → AllPlain (m ∷ ms)
      → env.strings.strsplit (encode (m ∷ ms)) b'@' ≡ m ∷ (ms ++ [] ∷ [])
  strsplit-encode m [] h = env.strings.strsplit-last b'@' m h.0.no_at
  strsplit-encode m (n ∷ ms) h =
      env.strings.strsplit-append b'@' m (encode (n ∷ ms)) h.0.no_at (ne n (encode ms))
      ∙ ap (◌∷◌ m) (strsplit-encode n ms h.1)
    where
      ne : (n r : Bytes) → n ++ b'@' ∷ r ≢ []
      ne [] r e = cc
      ne (c ∷ n) r e = cc

  contains-insert :
      (k m : Bytes) (t : env.mounts.T)
      → env.mounts.contains k (env.mounts.insert m t) ≡ (bytes_eq m k || env.mounts.contains k t)
  contains-insert k m t = elim (Bool-cases (bytes_eq m k)) [
    | inl e ↦ rw (e, (bytes_eq_iff m k).0 e) (env.mounts.contains-insert_self k t)
    | inr e ↦ rw e (
        env.mounts.contains-insert_ne m k t
          (λ p. let q = (bytes_eq_iff m k).1 (sym p) in cc (q, e)))
  ]

  contains-register_mounts :
      (k : Bytes) (ms : List Bytes) (t : env.mounts.T)
      → AllPlain ms
      → env.mounts.contains k (register_mounts t (ms ++ [] ∷ []))
        ≡ (is_one_of k ms || env.mounts.contains k t)
  unfolding register_mounts is_one_of
  contains-register_mounts k [] t h = refl
  contains-register_mounts k ([] ∷ ms) t h = absurd (h.0.ne_nil refl)
  contains-register_mounts k ((c ∷ m) ∷ ms) t h =
      contains-register_mounts k ms (env.mounts.insert (c ∷ m) t) h.1
      ∙ ground (arith, contains-insert k (c ∷ m) t)

  contains-split :
      (k : Bytes) (ms : List Bytes)
      → AllPlain ms
      → env.mounts.contains k
          (register_mounts env.mounts.new (env.strings.strsplit (encode ms) b'@'))
        ≡ is_one_of k ms
  unfolding register_mounts is_one_of
  contains-split k [] h = rw (env.strings.strsplit-nil b'@') (env.mounts.contains-new k)
  contains-split k (m ∷ ms) h =
      rw (strsplit-encode m ms h, contains-register_mounts k (m ∷ ms) env.mounts.new h)
        (ground (arith, env.mounts.contains-new k))

  -- Whatever stands behind the NUL: after the constructor exactly the mount points that the Go layer
  -- wrote are registered, no descriptor is, and pdwfs is initialized.
  pub init_pdwfs-registers :
      (w : World) (ms : List Bytes) (junk : Bytes) (g : env.Go)
      → AllPlain ms
      → env.go_layer.init_pdwfs 1024 w.go ≡ returned (encode ms ++ 0 ∷ junk) g
      → (w' : World) × (init_pdwfs w ≡ done tt w')
        × (w'.initialized ≡ true)
        × ((k : Bytes) → env.mounts.contains k w'.mount_register ≡ is_one_of k ms)
        × ((fd : ℤ) → contains_fd fd w' ≡ false)
        × (w'.machine ≡ w.machine)
  unfolding init_pdwfs go_call contains_fd
  init_pdwfs-registers w ms junk g h e = (
    record w {
      mount_register =
          register_mounts env.mounts.new
            (env.strings.strsplit (c_string (encode ms ++ 0 ∷ junk)) b'@');
      fd_register = env.fds.new;
      initialized = true;
      go = g;
    },
    rw e,
    refl,
    λ k. rw (c_string-encode ms junk h) (contains-split k ms h),
    env.fds.contains-new,
    refl,
  )
