-- ===== src/Store/Resize/Shorter.antt =====
-- store.go, `Resize`: what the tasks of a shrinking file leave, in any order.
use pdwfs.Base.{
  ℕ, zero, suc, ◌+◌, ◌-◌, ◌*◌, ◌≤◌, ◌<◌, ◌≡◌, ◌⊎◌, refl, sym, ap, ◌∙◌, subst, true, false, ◌&&◌,
  List, [], ◌∷◌, arith, Bytes, take, bytes_eq, bytes_eq_iff, Bool-cases, inl, inr,
}
use pdwfs.Base.Int.{ℤ, pos, negsuc, ◌==ℤ◌, ==ℤ_iff}
use pdwfs.Store.Keys.{stripes_key}
use pdwfs.Store.Redis.{Redis}
use pdwfs.Store.Orders.{All, Some}
use pdwfs.Store.Commands.{stripe_text}
use pdwfs.Store.Contents.{HoldsText}
use pdwfs.Store.DataStore.{DataStore, Instances, client_of, remove_stripe, trim_stripe}
use pdwfs.Store.Size.Extent.{listed}
use pdwfs.Store.Resize.{Task, removal, trimming, writing, run_task, run_tasks}
use pdwfs.Store.Resize.Tasks.{
  text-remove_self, text-remove, listed-remove, free-remove, texts-remove, text-trim_self,
  text-trim, listed-trim, free-trim, texts-trim,
}

-- The tasks that cut a file to `n` bytes: they remove stripes that begin behind the bytes, and trim the
-- one that the bytes end in. With no bytes left the stripe -1 is trimmed.
pub data Cuts (size n : ℕ) : Task → Type 0 where
  removes : (i : ℕ) → n ≤ i * size → Cuts size n (removal (pos i))
  trims : (k l : ℕ) → k * size + suc l ≡ n → Cuts size n (trimming (pos k) (suc l))
  trims_none : (k l : ℕ) → n ≡ 0 → Cuts size n (trimming (negsuc k) (suc l))

abbrev pub task_id : Task → ℤ
task_id (removal id) = id
task_id (trimming id n) = id
task_id (writing x) = x.id

abbrev pub IsOn : ℕ → Task → Type 0
IsOn i t = task_id t ≡ pos i

take-take : (n : ℕ) (xs : Bytes) → take n (take n xs) ≡ take n xs
take-take zero xs = refl
take-take (suc n) [] = refl
take-take (suc n) (x ∷ xs) = ap (λ t. x ∷ t) (take-take n xs)

still_one_of : {t u v w : Bytes} → (t ≡ v) ⊎ (t ≡ w) → u ≡ t → (u ≡ v) ⊎ (u ≡ w)
still_one_of (inl e) f = inl (f ∙ e)
still_one_of (inr e) f = inr (f ∙ e)

-- A task that is on another stripe does not count.
IsOn-later :
    {t u w : Bytes} (i : ℕ) (x : Task) (ts : List Task)
    → (task_id x ==ℤ pos i) ≡ false
    → u ≡ t
    → Some (IsOn i) (x ∷ ts) ⊎ (t ≡ w)
    → Some (IsOn i) ts ⊎ (u ≡ w)
IsOn-later i x ts other same (inl (inl e)) = let on = (==ℤ_iff (task_id x) (pos i)).1 e in cc
IsOn-later i x ts other same (inl (inr later)) = inl later
IsOn-later i x ts other same (inr done) = inr (same ∙ done)

module _ ⦃rs : Redis⦄ (s : DataStore) (name : Bytes) (n : ℕ) where
  abbrev text : Instances → ℕ → Bytes
  text st i = stripe_text s name st (pos i)

  -- What is left of a stripe.
  abbrev pub cut_text : ℕ → Bytes → Bytes
  cut_text i t = take (n - i * s.stripe_size) t

  -- A task leaves the other stripes, and leaves of its own what is to be left.
  text-run_task :
      {t : Task} (i : ℕ) (st : Instances)
      → Cuts s.stripe_size n t
      → ((task_id t ==ℤ pos i) ≡ false × (text (run_task s name t st) i ≡ text st i))
        ⊎ ((task_id t ≡ pos i) × (text (run_task s name t st) i ≡ cut_text i (text st i)))
  unfolding run_task
  text-run_task i st (removes j h) = elim (Bool-cases (pos j ==ℤ pos i)) [
    | inl same ↦
        let eq : j ≡ i = ground arith in
        let none_left : 0 ≡ n - j * s.stripe_size = omega arith in
        inr (
          ap pos eq,
          subst (λ i. text (remove_stripe s name (pos j) st) i ≡ cut_text i (text st i)) eq
              (text-remove_self s name (pos j) st ∙ ap (λ m. take m (text st j)) none_left),
        )
    | inr other ↦ inl (other, text-remove s name (pos j) st (pos i) other)
  ]
  text-run_task i st (trims k l e) = elim (Bool-cases (pos k ==ℤ pos i)) [
    | inl same ↦
        let eq : k ≡ i = ground arith in
        let left : suc l ≡ n - k * s.stripe_size = omega arith in
        inr (
          ap pos eq,
          subst (λ i. text (trim_stripe s name (pos k) (suc l) st) i ≡ cut_text i (text st i)) eq
              (text-trim_self s name (pos k) l st ∙ ap (λ m. take m (text st k)) left),
        )
    | inr other ↦ inl (other, text-trim s name (pos k) l st (pos i) other)
  ]
  text-run_task i st (trims_none k l e) = inl (refl, text-trim s name (negsuc k) l st (pos i) refl)

  cut_twice : (i : ℕ) (t u : Bytes) → (u ≡ t) ⊎ (u ≡ cut_text i t) → cut_text i u ≡ cut_text i t
  cut_twice i t u (inl e) = ap (cut_text i) e
  cut_twice i t u (inr e) = ap (cut_text i) e ∙ take-take (n - i * s.stripe_size) t

  -- The stripe is cut once a task is on it, and stays so.
  pub text-run_tasks :
      (ts : List Task) (i : ℕ) (t : Bytes) (st : Instances)
      → All (Cuts s.stripe_size n) ts
      → (text st i ≡ t) ⊎ (text st i ≡ cut_text i t)
      → Some (IsOn i) ts ⊎ (text st i ≡ cut_text i t)
      → text (run_tasks s name ts st) i ≡ cut_text i t
  unfolding run_tasks
  text-run_tasks [] i t st a was (inl none_on) = absurd none_on
  text-run_tasks [] i t st a was (inr done) = done
  text-run_tasks (x ∷ ts) i t st a was on = elim (text-run_task i st a.0) [
    | inl (other, same) ↦
        text-run_tasks ts i t (run_task s name x st) a.1 (still_one_of was same)
          (IsOn-later i x ts other same on)
    | inr (self, cut) ↦
        let done = cut ∙ cut_twice i t (text st i) was in
        text-run_tasks ts i t (run_task s name x st) a.1 (inr done) (inr done)
  ]

  free-run_task :
      {t : Task} (st : Instances) (c : Bytes)
      → Cuts s.stripe_size n t
      → rs.get (stripes_key name) (run_task s name t st c) ≡ rs.get (stripes_key name) (st c)
  unfolding run_task
  free-run_task st c (removes i h) = free-remove s name (pos i) st c
  free-run_task st c (trims k l e) = free-trim s name (pos k) l st c
  free-run_task st c (trims_none k l e) = free-trim s name (negsuc k) l st c

  pub free-run_tasks :
      (ts : List Task) (st : Instances) (c : Bytes)
      → All (Cuts s.stripe_size n) ts
      → rs.get (stripes_key name) (run_tasks s name ts st c) ≡ rs.get (stripes_key name) (st c)
  unfolding run_tasks
  free-run_tasks [] st c a = refl
  free-run_tasks (x ∷ ts) st c a =
      free-run_tasks ts (run_task s name x st) c a.1 ∙ free-run_task st c a.0

  run_task-HoldsText :
      {t : Task} (st : Instances)
      → Cuts s.stripe_size n t
      → HoldsText s name st
      → HoldsText s name (run_task s name t st)
  unfolding run_task
  run_task-HoldsText st (removes i h) w j = texts-remove s name (pos i) st j (w j)
  run_task-HoldsText st (trims k l e) w j = texts-trim s name (pos k) l st j (w j)
  run_task-HoldsText st (trims_none k l e) w j = texts-trim s name (negsuc k) l st j (w j)

  pub run_tasks-HoldsText :
      (ts : List Task) (st : Instances)
      → All (Cuts s.stripe_size n) ts
      → HoldsText s name st
      → HoldsText s name (run_tasks s name ts st)
  unfolding run_tasks
  run_tasks-HoldsText [] st a w = w
  run_tasks-HoldsText (x ∷ ts) st a w =
      run_tasks-HoldsText ts (run_task s name x st) a.1 (run_task-HoldsText st a.0 w)

  -- A set loses the stripes that are removed, and no other.
  listed-run_task :
      {t : Task} (st : Instances) (c : Bytes) (i : ℕ)
      → Cuts s.stripe_size n t
      → (listed s name (run_task s name t st) c (pos i) ≡ listed s name st c (pos i))
        ⊎ ((n ≤ i * s.stripe_size) × (listed s name (run_task s name t st) c (pos i) ≡ false))
  unfolding run_task
  listed-run_task st c i (removes j h) =
      elim (Bool-cases (bytes_eq (client_of s name (pos j)) c && (pos j ==ℤ pos i))) [
        | inl same ↦
            let eq : j ≡ i = ground arith in
            inr (
              subst (λ i. n ≤ i * s.stripe_size) eq h,
              listed-remove s name (pos j) st c (pos i) ∙ rw same refl,
            )
        | inr other ↦ inl (listed-remove s name (pos j) st c (pos i) ∙ rw other refl)
      ]
  listed-run_task st c i (trims k l e) = inl (listed-trim s name (pos k) l st c (pos i))
  listed-run_task st c i (trims_none k l e) = inl (listed-trim s name (negsuc k) l st c (pos i))

  listed_before_task :
      {t : Task} (st : Instances) (c : Bytes) (j : ℤ)
      → Cuts s.stripe_size n t
      → listed s name (run_task s name t st) c j ≡ true
      → listed s name st c j ≡ true
  unfolding run_task
  listed_before_task st c j (removes i h) e = ground (arith, listed-remove s name (pos i) st c j)
  listed_before_task st c j (trims k l h) e = sym (listed-trim s name (pos k) l st c j) ∙ e
  listed_before_task st c j (trims_none k l h) e = sym (listed-trim s name (negsuc k) l st c j) ∙ e

  pub listed_before :
      (ts : List Task) (st : Instances) (c : Bytes) (j : ℤ)
      → All (Cuts s.stripe_size n) ts
      → listed s name (run_tasks s name ts st) c j ≡ true
      → listed s name st c j ≡ true
  unfolding run_tasks
  listed_before [] st c j a e = e
  listed_before (x ∷ ts) st c j a e =
      listed_before_task st c j a.0 (listed_before ts (run_task s name x st) c j a.1 e)

  pub still_listed :
      (ts : List Task) (st : Instances) (c : Bytes) (i : ℕ)
      → All (Cuts s.stripe_size n) ts
      → i * s.stripe_size < n
      → listed s name st c (pos i) ≡ true
      → listed s name (run_tasks s name ts st) c (pos i) ≡ true
  unfolding run_tasks
  still_listed [] st c i a h e = e
  still_listed (x ∷ ts) st c i a h e = elim (listed-run_task st c i a.0) [
    | inl same ↦ still_listed ts (run_task s name x st) c i a.1 h (same ∙ e)
    | inr (behind, gone) ↦ absurd (omega arith)
  ]

  removed_once :
      (st : Instances) (i : ℕ)
      → listed s name (run_task s name (removal (pos i)) st) (client_of s name (pos i)) (pos i)
        ≡ false
  unfolding run_task
  removed_once st i =
      let c = client_of s name (pos i) in
      listed-remove s name (pos i) st c (pos i)
      ∙ rw ((bytes_eq_iff c c).1 refl) (rw ((==ℤ_iff (pos i) (pos i)).1 refl) refl)

  -- A stripe that some task removes is in no set at the end.
  pub not_listed :
      (ts : List Task) (st : Instances) (i : ℕ)
      → All (Cuts s.stripe_size n) ts
      → Some (λ t. t ≡ removal (pos i)) ts
      → listed s name (run_tasks s name ts st) (client_of s name (pos i)) (pos i) ≡ false
  unfolding run_tasks
  not_listed [] st i a h = absurd h
  not_listed (x ∷ ts) st i a (inl e) =
      elim (Bool-cases (
        listed s name (run_tasks s name ts (run_task s name x st)) (client_of s name (pos i))
          (pos i))) [
            | inl still ↦
                let then_too =
                  listed_before ts (run_task s name x st) (client_of s name (pos i)) (pos i) a.1
                    still in
                let gone : listed s name (run_task s name x st) (client_of s name (pos i)) (pos i)
                    ≡ false =
                  rw e (removed_once st i) in
                cc
            | inr gone ↦ gone
          ]
  not_listed (x ∷ ts) st i a (inr later) = not_listed ts (run_task s name x st) i a.1 later
