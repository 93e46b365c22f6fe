-- ===== src/Store/Resize/Emptied.antt =====
-- store.go, `Remove`: no bytes are left.
use mathlib.Core.List.{Permᴰ}
use pdwfs.Base.{
  ℕ, suc, ◌+◌, ◌-◌, ◌*◌, ◌≤◌, ◌<◌, ◌≡◌, refl, sym, ap, subst, List, [], ◌∷◌, map, arith, Bytes,
  length, inl, inr,
}
use pdwfs.Base.Int.{ℤ, pos}
use pdwfs.Ring.Consistent.{IsAmong}
use pdwfs.Store.Redis.{Redis}
use pdwfs.Store.DataStore.{DataStore, Instances, client_of}
use pdwfs.Store.Size.Extent.{text_length}
use pdwfs.Store.Size.Found.{search-none, search-last}
use pdwfs.Store.Flat.{IsFile}
use pdwfs.Store.Resize.{Task, removal, ids_from, id_range, run_tasks, remove_tasks, Remove, removed}
use pdwfs.Store.Resize.Cutting.{CutTasks, ids_from-removes, ids_from-Some}
use pdwfs.Store.Resize.Shrink.{shrunk-IsFile}

no_tasks : {xs ys : List Task} → Permᴰ xs ys → xs ≡ [] → ys ≡ []
no_tasks Permᴰ.nil e = refl
no_tasks (Permᴰ.cons h p) e = cc
no_tasks (Permᴰ.swap h k) e = cc
no_tasks (Permᴰ.trans p q) e = no_tasks q (no_tasks p e)

-- The removals up to the last stripe cut a file to nothing.
removals-CutTasks :
    (size m k len : ℕ)
    → k * size + len ≡ m
    → len ≤ size
    → CutTasks size m 0 (map removal (ids_from 0 (suc k - 0)))
removals-CutTasks size m k len e short = record {
  first = 0;
  last = k;
  all_cut = ids_from-removes size 0 0 (suc k - 0) (omega arith);
  removed = λ j a b. ids_from-Some 0 (suc k - 0) j a (omega arith);
  trimmed = λ j a. absurd (omega arith);
  covers = grind arith;
  begins = λ j a. absurd (omega arith);
  ends = inl refl;
}

module _ ⦃rs : Redis⦄ (s : DataStore) (name : Bytes) (z : 0 < s.stripe_size)
    (among : (i : ℤ) → IsAmong (client_of s name i) s.redis_ring.clients) where
  emptied :
      (f : Bytes) (st : Instances) (ts : List Task)
      → IsFile s name z f st
      → Permᴰ (remove_tasks s name st) ts
      → IsFile s name z [] (run_tasks s name ts st)
  unfolding remove_tasks run_tasks
  emptied [] st ts file order =
      let none_there = search-none s name st file.sized.0 in
      let nothing = no_tasks order (ap (λ i. map removal (id_range (pos 0) i)) none_there) in
      subst (λ us. IsFile s name z [] (run_tasks s name us st)) (sym nothing) file
  emptied (b ∷ f) st ts file order = elim file.sized.1 [
    | inl empty ↦ absurd (omega (arith, empty))
    | inr end ↦
        let last = search-last s name z among (length (b ∷ f)) st file.sized.0 end in
        shrunk-IsFile s name z (b ∷ f) 0 st file (omega arith)
          (map removal (ids_from 0 (suc end.0 - 0))) ts
          (removals-CutTasks s.stripe_size (length (b ∷ f)) end.0 (text_length s name st end.0)
            end.2 (file.sized.0.full end.0))
          (subst (λ i. Permᴰ (map removal (id_range (pos 0) i)) ts) last order)
  ]

  -- `Remove`, in whatever order its goroutines run, leaves no byte of a file, no stripe and no place of one
  -- in the sets. Every stripe belongs to a client of the ring.
  pub Remove-IsFile :
      (f : Bytes) {st st' : Instances}
      → IsFile s name z f st
      → Remove s name st st'
      → IsFile s name z [] st'
  Remove-IsFile f {st} file (removed ts order) = emptied f st ts file order
