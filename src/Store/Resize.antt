-- ===== src/Store/Resize.antt =====
-- store.go, `Remove` and `Resize`: the stripes that they remove, trim or write, each by a goroutine.
mod Tasks
mod Shorter
mod Cutting
pub mod Shrink
pub mod Emptied
use mathlib.Core.List.{Permᴰ}
use pdwfs.Base.{
  ℕ, zero, suc, ◌+◌, ◌-◌, ◌*◌, ◌≡◌, Bool, true, false, Option, none, some, List, [], ◌∷◌, ◌++◌, map,
  Bytes, ltb, ◌==◌, if◌then◌else◌,
}
use pdwfs.Base.Int.{ℤ, pos, negsuc, pos_part, ◌==ℤ◌}
use pdwfs.Store.Keys.{divmod}
use pdwfs.Store.Redis.{Redis}
use pdwfs.Store.Stripes.{Stripe}
use pdwfs.Store.DataStore.{DataStore, Instances, remove_stripe, trim_stripe, write_stripe}
use pdwfs.Store.Size.{exceeds, search_last_stripe, get_size}

-- What a goroutine does.
pub data Task : Type 0 where
  removal : ℤ → Task
  trimming : ℤ → ℕ → Task
  writing : Stripe → Task

abbrev pub before : ℤ → ℤ
before (pos zero) = negsuc zero
before (pos (suc n)) = pos n
before (negsuc n) = negsuc (suc n)

abbrev pub next_id : ℤ → ℤ
next_id (pos n) = pos (suc n)
next_id (negsuc zero) = pos zero
next_id (negsuc (suc n)) = negsuc n

-- A file that fills its stripes ends with the one before.
abbrev pub adjusted : ℕ → ℤ × ℤ → ℤ × ℤ
adjusted stripe_size (id, len) = if len ==ℤ pos 0 then (before id, pos stripe_size) else (id, len)

-- The identifier and the length of the last stripe of a file.
unfoldable pub last_stripe_info : ℤ → ℕ → ℤ × ℤ
unfolding divmod
last_stripe_info size stripe_size = adjusted stripe_size (divmod size stripe_size)

abbrev pub ids_from : ℕ → ℕ → List ℤ
ids_from i zero = []
ids_from i (suc left) = pos i ∷ ids_from (suc i) left

-- The identifiers of a loop. It begins at 0 or later, behind a last stripe that is at least -1.
abbrev pub id_range : ℤ → ℤ → List ℤ
id_range (pos a) (pos b) = ids_from a (suc b - a)
id_range (pos a) (negsuc b) = []
id_range (negsuc a) b = []

-- A zero byte at an offset of a stripe.
abbrev pub zero_byte : ℤ → ℤ → Task
zero_byte id off = writing (record { id = id; off = off; payload = 0 ∷ [] })

-- The tasks of `Resize` from the size `cur` to `new`.
unfoldable pub resize_tasks : ℕ → ℤ → ℤ → List Task
unfolding last_stripe_info
resize_tasks stripe_size cur new =
    let old_last = last_stripe_info cur stripe_size in
    let new_last = last_stripe_info new stripe_size in
    let new_len = pos_part new_last.1 in
    let old_len = pos_part old_last.1 in
    if exceeds cur new
    then map removal (id_range (next_id new_last.0) old_last.0) ++ trimming new_last.0 new_len ∷ []
    else if exceeds new cur
    then map (λ id. zero_byte id (pos (stripe_size - 1)))
        (id_range (next_id old_last.0) (before new_last.0))
      ++ (zero_byte new_last.0 (pos (new_len - 1))
          ∷ (if ltb old_len stripe_size
              then zero_byte old_last.0 (pos (stripe_size - old_len - 1)) ∷ []
              else []))
    else []

module _ ⦃rs : Redis⦄ (s : DataStore) (name : Bytes) where
  unfoldable pub run_task : Task → Instances → Instances
  unfolding remove_stripe trim_stripe write_stripe
  run_task (removal id) = remove_stripe s name id
  run_task (trimming id n) = trim_stripe s name id n
  run_task (writing x) = write_stripe s name x

  unfoldable pub run_tasks : List Task → Instances → Instances
  unfolding run_task
  run_tasks [] st = st
  run_tasks (t ∷ ts) st = run_tasks ts (run_task t st)

  unfoldable pub remove_tasks : Instances → List Task
  unfolding search_last_stripe
  remove_tasks st = map removal (id_range (pos 0) (search_last_stripe s name st))

  -- In the order of the goroutines' start. A negative size is a panic.
  unfoldable pub remove : Instances → Instances
  remove st = run_tasks (remove_tasks st) st

  unfoldable pub resize : ℤ → Instances → Option Instances
  resize (pos n) st = some (run_tasks (resize_tasks s.stripe_size (get_size s name st) (pos n)) st)
  resize (negsuc n) st = none

  -- In any order.
  pub data Remove (st : Instances) : Instances → Type 0 where
    removed : (ts : List Task) → Permᴰ (remove_tasks st) ts → Remove st (run_tasks ts st)

  pub data Resize (n : ℕ) (st : Instances) : Instances → Type 0 where
    resized :
        (ts : List Task)
        → Permᴰ (resize_tasks s.stripe_size (get_size s name st) (pos n)) ts
        → Resize n st (run_tasks ts st)
