-- ===== src/Store/Resize/Shrink.antt =====
-- store.go, `Resize` to a smaller size: the bytes that are left.
use native.Mathlib.Decide.{dec_lt}
use mathlib.Core.List.{Permᴰ}
use pdwfs.Base.{
  ℕ, zero, suc, ◌+◌, ◌-◌, ◌*◌, ◌/◌, ◌%◌, ◌^◌, ◌≤◌, ◌<◌, ◌≡◌, ◌⊎◌, refl, sym, ap, ◌∙◌, subst, Bool,
  true, false, List, [], ◌∷◌, arith, Bytes, length, take, ltb, if◌then◌else◌, inl, inr,
}
use pdwfs.Base.Int.{ℤ, pos}
use pdwfs.Ring.Consistent.{IsAmong}
use pdwfs.Store.Redis.{Redis}
use pdwfs.Store.Tiling.{div_mod}
use pdwfs.Store.Orders.{All, All-perm, Some, Some-perm}
use pdwfs.Store.Bytes.{byte}
use pdwfs.Store.Fill.{length-take_min, byte-take_if}
use pdwfs.Store.Commands.{stripe_text}
use pdwfs.Store.Contents.{content}
use pdwfs.Store.Written.{row_lt}
use pdwfs.Store.Stored.{stored}
use pdwfs.Store.DataStore.{DataStore, Instances, client_of}
use pdwfs.Store.Size.Extent.{IsWithin, EndsAt, listed, text_length}
use pdwfs.Store.Size.Grown.{IsSized}
use pdwfs.Store.Size.Found.{get_size-IsSized}
use pdwfs.Store.Flat.{IsFile}
use pdwfs.Store.Read.{range_all, lt-text}
use pdwfs.Store.Resize.{Task, removal, run_tasks, resize_tasks, Resize, resized}
use pdwfs.Store.Resize.Shorter.{
  Cuts, IsOn, task_id, cut_text, text-run_tasks, free-run_tasks, run_tasks-HoldsText, listed_before,
  still_listed, not_listed,
}
use pdwfs.Store.Resize.Cutting.{CutTasks, resize_tasks-CutTasks}

Some-map : (P Q : Task → Type 0) (ts : List Task) → ((t : Task) → P t → Q t) → Some P ts → Some Q ts
Some-map P Q [] f h = h
Some-map P Q (x ∷ ts) f (inl h) = inl (f x h)
Some-map P Q (x ∷ ts) f (inr h) = inr (Some-map P Q ts f h)

next_row : (k size : ℕ) → suc k * size ≡ k * size + size
next_row k size = grind arith

not_both : {b : Bool} → b ≡ false → b ≡ true → ⊥
not_both e f = cc

take-empty : (n : ℕ) (t : Bytes) → length t ≡ 0 → t ≡ take n t
take-empty zero [] h = refl
take-empty (suc n) [] h = refl
take-empty n (b ∷ t) h = absurd (omega arith)

module _ ⦃rs : Redis⦄ (s : DataStore) (name : Bytes) (z : 0 < s.stripe_size) (f : Bytes) (n : ℕ)
    (st : Instances) (file : IsFile s name z f st) (h : n < length f) (base ts : List Task)
    (cut : CutTasks s.stripe_size (length f) n base) (order : Permᴰ base ts) where
  abbrev w : IsWithin s name (length f) st
  w = file.sized.0

  abbrev text : Instances → ℕ → Bytes
  text st i = stripe_text s name st (pos i)

  abbrev after : Instances
  after = run_tasks s name ts st

  All-cut : All (Cuts s.stripe_size n) ts
  All-cut = All-perm (Cuts s.stripe_size n) order cut.all_cut

  -- Every stripe is cut by a task or needs none.
  IsOn-or_kept : (i : ℕ) → Some (IsOn i) ts ⊎ (text st i ≡ cut_text s name n i (text st i))
  IsOn-or_kept i = elim (dec_lt i cut.first) [
    | yes early ↦ elim (cut.trimmed i early) [
      | inl roomy ↦
          inr (sym (range_all (n - i * s.stripe_size) (text st i) (omega (arith, w.full i))))
      | inr on ↦ inl (Some-perm (IsOn i) order on)
    ]
    | no late ↦ elim (dec_lt cut.last i) [
      | yes beyond ↦ inr (
          take-empty (n - i * s.stripe_size) (text st i) (
            ground (
              arith,
              w.below i,
              row_lt cut.last i s.stripe_size beyond,
              next_row cut.last s.stripe_size,
              cut.covers,
            )))
      | no inside ↦ inl (
          Some-perm (IsOn i) order (
            Some-map (λ t. t ≡ removal (pos i)) (IsOn i) base (λ t e. ap task_id e)
              (cut.removed i (omega arith) (omega arith))))
    ]
  ]

  text-after : (i : ℕ) → text after i ≡ cut_text s name n i (text st i)
  text-after i = text-run_tasks s name n ts i (text st i) st All-cut (inl refl) (IsOn-or_kept i)

  length-after :
      (i : ℕ)
      → text_length s name after i ≡ (
          if ltb (n - i * s.stripe_size) (text_length s name st i)
          then n - i * s.stripe_size
          else text_length s name st i)
  length-after i = ap length (text-after i) ∙ length-take_min (n - i * s.stripe_size) (text st i)

  last_reached : (i : ℕ) → i * s.stripe_size < length f → i ≤ cut.last
  last_reached i inside = elim (dec_lt cut.last i) [
    | yes beyond ↦ absurd (
        omega (
          arith,
          row_lt cut.last i s.stripe_size beyond,
          next_row cut.last s.stripe_size,
          cut.covers,
        ))
    | no reached ↦ omega arith
  ]

  -- What is in a set at the end begins before the end of the file.
  begins_before : (c : Bytes) (i : ℕ) → listed s name after c (pos i) ≡ true → i * s.stripe_size < n
  begins_before c i e = elim (dec_lt i cut.first) [
    | yes early ↦ cut.begins i early
    | no late ↦
        let old = listed_before s name n ts st c (pos i) All-cut e in
        let place = w.sets c (pos i) old in
        let same : place.0 ≡ i = ground arith in
        let inside : i * s.stripe_size < length f =
          subst (λ k. k * s.stripe_size < length f) same place.2 in
        let reached : i ≤ cut.last = last_reached i inside in
        let gone =
          not_listed s name n ts st i All-cut
            (Some-perm (λ t. t ≡ removal (pos i)) order (cut.removed i (omega arith) reached)) in
        let there : listed s name after (client_of s name (pos i)) (pos i) ≡ true =
          subst (λ d. listed s name after d (pos i) ≡ true) (sym (w.home c (pos i) old)) e in
        absurd (not_both gone there)
  ]

  after-IsWithin : IsWithin s name n after
  after-IsWithin = record {
    texts = run_tasks-HoldsText s name n ts st All-cut w.texts;
    free = λ c. free-run_tasks s name n ts st c All-cut ∙ w.free c;
    full = λ i. ground (arith, length-after i, w.full i);
    below = λ i. ground (arith, length-after i);
    sets = λ c j e.
        let place = w.sets c j (listed_before s name n ts st c j All-cut e) in
        (
          place.0,
          place.1,
          begins_before c place.0 (subst (λ k. listed s name after c k ≡ true) place.1 e),
        );
    home = λ c j e. w.home c j (listed_before s name n ts st c j All-cut e);
    present = λ i p.
        still_listed s name n ts st (client_of s name (pos i)) i All-cut
          (ground (arith, length-after i)) (w.present i (ground (arith, length-after i)));
  }

  after-EndsAt : (n ≡ 0) ⊎ EndsAt s name n after
  after-EndsAt = elim cut.ends [
    | inl empty ↦ inl empty
    | inr (k, l, e, short) ↦
        let long = lt-text s name z f st file k l (omega arith) (omega arith) in
        let all_of : text_length s name after k ≡ suc l = ground (arith, length-after k) in
        inr (k, omega arith, omega arith, after-IsWithin.present k (omega arith))
  ]

  same_side :
      (p : ℕ)
      → p / s.stripe_size * s.stripe_size + p % s.stripe_size ≡ p
      → (if ltb (p % s.stripe_size) (n - p / s.stripe_size * s.stripe_size)
          then byte (text st (p / s.stripe_size)) (p % s.stripe_size)
          else 0)
        ≡ byte (take n f) p
  unfolding content
  same_side p d =
      let side : ltb (p % s.stripe_size) (n - p / s.stripe_size * s.stripe_size) ≡ ltb p n =
        ground arith in
      rw (side, byte-take_if n p f) (ap (λ b. if ltb p n then b else 0) (file.bytes p))

  pub shrunk-IsFile : IsFile s name z (take n f) after
  unfolding content stored
  shrunk-IsFile =
      let len : length (take n f) ≡ n = ground (arith, length-take_min n f) in
      record {
        sized = subst (λ m. IsSized s name z m after) (sym len) (after-IsWithin, after-EndsAt);
        bytes = λ p.
            let d = div_mod p s.stripe_size z in
            let i = p / s.stripe_size in
            let r = p % s.stripe_size in
            ap (λ t. byte t r) (text-after i)
            ∙ byte-take_if (n - i * s.stripe_size) r (text st i)
            ∙ same_side p d.0;
        dense = λ p k.
            let d = div_mod p s.stripe_size z in
            ground (arith, length-after (p / s.stripe_size), file.dense p);
      }

-- `Resize` to a smaller size cuts the bytes of a file, in whatever order its goroutines run: the stripes
-- behind the new end are gone, with their places in the sets, and the last one that is left is
-- trimmed. The file is shorter than 2^63, and every stripe belongs to a client of the ring.
pub Resize-IsFile :
    ⦃rs : Redis⦄ (s : DataStore) (name : Bytes) (z : 0 < s.stripe_size) (f : Bytes) (n : ℕ)
    {st st' : Instances}
    → ((i : ℤ) → IsAmong (client_of s name i) s.redis_ring.clients)
    → length f < 2 ^ 63
    → n < length f
    → IsFile s name z f st
    → Resize s name n st st'
    → IsFile s name z (take n f) st'
Resize-IsFile s name z f n {st} among small h file (resized ts order) =
    let size = get_size-IsSized s name z among (length f) st small file.sized in
    shrunk-IsFile s name z f n st file h (resize_tasks s.stripe_size (pos (length f)) (pos n)) ts
      (resize_tasks-CutTasks s.stripe_size (length f) n z h)
      (subst (λ m. Permᴰ (resize_tasks s.stripe_size m (pos n)) ts) size order)
