-- ===== src/Tree/Lookup.antt =====
-- fs.go, `fileInfo`: a lookup through the map of inodes is one in the tree.
use pdwfs.Base.{
  ◌≡◌, refl, sym, ap, ◌∙◌, Bool, true, false, none, some, Bytes, if◌then◌else◌, bytes_eq,
  Bool-cases, Option-cases, inl, inr,
}
use pdwfs.Store.Redis.{Redis}
use pdwfs.Store.DataStore.{Instances}
use pdwfs.Tree.Paths.{dir}
use pdwfs.Tree.MetaRedis.{Metadata}
use pdwfs.Tree.{
  RedisFs, World, no_parent, below, stored_inode, stored_dir, set_inode, is_dir, get_inode,
  look_below, file_info,
}
use pdwfs.Tree.View.{found_in, is_some, tree, Agrees, Saw, set_inode-Agrees}

module _ ⦃rs : Redis⦄ ⦃md : Metadata⦄ (fs : RedisFs) where
  pub is_dir-Saw :
      (path : Bytes) (w : World)
      → Agrees fs w
      → stored_inode fs path w.st ≡ true
      → Saw fs w (stored_dir fs path w.st) (is_dir fs path w)
  unfolding is_dir
  is_dir-Saw path w a there =
      let d = stored_dir fs path w.st in
      let asked : Saw fs w d (d, set_inode path (some (record { is_dir = some d })) w) = record {
        answer = refl;
        same = refl;
        agrees = set_inode-Agrees fs path (record { is_dir = some d }) w a there (λ b e. cc);
      } in
      elim (Option-cases (w.inodes path)) [
        | inl e ↦ rw (e, is_dir) asked
        | inr (i, e) ↦ elim (Option-cases i.is_dir) [
          | inl f ↦ rw (e, f, is_dir) asked
          | inr (b, f) ↦
              rw (e, f, is_dir)
                (record { answer = sym (a.right path i b e f); same = refl; agrees = a })
        ]
      ]

  pub get_inode-Saw :
      (path : Bytes) (w : World)
      → Agrees fs w
      → Saw fs w (stored_inode fs path w.st) (get_inode fs path w)
  unfolding get_inode
  get_inode-Saw path w a = elim (Option-cases (w.inodes path)) [
    | inr (i, e) ↦
        rw (e, get_inode) (record { answer = sym (a.known path i e); same = refl; agrees = a })
    | inl e ↦ elim (Bool-cases (stored_inode fs path w.st)) [
      | inl there ↦
          rw (e, there, get_inode)
            (record {
              answer = refl;
              same = refl;
              agrees = set_inode-Agrees fs path (record { is_dir = none }) w a there (λ b f. cc);
            })
      | inr gone ↦ rw (e, gone, get_inode) (record { answer = refl; same = refl; agrees = a })
    ]
  ]

  is_some-tree :
      (path : Bytes) (st : Instances) → stored_inode fs path st ≡ is_some (tree fs st path)
  is_some-tree path st = elim (Bool-cases (stored_inode fs path st)) [
    | inl there ↦ rw there refl
    | inr gone ↦ rw gone refl
  ]

  look_below-Saw :
      (path : Bytes) (w : World) (d : Bool) (r : Bool × World)
      → Saw fs w d r
      → Saw fs w
          (if d then below (is_some (tree fs w.st path)) else no_parent)
          (look_below fs path r)
  look_below-Saw path w true (d, v) s =
      let g = get_inode-Saw path v s.agrees in
      rw s.answer (record {
        answer = ap below (g.answer ∙ ap (stored_inode fs path) s.same ∙ is_some-tree path w.st);
        same = g.same ∙ s.same;
        agrees = g.agrees;
      })
  look_below-Saw path w false (d, v) s =
      rw s.answer (record { answer = refl; same = s.same; agrees = s.agrees })

  -- `IsDir` after another question.
  pub is_dir-Saw_later :
      (path : Bytes) (w v : World)
      → v.st ≡ w.st
      → Agrees fs v
      → stored_inode fs path w.st ≡ true
      → Saw fs w (stored_dir fs path w.st) (is_dir fs path v)
  is_dir-Saw_later path w v e a there =
      let s = is_dir-Saw path v a (ap (stored_inode fs path) e ∙ there) in
      record { answer = s.answer ∙ ap (stored_dir fs path) e; same = s.same ∙ e; agrees = s.agrees }

  -- `fileInfo` finds what the tree has at a path, and leaves the data and the tree alone.
  pub file_info-Saw :
      (path : Bytes) (w : World)
      → Agrees fs w
      → Saw fs w (found_in fs.root (tree fs w.st) path) (file_info fs path w)
  unfolding file_info
  file_info-Saw path w a =
      let g = get_inode-Saw (dir path) w a in
      elim (Bool-cases (bytes_eq path fs.root)) [
        | inl root ↦ rw root (record { answer = refl; same = refl; agrees = a })
        | inr other ↦ elim (Bool-cases (stored_inode fs (dir path) w.st)) [
          | inl there ↦
              let v = (get_inode fs (dir path) w).1 in
              let s = is_dir-Saw_later (dir path) w v g.same g.agrees there in
              rw (other, g.answer, there)
                (look_below-Saw path w (stored_dir fs (dir path) w.st) (is_dir fs (dir path) v) s)
          | inr gone ↦
              rw (other, g.answer, gone)
                (record { answer = refl; same = g.same; agrees = g.agrees })
        ]
      ]
