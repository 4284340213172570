-- ===== src/Access/Moved.antt =====
-- `MoveInTx`: a move keeps the tree, and takes the whole subtree along.
use super_ops.Base.{
  ◌+◌, ◌≡◌, ◌≤◌, refl, sym, ◌∙◌, ap, subst, true, false, List, [], ◌∷◌, ◌++◌, some, some_inj,
  length, length-append, arith, Bool-cases, Option-cases, inl, inr,
}
use super_ops.Access.{
  ObjectRef, same_ref, ObjectPath, max_path_depth, build_path, has_prefix_path, below, ObjectRow,
  lock_object,
}
use super_ops.Access.Rows.{
  has_prefix_path-append, prefix_split, below-append, append_assoc, lock_object-ref, snoc_inj,
  under_cases, prefix_more, append_nil,
}
use super_ops.Access.Tree.{move_path, move_subtree, deepest}
use super_ops.Access.WellFormed.{
  OwnsPath, IsUnder, HasParent, Hangs, IsTree, lock_object-move, moved,
}

-- The row that a move makes of a row under the moved object, and of another.
pub move_path-in :
    (from to : ObjectPath) (r : ObjectRow)
    → has_prefix_path r.path from ≡ true
    → move_path from to r ≡ record r { path = to ++ below from r.path }
move_path-in from to r h = rw h refl

pub move_path-out :
    (from to : ObjectPath) (r : ObjectRow)
    → has_prefix_path r.path from ≡ false
    → move_path from to r ≡ r
move_path-out from to r h = rw h refl

deepest-bound :
    (ref : ObjectRef) (prefix : ObjectPath) (rows : List ObjectRow) (r : ObjectRow)
    → lock_object ref rows ≡ some r
    → has_prefix_path r.path prefix ≡ true
    → length r.path ≤ deepest prefix rows
unfolding lock_object deepest
deepest-bound ref prefix [] r h k = absurd (cc h)
deepest-bound ref prefix (x ∷ rows) r h k = elim (Bool-cases (same_ref x.ref ref)) [
  | inl e ↦
      let eq = some_inj (rw e at h) in
      let d = ap (λ y. length y.path) eq in
      let q = ap (λ y. has_prefix_path y.path prefix) eq in ground arith
  | inr e ↦ let rest = deepest-bound ref prefix rows r (rw e at h) k in ground arith
]

-- The move of `src` under `dst`, in a tree where `dst` is not under `src`.
module _ (src dst : ObjectRow) (rows : List ObjectRow) (tree : IsTree rows)
    (src_found : lock_object src.ref rows ≡ some src)
    (dst_found : lock_object dst.ref rows ≡ some dst)
    (one_workspace : src.workspace_id ≡ dst.workspace_id)
    (no_cycle : has_prefix_path dst.path src.path ≡ false)
    (fits : deepest src.path rows + length (build_path dst.path src.ref)
      ≤ max_path_depth + length src.path) where
  abbrev target : ObjectPath
  target = build_path dst.path src.ref

  abbrev moved_rows : List ObjectRow
  moved_rows = move_subtree src.path target rows

  moved_found :
      (q : ObjectRow)
      → lock_object q.ref rows ≡ some q
      → lock_object q.ref moved_rows ≡ some (move_path src.path target q)
  moved_found q h = lock_object-move q.ref src.path target rows ∙ ap (moved src.path target) h

  -- The moved object itself.
  source-IsUnder :
      (r : ObjectRow)
      → lock_object r.ref rows ≡ some r
      → r.ref ≡ src.ref
      → IsUnder moved_rows (record r { path = target ++ [] })
  source-IsUnder r found same =
      let eq = some_inj (sym found ∙ ap (λ x. lock_object x rows) same ∙ src_found) in
      (
        dst,
        moved_found dst dst_found ∙ ap some (move_path-out src.path target dst no_cycle),
        append_nil target ∙ ap (build_path dst.path) (sym same),
        ap (λ y. y.workspace_id) eq ∙ one_workspace,
      )

  -- A row below it: the parent's row moved along.
  below-IsUnder :
      (r q : ObjectRow) (b : ObjectPath)
      → lock_object q.ref rows ≡ some q
      → q.path ≡ src.path ++ b
      → r.workspace_id ≡ q.workspace_id
      → IsUnder moved_rows (record r { path = target ++ build_path b r.ref })
  below-IsUnder r q b found path ws =
      let inside =
        subst (λ l. has_prefix_path l src.path ≡ true) (sym path)
          (has_prefix_path-append src.path b) in
      let rest = ap (below src.path) path ∙ below-append src.path b in
      let new = move_path-in src.path target q inside in
      (
        record q { path = target ++ below src.path q.path },
        moved_found q found ∙ ap some new,
        sym (append_assoc target b (r.ref ∷ []))
            ∙ ap (λ l. build_path (target ++ l) r.ref) (sym rest),
        ws,
      )

  -- Where the moved subtree's rows hang: they end with their object, under their parent.
  inside_under :
      (r : ObjectRow) (b above : ObjectPath)
      → lock_object r.ref rows ≡ some r
      → r.path ≡ src.path ++ b
      → r.path ≡ build_path above r.ref
      → HasParent rows r
      → OwnsPath (record r { path = target ++ b })
        × HasParent moved_rows (record r { path = target ++ b })
  inside_under r b above found split owns parent =
      elim (under_cases above src.path b r.ref (sym owns ∙ split)) [
        | inl e ↦
            let (above_src, owns_src) = (tree src.ref src src_found).0 in
            let whole =
              sym owns ∙ split ∙ ap (λ l. src.path ++ l) e ∙ append_nil src.path ∙ owns_src in
            let same = (snoc_inj above above_src r.ref src.ref whole).1 in
            subst
              (λ l.
                OwnsPath (record r { path = target ++ l })
                × HasParent moved_rows (record r { path = target ++ l }))
              (sym e)
              (
                (dst.path, append_nil target ∙ ap (build_path dst.path) (sym same)),
                inr (source-IsUnder r found same),
              )
        | inr (b', e, up) ↦
            subst
              (λ l.
                OwnsPath (record r { path = target ++ l })
                × HasParent moved_rows (record r { path = target ++ l }))
              (sym e)
              (
                (target ++ b', sym (append_assoc target b' (r.ref ∷ []))),
                elim parent [
                  | inl derived ↦ inl derived
                  | inr (q, q_found, q_path, ws) ↦
                      let path = (snoc_inj q.path above r.ref r.ref (sym q_path ∙ owns)).0 in
                      inr (below-IsUnder r q b' q_found (path ∙ up) ws)
                ],
              )
      ]

  inside-Hangs :
      (r : ObjectRow)
      → lock_object r.ref rows ≡ some r
      → has_prefix_path r.path src.path ≡ true
      → Hangs moved_rows (move_path src.path target r)
  inside-Hangs r found inside =
      let ((above, owns), parent, depth) = tree r.ref r found in
      let b = below src.path r.path in
      let split = prefix_split r.path src.path inside in
      let (o, p) = inside_under r b above found split owns parent in
      let old = ap length split ∙ length-append src.path b in
      let new = length-append target b in
      let deep = deepest-bound r.ref src.path rows r found inside in
      subst (Hangs moved_rows) (sym (move_path-in src.path target r inside)) (o, p, omega arith)

  -- The parent of a row outside the subtree is outside it.
  outside_parent :
      (r : ObjectRow)
      → has_prefix_path r.path src.path ≡ false
      → HasParent rows r
      → HasParent moved_rows r
  outside_parent r outside (inl derived) = inl derived
  outside_parent r outside (inr (q, found, path, ws)) =
      elim (Bool-cases (has_prefix_path q.path src.path)) [
        | inl e ↦
            let more = prefix_more q.path src.path (r.ref ∷ []) e in
            let there = ap (λ l. has_prefix_path l src.path) path in
            absurd (cc (more, there, outside))
        | inr e ↦
            inr (q, moved_found q found ∙ ap some (move_path-out src.path target q e), path, ws)
      ]

  outside-Hangs :
      (r : ObjectRow)
      → lock_object r.ref rows ≡ some r
      → has_prefix_path r.path src.path ≡ false
      → Hangs moved_rows (move_path src.path target r)
  outside-Hangs r found outside =
      let (owns, parent, depth) = tree r.ref r found in
      subst (Hangs moved_rows) (sym (move_path-out src.path target r outside))
        (owns, outside_parent r outside parent, depth)

  pub move_subtree-IsTree : IsTree moved_rows
  move_subtree-IsTree ref r h = elim (Option-cases (lock_object ref rows)) [
    | inl e ↦
        let nothing = lock_object-move ref src.path target rows ∙ ap (moved src.path target) e in
        absurd (cc (nothing, h))
    | inr (q, e) ↦
        let there = lock_object-move ref src.path target rows ∙ ap (moved src.path target) e in
        let found = ap (λ x. lock_object x rows) (lock_object-ref ref rows q e) ∙ e in
        subst (Hangs moved_rows) (some_inj (sym there ∙ h))
          (elim (Bool-cases (has_prefix_path q.path src.path)) [
            | inl inside ↦ inside-Hangs q found inside
            | inr outside ↦ outside-Hangs q found outside
          ])
  ]
