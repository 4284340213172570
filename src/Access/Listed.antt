-- ===== src/Access/Listed.antt =====
-- The list path of an object that the access layer owns, in terms of two identity keys.
use super_ops.Base.{
  ◌≡◌, refl, sym, ◌∙◌, ap, subst, Bool, true, false, ◌&&◌, ◌||◌, [], ◌∷◌, ◌++◌, some, some_inj,
  arith, Option-cases, inl, inr, ◌⊎◌,
}
use super_ops.Access.{
  Bytes, ObjectRef, build_path, has_prefix_path, ObjectRow, Acl, Key, same_key, subject_key, folder,
  lock_object,
}
use super_ops.Access.Rows.{both, has_prefix_path-append}
use super_ops.Access.View.{
  expected_keys, grant_keys, reaches, is_derived, parent_segment, key_of_container, key,
}
use super_ops.Access.Keys.{holds, has_key, InSync}
use super_ops.Access.Listing.{opens, native_container_keys, identity_keys}
use super_ops.Access.Opening.{either, holds-append, opens→key}
use super_ops.Access.Granted.{
  some_grant_mono, some_grant, some_grant_ext, some_grant_either, grant_keys_some,
}
use super_ops.Access.WellFormed.{IsTree}
use super_ops.Access.Decided.{NoChannelParents, user_ref, is_mine}
use super_ops.Access.Held.{
  ws_key, me_key, parent_segment-build, table_keys_native, native_container_keys-opens,
  identity_cases, folder_not_identity, grant_letter, container_folder, below_more, folder_native,
}

-- What a member's keys open is what the grants' keys for the two identity keys reach.
module _ (a : Acl) (sync : InSync a) (apart : NoChannelParents a.objects) (ws id : Bytes) where
  abbrev pub mine_at : ObjectRow → Bool
  mine_at o = some_grant (λ g. reaches a.objects g o && is_mine ws id g) a.grants

  -- The two identity keys, among the keys of an object.
  pub mine_keys :
      (o : ObjectRow)
      → (holds (ws_key ws) (grant_keys a.objects a.grants o)
          || holds (me_key id) (grant_keys a.objects a.grants o))
        ≡ mine_at o
  mine_keys o =
      let w = grant_keys_some a.objects a.grants o (ws_key ws) in
      let u = grant_keys_some a.objects a.grants o (me_key id) in
      let split =
        some_grant_either
          (λ g. reaches a.objects g o && same_key (subject_key g.subject) (ws_key ws))
          (λ g. reaches a.objects g o && same_key (subject_key g.subject) (me_key id)) a.grants in
      let shape =
        some_grant_ext
          (λ g.
            (reaches a.objects g o && same_key (subject_key g.subject) (ws_key ws))
            || (reaches a.objects g o && same_key (subject_key g.subject) (me_key id)))
          (λ g. reaches a.objects g o && is_mine ws id g) a.grants (λ g. ground arith) in
      cc (w, u, split, shape)

  -- A key of the grants that is held is one of the two.
  held_mine :
      (o : ObjectRow) (k : Key)
      → (k ≡ ws_key ws) ⊎ (k ≡ me_key id)
      → holds k (grant_keys a.objects a.grants o) ≡ true
      → mine_at o ≡ true
  held_mine o k (inl e) h =
      let there = subst (λ x. holds x (grant_keys a.objects a.grants o) ≡ true) e h in
      sym (mine_keys o) ∙ rw there refl
  held_mine o k (inr e) h =
      let there = subst (λ x. holds x (grant_keys a.objects a.grants o) ≡ true) e h in
      let all = mine_keys o in ground (arith, all, there)

  -- Keys of the object that its folder gives it.
  folder_key :
      (o : ObjectRow) (k : Key)
      → is_derived o.ref.kind ≡ false
      → lock_object o.ref a.objects ≡ some o
      → holds k (key_of_container (parent_segment o.path) ++ []) ≡ true
      → (p : ObjectRef) × (parent_segment o.path ≡ some p) × (k ≡ key b'f' p.id) × (p.kind ≡ folder)
  unfolding holds
  folder_key o k native found h = elim (Option-cases (parent_segment o.path)) [
    | inl e ↦ absurd (cc h)
    | inr (p, e) ↦
        let held = ap (λ s. holds k (key_of_container s ++ [])) e in
        let (eq, kind) = container_folder p k (apart o.ref o p found native e) (sym held ∙ h) in
        (p, e, eq, kind)
  ]

  -- The keys of a native object are its folder's and those of the grants.
  native_keys :
      (o : ObjectRow) (k : Key)
      → is_derived o.ref.kind ≡ false
      → lock_object o.ref a.objects ≡ some o
      → has_key o.ref k a.keys ≡ (
          holds k (key_of_container (parent_segment o.path) ++ [])
          || holds k (grant_keys a.objects a.grants o))
  unfolding expected_keys
  native_keys o k native found =
      sync o.ref o k found
      ∙ rw (table_keys_native a.channels a.files o native) (
          holds-append k (key_of_container (parent_segment o.path) ++ [])
            (grant_keys a.objects a.grants o))

  pub identity_mine :
      (o : ObjectRow)
      → is_derived o.ref.kind ≡ false
      → lock_object o.ref a.objects ≡ some o
      → opens (identity_keys (user_ref id) ws a.channels) o.ref a.keys ≡ true
      → mine_at o ≡ true
  identity_mine o native found h =
      let (k, held, own) = opens→key (identity_keys (user_ref id) ws a.channels) o.ref a.keys h in
      let known = identity_cases k ws id a.channels held in
      elim (either (holds k (key_of_container (parent_segment o.path) ++ []))
        (holds k (grant_keys a.objects a.grants o)) (sym (native_keys o k native found) ∙ own)) [
          | inl table ↦
              let (p, e, eq, kind) = folder_key o k native found table in
              absurd (folder_not_identity k ws id (ap (λ x. x.letter) eq) known)
          | inr granted ↦ elim known [
            | inl w ↦ held_mine o k (inl w) granted
            | inr (inl u) ↦ held_mine o k (inr u) granted
            | inr (inr c) ↦ absurd ((grant_letter a.objects a.grants o k granted).0 c)
          ]
        ]

  -- What reaches a folder reaches what is in it.
  mine_below :
      (q o : ObjectRow) → has_prefix_path o.path q.path ≡ true → mine_at q ≡ true → mine_at o ≡ true
  mine_below q o under h =
      some_grant_mono (λ g. reaches a.objects g q && is_mine ws id g)
        (λ g. reaches a.objects g o && is_mine ws id g) a.grants
        (λ g e.
          let (reached, mine) = both (reaches a.objects g q) (is_mine ws id g) e in
          let more = below_more (lock_object g.object a.objects) q.path o.path under reached in
          rw more (rw mine refl))
        h

  -- A folder's key among the keys held: the folder is open to the identity keys.
  pub folder_mine :
      (o : ObjectRow) (k : Key)
      → IsTree a.objects
      → is_derived o.ref.kind ≡ false
      → lock_object o.ref a.objects ≡ some o
      → holds k
          (native_container_keys ws (identity_keys (user_ref id) ws a.channels) a.keys a.objects)
        ≡ true
      → has_key o.ref k a.keys ≡ true
      → mine_at o ≡ true
  folder_mine o k tree native found held own =
      let identity = identity_keys (user_ref id) ws a.channels in
      let (letter, opened) = native_container_keys-opens k ws identity a.keys a.objects held in
      elim (either (holds k (key_of_container (parent_segment o.path) ++ []))
        (holds k (grant_keys a.objects a.grants o)) (sym (native_keys o k native found) ∙ own)) [
          | inr granted ↦ absurd ((grant_letter a.objects a.grants o k granted).1 letter)
          | inl table ↦
              let (p, e, eq, kind) = folder_key o k native found table in
              elim (tree o.ref o found).1 [
                | inl derived ↦ absurd (cc (derived, native))
                | inr (q, q_found, path, one) ↦
                    let ((above, owns), up, depth) = tree q.ref q q_found in
                    let parent =
                      ap parent_segment (path ∙ ap (λ l. build_path l o.ref) owns)
                      ∙ parent_segment-build above q.ref o.ref in
                    let same : p ≡ q.ref = some_inj (sym e ∙ parent) in
                    let ref : record { kind = folder; id = k.id } ≡ q.ref =
                      cc (same, kind, ap (λ x. x.id) eq) in
                    let q_native : is_derived q.ref.kind ≡ false =
                      subst (λ x. is_derived x ≡ false) (sym kind ∙ ap (λ x. x.kind) same)
                        folder_native in
                    mine_below q o
                      (subst (λ l. has_prefix_path l q.path ≡ true) (sym path)
                        (has_prefix_path-append q.path (o.ref ∷ [])))
                      (identity_mine q q_native q_found
                        (subst (λ x. opens identity x a.keys ≡ true) ref opened))
              ]
        ]

  -- An identity key of a grant that reaches an object is among the object's keys.
  pub mine_has_key :
      (o : ObjectRow)
      → is_derived o.ref.kind ≡ false
      → lock_object o.ref a.objects ≡ some o
      → mine_at o ≡ true
      → (has_key o.ref (ws_key ws) a.keys ≡ true) ⊎ (has_key o.ref (me_key id) a.keys ≡ true)
  mine_has_key o native found h =
      let w = native_keys o (ws_key ws) native found in
      let u = native_keys o (me_key id) native found in
      elim (either (holds (ws_key ws) (grant_keys a.objects a.grants o))
        (holds (me_key id) (grant_keys a.objects a.grants o)) (mine_keys o ∙ h)) [
          | inl e ↦ inl (ground (arith, w, e))
          | inr e ↦ inr (ground (arith, u, e))
        ]
