-- ===== src/Access/Decided.antt =====
-- The decision about an object that the access layer owns, in terms of two identity keys.
use super_ops.Base.{
  ◌≡◌, ◌≤◌, refl, sym, ◌∙◌, ap, subst, Bool, true, false, ◌&&◌, ◌||◌, not, List, [], ◌∷◌, ◌++◌,
  Option, none, some, ltb, arith, Bool-cases, inl, inr, All,
}
use super_ops.Base.Bytes.{str_eq}
use super_ops.Access.{
  Bytes, workspace_type, file, cap_read, ObjectRef, ObjectPath, has_prefix_path, below, SubjectKind,
  user, group, workspace, link, same_subject, SubjectRef, GrantRow, ObjectRow, Acl, same_key,
  subject_key, channel, lock_object,
}
use super_ops.Access.Rows.{prefix_split}
use super_ops.Access.View.{reaches, is_derived, parent_segment, key, workspace_ref}
use super_ops.Access.WellFormed.{IsTree}
use super_ops.Access.Decide.{
  is_user, can, derived_capability, ObjectState, is_workspace, is_workspace_member,
  granted_capability, ancestor_paths, has_path, capability, resolve,
}
use super_ops.Access.Granted.{
  some_grant, some_grant_ext, counts, ancestor_paths_iff, granted_capability_some,
}

-- The table's check acl_object_path_in_workspace: a path begins with the row's own workspace.
abbrev pub InWorkspace : List ObjectRow → Type 0
InWorkspace rows =
    (ref : ObjectRef) (r : ObjectRow)
    → lock_object ref rows ≡ some r
    → (rest : ObjectPath) × (r.path ≡ workspace_ref r.workspace_id ∷ rest)

-- Objects of the access layer's own are in folders and the like, and not directly in channels.
abbrev pub NoChannelParents : List ObjectRow → Type 0
NoChannelParents rows =
    (ref : ObjectRef) (r : ObjectRow) (p : ObjectRef)
    → lock_object ref rows ≡ some r
    → is_derived r.ref.kind ≡ false
    → parent_segment r.path ≡ some p
    → str_eq p.kind channel ≡ false

abbrev pub user_ref : Bytes → SubjectRef
user_ref id = record { kind = user; id = id }

-- Whether one of the two identity keys of a member is the grant's.
abbrev pub is_mine : Bytes → Bytes → GrantRow → Bool
is_mine ws id g =
    same_key (subject_key g.subject) (key b'w' ws)
    || same_key (subject_key g.subject) (subject_key (user_ref id))

addressed_mine :
    (kind : SubjectKind) (sid ws id : Bytes) (member : Bool)
    → member ≡ true
    → ((not (is_workspace kind)
          && (same_subject (record { kind = kind; id = sid }) (user_ref id)
              || (is_workspace kind && (str_eq sid ws && member))))
        || (is_workspace kind
            && (same_subject (record { kind = kind; id = sid }) (user_ref id)
                || (is_workspace kind && (str_eq sid ws && member)))))
      ≡ (same_key (subject_key (record { kind = kind; id = sid })) (key b'w' ws)
          || same_key (subject_key (record { kind = kind; id = sid })) (subject_key (user_ref id)))
addressed_mine user sid ws id member h = ground arith
addressed_mine group sid ws id member h = ground arith
addressed_mine workspace sid ws id member h = ground arith
addressed_mine link sid ws id member h = ground arith

-- Rows one under the other are in one workspace.
one_workspace :
    (rows : List ObjectRow) (x y : ObjectRef) (q r : ObjectRow)
    → InWorkspace rows
    → lock_object x rows ≡ some q
    → lock_object y rows ≡ some r
    → has_prefix_path r.path q.path ≡ true
    → q.workspace_id ≡ r.workspace_id
one_workspace rows x y q r rooted q_found r_found h =
    let (q_rest, q_path) = rooted x q q_found in
    let (r_rest, r_path) = rooted y r r_found in
    let split = prefix_split r.path q.path h in
    let eq = sym r_path ∙ split ∙ ap (λ l. l ++ below q.path r.path) q_path in
    let first : workspace_ref r.workspace_id ≡ workspace_ref q.workspace_id = cc eq in
    sym (ap (λ o. o.id) first)

neither3 : (x y z : Bool) → (x || (y || z)) ≡ false → (x ≡ false) × (y ≡ false) × (z ≡ false)
neither3 false false false h = (refl, refl, refl)
neither3 true y z h = absurd (cc h)
neither3 false true z h = absurd (cc h)
neither3 false false true h = absurd (cc h)

abbrev pub IsNative : Bytes → Type 0
IsNative kind =
    (str_eq kind workspace_type ≡ false)
    × (str_eq kind channel ≡ false)
    × (str_eq kind file ≡ false)

pub kind-IsNative : (kind : Bytes) → is_derived kind ≡ false → IsNative kind
unfolding is_derived
kind-IsNative kind h =
    neither3 (str_eq kind workspace_type) (str_eq kind channel) (str_eq kind file) h

abbrev pub own_state : ObjectRow → ObjectState
own_state r = record {
  ref = r.ref;
  workspace_id = r.workspace_id;
  in_channel = none;
  owner_id = none;
  path = r.path;
}

derived_native :
    (sub : SubjectRef) (a : Acl) (r : ObjectRow)
    → str_eq r.ref.kind workspace_type ≡ false
    → is_user sub.kind ≡ true
    → derived_capability sub (own_state r) a.members ≡ 0
unfolding derived_capability
derived_native sub a r w person = rw person (rw w refl)

pub capability_native :
    (sub : SubjectRef) (a : Acl) (r : ObjectRow)
    → is_derived r.ref.kind ≡ false
    → is_user sub.kind ≡ true
    → lock_object r.ref a.objects ≡ some r
    → can sub r.ref cap_read a ≡ ltb 0 (granted_capability sub (own_state r) a)
unfolding capability resolve
capability_native sub a r native person found =
    let (w, c, f) = kind-IsNative r.ref.kind native in
    let nothing = derived_native sub a r w person in
    rw w (rw c (rw f (rw found (ground (arith, nothing)))))

module _ (a : Acl) (tree : IsTree a.objects) (rooted : InWorkspace a.objects) (r : ObjectRow)
    (found : lock_object r.ref a.objects ≡ some r) (id : Bytes)
    (in_it : is_workspace_member r.workspace_id id a.members ≡ true) where
  abbrev paths : List ObjectPath
  paths = ancestor_paths r.path

  counts_mine :
      (g : GrantRow) (row : Option ObjectRow)
      → lock_object g.object a.objects ≡ row
      → (counts false (user_ref id) paths a g || counts true (user_ref id) paths a g)
        ≡ (reaches a.objects g r && is_mine r.workspace_id id g)
  counts_mine g none h = rw h (ground arith)
  counts_mine g (some q) h =
      let ((above, owns), parent, depth) = tree g.object q h in
      let listed =
        subst (λ l. has_path l paths ≡ has_prefix_path r.path l) (sym owns)
          (ancestor_paths_iff above r.path q.ref (tree r.ref r found).2) in
      elim (Bool-cases (has_prefix_path r.path q.path)) [
        | inl e ↦
            let ws = one_workspace a.objects g.object r.ref q r rooted h found e in
            let mine =
              addressed_mine g.subject.kind g.subject.id r.workspace_id id
                (is_workspace_member r.workspace_id id a.members) in_it in
            rw h (rw (listed ∙ e) (rw e (rw ws mine)))
        | inr e ↦ rw h (rw (listed ∙ e) (rw e (ground arith)))
      ]

  -- What the grants give a member is what the grants' keys for the two identity keys give.
  pub granted_mine :
      All (λ g. 1 ≤ g.capability) a.grants
      → str_eq r.workspace_id [] ≡ false
      → ltb 0 (granted_capability (user_ref id) (own_state r) a)
        ≡ some_grant (λ g. reaches a.objects g r && is_mine r.workspace_id id g) a.grants
  granted_mine stored named =
      granted_capability_some (user_ref id) (own_state r) a stored named in_it
      ∙ some_grant_ext _ _ a.grants (λ g. counts_mine g (lock_object g.object a.objects) refl)
