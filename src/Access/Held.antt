-- ===== src/Access/Held.antt =====
-- The keys that a member holds, and the keys of an object that no grant gives it.
use super_ops.Base.{
  ℕ, ◌≡◌, refl, sym, ◌∙◌, ap, subst, true, false, ◌&&◌, ◌||◌, List, [], ◌∷◌, ◌++◌, Option, none,
  some, arith, Bool-cases, inl, inr, ◌⊎◌,
}
use super_ops.Base.Bytes.{str_eq, str_eq→eq}
use super_ops.Access.{
  Bytes, file, ObjectRef, ObjectPath, build_path, has_prefix_path, SubjectKind, user, group,
  workspace, link, GrantRow, ObjectRow, Key, KeyRow, ChannelRow, FileRow, same_key, subject_key,
  channel, folder, container_key,
}
use super_ops.Access.Rows.{both, prefix_trans}
use super_ops.Access.View.{
  member_keys, attachment_keys, workspace_keys, channel_keys, file_keys, find_channel, find_file,
  table_keys, grant_keys, reaches, is_below, is_derived, parent_segment, one_key, key_of_container,
  key,
}
use super_ops.Access.Keys.{holds}
use super_ops.Access.Listing.{
  in_channel, opens, channel_keys_for, native_container_keys, identity_keys,
}
use super_ops.Access.Opening.{either, same_key→eq}
use super_ops.Access.Decided.{user_ref, kind-IsNative}

pub parent_segment-build :
    (above : ObjectPath) (x y : ObjectRef)
    → parent_segment (build_path (build_path above x) y) ≡ some x
unfolding parent_segment
parent_segment-build [] x y = refl
parent_segment-build (z ∷ []) x y = refl
parent_segment-build (z ∷ w ∷ []) x y = refl
parent_segment-build (z ∷ w ∷ v ∷ above) x y = parent_segment-build (w ∷ v ∷ above) x y

-- The keys of a native object that no grant gives: its folder's.
member_keys_native :
    (o : ObjectRow) (c : Option ChannelRow)
    → str_eq o.ref.kind channel ≡ false
    → member_keys o c ≡ []
member_keys_native o none h = refl
member_keys_native o (some c) h = rw h refl

attachment_keys_native :
    (cs : List ChannelRow) (o : ObjectRow) (f : Option FileRow)
    → str_eq o.ref.kind file ≡ false
    → attachment_keys cs o f ≡ []
attachment_keys_native cs o none h = refl
attachment_keys_native cs o (some f) h = rw h refl

pub table_keys_native :
    (cs : List ChannelRow) (fs : List FileRow) (o : ObjectRow)
    → is_derived o.ref.kind ≡ false
    → table_keys cs fs o ≡ key_of_container (parent_segment o.path) ++ []
unfolding table_keys workspace_keys channel_keys file_keys
table_keys_native cs fs o native =
    let (w, c, f) = kind-IsNative o.ref.kind native in
    rw w (
      rw (member_keys_native o (find_channel o.ref.id cs) c)
        (rw (attachment_keys_native cs o (find_file o.ref.id fs) f) refl))

-- The keys that channels give are channel keys.
channel_keys_for-letter :
    (k : Key) (ws id : Bytes) (cs : List ChannelRow)
    → holds k (channel_keys_for ws id cs) ≡ true
    → k.letter ≡ b'c'
unfolding holds channel_keys_for
channel_keys_for-letter k ws id [] h = absurd (cc h)
channel_keys_for-letter k ws id (c ∷ cs) h =
    elim (Bool-cases (str_eq c.workspace_id ws && (c.is_public || in_channel id c))) [
      | inr e ↦ channel_keys_for-letter k ws id cs (rw e at h)
      | inl e ↦
          elim (either (same_key (key b'c' c.id) k) (holds k (channel_keys_for ws id cs))
            (rw e at h)) [
              | inl same ↦ sym (ap (λ x. x.letter) (same_key→eq (key b'c' c.id) k same))
              | inr rest ↦ channel_keys_for-letter k ws id cs rest
            ]
    ]

-- A folder's key is held when the identity keys open the folder.
pub native_container_keys-opens :
    (k : Key) (ws : Bytes) (held : List Key) (keys : List KeyRow) (objects : List ObjectRow)
    → holds k (native_container_keys ws held keys objects) ≡ true
    → (k.letter ≡ b'f') × (opens held (record { kind = folder; id = k.id }) keys ≡ true)
unfolding holds native_container_keys
native_container_keys-opens k ws held keys [] h = absurd (cc h)
native_container_keys-opens k ws held keys (o ∷ os) h =
    let rest = native_container_keys-opens k ws held keys os in
    elim (Bool-cases
      (opens held o.ref keys && (str_eq o.workspace_id ws && str_eq o.ref.kind folder))) [
        | inr e ↦ rest (rw e at h)
        | inl e ↦
            elim (either (same_key (key b'f' o.ref.id) k)
              (holds k (native_container_keys ws held keys os)) (rw e at h)) [
                | inr later ↦ rest later
                | inl same ↦
                    let (opened, there) =
                      both (opens held o.ref keys)
                        (str_eq o.workspace_id ws && str_eq o.ref.kind folder) e in
                    let (w, kind) =
                      both (str_eq o.workspace_id ws) (str_eq o.ref.kind folder) there in
                    let eq = same_key→eq (key b'f' o.ref.id) k same in
                    let id = ap (λ x. x.id) eq in
                    let ref : o.ref ≡ record { kind = folder; id = k.id } =
                      cc (str_eq→eq o.ref.kind folder kind, id) in
                    (sym (ap (λ x. x.letter) eq), subst (λ x. opens held x keys ≡ true) ref opened)
              ]
      ]

-- Which keys a member can hold.
abbrev pub ws_key : Bytes → Key
ws_key ws = key b'w' ws

abbrev pub me_key : Bytes → Key
me_key id = subject_key (user_ref id)

pub identity_cases :
    (k : Key) (ws id : Bytes) (cs : List ChannelRow)
    → holds k (identity_keys (user_ref id) ws cs) ≡ true
    → (k ≡ ws_key ws) ⊎ ((k ≡ me_key id) ⊎ (k.letter ≡ b'c'))
unfolding holds
identity_cases k ws id cs h =
    elim (either (same_key (ws_key ws) k)
      (same_key (me_key id) k || holds k (channel_keys_for ws id cs)) h) [
        | inl e ↦ inl (sym (same_key→eq (ws_key ws) k e))
        | inr rest ↦
            elim (either (same_key (me_key id) k) (holds k (channel_keys_for ws id cs)) rest) [
              | inl e ↦ inr (inl (sym (same_key→eq (me_key id) k e)))
              | inr c ↦ inr (inr (channel_keys_for-letter k ws id cs c))
            ]
      ]

letters :
    (kind : SubjectKind) (l : ℕ)
    → (subject_key (record { kind = kind; id = [] })).letter ≡ l
    → (l ≡ b'c' → ⊥) × (l ≡ b'f' → ⊥)
letters user l h = (λ e. omega arith, λ e. omega arith)
letters group l h = (λ e. omega arith, λ e. omega arith)
letters workspace l h = (λ e. omega arith, λ e. omega arith)
letters link l h = (λ e. omega arith, λ e. omega arith)

pub folder_not_identity :
    (k : Key) (ws id : Bytes)
    → k.letter ≡ b'f'
    → (k ≡ ws_key ws) ⊎ ((k ≡ me_key id) ⊎ (k.letter ≡ b'c'))
    → ⊥
folder_not_identity k ws id f (inl e) = let l = ap (λ x. x.letter) e in omega arith
folder_not_identity k ws id f (inr (inl e)) = let l = ap (λ x. x.letter) e in omega arith
folder_not_identity k ws id f (inr (inr c)) = omega arith

-- A grant's key is not a container's.
pub grant_letter :
    (objects : List ObjectRow) (gs : List GrantRow) (o : ObjectRow) (k : Key)
    → holds k (grant_keys objects gs o) ≡ true
    → (k.letter ≡ b'c' → ⊥) × (k.letter ≡ b'f' → ⊥)
unfolding holds grant_keys
grant_letter objects [] o k h = absurd (cc h)
grant_letter objects (g ∷ gs) o k h = elim (Bool-cases (reaches objects g o)) [
  | inr e ↦ grant_letter objects gs o k (rw e at h)
  | inl e ↦
      elim (either (same_key (subject_key g.subject) k) (holds k (grant_keys objects gs o))
        (rw e at h)) [
          | inr later ↦ grant_letter objects gs o k later
          | inl same ↦
              let eq = ap (λ x. x.letter) (same_key→eq (subject_key g.subject) k same) in
              letters g.subject.kind k.letter eq
        ]
]

container_key-folder :
    (p : ObjectRef)
    → str_eq p.kind channel ≡ false
    → str_eq p.kind folder ≡ true
    → container_key p ≡ some (key b'f' p.id)
unfolding container_key
container_key-folder p c f = rw c (rw f refl)

container_key-none :
    (p : ObjectRef)
    → str_eq p.kind channel ≡ false
    → str_eq p.kind folder ≡ false
    → container_key p ≡ none
unfolding container_key
container_key-none p c f = rw c (rw f refl)

pub container_folder :
    (p : ObjectRef) (k : Key)
    → str_eq p.kind channel ≡ false
    → holds k (key_of_container (some p) ++ []) ≡ true
    → (k ≡ key b'f' p.id) × (p.kind ≡ folder)
unfolding holds
container_folder p k apart h = elim (Bool-cases (str_eq p.kind folder)) [
  | inr e ↦
      let held = ap (λ o. holds k (one_key o ++ [])) (container_key-none p apart e) in
      absurd (cc (held, h))
  | inl e ↦
      let held = ap (λ o. holds k (one_key o ++ [])) (container_key-folder p apart e) in
      elim (either (same_key (key b'f' p.id) k) false (sym held ∙ h)) [
        | inl same ↦ (sym (same_key→eq (key b'f' p.id) k same), str_eq→eq p.kind folder e)
        | inr wrong ↦ absurd (cc wrong)
      ]
]

pub below_more :
    (row : Option ObjectRow) (q o : ObjectPath)
    → has_prefix_path o q ≡ true
    → is_below q row ≡ true
    → is_below o row ≡ true
below_more none q o under h = h
below_more (some r) q o under h = prefix_trans o q r.path under h

pub folder_native : is_derived folder ≡ false
unfolding is_derived str_eq
folder_native = refl
