-- ===== src/Access/Granted.antt =====
-- When the grants give a user anything at all: the maximum of `grantedCapability` as an existence.
use super_ops.Base.{
  ℕ, ◌≡◌, ◌≤◌, refl, sym, ◌∙◌, ap, subst, Bool, true, false, ◌&&◌, ◌||◌, not, List, [], ◌∷◌, ◌++◌,
  Option, none, some, min, max, lt→ltb, ltb, ◌==◌, length, if◌then◌else◌, arith, Bool-cases, inl,
  inr, All,
}
use super_ops.Base.Bytes.{str_eq}
use super_ops.Access.{
  ObjectRef, same_ref, ObjectPath, build_path, has_prefix_path, below, SubjectRef, GrantRow,
  ObjectRow, Acl, Key, Role, owner, admin, member, guest, max_path_depth, same_key, subject_key,
  lock_object,
}
use super_ops.Access.Rows.{
  both, append_assoc, same_ref→eq, same_ref_refl, prefix_split, has_prefix_path-append,
}
use super_ops.Access.View.{grant_keys, reaches}
use super_ops.Access.Keys.{holds}
use super_ops.Access.Decide.{
  ObjectState, is_workspace, workspace_capability, workspace_role, is_workspace_member,
  role_capability, best_of, granted_capability, prefixes, ancestor_paths, has_path, same_path,
  applies_at,
}
use super_ops.Access.Opening.{either}

unfoldable pub some_grant : (GrantRow → Bool) → List GrantRow → Bool
some_grant test [] = false
some_grant test (g ∷ gs) = test g || some_grant test gs

pub some_grant_either :
    (p q : GrantRow → Bool) (gs : List GrantRow)
    → (some_grant p gs || some_grant q gs) ≡ some_grant (λ g. p g || q g) gs
unfolding some_grant
some_grant_either p q [] = refl
some_grant_either p q (g ∷ gs) = ground (arith, some_grant_either p q gs)

pub some_grant_ext :
    (p q : GrantRow → Bool) (gs : List GrantRow)
    → ((g : GrantRow) → p g ≡ q g)
    → some_grant p gs ≡ some_grant q gs
unfolding some_grant
some_grant_ext p q [] same = refl
some_grant_ext p q (g ∷ gs) same = ground (arith, some_grant_ext p q gs same, same g)

pub some_grant_mono :
    (p q : GrantRow → Bool) (gs : List GrantRow)
    → ((g : GrantRow) → p g ≡ true → q g ≡ true)
    → some_grant p gs ≡ true
    → some_grant q gs ≡ true
unfolding some_grant
some_grant_mono p q [] le h = h
some_grant_mono p q (g ∷ gs) le h = elim (either (p g) (some_grant p gs) h) [
  | inl e ↦ rw (le g e) refl
  | inr e ↦ let rest = some_grant_mono p q gs le e in ground (arith, rest)
]

-- The keys that the grants give to an object.
pub grant_keys_some :
    (objects : List ObjectRow) (gs : List GrantRow) (o : ObjectRow) (k : Key)
    → holds k (grant_keys objects gs o)
      ≡ some_grant (λ g. reaches objects g o && same_key (subject_key g.subject) k) gs
unfolding holds grant_keys some_grant
grant_keys_some objects [] o k = refl
grant_keys_some objects (g ∷ gs) o k = ground (arith, grant_keys_some objects gs o k)

-- The best of the grants that apply is something when one applies.
abbrev pub counts : Bool → SubjectRef → List ObjectPath → Acl → GrantRow → Bool
counts to_workspace sub paths a g =
    (if to_workspace then is_workspace g.subject.kind else not (is_workspace g.subject.kind))
    && applies_at sub paths a.members g (lock_object g.object a.objects)

pub best_of_some :
    (to_workspace : Bool) (sub : SubjectRef) (paths : List ObjectPath) (a : Acl)
    (gs : List GrantRow)
    → All (λ g. 1 ≤ g.capability) gs
    → ltb 0 (best_of to_workspace sub paths a gs) ≡ some_grant (counts to_workspace sub paths a) gs
unfolding best_of some_grant
best_of_some to_workspace sub paths a [] stored = refl
best_of_some to_workspace sub paths a (g ∷ gs) (one, stored) =
    let rest = best_of_some to_workspace sub paths a gs stored in
    elim (Bool-cases (counts to_workspace sub paths a g)) [
      | inl e ↦
          rw e (lt→ltb 0 (max g.capability (best_of to_workspace sub paths a gs)) (omega arith))
      | inr e ↦ rw e rest
    ]

-- The paths of `ancestorPaths` are the prefixes.
same_path→eq : (p q : ObjectPath) → same_path p q ≡ true → p ≡ q
unfolding same_path
same_path→eq [] [] h = refl
same_path→eq [] (y ∷ q) h = absurd (cc h)
same_path→eq (x ∷ p) [] h = absurd (cc h)
same_path→eq (x ∷ p) (y ∷ q) h =
    let (e, k) = both (same_ref x y) (same_path p q) h in
    let first = same_ref→eq x y e in let rest = same_path→eq p q k in cc

same_path_refl : (p : ObjectPath) → same_path p p ≡ true
unfolding same_path
same_path_refl [] = refl
same_path_refl (x ∷ p) = ground (arith, same_path_refl p, same_ref_refl x)

prefixes→prefix :
    (p before path : ObjectPath)
    → has_path p (prefixes before path) ≡ true
    → has_prefix_path (before ++ path) p ≡ true
unfolding has_path prefixes
prefixes→prefix p before [] h = absurd (cc h)
prefixes→prefix p before (o ∷ os) h =
    let step = append_assoc before (o ∷ []) os in
    elim (either (same_path p (build_path before o))
      (has_path p (prefixes (build_path before o) os)) h) [
        | inl e ↦
            let eq = same_path→eq p (build_path before o) e in
            subst (λ l. has_prefix_path l p ≡ true) step
              (subst (λ l. has_prefix_path (build_path before o ++ os) l ≡ true) (sym eq)
                (has_prefix_path-append (build_path before o) os))
        | inr e ↦
            subst (λ l. has_prefix_path l p ≡ true) step
              (prefixes→prefix p (build_path before o) os e)
      ]

prefix→prefixes :
    (before q s : ObjectPath) (x : ObjectRef)
    → has_path (before ++ x ∷ q) (prefixes before (x ∷ q ++ s)) ≡ true
unfolding has_path prefixes
prefix→prefixes before [] s x = rw (same_path_refl (build_path before x)) refl
prefix→prefixes before (y ∷ q) s x =
    let rest = prefix→prefixes (build_path before x) q s y in
    let eq =
      ap (λ l. has_path l (prefixes (build_path before x) (y ∷ q ++ s)))
        (append_assoc before (x ∷ []) (y ∷ q)) in
    ground (arith, sym eq ∙ rest)

pub iff_bool : (a b : Bool) → (a ≡ true → b ≡ true) → (b ≡ true → a ≡ true) → a ≡ b
iff_bool true b f g = sym (f refl)
iff_bool false true f g = g refl
iff_bool false false f g = refl

prefix→has :
    (above path : ObjectPath) (x : ObjectRef)
    → has_prefix_path path (build_path above x) ≡ true
    → has_path (build_path above x) (prefixes [] path) ≡ true
prefix→has [] path x h =
    subst (λ l. has_path (x ∷ []) (prefixes [] l) ≡ true) (sym (prefix_split path (x ∷ []) h))
      (prefix→prefixes [] [] (below (x ∷ []) path) x)
prefix→has (y ∷ above) path x h =
    let p = y ∷ build_path above x in
    subst (λ l. has_path p (prefixes [] l) ≡ true) (sym (prefix_split path p h))
      (prefix→prefixes [] (build_path above x) (below p path) y)

-- An ancestor's path is one of the prefixes that `ancestorPaths` lists.
pub ancestor_paths_iff :
    (above path : ObjectPath) (x : ObjectRef)
    → length path ≤ max_path_depth
    → has_path (build_path above x) (ancestor_paths path)
      ≡ has_prefix_path path (build_path above x)
ancestor_paths_iff above path x short =
    let fits : ltb max_path_depth (length path) ≡ false = ground arith in
    rw fits (
      iff_bool (has_path (build_path above x) (prefixes [] path))
        (has_prefix_path path (build_path above x)) (prefixes→prefix (build_path above x) [] path)
        (prefix→has above path x))

role_capability-some :
    (role : Option Role)
    → elim role [ none ↦ false | some r ↦ true ] ≡ true
    → 1 ≤ role_capability role
role_capability-some none h = absurd (cc h)
role_capability-some (some owner) h = omega arith
role_capability-some (some admin) h = omega arith
role_capability-some (some member) h = omega arith
role_capability-some (some guest) h = omega arith

clamped_some :
    (best shared role : ℕ) (unnamed : Bool)
    → 1 ≤ role
    → unnamed ≡ false
    → ltb 0 (if not (shared == 0) && not unnamed then max best (min shared role) else best)
      ≡ (ltb 0 best || ltb 0 shared)
clamped_some best shared role unnamed one named = ground arith

-- A member of the object's workspace has something by the grants when some grant counts.
pub granted_capability_some :
    (sub : SubjectRef) (st : ObjectState) (a : Acl)
    → All (λ g. 1 ≤ g.capability) a.grants
    → str_eq st.workspace_id [] ≡ false
    → is_workspace_member st.workspace_id sub.id a.members ≡ true
    → ltb 0 (granted_capability sub st a)
      ≡ some_grant
          (λ g.
            counts false sub (ancestor_paths st.path) a g
            || counts true sub (ancestor_paths st.path) a g)
          a.grants
unfolding granted_capability
granted_capability_some sub st a stored named in_it =
    let paths = ancestor_paths st.path in
    let one = role_capability-some (workspace_role st.workspace_id sub.id a.members) in_it in
    let own = best_of_some false sub paths a a.grants stored in
    let shared = best_of_some true sub paths a a.grants stored in
    let split = some_grant_either (counts false sub paths a) (counts true sub paths a) a.grants in
    clamped_some (best_of false sub paths a a.grants) (best_of true sub paths a a.grants)
      (workspace_capability st.workspace_id sub.id a.members) (str_eq st.workspace_id []) one named
    ∙ cc (own, shared, split)
