-- ===== src/Access/Tests.antt =====
-- A workspace with two folders and a document, and the theorems at work on it.
use super_ops.Base.{
  ℕ, Bool, true, false, ◌==◌, not, ◌&&◌, ◌≡◌, refl, false, List, [], ◌∷◌, ◌++◌, some, inl, inr,
  arith, some_inj, subst, All,
}
use super_ops.Base.Bytes.{codes, str_eq}
use super_ops.Base.Fallible.{is_success, Yields, Result, ok, err}
use super_ops.Access.{
  Bytes, ObjectRef, same_ref, ObjectPath, build_path, has_prefix_path, below, ObjectRow, SubjectRef,
  Acl, member, channel, folder, lock_object, cap_read, cap_write, cap_comment,
}
use super_ops.Access.Paths.{Lacks, IsSegment, path_segment}
use super_ops.Access.Rows.{both, lock_object-All}
use super_ops.Access.View.{workspace_ref, is_derived, parent_segment}
use super_ops.Access.Tree.{
  move_cycle, AccessError, revoke_tx, register_tx, move_in_tx, move_tx, grant_tx,
  rewrite_subtree_keys,
}
use super_ops.Access.WellFormed.{IsTree, Hangs}
use super_ops.Access.Registered.{register_tx-IsTree}
use super_ops.Access.Keys.{IsKeyed, InSync, rewrite_subtree_keys-InSync}
use super_ops.Access.Transactions.{
  AclSteps, stay, then_step, granted, relocated, registered, revoked, IsSound, steps-IsSound,
  move_tx-others,
}
use super_ops.Access.Decide.{workspace_role, can}
use super_ops.Access.Listing.{keys_for, filter_readable, keys_of_member}
use super_ops.Access.Decided.{user_ref}
use super_ops.Access.Agreement.{IsConsistent, keep, keys_for-filter_readable}

abbrev ws : Bytes
ws = codes "w"

abbrev ann : Bytes
ann = codes "a"

abbrev doc : Bytes
doc = codes "doc"

abbrev outer : ObjectRef
outer = record { kind = folder; id = codes "f1" }

abbrev inner : ObjectRef
inner = record { kind = folder; id = codes "f2" }

abbrev page : ObjectRef
page = record { kind = doc; id = codes "p" }

abbrev memo : ObjectRef
memo = record { kind = doc; id = codes "m" }

abbrev row_of : ObjectRef → ObjectPath → ObjectRow
row_of ref above = record { ref = ref; workspace_id = ws; path = build_path above ref }

abbrev rows : List ObjectRow
rows =
    row_of (workspace_ref ws) []
    ∷ row_of outer (workspace_ref ws ∷ [])
    ∷ row_of inner (workspace_ref ws ∷ outer ∷ [])
    ∷ row_of page (workspace_ref ws ∷ outer ∷ inner ∷ [])
    ∷ row_of memo (workspace_ref ws ∷ [])
    ∷ []

-- Ann may comment on the outer folder.
abbrev shared : Acl
shared = record {
  workspaces = ws ∷ [];
  members = record { workspace_id = ws; user_id = ann; role = member } ∷ [];
  channels = [];
  files = [];
  objects = rows;
  grants = record { object = outer; subject = user_ref ann; capability = cap_comment } ∷ [];
  keys = [];
}

nothing_outside : (p : ObjectPath) → has_prefix_path p [] ≡ false → ⊥
unfolding has_prefix_path
nothing_outside p h = cc h

abbrev drive : Acl
drive = rewrite_subtree_keys [] shared

abbrev top : ObjectPath
top = workspace_ref ws ∷ []

rows-Hangs : All (Hangs rows) rows
unfolding is_derived str_eq lock_object same_ref
rows-Hangs = (
  (([], refl), inl refl, omega arith),
  (
    ((top, refl), inr (row_of (workspace_ref ws) [], refl, refl, refl), omega arith),
    (
      ((top ++ outer ∷ [], refl), inr (row_of outer top, refl, refl, refl), omega arith),
      (
        (
          (top ++ outer ∷ inner ∷ [], refl),
          inr (row_of inner (top ++ outer ∷ []), refl, refl, refl),
          omega arith,
        ),
        (((top, refl), inr (row_of (workspace_ref ws) [], refl, refl, refl), omega arith), tt),
      ),
    ),
  ),
)

rows-IsTree : IsTree rows
rows-IsTree ref r h = lock_object-All (Hangs rows) ref rows r rows-Hangs h

drive-IsTree : IsTree drive.objects
unfolding rewrite_subtree_keys
drive-IsTree = rows-IsTree

rows-IsKeyed : IsKeyed rows
unfolding str_eq lock_object same_ref
rows-IsKeyed = (refl, (refl, (refl, (refl, (refl, tt)))))

drive-InSync : InSync drive
drive-InSync =
    rewrite_subtree_keys-InSync [] shared rows-IsKeyed
      (λ ref r k h out. absurd (nothing_outside r.path out))

drive-IsSound : IsSound drive
unfolding rewrite_subtree_keys
drive-IsSound = (rows-IsTree, (rows-IsKeyed, drive-InSync))

abbrev HasRoot : ObjectRow → Type 0
HasRoot r = (rest : ObjectPath) × (r.path ≡ workspace_ref r.workspace_id ∷ rest)

rows-HasRoot : All HasRoot rows
rows-HasRoot = (
  ([], refl),
  (
    (outer ∷ [], refl),
    ((outer ∷ inner ∷ [], refl), ((outer ∷ inner ∷ page ∷ [], refl), ((memo ∷ [], refl), tt))),
  ),
)

abbrev IsOutside : ObjectRow → Type 0
IsOutside r =
    (p : ObjectRef)
    → is_derived r.ref.kind ≡ false
    → parent_segment r.path ≡ some p
    → str_eq p.kind channel ≡ false

outside :
    (q p : ObjectRef)
    → str_eq q.kind channel ≡ false
    → some q ≡ some p
    → str_eq p.kind channel ≡ false
outside q p h e = subst (λ x. str_eq x.kind channel ≡ false) (some_inj e) h

rows-IsOutside : All IsOutside rows
unfolding is_derived str_eq parent_segment
rows-IsOutside = (
  λ p native e. absurd (cc native),
  (
    λ p native e. outside (workspace_ref ws) p refl e,
    (
      λ p native e. outside outer p refl e,
      (
        λ p native e. outside inner p refl e,
        (λ p native e. outside (workspace_ref ws) p refl e, tt),
      ),
    ),
  ),
)

drive-IsConsistent : IsConsistent drive
unfolding rewrite_subtree_keys
drive-IsConsistent = (
  rows-IsTree,
  drive-InSync,
  λ ref r h. lock_object-All HasRoot ref rows r rows-HasRoot h,
  λ ref r p h. lock_object-All IsOutside ref rows r rows-IsOutside h p,
  (omega arith, tt),
)

-- Ann holds the keys of the two folders, and reads the page in the inner one, and not the memo.
keys_for-filter_readable_example :
    filter_readable (keys_of_member (user_ref ann) ws drive) doc (codes "p" ∷ codes "m" ∷ []) drive
    ≡ keep
        (λ i. can (user_ref ann) (record { kind = doc; id = i }) cap_read drive)
        (codes "p" ∷ codes "m" ∷ [])
unfolding is_derived str_eq workspace_role lock_object same_ref rewrite_subtree_keys keys_for
keys_for-filter_readable_example =
    keys_for-filter_readable drive ws ann doc (codes "p" ∷ codes "m" ∷ [])
      (keys_of_member (user_ref ann) ws drive) drive-IsConsistent refl refl refl
      ((row_of page (top ++ outer ∷ inner ∷ []), refl, refl), ((row_of memo top, refl, refl), tt))
      refl

readable_example :
    filter_readable (keys_of_member (user_ref ann) ws drive) doc (codes "p" ∷ codes "m" ∷ []) drive
    ≡ codes "p" ∷ []
unfolding filter_readable keys_for rewrite_subtree_keys same_ref
readable_example = refl

abbrev or_else : Acl → Result AccessError Acl → Acl
or_else other (err problem) = other
or_else other (ok a) = a

abbrev bob : SubjectRef
bob = user_ref (codes "b")

-- Bob may write in the inner folder, which then moves out of the outer one; a chart is made in it, and
-- Bob's grant is taken back.
abbrev chart : ObjectRef
chart = record { kind = doc; id = codes "c" }

abbrev drive1 : Acl
drive1 = or_else drive (grant_tx inner bob cap_write drive)

abbrev drive2 : Acl
drive2 = or_else drive1 (move_in_tx inner (workspace_ref ws) drive1)

abbrev drive3 : Acl
drive3 = or_else drive2 (register_tx chart inner drive2)

abbrev drive4 : Acl
drive4 = revoke_tx inner bob drive3

drive-steps : AclSteps drive drive4
unfolding grant_tx move_in_tx register_tx same_ref rewrite_subtree_keys below
drive-steps =
    then_step drive drive3 drive4
      (then_step drive drive2 drive3
        (then_step drive drive1 drive2
          (then_step drive drive drive1 (stay drive)
            (granted inner bob cap_write drive drive1 refl))
          (relocated inner (workspace_ref ws) drive1 drive2 refl))
        (registered chart inner (row_of inner top) drive2 drive3 refl refl refl))
      (revoked inner bob drive3)

steps-IsSound_example : IsSound drive4
steps-IsSound_example = steps-IsSound drive-steps drive-IsSound

-- A chart in the outer folder.
register_tx-IsTree_example : Yields (λ b. IsTree b.objects) (register_tx chart outer drive)
unfolding lock_object same_ref rewrite_subtree_keys
register_tx-IsTree_example = register_tx-IsTree chart outer drive drive-IsTree refl

abbrev page_row : ObjectRow
page_row = row_of page (top ++ outer ∷ inner ∷ [])

-- The page in the inner folder still has its old path after `MoveTx` of the folder.
move_tx-others_example :
    lock_object page (or_else drive (move_tx inner (workspace_ref ws) drive)).objects
    ≡ lock_object page drive.objects
unfolding move_tx same_ref rewrite_subtree_keys
move_tx-others_example =
    move_tx-others inner (workspace_ref ws) page (row_of (workspace_ref ws) []) drive
      (or_else drive (move_tx inner (workspace_ref ws) drive)) refl refl refl

-- It is not the page's place any more: the folder has a new path.
stale_example :
    (lock_object inner (or_else drive (move_tx inner (workspace_ref ws) drive)).objects
      ≡ some (row_of inner top))
    × (lock_object page (or_else drive (move_tx inner (workspace_ref ws) drive)).objects
        ≡ some page_row)
unfolding move_tx same_ref rewrite_subtree_keys
stale_example = (refl, refl)

-- A folder goes under its own child by `MoveTx`, and not by `MoveInTx`.
cycle_example :
    (is_success (move_tx outer inner drive) ≡ true)
    × (move_in_tx outer inner drive ≡ err move_cycle)
unfolding move_tx move_in_tx same_ref rewrite_subtree_keys
cycle_example = (refl, refl)

-- A test for a byte that a word lacks.
unfoldable lacks : ℕ → Bytes → Bool
lacks c [] = true
lacks c (x ∷ xs) = not (x == c) && lacks c xs

lacks-Lacks : (c : ℕ) (s : Bytes) → lacks c s ≡ true → Lacks c s
unfolding lacks
lacks-Lacks c [] h = tt
lacks-Lacks c (x ∷ xs) h =
    let (first, rest) = both (not (x == c)) (lacks c xs) h in (ground arith, lacks-Lacks c xs rest)

segment :
    (o : ObjectRef) → lacks b':' o.kind ≡ true → lacks b'/' (path_segment o) ≡ true → IsSegment o
segment o h k = (lacks-Lacks b':' o.kind h, lacks-Lacks b'/' (path_segment o) k)

abbrev channel1 : ObjectRef
channel1 = record { kind = channel; id = codes "1" }

abbrev channel10 : ObjectRef
channel10 = record { kind = channel; id = codes "10" }
