-- ===== src/Collab/Tests.antt =====
-- A document with three edits, one of them compacted, while others write to it.
use super_ops.Base.{
  ℕ, ◌+◌, ◌*◌, ◌<◌, ◌≡◌, refl, max, Bool, true, false, List, [], ◌∷◌, ◌++◌, none, some, length,
  arith,
}
use super_ops.Base.Bytes.{codes, str_eq}
use super_ops.Base.Fallible.{Result, ok, err}
use super_ops.Base.Slices.{take}
use super_ops.Collab.Numbered.{Edit, entry}
use super_ops.Collab.{
  Bytes, Update, UpdateLog, State, load, stale_snapshot, room_read_only, save_snapshot, page_limit,
  CollabError, room_forbidden, resource_conflict, max_state_updates,
}
use super_ops.Collab.History.{Write, append, compact, payloads, Represents, commit_all}
use super_ops.Collab.Stored.{
  Sent, appends, compacts, View, Holds, promise_all, store_all, store_all-Holds,
}
use super_ops.Collab.Loading.{IsComplete, load-IsComplete}
use super_ops.Collab.CatchUp.{
  Round, Caught, apply_all, catch_up, tables_after, HasCaughtUp, catch_up-ends,
}
use super_ops.Collab.Service.{
  Asked, Document, Target, Need, cap_read, cap_write, RoomAccess, authorize, ensure_document,
  claim_compaction, cooled,
}
use super_ops.Collab.Asked.{Event, claimed, stored, claims}

-- A document that is its greatest update, which a snapshot of updates sends.
abbrev value : Bytes → ℕ
value [] = 0
value (b ∷ bs) = b

abbrev greatest : List Bytes → ℕ
greatest [] = 0
greatest (u ∷ us) = max (value u) (greatest us)

abbrev apply_greatest : Bytes → ℕ → ℕ
apply_greatest u d = max d (value u)

abbrev encode_greatest : List Bytes → Bytes
encode_greatest us = greatest us ∷ []

encode_greatest_applies :
    (us : List Bytes) (d : ℕ)
    → apply_greatest (encode_greatest us) d ≡ apply_all apply_greatest encode_greatest us d
encode_greatest_applies [] d = omega arith
encode_greatest_applies (u ∷ us) d = omega (arith, encode_greatest_applies us (max d (value u)))

abbrev edit : ℕ → Edit
edit n = record { actor_id = codes "ann"; payload = n ∷ [] }

abbrev history : List Edit
history = edit 3 ∷ edit 7 ∷ edit 5 ∷ []

abbrev log : UpdateLog
log = record {
  head_seq = 3;
  snapshot_seq = 1;
  updates = entry 2 (edit 7) ∷ entry 3 (edit 5) ∷ [];
  snapshots = entry 1 (edit 3) ∷ [];
}

log-Represents : Represents encode_greatest history log
log-Represents = record {
  head = refl;
  covered = omega arith;
  tail = refl;
  newest_snapshot = (refl, omega arith, refl);
}

abbrev requests : List Write
requests = append (edit 9) ∷ compact 3 (codes "bob") ∷ compact 2 (codes "eve") ∷ []

compacted_example :
    (commit_all encode_greatest requests (history, log)).1.updates ≡ entry 4 (edit 9) ∷ []
unfolding commit_all
compacted_example = refl

stale_example : save_snapshot 1 [] (codes "x") (some log) ≡ err stale_snapshot
unfolding save_snapshot
stale_example = refl

-- The snapshot is no encoding of what it is said to cover, and the last compaction is refused.
abbrev sent : List Sent
sent = appends (edit 9) ∷ compacts 3 (codes "bob") (codes "junk") ∷ compacts 5 (codes "eve") [] ∷ []

abbrev document : View
document = record { edits = history; covered = 1; snapshot = some (3 ∷ []) }

store_all-Holds_example : Holds (promise_all sent document) (store_all sent log)
store_all-Holds_example = store_all-Holds sent document log (record {
  head = refl;
  within = omega arith;
  watermark = refl;
  tail = refl;
  newest = (refl, omega arith, refl);
})

promised_example :
    promise_all sent document
    ≡ record { edits = history ++ edit 9 ∷ []; covered = 3; snapshot = some (codes "junk") }
unfolding promise_all
promised_example = refl

-- The compaction comes between the updates and the snapshot.
load-IsComplete_example :
    (st : State) × (load 0 2 (some log) (some (commit_all encode_greatest [] (history, log)).1) (
        some (commit_all encode_greatest requests (commit_all encode_greatest [] (history, log))).1)
      ≡ ok st)
    × IsComplete encode_greatest
        (commit_all encode_greatest requests (commit_all encode_greatest [] (history, log))).0
        0
        (page_limit 2)
        3
        st
load-IsComplete_example =
    load-IsComplete encode_greatest 0 2 history log [] requests log-Represents (omega arith)

abbrev rounds : List Round
rounds =
    record { before_updates = requests; before_snapshot = []; before_next = requests }
    ∷ record { before_updates = []; before_snapshot = requests; before_next = [] }
    ∷ []

few_edits :
    length
      (tables_after apply_greatest encode_greatest
        (λ u d. omega arith)
        (λ u v d. omega arith)
        encode_greatest_applies
        rounds
        (history, log)).0
    < 2 + max_state_updates * 2
unfolding commit_all
few_edits = omega arith

catch_up-ends_example :
    (c : Caught apply_greatest encode_greatest) × (catch_up apply_greatest encode_greatest rounds 2
        (apply_all apply_greatest encode_greatest (payloads (take 2 history)) 4)
        (history, log)
      ≡ some c)
    × HasCaughtUp apply_greatest encode_greatest
        (λ u d. omega arith)
        (λ u v d. omega arith)
        encode_greatest_applies
        history
        4
        c
catch_up-ends_example =
    catch_up-ends apply_greatest encode_greatest (λ u d. omega arith) (λ u v d. omega arith)
      encode_greatest_applies rounds 2 4 history log log-Represents (omega arith) few_edits

abbrev nothing_asked : Asked
nothing_asked = record { asked = λ id. none; asked_trim = none }

abbrev events : List Event
events =
    claimed (codes "d") 1000
    ∷ claimed (codes "d") 2000
    ∷ claimed (codes "e") 61000
    ∷ claimed (codes "d") 61000
    ∷ stored (codes "d")
    ∷ claimed (codes "d") 61500
    ∷ []

claims_example : claims (codes "d") events nothing_asked ≡ true ∷ false ∷ true ∷ true ∷ []
unfolding claims claim_compaction str_eq super_ops.Collab.Service.snapshot_stored
claims_example = refl

-- A guest may read the file and not write it.
abbrev guest_can : Bytes → Target → Need → Result CollabError Bool
guest_can user target cap_read = ok true
guest_can user target cap_write = ok false

abbrev page : Document
page = record {
  id = codes "d1";
  workspace_id = codes "w1";
  resource_type = codes "document";
  resource_id = codes "f1";
  created_by = codes "ann";
}

read_only_example : authorize guest_can (some (page, 4)) (codes "eve") true ≡ err room_read_only
unfolding authorize
read_only_example = refl

conflict_example :
    (ensure_document
      (codes "d2")
      (codes "w2")
      (codes "document")
      (codes "f1")
      (codes "eve")
      (page ∷ [])
      (page ∷ [])).0
    ≡ err resource_conflict
unfolding ensure_document
conflict_example = refl
