-- ===== src/Collab/Stored.antt =====
-- backend/internal/collab/repository.go: what `AppendUpdate` and `SaveSnapshot` promise of a document's log,
-- whatever payloads the clients send.
use super_ops.Base.{
  ℕ, ◌≤◌, ◌<◌, ◌≡◌, refl, sym, ap, ◌∙◌, ◌&&◌, List, [], ◌∷◌, ◌++◌, Option, none, some, length,
  length-append, ltb, leb, arith, Bool-cases, inl, inr, if◌then◌else◌,
}
use super_ops.Base.Slices.{drop, drop-append}
use super_ops.Collab.Numbered.{Edit, numbered}
use super_ops.Collab.History.{
  Represents, IsNewest, appended, compacted, append-Represents, compact-Represents, stale-unchanged,
}
use super_ops.Collab.{Bytes, Update, UpdateLog, append_update, save_snapshot}

-- A document: all of its edits, how many of them its snapshot is said to cover, and that snapshot.
pub record View : Type 0 where
  pub edits : List Edit
  pub covered : ℕ
  pub snapshot : Option Bytes

-- A request of any client.
pub data Sent : Type 0 where
  appends : Edit → Sent
  compacts : ℕ → Bytes → Bytes → Sent

-- The promise: an edit is added to the others, and a snapshot replaces the last one if it covers more, and
-- no more than there is.
unfoldable pub promise : Sent → View → View
promise (appends e) v = record v { edits = v.edits ++ e ∷ [] }
promise (compacts through actor payload) v =
    if ltb v.covered through && leb through (length v.edits)
    then record v { covered = through; snapshot = some payload }
    else v

unfoldable pub promise_all : List Sent → View → View
unfolding promise
promise_all [] v = v
promise_all (s ∷ ss) v = promise_all ss (promise s v)

-- What the tables hold after a request; one that is refused leaves them.
unfoldable pub store : Sent → UpdateLog → UpdateLog
unfolding append_update save_snapshot
store (appends e) l = appended (append_update e.actor_id e.payload (some l)) l
store (compacts through actor payload) l =
    compacted (save_snapshot through actor payload (some l)) l

unfoldable pub store_all : List Sent → UpdateLog → UpdateLog
unfolding store
store_all [] l = l
store_all (s ∷ ss) l = store_all ss (store s l)

-- The newest snapshot is the document's, at its number.
abbrev pub IsSnapshot : ℕ → Option Bytes → List Update → Type 0
IsSnapshot covered none [] = covered ≡ 0
IsSnapshot covered none (u ∷ us) = ⊥
IsSnapshot covered (some p) [] = ⊥
IsSnapshot covered (some p) (u ∷ us) = (u.seq ≡ covered) × (0 < covered) × (u.payload ≡ p)

-- The tables hold the document: the edits behind those that are covered, each with its number.
pub record Holds (v : View) (l : UpdateLog) : Type 0 where
  pub head : l.head_seq ≡ length v.edits
  pub within : v.covered ≤ length v.edits
  pub watermark : l.snapshot_seq ≡ v.covered
  pub tail : l.updates ≡ numbered v.covered (drop v.covered v.edits)
  pub newest : IsSnapshot v.covered v.snapshot l.snapshots

-- Any snapshot is that of a client that sends just this one.
abbrev sends : Option Bytes → List Bytes → Bytes
sends none es = []
sends (some p) es = p

IsSnapshot-IsNewest :
    (edits : List Edit) (covered : ℕ) (snapshot : Option Bytes) (us : List Update)
    → IsSnapshot covered snapshot us
    → IsNewest (sends snapshot) edits covered us
IsSnapshot-IsNewest edits covered none [] h = h
IsSnapshot-IsNewest edits covered none (u ∷ us) h = absurd h
IsSnapshot-IsNewest edits covered (some p) [] h = absurd h
IsSnapshot-IsNewest edits covered (some p) (u ∷ us) h = h

Holds-Represents : (v : View) (l : UpdateLog) → Holds v l → Represents (sends v.snapshot) v.edits l
Holds-Represents v l h = record {
  head = h.head;
  covered = omega (arith, h.within, h.watermark);
  tail = rw h.watermark h.tail;
  newest_snapshot =
      rw h.watermark (IsSnapshot-IsNewest v.edits v.covered v.snapshot l.snapshots h.newest);
}

append-Holds :
    (e : Edit) (v : View) (l : UpdateLog)
    → Holds v l
    → Holds (promise (appends e) v) (store (appends e) l)
unfolding promise store
append-Holds e v l h =
    rw (append-Represents (sends v.snapshot) e v.edits l (Holds-Represents v l h)) (record {
      head = omega (arith, length-append v.edits (e ∷ []), h.head);
      within = omega (arith, length-append v.edits (e ∷ []), h.within);
      watermark = h.watermark;
      tail =
          rw h.watermark
            (ap (numbered v.covered) (sym (drop-append v.covered v.edits (e ∷ []) h.within)));
      newest = h.newest;
    })

compact-Holds :
    (through : ℕ) (actor payload : Bytes) (v : View) (l : UpdateLog)
    → Holds v l
    → Holds (promise (compacts through actor payload) v) (store (compacts through actor payload) l)
unfolding promise store
compact-Holds through actor payload v l h =
    let same : (ltb l.snapshot_seq through && leb through l.head_seq)
        ≡ (ltb v.covered through && leb through (length v.edits)) =
      rw (h.watermark, h.head) in
    elim (Bool-cases (ltb v.covered through && leb through (length v.edits))) [
      | inr stale ↦
          rw (stale, stale-unchanged (sends v.snapshot) through actor payload l (same ∙ stale)) h
      | inl fresh ↦
          let lt : l.snapshot_seq < through = ground (arith, h.watermark) in
          let le : through ≤ l.head_seq = ground (arith, h.head) in
          rw
            (
              fresh,
              compact-Represents (sends v.snapshot) through actor payload v.edits l
                  (Holds-Represents v l h) lt le,
            )
            (record {
              head = h.head;
              within = omega (arith, h.head, le);
              watermark = refl;
              tail = refl;
              newest = (refl, omega (arith, lt), refl);
            })
    ]

-- Through any appends and compactions, refused ones included and whatever the clients send, the tables hold
-- the document: the edits that the newest snapshot is said not to cover, with no number missing, and
-- the snapshot of the last compaction that covered more than the one before it and no more than there was.
pub store_all-Holds :
    (ss : List Sent) (v : View) (l : UpdateLog)
    → Holds v l
    → Holds (promise_all ss v) (store_all ss l)
unfolding promise_all store_all
store_all-Holds [] v l h = h
store_all-Holds (appends e ∷ ss) v l h =
    store_all-Holds ss (promise (appends e) v) (store (appends e) l) (append-Holds e v l h)
store_all-Holds (compacts through actor payload ∷ ss) v l h =
    store_all-Holds ss (promise (compacts through actor payload) v)
      (store (compacts through actor payload) l) (compact-Holds through actor payload v l h)
