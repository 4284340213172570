-- ===== src/Collab/History.antt =====
-- The log against the full history of a document: what appends and compactions leave of it.
use mathlib.Core.List.{append-nil, append_assoc}
use super_ops.Base.{
  ℕ, ◌+◌, ◌-◌, ◌≤◌, ◌<◌, ◌≡◌, refl, sym, ap, ◌∙◌, true, false, ◌&&◌, List, [], ◌∷◌, ◌++◌, some,
  length, length-append, ltb, leb, lt→ltb, arith, Bool-cases, inl, inr, map,
}
use super_ops.Base.Fallible.{Result, ok, err}
use super_ops.Base.Slices.{take, drop, take-append, drop-append, length-drop, drop-drop}
use super_ops.Collab.Numbered.{Edit, entry, numbered, insert_update-last, updates_after-numbered}
use super_ops.Collab.{
  Bytes, Update, UpdateLog, insert_snapshot, updates_after, append_update, save_snapshot, Appended,
  snapshot_retention, CollabError,
}

-- What another user's request may commit.
pub data Write : Type 0 where
  append : Edit → Write
  compact : ℕ → Bytes → Write

abbrev pub appended : Result CollabError Appended → UpdateLog → UpdateLog
appended (err problem) l = l
appended (ok (numbers, l')) l = l'

abbrev pub compacted : Result CollabError (ℕ × UpdateLog) → UpdateLog → UpdateLog
compacted (err problem) l = l
compacted (ok (removed, l')) l = l'

abbrev pub payloads : List Edit → List Bytes
payloads es = map (λ e. e.payload) es

-- A snapshot is made by a client that has applied the edits it is said to cover: `encode` is what it
-- sends of them.
module _ (encode : List Bytes → Bytes) where
  abbrev pub IsNewest : List Edit → ℕ → List Update → Type 0
  IsNewest h s [] = s ≡ 0
  IsNewest h s (u ∷ us) = (u.seq ≡ s) × (0 < s) × (u.payload ≡ encode (payloads (take s h)))

  -- The log holds the history: what the newest snapshot does not cover, with no number missing.
  pub record Represents (h : List Edit) (l : UpdateLog) : Type 0 where
    pub head : l.head_seq ≡ length h
    pub covered : l.snapshot_seq ≤ length h
    pub tail : l.updates ≡ numbered l.snapshot_seq (drop l.snapshot_seq h)
    pub newest_snapshot : IsNewest h l.snapshot_seq l.snapshots

  -- A write is committed to the history and to the log, where a compaction is of a client that sends the
  -- encoding of what it covers; the store takes any payload.
  abbrev pub history_after : Write → List Edit → List Edit
  history_after (append e) h = h ++ e ∷ []
  history_after (compact through actor) h = h

  unfoldable pub commit : Write → List Edit → UpdateLog → UpdateLog
  unfolding append_update save_snapshot
  commit (append e) h l = appended (append_update e.actor_id e.payload (some l)) l
  commit (compact through actor) h l =
      compacted (save_snapshot through actor (encode (payloads (take through h))) (some l)) l

  IsNewest-append :
      (h : List Edit) (e : Edit) (s : ℕ) (us : List Update)
      → s ≤ length h
      → IsNewest h s us
      → IsNewest (h ++ e ∷ []) s us
  IsNewest-append h e s [] le n = n
  IsNewest-append h e s (u ∷ us) le (same, pos, payload) =
      (same, pos, rw (take-append s h (e ∷ []) le) payload)

  pub append-Represents :
      (e : Edit) (h : List Edit) (l : UpdateLog)
      → Represents h l
      → (append_update e.actor_id e.payload (some l)
          ≡ ok (
            (l.head_seq + 1, l.snapshot_seq),
            record l {
              head_seq = l.head_seq + 1;
              updates = numbered l.snapshot_seq (drop l.snapshot_seq h ++ e ∷ []);
            },
          ))
  unfolding append_update
  append-Represents e h l r =
      let placed =
        insert_update-last l.snapshot_seq (drop l.snapshot_seq h) e (l.head_seq + 1)
          (omega (arith, length-drop l.snapshot_seq h, r.head, r.covered)) in
      rw (r.tail, placed)

  insert_snapshot-newest :
      (h : List Edit) (s : ℕ) (us : List Update) (u : Update)
      → s < u.seq
      → IsNewest h s us
      → insert_snapshot u us ≡ some (u ∷ us)
  unfolding insert_snapshot
  insert_snapshot-newest h s [] u lt n = refl
  insert_snapshot-newest h s (r ∷ us) u lt n = rw (lt→ltb r.seq u.seq (omega arith))

  -- A snapshot that covers more than the last one, and no more than the log, is stored.
  pub compact-Represents :
      (through : ℕ) (actor payload : Bytes) (h : List Edit) (l : UpdateLog)
      → Represents h l
      → l.snapshot_seq < through
      → through ≤ l.head_seq
      → (save_snapshot through actor payload (some l)
          ≡ ok (
            length l.updates - length (numbered through (drop through h)),
            record l {
              snapshot_seq = through;
              updates = numbered through (drop through h);
              snapshots =
                  take snapshot_retention
                    (entry through (record { actor_id = actor; payload = payload }) ∷ l.snapshots);
            },
          ))
  unfolding save_snapshot
  compact-Represents through actor payload h l r lt le =
      let placed =
        insert_snapshot-newest h l.snapshot_seq l.snapshots
          (entry through (record { actor_id = actor; payload = payload })) lt r.newest_snapshot in
      let positive : ltb 0 through ≡ true = ground arith in
      let more : ltb l.snapshot_seq through ≡ true = ground arith in
      let within : leb through l.head_seq ≡ true = ground arith in
      let left : updates_after through l.updates ≡ numbered through (drop through h) =
        ap (updates_after through) r.tail
        ∙ updates_after-numbered through l.snapshot_seq (drop l.snapshot_seq h) (omega arith)
        ∙ ap (numbered through) (
            drop-drop l.snapshot_seq (through - l.snapshot_seq) h
            ∙ ap (λ k. drop k h) (omega arith)) in
      rw (positive, more, within, placed, left)

  pub stale-unchanged :
      (through : ℕ) (actor payload : Bytes) (l : UpdateLog)
      → (ltb l.snapshot_seq through && leb through l.head_seq) ≡ false
      → compacted (save_snapshot through actor payload (some l)) l ≡ l
  unfolding save_snapshot
  stale-unchanged through actor payload l stale = ground arith

  -- One write keeps the log what the history says.
  pub commit-Represents :
      (q : Write) (h : List Edit) (l : UpdateLog)
      → Represents h l
      → Represents (history_after q h) (commit q h l)
  unfolding commit
  commit-Represents (append e) h l r = rw (append-Represents e h l r) (record {
    head = omega (arith, length-append h (e ∷ []), r.head);
    covered = omega (arith, length-append h (e ∷ []), r.covered);
    tail = ap (numbered l.snapshot_seq) (sym (drop-append l.snapshot_seq h (e ∷ []) r.covered));
    newest_snapshot = IsNewest-append h e l.snapshot_seq l.snapshots r.covered r.newest_snapshot;
  })
  commit-Represents (compact through actor) h l r =
      elim (Bool-cases (ltb l.snapshot_seq through && leb through l.head_seq)) [
        | inr stale ↦
            rw (stale-unchanged through actor (encode (payloads (take through h))) l stale) r
        | inl fresh ↦
            let lt : l.snapshot_seq < through = ground arith in
            let le : through ≤ l.head_seq = ground arith in
            rw (compact-Represents through actor (encode (payloads (take through h))) h l r lt le)
              (record {
                head = r.head;
                covered = omega (arith, r.head);
                tail = refl;
                newest_snapshot = (refl, omega arith, refl);
              })
      ]

  abbrev pub Tables : Type 0
  Tables = List Edit × UpdateLog

  unfoldable pub commit_all : List Write → Tables → Tables
  unfolding commit
  commit_all [] t = t
  commit_all (q ∷ qs) (h, l) = commit_all qs (history_after q h, commit q h l)

  -- Later tables have more history, and a snapshot that covers no less.
  pub record Later (s t : Tables) : Type 0 where
    pub more : List Edit
    pub grown : t.0 ≡ s.0 ++ more
    pub further : s.1.snapshot_seq ≤ t.1.snapshot_seq

  commit-Later :
      (q : Write) (h : List Edit) (l : UpdateLog)
      → Represents h l
      → Later (h, l) (history_after q h, commit q h l)
  unfolding commit
  commit-Later (append e) h l r = record {
    more = e ∷ [];
    grown = refl;
    further = rw (append-Represents e h l r) (omega arith);
  }
  commit-Later (compact through actor) h l r = record {
    more = [];
    grown = sym (append-nil h);
    further = elim (Bool-cases (ltb l.snapshot_seq through && leb through l.head_seq)) [
      | inr stale ↦
          rw (stale-unchanged through actor (encode (payloads (take through h))) l stale)
            (omega arith)
      | inl fresh ↦
          let lt : l.snapshot_seq < through = ground arith in
          let le : through ≤ l.head_seq = ground arith in
          rw (compact-Represents through actor (encode (payloads (take through h))) h l r lt le)
            (omega arith)
    ];
  }

  -- Through any appends, and compactions by clients that send the encoding of the edits that they are said
  -- to cover, refused ones included, the log is what the newest snapshot does not cover of the whole
  -- history, with no number missing, and the snapshot is of the edits that it is said to cover.
  pub commit_all-Represents :
      (qs : List Write) (h : List Edit) (l : UpdateLog)
      → Represents h l
      → Represents (commit_all qs (h, l)).0 (commit_all qs (h, l)).1
  unfolding commit_all
  commit_all-Represents [] h l r = r
  commit_all-Represents (q ∷ qs) h l r =
      commit_all-Represents qs (history_after q h) (commit q h l) (commit-Represents q h l r)

  pub commit_all-Later :
      (qs : List Write) (h : List Edit) (l : UpdateLog)
      → Represents h l
      → Later (h, l) (commit_all qs (h, l))
  unfolding commit_all
  commit_all-Later [] h l r = record {
    more = [];
    grown = sym (append-nil h);
    further = omega arith;
  }
  commit_all-Later (q ∷ qs) h l r =
      let one = commit-Later q h l r in
      let rest =
        commit_all-Later qs (history_after q h) (commit q h l) (commit-Represents q h l r) in
      record {
        more = one.more ++ rest.more;
        grown = rest.grown ∙ ap (λ k. k ++ rest.more) one.grown ∙ append_assoc h one.more rest.more;
        further = omega (arith, one.further, rest.further);
      }
