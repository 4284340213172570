-- ===== src/Collab/CatchUp.antt =====
-- How a client catches up with a document, the loop of app/src/lib/collab/provider.ts over `Load`.
use mathlib.Core.List.{map-append}
use super_ops.Base.{
  ℕ, suc, ◌+◌, ◌-◌, ◌*◌, ◌≤◌, ◌<◌, ◌≡◌, refl, sym, ap, ◌∙◌, subst, List, [], ◌∷◌, ◌++◌, Option,
  none, some, length, arith, Bool-cases, inl, inr, if◌then◌else◌, map, length-append,
}
use super_ops.Base.Fallible.{Result, ok, err}
use super_ops.Base.Slices.{take, drop, take-append, take-take-drop}
use super_ops.Collab.Numbered.{Edit, numbered}
use super_ops.Collab.{
  Bytes, Update, UpdateLog, State, load, max_state_updates, page_limit, CollabError,
}
use super_ops.Collab.History.{
  payloads, Represents, Tables, Write, commit_all, commit_all-Represents, commit_all-Later,
}
use super_ops.Collab.Loading.{IsComplete, load-IsComplete, base_of, IsSnapshotOf}

-- What others commit between a round's queries, and before the next round.
pub record Round : Type 0 where
  pub before_updates : List Write
  pub before_snapshot : List Write
  pub before_next : List Write

-- A document in the client's memory, with what Yjs does to it: applying an update, and sending all
-- that it has of a list of updates as one.
module _ {Doc : Type 0} (apply : Bytes → Doc → Doc) (encode : List Bytes → Bytes) where
  abbrev pub apply_all : List Bytes → Doc → Doc
  apply_all [] d = d
  apply_all (u ∷ us) d = apply_all us (apply u d)

  abbrev pub apply_snapshot : Option Bytes → Doc → Doc
  apply_snapshot none d = d
  apply_snapshot (some payload) d = apply payload d

  -- One answer is applied, its snapshot first.
  unfoldable pub apply_state : State → Doc → Doc
  apply_state st d =
      apply_all (map (λ (u : Update). u.payload) st.updates) (apply_snapshot st.snapshot d)

  -- The watermark, the document and the tables that a catching up leaves.
  pub record Caught : Type 0 where
    pub watermark : ℕ
    pub doc : Doc
    pub tables : Tables encode

  abbrev pub on_answer :
      Result CollabError State → Doc → Tables encode → (ℕ → Doc → Option Caught) → Option Caught
  on_answer (err problem) d t next = none
  on_answer (ok st) d t next =
      if st.has_more
      then next st.through_seq (apply_state st d)
      else some (record { watermark = st.through_seq; doc = apply_state st d; tables = t })

  -- `catchUp`: it asks again from the answered number on while there is more. `none` means that the
  -- rounds ran out, or that a request failed.
  unfoldable pub catch_up : List Round → ℕ → Doc → Tables encode → Option Caught
  catch_up [] since d t = none
  catch_up (r ∷ rs) since d t =
      let read = commit_all encode r.before_updates t in
      let snapped = commit_all encode r.before_snapshot read in
      on_answer (load since max_state_updates (some t.1) (some read.1) (some snapped.1)) d snapped
        (λ through doc. catch_up rs through doc (commit_all encode r.before_next snapped))

  apply_all-append :
      (us vs : List Bytes) (d : Doc) → apply_all (us ++ vs) d ≡ apply_all vs (apply_all us d)
  apply_all-append [] vs d = refl
  apply_all-append (u ∷ us) vs d = apply_all-append us vs (apply u d)

  payloads-numbered :
      (n : ℕ) (es : List Edit) → map (λ (u : Update). u.payload) (numbered n es) ≡ payloads es
  payloads-numbered n [] = refl
  payloads-numbered n (e ∷ es) = ap (◌∷◌ e.payload) (payloads-numbered (suc n) es)

  -- The first edits of a history, and those that follow them.
  payloads-split :
      (n k : ℕ) (h : List Edit)
      → n ≤ k
      → payloads (take n h) ++ payloads (take (k - n) (drop n h)) ≡ payloads (take k h)
  payloads-split n k h le =
      sym (map-append (λ (e : Edit). e.payload) (take n h) (take (k - n) (drop n h)))
      ∙ ap payloads (take-take-drop n (k - n) h ∙ ap (λ j. take j h) (omega arith))

  -- The updates of Yjs commute, and applying one again changes nothing.
  module _ (again : (u : Bytes) (d : Doc) → apply u (apply u d) ≡ apply u d)
      (either_order : (u v : Bytes) (d : Doc) → apply u (apply v d) ≡ apply v (apply u d))
      (encode_applies : (us : List Bytes) (d : Doc) → apply (encode us) d ≡ apply_all us d) where
    apply-apply_all :
        (u : Bytes) (us : List Bytes) (d : Doc)
        → apply u (apply_all us d) ≡ apply_all us (apply u d)
    apply-apply_all u [] d = refl
    apply-apply_all u (v ∷ us) d =
        apply-apply_all u us (apply v d) ∙ ap (apply_all us) (either_order u v d)

    apply_all-again : (us : List Bytes) (d : Doc) → apply_all us (apply_all us d) ≡ apply_all us d
    apply_all-again [] d = refl
    apply_all-again (u ∷ us) d =
        ap (apply_all us) (apply-apply_all u us (apply u d) ∙ ap (apply_all us) (again u d))
        ∙ apply_all-again us (apply u d)

    -- A document that has the first edits already, and is given more from the first on.
    apply_all-absorb :
        (n k : ℕ) (h : List Edit) (d : Doc)
        → n ≤ k
        → apply_all (payloads (take k h)) (apply_all (payloads (take n h)) d)
          ≡ apply_all (payloads (take k h)) d
    apply_all-absorb n k h d le =
        let first = payloads (take n h) in
        let rest = payloads (take (k - n) (drop n h)) in
        rw (← payloads-split n k h le) (
          apply_all-append first rest (apply_all first d)
          ∙ ap (apply_all rest) (apply_all-again first d)
          ∙ sym (apply_all-append first rest d))

    applied_updates :
        (base through : ℕ) (h : List Edit) (d : Doc)
        → base ≤ through
        → apply_all
            (map (λ (u : Update). u.payload) (numbered base (take (through - base) (drop base h))))
            (apply_all (payloads (take base h)) d)
          ≡ apply_all (payloads (take through h)) d
    applied_updates base through h d le =
        ap (λ us. apply_all us (apply_all (payloads (take base h)) d))
          (payloads-numbered base (take (through - base) (drop base h)))
        ∙ sym (
            apply_all-append (payloads (take base h))
              (payloads (take (through - base) (drop base h))) d)
        ∙ ap (λ us. apply_all us d) (payloads-split base through h le)

    -- A complete answer brings a document that has the edits up to the watermark to the answered one.
    apply_state-IsComplete :
        (h : List Edit) (since limit head : ℕ) (st : State) (d : Doc)
        → IsComplete encode h since limit head st
        → apply_state st (apply_all (payloads (take since h)) d)
          ≡ apply_all (payloads (take st.through_seq h)) d
    unfolding apply_state
    apply_state-IsComplete h since limit head st d c = with_snapshot st.snapshot refl
      where
        updates :
            (base : ℕ) (d' : Doc)
            → c.base ≡ base
            → d' ≡ apply_all (payloads (take base h)) (apply_all (payloads (take since h)) d)
            → apply_all (map (λ (u : Update). u.payload) st.updates) d'
              ≡ apply_all (payloads (take st.through_seq h)) d
        updates base d' at e =
            ap (λ us. apply_all (map (λ (u : Update). u.payload) us) d') c.updates_are
            ∙ rw (at, e)
                (applied_updates base st.through_seq h (apply_all (payloads (take since h)) d)
                    (omega (arith, c.ordered.1))
                  ∙ apply_all-absorb since st.through_seq h d
                      (omega (arith, c.ordered.0, c.ordered.1)))

        with_snapshot :
            (snapshot : Option Bytes)
            → st.snapshot ≡ snapshot
            → apply_all
                (map (λ (u : Update). u.payload) st.updates)
                (apply_snapshot st.snapshot (apply_all (payloads (take since h)) d))
              ≡ apply_all (payloads (take st.through_seq h)) d
        with_snapshot none e = rw e (
            updates since (apply_all (payloads (take since h)) d)
              (c.begins ∙ ap (λ o. base_of o since st.snapshot_seq) e)
              (sym (apply_all-again (payloads (take since h)) d)))
        with_snapshot (some payload) e = rw e (
            updates st.snapshot_seq (apply payload (apply_all (payloads (take since h)) d))
              (c.begins ∙ ap (λ o. base_of o since st.snapshot_seq) e)
              (ap (λ p. apply p (apply_all (payloads (take since h)) d))
                  (subst (IsSnapshotOf encode h st.snapshot_seq) e c.snapshot_is)
                ∙ encode_applies (payloads (take st.snapshot_seq h))
                    (apply_all (payloads (take since h)) d)))

    -- The tables after all the rounds.
    abbrev pub tables_after : List Round → Tables encode → Tables encode
    tables_after [] t = t
    tables_after (r ∷ rs) t = tables_after rs (
        commit_all encode r.before_next
          (commit_all encode r.before_snapshot (commit_all encode r.before_updates t)))

    -- What a catching up promises: a document with every edit up to the watermark, which is no less than
    -- the history was at the start.
    pub record HasCaughtUp (h : List Edit) (d : Doc) (c : Caught) : Type 0 where
      pub doc_has : c.doc ≡ apply_all (payloads (take c.watermark c.tables.0)) d
      pub no_less : length h ≤ c.watermark
      pub no_more : c.watermark ≤ length c.tables.0

    -- The loop ends, whatever others commit meanwhile, if there are rounds enough for what is in the log
    -- by then, 2000 edits to a round; the client then has every edit up to its watermark, which is no
    -- less than the head was at the start. Applying updates commutes and may be repeated, and applying a
    -- snapshot is applying its updates.
    pub catch_up-ends :
        (rs : List Round) (since : ℕ) (d : Doc) (h : List Edit) (l : UpdateLog)
        → Represents encode h l
        → since ≤ length h
        → length (tables_after rs (h, l)).0 < since + max_state_updates * length rs
        → (c : Caught) × (catch_up rs since (apply_all (payloads (take since h)) d) (h, l) ≡ some c)
          × HasCaughtUp h d c
    unfolding catch_up
    catch_up-ends [] since d h l r le enough = absurd (omega arith)
    catch_up-ends (o ∷ rs) since d h l r le enough =
        let read = commit_all encode o.before_updates (h, l) in
        let snapped = commit_all encode o.before_snapshot read in
        let next = commit_all encode o.before_next snapped in
        let r1 = commit_all-Represents encode o.before_updates h l r in
        let r2 = commit_all-Represents encode o.before_snapshot read.0 read.1 r1 in
        let r3 = commit_all-Represents encode o.before_next snapped.0 snapped.1 r2 in
        let later1 = commit_all-Later encode o.before_updates h l r in
        let later2 = commit_all-Later encode o.before_snapshot read.0 read.1 r1 in
        let later3 = commit_all-Later encode o.before_next snapped.0 snapped.1 r2 in
        let (st, answered, complete) =
          load-IsComplete encode since max_state_updates h l o.before_updates o.before_snapshot r
            le in
        let same : length (snapped.0) ≡ length h + (length later1.more + length later2.more) =
          omega (
            arith,
            ap length later1.grown,
            ap length later2.grown,
            length-append h later1.more,
            length-append read.0 later2.more,
          ) in
        let kept : take since snapped.0 ≡ take since h =
          ap (take since) later2.grown
          ∙ take-append since read.0 later2.more
              (omega (arith, ap length later1.grown, length-append h later1.more))
          ∙ ap (take since) later1.grown
          ∙ take-append since h later1.more le in
        let applied : apply_state st (apply_all (payloads (take since h)) d)
            ≡ apply_all (payloads (take st.through_seq snapped.0)) d =
          ap (λ es. apply_state st (apply_all (payloads es) d)) (sym kept)
          ∙ apply_state-IsComplete snapped.0 since (page_limit max_state_updates) l.head_seq st d
              complete in
        elim (Bool-cases st.has_more) [
          | inr done ↦ (
            record {
              watermark = st.through_seq;
              doc = apply_state st (apply_all (payloads (take since h)) d);
              tables = snapped;
            },
            rw (answered, done),
            record {
              doc_has = applied;
              no_less = omega (arith, complete.reached done, complete.head_is, r.head);
              no_more = omega (arith, complete.ordered.2);
            },
          )
          | inl more ↦
              let longer : length next.0 ≡ length snapped.0 + length later3.more =
                omega (arith, ap length later3.grown, length-append snapped.0 later3.more) in
              let within : st.through_seq ≤ length snapped.0 = omega (arith, complete.ordered.2) in
              let onward : take st.through_seq next.0 ≡ take st.through_seq snapped.0 =
                ap (take st.through_seq) later3.grown
                ∙ take-append st.through_seq snapped.0 later3.more within in
              let moved : since + max_state_updates ≤ st.through_seq = complete.full more in
              let (c, caught, promises) =
                catch_up-ends rs st.through_seq d next.0 next.1 r3 (omega arith) (omega arith) in
              (
                c,
                rw (answered, more)
                    (ap (λ d'. catch_up rs st.through_seq d' next)
                        (applied ∙ ap (λ es. apply_all (payloads es) d) (sym onward))
                      ∙ caught),
                record {
                  doc_has = promises.doc_has;
                  no_less = omega (arith, promises.no_less);
                  no_more = promises.no_more;
                },
              )
        ]
