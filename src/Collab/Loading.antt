-- ===== src/Collab/Loading.antt =====
-- What `Load` answers, however the log moves between its queries.
use super_ops.Base.{
  ℕ, ◌+◌, ◌-◌, ◌≤◌, ◌≡◌, refl, sym, ap, ◌∙◌, subst, Bool, true, false, List, [], ◌∷◌, ◌++◌, Option,
  none, some, length, ltb, arith, Bool-cases, inl, inr, if◌then◌else◌, max, min, le_or_lt,
  length-append,
}
use super_ops.Base.Fallible.{ok}
use super_ops.Base.Slices.{
  page-take, has_more-length, slice_within, drop-take, take, drop, drop-drop, length-drop,
  length-take,
}
use super_ops.Collab.Numbered.{
  Edit, numbered, updates_after-numbered, updates_after-numbered_all, take-numbered,
  length-numbered, drop_through-numbered, furthest-numbered,
}
use super_ops.Collab.{
  Bytes, Update, UpdateLog, State, load, updates_after, drop_through, furthest, page_limit,
  covering, with_updates, with_snapshot, first,
}
use super_ops.Collab.History.{
  payloads, Represents, Tables, Write, commit_all, commit_all-Represents, commit_all-Later,
  IsNewest,
}

-- Up to where the updates of an answer begin.
abbrev pub base_of : Option Bytes → ℕ → ℕ → ℕ
base_of none since snapshot_seq = since
base_of (some payload) since snapshot_seq = snapshot_seq

module _ (encode : List Bytes → Bytes) where
  abbrev pub IsSnapshotOf : List Edit → ℕ → Option Bytes → Type 0
  IsSnapshotOf h s none = Unit
  IsSnapshotOf h s (some payload) = payload ≡ encode (payloads (take s h))

  -- An answer from a watermark on: with its snapshot, if there is one, it is the edits up to its
  -- number, none missing; it says that there is more only if it is a full page.
  pub record IsComplete (h : List Edit) (since limit head : ℕ) (st : State) : Type 0 where
    pub base : ℕ
    pub begins : base ≡ base_of st.snapshot since st.snapshot_seq
    pub snapshot_is : IsSnapshotOf h st.snapshot_seq st.snapshot
    pub ordered : (since ≤ base) × (base ≤ st.through_seq) × (st.through_seq ≤ length h)
    pub updates_are : st.updates ≡ numbered base (take (st.through_seq - base) (drop base h))
    pub full : st.has_more ≡ true → since + limit ≤ st.through_seq
    pub head_is : st.head_seq ≡ head
    pub reached : st.has_more ≡ false → st.head_seq ≤ st.through_seq

  -- The updates that the second query reads.
  read_updates :
      (h : List Edit) (l : UpdateLog) (since : ℕ)
      → Represents encode h l
      → updates_after since l.updates
        ≡ numbered (max l.snapshot_seq since) (drop (max l.snapshot_seq since) h)
  read_updates h l since r = elim (le_or_lt l.snapshot_seq since) [
    | inl le ↦
        let m : max l.snapshot_seq since ≡ since = omega arith in
        rw m (
          ap (updates_after since) r.tail
          ∙ updates_after-numbered since l.snapshot_seq (drop l.snapshot_seq h) le
          ∙ ap (numbered since) (
              drop-drop l.snapshot_seq (since - l.snapshot_seq) h
              ∙ ap (λ k. drop k h) (omega arith)))
    | inr lt ↦
        let m : max l.snapshot_seq since ≡ l.snapshot_seq = omega arith in
        rw m (
          ap (updates_after since) r.tail
          ∙ updates_after-numbered_all since l.snapshot_seq (drop l.snapshot_seq h) (omega arith))
  ]

  -- An answer whose updates follow the watermark.
  plain-IsComplete :
      (h z : List Edit) (since limit head : ℕ) (more : Bool)
      → since ≤ length h
      → head ≤ length h
      → more ≡ ltb limit (length (drop since h))
      → IsComplete
          (h ++ z)
          since
          limit
          head
          (record (with_updates since head (numbered since (take limit (drop since h)))) {
            has_more = more;
          })
  plain-IsComplete h z since limit head more le le' e =
      let es : List Edit = take limit (drop since h) in
      let far : furthest since (numbered since es) ≡ since + length es =
        furthest-numbered since since es refl in
      let long : length es ≡ min limit (length h - since) =
        length-take limit (drop since h) ∙ ap (min limit) (length-drop since h) in
      let size : length (drop since h) ≡ length h - since = length-drop since h in
      let gone : furthest since (numbered since es) - since ≡ length es = omega arith in
      let total : length (h ++ z) ≡ length h + length z = length-append h z in
      record {
        base = since;
        begins = refl;
        snapshot_is = tt;
        ordered = (omega arith, omega arith, omega arith);
        updates_are =
            ap (numbered since)
              (slice_within limit since h z ∙ ap (λ k. take k (drop since (h ++ z))) (sym gone));
        full = λ yes_more. ground arith;
        head_is = refl;
        reached = λ no_more. ground arith;
      }

  -- An answer with a snapshot that covers more than the watermark.
  snapshot-IsComplete :
      (h z : List Edit) (since limit head m : ℕ) (more : Bool) (s : Update)
      → since ≤ m
      → m ≤ s.seq
      → s.seq ≤ length (h ++ z)
      → head ≤ length h
      → s.payload ≡ encode (payloads (take s.seq (h ++ z)))
      → more ≡ ltb limit (length (drop m h))
      → IsComplete
          (h ++ z)
          since
          limit
          head
          (record (with_snapshot s head (numbered m (take limit (drop m h)))) { has_more = more })
  snapshot-IsComplete h z since limit head m more s le le' within le'' honest e =
      let es : List Edit = take (limit - (s.seq - m)) (drop s.seq h) in
      let left : drop_through (numbered m (take limit (drop m h))) s.seq ≡ numbered s.seq es =
        drop_through-numbered s.seq m (take limit (drop m h)) le'
        ∙ ap (numbered s.seq) (
            drop-take (s.seq - m) limit (drop m h)
            ∙ ap (take (limit - (s.seq - m)))
                (drop-drop m (s.seq - m) h ∙ ap (λ k. drop k h) (omega arith))) in
      let far : furthest s.seq (numbered s.seq es) ≡ s.seq + length es =
        furthest-numbered s.seq s.seq es refl in
      let long : length es ≡ min (limit - (s.seq - m)) (length h - s.seq) =
        length-take (limit - (s.seq - m)) (drop s.seq h)
        ∙ ap (min (limit - (s.seq - m))) (length-drop s.seq h) in
      let size : length (drop m h) ≡ length h - m = length-drop m h in
      let total : length (h ++ z) ≡ length h + length z = length-append h z in
      rw left (record {
        base = s.seq;
        begins = refl;
        snapshot_is = honest;
        ordered = (omega arith, omega arith, omega arith);
        updates_are = ap (numbered s.seq) (
            slice_within (limit - (s.seq - m)) s.seq h z
            ∙ ap (λ k. take k (drop s.seq (h ++ z))) (omega arith));
        full = λ yes_more. ground arith;
        head_is = refl;
        reached = λ no_more. ground arith;
      })

  covering-IsComplete :
      (h z : List Edit) (l : UpdateLog) (since limit head m : ℕ) (more : Bool)
      (snapshots : List Update)
      → m ≡ max l.snapshot_seq since
      → since ≤ length h
      → head ≤ length h
      → more ≡ ltb limit (length (drop m h))
      → (s : ℕ) → l.snapshot_seq ≤ s
      → s ≤ length (h ++ z)
      → IsNewest encode (h ++ z) s snapshots
      → IsComplete
          (h ++ z)
          since
          limit
          head
          (record (covering (first snapshots) since head (numbered m (take limit (drop m h)))) {
            has_more = more;
          })
  covering-IsComplete h z l since limit head m more [] em le le' e s further within n =
      let same : m ≡ since = omega arith in
      rw same (plain-IsComplete h z since limit head more le le' (rw (← same) e))
  covering-IsComplete h z l since limit head m more (u ∷ us) em le le' e s further within
        (at, pos, honest) =
      elim (Bool-cases (ltb since u.seq)) [
        | inl newer ↦ rw newer (
            snapshot-IsComplete h z since limit head m more u (omega arith) (ground arith)
              (omega arith) le' (honest ∙ ap (λ k. encode (payloads (take k (h ++ z)))) (sym at)) e)
        | inr older ↦
            let same : m ≡ since = ground arith in
            rw (older, same) (plain-IsComplete h z since limit head more le le' (rw (← same) e))
      ]

  load-later :
      (since limit : ℕ) (l l' l'' : UpdateLog) (h h' z : List Edit)
      → Represents encode h l
      → Represents encode h' l'
      → Represents encode (h' ++ z) l''
      → length h ≤ length h'
      → l'.snapshot_seq ≤ l''.snapshot_seq
      → since ≤ length h
      → (st : State) × (load since limit (some l) (some l') (some l'') ≡ ok st)
        × IsComplete (h' ++ z) since (page_limit limit) l.head_seq st
  unfolding load
  load-later since limit l l' l'' h h' z r r' r'' longer further le =
      let m : ℕ = max l'.snapshot_seq since in
      let read : updates_after since l'.updates ≡ numbered m (drop m h') =
        read_updates h' l' since r' in
      let k : ℕ = page_limit limit in
      let page : (if ltb k (length (take (k + 1) (updates_after since l'.updates)))
            then take k (take (k + 1) (updates_after since l'.updates))
            else take (k + 1) (updates_after since l'.updates))
          ≡ numbered m (take k (drop m h')) =
        page-take k (updates_after since l'.updates)
        ∙ ap (take k) read
        ∙ take-numbered k m (drop m h') in
      let more : ltb k (length (take (k + 1) (updates_after since l'.updates)))
          ≡ ltb k (length (drop m h')) =
        has_more-length k (updates_after since l'.updates)
        ∙ ap (λ us. ltb k (length us)) read
        ∙ ap (ltb k) (length-numbered m (drop m h')) in
      (
        record (covering (first l''.snapshots) since l.head_seq (numbered m (take k (drop m h')))) {
          has_more = ltb k (length (drop m h'));
        },
        ap
              (λ us. ok (record (covering (first l''.snapshots) since l.head_seq us) {
                has_more = ltb k (length (take (k + 1) (updates_after since l'.updates)));
              }))
              page
            ∙ ap
                (λ b.
                  ok
                    (record (covering (first l''.snapshots) since l.head_seq
                      (numbered m (take k (drop m h')))) { has_more = b }))
                more,
        covering-IsComplete h' z l' since k l.head_seq m (ltb k (length (drop m h'))) l''.snapshots
            refl (omega arith) (omega (arith, r.head)) refl l''.snapshot_seq further r''.covered
            r''.newest_snapshot,
      )

  -- Whatever is committed between the three queries of Load, from a watermark within the
  -- document on, what it answers is the history: the snapshot, if there is one, and then the edits up
  -- to the answered number, none missing or twice; it says that there is more only with a full page,
  -- and otherwise reaches the head that it reports.
  pub load-IsComplete :
      (since limit : ℕ) (h : List Edit) (l : UpdateLog) (qs qs' : List Write)
      → Represents encode h l
      → since ≤ length h
      → (st : State) × (load since limit
            (some l)
            (some (commit_all encode qs (h, l)).1)
            (some (commit_all encode qs' (commit_all encode qs (h, l))).1)
          ≡ ok st)
        × IsComplete
            (commit_all encode qs' (commit_all encode qs (h, l))).0
            since
            (page_limit limit)
            l.head_seq
            st
  load-IsComplete since limit h l qs qs' r le =
      let t : Tables encode = commit_all encode qs (h, l) in
      let r' = commit_all-Represents encode qs h l r in
      let r'' = commit_all-Represents encode qs' t.0 t.1 r' in
      let one = commit_all-Later encode qs h l r in
      let two = commit_all-Later encode qs' t.0 t.1 r' in
      let longer : length h ≤ length t.0 =
        omega (arith, ap length one.grown, length-append h one.more) in
      let (st, answered, complete) =
        load-later since limit l t.1 (commit_all encode qs' t).1 h t.0 two.more r r'
          (subst (λ k. Represents encode k (commit_all encode qs' t).1) two.grown r'') longer
          two.further le in
      (
        st,
        answered,
        subst (λ k. IsComplete k since (page_limit limit) l.head_seq st) (sym two.grown) complete,
      )
