-- ===== src/Inbox/Counted.antt =====
-- backend/internal/inbox: the counters of an item and the number of the events behind it, through a
-- delivery.
use super_ops.Base.{
  ℕ, suc, ◌+◌, ◌≡◌, refl, sym, ◌∙◌, Bool, true, false, ◌&&◌, List, [], ◌∷◌, arith, Bool-cases, inl,
  inr, if◌then◌else◌,
}
use super_ops.Base.Bytes.{str_eq, str_eq→eq}
use super_ops.Inbox.{
  Bytes, Inbox, Item, EventRow, Happening, is_about, bumped, new_item, upsert_item, upsert_items,
  event_row, id_of, event_key, has_event, insert_events,
}
use super_ops.Inbox.Updates.{update_items, count_events}

-- How often a user is among those that were delivered to.
unfoldable pub occurrences : Bytes → List Bytes → ℕ
occurrences user [] = 0
occurrences user (v ∷ vs) =
    let rest = occurrences user vs in if str_eq v user then suc rest else rest

-- A counter of the item of a user and a subject.
unfoldable pub counter : (Item → ℕ) → Bytes → Bytes → Bytes → List Item → ℕ
counter field user subject_type subject_id [] = 0
counter field user subject_type subject_id (i ∷ is) =
    let rest = counter field user subject_type subject_id is in
    if is_about user subject_type subject_id i then field i else rest

abbrev pub event_counts : Item → ℕ
event_counts i = i.event_count

abbrev pub unread_counts : Item → ℕ
unread_counts i = i.unread_count

pub record IsCounted (b : Inbox) : Type 0 where
  pub events_counted :
      (user subject_type subject_id : Bytes)
      → counter event_counts user subject_type subject_id b.items
        ≡ count_events user subject_type subject_id b.events
  pub unread_counted :
      (user subject_type subject_id : Bytes)
      → counter unread_counts user subject_type subject_id b.items
        ≡ count_events user subject_type subject_id b.events

module _ (user subject_type subject_id : Bytes) where
  abbrev is_here : Happening → Bool
  is_here h = str_eq h.subject_type subject_type && str_eq h.subject_id subject_id

  abbrev pub gained : Happening → List Bytes → ℕ
  gained h fresh = if is_here h then occurrences user fresh else 0

  pub insert_events-count :
      (event_id : Bytes → Bytes → Bytes → Bytes) (h : Happening) (users : List Bytes)
      (es : List EventRow)
      → count_events user subject_type subject_id (insert_events event_id h users es).1
        ≡ count_events user subject_type subject_id es
          + gained h (insert_events event_id h users es).0
  unfolding insert_events count_events occurrences event_key
  insert_events-count event_id h [] es = ground arith
  insert_events-count event_id h (v ∷ vs) es =
      elim (Bool-cases (has_event (id_of event_id h v) es)) [
        | inl old ↦ rw old (insert_events-count event_id h vs es)
        | inr new ↦
            let id = id_of event_id h v in
            rw new (ground (arith, insert_events-count event_id h vs (event_row id h v ∷ es)))
      ]

  -- The item of a recipient is the one that is counted just when the recipient and the subject are.
  is_about-is_here :
      (h : Happening) (v : Bytes) (i : Item)
      → is_about v h.subject_type h.subject_id i ≡ true
      → is_about user subject_type subject_id i ≡ (str_eq v user && is_here h)
  is_about-is_here h v i same =
      let owner : i.owner_id ≡ v = str_eq→eq i.owner_id v (ground arith) in
      let type : i.about_type ≡ h.subject_type =
        str_eq→eq i.about_type h.subject_type (ground arith) in
      let id : i.about_id ≡ h.subject_id = str_eq→eq i.about_id h.subject_id (ground arith) in
      rw (owner, type, id)

  is_here-is_about :
      (h : Happening) (v : Bytes) (i : Item)
      → (str_eq v user && is_here h) ≡ true
      → is_about v h.subject_type h.subject_id i ≡ is_about user subject_type subject_id i
  is_here-is_about h v i here =
      let owner : v ≡ user = str_eq→eq v user (ground arith) in
      let type : h.subject_type ≡ subject_type =
        str_eq→eq h.subject_type subject_type (ground arith) in
      let id : h.subject_id ≡ subject_id = str_eq→eq h.subject_id subject_id (ground arith) in
      rw (owner, type, id)

  -- A counter that starts at one and goes up with each event.
  module _ (field : Item → ℕ)
      (starts : (h : Happening) (v : Bytes) (now : ℕ) → field (new_item h v now) ≡ 1)
      (counts : (h : Happening) (now : ℕ) (i : Item) → field (bumped h now i) ≡ suc (field i)) where
    abbrev total : List Item → ℕ
    total items = counter field user subject_type subject_id items

    abbrev bump : Happening → Bytes → ℕ
    bump h v = if str_eq v user && is_here h then 1 else 0

    total-upsert-same :
        (h : Happening) (v : Bytes) (now : ℕ) (i : Item) (is : List Item)
        → is_about v h.subject_type h.subject_id i ≡ true
        → total (bumped h now i ∷ is) ≡ total (i ∷ is) + bump h v
    unfolding counter
    total-upsert-same h v now i is same = elim (Bool-cases (str_eq v user && is_here h)) [
      | inl here ↦
          let about : is_about user subject_type subject_id i ≡ true =
            is_about-is_here h v i same ∙ here in
          rw (about, here, counts h now i) (omega arith)
      | inr gone ↦
          let about : is_about user subject_type subject_id i ≡ false =
            is_about-is_here h v i same ∙ gone in
          rw (about, gone) (omega arith)
    ]

    total-upsert-other :
        (h : Happening) (v : Bytes) (i : Item) (is is' : List Item)
        → is_about v h.subject_type h.subject_id i ≡ false
        → total is' ≡ total is + bump h v
        → total (i ∷ is') ≡ total (i ∷ is) + bump h v
    unfolding counter
    total-upsert-other h v i is is' other rest = elim (Bool-cases (str_eq v user && is_here h)) [
      | inl here ↦
          let about : is_about user subject_type subject_id i ≡ false =
            sym (is_here-is_about h v i here) ∙ other in
          rw about rest
      | inr gone ↦
          let kept : total is' ≡ total is = rest ∙ rw gone (omega arith) in
          rw (gone, kept) (omega arith)
    ]

    upsert_item-counter :
        (h : Happening) (v : Bytes) (now : ℕ) (items : List Item)
        → total (upsert_item h v now items) ≡ total items + bump h v
    unfolding upsert_item counter
    upsert_item-counter h v now [] = elim (Bool-cases (str_eq v user && is_here h)) [
      | inl here ↦ rw here (starts h v now)
      | inr gone ↦ rw gone
    ]
    upsert_item-counter h v now (i ∷ is) =
        elim (Bool-cases (is_about v h.subject_type h.subject_id i)) [
          | inl same ↦ rw same (total-upsert-same h v now i is same)
          | inr other ↦ rw other (
              total-upsert-other h v i is (upsert_item h v now is) other
                (upsert_item-counter h v now is))
        ]

    pub upsert_items-counter :
        (h : Happening) (vs : List Bytes) (now : ℕ) (items : List Item)
        → total (upsert_items h vs now items) ≡ total items + gained h vs
    unfolding upsert_items occurrences
    upsert_items-counter h [] now items = ground arith
    upsert_items-counter h (v ∷ vs) now items = ground (
      arith,
      upsert_items-counter h vs now (upsert_item h v now items),
      upsert_item-counter h v now items,
    )

  -- An update that leaves whose an item is, what it is about and the counter leaves the total.
  pub update_items-counter :
      (field : Item → ℕ) (test : Item → Bool) (change : Item → Item)
      → ((i : Item)
          → is_about user subject_type subject_id (change i)
            ≡ is_about user subject_type subject_id i)
      → ((i : Item) → field (change i) ≡ field i)
      → (items : List Item)
      → counter field user subject_type subject_id (update_items test change items)
        ≡ counter field user subject_type subject_id items
  unfolding update_items counter
  update_items-counter field test change about keeps [] = refl
  update_items-counter field test change about keeps (i ∷ is) = elim (Bool-cases (test i)) [
    | inl hit ↦ rw (hit, about i, keeps i, update_items-counter field test change about keeps is)
    | inr miss ↦ rw (miss, update_items-counter field test change about keeps is)
  ]
