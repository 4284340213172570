-- ===== src/Collab/Asked.antt =====
-- How often a client is asked to compact a document.
use super_ops.Base.{
  ℕ, ◌≤◌, ◌≡◌, refl, ap, ◌∙◌, Bool, false, List, [], ◌∷◌, Option, none, some, arith, Bool-cases,
  inl, inr, if◌then◌else◌,
}
use super_ops.Base.Bytes.{str_eq, str_eq→eq, str_eq_refl}
use super_ops.Collab.{Bytes}
use super_ops.Collab.Service.{Asked, cooled, trimmed, claim_compaction, snapshot_stored}

-- A document's log has run too far ahead, at a time, or its snapshot has been stored.
pub data Event : Type 0 where
  claimed : Bytes → ℕ → Event
  stored : Bytes → Event

-- The answers for one document.
abbrev pub answer : Bool → Bool → List Bool → List Bool
answer here b bs = if here then b ∷ bs else bs

unfoldable pub claims : Bytes → List Event → Asked → List Bool
claims id [] a = []
claims id (claimed j now ∷ es) a =
    answer (str_eq j id) (claim_compaction j now a).0 (claims id es (claim_compaction j now a).1)
claims id (stored j ∷ es) a = claims id es (snapshot_stored j a)

-- What they should be: a claim is granted when the last one, since the last snapshot, is a minute old.
unfoldable pub grants : Bytes → List Event → Option ℕ → List Bool
grants id [] last = []
grants id (claimed j now ∷ es) last =
    let due = cooled last now in
    answer (str_eq j id) due
      (grants id es (if str_eq j id then (if due then some now else last) else last))
grants id (stored j ∷ es) last = grants id es (if str_eq j id then none else last)

-- A clock that does not go back.
abbrev pub Clocked : ℕ → List Event → Type 0
Clocked clock [] = Unit
Clocked clock (claimed j now ∷ es) = (clock ≤ now) × Clocked now es
Clocked clock (stored j ∷ es) = Clocked clock es

abbrev Agrees : Bytes → ℕ → (Bytes → Option ℕ) → Option ℕ → Type 0
Agrees id clock asked last = (now : ℕ) → clock ≤ now → cooled (asked id) now ≡ cooled last now

-- What is trimmed would have been granted anyway.
trimmed-cooled :
    (t : Option ℕ) (now later : ℕ) → now ≤ later → cooled (trimmed now t) later ≡ cooled t later
trimmed-cooled none now later le = refl
trimmed-cooled (some t) now later le = ground arith

claim_other :
    (id j : Bytes) (now later : ℕ) (a : Asked)
    → str_eq j id ≡ false
    → now ≤ later
    → cooled ((claim_compaction j now a).1.asked id) later ≡ cooled (a.asked id) later
unfolding claim_compaction
claim_other id j now later a other le = elim (Bool-cases (cooled (a.asked j) now)) [
  | inr early ↦ rw early
  | inl due ↦ elim (Bool-cases (cooled a.asked_trim now)) [
    | inl old ↦ rw (due, old, other) (trimmed-cooled (a.asked id) now later le)
    | inr new ↦ rw (due, new, other)
  ]
]

claim_granted :
    (id : Bytes) (now : ℕ) (a : Asked) → (claim_compaction id now a).0 ≡ cooled (a.asked id) now
unfolding claim_compaction
claim_granted id now a = elim (Bool-cases (cooled (a.asked id) now)) [
  | inr early ↦ rw early
  | inl due ↦ elim (Bool-cases (cooled a.asked_trim now)) [
    | inl old ↦ rw (due, old)
    | inr new ↦ rw (due, new)
  ]
]

claim_same :
    (id : Bytes) (now : ℕ) (a : Asked)
    → (claim_compaction id now a).1.asked id
      ≡ (if cooled (a.asked id) now then some now else a.asked id)
unfolding claim_compaction
claim_same id now a = elim (Bool-cases (cooled (a.asked id) now)) [
  | inr early ↦ rw early
  | inl due ↦ elim (Bool-cases (cooled a.asked_trim now)) [
    | inl old ↦ rw (due, old, str_eq_refl id)
    | inr new ↦ rw (due, new, str_eq_refl id)
  ]
]

claim-Agrees :
    (id : Bytes) (clock now : ℕ) (a : Asked) (last : Option ℕ)
    → clock ≤ now
    → Agrees id clock a.asked last
    → Agrees id now (claim_compaction id now a).1.asked (if cooled last now then some now else last)
claim-Agrees id clock now a last le agrees later le' =
    rw (claim_same id now a, agrees now le)
      (elim (Bool-cases (cooled last now)) [
        | inl due ↦ rw due
        | inr early ↦ rw early (agrees later (omega arith))
      ])

stored-Agrees :
    (id : Bytes) (clock : ℕ) (a : Asked) → Agrees id clock (snapshot_stored id a).asked none
unfolding snapshot_stored
stored-Agrees id clock a later le = rw (str_eq_refl id)

stored_other :
    (id j : Bytes) (a : Asked) → str_eq j id ≡ false → (snapshot_stored j a).asked id ≡ a.asked id
unfolding snapshot_stored
stored_other id j a other = rw other

-- The trimming of the table is not seen: for each document, by a clock that does not go back, a claim
-- is granted exactly when the last granted one is at least a minute old or a snapshot has been stored
-- since, whatever is claimed and stored for other documents.
pub claims-grants :
    (id : Bytes) (es : List Event) (clock : ℕ) (a : Asked) (last : Option ℕ)
    → Clocked clock es
    → ((now : ℕ) → clock ≤ now → cooled (a.asked id) now ≡ cooled last now)
    → claims id es a ≡ grants id es last
unfolding claims grants
claims-grants id [] clock a last c agrees = refl
claims-grants id (claimed j now ∷ es) clock a last c agrees = elim (Bool-cases (str_eq j id)) [
  | inl same ↦
      let e : j ≡ id = str_eq→eq j id same in
      let ih =
        claims-grants id es now (claim_compaction id now a).1
          (if cooled last now then some now else last) c.1
          (claim-Agrees id clock now a last c.0 agrees) in
      rw (same, e, claim_granted id now a, agrees now c.0) (ap (◌∷◌ (cooled last now)) ih)
  | inr other ↦ rw other (
      claims-grants id es now (claim_compaction j now a).1 last c.1
        (λ later le. claim_other id j now later a other le ∙ agrees later (omega (arith, c.0))))
]
claims-grants id (stored j ∷ es) clock a last c agrees = elim (Bool-cases (str_eq j id)) [
  | inl same ↦
      let e : j ≡ id = str_eq→eq j id same in
      rw (same, e)
        (claims-grants id es clock (snapshot_stored id a) none c (stored-Agrees id clock a))
  | inr other ↦ rw other (
      claims-grants id es clock (snapshot_stored j a) last c
        (λ later le. ap (λ t. cooled t later) (stored_other id j a other) ∙ agrees later le))
]
