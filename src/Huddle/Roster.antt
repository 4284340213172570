-- ===== src/Huddle/Roster.antt =====
-- What the reconciler makes of a roster.
use super_ops.Base.{
  ℕ, ◌≡◌, refl, ap, ◌∙◌, Bool, true, false, ◌&&◌, ◌||◌, not, List, [], ◌∷◌, arith, Bool-cases, inl,
  inr, if◌then◌else◌,
}
use super_ops.Base.Bytes.{str_eq, str_eq→eq, str_eq_refl}
use super_ops.Huddle.{
  Bytes, Participant, Tables, reconciled, any_of, update_where, upsert, upsert_all, is_session,
  is_open_session, is_open_in, is_listed, leaving, reconcile_participants,
}

-- An update that a test does not see.
any_of-update_where :
    {A : Type 0} (test change_test : A → Bool) (change : A → A) (xs : List A)
    → ((x : A) → test (change x) ≡ test x)
    → any_of test (update_where change_test change xs) ≡ any_of test xs
unfolding any_of update_where
any_of-update_where test change_test change [] same = refl
any_of-update_where test change_test change (x ∷ xs) same = elim (Bool-cases (change_test x)) [
  | inl hit ↦ rw (hit, same x, any_of-update_where test change_test change xs same)
  | inr miss ↦ rw (miss, any_of-update_where test change_test change xs same)
]

both_and : (l x y : Bool) {a b : Bool} → a ≡ (l && x) → b ≡ (l && y) → (a || b) ≡ (l && (x || y))
both_and true x y e e' = rw (e, e')
both_and false x y e e' = rw (e, e')

module _ (id sid : Bytes) where
  abbrev is_known : List Participant → Bool
  is_known ps = any_of (is_session id sid) ps

  abbrev is_inside : List Participant → Bool
  is_inside ps = any_of (is_open_session id sid) ps

  -- What is known of a session under another name for its sid.
  known_at :
      (sid' : Bytes) (ps : List Participant)
      → str_eq sid' sid ≡ true
      → any_of (is_session id sid') ps ≡ is_known ps
  known_at sid' ps e = ap (λ k. any_of (is_session id k) ps) (str_eq→eq sid' sid e)

  upsert-known :
      (p : Participant) (ps : List Participant)
      → is_known (upsert id p ps) ≡ (is_known ps || str_eq p.participant_sid sid)
  unfolding upsert any_of
  upsert-known p ps = elim (Bool-cases (any_of (is_session id p.participant_sid) ps)) [
    | inl here ↦ rw here (
        any_of-update_where (is_session id sid) _ _ ps (λ q. refl)
        ∙ ground (arith, known_at p.participant_sid ps))
    | inr absent ↦ rw (absent, str_eq_refl id) (ground arith)
  ]

  upsert-in :
      (p : Participant) (ps : List Participant)
      → is_inside (upsert id p ps)
        ≡ (is_inside ps || (not (is_known ps) && str_eq p.participant_sid sid))
  unfolding upsert any_of
  upsert-in p ps = elim (Bool-cases (any_of (is_session id p.participant_sid) ps)) [
    | inl here ↦ rw here (
        any_of-update_where (is_open_session id sid) _ _ ps (λ q. refl)
        ∙ ground (arith, known_at p.participant_sid ps))
    | inr absent ↦ rw (absent, str_eq_refl id) (ground (arith, known_at p.participant_sid ps))
  ]

  upsert_all-in :
      (listed ps : List Participant)
      → is_inside (upsert_all id listed ps)
        ≡ (is_inside ps || (not (is_known ps) && is_listed listed sid))
  unfolding upsert_all any_of
  upsert_all-in [] ps = ground arith
  upsert_all-in (p ∷ listed) ps =
      upsert_all-in listed (upsert id p ps) ∙ rw (upsert-in p ps, upsert-known p ps) (ground arith)

  close_one :
      (listed : List Participant) (now : ℕ) (p : Participant)
      → is_open_session id sid (
          if is_open_in id p && not (is_listed listed p.participant_sid)
          then leaving now reconciled p
          else p)
        ≡ (is_listed listed sid && is_open_session id sid p)
  close_one listed now p = elim (Bool-cases (str_eq p.participant_sid sid)) [
    | inl same ↦
        let at : is_listed listed p.participant_sid ≡ is_listed listed sid =
          ap (is_listed listed) (str_eq→eq p.participant_sid sid same) in
        ground (arith, at)
    | inr other ↦ ground arith
  ]

  close-in :
      (listed : List Participant) (now : ℕ) (ps : List Participant)
      → is_inside (
          update_where
            (λ p. is_open_in id p && not (is_listed listed p.participant_sid))
            (leaving now reconciled)
            ps)
        ≡ (is_listed listed sid && is_inside ps)
  unfolding update_where any_of
  close-in listed now [] = ground arith
  close-in listed now (p ∷ ps) =
      both_and (is_listed listed sid) (is_open_session id sid p) (is_inside ps)
        (close_one listed now p) (close-in listed now ps)

  -- After ReconcileParticipants, a session is open in the call exactly when the media server lists it and
  -- it was open before or not known: one that is listed and had been closed stays closed.
  pub reconcile_participants-roster :
      (listed : List Participant) (now : ℕ) (t : Tables)
      → any_of (is_open_session id sid) (reconcile_participants id listed now t).participants ≡ (
          is_listed listed sid
          && (any_of (is_open_session id sid) t.participants
              || not (any_of (is_session id sid) t.participants)))
  unfolding reconcile_participants
  reconcile_participants-roster listed now t =
      close-in listed now (upsert_all id listed t.participants)
      ∙ rw (upsert_all-in listed t.participants) (ground arith)
