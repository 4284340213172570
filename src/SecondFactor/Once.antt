-- ===== src/SecondFactor/Once.antt =====
-- backend/internal/auth/totp.go: every step and every backup code is accepted once.
use super_ops.Base.{
  ℕ, zero, suc, ◌+◌, ◌<◌, ◌≡◌, refl, sym, ◌∙◌, subst, Bool, List, [], ◌∷◌, Option, none, some,
  some_inj, ltb, ltb→lt, arith, Bool-cases, Option-cases, inl, inr, if◌then◌else◌,
}
use super_ops.Base.Bytes.{str_eq}
use super_ops.SecondFactor.{
  Bytes, Account, BackupRow, backup_code_count, looks_like_backup_code, consume_totp, burn,
  use_code, use_backup, verify_totp_or_backup, match_totp_step,
}

-- An attempt at the second factor, and when it is made.
pub record Attempt : Type 0 where
  pub code : Bytes
  pub now : ℕ

-- The codes that are not used up yet.
unfoldable pub unused : List BackupRow → ℕ
unused [] = 0
unused (r ∷ rows) = let rest = unused rows in if r.used then rest else suc rest

-- What was accepted: a time step, or a backup code.
pub data Factor : Type 0 where
  time_step : ℕ → Factor
  backup_code : Factor

abbrev pub Rising : ℕ → List Factor → Type 0
Rising last [] = Unit
Rising last (time_step step ∷ factors) = (last < step) × Rising step factors
Rising last (backup_code ∷ factors) = Rising last factors

abbrev pub backups : List Factor → ℕ
backups [] = 0
backups (time_step step ∷ factors) = backups factors
backups (backup_code ∷ factors) = suc (backups factors)

-- The factor of an attempt that is accepted, from the step that its code is of, if it is of any: a step
-- that is not past the last one is refused, and the code is then tried as a backup code.
abbrev pub factor_of : Option ℕ → Account → Factor
factor_of none a = backup_code
factor_of (some step) a = if ltb a.totp_last_step step then time_step step else backup_code

module _ (hmac : Bytes → ℕ → Bytes) (decode : Bytes → Option Bytes)
    (check_password : Bytes → Bytes → Bool) (trim lower : Bytes → Bytes) where
  abbrev verify : Bytes → ℕ → Account → Option Account
  verify = verify_totp_or_backup hmac decode check_password trim lower

  abbrev using : ℕ → Bytes → List BackupRow → Option (List BackupRow)
  using = use_code hmac decode check_password trim lower

  -- The factors that are accepted, of attempts that are made one after the other, and the account then.
  abbrev pub Run : Type 0
  Run = List Factor × Account

  abbrev pub prepend : Factor → Run → Run
  prepend f (fs, b) = (f ∷ fs, b)

  -- The time step whose code it is, found without regard to what is stored of earlier steps.
  abbrev pub step_of : Bytes → ℕ → Account → Option ℕ
  step_of code now a =
      if str_eq a.totp_secret []
      then none
      else match_totp_step hmac decode check_password trim lower a.totp_secret code now

  abbrev pub attempt_with : Factor → Option Account → Account → (Account → Run) → Run
  attempt_with f none a rest = rest a
  attempt_with f (some b) a rest = prepend f (rest b)

  unfoldable pub attempts : List Attempt → Account → Run
  unfolding verify_totp_or_backup match_totp_step str_eq
  attempts [] a = ([], a)
  attempts (t ∷ ts) a =
      attempt_with (factor_of (step_of t.code t.now a) a) (verify t.code t.now a) a
        (λ b. attempts ts b)

  -- A backup code that is accepted is used up, and was not before.
  use_code-unused :
      (limit : ℕ) (code : Bytes) (rows out : List BackupRow)
      → using limit code rows ≡ some out
      → unused rows ≡ suc (unused out)
  unfolding use_code unused
  use_code-unused zero code rows out h = absurd (cc h)
  use_code-unused (suc limit) code [] out h = absurd (cc h)
  use_code-unused (suc limit) code (r ∷ rows) out h = elim (Bool-cases r.used) [
    | inl e ↦ elim (Option-cases (using (suc limit) code rows)) [
      | inl e' ↦ absurd (cc (rw (e, e') at h))
      | inr (later, e') ↦
          let same = some_inj (rw (e, e') at h) in
          let rest = use_code-unused (suc limit) code rows later e' in
          subst (λ l. unused (r ∷ rows) ≡ suc (unused l)) same (ground (arith, rest, e))
    ]
    | inr e ↦ elim (Bool-cases (check_password code r.code_hash)) [
      | inl c ↦
          let same = some_inj (rw (e, c) at h) in
          subst (λ l. unused (r ∷ rows) ≡ suc (unused l)) same (ground (arith, e))
      | inr c ↦ elim (Option-cases (using limit code rows)) [
        | inl e' ↦ absurd (cc (rw (e, c, e') at h))
        | inr (later, e') ↦
            let same = some_inj (rw (e, c, e') at h) in
            let rest = use_code-unused limit code rows later e' in
            subst (λ l. unused (r ∷ rows) ≡ suc (unused l)) same (ground (arith, rest, e))
      ]
    ]
  ]

  -- What an accepted attempt does to the account: it burns the later step whose code it is, or uses up a
  -- backup code.
  abbrev Uses : Factor → Account → Account → Type 0
  Uses (time_step step) a b =
      (a.totp_last_step < step)
      × (b.totp_last_step ≡ step)
      × (unused b.backup_codes ≡ unused a.backup_codes)
  Uses backup_code a b =
      (a.totp_last_step ≡ b.totp_last_step) × (unused a.backup_codes ≡ suc (unused b.backup_codes))

  burn-Uses :
      (step : Option ℕ) (a b : Account)
      → burn hmac decode check_password trim lower step a ≡ some b
      → Uses (factor_of step a) a b
  burn-Uses none a b h = absurd (cc h)
  burn-Uses (some step) a b h = elim (Bool-cases (ltb a.totp_last_step step)) [
    | inl e ↦
        subst (λ t. Uses (if t then time_step step else backup_code) a b) (sym e)
          (subst (Uses (time_step step) a) (some_inj (rw e at h)) (ltb→lt _ _ e, refl, refl))
    | inr e ↦ absurd (cc (rw e at h))
  ]

  -- A step that is not burned leaves the code to be a backup code.
  burn-none :
      (step : Option ℕ) (a : Account)
      → burn hmac decode check_password trim lower step a ≡ none
      → factor_of step a ≡ backup_code
  burn-none none a h = refl
  burn-none (some step) a h = elim (Bool-cases (ltb a.totp_last_step step)) [
    | inl e ↦ absurd (cc (rw e at h))
    | inr e ↦ rw e
  ]

  use_backup-Uses :
      (code : Bytes) (a b : Account)
      → use_backup hmac decode check_password trim lower code a ≡ some b
      → Uses backup_code a b
  unfolding use_backup
  use_backup-Uses code a b h = elim (Bool-cases (looks_like_backup_code code)) [
    | inr e ↦ absurd (cc (rw e at h))
    | inl e ↦ elim (Option-cases (using backup_code_count code a.backup_codes)) [
      | inl e' ↦ absurd (cc (rw (e, e') at h))
      | inr (rows, e') ↦
          let fewer = use_code-unused backup_code_count code a.backup_codes rows e' in
          subst (Uses backup_code a) (some_inj (rw (e, e') at h)) (refl, fewer)
    ]
  ]

  -- Consuming a code is burning the step that it is of.
  consume_totp-burn :
      (code : Bytes) (now : ℕ) (a : Account)
      → consume_totp hmac decode check_password trim lower code now a
        ≡ burn hmac decode check_password trim lower (step_of code now a) a
  unfolding consume_totp
  consume_totp-burn code now a = elim (Bool-cases (str_eq a.totp_secret [])) [
    | inl e ↦ rw e
    | inr e ↦ rw e
  ]

  verify-Uses :
      (code : Bytes) (now : ℕ) (a b : Account)
      → verify code now a ≡ some b
      → Uses (factor_of (step_of code now a) a) a b
  unfolding verify_totp_or_backup
  verify-Uses code now a b h =
      let burned = consume_totp-burn code now a in
      elim (Option-cases (consume_totp hmac decode check_password trim lower code now a)) [
        | inl e ↦
            subst (λ f. Uses f a b) (sym (burn-none (step_of code now a) a (sym burned ∙ e)))
              (use_backup-Uses (lower (trim code)) a b (rw e at h))
        | inr (c, e) ↦ burn-Uses (step_of code now a) a b (sym burned ∙ e ∙ rw e at h)
      ]

  -- What a run of attempts has to show.
  abbrev UsesOnce : Account → Run → Type 0
  UsesOnce a (fs, b) =
      Rising a.totp_last_step fs × (backups fs + unused b.backup_codes ≡ unused a.backup_codes)

  prepend-UsesOnce :
      (f : Factor) (a b : Account) (run : Run)
      → Uses f a b
      → UsesOnce b run
      → UsesOnce a (prepend f run)
  prepend-UsesOnce (time_step step) a b (fs, c) (later, burned, same) (rising, count) =
      ((later, subst (λ last. Rising last fs) burned rising), omega (arith, same, count))
  prepend-UsesOnce backup_code a b (fs, c) (same, fewer) (rising, count) =
      (subst (λ last. Rising last fs) (sym same) rising, omega (arith, fewer, count))

  attempt-UsesOnce :
      (f : Factor) (result : Option Account) (a : Account) (rest : Account → Run)
      → ((b : Account) → result ≡ some b → Uses f a b)
      → ((b : Account) → UsesOnce b (rest b))
      → UsesOnce a (attempt_with f result a rest)
  attempt-UsesOnce f none a rest uses later = later a
  attempt-UsesOnce f (some b) a rest uses later =
      prepend-UsesOnce f a b (rest b) (uses b refl) (later b)

  -- Over any attempts at the second factor, whenever they are made, the time steps whose codes are
  -- accepted rise strictly from the account's last one, so that no step's code is accepted twice, and
  -- each backup code that is accepted is one that was unused and is used up by it.
  pub attempts-once :
      (ts : List Attempt) (a : Account)
      → Rising a.totp_last_step (attempts ts a).0
        × (backups (attempts ts a).0 + unused (attempts ts a).1.backup_codes
            ≡ unused a.backup_codes)
  unfolding attempts
  attempts-once [] a = (tt, omega arith)
  attempts-once (t ∷ ts) a =
      attempt-UsesOnce (factor_of (step_of t.code t.now a) a) (verify t.code t.now a) a
        (attempts ts) (verify-Uses t.code t.now a) (attempts-once ts)
