-- ===== src/SecondFactor.antt =====
-- backend/internal/auth/totp.go: the second factor of a login, time-based codes and backup codes.
pub mod Codes
pub mod Once
mod Tests
use super_ops.Base.{
  ℕ, zero, suc, ◌+◌, ◌-◌, ◌*◌, ◌/◌, ◌%◌, ◌^◌, ◌≡◌, Bool, true, false, ◌&&◌, ◌||◌, not, List, [],
  ◌∷◌, ◌++◌, Option, none, some, map, length, get_or, ltb, leb, ◌==◌, if◌then◌else◌,
}
use super_ops.Base.Bytes.{codes, str_eq}
use super_ops.Base.Fallible.{Result, ok, err, ◌>>=◌, ◌>>◌, guard}

abbrev pub Bytes : Type 0
Bytes = List ℕ

abbrev pub totp_digits : ℕ
totp_digits = 6

abbrev pub totp_period_secs : ℕ
totp_period_secs = 30

abbrev pub backup_code_count : ℕ
backup_code_count = 10

abbrev pub backup_code_len : ℕ
backup_code_len = 10

abbrev pub backup_code_min_len : ℕ
backup_code_min_len = 8

abbrev pub backup_code_alphabet : Bytes
backup_code_alphabet = codes "abcdefghjkmnpqrstuvwxyz23456789"

-- `GenerateBackupCode`, on the bytes that `rand.Read` gives, as many as the loop asks for: a byte of
-- 248 or more is passed over.
unfoldable pub generate_backup_code : ℕ → Bytes → Option Bytes
generate_backup_code zero random = some []
generate_backup_code (suc missing) [] = none
generate_backup_code (suc missing) (b ∷ random) =
    let skip = generate_backup_code (suc missing) random in
    let rest = generate_backup_code missing random in
    if leb 248 b
    then skip
    else elim rest [ none ↦ none | some out ↦ some (get_or backup_code_alphabet (b % 31) 0 ∷ out) ]

-- `looksLikeBackupCode`.
abbrev pub is_code_byte : ℕ → Bool
is_code_byte c =
    (leb b'a' c && leb c b'z') || ((leb b'0' c && leb c b'9') || (c == b'-' || c == b'_'))

unfoldable pub all_code_bytes : Bytes → Bool
all_code_bytes [] = true
all_code_bytes (c ∷ cs) = is_code_byte c && all_code_bytes cs

abbrev pub looks_like_backup_code : Bytes → Bool
looks_like_backup_code code =
    if ltb (length code) backup_code_min_len || ltb backup_code_len (length code)
    then false
    else all_code_bytes code

-- `fmt.Sprintf("%0*d", n, value)`, for a value of at most n digits.
unfoldable pub digits : ℕ → ℕ → Bytes
digits zero value = []
digits (suc n) value = digits n (value / 10) ++ (b'0' + value % 10) ∷ []

-- The truncation of `hotp`, of the 20 bytes of the HMAC.
abbrev pub truncated : Bytes → ℕ
truncated sum =
    let offset = get_or sum 19 0 % 16 in
    (get_or sum offset 0 % 128) * 2 ^ 24
    + get_or sum (offset + 1) 0 * 2 ^ 16
    + get_or sum (offset + 2) 0 * 2 ^ 8
    + get_or sum (offset + 3) 0

-- A row of totp_backup_codes, and the columns of users that the second factor has.
pub record BackupRow : Type 0 where
  pub code_hash : Bytes
  pub used : Bool

pub record Account : Type 0 where
  pub totp_secret : Bytes
  pub totp_enabled : Bool
  pub totp_last_step : ℕ
  pub backup_codes : List BackupRow

pub data TotpError : Type 0 where
  reauth_required setup_missing invalid_code : TotpError

-- HMAC-SHA1 of a counter, base32 decoding, bcrypt, and Go's trimming and lower case are libraries'.
module _ (hmac : Bytes → ℕ → Bytes) (decode : Bytes → Option Bytes)
    (check_password : Bytes → Bytes → Bool) (trim lower : Bytes → Bytes) where
  abbrev pub hotp : Bytes → ℕ → Bytes
  hotp secret counter = digits totp_digits (truncated (hmac secret counter) % 1000000)

  unfoldable pub totp_at_step : Bytes → ℕ → Option Bytes
  unfolding digits
  totp_at_step secret step = elim (decode secret) [
    | none ↦ none
    | some secret_bytes ↦ some (hotp secret_bytes step)
  ]

  abbrev pub is_code_of : Option Bytes → Bytes → Bool
  is_code_of none code = false
  is_code_of (some want) code = str_eq want code

  -- The loop of `matchTOTPStep` over the skews; the clock is past the first period of its epoch.
  unfoldable pub first_match : Bytes → Bytes → List ℕ → Option ℕ
  unfolding totp_at_step str_eq
  first_match secret code [] = none
  first_match secret code (step ∷ steps) =
      let rest = first_match secret code steps in
      if is_code_of (totp_at_step secret step) code then some step else rest

  unfoldable pub match_totp_step : Bytes → Bytes → ℕ → Option ℕ
  unfolding first_match
  match_totp_step secret code now =
      let current = now / totp_period_secs in
      if not (length (trim code) == totp_digits)
      then none
      else first_match secret (trim code) (current ∷ (current - 1) ∷ (current + 1) ∷ [])

  -- `consumeTOTP`: the guarded UPDATE burns the step.
  abbrev pub burn : Option ℕ → Account → Option Account
  burn none a = none
  burn (some step) a =
      if ltb a.totp_last_step step then some (record a { totp_last_step = step }) else none

  unfoldable pub consume_totp : Bytes → ℕ → Account → Option Account
  unfolding match_totp_step str_eq
  consume_totp code now a =
      if str_eq a.totp_secret [] then none else burn (match_totp_step a.totp_secret code now) a

  -- The backup codes of `verifyTOTPOrBackup`: the first ten unused, and the first of them that is it.
  unfoldable pub use_code : ℕ → Bytes → List BackupRow → Option (List BackupRow)
  use_code zero code rows = none
  use_code (suc limit) code [] = none
  use_code (suc limit) code (r ∷ rows) =
      let skip = use_code (suc limit) code rows in
      let next = use_code limit code rows in
      if r.used
      then elim skip [ none ↦ none | some out ↦ some (r ∷ out) ]
      else if check_password code r.code_hash
      then some (record r { used = true } ∷ rows)
      else elim next [ none ↦ none | some out ↦ some (r ∷ out) ]

  abbrev pub with_codes : Account → Option (List BackupRow) → Option Account
  with_codes a none = none
  with_codes a (some rows) = some (record a { backup_codes = rows })

  unfoldable pub use_backup : Bytes → Account → Option Account
  unfolding use_code all_code_bytes
  use_backup code a =
      if looks_like_backup_code code
      then with_codes a (use_code backup_code_count code a.backup_codes)
      else none

  abbrev pub or_backup : Option Account → Bytes → Account → Option Account
  or_backup none code a = use_backup (lower (trim code)) a
  or_backup (some b) code a = some b

  -- `verifyTOTPOrBackup`: the account after, if the factor is accepted.
  unfoldable pub verify_totp_or_backup : Bytes → ℕ → Account → Option Account
  unfolding consume_totp use_backup
  verify_totp_or_backup code now a = or_backup (consume_totp code now a) code a

  -- `reauthenticate`: the account after, if the password or a second factor is accepted.
  unfoldable pub reauthenticate : Bytes → Bytes → Bytes → ℕ → Account → Option Account
  unfolding str_eq verify_totp_or_backup
  reauthenticate password password_hash code now a =
      if not (str_eq password [])
        && (not (str_eq password_hash []) && check_password password password_hash)
      then some a
      else if not (str_eq code [])
      then verify_totp_or_backup code now a
      else none

  -- `SetupTOTP`, with the secret that it generates.
  abbrev pub with_secret : Bytes → Option Account → Result TotpError Account
  with_secret secret none = err reauth_required
  with_secret secret (some a) = ok (record a { totp_secret = secret; totp_enabled = false })

  unfoldable pub setup_totp : Bytes → Bytes → Bytes → Bytes → ℕ → Account → Result TotpError Account
  unfolding reauthenticate
  setup_totp secret password password_hash code now a =
      with_secret secret
        (if a.totp_enabled then reauthenticate password password_hash code now a else some a)

  -- `EnableTOTP`, with the hashes of the backup codes that it generates.
  abbrev pub fresh_row : Bytes → BackupRow
  fresh_row hash = record { code_hash = hash; used = false }

  abbrev pub enabled_with : List Bytes → Option Account → Result TotpError Account
  enabled_with hashes none = err invalid_code
  enabled_with hashes (some a) =
      ok (record a { totp_enabled = true; backup_codes = map fresh_row hashes })

  unfoldable pub enable_totp : List Bytes → Bytes → ℕ → Account → Result TotpError Account
  unfolding consume_totp str_eq
  enable_totp hashes code now a = do
    guard (not (str_eq a.totp_secret [])) setup_missing
    enabled_with hashes (consume_totp code now a)

  -- `DisableTOTP`.
  abbrev pub disabled : Option Account → Result TotpError Account
  disabled none = err invalid_code
  disabled (some a) = ok (record a { totp_enabled = false; totp_secret = []; backup_codes = [] })

  unfoldable pub disable_totp : Bytes → ℕ → Account → Result TotpError Account
  unfolding verify_totp_or_backup
  disable_totp code now a =
      if not a.totp_enabled then ok a else disabled (verify_totp_or_backup code now a)
