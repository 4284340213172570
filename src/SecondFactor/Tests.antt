-- ===== src/SecondFactor/Tests.antt =====
-- An account with two backup codes, a replayed code and a backup code that is tried twice.
use super_ops.Base.{ℕ, zero, suc, ◌+◌, ◌≡◌, refl, true, List, [], ◌∷◌, some, length}
use super_ops.Base.Bytes.{codes, str_eq}
use super_ops.SecondFactor.{
  Bytes, Account, hotp, fresh_row, generate_backup_code, backup_code_len, looks_like_backup_code,
}
use super_ops.SecondFactor.Codes.{generate_backup_code-looks_like_backup_code}
use super_ops.SecondFactor.Once.{
  Attempt, time_step, backup_code, Rising, backups, unused, attempts, attempts-once,
}

-- An HMAC of twenty equal bytes, and a hash that is the code itself.
abbrev copies : ℕ → ℕ → Bytes
copies zero c = []
copies (suc n) c = c ∷ copies n c

abbrev test_hmac : Bytes → ℕ → Bytes
test_hmac secret counter = copies 20 counter

abbrev same : Bytes → Bytes
same s = s

abbrev ann : Account
ann = record {
  totp_secret = codes "S";
  totp_enabled = true;
  totp_last_step = 99;
  backup_codes =
      fresh_row test_hmac some str_eq same same (codes "abcdefghjk")
      ∷ fresh_row test_hmac some str_eq same same (codes "mnpqrstuvw")
      ∷ [];
}

abbrev current : Bytes
current = hotp test_hmac some str_eq same same (codes "S") 100

-- The code of the step after, which is accepted early, and once.
abbrev following : Bytes
following = hotp test_hmac some str_eq same same (codes "S") 101

abbrev at_step : Bytes → ℕ → Attempt
at_step code now = record { code = code; now = now }

abbrev tries : List Attempt
tries =
    at_step current 3000
    ∷ at_step current 3010
    ∷ at_step following 3010
    ∷ at_step following 3030
    ∷ at_step (codes "mnpqrstuvw") 3020
    ∷ at_step (codes "mnpqrstuvw") 3021
    ∷ []

accepted_example :
    (attempts test_hmac some str_eq same same tries ann).0
    ≡ time_step 100 ∷ time_step 101 ∷ backup_code ∷ []
unfolding attempts
accepted_example = refl

attempts-once_example :
    Rising 99 (attempts test_hmac some str_eq same same tries ann).0
    × (backups (attempts test_hmac some str_eq same same tries ann).0
          + unused (attempts test_hmac some str_eq same same tries ann).1.backup_codes
        ≡ unused ann.backup_codes)
attempts-once_example = attempts-once test_hmac some str_eq same same tries ann

-- A byte of 250 is passed over.
abbrev random : Bytes
random = 250 ∷ 0 ∷ 31 ∷ 62 ∷ 247 ∷ 5 ∷ 6 ∷ 7 ∷ 8 ∷ 9 ∷ 10 ∷ []

generate_backup_code-looks_like_backup_code_example :
    (length (codes "aaa9fghjkm") ≡ backup_code_len)
    × (looks_like_backup_code (codes "aaa9fghjkm") ≡ true)
unfolding generate_backup_code
generate_backup_code-looks_like_backup_code_example =
    generate_backup_code-looks_like_backup_code random (codes "aaa9fghjkm") refl
