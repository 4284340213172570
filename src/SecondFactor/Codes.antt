-- ===== src/SecondFactor/Codes.antt =====
-- The shape of the codes: what is generated as a backup code is taken for one, a time-based code is not.
use super_ops.Base.{
  ℕ, zero, suc, ◌%◌, ◌≡◌, refl, ap, subst, Bool, true, ◌&&◌, [], ◌∷◌, some, some_inj, length,
  get_or, leb, arith, Bool-cases, Option-cases, inl, inr, check_table, check_table-at,
}
use super_ops.SecondFactor.{
  Bytes, backup_code_alphabet, backup_code_len, generate_backup_code, is_code_byte, all_code_bytes,
  looks_like_backup_code,
}

and_true : (a b : Bool) → a ≡ true → b ≡ true → (a && b) ≡ true
and_true a b h k = rw h k

alphabet_table : check_table (λ i. is_code_byte (get_or backup_code_alphabet i 0)) 31 ≡ true
unfolding check_table
alphabet_table = refl

alphabet_byte : (b : ℕ) → is_code_byte (get_or backup_code_alphabet (b % 31) 0) ≡ true
alphabet_byte b =
    check_table-at (λ i. is_code_byte (get_or backup_code_alphabet i 0)) 31 (b % 31) (omega arith)
      alphabet_table

generated :
    (missing : ℕ) (random code : Bytes)
    → generate_backup_code missing random ≡ some code
    → (length code ≡ missing) × (all_code_bytes code ≡ true)
unfolding generate_backup_code all_code_bytes
generated zero random code h =
    subst (λ c. (length c ≡ 0) × (all_code_bytes c ≡ true)) (some_inj h) (refl, refl)
generated (suc missing) [] code h = absurd (cc h)
generated (suc missing) (b ∷ random) code h = elim (Bool-cases (leb 248 b)) [
  | inl e ↦ generated (suc missing) random code (rw e at h)
  | inr e ↦ elim (Option-cases (generate_backup_code missing random)) [
    | inl e' ↦ absurd (cc (rw (e, e') at h))
    | inr (out, e') ↦
        let same = some_inj (rw (e, e') at h) in
        let (len, good) = generated missing random out e' in
        let first = alphabet_byte b in
        subst (λ c. (length c ≡ suc missing) × (all_code_bytes c ≡ true)) same
          (
            ap suc len,
            and_true (is_code_byte (get_or backup_code_alphabet (b % 31) 0)) _ first good,
          )
  ]
]

-- What `GenerateBackupCode` gives has ten bytes and is taken for a backup code.
pub generate_backup_code-looks_like_backup_code :
    (random code : Bytes)
    → generate_backup_code backup_code_len random ≡ some code
    → (length code ≡ backup_code_len) × (looks_like_backup_code code ≡ true)
generate_backup_code-looks_like_backup_code random code h =
    let (len, good) = generated backup_code_len random code h in (len, ground (arith, len, good))
