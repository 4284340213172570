-- ===== src/Audit/Intact.antt =====
-- When `walk` finds no break: exactly on rows that follow one another and hash to what is stored.
use super_ops.Base.{
  ℕ, zero, suc, ◌+◌, ◌-◌, ◌≤◌, ◌≡◌, refl, ◌↔◌, Bool, true, false, ◌||◌, List, [], ◌∷◌, ◌++◌, arith,
  ltb, ap, if◌then◌else◌,
}
use super_ops.Base.Bytes.{str_eq→eq, str_eq_refl}
use super_ops.Audit.{Bytes, StoredEntry, Row, Outside}
use super_ops.Audit.Encoding.{chain_hash}
use super_ops.Audit.Verify.{gap, scan, check_row, walk_rows}

append-nil_inv : {A : Type 0} (xs ys : List A) → xs ++ ys ≡ [] → (xs ≡ []) × (ys ≡ [])
append-nil_inv [] ys e = (refl, e)
append-nil_inv (x ∷ xs) ys e = absurd (cc e)

gap-nil : (ws : Bytes) (expect count : ℕ) → gap ws expect count ≡ [] → count ≡ 0
unfolding gap
gap-nil ws expect zero e = refl
gap-nil ws expect (suc n) e = absurd (cc e)

module _ (o : Outside) (read_back : StoredEntry → StoredEntry) (ws : Bytes) where
  -- A row that hashes to its stored hash, under its stored predecessor.
  abbrev pub HashesRight : Row → Type 0
  HashesRight r = chain_hash o r.prev_hash (scan o read_back ws r) ≡ r.hash

  -- The rows have no gap from number `s` on, each names the hash of the one before it, and each
  -- hashes right; `p` is the hash before the first.
  abbrev pub Linked : ℕ → Bytes → List Row → Type 0
  Linked s p [] = Unit {0}
  Linked s p (r ∷ rs) =
      (r.entry.chain_seq ≤ s)
      × (r.prev_hash ≡ p)
      × HashesRight r
      × Linked (r.entry.chain_seq + 1) r.hash rs

  -- The same where nothing is known of the hash before the first row.
  abbrev pub Chain : ℕ → List Row → Type 0
  Chain s [] = Unit {0}
  Chain s (r ∷ rs) = Linked s r.prev_hash (r ∷ rs)

  check_row-nil :
      (prev : Bytes) (r : Row)
      → check_row o read_back ws prev r ≡ []
      → (r.prev_hash ≡ prev) × HashesRight r
  unfolding check_row
  check_row-nil prev r e = ground (
    arith,
    str_eq→eq r.prev_hash prev,
    str_eq→eq (chain_hash o r.prev_hash (scan o read_back ws r)) r.hash,
  )

  nil-check_row : (r : Row) → HashesRight r → check_row o read_back ws r.prev_hash r ≡ []
  unfolding check_row
  nil-check_row r h = rw (str_eq_refl r.prev_hash, h, str_eq_refl r.hash)

  -- The walk over a row without a break, in parts.
  step-nil :
      (prev : Bytes) (expect : ℕ) (first : Bool) (r : Row) (rs : List Row)
      → walk_rows o read_back ws prev expect first (r ∷ rs) ≡ []
      → (r.entry.chain_seq ≤ expect)
        × (r.prev_hash ≡ (if first then r.prev_hash else prev))
        × HashesRight r
        × (walk_rows o read_back ws r.hash (r.entry.chain_seq + 1) false rs ≡ [])
  unfolding walk_rows
  step-nil prev expect first r rs e =
      let seq = r.entry.chain_seq in
      let (no_gap, tail) = append-nil_inv (gap ws expect (seq - expect)) _ e in
      let (checked, rest) = append-nil_inv (check_row o read_back ws _ r) _ tail in
      let le : seq ≤ expect = omega (arith, gap-nil ws expect (seq - expect) no_gap) in
      let (p, h) = check_row-nil _ r checked in (le, ground arith, h, rest)

  walk_rows-Linked :
      (prev : Bytes) (expect : ℕ) (rs : List Row)
      → walk_rows o read_back ws prev expect false rs ≡ []
      → Linked expect prev rs
  walk_rows-Linked prev expect [] e = tt
  walk_rows-Linked prev expect (r ∷ rs) e =
      let (le, p, h, rest) = step-nil prev expect false r rs e in
      (le, p, h, walk_rows-Linked r.hash (r.entry.chain_seq + 1) rs rest)

  walk_rows-Chain :
      (expect : ℕ) (rs : List Row)
      → walk_rows o read_back ws [] expect true rs ≡ []
      → Chain expect rs
  walk_rows-Chain expect [] e = tt
  walk_rows-Chain expect (r ∷ rs) e =
      let (le, p, h, rest) = step-nil [] expect true r rs e in
      (le, refl, h, walk_rows-Linked r.hash (r.entry.chain_seq + 1) rs rest)

  no_gap : (expect seq : ℕ) → seq ≤ expect → gap ws expect (seq - expect) ≡ []
  unfolding gap
  no_gap expect seq le = ap (gap ws expect) (let z : seq - expect ≡ 0 = omega arith in z)

  step-from :
      (prev : Bytes) (expect : ℕ) (first : Bool) (r : Row) (rs : List Row)
      → r.entry.chain_seq ≤ expect
      → r.prev_hash ≡ (if first then r.prev_hash else prev)
      → HashesRight r
      → walk_rows o read_back ws r.hash (r.entry.chain_seq + 1) false rs ≡ []
      → walk_rows o read_back ws prev expect first (r ∷ rs) ≡ []
  unfolding walk_rows
  step-from prev expect first r rs le p h rest =
      let held : (if first || ltb expect r.entry.chain_seq then r.prev_hash else prev)
          ≡ r.prev_hash =
        ground arith in
      rw (no_gap expect r.entry.chain_seq le, held, nil-check_row r h) rest

  Linked-walk_rows :
      (prev : Bytes) (expect : ℕ) (rs : List Row)
      → Linked expect prev rs
      → walk_rows o read_back ws prev expect false rs ≡ []
  unfolding walk_rows
  Linked-walk_rows prev expect [] l = refl
  Linked-walk_rows prev expect (r ∷ rs) (le, p, h, l) =
      step-from prev expect false r rs le p h (Linked-walk_rows r.hash (r.entry.chain_seq + 1) rs l)

  Chain-walk_rows :
      (expect : ℕ) (rs : List Row)
      → Chain expect rs
      → walk_rows o read_back ws [] expect true rs ≡ []
  unfolding walk_rows
  Chain-walk_rows expect [] l = refl
  Chain-walk_rows expect (r ∷ rs) (le, p, h, l) =
      step-from [] expect true r rs le refl h (Linked-walk_rows r.hash (r.entry.chain_seq + 1) rs l)

  -- The verifier's walk reports no break of the rows that it reads exactly when they are a chain: no
  -- number missing from the first expected one on, each row behind the one that it names, and each
  -- row's contents hashing to its stored hash.
  pub walk_rows-iff-Chain :
      (expect : ℕ) (rs : List Row)
      → (walk_rows o read_back ws [] expect true rs ≡ []) ↔ Chain expect rs
  walk_rows-iff-Chain expect rs = (walk_rows-Chain expect rs, Chain-walk_rows expect rs)
