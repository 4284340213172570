-- ===== src/Audit/Tamper.antt =====
-- backend/internal/audit: what a verified head vouches for. Two row lists that verify and end in one hash
-- hold the same contents, or two rows at one place in them were hashed from different texts to the
-- same SHA-256.
use super_ops.Base.{
  ℕ, suc, ◌+◌, ◌≡◌, ◌≢◌, ◌⊎◌, inl, inr, true, false, List, [], ◌∷◌, ◌++◌, arith, length, sym, ◌∙◌,
  ap,
}
use super_ops.Base.Bytes.{str_eq, str_eq-cases, str_eq_refl, append_split}
use super_ops.Audit.{Bytes, StoredEntry, Row, Outside}
use super_ops.Audit.Encoding.{canonical, chain_hash}
use super_ops.Audit.Injective.{SameContent, canonical-SameContent}
use super_ops.Audit.Verify.{scan, walk_rows}
use super_ops.Audit.Intact.{Linked, HashesRight, walk_rows-iff-Chain}

-- SHA-256 returns 32 bytes.
abbrev pub IsDigest : Outside → Type 0
IsDigest o = (x : Bytes) → length (o.sha256 x) ≡ 32

abbrev pub last_hash : Bytes → List Row → Bytes
last_hash p [] = p
last_hash p (r ∷ rs) = last_hash r.hash rs

str_eq-ne : (x y : Bytes) → str_eq x y ≡ false → x ≢ y
str_eq-ne x y h e = cc (h, str_eq_refl y, ap (λ z. str_eq z y) e)

module _ (o : Outside) (read_back : StoredEntry → StoredEntry) (ws : Bytes) where
  abbrev pub SameRows : List Row → List Row → Type 0
  SameRows [] [] = Unit {0}
  SameRows [] (r ∷ rs) = ⊥
  SameRows (r ∷ rs) [] = ⊥
  SameRows (r ∷ rs) (q ∷ qs) =
      SameContent o (scan o read_back ws r) (scan o read_back ws q) × SameRows rs qs

  -- The text that a row is hashed from when it is verified.
  abbrev pub hashed : Row → Bytes
  hashed r = r.prev_hash ++ canonical o (scan o read_back ws r)

  -- At some place, the two rows have different texts with one SHA-256.
  abbrev pub CollidesIn : List Row → List Row → Type 0
  CollidesIn [] qs = ⊥
  CollidesIn (r ∷ rs) [] = ⊥
  CollidesIn (r ∷ rs) (q ∷ qs) =
      ((hashed r ≢ hashed q) × (o.sha256 (hashed r) ≡ o.sha256 (hashed q))) ⊎ CollidesIn rs qs

  -- Two texts with one digest are equal, or collide.
  same_text :
      (x y : Bytes) → o.sha256 x ≡ o.sha256 y → (x ≡ y) ⊎ ((x ≢ y) × (o.sha256 x ≡ o.sha256 y))
  same_text x y e = elim (str_eq-cases x y) [ inl q ↦ inl q | inr n ↦ inr (str_eq-ne x y n, e) ]

  row-agree :
      (r q : Row)
      → length r.prev_hash ≡ length q.prev_hash
      → HashesRight o read_back ws r
      → HashesRight o read_back ws q
      → r.hash ≡ q.hash
      → ((r.prev_hash ≡ q.prev_hash)
          × SameContent o (scan o read_back ws r) (scan o read_back ws q))
        ⊎ ((hashed r ≢ hashed q) × (o.sha256 (hashed r) ≡ o.sha256 (hashed q)))
  unfolding chain_hash
  row-agree r q l h k e = elim (same_text (hashed r) (hashed q) (h ∙ e ∙ sym k)) [
    | inr c ↦ inr c
    | inl same ↦
        let (prev, content) = append_split r.prev_hash q.prev_hash _ _ l same in
        inl (prev, canonical-SameContent o _ _ content)
  ]

  digest-length : IsDigest o → (r : Row) → HashesRight o read_back ws r → length r.hash ≡ 32
  unfolding chain_hash
  digest-length d r h = sym (ap length h) ∙ d _

  Linked-agree :
      IsDigest o
      → (s t : ℕ) (p q : Bytes) (rs qs : List Row) → Linked o read_back ws s p rs
      → Linked o read_back ws t q qs
      → length rs ≡ length qs
      → length p ≡ length q
      → last_hash p rs ≡ last_hash q qs
      → ((p ≡ q) × SameRows rs qs) ⊎ CollidesIn rs qs
  Linked-agree d s t p q [] [] l k n m e = inl (e, tt)
  Linked-agree d s t p q [] (y ∷ qs) l k n m e = absurd (omega arith)
  Linked-agree d s t p q (x ∷ rs) [] l k n m e = absurd (omega arith)
  Linked-agree d s t p q (x ∷ rs) (y ∷ qs) (a, b, c, l) (a', b', c', k) n m e =
      elim (Linked-agree d (x.entry.chain_seq + 1) (y.entry.chain_seq + 1) x.hash y.hash rs qs l k
        (omega arith) (digest-length d x c ∙ sym (digest-length d y c')) e) [
          | inr bad ↦ inr (inr bad)
          | inl (h, same) ↦ elim (row-agree x y (ap length b ∙ m ∙ sym (ap length b')) c c' h) [
            | inr bad ↦ inr (inl bad)
            | inl (prev, content) ↦ inl (sym b ∙ prev ∙ b', (content, same))
          ]
        ]

  -- Two row lists of one length on which the walk reports no break, with stored hashes of one length
  -- before them and one hash at their ends, hold the same fields row by row; otherwise there is a place
  -- where the two rows' own texts, each its stored hash before it and its fields, differ and have the
  -- same SHA-256.
  pub verified_agree :
      IsDigest o
      → (s t : ℕ) (x y : Row) (rs qs : List Row) → walk_rows o read_back ws [] s true (x ∷ rs) ≡ []
      → walk_rows o read_back ws [] t true (y ∷ qs) ≡ []
      → length rs ≡ length qs
      → length x.prev_hash ≡ length y.prev_hash
      → last_hash x.hash rs ≡ last_hash y.hash qs
      → SameRows (x ∷ rs) (y ∷ qs) ⊎ CollidesIn (x ∷ rs) (y ∷ qs)
  verified_agree d s t x y rs qs v w n m e =
      let l = (walk_rows-iff-Chain o read_back ws s (x ∷ rs)).0 v in
      let k = (walk_rows-iff-Chain o read_back ws t (y ∷ qs)).0 w in
      elim (Linked-agree d s t x.prev_hash y.prev_hash (x ∷ rs) (y ∷ qs) l k (ap suc n) m e) [
        | inl (_, same) ↦ inl same
        | inr c ↦ inr c
      ]
