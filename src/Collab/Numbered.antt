-- ===== src/Collab/Numbered.antt =====
-- Edits with the numbers that they are given, and what the queries make of them.
use super_ops.Base.{
  ℕ, zero, suc, ◌+◌, ◌-◌, ◌≤◌, ◌≡◌, refl, ap, ◌∙◌, List, [], ◌∷◌, ◌++◌, some, length, ltb, arith,
  Bool-cases, inl, inr,
}
use super_ops.Base.Slices.{take, drop, drop-nil}
use super_ops.Collab.{Bytes, Update, insert_update, updates_after, drop_through, furthest}

-- An edit, as it was appended.
pub record Edit : Type 0 where
  pub actor_id : Bytes
  pub payload : Bytes

abbrev pub entry : ℕ → Edit → Update
entry seq e = record { seq = seq; actor_id = e.actor_id; payload = e.payload }

-- Edits with the numbers that follow n.
abbrev pub numbered : ℕ → List Edit → List Update
numbered n [] = []
numbered n (e ∷ es) = entry (suc n) e ∷ numbered (suc n) es

pub insert_update-last :
    (n : ℕ) (es : List Edit) (e : Edit) (seq : ℕ)
    → seq ≡ suc (n + length es)
    → insert_update (entry seq e) (numbered n es) ≡ some (numbered n (es ++ e ∷ []))
unfolding insert_update
insert_update-last n [] e seq h =
    let same : seq ≡ suc n = omega arith in ap (λ k. some (entry k e ∷ [])) same
insert_update-last n (x ∷ es) e seq h =
    let rest = insert_update-last (suc n) es e seq (omega arith) in ground (arith, rest)

pub updates_after-numbered_all :
    (t n : ℕ) (es : List Edit) → t ≤ n → updates_after t (numbered n es) ≡ numbered n es
unfolding updates_after
updates_after-numbered_all t n [] h = refl
updates_after-numbered_all t n (e ∷ es) h =
    ground (arith, updates_after-numbered_all t (suc n) es (omega arith))

pub updates_after-numbered :
    (t n : ℕ) (es : List Edit)
    → n ≤ t
    → updates_after t (numbered n es) ≡ numbered t (drop (t - n) es)
unfolding updates_after
updates_after-numbered t n [] h = rw (drop-nil {A = Edit} (t - n))
updates_after-numbered t n (e ∷ es) h = elim (Bool-cases (ltb t (suc n))) [
  | inl now ↦
      let same : n ≡ t = ground arith in
      let none_left : t - n ≡ 0 = omega arith in
      rw (now, none_left)
        (ap (◌∷◌ (entry (suc n) e)) (updates_after-numbered_all t (suc n) es (omega arith))
          ∙ ap (λ k. numbered k (e ∷ es)) same)
  | inr later ↦
      let more : t - n ≡ suc (t - suc n) = ground arith in
      rw (later, more) (updates_after-numbered t (suc n) es (ground arith))
]

pub take-numbered : (k n : ℕ) (es : List Edit) → take k (numbered n es) ≡ numbered n (take k es)
take-numbered zero n es = refl
take-numbered (suc k) n [] = refl
take-numbered (suc k) n (e ∷ es) = ap (◌∷◌ (entry (suc n) e)) (take-numbered k (suc n) es)

pub length-numbered : (n : ℕ) (es : List Edit) → length (numbered n es) ≡ length es
length-numbered n [] = refl
length-numbered n (e ∷ es) = ap suc (length-numbered (suc n) es)

-- The list is in the order of the numbers, so what is dropped is a prefix.
pub drop_through-numbered :
    (s n : ℕ) (es : List Edit)
    → n ≤ s
    → drop_through (numbered n es) s ≡ numbered s (drop (s - n) es)
unfolding drop_through
drop_through-numbered s n [] h = rw (drop-nil {A = Edit} (s - n))
drop_through-numbered s n (e ∷ es) h = elim (Bool-cases (ltb s (suc n))) [
  | inl now ↦
      let same : n ≡ s = ground arith in
      let none_left : s - n ≡ 0 = omega arith in
      rw (now, none_left) (ap (λ k. numbered k (e ∷ es)) same)
  | inr later ↦
      let more : s - n ≡ suc (s - suc n) = ground arith in
      rw (later, more) (drop_through-numbered s (suc n) es (ground arith))
]

pub furthest-numbered :
    (t n : ℕ) (es : List Edit) → t ≡ n → furthest t (numbered n es) ≡ n + length es
unfolding furthest
furthest-numbered t n [] h = omega arith
furthest-numbered t n (e ∷ es) h = ground (arith, furthest-numbered (suc n) (suc n) es refl)
