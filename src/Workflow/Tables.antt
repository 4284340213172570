-- ===== src/Workflow/Tables.antt =====
-- The table of effects, pointwise: which entries have succeeded after each operation.
use super_ops.Base.{
  ℕ, ◌≡◌, refl, Bool, true, false, ◌||◌, ◌&&◌, not, Option, none, some, ◌==◌, ==_refl, ◌⊎◌, inl,
  inr, arith, if◌then◌else◌, eq_or_ne,
}
use super_ops.Workflow.{
  EffectStatus, Effects, claimed, succeeded, failed, set_effect, claim_effect, fail_effect,
  record_effect_result,
}

abbrev pub is_succeeded : Option EffectStatus → Bool
is_succeeded none = false
is_succeeded (some claimed) = false
is_succeeded (some failed) = false
is_succeeded (some succeeded) = true

pub claim_effect-cases :
    (i : ℕ) (es : Effects)
    → ((is_succeeded (es i) ≡ true) × (claim_effect i es ≡ (false, es)))
      ⊎ ((is_succeeded (es i) ≡ false) × (claim_effect i es ≡ (true, set_effect i claimed es)))
unfolding claim_effect
claim_effect-cases i es = go (es i) refl
  where
    go :
        (o : Option EffectStatus)
        → es i ≡ o
        → ((is_succeeded (es i) ≡ true) × (claim_effect i es ≡ (false, es)))
          ⊎ ((is_succeeded (es i) ≡ false) × (claim_effect i es ≡ (true, set_effect i claimed es)))
    go none e = inr (rw e, rw (claim_effect, e))
    go (some claimed) e = inr (rw e, rw (claim_effect, e))
    go (some failed) e = inr (rw e, rw (claim_effect, e))
    go (some succeeded) e = inl (rw e, rw (claim_effect, e))

pub set_effect-at :
    (i j : ℕ) (s : EffectStatus) (es : Effects)
    → is_succeeded (set_effect i s es j)
      ≡ (if j == i then is_succeeded (some s) else is_succeeded (es j))
set_effect-at i j s es = go (j == i) refl
  where
    go :
        (b : Bool)
        → (j == i) ≡ b
        → is_succeeded (set_effect i s es j)
          ≡ (if j == i then is_succeeded (some s) else is_succeeded (es j))
    go true e = rw e
    go false e = rw e

pub record-claimed :
    (i j : ℕ) (es : Effects)
    → is_succeeded (record_effect_result i (set_effect i claimed es) j)
      ≡ (j == i || is_succeeded (es j))
unfolding record_effect_result
record-claimed i j es = ground (
  arith,
  ==_refl i,
  set_effect-at i j succeeded (set_effect i claimed es),
  set_effect-at i j claimed es,
)

pub fail-claimed :
    (i j : ℕ) (es : Effects)
    → is_succeeded (fail_effect i (set_effect i claimed es) j)
      ≡ (not (j == i) && is_succeeded (es j))
unfolding fail_effect
fail-claimed i j es = ground (
  arith,
  ==_refl i,
  set_effect-at i j failed (set_effect i claimed es),
  set_effect-at i j claimed es,
)

pub claimed-keeps :
    (i j : ℕ) (es : Effects)
    → is_succeeded (es i) ≡ false
    → is_succeeded (set_effect i claimed es j) ≡ is_succeeded (es j)
claimed-keeps i j es h = elim (eq_or_ne j i) [
  | inl e ↦ ground (arith, set_effect-at i i claimed es, ==_refl i)
  | inr n ↦ ground (arith, set_effect-at i j claimed es)
]

pub failed-keeps :
    (i j : ℕ) (es : Effects)
    → is_succeeded (es i) ≡ false
    → is_succeeded (fail_effect i (set_effect i claimed es) j) ≡ is_succeeded (es j)
failed-keeps i j es h = elim (eq_or_ne j i) [
  | inl e ↦ ground (arith, fail-claimed i i es, ==_refl i)
  | inr n ↦ ground (arith, fail-claimed i j es)
]
