-- ===== src/Access/Rows.antt =====
-- Facts about references, paths and rows.
use super_ops.Base.{
  ◌≡◌, All, refl, sym, ◌∙◌, ap, subst, Bool, true, false, ◌&&◌, List, [], ◌∷◌, ◌++◌, some, some_inj,
  arith, Bool-cases, inl, inr, ◌⊎◌,
}
use super_ops.Base.Bytes.{str_eq, str_eq→eq, str_eq_refl}
use super_ops.Access.{
  ObjectRef, same_ref, ObjectPath, build_path, has_prefix_path, below, ObjectRow, lock_object,
}

pub both : (a b : Bool) → (a && b) ≡ true → (a ≡ true) × (b ≡ true)
both true b h = (refl, h)
both false b h = absurd (cc h)

pub same_ref_refl : (a : ObjectRef) → same_ref a a ≡ true
unfolding same_ref
same_ref_refl a = ground (arith, str_eq_refl a.kind, str_eq_refl a.id)

pub same_ref→eq : (a b : ObjectRef) → same_ref a b ≡ true → a ≡ b
unfolding same_ref
same_ref→eq a b h =
    let (k, i) = both (str_eq a.kind b.kind) (str_eq a.id b.id) h in
    let p = str_eq→eq a.kind b.kind k in let q = str_eq→eq a.id b.id i in cc

pub same_ref_sym : (a b : ObjectRef) → same_ref a b ≡ false → same_ref b a ≡ false
same_ref_sym a b h = elim (Bool-cases (same_ref b a)) [
  | inr e ↦ e
  | inl e ↦
      let same = subst (λ x. same_ref x b ≡ true) (same_ref→eq b a e) (same_ref_refl b) in
      absurd (cc (same, h))
]

-- A prefix, with what stands below it.
pub has_prefix_path-append : (p s : ObjectPath) → has_prefix_path (p ++ s) p ≡ true
unfolding has_prefix_path
has_prefix_path-append [] s = refl
has_prefix_path-append (o ∷ p) s = ground (arith, same_ref_refl o, has_prefix_path-append p s)

pub prefix_split : (path p : ObjectPath) → has_prefix_path path p ≡ true → path ≡ p ++ below p path
unfolding has_prefix_path below
prefix_split path [] h = refl
prefix_split [] (o ∷ p) h = cc
prefix_split (q ∷ path) (o ∷ p) h =
    let (e, k) = both (same_ref q o) (has_prefix_path path p) h in
    let first = same_ref→eq q o e in let rest = prefix_split path p k in cc

pub below-append : (p s : ObjectPath) → below p (p ++ s) ≡ s
unfolding below
below-append [] s = refl
below-append (o ∷ p) s = below-append p s

pub append_assoc {ℓ} : {A : Type ℓ} (xs ys zs : List A) → (xs ++ ys) ++ zs ≡ xs ++ (ys ++ zs)
append_assoc [] ys zs = refl
append_assoc (x ∷ xs) ys zs = ap (λ l. x ∷ l) (append_assoc xs ys zs)

pub lock_object-ref :
    (ref : ObjectRef) (rs : List ObjectRow) (r : ObjectRow)
    → lock_object ref rs ≡ some r
    → r.ref ≡ ref
unfolding lock_object
lock_object-ref ref [] r h = absurd (cc h)
lock_object-ref ref (x ∷ rs) r h = elim (Bool-cases (same_ref x.ref ref)) [
  | inl e ↦ subst (λ y. y.ref ≡ ref) (some_inj (rw e at h)) (same_ref→eq x.ref ref e)
  | inr e ↦ lock_object-ref ref rs r (rw e at h)
]

pub snoc_inj {ℓ} :
    {A : Type ℓ} (xs ys : List A) (x y : A) → xs ++ x ∷ [] ≡ ys ++ y ∷ [] → (xs ≡ ys) × (x ≡ y)
snoc_inj [] [] x y h = (refl, cc h)
snoc_inj [] (b ∷ []) x y h = absurd (cc h)
snoc_inj [] (b ∷ c ∷ ys) x y h = absurd (cc h)
snoc_inj (a ∷ []) [] x y h = absurd (cc h)
snoc_inj (a ∷ c ∷ xs) [] x y h = absurd (cc h)
snoc_inj (a ∷ xs) (b ∷ ys) x y h = let rest = snoc_inj xs ys x y (cc h) in (cc (h, rest.0), rest.1)

pub snoc_cases {ℓ} :
    {A : Type ℓ} (xs : List A) → (xs ≡ []) ⊎ ((ys : List A) × (y : A) × (xs ≡ ys ++ y ∷ []))
snoc_cases [] = inl refl
snoc_cases (x ∷ xs) = elim (snoc_cases xs) [
  | inl e ↦ inr ([], x, ap (λ l. x ∷ l) e)
  | inr (ys, y, e) ↦ inr (x ∷ ys, y, ap (λ l. x ∷ l) e)
]

-- A path that ends with an object, under a prefix: the prefix is the whole path, or the parent's path is
-- under the prefix too.
pub under_cases :
    (above p b : ObjectPath) (x : ObjectRef)
    → build_path above x ≡ p ++ b
    → (b ≡ []) ⊎ ((b' : ObjectPath) × (b ≡ build_path b' x) × (above ≡ p ++ b'))
under_cases above p b x h = elim (snoc_cases b) [
  | inl e ↦ inl e
  | inr (ys, y, e) ↦
      let eq = subst (λ l. build_path above x ≡ p ++ l) e h ∙ sym (append_assoc p ys (y ∷ [])) in
      let (up, last) = snoc_inj above (p ++ ys) x y eq in
      inr (ys, e ∙ ap (λ z. build_path ys z) (sym last), up)
]

pub prefix_more :
    (q p s : ObjectPath) → has_prefix_path q p ≡ true → has_prefix_path (q ++ s) p ≡ true
prefix_more q p s h =
    let eq = ap (λ l. l ++ s) (prefix_split q p h) ∙ append_assoc p (below p q) s in
    subst (λ l. has_prefix_path l p ≡ true) (sym eq) (has_prefix_path-append p (below p q ++ s))

pub append_nil : (xs : ObjectPath) → xs ++ [] ≡ xs
append_nil [] = refl
append_nil (x ∷ xs) = ap (λ l. x ∷ l) (append_nil xs)

pub prefix_trans :
    (x q p : ObjectPath)
    → has_prefix_path x q ≡ true
    → has_prefix_path q p ≡ true
    → has_prefix_path x p ≡ true
prefix_trans x q p h k =
    subst (λ l. has_prefix_path l p ≡ true) (sym (prefix_split x q h))
      (prefix_more q p (below q x) k)

pub has_prefix_path_refl : (p : ObjectPath) → has_prefix_path p p ≡ true
has_prefix_path_refl p =
    ap (λ l. has_prefix_path l p) (sym (append_nil p)) ∙ has_prefix_path-append p []

-- What holds of every row holds of a row that is looked up.
pub lock_object-All {ℓ} :
    (P : ObjectRow → Type ℓ) (ref : ObjectRef) (rows : List ObjectRow) (r : ObjectRow)
    → All P rows
    → lock_object ref rows ≡ some r
    → P r
unfolding lock_object
lock_object-All P ref [] r all h = absurd (cc h)
lock_object-All P ref (x ∷ rows) r (first, all) h = elim (Bool-cases (same_ref x.ref ref)) [
  | inl e ↦ subst P (some_inj (rw e at h)) first
  | inr e ↦ lock_object-All P ref rows r all (rw e at h)
]
