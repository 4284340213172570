-- ===== src/Base/Slices.antt =====
-- The front and the rest of a list, by a native number, under the library's names.
use Prim.Native.Nat.{ℕ, zero, suc, ◌+◌, ◌-◌, ◌≤◌, min}
use mathlib.Core.Path.{◌≡◌, refl, ap, sym}
use mathlib.Core.List.{List, [], ◌∷◌, ◌++◌}
use native.Mathlib.Nat.{zero-add, suc-add}
use native.Mathlib.Omega.{arith}
use super_ops.Base.Lists.{length}
use super_ops.Base.Tests.{ltb, if◌then◌else◌}

module _ {ℓ} {A : Type ℓ} where
  abbrev pub take : ℕ → List A → List A
  take zero xs = []
  take (suc n) [] = []
  take (suc n) (x ∷ xs) = x ∷ take n xs

  abbrev pub drop : ℕ → List A → List A
  drop zero xs = xs
  drop (suc n) [] = []
  drop (suc n) (x ∷ xs) = drop n xs

  pub drop-nil : (n : ℕ) → drop n [] ≡ []
  drop-nil zero = refl
  drop-nil (suc n) = refl

  pub take_all : (n : ℕ) (xs : List A) → length xs ≤ n → take n xs ≡ xs
  take_all zero [] h = refl
  take_all zero (x ∷ xs) h = absurd (omega arith)
  take_all (suc n) [] h = refl
  take_all (suc n) (x ∷ xs) h = ap (◌∷◌ x) (take_all n xs (omega arith))

  pub take-append : (n : ℕ) (xs ys : List A) → n ≤ length xs → take n (xs ++ ys) ≡ take n xs
  take-append zero xs ys h = refl
  take-append (suc n) [] ys h = absurd (omega arith)
  take-append (suc n) (x ∷ xs) ys h = ap (◌∷◌ x) (take-append n xs ys (omega arith))

  pub drop-append : (n : ℕ) (xs ys : List A) → n ≤ length xs → drop n (xs ++ ys) ≡ drop n xs ++ ys
  drop-append zero xs ys h = refl
  drop-append (suc n) [] ys h = absurd (omega arith)
  drop-append (suc n) (x ∷ xs) ys h = drop-append n xs ys (omega arith)

  pub take-take-drop : (n k : ℕ) (xs : List A) → take n xs ++ take k (drop n xs) ≡ take (n + k) xs
  take-take-drop zero zero xs = refl
  take-take-drop zero (suc k) xs = rw (zero-add (suc k))
  take-take-drop (suc n) zero [] = rw (suc-add n 0)
  take-take-drop (suc n) (suc k) [] = rw (suc-add n (suc k))
  take-take-drop (suc n) k (x ∷ xs) = rw (suc-add n k) (ap (◌∷◌ x) (take-take-drop n k xs))

  pub drop-drop : (n k : ℕ) (xs : List A) → drop k (drop n xs) ≡ drop (n + k) xs
  drop-drop zero k xs = rw (zero-add k)
  drop-drop (suc n) k [] = rw (drop-nil k, drop-nil (suc n + k))
  drop-drop (suc n) k (x ∷ xs) = rw (suc-add n k) (drop-drop n k xs)

  pub length-drop : (n : ℕ) (xs : List A) → length (drop n xs) ≡ length xs - n
  length-drop zero xs = omega arith
  length-drop (suc n) [] = omega arith
  length-drop (suc n) (x ∷ xs) = omega (arith, length-drop n xs)

  pub length-take : (n : ℕ) (xs : List A) → length (take n xs) ≡ min n (length xs)
  length-take zero xs = omega arith
  length-take (suc n) [] = omega arith
  length-take (suc n) (x ∷ xs) = omega (arith, length-take n xs)

  -- The page that is answered, and whether there is more.
  pub page-take :
      (limit : ℕ) (xs : List A)
      → (if ltb limit (length (take (limit + 1) xs))
          then take limit (take (limit + 1) xs)
          else take (limit + 1) xs)
        ≡ take limit xs
  page-take zero [] = refl
  page-take zero (x ∷ xs) = refl
  page-take (suc limit) [] = ground arith
  page-take (suc limit) (x ∷ xs) = ground (arith, page-take limit xs)

  pub has_more-length :
      (limit : ℕ) (xs : List A) → ltb limit (length (take (limit + 1) xs)) ≡ ltb limit (length xs)
  has_more-length limit xs = ground (arith, length-take (limit + 1) xs)

  -- A slice of a history is one of each longer history.
  pub take_within : (k : ℕ) (xs z : List A) → take k xs ≡ take (length (take k xs)) (xs ++ z)
  take_within zero xs z = refl
  take_within (suc k) [] z = refl
  take_within (suc k) (x ∷ xs) z = ap (◌∷◌ x) (take_within k xs z)

  pub slice_within :
      (k b : ℕ) (h z : List A)
      → take k (drop b h) ≡ take (length (take k (drop b h))) (drop b (h ++ z))
  slice_within k zero h z = take_within k h z
  slice_within zero (suc b) [] z = refl
  slice_within (suc k) (suc b) [] z = refl
  slice_within k (suc b) (x ∷ h) z = slice_within k b h z

  pub take-nil : (n : ℕ) → ◌≡◌ {A = List A} (take n []) []
  take-nil zero = refl
  take-nil (suc n) = refl

  pub drop-take : (j k : ℕ) (xs : List A) → drop j (take k xs) ≡ take (k - j) (drop j xs)
  drop-take zero k xs = let same : k - 0 ≡ k = omega arith in rw same
  drop-take (suc j) zero xs = let nothing : 0 - suc j ≡ 0 = omega arith in rw nothing
  drop-take (suc j) (suc k) [] = sym (take-nil (suc k - suc j))
  drop-take (suc j) (suc k) (x ∷ xs) =
      let same : suc k - suc j ≡ k - j = omega arith in rw same (drop-take j k xs)
