-- ===== src/Access/Paths.antt =====
-- object.go, the text of a path: the prefixes of the text are those of the list of references.
use super_ops.Base.{
  ℕ, ◌≡◌, ◌≢◌, refl, sym, ◌∙◌, ap, Bool, true, false, ◌&&◌, [], ◌∷◌, ◌++◌, All, ◌==◌, arith,
}
use super_ops.Base.Bytes.{str_eq}
use super_ops.Access.{Bytes, ObjectRef, same_ref, ObjectPath, has_prefix_path}

-- `pathSegment`.
abbrev pub path_segment : ObjectRef → Bytes
path_segment o = o.kind ++ b':' ∷ o.id

-- The text that `buildPath` builds up, from the workspace's segment on.
unfoldable pub render : ObjectPath → Bytes
render [] = b'/' ∷ []
render (o ∷ os) = b'/' ∷ path_segment o ++ render os

-- `hasPrefixPath`, which is `strings.HasPrefix`.
unfoldable pub has_prefix : Bytes → Bytes → Bool
has_prefix s [] = true
has_prefix [] (c ∷ cs) = false
has_prefix (x ∷ xs) (c ∷ cs) = x == c && has_prefix xs cs

abbrev pub Lacks : ℕ → Bytes → Type 0
Lacks c s = All (λ x. x ≢ c) s

-- What the checks on types and ids leave: no slash in a type or an id, and no colon in a type.
abbrev pub IsSegment : ObjectRef → Type 0
IsSegment o = Lacks b':' o.kind × Lacks b'/' (path_segment o)

-- Words that end at one delimiter are compared before what follows.
has_prefix_word :
    (c : ℕ) (a b s t : Bytes)
    → Lacks c a
    → Lacks c b
    → has_prefix (a ++ c ∷ s) (b ++ c ∷ t) ≡ (str_eq a b && has_prefix s t)
unfolding has_prefix str_eq
has_prefix_word c [] [] s t h k = ground arith
has_prefix_word c [] (y ∷ b) s t h (k, ks) = ground arith
has_prefix_word c (x ∷ a) [] s t (h, hs) k = ground arith
has_prefix_word c (x ∷ a) (y ∷ b) s t (h, hs) (k, ks) =
    let rest = has_prefix_word c a b s t hs ks in ground (arith, rest)

str_eq_word :
    (c : ℕ) (a b s t : Bytes)
    → Lacks c a
    → Lacks c b
    → str_eq (a ++ c ∷ s) (b ++ c ∷ t) ≡ (str_eq a b && str_eq s t)
unfolding str_eq
str_eq_word c [] [] s t h k = ground arith
str_eq_word c [] (y ∷ b) s t h (k, ks) = ground arith
str_eq_word c (x ∷ a) [] s t (h, hs) k = ground arith
str_eq_word c (x ∷ a) (y ∷ b) s t (h, hs) (k, ks) =
    let rest = str_eq_word c a b s t hs ks in ground (arith, rest)

-- Behind the first slash of a path.
abbrev body : ObjectPath → Bytes
body [] = []
body (o ∷ os) = path_segment o ++ render os

render_eq : (p : ObjectPath) → render p ≡ b'/' ∷ body p
unfolding render
render_eq [] = refl
render_eq (o ∷ os) = refl

-- Behind the slash that both begin with.
render-body : (p q : ObjectPath) → has_prefix (render p) (render q) ≡ has_prefix (body p) (body q)
unfolding has_prefix
render-body p q = rw (render_eq p) (rw (render_eq q) (ground arith))

nothing_before : (a t s : Bytes) (c : ℕ) → has_prefix [] ((a ++ c ∷ t) ++ s) ≡ false
unfolding has_prefix
nothing_before [] t s c = refl
nothing_before (x ∷ a) t s c = refl

segments :
    (x o : ObjectRef) (p q : ObjectPath)
    → IsSegment x
    → IsSegment o
    → has_prefix (body (x ∷ p)) (body (o ∷ q)) ≡ (same_ref x o && has_prefix (body p) (body q))
unfolding same_ref
segments x o p q (kx, sx) (ko, so) = rw (render_eq p) (
    rw (render_eq q) (
      has_prefix_word b'/' (path_segment x) (path_segment o) (body p) (body q) sx so
      ∙ ap (λ b. b && has_prefix (body p) (body q))
          (str_eq_word b':' x.kind o.kind x.id o.id kx ko)))

-- A path's text begins with another's exactly when its references do, for references without a slash,
-- and without a colon in the type.
pub render-has_prefix_path :
    (p q : ObjectPath)
    → All IsSegment p
    → All IsSegment q
    → has_prefix (render p) (render q) ≡ has_prefix_path p q
unfolding has_prefix_path has_prefix
render-has_prefix_path p [] h k = render-body p []
render-has_prefix_path [] (o ∷ q) h k =
    render-body [] (o ∷ q) ∙ nothing_before o.kind o.id (render q) b':'
render-has_prefix_path (x ∷ p) (o ∷ q) (h, hs) (k, ks) =
    let rest = sym (render-body p q) ∙ render-has_prefix_path p q hs ks in
    render-body (x ∷ p) (o ∷ q) ∙ segments x o p q h k ∙ ap (λ b. same_ref x o && b) rest
