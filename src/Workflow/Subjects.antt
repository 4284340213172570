-- ===== src/Workflow/Subjects.antt =====
-- `parseSubject` of trigger.go, which reads the workspace and the event out of a subject.
use super_ops.Base.{
  ℕ, ◌≡◌, refl, sym, ◌∙◌, ap, false, List, [], ◌∷◌, ◌++◌, Option, none, some, some_inj, ◌==◌,
  ==_iff, if◌then◌else◌, Bool-cases, inl, inr,
}
use super_ops.Base.Bytes.{codes, str_eq, str_eq→eq}
use super_ops.Workflow.{Bytes}

abbrev pub onto_first : ℕ → List Bytes → List Bytes
onto_first c [] = (c ∷ []) ∷ []
onto_first c (part ∷ parts) = (c ∷ part) ∷ parts

-- `strings.Split(s, ".")`.
unfoldable pub split : Bytes → List Bytes
split [] = [] ∷ []
split (c ∷ cs) = if c == b'.' then [] ∷ split cs else onto_first c (split cs)

-- `strings.Join(parts, ".")`.
unfoldable pub join : List Bytes → Bytes
join [] = []
join (part ∷ []) = part
join (part ∷ part' ∷ parts) = part ++ b'.' ∷ join (part' ∷ parts)

abbrev pub superops : Bytes
superops = codes "superops"

-- At least four parts, the first being "superops".
abbrev pub of_parts : List Bytes → Option (Bytes × Bytes)
of_parts (root ∷ workspace ∷ resource ∷ action ∷ parts) =
    if str_eq root superops then some (workspace, join (resource ∷ action ∷ parts)) else none
of_parts parts = none

unfoldable pub parse_subject : Bytes → Option (Bytes × Bytes)
unfolding split join
parse_subject subject = of_parts (split subject)

abbrev pub NoDot : Bytes → Type 0
NoDot [] = Unit
NoDot (c ∷ cs) = ((c == b'.') ≡ false) × NoDot cs

abbrev pub HasDot : Bytes → Type 0
HasDot cs = (before : Bytes) × (after : Bytes) × NoDot before × (cs ≡ before ++ b'.' ∷ after)

join-onto_first : (c : ℕ) (parts : List Bytes) → join (onto_first c parts) ≡ c ∷ join parts
unfolding join
join-onto_first c [] = refl
join-onto_first c (part ∷ []) = refl
join-onto_first c (part ∷ part' ∷ parts) = refl

split-cons : (s : Bytes) → (part : Bytes) × (parts : List Bytes) × (split s ≡ part ∷ parts)
unfolding split
split-cons [] = ([], [], refl)
split-cons (c ∷ cs) = elim (Bool-cases (c == b'.')) [
  | inl e ↦ ([], split cs, rw e)
  | inr e ↦ let (part, parts, h) = split-cons cs in (c ∷ part, parts, rw (e, h))
]

join-dot : (cs : Bytes) → join ([] ∷ split cs) ≡ b'.' ∷ join (split cs)
unfolding join
join-dot cs = let (part, parts, h) = split-cons cs in rw h

join-split : (s : Bytes) → join (split s) ≡ s
unfolding split join
join-split [] = refl
join-split (c ∷ cs) = elim (Bool-cases (c == b'.')) [
  | inl e ↦ rw (e, join-dot cs, join-split cs) (ap (λ d. d ∷ cs) (sym ((==_iff c b'.').0 e)))
  | inr e ↦ rw (e, join-onto_first c (split cs), join-split cs)
]

split-append : (w rest : Bytes) → NoDot w → split (w ++ b'.' ∷ rest) ≡ w ∷ split rest
unfolding split
split-append [] rest n = refl
split-append (c ∷ w) rest n = rw (n.0, split-append w rest n.1)

split-two :
    (before after : Bytes)
    → NoDot before
    → (r a : Bytes) × (parts : List Bytes) × (split (before ++ b'.' ∷ after) ≡ r ∷ a ∷ parts)
split-two before after n =
    let (a, parts, h) = split-cons after in (before, a, parts, split-append before after n ∙ rw h)

superops-NoDot : NoDot superops
superops-NoDot = (refl, (refl, (refl, (refl, (refl, (refl, (refl, (refl, tt))))))))

of_parts-split :
    (workspace event r a : Bytes) (parts : List Bytes)
    → split event ≡ r ∷ a ∷ parts
    → of_parts (superops ∷ workspace ∷ split event) ≡ some (workspace, event)
unfolding str_eq
of_parts-split workspace event r a parts h =
    rw h (ap (λ e. some (workspace, e)) (ap join (sym h) ∙ join-split event))

-- A subject made of "superops", a workspace without a dot and an event of two or more words is read
-- as that workspace and that event.
pub parse_subject-append :
    (workspace event : Bytes)
    → NoDot workspace
    → HasDot event
    → parse_subject (superops ++ b'.' ∷ (workspace ++ b'.' ∷ event)) ≡ some (workspace, event)
unfolding parse_subject
parse_subject-append workspace event n (before, after, m, e) =
    let (r, a, parts, h) = split-two before after m in
    rw
      (
        split-append superops (workspace ++ b'.' ∷ event) superops-NoDot,
        split-append workspace event n,
      )
      (of_parts-split workspace event r a parts (ap split e ∙ h))

-- What `parseSubject` reads is all of the subject: it is "superops", the workspace and the event,
-- with dots between.
pub parse_subject_sound :
    (subject workspace event : Bytes)
    → parse_subject subject ≡ some (workspace, event)
    → subject ≡ superops ++ b'.' ∷ (workspace ++ b'.' ∷ event)
unfolding parse_subject join
parse_subject_sound subject workspace event h = sym (join-split subject) ∙ go (split subject) h
  where
    go :
        (parts : List Bytes)
        → of_parts parts ≡ some (workspace, event)
        → join parts ≡ superops ++ b'.' ∷ (workspace ++ b'.' ∷ event)
    go [] h = absurd (cc h)
    go (a ∷ []) h = absurd (cc h)
    go (a ∷ b ∷ []) h = absurd (cc h)
    go (a ∷ b ∷ c ∷ []) h = absurd (cc h)
    go (a ∷ b ∷ c ∷ d ∷ parts) h = elim (Bool-cases (str_eq a superops)) [
      | inr e ↦ absurd (cc (rw e at h))
      | inl e ↦
          ap (λ s. s ++ b'.' ∷ (b ++ b'.' ∷ join (c ∷ d ∷ parts))) (str_eq→eq a superops e)
          ∙ ap (λ p. superops ++ b'.' ∷ (p.0 ++ b'.' ∷ p.1)) (some_inj (rw e at h))
    ]
