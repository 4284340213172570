-- ===== src/Inbox/Prefs.antt =====
-- backend/internal/inbox/prefs.go: the ladder of preferences, and which kinds and types are accepted.
use super_ops.Base.{
  ℕ, Bool, true, false, ◌&&◌, ◌||◌, List, [], ◌∷◌, ◌++◌, Option, none, some, length, leb, ◌==◌,
  if◌then◌else◌,
}
use super_ops.Base.Bytes.{codes, str_eq}
use super_ops.Inbox.{Bytes}

pub data EmailMode : Type 0 where
  never digest immediate : EmailMode

pub record Pref : Type 0 where
  pub in_app : Bool
  pub push : Bool
  pub email : EmailMode

abbrev pub default_pref : Pref
default_pref = record { in_app = true; push = true; email = digest }

-- One user's rows of notification_prefs, by their kind.
abbrev pub PrefRows : Type 0
PrefRows = List (Bytes × Pref)

unfoldable pub pref_of : Bytes → PrefRows → Option Pref
unfolding str_eq
pref_of kind [] = none
pref_of kind ((k, p) ∷ rows) =
    let rest = pref_of kind rows in if str_eq k kind then some p else rest

-- `strings.Cut` at the first dot: what is before it.
unfoldable pub resource_of : Bytes → Option Bytes
resource_of [] = none
resource_of (c ∷ cs) =
    let rest = resource_of cs in
    if c == b'.' then some [] else elim rest [ none ↦ none | some r ↦ some (c ∷ r) ]

abbrev pub or_else : Option Pref → Option Pref → Option Pref
or_else none q = q
or_else (some p) q = some p

abbrev pub of_resource : Option Bytes → PrefRows → Option Pref
of_resource none rows = none
of_resource (some resource) rows = pref_of (resource ++ codes ".*") rows

abbrev pub or_default : Option Pref → Pref
or_default none = default_pref
or_default (some p) = p

-- `Resolve`: the exact kind, its resource, the wildcard, the default.
unfoldable pub resolve_pref : PrefRows → Bytes → Pref
unfolding pref_of resource_of
resolve_pref rows kind = or_default (
    or_else (pref_of kind rows)
      (or_else (of_resource (resource_of kind) rows) (pref_of (codes "*") rows)))

-- `validSegment` and `validObjectType`, up to a length.
abbrev pub is_lower : ℕ → Bool
is_lower c = leb b'a' c && leb c b'z'

abbrev pub is_tail : ℕ → Bool
is_tail c = is_lower c || ((leb b'0' c && leb c b'9') || c == b'_')

unfoldable pub all_tail : Bytes → Bool
all_tail [] = true
all_tail (c ∷ cs) = is_tail c && all_tail cs

unfoldable pub valid_word : ℕ → Bytes → Bool
unfolding all_tail
valid_word limit [] = false
valid_word limit (c ∷ cs) = leb (length (c ∷ cs)) limit && (is_lower c && all_tail cs)

abbrev pub valid_segment : Bytes → Bool
valid_segment s = valid_word 24 s

abbrev pub valid_object_type : Bytes → Bool
valid_object_type s = valid_word 32 s

-- `strings.Cut` at the first dot: what is after it.
unfoldable pub verb_of : Bytes → Option Bytes
verb_of [] = none
verb_of (c ∷ cs) = let rest = verb_of cs in if c == b'.' then some cs else rest

unfoldable pub valid_parts : Option Bytes → Option Bytes → Bool
unfolding valid_word
valid_parts none verb = false
valid_parts (some resource) none = false
valid_parts (some resource) (some verb) = valid_segment resource && valid_segment verb

-- `ValidKind`.
unfoldable pub valid_kind : Bytes → Bool
unfolding resource_of verb_of valid_parts
valid_kind kind = valid_parts (resource_of kind) (verb_of kind)
