-- ===== src/Audit/Tests.antt =====
-- A small log, and the theorems at it. The stand-in for SHA-256 returns 32 zeros.
use super_ops.Base.{
  ℕ, zero, suc, ◌+◌, ◌*◌, ◌/◌, ◌≡◌, refl, ◌⊎◌, true, false, ◌&&◌, ◌||◌, [], ◌∷◌, arith, some, none,
  leb, ◌==◌, if◌then◌else◌, Bool,
}
use super_ops.Base.Bytes.{codes, str_eq}
use super_ops.Audit.{Bytes, Entry, StoredEntry, Row, Outside}
use super_ops.Audit.Encoding.{decimal, length_prefixed, canonical, canonical_json}
use super_ops.Audit.Injective.{length_prefixed-injective, SameContent, canonical-SameContent}
use super_ops.Audit.Chain.{Log, Fresh, new_log, write_chained, chained_row}
use super_ops.Audit.Verify.{take, walk_rows, verify}
use super_ops.Audit.Intact.{Chain, walk_rows-iff-Chain}
use super_ops.Audit.Written.{
  ReadsBack, IsWellFormed, Step, History, History-IsWellFormed, History-is_ok,
}
use super_ops.Audit.Tamper.{IsDigest, CollidesIn, SameRows, verified_agree}
use super_ops.Audit.Limits.{truncated-is_ok}

eleven : decimal 110 ≡ codes "110"
unfolding decimal
eleven = refl

two_parts : length_prefixed (codes "a|b" ∷ codes "" ∷ []) ≡ codes "3:a|b|0:"
unfolding length_prefixed decimal
two_parts = refl

abbrev zeros : ℕ → Bytes
zeros zero = []
zeros (suc n) = 0 ∷ zeros n

-- The stand-in for SHA-256 is the sum of the bytes, on 32 bytes; re-encoding drops the spaces.
abbrev sum : Bytes → ℕ
sum [] = 0
sum (b ∷ bs) = b + sum bs

abbrev lower_byte : ℕ → ℕ
lower_byte c = if leb b'A' c && leb c b'Z' then c + 32 else c

unfoldable lower : Bytes → Bytes
lower [] = []
lower (c ∷ cs) = lower_byte c ∷ lower cs

unfoldable no_spaces : Bytes → Bytes
no_spaces [] = []
no_spaces (c ∷ cs) = let rest = no_spaces cs in if c == b' ' then rest else c ∷ rest

abbrev stand_in : Outside
stand_in = record {
  sha256 = λ x. sum x ∷ zeros 31;
  reencode = λ x. some (no_spaces x);
  format_time = decimal;
  to_lower = lower;
  normalize_ip = lower;
  marker = λ n ks. none;
}

-- The columns put a space in front of a document that is not empty.
abbrev spelled : Bytes → Bytes
spelled m = if str_eq m [] || str_eq m (codes "{}") then m else b' ' ∷ m

abbrev columns : StoredEntry → StoredEntry
columns e = record e {
  id = lower e.id;
  actor_id = lower e.actor_id;
  ip_address = lower e.ip_address;
  created_at = e.created_at / 1000 * 1000;
  metadata = spelled e.metadata;
}

lower_twice : (x : Bytes) → lower (lower x) ≡ lower x
unfolding lower
lower_twice [] = refl
lower_twice (c ∷ cs) = ground (arith, lower_twice cs)

canonical_json-spelled :
    (m : Bytes) → canonical_json stand_in (spelled m) ≡ canonical_json stand_in m
unfolding canonical_json no_spaces str_eq
canonical_json-spelled m = go (str_eq m [] || str_eq m (codes "{}")) refl
  where
    go :
        (is_empty : Bool)
        → (str_eq m [] || str_eq m (codes "{}")) ≡ is_empty
        → canonical_json stand_in (if is_empty then m else b' ' ∷ m) ≡ canonical_json stand_in m
    go true e = refl
    go false e = rw e

columns-ReadsBack : ReadsBack stand_in columns
columns-ReadsBack = record {
  lowers_id = λ e. refl;
  lowers_actor = λ e. refl;
  keeps_action = λ e. refl;
  keeps_type = λ e. refl;
  keeps_resource = λ e. refl;
  keeps_value = λ m e h. canonical_json-spelled e.metadata;
  normalizes_ip = λ e. refl;
  truncates = λ e. refl;
  lower_twice = lower_twice;
  normalize_twice = lower_twice;
}

abbrev login : Fresh × Entry
login = (
  record { id = codes "id"; now = 5000 },
  record {
    workspace_id = codes "W";
    actor_id = codes "U";
    action = codes "user.login";
    resource_type = codes "user";
    resource_id = codes "U";
    ip_address = codes "::A";
    metadata = record { keys = codes "k" ∷ []; json = some (codes "[1]") };
    coalesce = false;
    at = some 5432;
  },
)

abbrev empty_log : Log
empty_log = new_log (codes "w")

written_log : Log
written_log = write_chained stand_in true empty_log (login ∷ login ∷ [])

written-History : History stand_in columns empty_log written_log
unfolding written_log lower
written-History =
    History.next History.here
      (Step.writes true empty_log (login ∷ login ∷ []) ((refl, refl), ((refl, refl), tt)))

length_prefixed-injective_example : codes "a|b" ∷ [] ≡ codes "a|b" ∷ []
length_prefixed-injective_example =
    length_prefixed-injective (codes "a|b" ∷ []) (codes "a|b" ∷ []) refl

History-is_ok_example : (verify stand_in columns written_log).is_ok ≡ true
History-is_ok_example =
    History-is_ok stand_in columns (codes "w") written_log columns-ReadsBack written-History

written_log-IsWellFormed : IsWellFormed stand_in columns written_log
written_log-IsWellFormed =
    History-IsWellFormed stand_in columns columns-ReadsBack (codes "w") written_log written-History

truncated-is_ok_example :
    (verify stand_in columns (record written_log { rows = take 1 written_log.rows })).is_ok ≡ true
truncated-is_ok_example =
    (truncated-is_ok stand_in columns written_log 1 columns-ReadsBack written_log-IsWellFormed).0

-- The second of two rows, and a row with another spelling of its document.
abbrev first_row : Row
first_row = chained_row stand_in 1 [] login

abbrev second_row : Row
second_row = chained_row stand_in 2 first_row.hash login

abbrev respelled : Row → Row
respelled r = record r { entry = record r.entry { metadata = codes "[ 1 ]" } }

verifies_example :
    walk_rows stand_in columns (codes "w") [] 1 true (first_row ∷ second_row ∷ []) ≡ []
unfolding walk_rows chained_row lower no_spaces canonical decimal
verifies_example = refl

respelled_example :
    walk_rows stand_in columns
      (codes "w")
      []
      1
      true
      (respelled first_row ∷ respelled second_row ∷ [])
    ≡ []
unfolding walk_rows chained_row lower no_spaces canonical decimal
respelled_example = refl

sums-IsDigest : IsDigest stand_in
sums-IsDigest x = refl

verified_agree_example :
    SameRows stand_in columns
      (codes "w")
      (first_row ∷ second_row ∷ [])
      (respelled first_row ∷ respelled second_row ∷ [])
    ⊎ CollidesIn stand_in columns
        (codes "w")
        (first_row ∷ second_row ∷ [])
        (respelled first_row ∷ respelled second_row ∷ [])
verified_agree_example =
    verified_agree stand_in columns (codes "w") sums-IsDigest 1 1 first_row (respelled first_row)
      (second_row ∷ []) (respelled second_row ∷ []) verifies_example respelled_example refl refl
      refl

walk_rows-iff-Chain_example : Chain stand_in columns (codes "w") 1 (first_row ∷ second_row ∷ [])
walk_rows-iff-Chain_example =
    (walk_rows-iff-Chain stand_in columns (codes "w") 1 (first_row ∷ second_row ∷ [])).0
      verifies_example

canonical-SameContent_example : SameContent stand_in first_row.entry (respelled first_row).entry
unfolding canonical chained_row lower no_spaces str_eq
canonical-SameContent_example =
    canonical-SameContent stand_in first_row.entry (respelled first_row).entry refl
