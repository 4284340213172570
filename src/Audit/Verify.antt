-- ===== src/Audit/Verify.antt =====
-- The verifier: `walk`, `Verify` and `Anchor` of verify.go.
use super_ops.Base.{
  ℕ, zero, suc, ◌+◌, ◌-◌, Bool, true, false, not, ◌&&◌, ◌||◌, List, [], ◌∷◌, ◌++◌, Option, some,
  none, ltb, if◌then◌else◌,
}
use super_ops.Base.Bytes.{str_eq}
use super_ops.Audit.{Bytes, StoredEntry, Row, Outside}
use super_ops.Audit.Encoding.{chain_hash}
use super_ops.Audit.Chain.{Log}

abbrev pub verify_batch : ℕ
verify_batch = 5000

pub data Reason : Type 0 where
  missing prev_mismatch hash_mismatch : Reason

pub record Break : Type 0 where
  pub workspace_id : Bytes
  pub seq : ℕ
  pub reason : Reason

pub record ChainStatus : Type 0 where
  pub workspace_id : Bytes
  pub is_ok : Bool
  pub head_seq : ℕ
  pub anchored_seq : ℕ
  pub breaks : List Break

pub record Anchor : Type 0 where
  pub workspace_id : Bytes
  pub head_seq : ℕ
  pub head_hash : Bytes

abbrev pub take {ℓ} : {A : Type ℓ} → ℕ → List A → List A
take zero xs = []
take (suc n) [] = []
take (suc n) (x ∷ xs) = x ∷ take n xs

-- The rows above a sequence number, as `WHERE chain_seq > $2 ORDER BY chain_seq` reads them.
unfoldable pub rows_above : ℕ → List Row → List Row
rows_above after [] = []
rows_above after (r ∷ rs) =
    if ltb after r.entry.chain_seq then r ∷ rows_above after rs else rows_above after rs

-- The breaks of a gap of `count` numbers from `expect` on.
unfoldable pub gap : Bytes → ℕ → ℕ → List Break
gap ws expect zero = []
gap ws expect (suc count) =
    record { workspace_id = ws; seq = expect; reason = missing } ∷ gap ws (expect + 1) count

abbrev pub break_if : Bool → Break → List Break
break_if true b = b ∷ []
break_if false b = []

-- `o` is the code outside the repository, and `read_back` what the columns of a stored entry read
-- as when Postgres returns them.
module _ (o : Outside) (read_back : StoredEntry → StoredEntry) where
  abbrev pub scan : Bytes → Row → StoredEntry
  scan ws r = record (read_back r.entry) { workspace_id = ws; chain_seq = r.entry.chain_seq }

  -- The body of the loop of `walk` on one row, `prev` being what the row is held against.
  unfoldable pub check_row : Bytes → Bytes → Row → List Break
  unfolding chain_hash str_eq
  check_row ws prev r =
      let seq = r.entry.chain_seq in
      break_if (not (str_eq r.prev_hash prev))
        (record { workspace_id = ws; seq = seq; reason = prev_mismatch })
      ++ break_if (not (str_eq (chain_hash o r.prev_hash (scan ws r)) r.hash))
          (record { workspace_id = ws; seq = seq; reason = hash_mismatch })

  -- The loop of `walk`. Across a gap the stored hash is trusted, as it is on the first row; after a
  -- mismatch the row is checked against its own `prev_hash`, which `check_row` does in either case.
  unfoldable pub walk_rows : Bytes → Bytes → ℕ → Bool → List Row → List Break
  unfolding gap check_row
  walk_rows ws prev expect first [] = []
  walk_rows ws prev expect first (r ∷ rs) =
      let seq = r.entry.chain_seq in
      gap ws expect (seq - expect)
      ++ (check_row ws (if first || ltb expect seq then r.prev_hash else prev) r
          ++ walk_rows ws r.hash (seq + 1) false rs)

  unfoldable pub walk : Log → ℕ → List Break
  unfolding walk_rows rows_above
  walk log after =
      walk_rows log.workspace_id [] (after + 1) true (take verify_batch (rows_above after log.rows))

  abbrev pub no_breaks : List Break → Bool
  no_breaks [] = true
  no_breaks (b ∷ bs) = false

  -- `Verify` for one workspace; the walk starts at the anchor.
  unfoldable pub verify : Log → ChainStatus
  unfolding walk
  verify log =
      let breaks = walk log log.anchored_seq in
      record {
        workspace_id = log.workspace_id;
        is_ok = no_breaks breaks;
        head_seq = log.head_seq;
        anchored_seq = log.anchored_seq;
        breaks = breaks;
      }

  -- Whether `Anchor` ships the head of this chain.
  unfoldable pub anchors : Log → Bool
  unfolding verify
  anchors log = (verify log).is_ok && ltb log.anchored_seq log.head_seq

  unfoldable pub anchors_of : List Log → List Anchor
  unfolding anchors
  anchors_of [] = []
  anchors_of (log ∷ logs) =
      let rest = anchors_of logs in
      if anchors log
      then record {
        workspace_id = log.workspace_id;
        head_seq = log.head_seq;
        head_hash = log.head_hash;
      }
        ∷ rest
      else rest

  -- What `Anchor` does to one chain, the sink having taken the heads or not.
  abbrev pub advance : Bool → Log → Log
  advance false log = log
  advance true log = if anchors log then record log { anchored_seq = log.head_seq } else log

  abbrev pub advance_all : Bool → List Log → List Log
  advance_all shipped [] = []
  advance_all shipped (log ∷ logs) = advance shipped log ∷ advance_all shipped logs

  abbrev pub is_none {ℓ} : {A : Type ℓ} → List A → Bool
  is_none [] = true
  is_none (x ∷ xs) = false

  -- `Anchor` over all workspaces: the sink may be absent, and `ship` says whether it took the heads.
  unfoldable pub anchor : Option (List Anchor → Bool) → List Log → List Log
  unfolding anchors_of
  anchor none logs = advance_all false logs
  anchor (some ship) logs =
      if is_none (anchors_of logs) then logs else advance_all (ship (anchors_of logs)) logs
