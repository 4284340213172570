-- ===== src/Audit/Chain.antt =====
-- The writer of a workspace's chain: `prepare`, `encodeMetadata` and `writeChained` of service.go.
use super_ops.Base.{
  ℕ, ◌+◌, ◌*◌, ◌/◌, Bool, true, false, List, [], ◌∷◌, ◌++◌, Option, some, none, leb, ◌==◌,
  if◌then◌else◌, length,
}
use super_ops.Base.Bytes.{codes}
use super_ops.Audit.{Bytes, Metadata, Entry, StoredEntry, Row, Outside}
use super_ops.Audit.Encoding.{chain_hash}

abbrev pub max_metadata_bytes : ℕ
max_metadata_bytes = 4096

abbrev pub or_else {ℓ} : {A : Type ℓ} → Option A → A → A
or_else none d = d
or_else (some a) d = a

-- The rows of audit_logs of one workspace in the order of `chain_seq`, and its line of
-- audit_chain_heads.
pub record Log : Type 0 where
  pub workspace_id : Bytes
  pub rows : List Row
  pub head_seq : ℕ
  pub head_hash : Bytes
  pub anchored_seq : ℕ

-- What the writer draws for an entry: a new UUID and the time.
pub record Fresh : Type 0 where
  pub id : Bytes
  pub now : ℕ

abbrev pub new_log : Bytes → Log
new_log ws = record { workspace_id = ws; rows = []; head_seq = 0; head_hash = []; anchored_seq = 0 }

module _ (o : Outside) where
  -- The document itself if it is short enough, else the marker.
  abbrev pub bounded_metadata : Metadata → Bytes → Bytes
  bounded_metadata m b =
      if leb (length b) max_metadata_bytes
      then b
      else or_else (o.marker (length b) m.keys) (codes "{\"_truncated\":true}")

  unfoldable pub encode_metadata : Metadata → Bytes
  encode_metadata m = if length m.keys == 0 then codes "{}" else elim m.json [
    | none ↦ codes "{\"_error\":\"metadata is not encodable\"}"
    | some b ↦ bounded_metadata m b
  ]

  unfoldable pub prepare : Fresh → Entry → ℕ → StoredEntry
  unfolding encode_metadata
  prepare f e seq = record {
    id = f.id;
    workspace_id = o.to_lower e.workspace_id;
    actor_id = o.to_lower e.actor_id;
    action = e.action;
    resource_type = e.resource_type;
    resource_id = e.resource_id;
    metadata = encode_metadata e.metadata;
    ip_address = o.normalize_ip e.ip_address;
    created_at = or_else e.at f.now / 1000 * 1000;
    chain_seq = seq;
  }

  -- The row that the loop inserts for one entry.
  unfoldable pub chained_row : ℕ → Bytes → Fresh × Entry → Row
  unfolding prepare chain_hash
  chained_row seq prev (f, e) =
      let stored = prepare f e seq in
      record { entry = stored; prev_hash = prev; hash = chain_hash o prev stored }

  -- The loop over the entries, from the head that was read under the lock: the rows, and the head
  -- after them.
  unfoldable pub chain_entries : ℕ → Bytes → List (Fresh × Entry) → List Row × ℕ × Bytes
  unfolding chained_row
  chain_entries seq prev [] = ([], seq, prev)
  chain_entries seq prev (fe ∷ fes) =
      let row = chained_row (seq + 1) prev fe in
      let (rows, head, hash) = chain_entries (seq + 1) row.hash fes in (row ∷ rows, head, hash)

  -- One transaction: it commits as a whole, or it fails and changes nothing.
  unfoldable pub write_chained : Bool → Log → List (Fresh × Entry) → Log
  unfolding chain_entries
  write_chained false log entries = log
  write_chained true log entries =
      let (rows, seq, hash) = chain_entries log.head_seq log.head_hash entries in
      record log { rows = log.rows ++ rows; head_seq = seq; head_hash = hash }
