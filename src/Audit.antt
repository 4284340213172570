-- ===== src/Audit.antt =====
-- backend/internal/audit: the entries, the per-workspace hash chain (chain.go), its writer
-- (service.go) and its verifier (verify.go). Hashing, JSON, time formatting and addresses are the
-- parameter `Outside`.
pub mod Encoding
pub mod Injective
pub mod Chain
pub mod Verify
pub mod Intact
pub mod Written
pub mod Tamper
pub mod Limits
pub mod Tests
use super_ops.Base.{ℕ, List, Option, Bool}

abbrev pub Bytes : Type 0
Bytes = List ℕ

-- The metadata map of an entry, by its keys and by what `json.Marshal` makes of it.
pub record Metadata : Type 0 where
  pub keys : List Bytes
  pub json : Option Bytes

-- `at` is in nanoseconds, `none` for the zero time.
pub record Entry : Type 0 where
  pub workspace_id : Bytes
  pub actor_id : Bytes
  pub action : Bytes
  pub resource_type : Bytes
  pub resource_id : Bytes
  pub ip_address : Bytes
  pub metadata : Metadata
  pub coalesce : Bool
  pub at : Option ℕ

-- One row of audit_logs as it is hashed.
pub record StoredEntry : Type 0 where
  pub id : Bytes
  pub workspace_id : Bytes
  pub actor_id : Bytes
  pub action : Bytes
  pub resource_type : Bytes
  pub resource_id : Bytes
  pub metadata : Bytes
  pub ip_address : Bytes
  pub created_at : ℕ
  pub chain_seq : ℕ

-- A row with the two hashes stored beside it; a NULL hash is the empty string.
pub record Row : Type 0 where
  pub entry : StoredEntry
  pub prev_hash : Bytes
  pub hash : Bytes

-- The code outside the repository that a chain goes through: SHA-256, decoding and encoding JSON
-- again (`none` when either fails), `time.Format`, `strings.ToLower`, `net.ParseIP` with `String`,
-- and the marker for metadata that is too long, from its length and keys.
pub record Outside : Type 0 where
  pub sha256 : Bytes → Bytes
  pub reencode : Bytes → Option Bytes
  pub format_time : ℕ → Bytes
  pub to_lower : Bytes → Bytes
  pub normalize_ip : Bytes → Bytes
  pub marker : ℕ → List Bytes → Option Bytes
