-- ===== src/Quota.antt =====
-- backend/internal/quota: the storage counter of a workspace against the versions that it counts,
-- with the transactions of backend/internal/drive that charge and refund it.
pub mod Files
pub mod Counted
pub mod Tests
use super_ops.Base.{
  ℕ, zero, suc, ◌+◌, ◌-◌, ◌==◌, Bool, true, false, ◌&&◌, ◌||◌, not, List, [], ◌∷◌, Option, none,
  some, ltb, leb, max, if◌then◌else◌,
}
use super_ops.Base.Int.{ℤ, pos, negsuc, ◌-ℤ◌}
use super_ops.Base.Fallible.{Result, ok, err, ◌>>=◌, ◌>>◌, guard}

pub data QuotaError : Type 0 where
  exceeded negative_delta negative_quota no_workspace no_file : QuotaError

-- A row of files, and one of file_versions; ids are numbers.
pub record FileRow : Type 0 where
  pub id : ℕ
  pub is_trashed : Bool
  pub current_version : ℕ

pub record VersionRow : Type 0 where
  pub file_id : ℕ
  pub version : ℕ
  pub size_bytes : ℕ

-- What the database holds of one workspace: whether it exists, its cap (0 is none), its row of
-- workspace_storage if there is one, and its files with their versions.
pub record Storage : Type 0 where
  pub does_exist : Bool
  pub quota_bytes : ℕ
  pub bytes_used : Option ℕ
  pub files : List FileRow
  pub versions : List VersionRow

abbrev pub or_zero : Option ℕ → ℕ
or_zero none = 0
or_zero (some n) = n

-- `Read`: no row reads as no bytes.
unfoldable pub read_usage : Storage → Result QuotaError ℕ
read_usage s = if s.does_exist then ok (or_zero s.bytes_used) else err no_workspace

-- `Usage.Available`; -1 is unlimited.
unfoldable pub available : Storage → ℤ
available s = if s.quota_bytes == 0 then negsuc 0 else pos (s.quota_bytes - or_zero s.bytes_used)

abbrev pub fits : ℕ → ℕ → Bool
fits quota total = quota == 0 || leb total quota

-- The one statement of `ChargeTx`: the INSERT's own condition, then the row, new or updated.
unfoldable pub charge : ℕ → Storage → Result QuotaError (ℕ × Storage)
charge delta s = do
  guard (s.does_exist && fits s.quota_bytes delta) exceeded
  let total = or_zero s.bytes_used + delta
  guard (fits s.quota_bytes total) exceeded
  ok (total, record s { bytes_used = some total })

unfoldable pub charge_tx : ℤ → Storage → Result QuotaError (ℕ × Storage)
unfolding charge read_usage
charge_tx (negsuc n) s = err negative_delta
charge_tx (pos zero) s = do used ← read_usage s; ok (used, s)
charge_tx (pos (suc n)) s = charge (suc n) s

-- `bytes_used = GREATEST(0, bytes_used - delta)` on the row, if there is one.
abbrev pub give_back_to : Option ℕ → ℕ → Storage → Storage
give_back_to none delta s = s
give_back_to (some used) delta s = record s { bytes_used = some (used - delta) }

abbrev pub give_back : ℕ → Storage → Storage
give_back delta s = give_back_to s.bytes_used delta s

unfoldable pub refund_tx : ℤ → Storage → Storage
refund_tx (negsuc n) s = s
refund_tx (pos delta) s = give_back delta s

-- `SUM(size_bytes)` over the versions of the files that the test picks.
unfoldable pub sum_of : (VersionRow → Bool) → List VersionRow → ℕ
sum_of picks [] = 0
sum_of picks (v ∷ vs) = let rest = sum_of picks vs in if picks v then v.size_bytes + rest else rest

abbrev pub any_version : VersionRow → Bool
any_version v = true

abbrev pub is_among : List ℕ → ℕ → Bool
is_among [] i = false
is_among (j ∷ js) i = i == j || is_among js i

abbrev pub of_files : List ℕ → VersionRow → Bool
of_files ids v = is_among ids v.file_id

unfoldable pub refund_for_files_tx : List ℕ → Storage → Storage
unfolding sum_of
refund_for_files_tx [] s = s
refund_for_files_tx (i ∷ ids) s = give_back (sum_of (of_files (i ∷ ids)) s.versions) s

unfoldable pub set_quota : ℤ → Storage → Result QuotaError Storage
set_quota (negsuc n) s = err negative_quota
set_quota (pos bytes) s =
    if s.does_exist then ok (record s { quota_bytes = bytes }) else err no_workspace

-- `Recompute`: what was stored before, and what is stored now.
unfoldable pub recompute : Storage → ℕ × ℕ × Storage
unfolding sum_of
recompute s =
    let truth = sum_of any_version s.versions in
    (or_zero s.bytes_used, truth, record s { bytes_used = some truth })

abbrev pub file_of : ℕ → List FileRow → Option FileRow
file_of i [] = none
file_of i (f ∷ fs) = if f.id == i then some f else file_of i fs

-- The three filters of `ReadBreakdown`, on the row of the version's file.
abbrev pub is_live : Storage → VersionRow → Bool
is_live s v = elim (file_of v.file_id s.files) [
  | none ↦ false
  | some f ↦ not f.is_trashed && v.version == f.current_version
]

abbrev pub is_in_trash : Storage → VersionRow → Bool
is_in_trash s v = elim (file_of v.file_id s.files) [ none ↦ false | some f ↦ f.is_trashed ]

abbrev pub is_old : Storage → VersionRow → Bool
is_old s v = elim (file_of v.file_id s.files) [
  | none ↦ false
  | some f ↦ not f.is_trashed && not (v.version == f.current_version)
]

pub record Breakdown : Type 0 where
  pub live_bytes : ℕ
  pub trashed_bytes : ℕ
  pub version_bytes : ℕ
  pub recomputed_bytes : ℕ
  pub drift_bytes : ℤ

unfoldable pub read_breakdown : Storage → Result QuotaError Breakdown
unfolding read_usage sum_of
read_breakdown s = do
  used ← read_usage s
  let recomputed = sum_of any_version s.versions
  ok (record {
    live_bytes = sum_of (is_live s) s.versions;
    trashed_bytes = sum_of (is_in_trash s) s.versions;
    version_bytes = sum_of (is_old s) s.versions;
    recomputed_bytes = recomputed;
    drift_bytes = pos used -ℤ pos recomputed;
  })
