-- ===== src/Quota/Files.antt =====
-- backend/internal/drive, upload.go, versions.go and trash.go: the transactions that add and remove
-- versions, each with its charge or refund.
use super_ops.Base.{ℕ, ◌+◌, ◌==◌, false, List, [], ◌∷◌, Option, none, some, max, if◌then◌else◌}
use super_ops.Base.Int.{pos}
use super_ops.Base.Fallible.{Result, ok, err, ◌>>=◌}
use super_ops.Quota.{
  QuotaError, no_file, FileRow, VersionRow, Storage, charge_tx, refund_for_files_tx, is_among,
  file_of,
}

-- The upload of a new file: a charge, the file and its first version.
unfoldable pub upload : ℕ → ℕ → Storage → Result QuotaError Storage
unfolding charge_tx
upload id size s = do
  (total, charged) ← charge_tx (pos size) s
  ok (record charged {
    files = record { id = id; is_trashed = false; current_version = 1 } ∷ charged.files;
    versions = record { file_id = id; version = 1; size_bytes = size } ∷ charged.versions;
  })

-- `MAX(version)` of a file, 0 without any.
abbrev pub max_version : ℕ → List VersionRow → ℕ
max_version id [] = 0
max_version id (v ∷ vs) =
    let rest = max_version id vs in if v.file_id == id then max v.version rest else rest

abbrev pub set_current : ℕ → ℕ → List FileRow → List FileRow
set_current id version [] = []
set_current id version (f ∷ fs) =
    let rest = set_current id version fs in
    if f.id == id then record f { current_version = version } ∷ rest else f ∷ rest

-- The transaction of a new version, once the file's row is locked or found missing.
abbrev pub add_version_to : Option FileRow → ℕ → ℕ → Storage → Result QuotaError Storage
add_version_to none id size s = err no_file
add_version_to (some f) id size s = do
  let next = max_version id s.versions + 1
  (total, charged) ← charge_tx (pos size) s
  ok (record charged {
    files = set_current id next charged.files;
    versions = record { file_id = id; version = next; size_bytes = size } ∷ charged.versions;
  })

unfoldable pub add_version : ℕ → ℕ → Storage → Result QuotaError Storage
unfolding charge_tx
add_version id size s = add_version_to (file_of id s.files) id size s

abbrev pub without_files : List ℕ → List FileRow → List FileRow
without_files ids [] = []
without_files ids (f ∷ fs) =
    let rest = without_files ids fs in if is_among ids f.id then rest else f ∷ rest

-- The versions that go with their files (ON DELETE CASCADE).
abbrev pub without_versions : List ℕ → List VersionRow → List VersionRow
without_versions ids [] = []
without_versions ids (v ∷ vs) =
    let rest = without_versions ids vs in if is_among ids v.file_id then rest else v ∷ rest

-- The purge of files from the trash: the refund, then the rows.
unfoldable pub purge : List ℕ → Storage → Storage
unfolding refund_for_files_tx
purge [] s = s
purge (i ∷ ids) s =
    let refunded = refund_for_files_tx (i ∷ ids) s in
    record refunded {
      files = without_files (i ∷ ids) refunded.files;
      versions = without_versions (i ∷ ids) refunded.versions;
    }
