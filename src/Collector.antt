-- ===== src/Collector.antt =====
-- backend/internal/file/gc.go, with the queries of repository.go in that package: the collection of the
-- objects that nothing points at any more.
pub mod Dates
pub mod Kept
mod Tests
use super_ops.Base.{
  ℕ, zero, suc, ◌+◌, ◌-◌, ◌*◌, ◌/◌, ◌≡◌, Bool, true, false, ◌&&◌, ◌||◌, not, List, [], ◌∷◌, ◌++◌,
  Option, none, some, ltb, leb, ◌==◌, if◌then◌else◌,
}
use super_ops.Base.Bytes.{codes, str_eq}
use super_ops.Base.Slices.{take}

abbrev pub Bytes : Type 0
Bytes = List ℕ

-- In seconds.
abbrev pub gc_grace : ℕ
gc_grace = 86400

abbrev pub gc_key_date_slack : ℕ
gc_key_date_slack = 172800

-- A row of files: its objects, an empty key being none, and which of its owners are set.
pub record UploadRow : Type 0 where
  pub id : Bytes
  pub storage_key : Bytes
  pub thumbnail_key : Bytes
  pub in_folder : Bool
  pub in_message : Bool
  pub in_mail_message : Bool
  pub is_trashed : Bool
  pub created_at : ℕ

-- The rows that name objects: the files, their versions with their file, and the originals of mail.
pub record Tables : Type 0 where
  pub files : List UploadRow
  pub versions : List (Bytes × Bytes)
  pub raw_keys : List Bytes

unfoldable pub contains : Bytes → List Bytes → Bool
unfolding str_eq
contains k [] = false
contains k (j ∷ js) = str_eq j k || contains k js

-- `ListOrphans`: the rows without an owner, the oldest first.
abbrev pub is_orphan : ℕ → UploadRow → Bool
is_orphan cutoff f =
    not f.in_folder
    && (not f.in_message
        && (not f.in_mail_message && (not f.is_trashed && ltb f.created_at cutoff)))

unfoldable pub insert_oldest : UploadRow → List UploadRow → List UploadRow
insert_oldest f [] = f ∷ []
insert_oldest f (g ∷ gs) =
    let rest = insert_oldest f gs in if ltb g.created_at f.created_at then g ∷ rest else f ∷ g ∷ gs

unfoldable pub orphans : ℕ → List UploadRow → List UploadRow
unfolding insert_oldest
orphans cutoff [] = []
orphans cutoff (f ∷ fs) =
    let rest = orphans cutoff fs in if is_orphan cutoff f then insert_oldest f rest else rest

abbrev pub list_orphans : ℕ → ℕ → List UploadRow → List UploadRow
list_orphans cutoff limit fs = take limit (orphans cutoff fs)

-- `Keys`.
abbrev pub some_key : Bytes → List Bytes → List Bytes
some_key [] rest = rest
some_key (b ∷ bs) rest = (b ∷ bs) ∷ rest

abbrev pub object_keys : UploadRow → List Bytes
object_keys f =
    some_key f.storage_key
      (if str_eq f.thumbnail_key f.storage_key then [] else some_key f.thumbnail_key [])

-- The bucket as the keys of its objects; the store may fail to delete any of them.
unfoldable pub remove_object : Bytes → List Bytes → List Bytes
unfolding str_eq
remove_object k [] = []
remove_object k (j ∷ js) = let rest = remove_object k js in if str_eq j k then rest else j ∷ rest

pub record Progress : Type 0 where
  pub bucket : List Bytes
  pub complete : Bool

-- The rows to remove are those whose objects are all gone.
pub record Removed : Type 0 where
  pub left : List Bytes
  pub ids : List Bytes

abbrev pub with_upload : UploadRow → Progress → Removed → Removed
with_upload f p r = if p.complete then record r { ids = f.id ∷ r.ids } else r

module _ (fails : Bytes → Bool) where
  -- The deletion of a row's objects.
  unfoldable pub delete_keys : List Bytes → Progress → Progress
  unfolding remove_object
  delete_keys [] p = p
  delete_keys (k ∷ ks) p = delete_keys ks (
      if fails k
      then record p { complete = false }
      else record p { bucket = remove_object k p.bucket })

  -- The first loop of `Collect`.
  unfoldable pub delete_orphans : List UploadRow → List Bytes → Removed
  unfolding delete_keys
  delete_orphans [] bucket = record { left = bucket; ids = [] }
  delete_orphans (f ∷ fs) bucket =
      let p = delete_keys (object_keys f) (record { bucket = bucket; complete = true }) in
      with_upload f p (delete_orphans fs p.bucket)

-- `DeleteByIDs`, but for the refund; the versions go with their file.
unfoldable pub without_uploads : List Bytes → List UploadRow → List UploadRow
unfolding contains
without_uploads ids [] = []
without_uploads ids (f ∷ fs) =
    let rest = without_uploads ids fs in if contains f.id ids then rest else f ∷ rest

unfoldable pub without_upload_versions : List Bytes → List (Bytes × Bytes) → List (Bytes × Bytes)
unfolding contains
without_upload_versions ids [] = []
without_upload_versions ids ((file, key) ∷ vs) =
    let rest = without_upload_versions ids vs in
    if contains file ids then rest else (file, key) ∷ rest

abbrev pub delete_by_ids : List Bytes → Tables → Tables
delete_by_ids ids t = record t {
  files = without_uploads ids t.files;
  versions = without_upload_versions ids t.versions;
}

-- `StorageKeysPresent`, of one key.
unfoldable pub is_file_key : Bytes → List UploadRow → Bool
unfolding str_eq
is_file_key k [] = false
is_file_key k (f ∷ fs) = str_eq f.storage_key k || (str_eq f.thumbnail_key k || is_file_key k fs)

unfoldable pub is_version_key : Bytes → List (Bytes × Bytes) → Bool
unfolding str_eq
is_version_key k [] = false
is_version_key k ((file, key) ∷ vs) = str_eq key k || is_version_key k vs

unfoldable pub is_present : Bytes → Tables → Bool
unfolding is_file_key is_version_key contains
is_present k t = is_file_key k t.files || (is_version_key k t.versions || contains k t.raw_keys)

-- `splitN` on a slash.
abbrev pub onto_part : ℕ → List Bytes → List Bytes
onto_part c [] = (c ∷ []) ∷ []
onto_part c (p ∷ ps) = (c ∷ p) ∷ ps

unfoldable pub split_n : ℕ → Bytes → List Bytes
split_n zero s = s ∷ []
split_n (suc zero) s = s ∷ []
split_n (suc (suc n)) [] = [] ∷ []
split_n (suc (suc n)) (c ∷ s) =
    let next = split_n (suc n) s in
    let more = split_n (suc (suc n)) s in if c == b'/' then [] ∷ next else onto_part c more

pub record Collected : Type 0 where
  pub tables : Tables
  pub objects : List Bytes

-- The library's time.Parse and Format of a date.
module _ (parse_date : Bytes → Option ℕ) where
  abbrev pub date_of : List Bytes → Option ℕ
  date_of (ws ∷ year ∷ month ∷ day ∷ rest ∷ more) =
      parse_date (year ++ b'/' ∷ (month ++ b'/' ∷ day))
  date_of parts = none

  unfoldable pub object_day : Bytes → Option ℕ
  unfolding split_n
  object_day key = date_of (split_n 5 key)

  -- `olderThan`.
  abbrev pub is_before : Option ℕ → ℕ → Bool
  is_before none cutoff = false
  is_before (some day) cutoff = ltb (day + gc_key_date_slack) cutoff

  unfoldable pub older_than : Bytes → ℕ → Bool
  unfolding object_day
  older_than key cutoff = is_before (object_day key) cutoff

  -- The second loop of `Collect`, over what the bucket lists.
  unfoldable pub sweep : (Bytes → Bool) → ℕ → Tables → List Bytes → List Bytes → List Bytes
  unfolding older_than is_present remove_object
  sweep fails cutoff t [] bucket = bucket
  sweep fails cutoff t (k ∷ ks) bucket = sweep fails cutoff t ks (
      if not (older_than k cutoff) || (is_present k t || fails k)
      then bucket
      else remove_object k bucket)

  -- `Collect`, but for its counters: what others commit may come between its queries.
  unfoldable pub collect :
      (Bytes → Bool)
      → ℕ
      → ℕ
      → (Tables → Tables)
      → (Tables → Tables)
      → (List Bytes → List Bytes)
      → Tables
      → List Bytes
      → Collected
  unfolding orphans delete_orphans without_uploads without_upload_versions sweep
  collect fails now limit meanwhile later listing t bucket =
      let cutoff = now - gc_grace in
      let r = delete_orphans fails (list_orphans cutoff limit t.files) bucket in
      let t' = later (delete_by_ids r.ids (meanwhile t)) in
      record { tables = t'; objects = sweep fails cutoff t' (listing r.left) r.left }

-- `StorageKey`, of a file that is uploaded at a time.
abbrev pub storage_key : (ℕ → Bytes × Bytes × Bytes) → Bytes → Bytes → Bytes → ℕ → Bytes
storage_key format_date ws id ext now =
    let (year, month, day) = format_date now in
    ws ++ b'/' ∷ (year ++ b'/' ∷ (month ++ b'/' ∷ (day ++ b'/' ∷ (id ++ ext))))
