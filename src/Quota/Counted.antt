-- ===== src/Quota/Counted.antt =====
-- What the counter counts, and what the cap caps.
use super_ops.Base.{
  ℕ, zero, suc, ◌+◌, ◌-◌, ◌≡◌, refl, ◌∙◌, ap, Bool, true, false, ◌&&◌, not, List, [], ◌∷◌, Option,
  none, some, arith, All, if◌then◌else◌, ◌==◌,
}
use super_ops.Base.Int.{ℤ, pos, negsuc, ◌-ℤ◌}
use super_ops.Base.Fallible.{
  ok, err, ◌>>=◌, is_success, bind-Yields, Yields-ok, Yields, guard-Yields, guard, ◌>>◌,
}
use super_ops.Quota.{
  QuotaError, exceeded, no_workspace, FileRow, VersionRow, Storage, or_zero, fits, charge,
  charge_tx, read_usage, refund_for_files_tx, give_back, give_back_to, of_files, any_version,
  sum_of, file_of, set_quota, recompute, read_breakdown, Breakdown, is_live, is_in_trash, is_old,
}
use super_ops.Quota.Files.{
  upload, add_version, add_version_to, max_version, purge, without_versions,
}

-- The counter is the sum over all versions.
abbrev pub IsCounted : Storage → Type 0
IsCounted s = or_zero s.bytes_used ≡ sum_of any_version s.versions

-- A workspace without files.
abbrev pub new_workspace : Storage
new_workspace = record {
  does_exist = true;
  quota_bytes = 0;
  bytes_used = none;
  files = [];
  versions = [];
}

-- The states that uploads, new versions, purges, caps, recomputations and other changes of the
-- files lead to; a transaction that is refused changes nothing.
pub data History : Storage → Type 0 where
  starts : History new_workspace
  uploads : {s s' : Storage} → History s → (id size : ℕ) → upload id size s ≡ ok s' → History s'
  adds : {s s' : Storage} → History s → (id size : ℕ) → add_version id size s ≡ ok s' → History s'
  purges : {s : Storage} → History s → (ids : List ℕ) → History (purge ids s)
  caps : {s s' : Storage} → History s → (bytes : ℤ) → set_quota bytes s ≡ ok s' → History s'
  recomputes : {s : Storage} → History s → History ((recompute s).2)
  changes :
      {s : Storage} → History s → (files : List FileRow) → History (record s { files = files })

abbrev Charged : ℕ → Storage → ℕ × Storage → Type 0
Charged delta s (total, s') =
    (or_zero s'.bytes_used ≡ or_zero s.bytes_used + delta) × (s'.versions ≡ s.versions)

-- A charge that goes through adds to the counter, and leaves the versions alone.
charge_tx-counter : (delta : ℕ) (s : Storage) → Yields (Charged delta s) (charge_tx (pos delta) s)
unfolding charge_tx read_usage charge
charge_tx-counter zero s = go s.does_exist
  where
    go :
        (b : Bool)
        → Yields
            (Charged 0 s)
            ((if b then ok (or_zero s.bytes_used) else err no_workspace) >>= λ used. ok (used, s))
    go true = (omega arith, refl)
    go false = tt
charge_tx-counter (suc n) s =
    guard-Yields (Charged (suc n) s) (s.does_exist && fits s.quota_bytes (suc n)) exceeded _ λ h.
      guard-Yields (Charged (suc n) s) (fits s.quota_bytes (or_zero s.bytes_used + suc n)) exceeded
        _ λ h. (refl, refl)

Charged-IsCounted :
    (v : VersionRow) (s : Storage) (r : ℕ × Storage)
    → IsCounted s
    → Charged v.size_bytes s r
    → or_zero (r.1.bytes_used) ≡ sum_of any_version (v ∷ r.1.versions)
unfolding sum_of
Charged-IsCounted v s r h c = omega (arith, c.0, h, ap (sum_of any_version) c.1)

upload-IsCounted : (id size : ℕ) (s : Storage) → IsCounted s → Yields IsCounted (upload id size s)
unfolding upload
upload-IsCounted id size s h =
    bind-Yields (Charged size s) IsCounted (charge_tx (pos size) s) _ (charge_tx-counter size s)
      λ r c. Charged-IsCounted (record { file_id = id; version = 1; size_bytes = size }) s r h c

add_version-IsCounted :
    (id size : ℕ) (s : Storage) → IsCounted s → Yields IsCounted (add_version id size s)
unfolding add_version
add_version-IsCounted id size s h = go (file_of id s.files)
  where
    go : (f : Option FileRow) → Yields IsCounted (add_version_to f id size s)
    go none = tt
    go (some f) =
        bind-Yields (Charged size s) IsCounted (charge_tx (pos size) s) _ (charge_tx-counter size s)
          λ r c.
            Charged-IsCounted
              (record { file_id = id; version = max_version id s.versions + 1; size_bytes = size })
              s r h c

sum_of-without :
    (ids : List ℕ) (vs : List VersionRow)
    → sum_of (of_files ids) vs + sum_of any_version (without_versions ids vs)
      ≡ sum_of any_version vs
unfolding sum_of
sum_of-without ids [] = refl
sum_of-without ids (v ∷ vs) = ground (arith, sum_of-without ids vs)

give_back-counter :
    (n : ℕ) (s : Storage) → or_zero ((give_back n s).bytes_used) ≡ or_zero s.bytes_used - n
give_back-counter n s = go s.bytes_used refl
  where
    go :
        (u : Option ℕ)
        → s.bytes_used ≡ u
        → or_zero ((give_back_to u n s).bytes_used) ≡ or_zero s.bytes_used - n
    go none e = rw e (omega arith)
    go (some used) e = rw e

give_back-versions : (n : ℕ) (s : Storage) → (give_back n s).versions ≡ s.versions
give_back-versions n s = go s.bytes_used
  where
    go : (u : Option ℕ) → (give_back_to u n s).versions ≡ s.versions
    go none = refl
    go (some used) = refl

purge-IsCounted : (ids : List ℕ) (s : Storage) → IsCounted s → IsCounted (purge ids s)
unfolding purge refund_for_files_tx
purge-IsCounted [] s h = h
purge-IsCounted (i ∷ ids) s h = omega (
  arith,
  give_back-counter (sum_of (of_files (i ∷ ids)) s.versions) s,
  sum_of-without (i ∷ ids) s.versions,
  ap (λ vs. sum_of any_version (without_versions (i ∷ ids) vs))
      (give_back-versions (sum_of (of_files (i ∷ ids)) s.versions) s),
  h,
)

set_quota-IsCounted : (bytes : ℤ) (s : Storage) → IsCounted s → Yields IsCounted (set_quota bytes s)
unfolding set_quota
set_quota-IsCounted (negsuc n) s h = tt
set_quota-IsCounted (pos n) s h = go s.does_exist
  where
    go :
        (b : Bool)
        → Yields IsCounted (if b then ok (record s { quota_bytes = n }) else err no_workspace)
    go true = h
    go false = tt

-- Through uploads, new versions, purges, caps, recomputations and whatever else happens to the
-- files, the storage counter of a workspace is the sum of the sizes of all its versions.
pub History-IsCounted : {s : Storage} → History s → IsCounted s
unfolding recompute
History-IsCounted starts = refl
History-IsCounted (uploads {s} {s'} h id size e) =
    Yields-ok IsCounted _ s' (upload-IsCounted id size s (History-IsCounted h)) e
History-IsCounted (adds {s} {s'} h id size e) =
    Yields-ok IsCounted _ s' (add_version-IsCounted id size s (History-IsCounted h)) e
History-IsCounted (purges {s} h ids) = purge-IsCounted ids s (History-IsCounted h)
History-IsCounted (caps {s} {s'} h bytes e) =
    Yields-ok IsCounted _ s' (set_quota-IsCounted bytes s (History-IsCounted h)) e
History-IsCounted (recomputes {s} h) = refl
History-IsCounted (changes {s} h files) = History-IsCounted h

-- A charge of a positive number of bytes goes through exactly when the workspace exists and the new
-- total fits under its cap, whether or not there is a row yet.
pub charge_tx_iff :
    (n : ℕ) (s : Storage)
    → is_success (charge_tx (pos (suc n)) s)
      ≡ (s.does_exist && fits s.quota_bytes (or_zero s.bytes_used + suc n))
unfolding charge_tx charge
charge_tx_iff n s =
    go s.does_exist (fits s.quota_bytes (suc n)) refl
      (fits s.quota_bytes (or_zero s.bytes_used + suc n)) refl
  where
    go :
        (a b : Bool)
        → fits s.quota_bytes (suc n) ≡ b
        → (c : Bool) → fits s.quota_bytes (or_zero s.bytes_used + suc n) ≡ c
        → is_success {A = ℕ × Storage} (
            guard (a && b) exceeded
            >> (guard c exceeded
                >> ok (
                  or_zero s.bytes_used + suc n,
                  record s { bytes_used = some (or_zero s.bytes_used + suc n) },
                )))
          ≡ (a && c)
    go true true e true f = refl
    go true true e false f = refl
    go true false e true f = absurd (ground arith)
    go true false e false f = refl
    go false b e c f = refl

-- Every version's file is there, as the foreign key has it.
abbrev pub HasFiles : Storage → Type 0
HasFiles s = All (λ v. (f : FileRow) × (file_of v.file_id s.files ≡ some f)) s.versions

sum_of-parts :
    (s : Storage) (vs : List VersionRow)
    → All (λ v. (f : FileRow) × (file_of v.file_id s.files ≡ some f)) vs
    → sum_of (is_live s) vs + sum_of (is_in_trash s) vs + sum_of (is_old s) vs
      ≡ sum_of any_version vs
unfolding sum_of
sum_of-parts s [] h = refl
sum_of-parts s (v ∷ vs) ((f, e), h) =
    rw (is_live, is_in_trash, is_old, e)
      (go f.is_trashed (v.version == f.current_version) (sum_of-parts s vs h))
  where
    go :
        (t c : Bool)
        → sum_of (is_live s) vs + sum_of (is_in_trash s) vs + sum_of (is_old s) vs
          ≡ sum_of any_version vs
        → (if not t && c then v.size_bytes + sum_of (is_live s) vs else sum_of (is_live s) vs)
            + (if t then v.size_bytes + sum_of (is_in_trash s) vs else sum_of (is_in_trash s) vs)
            + (if not t && not c then v.size_bytes + sum_of (is_old s) vs else sum_of (is_old s) vs)
          ≡ v.size_bytes + sum_of any_version vs
    go true true rest = omega (arith, rest)
    go true false rest = omega (arith, rest)
    go false true rest = omega (arith, rest)
    go false false rest = omega (arith, rest)

no_difference : (a b : ℕ) → a ≡ b → pos a -ℤ pos b ≡ pos 0
no_difference a b e = ground arith

-- In every state that can come about, with every version's file there, the live, the trashed and
-- the old bytes that ReadBreakdown reports add up to the recomputed total, and the drift that it reports is 0.
pub read_breakdown-sums :
    (s : Storage)
    → History s
    → HasFiles s
    → Yields
        (λ b.
          (b.live_bytes + b.trashed_bytes + b.version_bytes ≡ b.recomputed_bytes)
          × (b.drift_bytes ≡ pos 0))
        (read_breakdown s)
unfolding read_breakdown read_usage
read_breakdown-sums s h k =
    bind-Yields (λ used. used ≡ or_zero s.bytes_used) Adds (read_usage s) _ (go s.does_exist)
      λ used e. (
        sum_of-parts s s.versions k,
        no_difference used (sum_of any_version s.versions) (e ∙ History-IsCounted h),
      )
  where
    Adds : Breakdown → Type 0
    Adds b =
        (b.live_bytes + b.trashed_bytes + b.version_bytes ≡ b.recomputed_bytes)
        × (b.drift_bytes ≡ pos 0)

    go :
        (b : Bool)
        → Yields {E = QuotaError}
            (λ used. used ≡ or_zero s.bytes_used)
            (if b then ok (or_zero s.bytes_used) else err no_workspace)
    go true = refl
    go false = tt
