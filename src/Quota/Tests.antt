-- ===== src/Quota/Tests.antt =====
-- Runs of the quota model on concrete input.
use super_ops.Base.{◌≡◌, refl, false, [], ◌∷◌, some, ◌+◌}
use super_ops.Base.Int.{pos}
use super_ops.Base.Fallible.{err, Yields}
use super_ops.Quota.{Storage, charge_tx, charge, set_quota, read_breakdown, exceeded}
use super_ops.Quota.Files.{upload, add_version, purge}
use super_ops.Quota.Counted.{
  IsCounted, History, new_workspace, starts, uploads, adds, purges, caps, History-IsCounted,
  read_breakdown-sums,
}

abbrev capped : Storage
capped = record new_workspace { quota_bytes = 1000 }

-- Two files, the second with a second version.
abbrev filled : Storage
filled = record capped {
  bytes_used = some 900;
  files =
      record { id = 2; is_trashed = false; current_version = 2 }
      ∷ record { id = 1; is_trashed = false; current_version = 1 }
      ∷ [];
  versions =
      record { file_id = 2; version = 2; size_bytes = 300 }
      ∷ record { file_id = 2; version = 1; size_bytes = 200 }
      ∷ record { file_id = 1; version = 1; size_bytes = 400 }
      ∷ [];
}

first_too_big : charge_tx (pos 2000) capped ≡ err exceeded
unfolding charge_tx charge
first_too_big = refl

filled-History : History filled
unfolding set_quota upload add_version charge_tx charge
filled-History =
    adds (uploads (uploads (caps starts (pos 1000) refl) 1 400 refl) 2 200 refl) 2 300 refl

History-IsCounted_example : IsCounted (purge (2 ∷ []) filled)
History-IsCounted_example = History-IsCounted (purges filled-History (2 ∷ []))

read_breakdown-sums_example :
    Yields
      (λ b.
        (b.live_bytes + b.trashed_bytes + b.version_bytes ≡ b.recomputed_bytes)
        × (b.drift_bytes ≡ pos 0))
      (read_breakdown filled)
read_breakdown-sums_example =
    read_breakdown-sums filled filled-History ((_, refl), ((_, refl), ((_, refl), tt)))
