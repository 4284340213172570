-- ===== src/Audit/Limits.antt =====
-- backend/internal/audit/verify.go: what the walk does not see, rows that are gone from the end.
use super_ops.Base.{ℕ, zero, suc, ◌+◌, ◌≡◌, refl, true, List, [], ◌∷◌, arith}
use super_ops.Audit.{Bytes, StoredEntry, Row, Outside}
use super_ops.Audit.Chain.{Log}
use super_ops.Audit.Verify.{take, verify_batch, verify}
use super_ops.Audit.Written.{Written, ReadsBack, IsWellFormed, above-Chain, is_ok_iff}

module _ (o : Outside) (read_back : StoredEntry → StoredEntry) where
  take-Written :
      (ws : Bytes) (k s : ℕ) (p : Bytes) (rs : List Row) (t : ℕ) (q : Bytes)
      → Written o read_back ws s p rs t q
      → (t' : ℕ) × (q' : Bytes) × Written o read_back ws s p (take k rs) t' q'
  take-Written ws zero s p rs t q w = (s, p, (refl, refl))
  take-Written ws (suc k) s p [] t q w = (s, p, (refl, refl))
  take-Written ws (suc k) s p (r ∷ rs) t q (a, b, c, d, n, w) =
      let (t', q', w') = take-Written ws k (s + 1) r.hash rs t q w in (t', q', (a, b, c, d, n, w'))

  -- A log that the program wrote, from which all rows behind the first `k` were deleted, still verifies,
  -- if the columns do no more to what is stored than lower uuids, normalise addresses, cut times to
  -- microseconds and spell JSON in another way: no row stands behind the missing ones, and `Verify` does
  -- not hold the last row against the head, which it reports as it was.
  pub truncated-is_ok :
      (log : Log) (k : ℕ)
      → ReadsBack o read_back
      → IsWellFormed o read_back log
      → let cut : Log = record log { rows = take k log.rows } in
        ((verify o read_back cut).is_ok ≡ true) × ((verify o read_back cut).head_seq ≡ log.head_seq)
  unfolding verify
  truncated-is_ok log k back v =
      let (t, q, w) = take-Written log.workspace_id k 0 [] log.rows _ _ v.written in
      (
        is_ok_iff o read_back (record log { rows = take k log.rows })
            (above-Chain o read_back log.workspace_id back verify_batch _ 0 [] _ t q (omega arith)
              w),
        refl,
      )
