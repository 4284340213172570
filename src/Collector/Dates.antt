-- ===== src/Collector/Dates.antt =====
-- The age of an object, as its key tells it.
use super_ops.Base.{
  ℕ, suc, ◌+◌, ◌*◌, ◌/◌, ◌≤◌, ◌<◌, ◌≡◌, refl, sym, ap, ◌∙◌, true, false, [], ◌∷◌, ◌++◌, Option,
  some, ltb→lt, ◌==◌, arith, All,
}
use super_ops.Collector.{
  Bytes, split_n, date_of, object_day, older_than, storage_key, is_before, gc_key_date_slack,
}

abbrev pub NoSlash : Bytes → Type 0
NoSlash s = All (λ c. (c == b'/') ≡ false) s

split_n-first :
    (n : ℕ) (p s : Bytes)
    → NoSlash p
    → split_n (suc (suc n)) (p ++ b'/' ∷ s) ≡ p ∷ split_n (suc n) s
unfolding split_n
split_n-first n [] s h = refl
split_n-first n (c ∷ p) s h = rw (h.0, split_n-first n p s h.1)

abbrev pub joined : Bytes × Bytes × Bytes → Bytes
joined (year, month, day) = year ++ b'/' ∷ (month ++ b'/' ∷ day)

abbrev pub NoSlashes : Bytes × Bytes × Bytes → Type 0
NoSlashes (year, month, day) = NoSlash year × NoSlash month × NoSlash day

-- Formatting a time gives its date in three parts, which parses as the midnight before it.
module _ (parse_date : Bytes → Option ℕ) (format_date : ℕ → Bytes × Bytes × Bytes)
    (parses : (t : ℕ) → parse_date (joined (format_date t)) ≡ some (t / 86400 * 86400))
    (no_slashes : (t : ℕ) → NoSlashes (format_date t)) where
  -- What StorageKey writes, objectDay reads: the midnight before the upload, for a workspace without a
  -- slash.
  pub object_day-storage_key :
      (ws id ext : Bytes) (t : ℕ)
      → NoSlash ws
      → object_day parse_date (storage_key format_date ws id ext t) ≡ some (t / 86400 * 86400)
  unfolding object_day split_n
  object_day-storage_key ws id ext t plain =
      let (year, month, day) = format_date t in
      let plain_parts = no_slashes t in
      let rest : Bytes = id ++ ext in
      let from_day = split_n-first 0 day rest plain_parts.2 in
      let from_month =
        split_n-first 1 month (day ++ b'/' ∷ rest) plain_parts.1 ∙ ap (◌∷◌ month) from_day in
      let from_year =
        split_n-first 2 year (month ++ b'/' ∷ (day ++ b'/' ∷ rest)) plain_parts.0
        ∙ ap (◌∷◌ year) from_month in
      let parts =
        split_n-first 3 ws (year ++ b'/' ∷ (month ++ b'/' ∷ (day ++ b'/' ∷ rest))) plain
        ∙ ap (◌∷◌ ws) from_year in
      ap (date_of parse_date) parts ∙ parses t

  -- The sweep takes an object for older than the cutoff only if it was uploaded before the cutoff, also
  -- where its key has the date of a clock that is up to fourteen hours behind.
  pub older_than-storage_key :
      (ws id ext : Bytes) (now local cutoff : ℕ)
      → NoSlash ws
      → now ≤ local + 50400
      → older_than parse_date (storage_key format_date ws id ext local) cutoff ≡ true
      → now < cutoff
  unfolding older_than
  older_than-storage_key ws id ext now local cutoff plain behind older =
      let read = object_day-storage_key ws id ext local plain in
      let sooner : local / 86400 * 86400 + gc_key_date_slack < cutoff =
        ltb→lt _ cutoff (ap (λ d. is_before parse_date d cutoff) (sym read) ∙ older) in
      omega arith
