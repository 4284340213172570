-- ===== src/Collector/Tests.antt =====
-- Three files, of which one is an abandoned upload, and an object whose row is gone.
use super_ops.Base.{
  ℕ, ◌+◌, ◌*◌, ◌-◌, ap, ◌/◌, ◌<◌, ◌≡◌, refl, Bool, true, false, List, [], ◌∷◌, ◌++◌, Option, none,
  some, map, inl, inr, arith, ◌==◌, if◌then◌else◌,
}
use super_ops.Base.Bytes.{codes, str_eq}
use super_ops.Collector.{Bytes, UploadRow, Tables, collect, contains, storage_key, older_than}
use super_ops.Collector.Dates.{NoSlashes, joined, older_than-storage_key}
use super_ops.Collector.Kept.{Has, collect-keeps}

abbrev file : Bytes → Bool → ℕ → UploadRow
file name in_folder created_at = record {
  id = name;
  storage_key = codes "w/3///" ++ name;
  thumbnail_key = [];
  in_folder = in_folder;
  in_message = false;
  in_mail_message = false;
  is_trashed = false;
  created_at = created_at;
}

abbrev in_drive : UploadRow
in_drive = file (codes "a") true 100

abbrev abandoned : UploadRow
abandoned = file (codes "b") false 100

abbrev tables : Tables
tables = record { files = in_drive ∷ abandoned ∷ []; versions = []; raw_keys = [] }

abbrev objects : List Bytes
objects = codes "w/3///a" ∷ codes "w/3///b" ∷ codes "w/3///gone" ∷ codes "w/9///new" ∷ []

-- Days are parsed from their digit.
abbrev parse_digit : Bytes → Option ℕ
parse_digit [] = none
parse_digit (c ∷ cs) = if c == b'3' then some 259200 else if c == b'9' then some 777600 else none

abbrev same : Tables → Tables
same t = t

collected_example :
    (collect parse_digit (λ k. false) 700000 500 same same (λ b. b) tables objects).objects
    ≡ codes "w/3///a" ∷ codes "w/9///new" ∷ []
unfolding collect
collected_example = refl

-- An upload that is sent after it was listed loses its row and its object.
abbrev sent : Tables → Tables
sent t = record t { files = in_drive ∷ record abandoned { in_message = true } ∷ [] }

abbrev ids : UploadRow → Bytes
ids f = f.id

sent_example :
    map ids
      (collect parse_digit (λ k. false) 700000 500 sent same (λ b. b) tables objects).tables.files
    ≡ codes "a" ∷ []
unfolding collect
sent_example = refl

apart_example : contains (codes "w/3///a") (codes "w/3///b" ∷ []) ≡ false
unfolding contains
apart_example = refl

other_example : str_eq (codes "b") (codes "a") ≡ false
unfolding str_eq
other_example = refl

collect-keeps_example :
    Has in_drive
      (collect parse_digit (λ k. false) 700000 500 sent same (λ b. b) tables objects).tables.files
    × (contains
          (codes "w/3///a")
          (collect parse_digit (λ k. false) 700000 500 sent same (λ b. b) tables objects).objects
        ≡ contains (codes "w/3///a") objects)
unfolding str_eq
collect-keeps_example =
    collect-keeps parse_digit (λ k. false) 700000 500 sent same (λ b. b) tables objects in_drive
      (codes "w/3///a") (inl refl) (inl refl) (inl refl, (inr (other_example, apart_example), tt))
      (inl refl) (λ s there. there)

-- A calendar whose years are the numbers of the days, of one byte, with empty months and days.
abbrev format_number : ℕ → Bytes × Bytes × Bytes
format_number t = ((48 + t / 86400) ∷ [], [], [])

abbrev parse_number : Bytes → Option ℕ
parse_number [] = none
parse_number (c ∷ cs) = some ((c - 48) * 86400)

number_parses : (t : ℕ) → parse_number (joined (format_number t)) ≡ some (t / 86400 * 86400)
number_parses t = ap some (omega arith)

number-NoSlashes : (t : ℕ) → NoSlashes (format_number t)
number-NoSlashes t = ((ground arith, tt), tt, tt)

key_is_old :
    older_than parse_number
      (storage_key format_number (codes "w") (codes "f1") (codes ".png") 300000)
      500000
    ≡ true
unfolding older_than
key_is_old = refl

older_than-storage_key_example : 310000 < 500000
older_than-storage_key_example =
    older_than-storage_key parse_number format_number number_parses number-NoSlashes (codes "w")
      (codes "f1") (codes ".png") 310000 300000 500000 (refl, tt) (omega arith) key_is_old
