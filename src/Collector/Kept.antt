-- ===== src/Collector/Kept.antt =====
-- What the collector leaves alone.
use super_ops.Base.{
  ℕ, ◌+◌, ◌-◌, ◌≤◌, ◌≡◌, refl, sym, ap, ◌∙◌, Bool, true, false, ◌||◌, not, List, [], ◌∷◌, Option,
  ltb, arith, Bool-cases, inl, inr, ◌⊎◌, if◌then◌else◌, All, zero, suc,
}
use super_ops.Base.Bytes.{str_eq, str_eq→eq, str_eq_refl}
use super_ops.Base.Slices.{take}
use super_ops.Collector.{
  Bytes, UploadRow, Tables, contains, remove_object, is_orphan, insert_oldest, orphans,
  list_orphans, object_keys, delete_keys, Progress, delete_orphans, Removed, with_upload,
  without_uploads, delete_by_ids, is_file_key, is_present, sweep, older_than, collect, gc_grace,
}

-- A row with an owner, or one whose upload is not a day old.
abbrev pub HasOwner : ℕ → UploadRow → Type 0
HasOwner now f =
    (f.in_folder ≡ true)
    ⊎ ((f.in_message ≡ true)
        ⊎ ((f.in_mail_message ≡ true) ⊎ ((f.is_trashed ≡ true) ⊎ (now ≤ f.created_at + gc_grace))))

-- The row is among those.
abbrev pub Has : UploadRow → List UploadRow → Type 0
Has f [] = ⊥
Has f (g ∷ gs) = (g ≡ f) ⊎ Has f gs

-- Another file's row, which does not name the object.
abbrev pub IsApart : UploadRow → Bytes → UploadRow → Type 0
IsApart f k g = (str_eq g.id f.id ≡ false) × (contains k (object_keys g) ≡ false)

HasOwner-is_orphan :
    (now : ℕ) (f : UploadRow) → HasOwner now f → is_orphan (now - gc_grace) f ≡ false
HasOwner-is_orphan now f (inl h) = ground arith
HasOwner-is_orphan now f (inr (inl h)) = ground arith
HasOwner-is_orphan now f (inr (inr (inl h))) = ground arith
HasOwner-is_orphan now f (inr (inr (inr (inl h)))) = ground arith
HasOwner-is_orphan now f (inr (inr (inr (inr h)))) = ground arith

-- What is listed is among the rows that are orphans.
module _ (P : UploadRow → Type 0) where
  insert_oldest-All :
      (f : UploadRow) (fs : List UploadRow) → P f → All P fs → All P (insert_oldest f fs)
  unfolding insert_oldest
  insert_oldest-All f [] h hs = (h, tt)
  insert_oldest-All f (g ∷ gs) h hs = elim (Bool-cases (ltb g.created_at f.created_at)) [
    | inl e ↦ rw e (hs.0, insert_oldest-All f gs h hs.1)
    | inr e ↦ rw e (h, hs)
  ]

  orphans-All :
      (cutoff : ℕ) (fs : List UploadRow)
      → All (λ f. is_orphan cutoff f ≡ true → P f) fs
      → All P (orphans cutoff fs)
  unfolding orphans
  orphans-All cutoff [] h = tt
  orphans-All cutoff (f ∷ fs) h = elim (Bool-cases (is_orphan cutoff f)) [
    | inl e ↦ rw e (insert_oldest-All f (orphans cutoff fs) (h.0 e) (orphans-All cutoff fs h.1))
    | inr e ↦ rw e (orphans-All cutoff fs h.1)
  ]

  take-All : (n : ℕ) (fs : List UploadRow) → All P fs → All P (take n fs)
  take-All zero fs h = tt
  take-All (suc n) [] h = tt
  take-All (suc n) (f ∷ fs) h = (h.0, take-All n fs h.1)

others-IsApart :
    (cutoff : ℕ) (f : UploadRow) (k : Bytes) (fs : List UploadRow)
    → is_orphan cutoff f ≡ false
    → All (λ g. (g ≡ f) ⊎ IsApart f k g) fs
    → All (λ g. is_orphan cutoff g ≡ true → IsApart f k g) fs
others-IsApart cutoff f k [] owned h = tt
others-IsApart cutoff f k (g ∷ gs) owned (inl same, hs) = (
  λ orphan. absurd (cc (sym orphan ∙ ap (is_orphan cutoff) same ∙ owned)),
  others-IsApart cutoff f k gs owned hs,
)
others-IsApart cutoff f k (g ∷ gs) owned (inr apart, hs) =
    (λ orphan. apart, others-IsApart cutoff f k gs owned hs)

remove_object-contains :
    (j k : Bytes) (bucket : List Bytes)
    → str_eq j k ≡ false
    → contains k (remove_object j bucket) ≡ contains k bucket
unfolding remove_object contains
remove_object-contains j k [] h = refl
remove_object-contains j k (b ∷ bs) h = elim (Bool-cases (str_eq b j)) [
  | inl e ↦
      let same : str_eq b k ≡ false = ap (λ c. str_eq c k) (str_eq→eq b j e) ∙ h in
      rw (e, same) (remove_object-contains j k bs h)
  | inr e ↦ rw (e, remove_object-contains j k bs h)
]

contains-cons :
    (k j : Bytes) (js : List Bytes)
    → contains k (j ∷ js) ≡ false
    → (str_eq j k ≡ false) × (contains k js ≡ false)
unfolding contains
contains-cons k j js h = (ground arith, ground arith)

delete_one-contains :
    (fails : Bool) (j k : Bytes) (p : Progress)
    → str_eq j k ≡ false
    → contains k
        (if fails
          then record p { complete = false }
          else record p { bucket = remove_object j p.bucket }).bucket
      ≡ contains k p.bucket
delete_one-contains true j k p h = refl
delete_one-contains false j k p h = remove_object-contains j k p.bucket h

delete_keys-contains :
    (fails : Bytes → Bool) (k : Bytes) (ks : List Bytes) (p : Progress)
    → contains k ks ≡ false
    → contains k (delete_keys fails ks p).bucket ≡ contains k p.bucket
unfolding delete_keys
delete_keys-contains fails k [] p h = refl
delete_keys-contains fails k (j ∷ js) p h =
    let (other, others) = contains-cons k j js h in
    delete_keys-contains fails k js _ others ∙ delete_one-contains (fails j) j k p other

with_upload-left : (f : UploadRow) (p : Progress) (r : Removed) → (with_upload f p r).left ≡ r.left
with_upload-left f p r = elim (Bool-cases p.complete) [ inl e ↦ rw e | inr e ↦ rw e ]

with_upload-ids :
    (id : Bytes) (f : UploadRow) (p : Progress) (r : Removed)
    → str_eq f.id id ≡ false
    → contains id r.ids ≡ false
    → contains id (with_upload f p r).ids ≡ false
unfolding contains
with_upload-ids id f p r other h = elim (Bool-cases p.complete) [
  | inl e ↦ rw (e, other, h)
  | inr e ↦ rw (e, h)
]

delete_orphans-apart :
    (fails : Bytes → Bool) (f : UploadRow) (k : Bytes) (gs : List UploadRow) (bucket : List Bytes)
    → All (IsApart f k) gs
    → (contains k (delete_orphans fails gs bucket).left ≡ contains k bucket)
      × (contains f.id (delete_orphans fails gs bucket).ids ≡ false)
unfolding delete_orphans
delete_orphans-apart fails f k [] bucket h = (refl, nothing f.id)
  where
    nothing : (id : Bytes) → contains id [] ≡ false
    nothing id = unfold contains in refl
delete_orphans-apart fails f k (g ∷ gs) bucket ((other, unnamed), hs) =
    let p = delete_keys fails (object_keys g) (record { bucket = bucket; complete = true }) in
    let rest = delete_orphans-apart fails f k gs p.bucket hs in
    (
      ap (contains k) (with_upload-left g p (delete_orphans fails gs p.bucket))
          ∙ rest.0
          ∙ delete_keys-contains fails k (object_keys g)
              (record { bucket = bucket; complete = true }) unnamed,
      with_upload-ids f.id g p (delete_orphans fails gs p.bucket) other rest.1,
    )

without_uploads-Has :
    (ids : List Bytes) (f : UploadRow) (fs : List UploadRow)
    → contains f.id ids ≡ false
    → Has f fs
    → Has f (without_uploads ids fs)
unfolding without_uploads
without_uploads-Has ids f [] h there = elim there [ ]
without_uploads-Has ids f (g ∷ gs) h (inl same) =
    let left : contains g.id ids ≡ false = ap (λ (x : UploadRow). contains x.id ids) same ∙ h in
    rw left (inl same)
without_uploads-Has ids f (g ∷ gs) h (inr later) = elim (Bool-cases (contains g.id ids)) [
  | inl e ↦ rw e (without_uploads-Has ids f gs h later)
  | inr e ↦ rw e (inr (without_uploads-Has ids f gs h later))
]

-- A row's objects are present.
Has-is_file_key :
    (k : Bytes) (f : UploadRow) (fs : List UploadRow)
    → (k ≡ f.storage_key) ⊎ (k ≡ f.thumbnail_key)
    → Has f fs
    → is_file_key k fs ≡ true
unfolding is_file_key
Has-is_file_key k f [] named there = elim there [ ]
Has-is_file_key k f (g ∷ gs) (inl head) (inl same) =
    let e : str_eq g.storage_key k ≡ true =
      ap (λ (x : UploadRow). str_eq x.storage_key k) same
      ∙ ap (λ c. str_eq c k) (sym head)
      ∙ str_eq_refl k in
    rw e
Has-is_file_key k f (g ∷ gs) (inr thumbnail) (inl same) =
    let e : str_eq g.thumbnail_key k ≡ true =
      ap (λ (x : UploadRow). str_eq x.thumbnail_key k) same
      ∙ ap (λ c. str_eq c k) (sym thumbnail)
      ∙ str_eq_refl k in
    ground (arith, e)
Has-is_file_key k f (g ∷ gs) named (inr later) =
    let rest = Has-is_file_key k f gs named later in ground (arith, rest)

present-files : (k : Bytes) (t : Tables) → is_file_key k t.files ≡ true → is_present k t ≡ true
unfolding is_present
present-files k t h = rw h

module _ (parse_date : Bytes → Option ℕ) where
  -- Of one listed object.
  sweep_one :
      (old fails : Bool) (t : Tables) (j k : Bytes) (bucket : List Bytes)
      → is_present k t ≡ true
      → contains k (if not old || (is_present j t || fails) then bucket else remove_object j bucket)
        ≡ contains k bucket
  sweep_one old fails t j k bucket h = elim (Bool-cases (not old || (is_present j t || fails))) [
    | inl stays ↦ rw stays
    | inr goes ↦ elim (Bool-cases (str_eq j k)) [
      | inl same ↦
          let here : is_present j t ≡ true = ap (λ c. is_present c t) (str_eq→eq j k same) ∙ h in
          ground (arith, here)
      | inr other ↦ rw goes (remove_object-contains j k bucket other)
    ]
  ]

  sweep-contains :
      (fails : Bytes → Bool) (cutoff : ℕ) (t : Tables) (k : Bytes) (ks bucket : List Bytes)
      → is_present k t ≡ true
      → contains k (sweep parse_date fails cutoff t ks bucket) ≡ contains k bucket
  unfolding sweep
  sweep-contains fails cutoff t k [] bucket h = refl
  sweep-contains fails cutoff t k (j ∷ js) bucket h =
      sweep-contains fails cutoff t k js _ h
      ∙ sweep_one (older_than parse_date j cutoff) (fails j) t j k bucket h

  -- A file with an owner, or one that is not a day old, keeps its row through a run of the collector, and
  -- the bucket the objects that the row names, whatever the store fails to delete and whatever the bucket
  -- lists, if the others leave the row there meanwhile and no other row has its id or names the object.
  pub collect-keeps :
      (fails : Bytes → Bool) (now limit : ℕ) (meanwhile later : Tables → Tables)
      (listing : List Bytes → List Bytes) (t : Tables) (bucket : List Bytes) (f : UploadRow)
      (k : Bytes)
      → HasOwner now f
      → (k ≡ f.storage_key) ⊎ (k ≡ f.thumbnail_key)
      → All (λ g. (g ≡ f) ⊎ IsApart f k g) t.files
      → Has f (meanwhile t).files
      → ((s : Tables) → Has f s.files → Has f (later s).files)
      → Has f (collect parse_date fails now limit meanwhile later listing t bucket).tables.files
        × (contains k (collect parse_date fails now limit meanwhile later listing t bucket).objects
            ≡ contains k bucket)
  unfolding collect
  collect-keeps fails now limit meanwhile later listing t bucket f k owned named unique there left =
      let cutoff : ℕ = now - gc_grace in
      let listed : All (IsApart f k) (list_orphans cutoff limit t.files) =
        take-All (IsApart f k) limit (orphans cutoff t.files) (
          orphans-All (IsApart f k) cutoff t.files
            (others-IsApart cutoff f k t.files (HasOwner-is_orphan now f owned) unique)) in
      let (still, unlisted) =
        delete_orphans-apart fails f k (list_orphans cutoff limit t.files) bucket listed in
      let r : Removed = delete_orphans fails (list_orphans cutoff limit t.files) bucket in
      let t' : Tables = later (delete_by_ids r.ids (meanwhile t)) in
      let row : Has f t'.files =
        left (delete_by_ids r.ids (meanwhile t))
          (without_uploads-Has r.ids f (meanwhile t).files unlisted there) in
      (
        row,
        sweep-contains fails cutoff t' k (listing r.left) r.left
              (present-files k t' (Has-is_file_key k f t'.files named row))
            ∙ still,
      )
