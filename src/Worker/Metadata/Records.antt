-- ===== src/Worker/Metadata/Records.antt =====
-- persist_record of crates/worker/src/metadata.rs: the record of an extractor, and the others.
use text.Mathlib.TextPositions.{eq_refl}
use strife.Base.{
  ℕ, ◌≡◌, refl, ◌∙◌, String, Option, some, List, [], ◌∷◌, Bool, true, false, ◌||◌, arith, inl, inr,
  ==_iff, str_eq, eq_iff, if◌then◌else◌, any, find, update_rows, Bool-cases,
}
use strife.Base.Text.{Text, codes, starts_with}
use strife.Db.Metadata.{MetadataStatus, MetadataRecord, MetadataTables}
use strife.Worker.Metadata.Tables.{
  same_record, persist_record, set_record, new_record, is_document_mime,
}

abbrev pub record_of : ℕ → String → List MetadataRecord → Option MetadataRecord
record_of node_id name = find (same_record node_id name)

-- The record says what was given.
abbrev pub Says : MetadataStatus → ℕ → List String → MetadataRecord → Type 0
Says status payload warnings r =
    (r.status ≡ status) × (r.raw_payload ≡ payload) × (r.warnings ≡ warnings)

find-updated {ℓ} :
    {A : Type ℓ} (p : A → Bool) (f : A → A)
    → ((x : A) → p (f x) ≡ p x)
    → (xs : List A) → any p xs ≡ true
    → (x : A) × (find p (update_rows p f xs) ≡ some (f x))
find-updated p f same [] e = cc
find-updated p f same (x ∷ xs) e = elim (Bool-cases (p x)) [
  | inl here ↦ (x, rw here (rw (same x ∙ here) refl))
  | inr later ↦
      let (y, found) = find-updated p f same xs (ground arith) in (y, rw (later, later) found)
]

find-not_updated {ℓ} :
    {A : Type ℓ} (p q : A → Bool) (f : A → A)
    → ((x : A) → p x ≡ true → q x ≡ false)
    → ((x : A) → q (f x) ≡ q x)
    → (xs : List A) → find q (update_rows p f xs) ≡ find q xs
find-not_updated p q f apart same [] = refl
find-not_updated p q f apart same (x ∷ xs) =
    ground (arith, apart x, same x, find-not_updated p q f apart same xs)

pub set-found :
    (node_id : ℕ) (name version : String) (status : MetadataStatus) (payload : ℕ)
    (warnings : List String) (now id : ℕ) (records : List MetadataRecord)
    → (r : MetadataRecord) × (record_of node_id name
          (persist_record id node_id name version status payload warnings now records)
        ≡ some r)
      × Says status payload warnings r
unfolding persist_record
set-found node_id name version status payload warnings now id records =
    elim (Bool-cases (any (same_record node_id name) records)) [
      | inl taken ↦
          let (r, found) =
            find-updated (same_record node_id name) (set_record version status payload warnings now)
              (λ x. refl) records taken in
          (set_record version status payload warnings now r, rw taken found, (refl, refl, refl))
      | inr free ↦ (
        new_record id node_id name version status payload warnings now,
        rw free (rw ((==_iff node_id node_id).1 refl, eq_refl name) refl),
        (refl, refl, refl),
      )
    ]

pub others-kept :
    (node_id : ℕ) (name version : String) (status : MetadataStatus) (payload : ℕ)
    (warnings : List String) (now id : ℕ) (records : List MetadataRecord) (name' : String)
    → str_eq name name' ≡ false
    → record_of node_id name'
        (persist_record id node_id name version status payload warnings now records)
      ≡ record_of node_id name' records
unfolding persist_record
others-kept node_id name version status payload warnings now id records name' apart =
    elim (Bool-cases (any (same_record node_id name) records)) [
      | inl taken ↦ rw taken (
          find-not_updated (same_record node_id name) (same_record node_id name')
            (set_record version status payload warnings now)
            (λ x here. ground (
              arith,
              eq_iff x.extractor_name name,
              eq_iff x.extractor_name name',
              eq_iff name name',
            ))
            (λ x. refl) records)
      | inr free ↦ rw (free, apart) (ground arith)
    ]

-- The extractor of a type.
abbrev pub extractor_name : Text → String
extractor_name mime =
    if starts_with (codes "image/") mime
    then "exiftool"
    else if starts_with (codes "video/") mime || starts_with (codes "audio/") mime
    then "ffprobe"
    else if is_document_mime mime
    then "tika"
    else "generic"

abbrev pub HasRecord : ℕ → String → MetadataStatus → List String → MetadataTables → Type 0
HasRecord node_id name status warnings tables =
    (r : MetadataRecord) × (record_of node_id name tables.metadata_records ≡ some r)
    × (r.status ≡ status)
    × (r.warnings ≡ warnings)
