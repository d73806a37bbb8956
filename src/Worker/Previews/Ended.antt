-- ===== src/Worker/Previews/Ended.antt =====
-- generate_artifact and the mark of a failure, of crates/worker/src/metadata.rs: what one artifact's
-- generation leaves of it and of the others.
use strife.Base.{
  ℕ, ◌≡◌, ◌⊎◌, refl, sym, subst, Option, none, some, List, [], ◌∷◌, true, false, arith, inl, inr,
  ==_iff, Bool-cases, some_injective,
}
use strife.Base.Rows.{NoClash}
use strife.Base.Result.{ok, err, Result-cases}
use strife.Base.Text.{Text}
use strife.Storage.Objects.{StoredObject, put_stream, key_in_artifacts}
use strife.Db.Schema.{Db, DbError, ArtifactType, ArtifactState, DerivedArtifactRecord}
use strife.Db.Artifacts.{
  UpsertArtifact, get_artifact, create_or_update_artifact, same_kind, of_node,
}
use strife.Db.Artifacts.Upserted.{create_or_update_artifact-get, artifact_clash, kind_eq}
use strife.Worker.Previews.{
  Media, PreviewError, generation, Generated, GeneratedImage, output_of, ready_artifact,
  failed_artifact, settled, generate_artifact, or_mark_failed, on_output,
}

abbrev pub artifact : ℕ → ArtifactType → Db → Option DerivedArtifactRecord
artifact node_id kind db = get_artifact node_id kind db.derived_artifacts

get_artifact-key :
    (node_id : ℕ) (kind : ArtifactType) (rows : List DerivedArtifactRecord)
    (a : DerivedArtifactRecord)
    → get_artifact node_id kind rows ≡ some a
    → of_node node_id kind a ≡ true
unfolding get_artifact
get_artifact-key node_id kind [] a e = cc
get_artifact-key node_id kind (x ∷ xs) a e = elim (Bool-cases (of_node node_id kind x)) [
  | inl hit ↦ subst (λ y. of_node node_id kind y ≡ true) (some_injective (rw hit at e)) hit
  | inr miss ↦ get_artifact-key node_id kind xs a (rw miss at e)
]

-- What one artifact's generation may change: the artifact of its node and kind.
abbrev Frame : ℕ → ArtifactType → Db → Db → Type 0
Frame node_id kind db after =
    NoClash artifact_clash after.derived_artifacts
    × ((k : ArtifactType)
        → same_kind kind k ≡ false
        → artifact node_id k after ≡ artifact node_id k db)

-- The end of one artifact: ready, or failed, or the database refused.
abbrev pub Ended : ℕ → ArtifactType → Db → Generated → Type 0
Ended node_id kind db g =
    Frame node_id kind db g.db
    × (((g.outcome ≡ ok tt)
          × (b : DerivedArtifactRecord) × (artifact node_id kind g.db ≡ some b)
          × (b.state ≡ ArtifactState.ready))
        ⊎ (((g.outcome ≡ err generation)
              × (b : DerivedArtifactRecord) × (artifact node_id kind g.db ≡ some b)
              × (b.state ≡ ArtifactState.failed))
            ⊎ ((e : DbError) × (g.outcome ≡ err (PreviewError.database e)))))

same-Frame :
    (node_id : ℕ) (kind : ArtifactType) (db : Db)
    → NoClash artifact_clash db.derived_artifacts
    → Frame node_id kind db db
same-Frame node_id kind db unique = (unique, λ k apart. refl)

-- An upsert of the artifact `input` is about, and the frame of its key.
upsert-Frame :
    (input : UpsertArtifact) (now : ℕ) (db after : Db) (b : DerivedArtifactRecord)
    → NoClash artifact_clash db.derived_artifacts
    → create_or_update_artifact 0 input now db ≡ ok (b, after)
    → Frame input.node_id input.artifact_type db after
      × (artifact input.node_id input.artifact_type after ≡ some b)
      × (b.state ≡ input.state)
upsert-Frame input now db after b unique e =
    let (wrote, found, others, kept) =
      create_or_update_artifact-get 0 input now db after b unique e in
    ((kept, λ k apart. others input.node_id k (rw apart (ground arith))), found, wrote.2)

module _ (a : DerivedArtifactRecord) (now : ℕ) (db : Db)
    (unique : NoClash artifact_clash db.derived_artifacts) where
  Failure : PreviewError → Generated → Type 0
  Failure x g =
      Frame a.node_id a.artifact_type db g.db
      × (((g.outcome ≡ err x)
            × (b : DerivedArtifactRecord) × (artifact a.node_id a.artifact_type g.db ≡ some b)
            × (b.state ≡ ArtifactState.failed))
          ⊎ ((e : DbError) × (g.outcome ≡ err (PreviewError.database e))))

  marked :
      (x : PreviewError) (objects : List StoredObject)
      → Failure x
          (settled (create_or_update_artifact 0 (failed_artifact a) now db) (err x) db objects)
  unfolding Failure
  marked x objects = elim (Result-cases (create_or_update_artifact 0 (failed_artifact a) now db)) [
    | inl (e, refused) ↦
        subst (λ r. Failure x (settled r (err x) db objects)) (sym refused)
          ((same-Frame a.node_id a.artifact_type db unique, inr (e, refl)))
    | inr ((b, after), done) ↦
        let (frame, found, state) = upsert-Frame (failed_artifact a) now db after b unique done in
        subst (λ r. Failure x (settled r (err x) db objects)) (sym done)
          ((frame, inl (refl, b, found, state)))
  ]

  failed-Ended : (g : Generated) → Failure generation g → Ended a.node_id a.artifact_type db g
  unfolding Failure
  failed-Ended g (frame, inl h) = (frame, inr (inl h))
  failed-Ended g (frame, inr h) = (frame, inr (inr h))

  refused-Ended :
      (e : DbError) (g : Generated)
      → Failure (PreviewError.database e) g
      → Ended a.node_id a.artifact_type db g
  unfolding Failure
  refused-Ended e g (frame, inl h) = (frame, inr (inr (e, h.0)))
  refused-Ended e g (frame, inr h) = (frame, inr (inr h))

  ready-Ended :
      (g : GeneratedImage) (objects : List StoredObject)
      → Ended a.node_id a.artifact_type db (
          or_mark_failed a now
            (settled (create_or_update_artifact 0 (ready_artifact a g) now db) (ok tt) db objects))
  ready-Ended g objects =
      elim (Result-cases (create_or_update_artifact 0 (ready_artifact a g) now db)) [
        | inl (e, refused) ↦
            subst
              (λ r.
                Ended a.node_id a.artifact_type db
                  (or_mark_failed a now (settled r (ok tt) db objects)))
              (sym refused)
              (refused-Ended e
                (settled (create_or_update_artifact 0 (failed_artifact a) now db)
                  (err (PreviewError.database e)) db objects)
                (marked (PreviewError.database e) objects))
        | inr ((b, after), done) ↦
            let (frame, found, state) =
              upsert-Frame (ready_artifact a g) now db after b unique done in
            subst
              (λ r.
                Ended a.node_id a.artifact_type db
                  (or_mark_failed a now (settled r (ok tt) db objects)))
              (sym done) ((frame, inl (refl, b, found, state)))
      ]

  output-Ended :
      (o : Option GeneratedImage) (objects : List StoredObject)
      → Ended a.node_id a.artifact_type db (or_mark_failed a now (on_output a now o db objects))
  output-Ended (some g) objects =
      ready-Ended g (put_stream (key_in_artifacts a.storage_key) g.content objects)
  output-Ended none objects =
      failed-Ended
        (settled (create_or_update_artifact 0 (failed_artifact a) now db) (err generation) db
          objects)
        (marked generation objects)

-- The generation of a node's artifact ends in one of three ways.
pub generate_artifact-Ended :
    (media : Media) (node_id : ℕ) (kind : ArtifactType) (a : DerivedArtifactRecord) (source : ℕ)
    (mime : Text) (now : ℕ) (db : Db) (objects : List StoredObject)
    → NoClash artifact_clash db.derived_artifacts
    → artifact node_id kind db ≡ some a
    → Ended node_id kind db
        (or_mark_failed a now (generate_artifact media a source mime now db objects))
unfolding generate_artifact
generate_artifact-Ended media node_id kind a source mime now db objects unique here =
    let key = get_artifact-key node_id kind db.derived_artifacts a here in
    let g =
      or_mark_failed a now
        (on_output a now (output_of media a.artifact_type mime source) db objects) in
    let own = output-Ended a now db unique (output_of media a.artifact_type mime source) objects in
    subst (λ i. Ended i kind db g) ((==_iff a.node_id node_id).0 (ground arith))
      (subst (λ k. Ended a.node_id k db g) (kind_eq a.artifact_type kind (ground arith)) own)
