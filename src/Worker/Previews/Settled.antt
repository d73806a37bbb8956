-- ===== src/Worker/Previews/Settled.antt =====
-- generate_previews of crates/worker/src/metadata.rs: what a job leaves of the artifacts, and what a
-- retry can do.
use strife.Base.{
  ℕ, ◌≡◌, ◌⊎◌, refl, sym, ap, subst, ◌∙◌, Option, none, some, List, [], ◌∷◌, Bool, true, false,
  arith, inl, inr, if◌then◌else◌, Option-cases, some_injective, All,
}
use strife.Base.Rows.{NoClash}
use strife.Base.Result.{Result, ok, err}
use strife.Base.Text.{Text}
use strife.Storage.Objects.{StoredObject, content_of, key_in_originals}
use strife.Db.Schema.{
  Db, JobRecord, ArtifactType, thumbnail, preview, ArtifactState, DerivedArtifactRecord,
}
use strife.Db.Artifacts.{same_kind}
use strife.Db.Artifacts.Upserted.{artifact_clash}
use strife.Db.Files.{get_file_object_by_node_id}
use strife.Worker.Previews.{
  Media, PreviewError, generation, previously_failed, nothing_to_generate, Generated,
  generate_artifact, or_mark_failed, Rest, go_on, on_state, on_artifact, generate_types,
  generate_previews, failed_with,
}
use strife.Worker.Previews.Ended.{artifact, Ended, generate_artifact-Ended}

module _ (node_id : ℕ) where
  -- No artifact of a kind waits or has failed, and an artifact of a kind that has failed.
  abbrev pub IsSettled : ArtifactType → Db → Type 0
  IsSettled kind db =
      (a : DerivedArtifactRecord)
      → artifact node_id kind db ≡ some a
      → a.state ≡ ArtifactState.ready

  abbrev pub IsFailed : ArtifactType → Db → Type 0
  IsFailed kind db =
      (a : DerivedArtifactRecord) × (artifact node_id kind db ≡ some a)
      × (a.state ≡ ArtifactState.failed)

  -- A job runs into a failed artifact before it has anything to generate.
  abbrev IsBlocked : List ArtifactType → Db → Type 0
  IsBlocked [] db = true ≡ false
  IsBlocked (kind ∷ kinds) db = IsFailed kind db ⊎ (IsSettled kind db × IsBlocked kinds db)

  abbrev Apart : ArtifactType → List ArtifactType → Type 0
  Apart k = All (λ j. same_kind j k ≡ false)

  abbrev Distinct : List ArtifactType → Type 0
  Distinct [] = Unit {0}
  Distinct (k ∷ ks) = (Apart k ks × All (λ j. same_kind k j ≡ false) ks) × Distinct ks

  -- What the loop over some kinds leaves.
  abbrev Done : List ArtifactType → Db → Generated → Type 0
  Done kinds db g =
      NoClash artifact_clash g.db.derived_artifacts
      × ((k : ArtifactType) → Apart k kinds → artifact node_id k g.db ≡ artifact node_id k db)
      × (g.outcome ≡ ok tt → All (λ k. IsSettled k g.db) kinds)
      × (g.outcome ≡ err generation → IsBlocked kinds g.db)

  skip :
      (kind : ArtifactType) (kinds : List ArtifactType) (db : Db) (g : Generated)
      → Apart kind kinds
      → IsSettled kind db
      → Done kinds db g
      → Done (kind ∷ kinds) db g
  skip kind kinds db g apart settled_kind (kept, frame, finished, blocked) =
      let still : IsSettled kind g.db =
        subst
          (λ (o : Option DerivedArtifactRecord).
            (a : DerivedArtifactRecord) → o ≡ some a → a.state ≡ ArtifactState.ready)
          (sym (frame kind apart)) settled_kind in
      (kept, (λ k free. frame k free.1), (λ e. (still, finished e)), (λ e. inr (still, blocked e)))

  go_on-ok :
      (rest : Rest) (g : Generated) → g.outcome ≡ ok tt → go_on rest g ≡ rest true g.db g.objects
  go_on-ok rest g e = rw e refl

  go_on-err :
      (rest : Rest) (g : Generated) (x : PreviewError) → g.outcome ≡ err x → go_on rest g ≡ g
  go_on-err rest g x e = rw e refl

  go_on-Done :
      (rest : Rest) (kind : ArtifactType) (kinds : List ArtifactType) (db : Db) (g : Generated)
      → Apart kind kinds
      → ((found : Bool) (d : Db) (os : List StoredObject)
          → NoClash artifact_clash d.derived_artifacts
          → Done kinds d (rest found d os))
      → Ended node_id kind db g
      → Done (kind ∷ kinds) db (go_on rest g)
  go_on-Done rest kind kinds db g apart later ((kept, others), inl (made, b, here, state)) =
      subst (Done (kind ∷ kinds) db) (sym (go_on-ok rest g made)) (
        let (kept', frame, finished, blocked) =
          skip kind kinds g.db (rest true g.db g.objects) apart
            (λ a at_a.
              ap (λ (x : DerivedArtifactRecord). x.state) (some_injective (sym at_a ∙ here))
              ∙ state)
            (later true g.db g.objects kept) in
        (kept', (λ k free. frame k free ∙ others k free.0), finished, blocked))
  go_on-Done rest kind kinds db g apart later ((kept, others), inr (inl (failed, b, here, state))) =
      subst (Done (kind ∷ kinds) db) (sym (go_on-err rest g generation failed))
        ((kept, (λ k free. others k free.0), (λ e. cc), (λ e. inl (b, here, state))))
  go_on-Done rest kind kinds db g apart later ((kept, others), inr (inr (e, refused))) =
      subst (Done (kind ∷ kinds) db) (sym (go_on-err rest g (PreviewError.database e) refused))
        ((kept, (λ k free. others k free.0), (λ e'. cc), (λ e'. cc)))

  module _ (media : Media) (source : ℕ) (mime : Text) (now : ℕ) where
    on_state-Done :
        (rest : Rest) (kind : ArtifactType) (kinds : List ArtifactType) (a : DerivedArtifactRecord)
        (s : ArtifactState) (found : Bool) (db : Db) (objects : List StoredObject)
        → Apart kind kinds
        → ((f : Bool) (d : Db) (os : List StoredObject)
            → NoClash artifact_clash d.derived_artifacts
            → Done kinds d (rest f d os))
        → NoClash artifact_clash db.derived_artifacts
        → artifact node_id kind db ≡ some a
        → a.state ≡ s
        → Done (kind ∷ kinds) db (on_state media a source mime now rest s found db objects)
    on_state-Done rest kind kinds a ArtifactState.failed found db objects apart later unique here
          state =
        (unique, (λ k free. refl), (λ e. cc), (λ e. cc))
    on_state-Done rest kind kinds a ArtifactState.ready found db objects apart later unique here
          state =
        skip kind kinds db (rest found db objects) apart
          (λ b at_b.
            ap (λ (x : DerivedArtifactRecord). x.state) (some_injective (sym at_b ∙ here)) ∙ state)
          (later found db objects unique)
    on_state-Done rest kind kinds a ArtifactState.generating found db objects apart later unique
          here state =
        go_on-Done rest kind kinds db
          (or_mark_failed a now (generate_artifact media a source mime now db objects)) apart later
          (generate_artifact-Ended media node_id kind a source mime now db objects unique here)

    on_artifact-Done :
        (rest : Rest) (kind : ArtifactType) (kinds : List ArtifactType)
        (o : Option DerivedArtifactRecord) (found : Bool) (db : Db) (objects : List StoredObject)
        → Apart kind kinds
        → ((f : Bool) (d : Db) (os : List StoredObject)
            → NoClash artifact_clash d.derived_artifacts
            → Done kinds d (rest f d os))
        → NoClash artifact_clash db.derived_artifacts
        → artifact node_id kind db ≡ o
        → Done (kind ∷ kinds) db (on_artifact media source mime now rest o found db objects)
    on_artifact-Done rest kind kinds none found db objects apart later unique here =
        skip kind kinds db (rest found db objects) apart (λ b at_b. cc)
          (later found db objects unique)
    on_artifact-Done rest kind kinds (some a) found db objects apart later unique here =
        on_state-Done rest kind kinds a a.state found db objects apart later unique here refl

    generate_types-Done :
        (kinds : List ArtifactType) (found : Bool) (db : Db) (objects : List StoredObject)
        → Distinct kinds
        → NoClash artifact_clash db.derived_artifacts
        → Done kinds db (generate_types media node_id source mime now kinds found db objects)
    unfolding generate_types
    generate_types-Done [] found db objects distinct unique =
        (unique, (λ k free. refl), (λ e. tt), (λ e. no_generation found e))
      where
        no_generation :
            (found : Bool)
            → Path
                (Result PreviewError (Unit {0}))
                (if found then ok tt else err nothing_to_generate)
                (err generation)
            → true ≡ false
        no_generation true e = cc
        no_generation false e = cc
    generate_types-Done (kind ∷ kinds) found db objects distinct unique =
        on_artifact-Done (generate_types media node_id source mime now kinds) kind kinds
          (artifact node_id kind db) found db objects distinct.0.0
          (λ f d os free. generate_types-Done kinds f d os distinct.1 free) unique refl

    blocked-artifact :
        (rest : Rest) (o : Option DerivedArtifactRecord) (a : DerivedArtifactRecord) (found : Bool)
        (db : Db) (objects : List StoredObject)
        → o ≡ some a
        → a.state ≡ ArtifactState.failed
        → on_artifact media source mime now rest o found db objects
          ≡ failed_with previously_failed db objects
    blocked-artifact rest o a found db objects here state = rw (here, state) refl

    settled-artifact :
        (rest : Rest) (o : Option DerivedArtifactRecord) (found : Bool) (db : Db)
        (objects : List StoredObject)
        → ((a : DerivedArtifactRecord) → o ≡ some a → a.state ≡ ArtifactState.ready)
        → on_artifact media source mime now rest o found db objects ≡ rest found db objects
    settled-artifact rest none found db objects h = refl
    settled-artifact rest (some a) found db objects h = rw (h a refl) refl

    generate_types-IsBlocked :
        (kinds : List ArtifactType) (found : Bool) (db : Db) (objects : List StoredObject)
        → IsBlocked kinds db
        → generate_types media node_id source mime now kinds found db objects
          ≡ failed_with previously_failed db objects
    unfolding generate_types
    generate_types-IsBlocked [] found db objects h = cc
    generate_types-IsBlocked (kind ∷ kinds) found db objects (inl (a, here, state)) =
        blocked-artifact (generate_types media node_id source mime now kinds)
          (artifact node_id kind db) a found db objects here state
    generate_types-IsBlocked (kind ∷ kinds) found db objects (inr (calm, h)) =
        settled-artifact (generate_types media node_id source mime now kinds)
          (artifact node_id kind db) found db objects calm
        ∙ generate_types-IsBlocked kinds found db objects h

abbrev both : List ArtifactType
both = thumbnail ∷ preview ∷ []

both-Distinct : (node_id : ℕ) → Distinct node_id both
both-Distinct node_id = ((((refl, tt), (refl, tt))), (((tt, tt)), tt))

-- A job that gets as far as the artifacts, or one that changes nothing.
previews-cases :
    (media : Media) (job : JobRecord) (now : ℕ) (db : Db) (objects : List StoredObject)
    → ((x : PreviewError) × (generate_previews media job now db objects ≡ failed_with x db objects)
        × ((x ≡ generation) → true ≡ false))
      ⊎ ((source : ℕ) × (mime : Text) × (generate_previews media job now db objects
            ≡ generate_types media job.target_node_id source mime now both false db objects))
unfolding generate_previews
previews-cases media job now db objects =
    elim (Option-cases (get_file_object_by_node_id job.target_node_id db.file_objects)) [
      | inl missing ↦ inl (PreviewError.no_file, rw (generate_previews, missing) refl, (λ e. cc))
      | inr (file, here) ↦
          elim (Option-cases (content_of (key_in_originals file.storage_key) objects)) [
            | inl lost ↦
                inl (PreviewError.unreadable, rw (generate_previews, here, lost) refl, (λ e. cc))
            | inr (source, read) ↦ elim (Option-cases (media.detect_mime source)) [
              | inl unknown ↦ inl (
                PreviewError.unknown_mime,
                rw (generate_previews, here, read, unknown) refl,
                (λ e. cc),
              )
              | inr (mime, detected) ↦
                  inr (source, mime, rw (generate_previews, here, read, detected) refl)
            ]
          ]
    ]

-- A preview job that succeeds leaves no artifact of its file waiting or failed: the thumbnail and the
-- preview, where there is one, are ready. There is one artifact of each kind, as before.
pub generate_previews-IsSettled :
    (media : Media) (job : JobRecord) (now : ℕ) (db : Db) (objects : List StoredObject)
    → NoClash artifact_clash db.derived_artifacts
    → (generate_previews media job now db objects).outcome ≡ ok tt
    → IsSettled job.target_node_id thumbnail (generate_previews media job now db objects).db
      × IsSettled job.target_node_id preview (generate_previews media job now db objects).db
      × NoClash artifact_clash (generate_previews media job now db objects).db.derived_artifacts
generate_previews-IsSettled media job now db objects unique e =
    elim (previews-cases media job now db objects) [
      | inl (x, stopped, _) ↦
          let h : Path (Result PreviewError (Unit {0})) (err x) (ok tt) =
            ap (λ (r : Generated). r.outcome) (sym stopped) ∙ e in
          cc
      | inr (source, mime, looped) ↦
          let g = generate_types media job.target_node_id source mime now both false db objects in
          let (kept, _, finished, _) =
            generate_types-Done job.target_node_id media source mime now both false db objects
              (both-Distinct job.target_node_id) unique in
          let (a, (b, _)) = finished (ap (λ (r : Generated). r.outcome) (sym looped) ∙ e) in
          subst
            (λ (r : Generated).
              IsSettled job.target_node_id thumbnail r.db
              × IsSettled job.target_node_id preview r.db
              × NoClash artifact_clash r.db.derived_artifacts)
            {x = g} (sym looped) ((a, b, kept))
    ]

-- Once the generation of one of a file's artifacts has failed, no retry of the job generates anything,
-- whatever the generators would now make of the file and whatever is stored: it fails again, and
-- changes neither the database nor the objects.
pub generate_previews-retry :
    (media : Media) (job : JobRecord) (now : ℕ) (db : Db) (objects : List StoredObject)
    → NoClash artifact_clash db.derived_artifacts
    → (generate_previews media job now db objects).outcome ≡ err generation
    → (media' : Media) (now' : ℕ) (objects' : List StoredObject)
    → (x : PreviewError) × (generate_previews media' job now'
          (generate_previews media job now db objects).db
          objects'
        ≡ failed_with x (generate_previews media job now db objects).db objects')
generate_previews-retry media job now db objects unique e media' now' objects' =
    elim (previews-cases media job now db objects) [
      | inl (x, stopped, other) ↦
          let h : Path (Result PreviewError (Unit {0})) (err x) (err generation) =
            ap (λ (r : Generated). r.outcome) (sym stopped) ∙ e in
          let same : x ≡ generation = cc in absurd (ground (arith, other same))
      | inr (source, mime, looped) ↦
          let after = (generate_previews media job now db objects).db in
          let (_, _, _, blocked) =
            generate_types-Done job.target_node_id media source mime now both false db objects
              (both-Distinct job.target_node_id) unique in
          let stuck : IsBlocked job.target_node_id both after =
            subst (λ (r : Generated). IsBlocked job.target_node_id both r.db) (sym looped)
              (blocked (ap (λ (r : Generated). r.outcome) (sym looped) ∙ e)) in
          elim (previews-cases media' job now' after objects') [
            | inl (x, stopped, _) ↦ (x, stopped)
            | inr (source', mime', looped') ↦ (
              previously_failed,
              looped'
                  ∙ generate_types-IsBlocked job.target_node_id media' source' mime' now' both false
                      after objects' stuck,
            )
          ]
    ]
