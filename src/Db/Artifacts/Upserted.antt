-- ===== src/Db/Artifacts/Upserted.antt =====
-- create_or_update_artifact of crates/db/src/lib.rs: the artifact that it leaves, and the others.
use strife.Base.{
  ℕ, ◌≡◌, refl, ap, sym, subst, ◌∙◌, none, some, List, [], ◌∷◌, Bool, true, false, ◌&&◌, not, arith,
  inl, inr, ◌⊎◌, Bool-cases, Option-cases, ◌==◌, some_injective, any, find, updated, update_rows,
}
use strife.Base.Rows.{NoClash, update_rows-NoClash, All-of_forall}
use strife.Base.Result.{ok}
use strife.Db.Schema.{ArtifactType, DerivedArtifactRecord, Db}
use strife.Db.Nodes.{node_exists}
use strife.Db.Artifacts.{
  same_kind, UpsertArtifact, of_node, get_artifact, inserted_artifact, excluded,
  create_or_update_artifact,
}

abbrev pub artifact_clash : DerivedArtifactRecord → DerivedArtifactRecord → Bool
artifact_clash a b = of_node a.node_id a.artifact_type b

pub kind_refl : (k : ArtifactType) → same_kind k k ≡ true
kind_refl ArtifactType.thumbnail = refl
kind_refl ArtifactType.preview = refl

pub kind_eq : (j k : ArtifactType) → same_kind j k ≡ true → j ≡ k
kind_eq ArtifactType.thumbnail ArtifactType.thumbnail h = refl
kind_eq ArtifactType.preview ArtifactType.preview h = refl
kind_eq ArtifactType.thumbnail ArtifactType.preview h = cc
kind_eq ArtifactType.preview ArtifactType.thumbnail h = cc

kind_trans :
    (a j k : ArtifactType) → same_kind a j ≡ true → same_kind a k ≡ true → same_kind j k ≡ true
kind_trans a j k p q = subst (λ x. same_kind x k ≡ true) (kind_eq a j p) q

-- What an upsert writes, besides the key of the row.
abbrev pub Wrote : UpsertArtifact → DerivedArtifactRecord → Type 0
Wrote input a =
    (a.node_id ≡ input.node_id)
    × (a.artifact_type ≡ input.artifact_type)
    × (a.state ≡ input.state)
    × (a.storage_key ≡ input.storage_key)
    × (a.format ≡ input.format)
    × (a.byte_size ≡ input.byte_size)

abbrev pub another : UpsertArtifact → ℕ → ArtifactType → Bool
another input node_id kind = not (input.node_id == node_id && same_kind input.artifact_type kind)

upserted-Wrote :
    (input : UpsertArtifact) (now : ℕ) (rows : List DerivedArtifactRecord)
    (a : DerivedArtifactRecord)
    → updated (of_node input.node_id input.artifact_type) (excluded input now) rows ≡ some a
    → Wrote input a
upserted-Wrote input now [] a e = cc
upserted-Wrote input now (x ∷ rest) a e =
    elim (Bool-cases (of_node input.node_id input.artifact_type x)) [
      | inl hit ↦ subst (Wrote input) (some_injective (rw hit at e)) (
          (
            ground arith,
            kind_eq x.artifact_type input.artifact_type (ground arith),
            refl,
            refl,
            refl,
            refl,
          ))
      | inr miss ↦ upserted-Wrote input now rest a (rw miss at e)
    ]

find-upserted :
    (input : UpsertArtifact) (now : ℕ) (rows : List DerivedArtifactRecord)
    → find
        (of_node input.node_id input.artifact_type)
        (update_rows (of_node input.node_id input.artifact_type) (excluded input now) rows)
      ≡ updated (of_node input.node_id input.artifact_type) (excluded input now) rows
find-upserted input now [] = refl
find-upserted input now (a ∷ rest) = ground (arith, find-upserted input now rest)

find-not_upserted :
    (node_id : ℕ) (kind : ArtifactType) (input : UpsertArtifact) (now : ℕ)
    (rows : List DerivedArtifactRecord)
    → another input node_id kind ≡ true
    → find
        (of_node node_id kind)
        (update_rows (of_node input.node_id input.artifact_type) (excluded input now) rows)
      ≡ find (of_node node_id kind) rows
find-not_upserted node_id kind input now [] other = refl
find-not_upserted node_id kind input now (a ∷ rest) other = ground (
  arith,
  kind_trans a.artifact_type input.artifact_type kind,
  find-not_upserted node_id kind input now rest,
)

-- The two branches of the upsert.
upsert_cases :
    (id : ℕ) (input : UpsertArtifact) (now : ℕ) (db after : Db) (a : DerivedArtifactRecord)
    → create_or_update_artifact id input now db ≡ ok (a, after)
    → ((updated
            (of_node input.node_id input.artifact_type)
            (excluded input now)
            db.derived_artifacts
          ≡ some a)
        × (after.derived_artifacts
            ≡ update_rows
                (of_node input.node_id input.artifact_type)
                (excluded input now)
                db.derived_artifacts))
      ⊎ ((updated
              (of_node input.node_id input.artifact_type)
              (excluded input now)
              db.derived_artifacts
            ≡ none)
          × (a ≡ inserted_artifact id input now)
          × (after.derived_artifacts ≡ inserted_artifact id input now ∷ db.derived_artifacts))
unfolding create_or_update_artifact
upsert_cases id input now db after a e =
    elim (Option-cases (
      updated (of_node input.node_id input.artifact_type) (excluded input now)
        db.derived_artifacts)) [
          | inl fresh ↦ elim (Bool-cases (node_exists input.node_id db.nodes)) [
            | inl exists ↦ inr (fresh, cc, cc)
            | inr missing ↦ cc
          ]
          | inr (b, here) ↦ inl (cc, cc)
        ]

not_updated-any {ℓ} :
    {A : Type ℓ} (p : A → Bool) (f : A → A) (xs : List A) → updated p f xs ≡ none → any p xs ≡ false
not_updated-any p f [] e = refl
not_updated-any p f (x ∷ xs) e = ground (arith, not_updated-any p f xs)

excluded-NoClash :
    (input : UpsertArtifact) (now : ℕ) (rows : List DerivedArtifactRecord)
    → NoClash artifact_clash rows
    → NoClash artifact_clash
        (update_rows (of_node input.node_id input.artifact_type) (excluded input now) rows)
excluded-NoClash input now rows unique =
    update_rows-NoClash (λ _. Unit {0}) (of_node input.node_id input.artifact_type)
      (excluded input now) artifact_clash (λ x y _ _ h. ground arith) rows
      (All-of_forall (λ _. Unit {0}) (λ _. tt) rows) unique

inserted-other :
    (input : UpsertArtifact) (id now node_id : ℕ) (kind : ArtifactType)
    (rows : List DerivedArtifactRecord)
    → another input node_id kind ≡ true
    → find (of_node node_id kind) (inserted_artifact id input now ∷ rows)
      ≡ find (of_node node_id kind) rows
inserted-other input id now node_id kind rows other = ground arith

-- An upsert is an update at one key: it leaves what was given at the input's node and kind, where it is
-- found, changes no artifact of another node or kind, and keeps one artifact for each node and kind.
pub create_or_update_artifact-get :
    (id : ℕ) (input : UpsertArtifact) (now : ℕ) (db after : Db) (a : DerivedArtifactRecord)
    → NoClash artifact_clash db.derived_artifacts
    → create_or_update_artifact id input now db ≡ ok (a, after)
    → Wrote input a
      × (get_artifact input.node_id input.artifact_type after.derived_artifacts ≡ some a)
      × ((node_id : ℕ) (kind : ArtifactType)
          → another input node_id kind ≡ true
          → get_artifact node_id kind after.derived_artifacts
            ≡ get_artifact node_id kind db.derived_artifacts)
      × NoClash artifact_clash after.derived_artifacts
unfolding get_artifact
create_or_update_artifact-get id input now db after a unique e =
    let rows = db.derived_artifacts in
    elim (upsert_cases id input now db after a e) [
      | inl (here, left) ↦ (
        upserted-Wrote input now rows a here,
        ap (find (of_node input.node_id input.artifact_type)) left
            ∙ find-upserted input now rows
            ∙ here,
        (λ node_id kind other.
            ap (find (of_node node_id kind)) left
            ∙ find-not_upserted node_id kind input now rows other),
        subst (NoClash artifact_clash) (sym left) (excluded-NoClash input now rows unique),
      )
      | inr (fresh, same, left) ↦ (
        subst (Wrote input) (sym same) (refl, refl, refl, refl, refl, refl),
        ap (find (of_node input.node_id input.artifact_type)) left
            ∙ ground (arith, kind_refl input.artifact_type, sym same),
        (λ node_id kind other.
            ap (find (of_node node_id kind)) left
            ∙ inserted-other input id now node_id kind rows other),
        subst (NoClash artifact_clash) (sym left) (
          not_updated-any (of_node input.node_id input.artifact_type) (excluded input now) rows
              fresh,
          unique,
        ),
      )
    ]

-- For a node that is there the upsert succeeds, and leaves the nodes and the jobs alone.
pub create_or_update_artifact-done :
    (id : ℕ) (input : UpsertArtifact) (now : ℕ) (db : Db)
    → node_exists input.node_id db.nodes ≡ true
    → (a : DerivedArtifactRecord) × (after : Db) × (create_or_update_artifact id input now db
        ≡ ok (a, after))
      × (after.nodes ≡ db.nodes)
      × (after.jobs ≡ db.jobs)
unfolding create_or_update_artifact
create_or_update_artifact-done id input now db exists =
    elim (Option-cases (
      updated (of_node input.node_id input.artifact_type) (excluded input now)
        db.derived_artifacts)) [
          | inl fresh ↦ (
            inserted_artifact id input now,
            record db { derived_artifacts = inserted_artifact id input now ∷ db.derived_artifacts },
            ground arith,
            refl,
            refl,
          )
          | inr (a, here) ↦ (
            a,
            record db {
              derived_artifacts =
                  update_rows (of_node input.node_id input.artifact_type) (excluded input now)
                    db.derived_artifacts;
            },
            ground arith,
            refl,
            refl,
          )
        ]
