-- ===== src/Db/Artifacts.antt =====
-- The `derived_artifacts` table of crates/db/src/lib.rs: cached previews and thumbnails.
pub mod Upserted
use strife.Base.{
  ℕ, ◌≡◌, refl, ap, sym, subst, ◌∙◌, String, Option, none, some, List, [], ◌∷◌, Bool, true, false,
  ◌&&◌, not, arith, inl, inr, ◌⊎◌, Bool-cases, Option-cases, ◌==◌, some_injective, if◌then◌else◌,
  any, find, updated, update_rows,
}
use strife.Base.Rows.{NoClash, update_rows-NoClash, All-of_forall}
use strife.Base.Result.{Result, ok, err}
use strife.Db.Schema.{
  DbError, foreign_key_violation, ArtifactType, ArtifactState, DerivedArtifactRecord, Db,
}
use strife.Db.Nodes.{node_exists}

abbrev pub same_kind : ArtifactType → ArtifactType → Bool
same_kind ArtifactType.thumbnail ArtifactType.thumbnail = true
same_kind ArtifactType.preview ArtifactType.preview = true
same_kind _ _ = false

pub record UpsertArtifact : Type 0 where
  pub node_id : ℕ
  pub artifact_type : ArtifactType
  pub format : String
  pub width : Option ℕ
  pub height : Option ℕ
  pub storage_key : ℕ
  pub byte_size : ℕ
  pub generator_version : String
  pub state : ArtifactState

-- The index (node_id, artifact_type).
abbrev pub of_node : ℕ → ArtifactType → DerivedArtifactRecord → Bool
of_node node_id kind a = a.node_id == node_id && same_kind a.artifact_type kind

unfoldable pub get_artifact :
    ℕ → ArtifactType → List DerivedArtifactRecord → Option DerivedArtifactRecord
get_artifact node_id kind = find (of_node node_id kind)

abbrev pub inserted_artifact : ℕ → UpsertArtifact → ℕ → DerivedArtifactRecord
inserted_artifact id input now = record {
  id = id;
  node_id = input.node_id;
  artifact_type = input.artifact_type;
  format = input.format;
  width = input.width;
  height = input.height;
  storage_key = input.storage_key;
  byte_size = input.byte_size;
  generator_version = input.generator_version;
  state = input.state;
  created_at = now;
  updated_at = now;
}

abbrev pub excluded : UpsertArtifact → ℕ → DerivedArtifactRecord → DerivedArtifactRecord
excluded input now a = record a {
  format = input.format;
  width = input.width;
  height = input.height;
  storage_key = input.storage_key;
  byte_size = input.byte_size;
  generator_version = input.generator_version;
  state = input.state;
  updated_at = now;
}

-- INSERT … ON CONFLICT (node_id, artifact_type) DO UPDATE … RETURNING *. The new id clashes with none,
-- and the sizes that the callers give are not negative.
unfoldable pub create_or_update_artifact :
    ℕ → UpsertArtifact → ℕ → Db → Result DbError (DerivedArtifactRecord × Db)
create_or_update_artifact id input now db =
    elim (updated (of_node input.node_id input.artifact_type) (excluded input now)
      db.derived_artifacts) [
        | some a ↦ ok (
          a,
          record db {
            derived_artifacts =
                update_rows (of_node input.node_id input.artifact_type) (excluded input now)
                  db.derived_artifacts;
          },
        )
        | none ↦
            if node_exists input.node_id db.nodes
            then ok (
              inserted_artifact id input now,
              record db {
                derived_artifacts = inserted_artifact id input now ∷ db.derived_artifacts;
              },
            )
            else err foreign_key_violation
      ]
