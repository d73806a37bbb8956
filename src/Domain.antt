-- ===== src/Domain.antt =====
-- crates/domain/src/lib.rs: the stateless rules for folder names, siblings and moves.
use strife.Base.{
  ℕ, String, Option, List, Bool, true, false, ◌&&◌, ◌||◌, str_eq, ◌==◌, any, elem, if◌then◌else◌,
}
use strife.Base.Result.{Result, ok, err}

pub data NodeKind : Type 0 where
  folder file : NodeKind

pub data LifecycleState : Type 0 where
  active trashed deleted : LifecycleState

pub record Node : Type 0 where
  pub id : ℕ
  pub parent_id : Option ℕ
  pub name : String
  pub kind : NodeKind
  pub lifecycle_state : LifecycleState
  pub source_created_at : Option ℕ
  pub source_modified_at : Option ℕ
  pub created_at : ℕ
  pub updated_at : ℕ

pub data FolderError : Type 0 where
  name_conflict cycle_detected not_found invalid_name : FolderError

unfoldable pub validate_name : String → Result FolderError String
validate_name name = if str_eq name "" then err invalid_name else ok name

abbrev is_active : LifecycleState → Bool
is_active active = true
is_active _ = false

unfoldable pub validate_unique_sibling : String → List Node → Result FolderError (Unit {0})
validate_unique_sibling name siblings =
    if any (λ sibling. is_active sibling.lifecycle_state && str_eq sibling.name name) siblings
    then err name_conflict
    else ok tt

unfoldable pub validate_move_target : ℕ → ℕ → List ℕ → Result FolderError (Unit {0})
validate_move_target folder_id target_id descendant_ids =
    if target_id == folder_id || elem target_id descendant_ids then err cycle_detected else ok tt
