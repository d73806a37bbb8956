-- ===== src/Db/Imports.antt =====
-- The watched-folder imports of crates/db/src/lib.rs: sources, entries and their states.
pub mod Finalization
mod Tests
use strife.Base.{
  ℕ, String, Option, none, some, List, [], ◌∷◌, Bool, true, false, ◌&&◌, ◌||◌, not, leb, ◌==◌,
  str_eq, is_some, if◌then◌else◌, any, count, find, where_rows, update_rows, updated, order_by,
}
use text.Mathlib.Text.{starts_with}
use strife.Base.Rows.{row}
use strife.Base.Result.{Result, ok, err, ok_or}
use strife.Db.Schema.{
  DbError, unique_violation, foreign_key_violation, check_violation, row_not_found,
  ImportEntryState, discovered, stable, importing, imported, failed, ImportEntryRecord,
  ImportSourceRecord,
}

abbrev pub same_state : ImportEntryState → ImportEntryState → Bool
same_state discovered discovered = true
same_state stable stable = true
same_state importing importing = true
same_state imported imported = true
same_state failed failed = true
same_state _ _ = false

abbrev pub get_import_source : ℕ → List ImportSourceRecord → Option ImportSourceRecord
get_import_source = row (λ s. s.id)

pub record ImportSourceStatusRecord : Type 0 where
  pub id : ℕ
  pub watch_path : String
  pub destination_folder_id : ℕ
  pub enabled : Bool
  pub last_scan_at : Option ℕ
  pub discovered_count : ℕ
  pub stable_count : ℕ
  pub importing_count : ℕ
  pub imported_count : ℕ
  pub failed_count : ℕ

-- count(entry.id) FILTER (WHERE entry.state = …) over the entries of a source
abbrev pub count_state : ℕ → ImportEntryState → List ImportEntryRecord → ℕ
count_state source_id state = count (λ e. e.source_id == source_id && same_state e.state state)

abbrev pub status_of : List ImportEntryRecord → ImportSourceRecord → ImportSourceStatusRecord
status_of entries s = record {
  id = s.id;
  watch_path = s.watch_path;
  destination_folder_id = s.destination_folder_id;
  enabled = s.enabled;
  last_scan_at = s.last_scan_at;
  discovered_count = count_state s.id discovered entries;
  stable_count = count_state s.id stable entries;
  importing_count = count_state s.id importing entries;
  imported_count = count_state s.id imported entries;
  failed_count = count_state s.id failed entries;
}

abbrev statuses : List ImportEntryRecord → List ImportSourceRecord → List ImportSourceStatusRecord
statuses entries [] = []
statuses entries (s ∷ ss) = status_of entries s ∷ statuses entries ss

unfoldable pub list_import_source_statuses :
    List ImportSourceRecord → List ImportEntryRecord → List ImportSourceStatusRecord
list_import_source_statuses sources entries = statuses entries (
    order_by
      (λ a b. if a.created_at == b.created_at then leb a.id b.id else leb a.created_at b.created_at)
      sources)

abbrev pub enable : Bool → ℕ → ImportSourceRecord → ImportSourceRecord
enable enabled now s = record s { enabled = enabled; updated_at = now }

unfoldable pub set_import_source_enabled :
    ℕ → Bool → ℕ → List ImportSourceRecord → Option ImportSourceRecord × List ImportSourceRecord
set_import_source_enabled source_id enabled now sources = (
  updated (λ s. s.id == source_id) (enable enabled now) sources,
  update_rows (λ s. s.id == source_id) (enable enabled now) sources,
)

abbrev pub scanned : ℕ → ImportSourceRecord → ImportSourceRecord
scanned now s = record s { last_scan_at = some now; updated_at = now }

unfoldable pub mark_import_source_scanned :
    ℕ → ℕ → List ImportSourceRecord → List ImportSourceRecord
mark_import_source_scanned source_id now = update_rows (λ s. s.id == source_id) (scanned now)

abbrev pub in_state : Option ImportEntryState → ImportEntryRecord → Bool
in_state none e = true
in_state (some state) e = same_state e.state state

unfoldable pub list_import_entries :
    ℕ → Option ImportEntryState → List ImportEntryRecord → List ImportEntryRecord
list_import_entries source_id state entries =
    order_by
      (λ a b. if a.updated_at == b.updated_at then leb a.id b.id else leb b.updated_at a.updated_at)
      (where_rows (λ e. e.source_id == source_id && in_state state e) entries)

abbrev pub get_import_entry : ℕ → List ImportEntryRecord → Option ImportEntryRecord
get_import_entry = row (λ e. e.id)

-- UPDATE import_entries SET f WHERE p RETURNING *, by fetch_one
abbrev pub update_entry :
    (ImportEntryRecord → Bool)
    → (ImportEntryRecord → ImportEntryRecord)
    → List ImportEntryRecord
    → Result DbError (ImportEntryRecord × List ImportEntryRecord)
update_entry p f entries = elim (updated p f entries) [
  | none ↦ err row_not_found
  | some e ↦ ok (e, update_rows p f entries)
]

abbrev pub set_state : ImportEntryState → ℕ → ImportEntryRecord → ImportEntryRecord
set_state state now e = record e { state = state; error_message = none; updated_at = now }

-- By fetch_optional.
unfoldable pub retry_import_entry :
    ℕ → ℕ → ℕ → List ImportEntryRecord → Option ImportEntryRecord × List ImportEntryRecord
retry_import_entry source_id entry_id now entries =
    let p = λ (e : ImportEntryRecord).
      e.id == entry_id && (e.source_id == source_id && same_state e.state failed) in
    (updated p (set_state discovered now) entries, update_rows p (set_state discovered now) entries)

pub record UpsertImportEntry : Type 0 where
  pub source_id : ℕ
  pub source_path : String
  pub source_size : ℕ
  pub source_modified_at : ℕ

abbrev pub new_entry : ℕ → UpsertImportEntry → ℕ → ImportEntryRecord
new_entry id input now = record {
  id = id;
  source_id = input.source_id;
  source_path = input.source_path;
  source_size = input.source_size;
  source_modified_at = input.source_modified_at;
  source_checksum = none;
  state = discovered;
  resulting_node_id = none;
  error_message = none;
  created_at = now;
  updated_at = now;
}

-- ON CONFLICT (source_id, source_path) DO UPDATE
abbrev pub refresh : UpsertImportEntry → ℕ → ImportEntryRecord → ImportEntryRecord
refresh input now e =
    let again = same_state e.state imported in
    record e {
      source_size = input.source_size;
      source_modified_at = input.source_modified_at;
      state = if again then discovered else e.state;
      resulting_node_id = if again then none else e.resulting_node_id;
      source_checksum = if again then none else e.source_checksum;
      updated_at = now;
    }

abbrev pub same_path : UpsertImportEntry → ImportEntryRecord → Bool
same_path input e = e.source_id == input.source_id && str_eq e.source_path input.source_path

-- The CHECK on the path is that of the row to insert; `source_exists` is the foreign key's test.
unfoldable pub upsert_import_entry :
    ℕ
    → UpsertImportEntry
    → ℕ
    → Bool
    → List ImportEntryRecord
    → Result DbError (ImportEntryRecord × List ImportEntryRecord)
upsert_import_entry id input now source_exists entries =
    if str_eq input.source_path "" || starts_with input.source_path "/"
    then err check_violation
    else elim (updated (same_path input) (refresh input now) entries) [
      | some e ↦ ok (e, update_rows (same_path input) (refresh input now) entries)
      | none ↦
          if any (λ e. e.id == id) entries
          then err unique_violation
          else if source_exists
          then ok (new_entry id input now, new_entry id input now ∷ entries)
          else err foreign_key_violation
    ]

-- state IN ('discovered', 'stable', 'importing')
abbrev pub is_unfinished : ImportEntryState → Bool
is_unfinished s = same_state s discovered || (same_state s stable || same_state s importing)

unfoldable pub list_pending_entries : ℕ → List ImportEntryRecord → List ImportEntryRecord
list_pending_entries source_id entries =
    order_by
      (λ a b. if a.created_at == b.created_at then leb a.id b.id else leb a.created_at b.created_at)
      (where_rows (λ e. e.source_id == source_id && is_unfinished e.state) entries)

unfoldable pub set_import_entry_state :
    ℕ
    → ImportEntryState
    → ℕ
    → List ImportEntryRecord
    → Result DbError (ImportEntryRecord × List ImportEntryRecord)
set_import_entry_state entry_id state now =
    update_entry (λ e. e.id == entry_id) (set_state state now)

abbrev pub mark_import_stable :
    ℕ → ℕ → List ImportEntryRecord → Result DbError (ImportEntryRecord × List ImportEntryRecord)
mark_import_stable entry_id = set_import_entry_state entry_id stable

abbrev pub reset_import_discovered :
    ℕ → ℕ → List ImportEntryRecord → Result DbError (ImportEntryRecord × List ImportEntryRecord)
reset_import_discovered entry_id = set_import_entry_state entry_id discovered

-- state IN ('stable', 'importing')
abbrev pub is_ready : ImportEntryState → Bool
is_ready s = same_state s stable || same_state s importing

unfoldable pub mark_importing :
    ℕ → ℕ → List ImportEntryRecord → Result DbError (ImportEntryRecord × List ImportEntryRecord)
mark_importing entry_id now =
    update_entry (λ e. e.id == entry_id && is_ready e.state) (set_state importing now)

unfoldable pub list_importing_entries : List ImportEntryRecord → List ImportEntryRecord
list_importing_entries entries =
    order_by
      (λ a b. if a.updated_at == b.updated_at then leb a.id b.id else leb a.updated_at b.updated_at)
      (where_rows (λ e. same_state e.state importing) entries)

abbrev pub import_done : ℕ → String → ℕ → ImportEntryRecord → ImportEntryRecord
import_done node_id checksum now e = record e {
  state = imported;
  resulting_node_id = some node_id;
  source_checksum = some checksum;
  error_message = none;
  updated_at = now;
}

-- `node_exists` is the test of the foreign key.
unfoldable pub mark_imported :
    ℕ
    → ℕ
    → String
    → ℕ
    → Bool
    → List ImportEntryRecord
    → Result DbError (ImportEntryRecord × List ImportEntryRecord)
mark_imported entry_id node_id checksum now node_exists entries =
    let r = update_entry (λ e. e.id == entry_id) (import_done node_id checksum now) entries in
    if any (λ e. e.id == entry_id) entries && not node_exists then err foreign_key_violation else r

abbrev pub import_failed : String → ℕ → ImportEntryRecord → ImportEntryRecord
import_failed message now e = record e {
  state = failed;
  error_message = some message;
  updated_at = now;
}

unfoldable pub mark_import_failed :
    ℕ
    → String
    → ℕ
    → List ImportEntryRecord
    → Result DbError (ImportEntryRecord × List ImportEntryRecord)
mark_import_failed entry_id message now =
    update_entry (λ e. e.id == entry_id) (import_failed message now)
