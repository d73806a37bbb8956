-- ===== src/Db/Samples.antt =====
-- Tables that the tests of the child modules of crates/db share.
use mathlib.Core.WellFounded.{Acc}
use strife.Base.{
  ℕ, ◌+◌, ◌≡◌, refl, ◌&&◌, str_eq, String, none, some, List, [], ◌∷◌, Bool, true, arith,
}
use strife.Base.Result.{ok}
use strife.Db.Schema.{
  Db, NodeRecord, folder, file, active, root_node_id, UploadSessionRecord, UploadSessionState,
  FileObjectRecord, FileUploadState,
}
use strife.Domain.{validate_name}
use strife.Db.Nodes.{new_node, insert_node, create_folder, ensure_active_folder}
use strife.Db.Nodes.Invariant.{IsHierarchy}
use strife.Db.Nodes.Insertion.{create_folder-IsHierarchy}
use strife.Db.Nodes.Tree.Termination.{IsForest}

abbrev pub root : NodeRecord
root = record {
  id = root_node_id;
  parent_id = none;
  name = "Files";
  kind = folder;
  lifecycle_state = active;
  source_created_at = none;
  source_modified_at = none;
  created_at = 0;
  updated_at = 0;
}

root-IsForest : IsForest (root ∷ [])
root-IsForest x = Acc.intro x λ p e. absurd (ground arith)

root-IsHierarchy : IsHierarchy (root ∷ [])
root-IsHierarchy = record {
  unique = (refl, tt);
  forest = root-IsForest;
  parents = (refl, tt);
  folders = (tt, tt);
  closed = ((λ e. tt), tt);
}

-- Music, below the root, and Live, below Music.
abbrev pub music : NodeRecord
music = new_node 2 1 "Music" folder none none 10

abbrev pub live : NodeRecord
live = new_node 3 2 "Live" folder none none 11

abbrev pub two_folders : List NodeRecord
two_folders = music ∷ root ∷ []

abbrev pub three_folders : List NodeRecord
three_folders = live ∷ two_folders

pub music_created : create_folder 2 1 "Music" 10 (root ∷ []) ≡ ok (music, two_folders)
unfolding create_folder ensure_active_folder insert_node validate_name
music_created = refl

pub live_created : create_folder 3 2 "Live" 11 two_folders ≡ ok (live, three_folders)
unfolding create_folder ensure_active_folder insert_node validate_name
live_created = refl

pub two_folders-IsHierarchy : IsHierarchy two_folders
two_folders-IsHierarchy =
    create_folder-IsHierarchy 2 1 "Music" 10 (root ∷ []) two_folders music root-IsHierarchy
      music_created

pub three_folders-IsHierarchy : IsHierarchy three_folders
three_folders-IsHierarchy =
    create_folder-IsHierarchy 3 2 "Live" 11 two_folders three_folders live two_folders-IsHierarchy
      live_created

-- A database that holds these nodes, and nothing else.
abbrev pub db_of : List NodeRecord → Db
db_of nodes = record {
  nodes = nodes;
  file_objects = [];
  upload_sessions = [];
  upload_chunks = [];
  jobs = [];
  import_sources = [];
  import_entries = [];
  derived_artifacts = [];
  trash_entries = [];
  favorites = [];
}

abbrev pub name_le : String → String → Bool
name_le a b = true

abbrev pub draw : ℕ → ℕ
draw x = 100 + x

-- A session with the target Music, which expects 10 bytes.
abbrev pub session : UploadSessionRecord
session = record {
  id = 50;
  target_folder_id = 2;
  display_name = "song.flac";
  expected_byte_size = some 10;
  received_bytes = 0;
  staging_key = 60;
  state = UploadSessionState.active;
  checksum_sha256 = none;
  completed_node_id = none;
  source_created_at = none;
  source_modified_at = none;
  expires_at = 1000;
  created_at = 100;
  updated_at = 100;
}

-- Of these names only `a` is less than `b`.
abbrev pub name_lt : String → String → Bool
name_lt s t = str_eq s "a" && str_eq t "b"

abbrev pub folder_b : NodeRecord
folder_b = new_node 2 1 "b" folder none none 10

abbrev pub file_a : NodeRecord
file_a = new_node 3 1 "a" file none none 10

abbrev pub mixed : Db
mixed = db_of (file_a ∷ folder_b ∷ root ∷ [])

-- A file of ten bytes below Music, its finalized object, and its original under the key 70.
abbrev pub song : NodeRecord
song = new_node 4 2 "song.flac" file none none 12

abbrev pub song_object : FileObjectRecord
song_object = record {
  id = 40;
  node_id = some 4;
  storage_key = 70;
  byte_size = 10;
  mime_type = some "image/png";
  checksum_sha256 = none;
  upload_state = FileUploadState.finalized;
  created_at = 12;
  updated_at = 12;
}

abbrev pub with_song : Db
with_song = record (db_of (song ∷ two_folders)) { file_objects = song_object ∷ [] }
