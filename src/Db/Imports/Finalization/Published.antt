-- ===== src/Db/Imports/Finalization/Published.antt =====
-- The tables after a successful finalize_import of crates/db/src/lib.rs.
use strife.Base.{
  ℕ, ◌⊎◌, ◌≡◌, refl, ap, ◌∙◌, subst, String, none, some, List, [], ◌∷◌, true, arith, ◌==◌, inl, inr,
  Bool-cases, Option-cases, find, update_rows,
}
use strife.Base.Rows.{row-update_rows, key-row}
use strife.Base.Result.{ok, >>=-eq-ok, Result-cases}
use strife.Db.Schema.{Db, ImportEntryRecord, ImportEntryState, NodeRecord, NodeKind, folder, file}
use strife.Db.Nodes.{
  active_folder, is_folder, get_node_by_id, insert_node, new_node, is_active_folder,
}
use strife.Db.Nodes.Invariant.{IsHierarchy, folder_of_active}
use strife.Db.Nodes.Insertion.{insert_node-IsHierarchy}
use strife.Db.Imports.{get_import_entry, same_state, is_ready, import_done}
use strife.Db.Imports.Finalization.{
  FinalizeImport, finalize_import, publish_import, find_or_create_import_folder,
  find_or_create_path, named_child, imported_node, ensure_import_destination,
}

found_child :
    (parent_id : ℕ) (name : String) (n : NodeRecord) (ns : List NodeRecord)
    → find (named_child parent_id name) ns ≡ some n
    → is_folder n.kind ≡ true
    → is_active_folder n.id ns ≡ true
found_child parent_id name n [] e k = cc
found_child parent_id name n (m ∷ ms) e k = elim (Bool-cases (named_child parent_id name m)) [
  | inl hit ↦
      let same : m ≡ n = ground arith in
      rw (← same) (ground (arith, ap (λ (x : NodeRecord). is_folder x.kind) same))
  | inr miss ↦ ground (arith, found_child parent_id name n ms)
]

inserted_folder :
    (n : NodeRecord) (nodes after : List NodeRecord)
    → active_folder n ≡ true
    → insert_node n nodes ≡ ok after
    → is_active_folder n.id after ≡ true
unfolding insert_node
inserted_folder n nodes after f e = ground arith

-- The branches of a success.
folder-parts :
    (id p : ℕ) (name : String) (now d : ℕ) (nodes after : List NodeRecord)
    → find_or_create_import_folder id p name now nodes ≡ ok (d, after)
    → ((n : NodeRecord) × (find (named_child p name) nodes ≡ some n)
        × (is_folder n.kind ≡ true)
        × (n.id ≡ d)
        × (nodes ≡ after))
      ⊎ ((insert_node (new_node id p name folder none none now) nodes ≡ ok after) × (id ≡ d))
unfolding find_or_create_import_folder
folder-parts id p name now d nodes after e = elim (Option-cases (find (named_child p name) nodes)) [
  | inl missing ↦ inr (ground arith)
  | inr (n, hit) ↦ elim (kind-cases n.kind) [
    | inl is ↦ inl (n, hit, ground arith, ground arith, ground arith)
    | inr is ↦ ground arith
  ]
]
  where
    kind-cases : (k : NodeKind) → (k ≡ folder) ⊎ (k ≡ file)
    kind-cases folder = inl refl
    kind-cases file = inr refl

find_or_create_import_folder-IsHierarchy :
    (id p : ℕ) (name : String) (now d : ℕ) (nodes after : List NodeRecord)
    → IsHierarchy nodes
    → is_active_folder p nodes ≡ true
    → find_or_create_import_folder id p name now nodes ≡ ok (d, after)
    → IsHierarchy after × (is_active_folder d after ≡ true)
find_or_create_import_folder-IsHierarchy id p name now d nodes after h live e =
    elim (folder-parts id p name now d nodes after e) [
      | inl (n, hit, is, same, kept) ↦
          (subst IsHierarchy kept h, rw (← kept, ← same) (found_child p name n nodes hit is))
      | inr (inserted, same) ↦ (
        insert_node-IsHierarchy (new_node id p name folder none none now) nodes after h
            (folder_of_active nodes (some p) live) (λ _. live) inserted,
        rw (← same)
            (inserted_folder (new_node id p name folder none none now) nodes after refl inserted),
      )
    ]

find_or_create_path-IsHierarchy :
    (names : List (ℕ × String)) (p now d : ℕ) (nodes after : List NodeRecord)
    → IsHierarchy nodes
    → is_active_folder p nodes ≡ true
    → find_or_create_path names p now nodes ≡ ok (d, after)
    → IsHierarchy after × (is_active_folder d after ≡ true)
unfolding find_or_create_path
find_or_create_path-IsHierarchy [] p now d nodes after h live e =
    let same : (p ≡ d) × (nodes ≡ after) = ground arith in
    (subst IsHierarchy same.1 h, rw (← same.0, ← same.1) live)
find_or_create_path-IsHierarchy ((id, name) ∷ rest) p now d nodes after h live e =
    let (r, at_r, tail) =
      >>=-eq-ok (find_or_create_import_folder id p name now nodes)
        (λ r. find_or_create_path rest r.0 now r.1) e in
    let (h', live') =
      find_or_create_import_folder-IsHierarchy id p name now r.0 nodes r.1 h live at_r in
    find_or_create_path-IsHierarchy rest r.0 now d r.1 after h' live' tail

publish_import-parts :
    (input : FinalizeImport) (now : ℕ) (db after : Db) (n : NodeRecord)
    → publish_import input now db ≡ ok (n, after)
    → (d : ℕ) × (mid : List NodeRecord) × (is_active_folder input.destination_folder_id db.nodes
        ≡ true)
      × (find_or_create_path input.directory_names input.destination_folder_id now db.nodes
          ≡ ok (d, mid))
      × (n ≡ imported_node input d now)
      × (insert_node n mid ≡ ok after.nodes)
      × (after.nodes ≡ n ∷ mid)
      × (after.import_entries
          ≡ update_rows
              (λ e. e.id == input.entry_id)
              (import_done n.id input.object.checksum_sha256 now)
              db.import_entries)
unfolding publish_import ensure_import_destination insert_node
publish_import-parts input now db after n e =
    elim (Result-cases
      (find_or_create_path input.directory_names input.destination_folder_id now db.nodes)) [
        | inl (x, failed) ↦ ground arith
        | inr (r, path) ↦
            (r.0, r.1, ground arith, path, ground arith, ground arith, ground arith, ground arith)
      ]

finalize_import-publish :
    (input : FinalizeImport) (now : ℕ) (db after : Db) (n : NodeRecord) (t : ImportEntryRecord)
    → get_import_entry input.entry_id db.import_entries ≡ some t
    → is_ready t.state ≡ true
    → finalize_import input now db ≡ ok (n, after)
    → publish_import input now db ≡ ok (n, after)
unfolding finalize_import
finalize_import-publish input now db after n t found ready e = ground arith

-- The call of an entry that is imported returns its node, and changes nothing.
finalize_import-imported :
    (input : FinalizeImport) (now : ℕ) (db : Db) (n : NodeRecord) (t : ImportEntryRecord)
    → get_import_entry input.entry_id db.import_entries ≡ some t
    → same_state t.state ImportEntryState.imported ≡ true
    → t.resulting_node_id ≡ some n.id
    → get_node_by_id n.id db.nodes ≡ some n
    → finalize_import input now db ≡ ok (n, db)
unfolding finalize_import
finalize_import-imported input now db n t found is at_n node = ground arith

module _ (input : FinalizeImport) (now : ℕ) (db after : Db) (n : NodeRecord) (t : ImportEntryRecord)
    (found : get_import_entry input.entry_id db.import_entries ≡ some t)
    (ready : is_ready t.state ≡ true) (done : finalize_import input now db ≡ ok (n, after)) where
  -- An import that succeeds keeps the hierarchy, and the file that it returns is in the table, active,
  -- under an active folder.
  pub finalize_import-IsHierarchy :
      IsHierarchy db.nodes
      → IsHierarchy after.nodes
        × (get_node_by_id n.id after.nodes ≡ some n)
        × (d : ℕ) × (n ≡ imported_node input d now)
        × (is_active_folder d after.nodes ≡ true)
  finalize_import-IsHierarchy h =
      let published = finalize_import-publish input now db after n t found ready done in
      let (d, mid, live, path, same, inserted, nodes, entries) =
        publish_import-parts input now db after n published in
      let (h', live') =
        find_or_create_path-IsHierarchy input.directory_names input.destination_folder_id now d
          db.nodes mid h live path in
      (
        insert_node-IsHierarchy n mid after.nodes h' (rw same (folder_of_active mid (some d) live'))
            (rw same (λ f. cc)) inserted,
        rw nodes (ground arith),
        d,
        same,
        rw nodes (ground (arith, live')),
      )

  -- The entry of a successful import is imported with the file's node, and a second call for the
  -- entry returns the same node and changes nothing.
  pub finalize_import-again :
      (input' : FinalizeImport) (later : ℕ)
      → input'.entry_id ≡ input.entry_id
      → finalize_import input' later after ≡ ok (n, after)
  finalize_import-again input' later same_entry =
      let published = finalize_import-publish input now db after n t found ready done in
      let (d, mid, live, path, same, inserted, nodes, entries) =
        publish_import-parts input now db after n published in
      let entry : get_import_entry input'.entry_id after.import_entries
          ≡ some (import_done n.id input.object.checksum_sha256 now t) =
        rw (same_entry, entries)
          (row-update_rows (λ e. e.id) (λ e. e.id == input.entry_id)
              (import_done n.id input.object.checksum_sha256 now) (λ e. refl) input.entry_id
              db.import_entries
            ∙ rw found
                (ground (arith, key-row (λ e. e.id) input.entry_id db.import_entries t found))) in
      finalize_import-imported input' later after n
        (import_done n.id input.object.checksum_sha256 now t) entry refl refl
        (rw nodes (ground arith))
