-- ===== src/Db/Trash/Entries.antt =====
-- The table of trash entries under restore_node and trash_nodes of crates/db/src/lib.rs.
use strife.Base.{
  ℕ, ◌≡◌, ◌≢◌, refl, sym, ap, ◌∙◌, subst, String, none, some, List, [], ◌∷◌, Bool, true, false, not,
  arith, inl, inr, ◌==◌, ==_iff, any, where_rows, All, Bool-cases,
}
use strife.Base.Rows.{row, NoClash, rows-found, row-All, key-row, eq_of_key, All-map₂}
use strife.Base.Result.{ok}
use strife.Db.Schema.{Db, NodeRecord, TrashEntry}
use strife.Db.Trash.{
  restore_node, entry_of, entry_clash, insert_entries, new_entry, trash_selected, outer_roots,
  selected_row,
}
use strife.Db.Trash.Restoration.{restore_node-parts}

-- Rows that an UPDATE's or a DELETE's condition keeps are still found by their key.
row-where_rows :
    (key : TrashEntry → ℕ) (q : TrashEntry → Bool) (i : ℕ) (xs : List TrashEntry)
    → All (λ x. key x == i ≡ true → q x ≡ true) xs
    → row key i (where_rows q xs) ≡ row key i xs
row-where_rows key q i [] h = refl
row-where_rows key q i (x ∷ xs) h = elim (Bool-cases (q x)) [
  | inl keep ↦ ground (arith, row-where_rows key q i xs h.1)
  | inr drop ↦ ground (arith, h.0, row-where_rows key q i xs h.1)
]

row-gone :
    (key : TrashEntry → ℕ) (q : TrashEntry → Bool) (i : ℕ) (xs : List TrashEntry)
    → All (λ x. key x == i ≡ true → q x ≡ false) xs
    → row key i (where_rows q xs) ≡ none
row-gone key q i [] h = refl
row-gone key q i (x ∷ xs) h = elim (Bool-cases (q x)) [
  | inl keep ↦ ground (arith, h.0, row-gone key q i xs h.1)
  | inr drop ↦ ground (arith, row-gone key q i xs h.1)
]

by_node : (x y : TrashEntry) → (y.node_id == x.node_id) ≡ true → entry_clash x y ≡ true
by_node x y h = ground arith

by_id : (x y : TrashEntry) → (y.id == x.id) ≡ true → entry_clash x y ≡ true
by_id x y h = ground arith

module _ (entries : List TrashEntry) (unique : NoClash entry_clash entries) (i : ℕ)
    (entry : TrashEntry) (found : entry_of i entries ≡ some entry) where
  entry-row : row (λ e. e.id) entry.id entries ≡ some entry
  entry-row =
      row-All (λ e. e.node_id) (λ e. row (λ e'. e'.id) e.id entries ≡ some e) i entries entry
        (rows-found (λ e. e.id) entry_clash by_id entries unique) found

  entry-node : entry.node_id ≡ i
  entry-node = key-row (λ e. e.node_id) i entries entry found

  deleted-other :
      (x : ℕ)
      → x ≢ i
      → entry_of x (where_rows (λ e. not (e.id == entry.id)) entries) ≡ entry_of x entries
  deleted-other x other =
      row-where_rows (λ e. e.node_id) (λ e. not (e.id == entry.id)) x entries
        (All-map₂ (λ e. row (λ e'. e'.id) e.id entries ≡ some e)
          (λ e. row (λ e'. e'.id) e.id entries ≡ some e)
          (λ e. e.node_id == x ≡ true → not (e.id == entry.id) ≡ true)
          (λ e at_e _ hit. elim (Bool-cases (e.id == entry.id)) [
            | inl same ↦
                let is : entry ≡ e = eq_of_key (λ e'. e'.id) entry e entries entry-row at_e same in
                absurd (
                  other (
                    sym ((==_iff e.node_id x).0 hit)
                    ∙ ap (λ (f : TrashEntry). f.node_id) (sym is)
                    ∙ entry-node))
            | inr apart ↦ ground arith
          ])
          entries (rows-found (λ e. e.id) entry_clash by_id entries unique)
          (rows-found (λ e. e.id) entry_clash by_id entries unique))

  deleted-own : entry_of i (where_rows (λ e. not (e.id == entry.id)) entries) ≡ none
  deleted-own =
      row-gone (λ e. e.node_id) (λ e. not (e.id == entry.id)) i entries
        (All-map₂ (λ e. row (λ e'. e'.node_id) e.node_id entries ≡ some e)
          (λ e. row (λ e'. e'.node_id) e.node_id entries ≡ some e)
          (λ e. e.node_id == i ≡ true → not (e.id == entry.id) ≡ false)
          (λ e at_e _ hit.
            let is : entry ≡ e =
              eq_of_key (λ e'. e'.node_id) entry e entries
                (subst (λ j. row (λ e'. e'.node_id) j entries ≡ some entry) (sym entry-node) found)
                at_e (rw entry-node hit) in
            subst (λ (f : TrashEntry). not (f.id == entry.id) ≡ false) is (ground arith))
          entries (rows-found (λ e. e.node_id) entry_clash by_node entries unique)
          (rows-found (λ e. e.node_id) entry_clash by_node entries unique))

-- A restore deletes the trash entry of its node alone: a node below it that was trashed on its own
-- before keeps its entry, also where the restore makes it active again.
pub restore_node-entries :
    (id now : ℕ) (db after : Db) (restored : NodeRecord)
    → NoClash entry_clash db.trash_entries
    → restore_node id now db ≡ ok (restored, after)
    → (entry_of id after.trash_entries ≡ none)
      × ((x : ℕ) → x ≢ id → entry_of x after.trash_entries ≡ entry_of x db.trash_entries)
restore_node-entries id now db after restored unique e =
    let (entry, n, subtree, at_entry, at_n, at_subtree, done, at_restored, entries) =
      restore_node-parts id now db after restored e in
    (
      rw entries (deleted-own db.trash_entries unique id entry at_entry),
      λ x other. rw entries (deleted-other db.trash_entries unique id entry at_entry x other),
    )

entry_of-clash :
    (new : TrashEntry) (es : List TrashEntry)
    → any (entry_clash new) es ≡ false
    → entry_of new.node_id es ≡ none
entry_of-clash new [] h = refl
entry_of-clash new (e ∷ es) h = ground (arith, entry_of-clash new es)

-- Each root that gets an entry had none.
insert_entries-none :
    (new_id : ℕ → ℕ) (now : ℕ) (roots : List NodeRecord) (entries after : List TrashEntry)
    → insert_entries new_id now roots entries ≡ ok after
    → All (λ r. entry_of r.id entries ≡ none) roots
unfolding insert_entries
insert_entries-none new_id now [] entries after e = tt
insert_entries-none new_id now (r ∷ rs) entries after e =
    elim (Bool-cases (any (entry_clash (new_entry new_id now r)) entries)) [
      | inl clash ↦ ground arith
      | inr free ↦ (
        entry_of-clash (new_entry new_id now r) entries free,
        All-map₂ (λ s. entry_of s.id (new_entry new_id now r ∷ entries) ≡ none)
            (λ s. entry_of s.id (new_entry new_id now r ∷ entries) ≡ none)
            (λ s. entry_of s.id entries ≡ none) (λ s h _. ground arith) rs
            (insert_entries-none new_id now rs (new_entry new_id now r ∷ entries) after
              (ground arith))
            (insert_entries-none new_id now rs (new_entry new_id now r ∷ entries) after
              (ground arith)),
      )
    ]

-- A selection is moved to the trash only if none of its outermost nodes has a trash entry: an entry
-- that a restore has left bars its node from the trash.
pub trash_selected-no_entry :
    (name_le : String → String → Bool) (new_id : ℕ → ℕ) (selected : List ℕ) (now : ℕ)
    (db after : Db) (moved top : List NodeRecord)
    → outer_roots (where_rows (selected_row selected) db.nodes) selected db.nodes ≡ ok top
    → trash_selected name_le new_id selected now db ≡ ok (moved, after)
    → All (λ r. entry_of r.id db.trash_entries ≡ none) top
unfolding trash_selected
trash_selected-no_entry name_le new_id selected now db after moved top at_top e =
    insert_entries-none new_id now top db.trash_entries after.trash_entries (ground arith)
