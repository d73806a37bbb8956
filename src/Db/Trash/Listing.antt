-- ===== src/Db/Trash/Listing.antt =====
-- The lists of the trash in crates/db/src/lib.rs.
use strife.Base.{
  ℕ, String, Option, none, some, List, [], ◌∷◌, Bool, ◌&&◌, leb, ◌==◌, str_eq, if◌then◌else◌, find,
  where_rows, order_by, take,
}
use strife.Db.Schema.{Db, NodeKind, NodeRecord, TrashEntry}
use strife.Db.Nodes.Tree.{trashed_row}
use strife.Db.Trash.Deletion.{is_due}

pub record TrashEntryRecord : Type 0 where
  pub id : ℕ
  pub node_id : ℕ
  pub original_parent_id : Option ℕ
  pub trashed_at : ℕ
  pub scheduled_purge_at : ℕ
  pub name : String
  pub kind : NodeKind
  pub parent_id : Option ℕ
  pub created_at : ℕ
  pub updated_at : ℕ

abbrev pub joined : TrashEntry → NodeRecord → TrashEntryRecord
joined e n = record {
  id = e.id;
  node_id = e.node_id;
  original_parent_id = e.original_parent_id;
  trashed_at = e.trashed_at;
  scheduled_purge_at = e.scheduled_purge_at;
  name = n.name;
  kind = n.kind;
  parent_id = n.parent_id;
  created_at = n.created_at;
  updated_at = n.updated_at;
}

-- JOIN nodes AS n ON n.id = te.node_id WHERE n.lifecycle_state = 'trashed'
unfoldable pub join_trashed : List NodeRecord → List TrashEntry → List TrashEntryRecord
join_trashed nodes [] = []
join_trashed nodes (e ∷ es) = elim (find (λ n. n.id == e.node_id && trashed_row n) nodes) [
  | none ↦ join_trashed nodes es
  | some n ↦ joined e n ∷ join_trashed nodes es
]

-- ORDER BY te.trashed_at DESC, n.name, n.id
abbrev pub by_trashing : (String → String → Bool) → TrashEntryRecord → TrashEntryRecord → Bool
by_trashing name_le a b =
    if a.trashed_at == b.trashed_at
    then (if str_eq a.name b.name then leb a.node_id b.node_id else name_le a.name b.name)
    else leb b.trashed_at a.trashed_at

unfoldable pub list_trash : (String → String → Bool) → Db → List TrashEntryRecord
unfolding join_trashed
list_trash name_le db = order_by (by_trashing name_le) (join_trashed db.nodes db.trash_entries)

abbrev pub by_due : TrashEntryRecord → TrashEntryRecord → Bool
by_due a b =
    if a.scheduled_purge_at == b.scheduled_purge_at
    then leb a.id b.id
    else leb a.scheduled_purge_at b.scheduled_purge_at

unfoldable pub list_expired_trash : ℕ → ℕ → Db → List TrashEntryRecord
unfolding join_trashed
list_expired_trash limit now db =
    take limit
      (order_by by_due (join_trashed db.nodes (where_rows (is_due now db.nodes) db.trash_entries)))
