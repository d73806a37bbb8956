-- ===== src/Db/Favorites.antt =====
-- The favorites of crates/db/src/lib.rs.
mod Tests
use strife.Base.{
  ℕ, ◌≡◌, String, Option, none, some, List, [], ◌∷◌, Bool, true, false, ◌&&◌, not, arith,
  Bool-cases, inl, inr, leb, ◌==◌, str_eq, if◌then◌else◌, any, elem, find, where_rows, order_by,
}
use strife.Base.Result.{Result, ok, err}
use strife.Domain.{FolderError}
use strife.Db.Schema.{Db, Favorite, NodeKind, NodeRecord, LifecycleState, root_node_id}
use strife.Db.Nodes.{active, get_node_by_id, FolderMutationError, rule}

-- WHERE id = $1 AND lifecycle_state = 'active'
abbrev pub is_active_node : ℕ → List NodeRecord → Bool
is_active_node id = any (λ n. n.id == id && active n)

abbrev pub is_favorite : ℕ → List Favorite → Bool
is_favorite node_id = any (λ f. f.node_id == node_id)

abbrev is_active_row : Option NodeRecord → Bool
is_active_row none = false
is_active_row (some n) = active n

-- ON CONFLICT (node_id) DO NOTHING affects no row.
unfoldable pub add_favorite : ℕ → ℕ → Db → Result FolderMutationError (Unit {0} × Db)
add_favorite node_id now db =
    if node_id == root_node_id
    then err (rule FolderError.not_found)
    else if is_active_node node_id db.nodes && not (is_favorite node_id db.favorites)
    then ok (
      tt,
      record db { favorites = record { node_id = node_id; created_at = now } ∷ db.favorites },
    )
    else if is_active_row (get_node_by_id node_id db.nodes)
    then ok (tt, db)
    else err (rule FolderError.not_found)

unfoldable pub remove_favorite : ℕ → List Favorite → List Favorite
remove_favorite node_id = where_rows (λ f. not (f.node_id == node_id))

pub record FavoriteRecord : Type 0 where
  pub node_id : ℕ
  pub favorited_at : ℕ
  pub name : String
  pub kind : NodeKind
  pub parent_id : Option ℕ
  pub lifecycle_state : LifecycleState
  pub created_at : ℕ
  pub updated_at : ℕ

abbrev pub favorite_of : Favorite → NodeRecord → FavoriteRecord
favorite_of f n = record {
  node_id = f.node_id;
  favorited_at = f.created_at;
  name = n.name;
  kind = n.kind;
  parent_id = n.parent_id;
  lifecycle_state = n.lifecycle_state;
  created_at = n.created_at;
  updated_at = n.updated_at;
}

unfoldable pub join_active : List NodeRecord → List Favorite → List FavoriteRecord
join_active nodes [] = []
join_active nodes (f ∷ fs) = elim (find (λ n. n.id == f.node_id && active n) nodes) [
  | none ↦ join_active nodes fs
  | some n ↦ favorite_of f n ∷ join_active nodes fs
]

-- ORDER BY f.created_at DESC, n.name, n.id
unfoldable pub list_favorites : (String → String → Bool) → Db → List FavoriteRecord
unfolding join_active
list_favorites name_le db =
    order_by
      (λ a b.
        if a.favorited_at == b.favorited_at
        then (if str_eq a.name b.name then leb a.node_id b.node_id else name_le a.name b.name)
        else leb b.favorited_at a.favorited_at)
      (join_active db.nodes db.favorites)

abbrev ids_of : List Favorite → List ℕ
ids_of [] = []
ids_of (f ∷ fs) = f.node_id ∷ ids_of fs

unfoldable pub favorite_ids_among : List ℕ → List Favorite → List ℕ
favorite_ids_among node_ids favorites = ids_of (where_rows (λ f. elem f.node_id node_ids) favorites)

kept :
    (i j : ℕ) (fs : List Favorite)
    → is_favorite i (where_rows (λ f. not (f.node_id == j)) fs) ≡ (is_favorite i fs && not (i == j))
kept i j [] = ground arith
kept i j (f ∷ fs) = elim (Bool-cases (f.node_id == j)) [
  | inl gone ↦ ground (arith, kept i j fs)
  | inr stays ↦ ground (arith, kept i j fs)
]

live_node :
    (id : ℕ) (ns : List NodeRecord)
    → is_active_row (get_node_by_id id ns) ≡ true
    → is_active_node id ns ≡ true
live_node id [] h = cc
live_node id (n ∷ ns) h = elim (Bool-cases (n.id == id)) [
  | inl here ↦ ground arith
  | inr later ↦ ground (arith, live_node id ns)
]

-- Adding a favorite succeeds just for an active node that is not the root; afterwards the node is a
-- favorite, every other node is one as before, and removing it leaves it no favorite.
pub add_favorite_iff :
    (node_id now : ℕ) (db after : Db)
    → add_favorite node_id now db ≡ ok (tt, after)
    → (is_active_node node_id db.nodes ≡ true)
      × (is_favorite node_id after.favorites ≡ true)
      × ((i : ℕ)
          → (i == node_id) ≡ false
          → is_favorite i after.favorites ≡ is_favorite i db.favorites)
      × (is_favorite node_id (remove_favorite node_id after.favorites) ≡ false)
unfolding add_favorite remove_favorite
add_favorite_iff node_id now db after e =
    elim (Bool-cases (is_active_node node_id db.nodes && not (is_favorite node_id db.favorites))) [
      | inl new ↦ (
        ground arith,
        ground arith,
        (λ i other. ground arith),
        rw (kept node_id node_id after.favorites) (ground arith),
      )
      | inr old ↦
          let live : is_active_row (get_node_by_id node_id db.nodes) ≡ true = ground arith in
          let there : is_active_node node_id db.nodes ≡ true = live_node node_id db.nodes live in
          (
            there,
            ground (arith, there),
            (λ i other. ground arith),
            rw (kept node_id node_id after.favorites) (ground arith),
          )
    ]
