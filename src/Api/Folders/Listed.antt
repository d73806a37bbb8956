-- ===== src/Api/Folders/Listed.antt =====
-- list_children of crates/api/src/folders.rs: the page that a client gets.
use strife.Base.{
  ℕ, zero, suc, ◌≤◌, ◌<◌, ◌≡◌, ◌⊎◌, refl, sym, ap, subst, ◌∙◌, String, Option, none, some, List, [],
  ◌∷◌, ◌++◌, ◌==◌, All, map, Bool, true, false, arith, inl, inr, ltb, take, length, order_by,
  Bool-cases, ltb→lt,
}
use strife.Base.Result.{Result, ok, ◌>>=◌, >>=-eq-ok, ok_injective}
use strife.Base.Rows.{All-map₂, All-of_forall}
use strife.Base.Ordered.{order_by-All, order_by-IsOrdered, IsChain, IsOrdered-IsChain, take-whole}
use strife.Db.Favorites.{favorite_ids_among}
use strife.Db.Listing.Order.{Precedes, comes_before-Precedes}
use strife.Db.Listing.Pages.{
  IsChild, IsListed, selected-IsListed, child_of-IsChild, comes_before-total,
}
use strife.Db.Schema.{Db, Favorite}
use strife.Db.Nodes.{get_node_by_id}
use strife.Db.Metadata.{NodeMetadata}
use strife.Db.Listing.{
  ChildrenSort, SortOrder, ChildrenKindFilter, Child, list_children_page_sorted, selected_children,
  comes_before, use_name_cursor, kind_filter,
}
use strife.Api.Folders.{FolderResponse, ApiError, parse_sort, parse_order, parse_kinds}
use strife.Api.Folders.Children.{
  ListChildrenQuery, ChildrenResponse, page_limit, without_last, last_id, page_of, page_item,
  children_response, folder_of, list_children_request,
}

page_limit-bounds : (o : Option ℕ) → (1 ≤ page_limit o) × (page_limit o ≤ 100)
page_limit-bounds none = (omega arith, omega arith)
page_limit-bounds (some n) = (ground arith, ground arith)

-- Taking one row more and dropping it is taking the page.
without_last-take :
    (n : ℕ) (xs : List Child)
    → ltb n (length (take (suc n) xs)) ≡ true
    → without_last (take (suc n) xs) ≡ take n xs
without_last-take n [] h = absurd (ground arith)
without_last-take zero (x ∷ xs) h = refl
without_last-take (suc n) (x ∷ []) h = absurd (ground arith)
without_last-take (suc n) (x ∷ y ∷ ys) h =
    ap (λ l. x ∷ l) (without_last-take n (y ∷ ys) (ground arith))

short-take :
    (n : ℕ) (xs : List Child)
    → ltb n (length (take (suc n) xs)) ≡ false
    → take (suc n) xs ≡ take n xs
short-take zero [] h = refl
short-take zero (x ∷ xs) h = absurd (ground arith)
short-take (suc n) [] h = refl
short-take (suc n) (x ∷ xs) h = ap (λ l. x ∷ l) (short-take n xs (ground arith))

length-take-suc : (n : ℕ) (xs : List Child) → ltb n (length (take (suc n) xs)) ≡ ltb n (length xs)
length-take-suc n [] = refl
length-take-suc zero (x ∷ xs) = ground arith
length-take-suc (suc n) (x ∷ xs) = ground (arith, length-take-suc n xs)

-- The page size for the `limit` of a query: 50 without one, else its value, kept between 1 and 100.
abbrev pub IsLimit : Option ℕ → ℕ → Type 0
IsLimit none limit = limit ≡ 50
IsLimit (some n) limit =
    ((n < 1) × (limit ≡ 1)) ⊎ (((1 ≤ n) × (n ≤ 100) × (limit ≡ n)) ⊎ ((100 < n) × (limit ≡ 100)))

page_limit-IsLimit : (o : Option ℕ) → IsLimit o (page_limit o)
page_limit-IsLimit none = refl
page_limit-IsLimit (some n) = elim (Bool-cases (n == 0)) [
  | inl nothing ↦ inl (ground arith, ground arith)
  | inr given ↦ elim (Bool-cases (ltb 100 n)) [
    | inl more ↦ inr (inr (ground arith, ground arith))
    | inr fits ↦ inr (inl (ground arith, ground arith, ground arith))
  ]
]

-- The ids of the items are those of the children, in their order.
abbrev pub Shows : List Child → ChildrenResponse → Type 0
Shows xs response =
    map (λ (i : FolderResponse). i.id) response.items ≡ map (λ (c : Child). c.node.id) xs

children_response-Shows :
    (xs : List Child) (next : Option ℕ) (favorites : List Favorite)
    → Shows xs (children_response xs next favorites)
children_response-Shows xs next favorites =
    items-ids xs (favorite_ids_among (map (λ (c : Child). c.node.id) xs) favorites)
  where
    items-ids :
        (ys : List Child) (starred : List ℕ)
        → map (λ (i : FolderResponse). i.id) (map (page_item starred) ys)
          ≡ map (λ (c : Child). c.node.id) ys
    items-ids [] starred = refl
    items-ids (y ∷ ys) starred = ap (λ l. y.node.id ∷ l) (items-ids ys starred)

-- The page of `limit` of the children `xs`, with the id of its last child as the cursor, or all of them.
abbrev pub IsPage : ℕ → List Child → ChildrenResponse → Type 0
IsPage limit xs response =
    ((limit < length xs)
      × Shows (take limit xs) response
      × (before : List Child) × (last : Child) × (take limit xs ≡ before ++ last ∷ [])
      × (response.next_cursor ≡ some last.node.id))
    ⊎ ((length xs ≤ limit) × Shows xs response × (response.next_cursor ≡ none))

last_id-last :
    (x : Child) (xs : List Child)
    → (before : List Child) × (last : Child) × (x ∷ xs ≡ before ++ last ∷ [])
      × (last_id (x ∷ xs) ≡ some last.node.id)
last_id-last x [] = ([], x, refl, refl)
last_id-last x (y ∷ ys) =
    let (before, last, same, is) = last_id-last y ys in (x ∷ before, last, ap (λ l. x ∷ l) same, is)

full-page :
    (limit : ℕ) (xs : List Child)
    → 1 ≤ limit
    → limit < length xs
    → (before : List Child) × (last : Child) × (take limit xs ≡ before ++ last ∷ [])
      × (last_id (take limit xs) ≡ some last.node.id)
full-page zero xs some_rows more = absurd (omega (arith, some_rows))
full-page (suc n) [] some_rows more = absurd (omega (arith, more))
full-page (suc n) (x ∷ xs) some_rows more = last_id-last x (take n xs)

page_of-IsPage :
    (limit : ℕ) (xs : List Child) (favorites : List Favorite)
    → 1 ≤ limit
    → IsPage limit xs (page_of limit (take (suc limit) xs) favorites)
page_of-IsPage limit xs favorites some_rows =
    elim (Bool-cases (ltb limit (length (take (suc limit) xs)))) [
      | inl more ↦
          let beyond = ltb→lt limit (length xs) (sym (length-take-suc limit xs) ∙ more) in
          let (before, last, same, is) = full-page limit xs some_rows beyond in
          inl (
            beyond,
            rw (more, without_last-take limit xs more)
                (children_response-Shows (take limit xs) (last_id (take limit xs)) favorites),
            before,
            last,
            same,
            rw (more, without_last-take limit xs more) is,
          )
      | inr rest ↦
          let fits : length xs ≤ limit = ground (arith, sym (length-take-suc limit xs) ∙ rest) in
          inr (
            fits,
            rw (rest, take-whole (suc limit) xs (omega (arith, fits)))
                (children_response-Shows xs none favorites),
            rw rest refl,
          )
    ]

module _ (name_lt : String → String → Bool) where
  -- The children that a listing chooses from, each of them active and in the folder, folders before
  -- files and each kind in the order that the query asks for.
  abbrev pub Chosen : ℕ → ChildrenSort → SortOrder → List ChildrenKindFilter → List Child → Type 0
  Chosen folder_id sort order kinds xs =
      All (λ (c : Child). IsChild name_lt folder_id c.node × (kind_filter kinds c ≡ true)) xs
      × IsChain (Precedes name_lt sort order) xs

  selected-Chosen :
      (folder_id : ℕ) (cursor : Option ℕ) (sort : ChildrenSort) (order : SortOrder)
      (kinds : List ChildrenKindFilter) (db : Db) (metadata : List NodeMetadata)
      → Chosen folder_id sort order kinds (
          order_by
            (comes_before name_lt sort order)
            (selected_children name_lt folder_id cursor sort order kinds db metadata))
  selected-Chosen folder_id cursor sort order kinds db metadata =
      let xs = selected_children name_lt folder_id cursor sort order kinds db metadata in
      let le = comes_before name_lt sort order in
      (
        order_by-All le
            (λ (c : Child). IsChild name_lt folder_id c.node × (kind_filter kinds c ≡ true)) xs
            (All-map₂ (IsListed name_lt folder_id cursor sort order kinds db) (λ _. Unit {0})
              (λ (c : Child). IsChild name_lt folder_id c.node × (kind_filter kinds c ≡ true))
              (λ c h _. (child_of-IsChild name_lt folder_id c.node h.0, h.2)) xs
              (selected-IsListed name_lt folder_id cursor sort order kinds db metadata)
              (All-of_forall (λ _. Unit {0}) (λ _. tt) xs)),
        IsOrdered-IsChain le (Precedes name_lt sort order)
            (comes_before-Precedes name_lt sort order) (order_by le xs)
            (order_by-IsOrdered le (comes_before-total name_lt sort order) xs),
      )

  -- A listing that succeeds shows the first children, in their order, that the database selects: all of
  -- them, with no cursor, or as many as a page holds, with the id of the last one shown as the next
  -- cursor. A page holds 50 children, or as many as the query asks for, kept between 1 and 100. The
  -- children are active, in the folder and of the kinds asked for; folders come before files, and
  -- within a kind the sort's column, in its direction, and then the id decide.
  pub list_children_request-IsPage :
      (folder_id : ℕ) (query : ListChildrenQuery) (db : Db) (metadata : List NodeMetadata)
      (response : ChildrenResponse)
      → list_children_request name_lt folder_id query db metadata ≡ ok response
      → (sort : ChildrenSort) × (order : SortOrder) × (kinds : List ChildrenKindFilter) × (xs : List
          Child)
        × (limit : ℕ) × (parse_sort query.sort ≡ ok sort)
        × (parse_order query.order ≡ ok order)
        × (parse_kinds query.kind ≡ ok kinds)
        × IsLimit query.limit limit
        × (xs
            ≡ order_by
                (comes_before name_lt sort order)
                (selected_children name_lt folder_id query.cursor sort order kinds db metadata))
        × Chosen folder_id sort order kinds xs
        × IsPage limit xs response
  unfolding list_children_request list_children_page_sorted
  list_children_request-IsPage folder_id query db metadata response e =
      let limit = page_limit query.limit in
      let answer : ChildrenSort
          → SortOrder
          → List ChildrenKindFilter
          → Result ApiError ChildrenResponse =
        λ sort order kinds. ok (
          page_of limit
            (list_children_page_sorted name_lt folder_id query.cursor (suc limit) sort order kinds
              db metadata)
            db.favorites) in
      let (n, _, e1) =
        >>=-eq-ok (folder_of (get_node_by_id folder_id db.nodes))
          (λ _. parse_sort query.sort >>= λ sort.
            parse_order query.order >>= λ order. parse_kinds query.kind >>= answer sort order)
          e in
      let (sort, sorted, e2) =
        >>=-eq-ok (parse_sort query.sort)
          (λ sort.
            parse_order query.order >>= λ order. parse_kinds query.kind >>= answer sort order)
          e1 in
      let (order, ordered, e3) =
        >>=-eq-ok (parse_order query.order) (λ order. parse_kinds query.kind >>= answer sort order)
          e2 in
      let (kinds, filtered, e4) = >>=-eq-ok (parse_kinds query.kind) (answer sort order) e3 in
      let xs =
        order_by (comes_before name_lt sort order)
          (selected_children name_lt folder_id query.cursor sort order kinds db metadata) in
      (
        sort,
        order,
        kinds,
        xs,
        limit,
        sorted,
        ordered,
        filtered,
        page_limit-IsLimit query.limit,
        refl,
        selected-Chosen folder_id query.cursor sort order kinds db metadata,
        subst (IsPage limit xs) (ok_injective e4)
            (page_of-IsPage limit xs db.favorites (page_limit-bounds query.limit).0),
      )

  -- Only names in ascending order without a filter use a cursor.
  other-cursor :
      (sort : ChildrenSort) (order : SortOrder) (kinds : List ChildrenKindFilter)
      → ¬ ((sort ≡ ChildrenSort.name) × (order ≡ SortOrder.asc) × (kinds ≡ []))
      → use_name_cursor name_lt sort order kinds ≡ false
  other-cursor ChildrenSort.name SortOrder.asc [] h = absurd (h (refl, refl, refl))
  other-cursor ChildrenSort.name SortOrder.asc (k ∷ ks) h = refl
  other-cursor ChildrenSort.name SortOrder.desc kinds h = refl
  other-cursor ChildrenSort.kind order kinds h = refl
  other-cursor ChildrenSort.size order kinds h = refl
  other-cursor ChildrenSort.updated_at order kinds h = refl
  other-cursor ChildrenSort.created_at order kinds h = refl

  -- In a listing that is not by ascending names, or that has a filter, following the cursor of a page
  -- gives that page again, with the same cursor: the request with any cursor in the place of its own
  -- has the same answer.
  pub list_children_request-ignores_cursor :
      (folder_id : ℕ) (query : ListChildrenQuery) (cursor : Option ℕ) (db : Db)
      (metadata : List NodeMetadata) (sort : ChildrenSort) (order : SortOrder)
      (kinds : List ChildrenKindFilter)
      → parse_sort query.sort ≡ ok sort
      → parse_order query.order ≡ ok order
      → parse_kinds query.kind ≡ ok kinds
      → ¬ ((sort ≡ ChildrenSort.name) × (order ≡ SortOrder.asc) × (kinds ≡ []))
      → list_children_request name_lt folder_id (record query { cursor = cursor }) db metadata
        ≡ list_children_request name_lt folder_id query db metadata
  unfolding list_children_request list_children_page_sorted
  list_children_request-ignores_cursor folder_id query cursor db metadata sort order kinds sorted
        ordered filtered other =
      rw (sorted, ordered, filtered, other-cursor sort order kinds other) refl
