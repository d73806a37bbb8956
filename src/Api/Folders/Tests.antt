-- ===== src/Api/Folders/Tests.antt =====
-- Listings of the folder that has the folder `b` and the file `a`.
use strife.Base.{◌≡◌, ℕ, arith, refl, none, some, List, [], ◌∷◌, false, order_by}
use strife.Base.Result.{ok}
use strife.Base.Text.{codes}
use strife.Db.Samples.{name_lt, mixed, folder_b}
use strife.Db.Favorites.{favorite_ids_among}
use strife.Db.Listing.{
  ChildrenSort, SortOrder, ChildrenKindFilter, Child, comes_before, selected_children,
  list_children_page_sorted,
}
use strife.Api.Folders.{folder_response, parse_sort, parse_order, parse_kinds}
use strife.Api.Folders.Children.{ListChildrenQuery, ChildrenResponse, list_children_request}
use strife.Api.Folders.Listed.{
  IsLimit, Chosen, IsPage, list_children_request-IsPage, list_children_request-ignores_cursor,
}

abbrev query : ListChildrenQuery
query = record { cursor = none; limit = some 1; sort = none; order = none; kind = [] }

-- The page with the folder `b`, whose id is the next cursor.
abbrev page : ChildrenResponse
page = record { items = folder_response false folder_b ∷ []; next_cursor = some 2 }

listed : list_children_request name_lt 1 query mixed [] ≡ ok page
unfolding list_children_request list_children_page_sorted parse_sort parse_order parse_kinds
    favorite_ids_among
listed = refl

list_children_request-IsPage_example :
    (sort : ChildrenSort) × (order : SortOrder) × (kinds : List ChildrenKindFilter) × (xs : List
      Child)
    × (limit : ℕ) × (parse_sort none ≡ ok sort)
    × (parse_order none ≡ ok order)
    × (parse_kinds [] ≡ ok kinds)
    × IsLimit (some 1) limit
    × (xs
        ≡ order_by
            (comes_before name_lt sort order)
            (selected_children name_lt 1 none sort order kinds mixed []))
    × Chosen name_lt 1 sort order kinds xs
    × IsPage limit xs page
list_children_request-IsPage_example =
    list_children_request-IsPage name_lt 1 query mixed [] page listed

abbrev by_size : ListChildrenQuery
by_size = record query { sort = some (codes "size") }

sorted_size : parse_sort by_size.sort ≡ ok ChildrenSort.size
unfolding parse_sort
sorted_size = refl

ascending : parse_order by_size.order ≡ ok SortOrder.asc
unfolding parse_order
ascending = refl

unfiltered : parse_kinds by_size.kind ≡ ok []
unfolding parse_kinds
unfiltered = refl

not_name : ¬ (
    (ChildrenSort.size ≡ ChildrenSort.name)
    × (SortOrder.asc ≡ SortOrder.asc)
    × ◌≡◌ {A = List ChildrenKindFilter} [] [])
not_name h = absurd (ground (arith, h.0))

list_children_request-ignores_cursor_example :
    list_children_request name_lt 1 (record by_size { cursor = some 2 }) mixed []
    ≡ list_children_request name_lt 1 by_size mixed []
list_children_request-ignores_cursor_example =
    list_children_request-ignores_cursor name_lt 1 by_size (some 2) mixed [] ChildrenSort.size
      SortOrder.asc [] sorted_size ascending unfiltered not_name

kinds_read :
    parse_kinds (codes "videos, folder" ∷ codes "all,image,video" ∷ [])
    ≡ ok (ChildrenKindFilter.folder ∷ ChildrenKindFilter.image ∷ ChildrenKindFilter.video ∷ [])
unfolding parse_kinds
kinds_read = refl
