-- ===== src/Db/Listing/Tests.antt =====
-- Pages of a folder with the folder `b` and the file `a`.
use strife.Base.{
  ◌≡◌, ◌↔◌, ◌==◌, any, refl, String, none, some, [], ◌∷◌, true, false, str_eq, eq_iff, arith, ◌≢◌,
  All,
}
use strife.Db.Schema.{NodeRecord}
use strife.Db.Samples.{name_lt, folder_b, file_a, mixed}
use strife.Db.Listing.{
  Child, ChildrenSort, SortOrder, joined_child, comes_before, list_children_page_sorted,
}
use strife.Db.Listing.Pages.{
  IsChild, IsAfter, comes_before-not-IsAfter, list_children_page_sorted-IsAfter,
}

abbrev child : NodeRecord → Child
child n = record { node = n; byte_size = 0; media_kind = none }

-- The first page of one child is the folder; the page behind it is empty, and has not the file.
first_page :
    list_children_page_sorted name_lt 1 none 1 ChildrenSort.name SortOrder.asc [] mixed []
    ≡ child folder_b ∷ []
unfolding list_children_page_sorted
first_page = refl

second_page :
    list_children_page_sorted name_lt 1 (some 2) 1 ChildrenSort.name SortOrder.asc [] mixed [] ≡ []
unfolding list_children_page_sorted
second_page = refl

a_not_b : ◌≢◌ {A = String} "a" "b"
a_not_b = ground (arith, eq_iff "a" "b")

strict : (s t : String) → name_lt s t ≡ true → (name_lt t s ≡ false) × (str_eq s t ≡ false)
strict s t h = ground (arith, eq_iff s "a", eq_iff t "b", eq_iff s t, eq_iff t "a", a_not_b)

-- The file `a` comes after the folder `b`, and is not on the page behind it.
never_listed :
    (comes_before name_lt ChildrenSort.name SortOrder.asc
        (joined_child mixed [] folder_b)
        (joined_child mixed [] file_a)
      ≡ true)
    × ¬ IsAfter name_lt folder_b file_a
never_listed = comes_before-not-IsAfter name_lt mixed [] folder_b file_a strict refl refl refl

list_children_page_sorted-IsAfter_example :
    All
      (λ (c : Child). IsChild name_lt 1 c.node × IsAfter name_lt folder_b c.node)
      (list_children_page_sorted name_lt 1 (some 2) 9 ChildrenSort.name SortOrder.asc [] mixed [])
    × ((any
            (λ (c : Child). c.node.id == file_a.id)
            (list_children_page_sorted name_lt 1
              (some 2)
              9
              ChildrenSort.name
              SortOrder.asc
              []
              mixed
              [])
          ≡ true)
        ↔ IsAfter name_lt folder_b file_a)
list_children_page_sorted-IsAfter_example =
    list_children_page_sorted-IsAfter name_lt 1 2 9 mixed [] folder_b file_a
      (refl, (refl, (refl, tt))) refl refl refl (refl, refl) (omega arith)
