-- ===== src/Tests/Mm.antt =====
-- A zone of one block of 8 pages.
use ucorebook_code.Prelude.{
  ℕ, ◌≡◌, ◌==◌, refl, false, if◌then◌else◌, List, [], ◌∷◌, Option, none, some, arith, update,
}
use ucorebook_code.Mm.Buddy.{
  Page, FreeArea, Pmm, getorder, getorder_from, buddy_alloc_pages_sub, alloc_from, take_block,
  split, put, buddy_free_pages_sub, clear_pages, merge, page_is_buddy, idx2page, page2idx,
  unlink_buddy, buddy_nr_free_pages, nr_free_below,
}
use ucorebook_code.Mm.Buddy.Order.{IsLeast, getorder-IsLeast}
use ucorebook_code.Mm.Buddy.Conserve.{IsCounted, Allocates, buddy_alloc_pages_sub-Allocates}

abbrev page_at : ℕ → Page
page_at i = record {
  reserved = false;
  is_free = i == 0;
  property = if i == 0 then 3 else 0;
  zone_num = 0;
  ref = 0;
}

abbrev area_at : ℕ → FreeArea
area_at i =
    if i == 3
    then record { free_list = 0 ∷ []; nr_free = 1 }
    else record { free_list = []; nr_free = 0 }

abbrev zone : Pmm
zone = record { pages = page_at; areas = area_at; mem_base = λ z. 0 }

zone-IsCounted : IsCounted zone
zone-IsCounted i p rest h e = ground arith

getorder_six : getorder 6 ≡ some 3
unfolding getorder getorder_from
getorder_six = refl

abbrev pages_left : Option (Option ℕ × Pmm) → ℕ
pages_left none = 0
pages_left (some out) = buddy_nr_free_pages out.1

alloc_two : pages_left (buddy_alloc_pages_sub 1 zone) ≡ 6
unfolding buddy_alloc_pages_sub alloc_from take_block split put buddy_nr_free_pages nr_free_below
    update
alloc_two = refl

abbrev freed : Option (Option ℕ × Pmm) → Option Pmm
freed none = none
freed (some (none, m)) = none
freed (some (some p, m)) = buddy_free_pages_sub 8 p 1 m

abbrev list_of : ℕ → Option Pmm → List ℕ
list_of i none = []
list_of i (some m) = (m.areas i).free_list

-- The two pages merge with their buddies to the block of 8.
free_merges : list_of 3 (freed (buddy_alloc_pages_sub 1 zone)) ≡ 0 ∷ []
unfolding buddy_alloc_pages_sub alloc_from take_block split put update buddy_free_pages_sub
    clear_pages merge page_is_buddy idx2page page2idx unlink_buddy
free_merges = refl

getorder-IsLeast_example : IsLeast 0 11 6 (getorder 6)
getorder-IsLeast_example = getorder-IsLeast 6

buddy_alloc_pages_sub-Allocates_example :
    (out : Option ℕ × Pmm) × (buddy_alloc_pages_sub 1 zone ≡ some out) × Allocates 1 zone out
buddy_alloc_pages_sub-Allocates_example =
    buddy_alloc_pages_sub-Allocates 1 zone (omega arith) zone-IsCounted
