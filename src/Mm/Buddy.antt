-- ===== src/Mm/Buddy.antt =====
-- kern/mm/buddy_pmm.c: blocks of 2^order pages. A page is named by its index in the array of pages;
-- the marks of a page that are used are PG_reserved and PG_property.
pub mod Order
pub mod Conserve
use Prim.Native.Nat.{bit_and, bit_xor}
use ucorebook_code.Prelude.{
  ℕ, zero, suc, ◌+◌, ◌-◌, ◌*◌, ◌%◌, ◌^◌, Bool, true, false, not, ◌&&◌, ltb, leb, ◌==◌,
  if◌then◌else◌, List, [], ◌∷◌, Option, none, some, assert, ◌>>=◌, ◌>>◌, update,
}

abbrev pub max_order : ℕ
max_order = 10

pub record Page : Type 0 where
  pub reserved : Bool
  pub is_free : Bool
  pub property : ℕ
  pub zone_num : ℕ
  pub ref : ℕ

pub record FreeArea : Type 0 where
  pub free_list : List ℕ
  pub nr_free : ℕ

-- `mem_base` by zone.
pub record Pmm : Type 0 where
  pub pages : ℕ → Page
  pub areas : ℕ → FreeArea
  pub mem_base : ℕ → ℕ

unfoldable pub buddy_init : Pmm → Pmm
buddy_init m = record m {
  areas = λ i. if leb i max_order then record { free_list = []; nr_free = 0 } else m.areas i;
}

-- The least order of a block of `n` pages, from `order` on; `none` is the panic.
unfoldable pub getorder_from : ℕ → ℕ → ℕ → Option ℕ
getorder_from zero order n = none
getorder_from (suc rounds) order n =
    let rest = getorder_from rounds (order + 1) n in if leb n (2 ^ order) then some order else rest

unfoldable pub getorder : ℕ → Option ℕ
getorder n = getorder_from (max_order + 1) 0 n

-- The block at `p` is free, and first in the list of its order.
unfoldable pub put : ℕ → ℕ → Pmm → Pmm
unfolding update
put order p m =
    let a = m.areas order in
    record m {
      pages = update m.pages p (record (m.pages p) { property = order; is_free = true });
      areas =
          update m.areas order (record { free_list = p ∷ a.free_list; nr_free = a.nr_free + 1 });
    }

-- The halves behind the page are given back, `rounds` times from order `cur` down.
unfoldable pub split : ℕ → ℕ → ℕ → Pmm → Pmm
split zero cur page m = m
split (suc rounds) cur page m = split rounds (cur - 1) page (put (cur - 1) (page + 2 ^ (cur - 1)) m)

-- The block at the head of the list of order `cur`, cut down to `order`.
unfoldable pub take_block : ℕ → ℕ → ℕ → List ℕ → Pmm → ℕ × Pmm
unfolding update
take_block cur order page rest m =
    let a = m.areas cur in
    let m₁ = record m {
      areas = update m.areas cur (record { free_list = rest; nr_free = a.nr_free - 1 });
    } in
    let m₂ = split (cur - order) cur page m₁ in
    (page, record m₂ { pages = update m₂.pages page (record (m₂.pages page) { is_free = false }) })

-- The orders from `cur` on, `rounds` of them.
unfoldable pub alloc_from : ℕ → ℕ → ℕ → Pmm → Option ℕ × Pmm
alloc_from zero cur order m = (none, m)
alloc_from (suc rounds) cur order m = elim (m.areas cur).free_list [
  | [] ↦ alloc_from rounds (cur + 1) order m
  | p ∷ rest ↦ (some p, (take_block cur order p rest m).1)
]

unfoldable pub buddy_alloc_pages_sub : ℕ → Pmm → Option (Option ℕ × Pmm)
buddy_alloc_pages_sub order m = do
  assert (leb order max_order)
  some (alloc_from (max_order + 1 - order) order order m)

-- The pages of free blocks of orders below `n`.
unfoldable pub nr_free_below : ℕ → Pmm → ℕ
nr_free_below zero m = 0
nr_free_below (suc n) m = nr_free_below n m + (m.areas n).nr_free * 2 ^ n

unfoldable pub buddy_nr_free_pages : Pmm → ℕ
unfolding nr_free_below
buddy_nr_free_pages m = nr_free_below (max_order + 1) m

module _ (npage : ℕ) where
  unfoldable pub page_is_buddy : ℕ → ℕ → ℕ → Pmm → Bool
  page_is_buddy page order zone m =
      let p = m.pages page in
      ltb page npage
      && (p.zone_num == zone && (not p.reserved && (p.is_free && p.property == order)))

  unfoldable pub page2idx : ℕ → Pmm → ℕ
  page2idx page m = page - m.mem_base (m.pages page).zone_num

  unfoldable pub idx2page : ℕ → ℕ → Pmm → ℕ
  idx2page zone idx m = m.mem_base zone + idx

  -- The pages of the block, cleared one by one.
  unfoldable pub clear_pages : ℕ → ℕ → Pmm → Option Pmm
  unfolding update
  clear_pages zero p m = some m
  clear_pages (suc n) p m =
      let v = m.pages p in
      do
        assert (not v.reserved && not v.is_free)
        clear_pages n (p + 1) (record m { pages = update m.pages p (record v { ref = 0 }) })

  unfoldable pub without_page : ℕ → List ℕ → List ℕ
  without_page p [] = []
  without_page p (x ∷ xs) = if x == p then xs else x ∷ without_page p xs

  -- The buddy leaves its list.
  unfoldable pub unlink_buddy : ℕ → ℕ → Pmm → Pmm
  unfolding update without_page
  unlink_buddy order p m =
      let a = m.areas order in
      record m {
        pages = update m.pages p (record (m.pages p) { is_free = false });
        areas =
            update m.areas order
              (record { free_list = without_page p a.free_list; nr_free = a.nr_free - 1 });
      }

  -- The block at `idx` merged with its buddies, `rounds` times at most, and given back.
  unfoldable pub merge : ℕ → ℕ → ℕ → ℕ → Pmm → Pmm
  merge zero zone idx order m = put order (idx2page zone idx m) m
  merge (suc rounds) zone idx order m =
      let buddy_idx = bit_xor idx (2 ^ order) in
      let buddy = idx2page zone buddy_idx m in
      let rest =
        merge rounds zone (bit_and idx buddy_idx) (order + 1) (unlink_buddy order buddy m) in
      if page_is_buddy buddy order zone m then rest else put order (idx2page zone idx m) m

  unfoldable pub buddy_free_pages_sub : ℕ → ℕ → Pmm → Option Pmm
  buddy_free_pages_sub base order m =
      let idx = page2idx base m in
      do
        assert (idx % 2 ^ order == 0)
        m' ← clear_pages (2 ^ order) base m
        some (merge (max_order - order) (m'.pages base).zone_num idx order m')
