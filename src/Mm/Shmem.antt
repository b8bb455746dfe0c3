-- ===== src/Mm/Shmem.antt =====
-- kern/mm/shmem.c: shared memory, a sorted list of tables of page entries. A table is named by its
-- address, and its place in the list is found as that of an area in its address space. A page is
-- named by its number; the swap is not modelled, but for the entries that are handed to it.
pub mod Entries
pub mod Tables
use Prim.Native.Nat.{bit_and, bit_or}
use ucorebook_code.Prelude.{
  ℕ, zero, suc, ◌+◌, ◌-◌, ◌*◌, ◌/◌, ◌%◌, Bool, true, false, not, ◌&&◌, ltb, leb, ◌==◌,
  if◌then◌else◌, List, [], ◌∷◌, Option, none, some, assert, ◌>>=◌, ◌>>◌, update,
}
use ucorebook_code.Prelude.Errno.{Result, ok, err, e_no_mem}
use ucorebook_code.Mm.Vmm.{
  Vma, pgsize, word, page_down, find_prev, insert_after, next_of, check_prev, check_next,
}

pub record Shmn : Type 0 where
  pub start : ℕ
  pub end : ℕ
  pub entry : ℕ → ℕ

pub record Shmem : Type 0 where
  pub shmns : ℕ → Shmn
  pub shmn_list : List ℕ
  pub shmn_cache : Option ℕ
  pub len : ℕ
  pub page_ref : ℕ → ℕ
  pub page_swap : ℕ → Bool
  pub dirty : List ℕ
  pub freed : List ℕ
  pub swap_removed : List ℕ
  pub swap_duplicated : List ℕ

abbrev pub shmn_nentry : ℕ
shmn_nentry = 1024

abbrev pub span : ℕ
span = pgsize * shmn_nentry

-- PTE_P and PTE_D
abbrev pub pte_p : ℕ
pte_p = 1

abbrev pub pte_d : ℕ
pte_d = 0x40

unfoldable pub is_present : ℕ → Bool
is_present pte = not (bit_and pte pte_p == 0)

-- The range of a table.
unfoldable pub as_area : Shmn → Vma
as_area s = record { vm_start = s.start; vm_end = s.end; vm_flags = 0; shmem = none; shmem_off = 0 }

unfoldable pub set_entry : ℕ → ℕ → ℕ → Shmem → Shmem
unfolding update
set_entry x i v m =
    let s = m.shmns x in
    record m { shmns = update m.shmns x (record s { entry = update s.entry i v }) }

-- `table` is the memory for the structure and `page` the one for its entries.
unfoldable pub shmn_create : Option ℕ → Option ℕ → ℕ → Shmem → Option (Option ℕ × Shmem)
unfolding update
shmn_create none page start m = do assert (start % pgsize * shmn_nentry == 0); some (none, m)
shmn_create (some a) none start m = do assert (start % pgsize * shmn_nentry == 0); some (none, m)
shmn_create (some a) (some page) start m =
    let s : Shmn = record { start = start; end = (start + span) % word; entry = λ i. 0 } in
    do
      assert (start % pgsize * shmn_nentry == 0)
      some (some a, record m { shmns = update m.shmns a s })

unfoldable pub page_ref_inc : ℕ → Shmem → Shmem
unfolding update
page_ref_inc page m = record m { page_ref = update m.page_ref page (m.page_ref page + 1) }

unfoldable pub page_ref_dec : ℕ → Shmem → Shmem
unfolding update
page_ref_dec page m = record m { page_ref = update m.page_ref page (m.page_ref page - 1) }

-- The entry is given up, but for the store of the zero.
unfoldable pub release : ℕ → Shmem → Shmem
release pte m =
    let page = pte / pgsize in
    let m₁ = page_ref_dec page m in
    let m₂ = if m.page_ref page == 1 then record m₁ { freed = page ∷ m.freed } else m₁ in
    let m₃ = if bit_and pte pte_d == 0 then m₁ else record m₁ { dirty = page ∷ m.dirty } in
    if is_present pte
    then if m.page_swap page then m₃ else m₂
    else if pte == 0
    then m
    else record m { swap_removed = pte ∷ m.swap_removed }

unfoldable pub shmem_remove_entry_pte : ℕ → ℕ → Shmem → Shmem
shmem_remove_entry_pte x i m = set_entry x i 0 (release ((m.shmns x).entry i) m)

unfoldable pub remove_entries : ℕ → ℕ → ℕ → Shmem → Shmem
remove_entries zero x i m = m
remove_entries (suc n) x i m = remove_entries n x (i + 1) (shmem_remove_entry_pte x i m)

unfoldable pub shmn_destroy : ℕ → Shmem → Shmem
shmn_destroy x m = remove_entries shmn_nentry x 0 m

unfoldable pub destroy_shmns : List ℕ → Shmem → Shmem
destroy_shmns [] m = m
destroy_shmns (x ∷ xs) m = destroy_shmns xs (shmn_destroy x (record m { shmn_list = xs }))

unfoldable pub shmem_destroy : Shmem → Shmem
shmem_destroy m = destroy_shmns m.shmn_list m

unfoldable pub holds : ℕ → Shmn → Bool
holds addr s = leb s.start addr && ltb addr s.end

unfoldable pub find_in_list : (ℕ → Shmn) → List ℕ → ℕ → Option ℕ
find_in_list f [] addr = none
find_in_list f (x ∷ xs) addr =
    let rest = find_in_list f xs addr in if holds addr (f x) then some x else rest

unfoldable pub find_cached : ℕ → Shmem → Option ℕ
find_cached addr m = elim m.shmn_cache [
  | none ↦ none
  | some x ↦ if holds addr (m.shmns x) then some x else none
]

unfoldable pub cache_shmn : Option ℕ → Shmem → Option ℕ × Shmem
cache_shmn none m = (none, m)
cache_shmn (some x) m = (some x, record m { shmn_cache = some x })

unfoldable pub find_shmn : ℕ → Shmem → Option ℕ × Shmem
find_shmn addr m = elim (find_cached addr m) [
  | some x ↦ cache_shmn (some x) m
  | none ↦ cache_shmn (find_in_list m.shmns m.shmn_list addr) m
]

unfoldable pub areas : Shmem → ℕ → Vma
areas m x = as_area (m.shmns x)

unfoldable pub insert_shmn : ℕ → Shmem → Option Shmem
insert_shmn a m =
    let prev = find_prev (areas m) m.shmn_list (m.shmns a).start none in
    do
      assert (check_prev (areas m) prev a)
      assert (check_next (areas m) a (next_of prev m.shmn_list))
      some (record m { shmn_list = insert_after prev a m.shmn_list })

-- The table that was found, or a new one.
unfoldable pub new_shmn : Option ℕ × Shmem → Option (Option ℕ × Shmem)
new_shmn (none, m) = some (none, m)
new_shmn (some a, m) = do m' ← insert_shmn a m; some (some a, m')

unfoldable pub have_shmn :
    Bool → Option ℕ → Option ℕ → ℕ → Option ℕ × Shmem → Option (Option ℕ × Shmem)
have_shmn create table page addr (some x, m) = do assert (holds addr (m.shmns x)); some (some x, m)
have_shmn create table page addr (none, m) = elim create [
  | false ↦ some (none, m)
  | true ↦ do r ← shmn_create table page (addr - addr % span) m; new_shmn r
]

-- The page that an empty entry is given.
unfoldable pub fill : Bool → Option ℕ → ℕ → ℕ → Shmem → Shmem
fill create none x i m = m
fill create (some page) x i m =
    if (m.shmns x).entry i == 0 && create
    then page_ref_inc page (set_entry x i (bit_or (page * pgsize) pte_p) m)
    else m

unfoldable pub entry_of : Bool → Option ℕ → ℕ → Option ℕ × Shmem → Option (ℕ × ℕ) × Shmem
entry_of create page addr (none, m) = (none, m)
entry_of create page addr (some x, m) =
    let i = (addr - (m.shmns x).start) / pgsize in (some (x, i), fill create page x i m)

-- The table and the index of the entry. `table` and `entries` are the memory for a new table, and
-- `page` the page for the entry.
unfoldable pub shmem_get_entry :
    Option ℕ → Option ℕ → Option ℕ → ℕ → Bool → Shmem → Option (Option (ℕ × ℕ) × Shmem)
shmem_get_entry table entries page addr create m = do
  assert (ltb addr m.len)
  r ← have_shmn create table entries (page_down addr) (find_shmn (page_down addr) m)
  some (entry_of create page (page_down addr) r)

unfoldable pub store_entry : ℕ → Option (ℕ × ℕ) × Shmem → Result (Unit {0}) × Shmem
store_entry v (none, m) = (err e_no_mem, m)
store_entry v (some (x, i), m) =
    let old = (m.shmns x).entry i in
    let m₁ = if old == 0 then m else shmem_remove_entry_pte x i m in
    let m₂ =
      if is_present v
      then page_ref_inc (v / pgsize) m₁
      else if v == 0
      then m₁
      else record m₁ { swap_duplicated = v ∷ m₁.swap_duplicated } in
    (ok tt, set_entry x i v m₂)

unfoldable pub shmem_insert_entry :
    Option ℕ → Option ℕ → Option ℕ → ℕ → ℕ → Shmem → Option (Result (Unit {0}) × Shmem)
shmem_insert_entry table entries page addr v m = do
  r ← shmem_get_entry table entries page addr true m
  some (store_entry v r)

unfoldable pub shmem_remove_entry :
    Option ℕ → Option ℕ → Option ℕ → ℕ → Shmem → Option (Result (Unit {0}) × Shmem)
shmem_remove_entry table entries page addr m = shmem_insert_entry table entries page addr 0 m
