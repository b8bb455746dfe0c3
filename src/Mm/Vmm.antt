-- ===== src/Mm/Vmm.antt =====
-- kern/mm/vmm.c: the areas of an address space. An area is named by its address; `mmap_list` holds
-- the addresses in the order of the links, and `mmap_tree` is `none` for NULL. One address space is
-- modelled, so that `vm_mm` has no entry, and its lock is left out. `unmapped` lists the ranges that
-- were handed to `unmap_range` and `freed` the areas handed to `kfree`; the page tables are not
-- modelled here.
pub mod Map
pub mod Scan
pub mod Whole
pub mod Order
pub mod Find
pub mod Place
pub mod Lists
pub mod Insert
pub mod Flags
pub mod Agree
pub mod Collect
pub mod GiveBack
pub mod Unmap
pub mod Punch
pub mod Refine
pub mod Hole
pub mod Calls
pub mod Mapped
pub mod Room
pub mod Access
use Prim.Native.Nat.{bit_and, bit_or}
use ucorebook_code.Prelude.{
  ℕ, zero, suc, ◌+◌, ◌-◌, ◌%◌, ◌^◌, Bool, true, false, not, ◌&&◌, ◌||◌, ltb, leb, ◌==◌,
  if◌then◌else◌, List, [], ◌∷◌, ◌++◌, Option, none, some, assert, ◌>>=◌, ◌>>◌, update,
}
use ucorebook_code.Prelude.Errno.{e_inval, e_no_mem, Result, ok, err}
use ucorebook_code.Mm.RbTree.{rb_node_prev}
use ucorebook_code.Mm.Tree.{Tree, leaf, node, inorder, without, Ops}

pub record Vma : Type 0 where
  pub vm_start : ℕ
  pub vm_end : ℕ
  pub vm_flags : ℕ
  pub shmem : Option ℕ
  pub shmem_off : ℕ

pub record Mm : Type 0 where
  pub vmas : ℕ → Vma
  pub mmap_list : List ℕ
  pub mmap_tree : Option Tree
  pub mmap_cache : Option ℕ
  pub map_count : ℕ
  pub shmem_ref : ℕ → ℕ
  pub shmem_destroyed : List ℕ
  pub freed : List ℕ
  pub unmapped : List (ℕ × ℕ)

abbrev pub pgsize : ℕ
pgsize = 4096

abbrev pub word : ℕ
word = 2 ^ 32

-- `ROUNDDOWN(a, PGSIZE)` and `ROUNDUP(a, PGSIZE)`
abbrev pub page_down : ℕ → ℕ
page_down a = a - a % pgsize

abbrev pub page_up : ℕ → ℕ
page_up a = page_down ((a + (pgsize - 1)) % word)

abbrev pub userbase : ℕ
userbase = 0x00200000

abbrev pub usertop : ℕ
usertop = 0xB0000000

-- `USER_ACCESS`
abbrev pub user_access : ℕ → ℕ → Bool
user_access start end' = leb userbase start && (ltb start end' && leb end' usertop)

abbrev pub vm_read : ℕ
vm_read = 1

abbrev pub vm_write : ℕ
vm_write = 2

abbrev pub vm_exec : ℕ
vm_exec = 4

abbrev pub vm_stack : ℕ
vm_stack = 8

abbrev pub vm_share : ℕ
vm_share = 16

-- `flags & bit`, as a truth value.
unfoldable pub has : ℕ → ℕ → Bool
has flags bit = not (bit_and flags bit == 0)

unfoldable pub set_vma : ℕ → Vma → Mm → Mm
unfolding update
set_vma a v m = record m { vmas = update m.vmas a v }

-- The address that `kmalloc` gave, with the new area in it.
unfoldable pub vma_create : Option ℕ → ℕ → ℕ → ℕ → Mm → Option ℕ × Mm
unfolding set_vma
vma_create none start end' flags m = (none, m)
vma_create (some a) start end' flags m =
    let v : Vma = record {
      vm_start = start;
      vm_end = end';
      vm_flags = flags;
      shmem = none;
      shmem_off = 0;
    } in
    (some a, set_vma a v m)

unfoldable pub shmem_ref_inc : ℕ → Mm → Mm
unfolding update
shmem_ref_inc s m = record m { shmem_ref = update m.shmem_ref s (m.shmem_ref s + 1) }

unfoldable pub shmem_ref_dec : ℕ → Mm → Mm
unfolding update
shmem_ref_dec s m = record m { shmem_ref = update m.shmem_ref s (m.shmem_ref s - 1) }

-- `shmem_ref_dec`, and `shmem_destroy` where that was the last reference. The source reads through
-- the pointer without a test, so that a NULL pointer is a fault, which is `none`.
unfoldable pub drop_shmem : Option ℕ → Mm → Option Mm
unfolding shmem_ref_dec
drop_shmem none m = none
drop_shmem (some s) m =
    let m' = shmem_ref_dec s m in
    some (if m.shmem_ref s == 1 then record m' { shmem_destroyed = s ∷ m.shmem_destroyed } else m')

unfoldable pub vma_destroy : ℕ → Mm → Option Mm
unfolding drop_shmem
vma_destroy a m =
    let v = m.vmas a in
    do
      m' ← if has v.vm_flags vm_share then drop_shmem v.shmem m else some m
      some (record m' { freed = a ∷ m'.freed })

module _ (f : ℕ → Vma) where
  -- The area found so far, and the tree that is left to search.
  unfoldable pub find_vma_rb : Tree → ℕ → Option ℕ → Option ℕ
  find_vma_rb leaf addr vma = vma
  find_vma_rb (node red l x r) addr vma = elim (ltb addr (f x).vm_end) [
    | true ↦ if leb (f x).vm_start addr then some x else find_vma_rb l addr (some x)
    | false ↦ find_vma_rb r addr vma
  ]

  -- The first area in the list that ends behind the address.
  unfoldable pub find_vma_list : List ℕ → ℕ → Option ℕ
  find_vma_list [] addr = none
  find_vma_list (x ∷ xs) addr =
      let rest = find_vma_list xs addr in if ltb addr (f x).vm_end then some x else rest

  unfoldable pub check_vma_overlap : ℕ → ℕ → Bool
  check_vma_overlap prev next =
      ltb (f prev).vm_start (f prev).vm_end
      && (leb (f prev).vm_end (f next).vm_start && ltb (f next).vm_start (f next).vm_end)

  -- The last area in the list before the first that starts behind the new one.
  unfoldable pub find_prev : List ℕ → ℕ → Option ℕ → Option ℕ
  find_prev [] start prev = prev
  find_prev (x ∷ xs) start prev =
      let rest = find_prev xs start (some x) in if ltb start (f x).vm_start then prev else rest

-- The cached area, where it holds the address.
unfoldable pub cached : ℕ → Mm → Option ℕ
cached addr m = elim m.mmap_cache [
  | none ↦ none
  | some x ↦ if leb (m.vmas x).vm_start addr && ltb addr (m.vmas x).vm_end then some x else none
]

unfoldable pub search_vma : ℕ → Mm → Option ℕ
search_vma addr m = elim m.mmap_tree [
  | none ↦ find_vma_list m.vmas m.mmap_list addr
  | some t ↦ find_vma_rb m.vmas t addr none
]

-- What was found is cached.
unfoldable pub remember : Option ℕ → Mm → Option ℕ × Mm
remember none m = (none, m)
remember (some x) m = (some x, record m { mmap_cache = some x })

unfoldable pub find_vma : ℕ → Mm → Option ℕ × Mm
find_vma addr m = elim (cached addr m) [
  | some x ↦ remember (some x) m
  | none ↦ remember (search_vma addr m) m
]

unfoldable pub find_vma_intersection : ℕ → ℕ → Mm → Option ℕ × Mm
find_vma_intersection start end' m = elim (find_vma start m).0 [
  | none ↦ find_vma start m
  | some x ↦
      if leb end' ((find_vma start m).1.vmas x).vm_start
      then (none, (find_vma start m).1)
      else find_vma start m
]

unfoldable pub insert_after : Option ℕ → ℕ → List ℕ → List ℕ
insert_after none a xs = a ∷ xs
insert_after (some p) a [] = []
insert_after (some p) a (x ∷ xs) =
    let rest = insert_after (some p) a xs in if x == p then x ∷ a ∷ xs else x ∷ rest

-- The area behind `prev`, before the new one is linked.
unfoldable pub next_of : Option ℕ → List ℕ → Option ℕ
next_of none [] = none
next_of none (x ∷ xs) = some x
next_of (some p) [] = none
next_of (some p) (x ∷ xs) =
    let rest = next_of (some p) xs in if x == p then next_of none xs else rest

unfoldable pub check_prev : (ℕ → Vma) → Option ℕ → ℕ → Bool
check_prev f none a = true
check_prev f (some p) a = check_vma_overlap f p a

unfoldable pub check_next : (ℕ → Vma) → ℕ → Option ℕ → Bool
check_next f a none = true
check_next f a (some n) = check_vma_overlap f a n

abbrev pub rb_min_map_count : ℕ
rb_min_map_count = 32

module _ (ops : Ops) where
  abbrev start_of : Mm → ℕ → ℕ
  start_of m x = (m.vmas x).vm_start

  -- The tree with the new area, if there is a tree.
  unfoldable pub tree_with : ℕ → Mm → Option Tree
  tree_with a m = elim m.mmap_tree [ none ↦ none | some t ↦ some (ops.insert (start_of m) a t) ]

  -- The area that the new one is linked behind.
  unfoldable pub prev_of : ℕ → Mm → Option ℕ
  prev_of a m = elim m.mmap_tree [
    | none ↦ find_prev m.vmas m.mmap_list (m.vmas a).vm_start none
    | some t ↦ rb_node_prev a (ops.insert (start_of m) a t)
  ]

  unfoldable pub insert_each : (ℕ → ℕ) → List ℕ → Tree → Tree
  insert_each key [] t = t
  insert_each key (x ∷ xs) t = insert_each key xs (ops.insert key x t)

  -- The tree is built once there are enough areas, if there is memory for it.
  unfoldable pub build_tree : Bool → Mm → Mm
  build_tree got m = elim m.mmap_tree [
    | some t ↦ m
    | none ↦
        if leb rb_min_map_count m.map_count && got
        then record m { mmap_tree = some (insert_each (start_of m) m.mmap_list leaf) }
        else m
  ]

  unfoldable pub insert_vma_struct : Bool → ℕ → Mm → Option Mm
  insert_vma_struct got a m =
      let prev = prev_of a m in
      do
        assert (ltb (m.vmas a).vm_start (m.vmas a).vm_end)
        assert (check_prev m.vmas prev a)
        assert (check_next m.vmas a (next_of prev m.mmap_list))
        some (
            build_tree got (record m {
              mmap_tree = tree_with a m;
              mmap_list = insert_after prev a m.mmap_list;
              map_count = m.map_count + 1;
            }))

  unfoldable pub remove_vma_struct : ℕ → Mm → Mm
  remove_vma_struct a m = record m {
    mmap_tree = elim m.mmap_tree [ none ↦ none | some t ↦ some (ops.delete a t) ];
    mmap_list = without a m.mmap_list;
    mmap_cache = elim m.mmap_cache [ none ↦ none | some x ↦ if a == x then none else some x ];
    map_count = m.map_count - 1;
  }
