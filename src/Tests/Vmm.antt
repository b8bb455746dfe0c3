-- ===== src/Tests/Vmm.antt =====
-- A red-black tree, and a space of two areas.
use ucorebook_code.Prelude.{
  Option, ℕ, ◌+◌, ◌%◌, ◌≤◌, ◌<◌, ◌≡◌, ◌⊎◌, ◌↔◌, inl, inr, refl, sym, Bool, true, false, [], ◌∷◌,
  none, some, ◌==◌, if◌then◌else◌, arith,
}
use ucorebook_code.Mm.Tree.{Tree, leaf, node}
use ucorebook_code.Mm.RbTree.{
  rb_insert, descend, insert_fixup, plug, is_red, blacken, rotate_inner_left, rb_delete,
  delete_from, delete_here, splice, fix_left, fix_left_black,
}
use ucorebook_code.Mm.Vmm.{Vma, Mm, word, userbase, usertop, find_vma, find_vma_list, remember}
use ucorebook_code.Mm.Vmm.Find.{IsMm, find_vma_lem}
use ucorebook_code.Mm.Vmm.Scan.{get_unmapped_area, user_mem_check}
use ucorebook_code.Mm.Vmm.Room.{IsClear, get_unmapped_area-IsHighest}
use ucorebook_code.Mm.Vmm.Access.{IsMmIf, MayAccess, user_mem_check-IsVerdict}

-- Seven nodes inserted in order and one of them deleted, with the colours, and the predecessors.
abbrev fill : ℕ → Tree → Tree
fill x t = rb_insert (λ k. k) x t

abbrev seven : Tree
seven = fill 7 (fill 6 (fill 5 (fill 4 (fill 3 (fill 2 (fill 1 leaf))))))

seven_nodes :
    (seven
      ≡ node false (node false leaf 1 leaf) 2 (
          node true
            (node false leaf 3 leaf)
            4
            (node false (node true leaf 5 leaf) 6 (node true leaf 7 leaf))))
unfolding rb_insert descend insert_fixup plug is_red blacken rotate_inner_left
seven_nodes = refl

one_deleted :
    (rb_delete 1 seven
      ≡ node false
          (node false leaf 2 (node true leaf 3 leaf))
          4
          (node false (node true leaf 5 leaf) 6 (node true leaf 7 leaf)))
unfolding rb_delete delete_from delete_here splice fix_left fix_left_black rb_insert descend
    insert_fixup plug is_red blacken rotate_inner_left
one_deleted = refl

abbrev area : ℕ → ℕ → ℕ → Vma
area start end' flags = record {
  vm_start = start;
  vm_end = end';
  vm_flags = flags;
  shmem = none;
  shmem_off = 0;
}

-- Area 100 has three pages, area 101 one page; 102 is free memory with a page behind them in it.
abbrev areas : ℕ → Vma
areas i =
    if i == 100
    then area 0x200000 0x203000 3
    else if i == 101
    then area 0x205000 0x206000 1
    else area 0x207000 0x208000 3

abbrev two_areas : Mm
two_areas = record {
  vmas = areas;
  mmap_list = 100 ∷ 101 ∷ [];
  mmap_tree = none;
  mmap_cache = some 101;
  map_count = 2;
  shmem_ref = λ s. 0;
  shmem_destroyed = [];
  freed = [];
  unmapped = [];
}

two_areas-IsMm : IsMm two_areas
two_areas-IsMm = record {
  ordered = (omega arith, omega arith, (omega arith, omega arith, tt));
  in_tree = λ t e. cc;
  in_cache = λ x e. inr (inl (let same : 101 ≡ x = ground arith in sym same));
  counted = refl;
}

find_vma_lem_example :
    find_vma 0x204000 two_areas ≡ remember (find_vma_list areas (100 ∷ 101 ∷ []) 0x204000) two_areas
find_vma_lem_example = find_vma_lem two_areas 0x204000 two_areas-IsMm

get_unmapped_area-IsHighest_example :
    ((get_unmapped_area 4096 two_areas ≡ 0)
      ⊎ ((userbase ≤ get_unmapped_area 4096 two_areas)
          × (get_unmapped_area 4096 two_areas + 4096 ≤ usertop)
          × IsClear areas (get_unmapped_area 4096 two_areas) 4096 (100 ∷ 101 ∷ [])))
    × ((s : ℕ)
        → 0 < 4096
        → userbase ≤ s
        → s + 4096 ≤ usertop
        → IsClear areas s 4096 (100 ∷ 101 ∷ [])
        → s ≤ get_unmapped_area 4096 two_areas)
get_unmapped_area-IsHighest_example =
    get_unmapped_area-IsHighest 4096 two_areas
      (omega arith, omega arith, (omega arith, omega arith, tt))

user_mem_check-IsVerdict_example :
    (b : Bool) × (o' : Option Mm) × (user_mem_check 0x202000 4096 true (some two_areas)
      ≡ some (b, o'))
    × IsMmIf o'
    × ((b ≡ true) ↔ MayAccess 0x202000 ((0x202000 + 4096) % word) true (some two_areas))
user_mem_check-IsVerdict_example =
    user_mem_check-IsVerdict 0x202000 4096 true (some two_areas) two_areas-IsMm
