-- ===== src/Mm/Vmm/Map.antt =====
-- kern/mm/vmm.c: `mm_map`, `mm_map_shmem`, `mm_unmap` and `mm_brk`, and the search for room. The
-- pieces of an address space that the calls need memory for are arguments: the area that `kmalloc`
-- gave, and whether there was memory for a tree.
use Prim.Native.Nat.{bit_or, bit_and}
use ucorebook_code.Prelude.{
  ℕ, ◌+◌, ◌-◌, ◌%◌, Bool, true, false, ◌&&◌, ltb, leb, ◌==◌, if◌then◌else◌, List, [], ◌∷◌, Option,
  none, some, assert, ◌>>=◌, ◌>>◌,
}
use ucorebook_code.Prelude.Errno.{e_inval, e_no_mem, Result, ok, err}
use ucorebook_code.Mm.Tree.{Ops}
use ucorebook_code.Mm.Vmm.{
  Mm, pgsize, word, page_down, page_up, user_access, vm_read, vm_write, vm_share, has,
  shmem_ref_inc, shmem_ref_dec, set_vma, vma_create, vma_destroy, find_vma, insert_vma_struct,
  remove_vma_struct,
}

-- `flags & ~VM_SHARE`
abbrev pub without_share : ℕ → ℕ
without_share flags = flags - bit_and flags vm_share

unfoldable pub vma_resize : ℕ → ℕ → ℕ → Mm → Option Mm
vma_resize a start end' m =
    let v = m.vmas a in
    let off = (v.shmem_off + (start - v.vm_start)) % word in
    do
      assert (start % pgsize == 0 && end' % pgsize == 0)
      assert (leb v.vm_start start && (ltb start end' && leb end' v.vm_end))
      some (
          set_vma a
            (record v {
              shmem_off = if has v.vm_flags vm_share then off else v.shmem_off;
              vm_start = start;
              vm_end = end';
            })
            m)

unfoldable pub unmap_range : ℕ → ℕ → Mm → Mm
unmap_range start end' m = record m { unmapped = (start, end') ∷ m.unmapped }

-- The new area in place, for an area that memory was given for.
unfoldable pub insert_new : Ops → Bool → Option ℕ × Mm → Option (Result ℕ × Mm)
insert_new ops got (none, m) = some (err e_no_mem, m)
insert_new ops got (some a, m) = do m' ← insert_vma_struct ops got a m; some (ok a, m')

-- Whether the range from `start` to `end'` meets the area that was found.
unfoldable pub meets : Option ℕ → ℕ → Mm → Bool
meets none end' m = false
meets (some x) end' m = ltb (m.vmas x).vm_start end'

-- The list from the area `a` on.
unfoldable pub from_area : ℕ → List ℕ → List ℕ
from_area a [] = []
from_area a (x ∷ xs) = let rest = from_area a xs in if x == a then x ∷ xs else rest

module _ (ops : Ops) (got : Bool) where
  -- The new area, if the range does not meet the one that was found.
  unfoldable pub map_found : Option ℕ → ℕ → ℕ → ℕ → Option ℕ × Mm → Option (Result ℕ × Mm)
  map_found mem start end' flags (o, m) = elim (meets o end' m) [
    | true ↦ some (err e_inval, m)
    | false ↦ insert_new ops got (vma_create mem start end' (without_share flags) m)
  ]

  -- The range and the space it is mapped in; the area is the value.
  unfoldable pub mm_map_at : Option ℕ → ℕ → ℕ → ℕ → Mm → Option (Result ℕ × Mm)
  mm_map_at mem start end' flags m = elim (user_access start end') [
    | false ↦ some (err e_inval, m)
    | true ↦ map_found mem start end' flags (find_vma start m)
  ]

  unfoldable pub mm_map : Option ℕ → ℕ → ℕ → ℕ → Mm → Option (Result ℕ × Mm)
  mm_map mem addr len flags m =
      mm_map_at mem (page_down addr) (page_up ((addr + len) % word)) flags m

  -- The area that was mapped is given the shared memory.
  unfoldable pub share : ℕ → Result ℕ × Mm → Result ℕ × Mm
  share s (err e, m) = (err e, shmem_ref_dec s m)
  share s (ok a, m) =
      let v = m.vmas a in
      (
        ok a,
        set_vma a
            (record v { shmem = some s; shmem_off = 0; vm_flags = bit_or v.vm_flags vm_share }) m,
      )

  -- `len` is the length of the shared memory.
  unfoldable pub mm_map_shmem : (ℕ → ℕ) → Option ℕ → ℕ → ℕ → Option ℕ → Mm → Option (Result ℕ × Mm)
  mm_map_shmem len mem addr flags none m = some (err e_inval, m)
  mm_map_shmem len mem addr flags (some s) m = elim (addr % pgsize == 0) [
    | false ↦ some (err e_inval, m)
    | true ↦ do r ← mm_map mem addr (len s) flags (shmem_ref_inc s m); some (share s r)
  ]

  -- The areas that start below `end'` are moved to the free list.
  unfoldable pub collect : ℕ → List ℕ → List ℕ → Mm → List ℕ × Mm
  collect end' free [] m = (free, m)
  collect end' free (x ∷ xs) m = elim (ltb (m.vmas x).vm_start end') [
    | true ↦ collect end' (x ∷ free) xs (remove_vma_struct ops x m)
    | false ↦ (free, m)
  ]

  -- An area of the free list: what is left of it goes back to the space.
  unfoldable pub give_part : ℕ → ℕ → ℕ → Mm → Option Mm
  give_part start end' x m =
      let v = m.vmas x in
      elim (ltb v.vm_start start) [
        | true ↦ do
          m₁ ← vma_resize x v.vm_start start m
          m₂ ← insert_vma_struct ops got x m₁
          some (unmap_range start v.vm_end m₂)
        | false ↦ elim (ltb end' v.vm_end) [
          | true ↦ do
            m₁ ← vma_resize x end' v.vm_end m
            m₂ ← insert_vma_struct ops got x m₁
            some (unmap_range v.vm_start end' m₂)
          | false ↦ do m' ← vma_destroy x m; some (unmap_range v.vm_start v.vm_end m')
        ]
      ]

  unfoldable pub give_parts : ℕ → ℕ → List ℕ → Mm → Option Mm
  give_parts start end' [] m = some m
  give_parts start end' (x ∷ xs) m = do m' ← give_part start end' x m; give_parts start end' xs m'

  -- A hole in the middle of one area: the part below it is a new area.
  unfoldable pub punch : ℕ → ℕ → ℕ → Option ℕ × Mm → Option (Result ℕ × Mm)
  punch start end' x (none, m) = some (err e_no_mem, m)
  punch start end' x (some a, m) = do
    m₁ ← vma_resize x end' (m.vmas x).vm_end m
    m₂ ← insert_vma_struct ops got a m₁
    some (ok 0, unmap_range start end' m₂)

  unfoldable pub unmap_from : Option ℕ → ℕ → ℕ → ℕ → Mm → Option (Result ℕ × Mm)
  unmap_from mem start end' x m =
      let v = m.vmas x in
      let r = collect end' [] (from_area x m.mmap_list) m in
      elim (ltb v.vm_start start && ltb end' v.vm_end) [
        | true ↦ punch start end' x (vma_create mem v.vm_start start v.vm_flags m)
        | false ↦ do m' ← give_parts start end' r.0 r.1; some (ok 0, m')
      ]

  -- The area that was found, if the range meets it.
  unfoldable pub unmap_found : Option ℕ → ℕ → ℕ → Option ℕ × Mm → Option (Result ℕ × Mm)
  unmap_found mem start end' (none, m) = some (ok 0, m)
  unmap_found mem start end' (some x, m) = elim (leb end' (m.vmas x).vm_start) [
    | true ↦ some (ok 0, m)
    | false ↦ unmap_from mem start end' x m
  ]

  unfoldable pub mm_unmap_at : Option ℕ → ℕ → ℕ → Mm → Option (Result ℕ × Mm)
  mm_unmap_at mem start end' m = elim (user_access start end') [
    | false ↦ some (err e_inval, m)
    | true ↦ unmap_found mem start end' (find_vma start m)
  ]

  unfoldable pub mm_unmap : Option ℕ → ℕ → ℕ → Mm → Option (Result ℕ × Mm)
  mm_unmap mem addr len m = mm_unmap_at mem (page_down addr) (page_up ((addr + len) % word)) m

  -- Whether the area ends at `start` and has the flags of the heap.
  unfoldable pub can_grow : ℕ → Option ℕ → Mm → Bool
  can_grow start none m = false
  can_grow start (some x) m =
      (m.vmas x).vm_end == start && (m.vmas x).vm_flags == bit_or vm_read vm_write

  unfoldable pub grow : ℕ → Option ℕ → Mm → Mm
  grow end' none m = m
  grow end' (some x) m = set_vma x (record (m.vmas x) { vm_end = end' }) m

  -- The heap at the range that was made free.
  unfoldable pub extend : Option ℕ → ℕ → ℕ → Result ℕ × Mm → Option (Result ℕ × Mm)
  extend mem start end' (err e, m) = some (err e, m)
  extend mem start end' (ok z, m) =
      let r = find_vma (start - 1) m in
      elim (can_grow start r.0 r.1) [
        | true ↦ some (ok 0, grow end' r.0 r.1)
        | false ↦ insert_new ops got (vma_create mem start end' (bit_or vm_read vm_write) r.1)
      ]

  -- `mem` is for the call of `mm_unmap`, `mem'` for the area itself.
  unfoldable pub mm_brk : Option ℕ → Option ℕ → ℕ → ℕ → Mm → Option (Result ℕ × Mm)
  mm_brk mem mem' addr len m =
      let start = page_down addr in
      let end' = page_up ((addr + len) % word) in
      elim (user_access start end') [
        | false ↦ some (err e_inval, m)
        | true ↦ do r ← mm_unmap mem start (end' - start) m; extend mem' start end' r
      ]
