-- ===== src/Mm/Vmm/Whole.antt =====
-- kern/mm/vmm.c: the calls on a whole address space: `mm_create`, `mm_destroy`, `dup_mmap` and
-- `exit_mmap`. The second loop of `exit_mmap`, which frees page tables, is left out.
use ucorebook_code.Prelude.{
  ℕ, Bool, true, false, if◌then◌else◌, List, [], ◌∷◌, Option, none, some, assert, ◌>>=◌, ◌>>◌, ◌==◌,
}
use ucorebook_code.Prelude.Errno.{e_no_mem, Result, ok, err}
use ucorebook_code.Mm.Tree.{Ops}
use ucorebook_code.Mm.Vmm.{
  Mm, vm_share, has, set_vma, vma_create, vma_destroy, shmem_ref_inc, insert_vma_struct,
}
use ucorebook_code.Mm.Vmm.Map.{unmap_range}
use ucorebook_code.Mm.Vmm.Scan.{backwards}

-- The new space; what is outside it stays.
unfoldable pub mm_create : Mm → Mm
mm_create m = record m { mmap_list = []; mmap_tree = none; mmap_cache = none; map_count = 0 }

unfoldable pub destroy_areas : List ℕ → Mm → Option Mm
destroy_areas [] m = some m
destroy_areas (x ∷ xs) m = do m' ← vma_destroy x (record m { mmap_list = xs }); destroy_areas xs m'

-- `count` is `mm_count(mm)`. The space itself is freed, and with it its tree.
unfoldable pub mm_destroy : ℕ → Mm → Option Mm
mm_destroy count m = do
  assert (count == 0)
  destroy_areas m.mmap_list (record m { mmap_tree = none })

unfoldable pub unmap_areas : List ℕ → Mm → Mm
unmap_areas [] m = m
unmap_areas (x ∷ xs) m = unmap_areas xs (unmap_range (m.vmas x).vm_start (m.vmas x).vm_end m)

unfoldable pub exit_mmap : ℕ → Mm → Option Mm
exit_mmap count m = do assert (count == 0); some (unmap_areas m.mmap_list m)

-- The shared memory of an area that is copied; a NULL pointer is a fault.
unfoldable pub share_with : ℕ → ℕ → Mm → Option Mm
share_with x a m =
    let v = m.vmas x in
    let copy = record (m.vmas a) { shmem = v.shmem; shmem_off = v.shmem_off } in
    elim (has v.vm_flags vm_share) [
      | false ↦ some m
      | true ↦ elim v.shmem [ none ↦ none | some s ↦ some (set_vma a copy (shmem_ref_inc s m)) ]
    ]

-- `mem` has the area that `kmalloc` gave for the copy of each area, `got` whether there was memory
-- for a tree then, and `copied` whether `copy_range` copied its pages.
module _ (ops : Ops) (mem : ℕ → Option ℕ) (got copied : ℕ → Bool) where
  unfoldable pub dup_area : ℕ → Option ℕ × Mm → Option (Result (Unit {0}) × Mm)
  dup_area x (none, m) = some (err e_no_mem, m)
  dup_area x (some a, m) = do
    m₁ ← share_with x a m
    m' ← insert_vma_struct ops (got x) a m₁
    some (if copied x then ok tt else err e_no_mem, m')

  unfoldable pub dup_areas : List ℕ → Mm → Option (Result (Unit {0}) × Mm)
  dup_areas [] m = some (ok tt, m)
  dup_areas (x ∷ xs) m =
      let v = m.vmas x in
      do
        r ← dup_area x (vma_create (mem x) v.vm_start v.vm_end v.vm_flags m)
        elim r.0 [ err e ↦ some (err e, r.1) | ok z ↦ dup_areas xs r.1 ]

  -- Into the space `to`, which has none of the areas `from` yet.
  unfoldable pub dup_mmap : List ℕ → Mm → Option (Result (Unit {0}) × Mm)
  dup_mmap from to = dup_areas (backwards from []) to
